-- ===== src/Transaction/Manager/WellFormed.antt =====
-- The tables of the manager agree with one another.
use rsiprtp.Common.{
  ◌≤◌, [], Option, none, some, Option-cases, inl, inr, lookup, lookup-insert, insert-Distinct,
  Distinct, number_key, ==_iff, ◌≡◌, arith,
}
use rsiprtp.Transaction.Messages.{Messages}
use rsiprtp.Transaction.TransactionId.{TransactionId, id_key}
use rsiprtp.Transaction.Client.Invite.{InviteClientTransaction}
use rsiprtp.Transaction.Client.NonInvite.{NonInviteClientTransaction}
use rsiprtp.Transaction.Server.Invite.{InviteServerTransaction}
use rsiprtp.Transaction.Server.NonInvite.{NonInviteServerTransaction}
use rsiprtp.Transaction.Manager.{
  TransactionManager, TransactionHandle, TransactionType, invite_client, non_invite_client,
  invite_server, non_invite_server,
}
use rsiprtp.Transaction.Manager.Store.{
  put_invite_client, with_invite_client, put_non_invite_client, with_non_invite_client,
  put_invite_server, with_invite_server, put_non_invite_server, with_non_invite_server,
}
use rsiprtp.Transaction.Manager.View.{
  Transaction, client_invite, client_non_invite, server_invite, server_non_invite, find, map_some,
  type_of,
}

-- What a handle's entry in a table says of its type.
abbrev pub Typed : {T : Type 0} → Option T → TransactionType → Option TransactionType → Type 0
Typed none type known = Unit {0}
Typed (some tx) type known = known ≡ some type

module _ {M : Messages} where
  abbrev pub transaction_id : Transaction M → TransactionId
  transaction_id (client_invite tx) = tx.id
  transaction_id (client_non_invite tx) = tx.id
  transaction_id (server_invite tx) = tx.id
  transaction_id (server_non_invite tx) = tx.id

  abbrev pub Known : TransactionManager M → TransactionId → Option TransactionHandle → Type 0
  Known m id none = Unit {0}
  Known m id (some h) = map_some transaction_id (find m h) ≡ some id

  pub Known-of_find :
      (m m' : TransactionManager M) (id : TransactionId) (o : Option TransactionHandle)
      → ((j : TransactionHandle) → find m' j ≡ find m j)
      → Known m id o
      → Known m' id o
  Known-of_find m m' id none same h = tt
  Known-of_find m m' id (some j) same h = rw (same j) h

  -- Each table has a handle once, a transaction in a table has that table's type, a handle that has a type
  -- has a transaction of that type, handles from `next_handle` on are unused, and an id leads to a
  -- transaction with that id.
  pub record Consistent (m : TransactionManager M) : Type 0 where
    pub invite_clients_Distinct : Distinct m.invite_clients
    pub non_invite_clients_Distinct : Distinct m.non_invite_clients
    pub invite_servers_Distinct : Distinct m.invite_servers
    pub non_invite_servers_Distinct : Distinct m.non_invite_servers
    pub invite_clients_Typed :
        (h : TransactionHandle)
        → Typed (lookup h m.invite_clients) invite_client (lookup h m.handle_to_type)
    pub non_invite_clients_Typed :
        (h : TransactionHandle)
        → Typed (lookup h m.non_invite_clients) non_invite_client (lookup h m.handle_to_type)
    pub invite_servers_Typed :
        (h : TransactionHandle)
        → Typed (lookup h m.invite_servers) invite_server (lookup h m.handle_to_type)
    pub non_invite_servers_Typed :
        (h : TransactionHandle)
        → Typed (lookup h m.non_invite_servers) non_invite_server (lookup h m.handle_to_type)
    pub standing : (h : TransactionHandle) → lookup h m.handle_to_type ≡ map_some type_of (find m h)
    pub fresh : (h : TransactionHandle) → m.next_handle ≤ h → lookup h m.handle_to_type ≡ none
    pub known : (id : TransactionId) → Known m id (lookup id m.id_to_handle)

  pub with_invite_client-Consistent :
      (m : TransactionManager M) (h : TransactionHandle)
      (f : InviteClientTransaction M → InviteClientTransaction M)
      → ((tx : InviteClientTransaction M) → (f tx).id ≡ tx.id)
      → Consistent m
      → Consistent (with_invite_client h f m)
  unfolding with_invite_client put_invite_client
  with_invite_client-Consistent m h f kept v = elim (Option-cases (lookup h m.invite_clients)) [
    | inl absent ↦ rw (with_invite_client, absent) v
    | inr (tx, found) ↦
        let new = record (f tx) { actions = [] } in
        rw (with_invite_client, found)
          (record {
            invite_clients_Distinct =
                insert-Distinct h new m.invite_clients v.invite_clients_Distinct;
            non_invite_clients_Distinct = v.non_invite_clients_Distinct;
            invite_servers_Distinct = v.invite_servers_Distinct;
            non_invite_servers_Distinct = v.non_invite_servers_Distinct;
            invite_clients_Typed = λ j. ground (
              arith,
              ==_iff h j,
              lookup-insert h j new m.invite_clients,
              v.invite_clients_Typed j,
            );
            non_invite_clients_Typed = v.non_invite_clients_Typed;
            invite_servers_Typed = v.invite_servers_Typed;
            non_invite_servers_Typed = v.non_invite_servers_Typed;
            standing = λ j.
                ground (arith, v.standing j, ==_iff h j, lookup-insert h j new m.invite_clients);
            fresh = v.fresh;
            known = λ id. elim (Option-cases (lookup id m.id_to_handle)) [
              | inl unknown ↦ rw unknown tt
              | inr (j, leads) ↦ rw leads (
                  ground (
                    arith,
                    v.known id,
                    kept tx,
                    v.invite_clients_Typed h,
                    ==_iff h j,
                    lookup-insert h j new m.invite_clients,
                  ))
            ];
          })
  ]

  pub with_non_invite_client-Consistent :
      (m : TransactionManager M) (h : TransactionHandle)
      (f : NonInviteClientTransaction M → NonInviteClientTransaction M)
      → ((tx : NonInviteClientTransaction M) → (f tx).id ≡ tx.id)
      → Consistent m
      → Consistent (with_non_invite_client h f m)
  unfolding with_non_invite_client put_non_invite_client
  with_non_invite_client-Consistent m h f kept v =
      elim (Option-cases (lookup h m.non_invite_clients)) [
        | inl absent ↦ rw (with_non_invite_client, absent) v
        | inr (tx, found) ↦
            let new = record (f tx) { actions = [] } in
            rw (with_non_invite_client, found)
              (record {
                invite_clients_Distinct = v.invite_clients_Distinct;
                non_invite_clients_Distinct =
                    insert-Distinct h new m.non_invite_clients v.non_invite_clients_Distinct;
                invite_servers_Distinct = v.invite_servers_Distinct;
                non_invite_servers_Distinct = v.non_invite_servers_Distinct;
                invite_clients_Typed = v.invite_clients_Typed;
                non_invite_clients_Typed = λ j. ground (
                  arith,
                  ==_iff h j,
                  lookup-insert h j new m.non_invite_clients,
                  v.non_invite_clients_Typed j,
                );
                invite_servers_Typed = v.invite_servers_Typed;
                non_invite_servers_Typed = v.non_invite_servers_Typed;
                standing = λ j.
                    ground
                      (arith, v.standing j, ==_iff h j, lookup-insert h j new m.non_invite_clients);
                fresh = v.fresh;
                known = λ id. elim (Option-cases (lookup id m.id_to_handle)) [
                  | inl unknown ↦ rw unknown tt
                  | inr (j, leads) ↦ rw leads (
                      ground (
                        arith,
                        v.known id,
                        kept tx,
                        v.non_invite_clients_Typed h,
                        ==_iff h j,
                        lookup-insert h j new m.non_invite_clients,
                      ))
                ];
              })
      ]

  pub with_invite_server-Consistent :
      (m : TransactionManager M) (h : TransactionHandle)
      (f : InviteServerTransaction M → InviteServerTransaction M)
      → ((tx : InviteServerTransaction M) → (f tx).id ≡ tx.id)
      → Consistent m
      → Consistent (with_invite_server h f m)
  unfolding with_invite_server put_invite_server
  with_invite_server-Consistent m h f kept v = elim (Option-cases (lookup h m.invite_servers)) [
    | inl absent ↦ rw (with_invite_server, absent) v
    | inr (tx, found) ↦
        let new = record (f tx) { actions = [] } in
        rw (with_invite_server, found)
          (record {
            invite_clients_Distinct = v.invite_clients_Distinct;
            non_invite_clients_Distinct = v.non_invite_clients_Distinct;
            invite_servers_Distinct =
                insert-Distinct h new m.invite_servers v.invite_servers_Distinct;
            non_invite_servers_Distinct = v.non_invite_servers_Distinct;
            invite_clients_Typed = v.invite_clients_Typed;
            non_invite_clients_Typed = v.non_invite_clients_Typed;
            invite_servers_Typed = λ j. ground (
              arith,
              ==_iff h j,
              lookup-insert h j new m.invite_servers,
              v.invite_servers_Typed j,
            );
            non_invite_servers_Typed = v.non_invite_servers_Typed;
            standing = λ j.
                ground (arith, v.standing j, ==_iff h j, lookup-insert h j new m.invite_servers);
            fresh = v.fresh;
            known = λ id. elim (Option-cases (lookup id m.id_to_handle)) [
              | inl unknown ↦ rw unknown tt
              | inr (j, leads) ↦ rw leads (
                  ground (
                    arith,
                    v.known id,
                    kept tx,
                    v.invite_servers_Typed h,
                    ==_iff h j,
                    lookup-insert h j new m.invite_servers,
                  ))
            ];
          })
  ]

  pub with_non_invite_server-Consistent :
      (m : TransactionManager M) (h : TransactionHandle)
      (f : NonInviteServerTransaction M → NonInviteServerTransaction M)
      → ((tx : NonInviteServerTransaction M) → (f tx).id ≡ tx.id)
      → Consistent m
      → Consistent (with_non_invite_server h f m)
  unfolding with_non_invite_server put_non_invite_server
  with_non_invite_server-Consistent m h f kept v =
      elim (Option-cases (lookup h m.non_invite_servers)) [
        | inl absent ↦ rw (with_non_invite_server, absent) v
        | inr (tx, found) ↦
            let new = record (f tx) { actions = [] } in
            rw (with_non_invite_server, found)
              (record {
                invite_clients_Distinct = v.invite_clients_Distinct;
                non_invite_clients_Distinct = v.non_invite_clients_Distinct;
                invite_servers_Distinct = v.invite_servers_Distinct;
                non_invite_servers_Distinct =
                    insert-Distinct h new m.non_invite_servers v.non_invite_servers_Distinct;
                invite_clients_Typed = v.invite_clients_Typed;
                non_invite_clients_Typed = v.non_invite_clients_Typed;
                invite_servers_Typed = v.invite_servers_Typed;
                non_invite_servers_Typed = λ j. ground (
                  arith,
                  ==_iff h j,
                  lookup-insert h j new m.non_invite_servers,
                  v.non_invite_servers_Typed j,
                );
                standing = λ j.
                    ground
                      (arith, v.standing j, ==_iff h j, lookup-insert h j new m.non_invite_servers);
                fresh = v.fresh;
                known = λ id. elim (Option-cases (lookup id m.id_to_handle)) [
                  | inl unknown ↦ rw unknown tt
                  | inr (j, leads) ↦ rw leads (
                      ground (
                        arith,
                        v.known id,
                        kept tx,
                        v.non_invite_servers_Typed h,
                        ==_iff h j,
                        lookup-insert h j new m.non_invite_servers,
                      ))
                ];
              })
      ]
