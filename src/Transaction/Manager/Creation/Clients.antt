-- ===== src/Transaction/Manager/Creation/Clients.antt =====
-- New client transactions and the agreement of the tables,
-- crates/rsiprtp/src/transaction/manager.rs.
use rsiprtp.Common.{
  ◌+◌, ◌<◌, [], Option-cases, Bool-cases, inl, inr, lookup, lookup-insert, insert-Distinct,
  number_key, ==_iff, arith,
}
use rsiprtp.Transaction.Messages.{Messages}
use rsiprtp.Transaction.TransactionId.{id_key, same_id, same_id_iff}
use rsiprtp.Transaction.Client.Invite.{InviteClientTransaction}
use rsiprtp.Transaction.Client.NonInvite.{NonInviteClientTransaction}
use rsiprtp.Transaction.Manager.{TransactionManager, invite_client, non_invite_client}
use rsiprtp.Transaction.Manager.Store.{
  alloc_handle, register, put_invite_client, put_non_invite_client,
}
use rsiprtp.Transaction.Manager.WellFormed.{Consistent}

module _ {M : Messages} where
  pub create_invite_client-Consistent :
      (m : TransactionManager M) (tx : InviteClientTransaction M)
      → m.next_handle + 1 < 18446744073709551616
      → Consistent m
      → Consistent (
          register tx.id m.next_handle invite_client
            (put_invite_client m.next_handle tx (alloc_handle m)))
  unfolding alloc_handle register put_invite_client
  create_invite_client-Consistent m tx room v =
      let n = m.next_handle in
      let new = record tx { actions = [] } in
      let unused = v.fresh n (omega arith) in
      record {
        invite_clients_Distinct = insert-Distinct n new m.invite_clients v.invite_clients_Distinct;
        non_invite_clients_Distinct = v.non_invite_clients_Distinct;
        invite_servers_Distinct = v.invite_servers_Distinct;
        non_invite_servers_Distinct = v.non_invite_servers_Distinct;
        invite_clients_Typed = λ j. ground (
          arith,
          ==_iff n j,
          lookup-insert n j invite_client m.handle_to_type,
          lookup-insert n j new m.invite_clients,
          v.invite_clients_Typed j,
        );
        non_invite_clients_Typed = λ j. ground (
          arith,
          ==_iff n j,
          lookup-insert n j invite_client m.handle_to_type,
          v.non_invite_clients_Typed j,
        );
        invite_servers_Typed = λ j. ground (
          arith,
          ==_iff n j,
          lookup-insert n j invite_client m.handle_to_type,
          v.invite_servers_Typed j,
        );
        non_invite_servers_Typed = λ j. ground (
          arith,
          ==_iff n j,
          lookup-insert n j invite_client m.handle_to_type,
          v.non_invite_servers_Typed j,
        );
        standing = λ j. ground (
          arith,
          v.standing j,
          unused,
          ==_iff n j,
          lookup-insert n j invite_client m.handle_to_type,
          lookup-insert n j new m.invite_clients,
        );
        fresh = λ h le. ground (arith, v.fresh h, lookup-insert n h invite_client m.handle_to_type);
        known = λ id. elim (Bool-cases (same_id tx.id id)) [
          | inl own ↦
              rw (lookup-insert tx.id id n m.id_to_handle, own)
                (ground (
                  arith,
                  same_id_iff tx.id id,
                  ==_iff n n,
                  lookup-insert n n invite_client m.handle_to_type,
                  lookup-insert n n new m.invite_clients,
                ))
          | inr other ↦
              rw (lookup-insert tx.id id n m.id_to_handle, other)
                (elim (Option-cases (lookup id m.id_to_handle)) [
                  | inl unknown ↦ rw unknown tt
                  | inr (j, leads) ↦ rw leads (
                      ground (
                        arith,
                        v.known id,
                        unused,
                        ==_iff n j,
                        lookup-insert n j invite_client m.handle_to_type,
                        lookup-insert n j new m.invite_clients,
                      ))
                ])
        ];
      }

  pub create_non_invite_client-Consistent :
      (m : TransactionManager M) (tx : NonInviteClientTransaction M)
      → m.next_handle + 1 < 18446744073709551616
      → Consistent m
      → Consistent (
          register tx.id m.next_handle non_invite_client
            (put_non_invite_client m.next_handle tx (alloc_handle m)))
  unfolding alloc_handle register put_non_invite_client
  create_non_invite_client-Consistent m tx room v =
      let n = m.next_handle in
      let new = record tx { actions = [] } in
      let unused = v.fresh n (omega arith) in
      record {
        invite_clients_Distinct = v.invite_clients_Distinct;
        non_invite_clients_Distinct =
            insert-Distinct n new m.non_invite_clients v.non_invite_clients_Distinct;
        invite_servers_Distinct = v.invite_servers_Distinct;
        non_invite_servers_Distinct = v.non_invite_servers_Distinct;
        invite_clients_Typed = λ j. ground (
          arith,
          ==_iff n j,
          lookup-insert n j non_invite_client m.handle_to_type,
          v.invite_clients_Typed j,
        );
        non_invite_clients_Typed = λ j. ground (
          arith,
          ==_iff n j,
          lookup-insert n j non_invite_client m.handle_to_type,
          lookup-insert n j new m.non_invite_clients,
          v.non_invite_clients_Typed j,
        );
        invite_servers_Typed = λ j. ground (
          arith,
          ==_iff n j,
          lookup-insert n j non_invite_client m.handle_to_type,
          v.invite_servers_Typed j,
        );
        non_invite_servers_Typed = λ j. ground (
          arith,
          ==_iff n j,
          lookup-insert n j non_invite_client m.handle_to_type,
          v.non_invite_servers_Typed j,
        );
        standing = λ j. ground (
          arith,
          v.standing j,
          unused,
          ==_iff n j,
          lookup-insert n j non_invite_client m.handle_to_type,
          lookup-insert n j new m.non_invite_clients,
        );
        fresh =
            λ h le. ground (arith, v.fresh h, lookup-insert n h non_invite_client m.handle_to_type);
        known = λ id. elim (Bool-cases (same_id tx.id id)) [
          | inl own ↦
              rw (lookup-insert tx.id id n m.id_to_handle, own)
                (ground (
                  arith,
                  same_id_iff tx.id id,
                  ==_iff n n,
                  lookup-insert n n non_invite_client m.handle_to_type,
                  lookup-insert n n new m.non_invite_clients,
                ))
          | inr other ↦
              rw (lookup-insert tx.id id n m.id_to_handle, other)
                (elim (Option-cases (lookup id m.id_to_handle)) [
                  | inl unknown ↦ rw unknown tt
                  | inr (j, leads) ↦ rw leads (
                      ground (
                        arith,
                        v.known id,
                        unused,
                        ==_iff n j,
                        lookup-insert n j non_invite_client m.handle_to_type,
                        lookup-insert n j new m.non_invite_clients,
                      ))
                ])
        ];
      }
