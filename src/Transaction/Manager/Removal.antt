-- ===== src/Transaction/Manager/Removal.antt =====
-- `cleanup_terminated` and the agreement of the tables, crates/rsiprtp/src/transaction/manager.rs.
pub mod Clients
pub mod Servers
use rsiprtp.Common.{
  ℕ, ◌+◌, ◌%◌, ◌<◌, ◌≤◌, List, [], ◌∷◌, ◌++◌, map, append-nil, Bool, true, false, Option, none,
  some, Option-cases, Bool-cases, inl, inr, if◌then◌else◌, lookup, insert, remove, remove_all,
  expired, contains, contains-expired, contains-expired_label, is_done, lookup-insert,
  lookup-remove_all, insert-Distinct, remove_all-Distinct, Distinct, number_key, ◌==◌, ==_iff, ◌≡◌,
  ◌≢◌, refl, sym, ap, ◌∙◌, arith,
}
use rsiprtp.Transaction.Messages.{Messages, Method, invite, ack, prack, same_method}
use rsiprtp.Transaction.TransactionId.{TransactionId, id_key, same_id, same_id_iff}
use rsiprtp.Transaction.Client.Invite as InviteClient
use rsiprtp.Transaction.Client.Invite.{InviteClientTransaction}
use rsiprtp.Transaction.Client.NonInvite as NonInviteClient
use rsiprtp.Transaction.Client.NonInvite.{NonInviteClientTransaction}
use rsiprtp.Transaction.Server.Invite as InviteServer
use rsiprtp.Transaction.Server.Invite.{InviteServerTransaction}
use rsiprtp.Transaction.Server.NonInvite as NonInviteServer
use rsiprtp.Transaction.Server.NonInvite.{NonInviteServerTransaction}
use rsiprtp.Transaction.Manager.{
  TransactionManager, TransactionHandle, TransactionType, invite_client, non_invite_client,
  invite_server, non_invite_server,
}
use rsiprtp.Transaction.Manager.Cleanup.{
  clean_invite_clients, clean_non_invite_clients, clean_invite_servers, clean_non_invite_servers,
  cleanup_terminated,
}
use rsiprtp.Transaction.Manager.View.{
  Transaction, client_invite, client_non_invite, server_invite, server_non_invite, find, entry,
  map_some, type_of,
}
use rsiprtp.Transaction.Manager.WellFormed.{Typed, Known, transaction_id, Known-of_find, Consistent}
use Clients.{
  client_invite_lives, clean_invite_clients-find, clean_invite_clients-Consistent,
  client_non_invite_lives, clean_non_invite_clients-find, clean_non_invite_clients-Consistent,
}
use Servers.{
  server_invite_lives, clean_invite_servers-find, clean_invite_servers-Consistent,
  server_non_invite_lives, clean_non_invite_servers-find, clean_non_invite_servers-Consistent,
}

module _ {M : Messages} where
  -- A transaction that is not terminated.
  abbrev pub lives : Option (Transaction M) → Option (Transaction M)
  lives none = none
  lives (some (client_invite tx)) =
      if InviteClient.is_terminated tx then none else some (client_invite tx)
  lives (some (client_non_invite tx)) =
      if NonInviteClient.is_terminated tx then none else some (client_non_invite tx)
  lives (some (server_invite tx)) =
      if InviteServer.is_terminated tx then none else some (server_invite tx)
  lives (some (server_non_invite tx)) =
      if NonInviteServer.is_terminated tx then none else some (server_non_invite tx)

  pub cleanup_terminated-Consistent :
      (m : TransactionManager M) → Consistent m → Consistent (cleanup_terminated m)
  unfolding cleanup_terminated
  cleanup_terminated-Consistent m v = clean_non_invite_servers-Consistent _ (
      clean_invite_servers-Consistent _
        (clean_non_invite_clients-Consistent _ (clean_invite_clients-Consistent m v)))

  abbrev invite_client_of : Option (Transaction M) → Option (InviteClientTransaction M)
  invite_client_of (some (client_invite tx)) = some tx
  invite_client_of x = none

  abbrev non_invite_client_of : Option (Transaction M) → Option (NonInviteClientTransaction M)
  non_invite_client_of (some (client_non_invite tx)) = some tx
  non_invite_client_of x = none

  abbrev invite_server_of : Option (Transaction M) → Option (InviteServerTransaction M)
  invite_server_of (some (server_invite tx)) = some tx
  invite_server_of x = none

  abbrev non_invite_server_of : Option (Transaction M) → Option (NonInviteServerTransaction M)
  non_invite_server_of (some (server_non_invite tx)) = some tx
  non_invite_server_of x = none

  -- What each table of the manager has under the handle when `x` is its transaction: the transaction in
  -- the table of its type, the type in the table of types, and nothing in the other tables.
  abbrev pub Holds : TransactionManager M → TransactionHandle → Option (Transaction M) → Type 0
  Holds m j x =
      (lookup j m.handle_to_type ≡ map_some type_of x)
      × (lookup j m.invite_clients ≡ invite_client_of x)
      × (lookup j m.non_invite_clients ≡ non_invite_client_of x)
      × (lookup j m.invite_servers ≡ invite_server_of x)
      × (lookup j m.non_invite_servers ≡ non_invite_server_of x)

  find-Holds :
      (m : TransactionManager M) (j : TransactionHandle) (x : Option (Transaction M))
      → Consistent m
      → find m j ≡ x
      → Holds m j x
  find-Holds m j x v at = (
    ground (arith, v.standing j, at),
    ground (arith, v.standing j, v.invite_clients_Typed j, at),
    ground (arith, v.standing j, v.non_invite_clients_Typed j, at),
    ground (arith, v.standing j, v.invite_servers_Typed j, at),
    ground (arith, v.standing j, v.non_invite_servers_Typed j, at),
  )

  find_of_cleanup_terminated :
      (m : TransactionManager M) (j : TransactionHandle)
      → Consistent m
      → find (cleanup_terminated m) j ≡ lives (find m j)
  unfolding cleanup_terminated client_invite_lives client_non_invite_lives server_invite_lives
      server_non_invite_lives
  find_of_cleanup_terminated m j v =
      let v1 = clean_invite_clients-Consistent m v in
      let v2 = clean_non_invite_clients-Consistent _ v1 in
      let v3 = clean_invite_servers-Consistent _ v2 in
      ground (
        arith,
        clean_invite_clients-find m j v,
        clean_non_invite_clients-find (clean_invite_clients m) j v1,
        clean_invite_servers-find (clean_non_invite_clients (clean_invite_clients m)) j v2,
        clean_non_invite_servers-find
            (clean_invite_servers (clean_non_invite_clients (clean_invite_clients m))) j v3,
      )

  -- After `cleanup_terminated` of tables in agreement, a handle leads to the transaction it led to before,
  -- if that is not terminated, and else to nothing; and under that handle each of the four tables of
  -- transactions and the table of types has what this transaction calls for and nothing else, so that no
  -- table keeps an entry of a terminated one.
  pub find-cleanup_terminated :
      (m : TransactionManager M) (j : TransactionHandle)
      → Consistent m
      → (find (cleanup_terminated m) j ≡ lives (find m j))
        × Holds (cleanup_terminated m) j (lives (find m j))
  find-cleanup_terminated m j v =
      let cleaned = find_of_cleanup_terminated m j v in
      (
        cleaned,
        find-Holds (cleanup_terminated m) j (lives (find m j)) (cleanup_terminated-Consistent m v)
            cleaned,
      )
