-- ===== src/Transaction/Manager/Creation.antt =====
-- A new transaction and the agreement of the manager's tables: the handle that is given out,
-- crates/rsiprtp/src/transaction/manager.rs.
pub mod Clients
pub mod Servers
use rsiprtp.Common.{
  ◌+◌, ◌<◌, [], Option-cases, Bool-cases, inl, inr, lookup, lookup-insert, insert-Distinct,
  number_key, ==_iff, arith,
}
use rsiprtp.Transaction.Messages.{Messages}
use rsiprtp.Transaction.TransactionId.{id_key, same_id, same_id_iff}
use rsiprtp.Transaction.Client.Invite.{InviteClientTransaction}
use rsiprtp.Transaction.Client.NonInvite.{NonInviteClientTransaction}
use rsiprtp.Transaction.Server.Invite.{InviteServerTransaction}
use rsiprtp.Transaction.Server.NonInvite.{NonInviteServerTransaction}
use rsiprtp.Transaction.Manager.{
  TransactionManager, invite_client, non_invite_client, invite_server, non_invite_server,
}
use rsiprtp.Transaction.Manager.Store.{
  alloc_handle, register, put_invite_client, put_non_invite_client, put_invite_server,
  put_non_invite_server,
}
use rsiprtp.Transaction.Manager.WellFormed.{Known-of_find, Consistent}

module _ {M : Messages} where
  pub alloc_handle-Consistent :
      (m : TransactionManager M)
      → m.next_handle + 1 < 18446744073709551616
      → Consistent m
      → Consistent (alloc_handle m)
  unfolding alloc_handle
  alloc_handle-Consistent m room v = record {
    invite_clients_Distinct = v.invite_clients_Distinct;
    non_invite_clients_Distinct = v.non_invite_clients_Distinct;
    invite_servers_Distinct = v.invite_servers_Distinct;
    non_invite_servers_Distinct = v.non_invite_servers_Distinct;
    invite_clients_Typed = v.invite_clients_Typed;
    non_invite_clients_Typed = v.non_invite_clients_Typed;
    invite_servers_Typed = v.invite_servers_Typed;
    non_invite_servers_Typed = v.non_invite_servers_Typed;
    standing = λ h. ground (arith, v.standing h);
    fresh = λ h le. v.fresh h (omega arith);
    known = λ id.
        Known-of_find m (alloc_handle m) id (lookup id m.id_to_handle) (λ j. ground arith)
          (v.known id);
  }
