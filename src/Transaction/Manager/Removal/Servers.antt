-- ===== src/Transaction/Manager/Removal/Servers.antt =====
-- The passes of `cleanup_terminated` over the server transactions.
use rsiprtp.Common.{
  map, Option, none, some, Option-cases, Bool-cases, inl, inr, if◌then◌else◌, lookup, expired,
  contains, contains-expired, contains-expired_label, lookup-remove_all, remove_all-Distinct,
  number_key, ◌≡◌, arith,
}
use rsiprtp.Transaction.Messages.{Messages}
use rsiprtp.Transaction.TransactionId.{id_key}
use rsiprtp.Transaction.Server.Invite as InviteServer
use rsiprtp.Transaction.Server.Invite.{InviteServerTransaction}
use rsiprtp.Transaction.Server.NonInvite as NonInviteServer
use rsiprtp.Transaction.Server.NonInvite.{NonInviteServerTransaction}
use rsiprtp.Transaction.Manager.{TransactionManager, TransactionHandle}
use rsiprtp.Transaction.Manager.Cleanup.{clean_invite_servers, clean_non_invite_servers}
use rsiprtp.Transaction.Manager.View.{Transaction, server_invite, server_non_invite, find}
use rsiprtp.Transaction.Manager.WellFormed.{Consistent}

module _ {M : Messages} where
  unfoldable pub server_invite_lives : Option (Transaction M) → Option (Transaction M)
  server_invite_lives (some (server_invite tx)) =
      if InviteServer.is_terminated tx then none else some (server_invite tx)
  server_invite_lives x = x

  pub clean_invite_servers-find :
      (m : TransactionManager M) (j : TransactionHandle)
      → Consistent m
      → find (clean_invite_servers m) j ≡ server_invite_lives (find m j)
  unfolding clean_invite_servers server_invite_lives
  clean_invite_servers-find m j v =
      let gone = expired InviteServer.is_terminated (λ tx. tx.id) m.invite_servers in
      let handles = map (λ e. e.0) gone in
      ground (
        arith,
        lookup-remove_all handles j m.handle_to_type,
        lookup-remove_all handles j m.invite_servers,
        contains-expired InviteServer.is_terminated (λ tx. tx.id) j m.invite_servers
            v.invite_servers_Distinct,
        v.invite_clients_Typed j,
        v.non_invite_clients_Typed j,
        v.invite_servers_Typed j,
        v.non_invite_servers_Typed j,
      )

  pub clean_invite_servers-Consistent :
      (m : TransactionManager M) → Consistent m → Consistent (clean_invite_servers m)
  unfolding clean_invite_servers server_invite_lives
  clean_invite_servers-Consistent m v =
      let gone = expired InviteServer.is_terminated (λ tx. tx.id) m.invite_servers in
      let handles = map (λ e. e.0) gone in
      let ids = map (λ e. e.1) gone in
      let done = λ (j : TransactionHandle).
        contains-expired InviteServer.is_terminated (λ tx. tx.id) j m.invite_servers
          v.invite_servers_Distinct in
      record {
        invite_clients_Distinct = v.invite_clients_Distinct;
        non_invite_clients_Distinct = v.non_invite_clients_Distinct;
        invite_servers_Distinct =
            remove_all-Distinct handles m.invite_servers v.invite_servers_Distinct;
        non_invite_servers_Distinct = v.non_invite_servers_Distinct;
        invite_clients_Typed = λ j. ground (
          arith,
          lookup-remove_all handles j m.handle_to_type,
          v.invite_clients_Typed j,
          done j,
          v.invite_servers_Typed j,
        );
        non_invite_clients_Typed = λ j. ground (
          arith,
          lookup-remove_all handles j m.handle_to_type,
          v.non_invite_clients_Typed j,
          done j,
          v.invite_servers_Typed j,
        );
        invite_servers_Typed = λ j. ground (
          arith,
          lookup-remove_all handles j m.handle_to_type,
          v.invite_servers_Typed j,
          lookup-remove_all handles j m.invite_servers,
        );
        non_invite_servers_Typed = λ j. ground (
          arith,
          lookup-remove_all handles j m.handle_to_type,
          v.non_invite_servers_Typed j,
          done j,
          v.invite_servers_Typed j,
        );
        standing = λ j. ground (
          arith,
          v.standing j,
          done j,
          lookup-remove_all handles j m.handle_to_type,
          lookup-remove_all handles j m.invite_servers,
          v.invite_clients_Typed j,
          v.non_invite_clients_Typed j,
          v.invite_servers_Typed j,
          v.non_invite_servers_Typed j,
        );
        fresh = λ h le. ground (arith, v.fresh h, lookup-remove_all handles h m.handle_to_type);
        known = λ id. elim (Option-cases (lookup id m.id_to_handle)) [
          | inl unknown ↦ rw (lookup-remove_all ids id m.id_to_handle, unknown) (ground arith)
          | inr (j, leads) ↦ elim (Bool-cases (contains id ids)) [
            | inl removed ↦ rw (lookup-remove_all ids id m.id_to_handle, removed) tt
            | inr stays ↦
                rw (lookup-remove_all ids id m.id_to_handle, stays, leads)
                  (elim (Option-cases (lookup j m.invite_servers)) [
                    | inl elsewhere ↦ ground (arith, clean_invite_servers-find m j v, v.known id)
                    | inr (tx, found) ↦ ground (
                      arith,
                      clean_invite_servers-find m j v,
                      v.known id,
                      contains-expired_label InviteServer.is_terminated (λ tx. tx.id) j tx
                          m.invite_servers,
                    )
                  ])
          ]
        ];
      }

  unfoldable pub server_non_invite_lives : Option (Transaction M) → Option (Transaction M)
  server_non_invite_lives (some (server_non_invite tx)) =
      if NonInviteServer.is_terminated tx then none else some (server_non_invite tx)
  server_non_invite_lives x = x

  pub clean_non_invite_servers-find :
      (m : TransactionManager M) (j : TransactionHandle)
      → Consistent m
      → find (clean_non_invite_servers m) j ≡ server_non_invite_lives (find m j)
  unfolding clean_non_invite_servers server_non_invite_lives
  clean_non_invite_servers-find m j v =
      let gone = expired NonInviteServer.is_terminated (λ tx. tx.id) m.non_invite_servers in
      let handles = map (λ e. e.0) gone in
      ground (
        arith,
        lookup-remove_all handles j m.handle_to_type,
        lookup-remove_all handles j m.non_invite_servers,
        contains-expired NonInviteServer.is_terminated (λ tx. tx.id) j m.non_invite_servers
            v.non_invite_servers_Distinct,
        v.invite_clients_Typed j,
        v.non_invite_clients_Typed j,
        v.invite_servers_Typed j,
        v.non_invite_servers_Typed j,
      )

  pub clean_non_invite_servers-Consistent :
      (m : TransactionManager M) → Consistent m → Consistent (clean_non_invite_servers m)
  unfolding clean_non_invite_servers server_non_invite_lives
  clean_non_invite_servers-Consistent m v =
      let gone = expired NonInviteServer.is_terminated (λ tx. tx.id) m.non_invite_servers in
      let handles = map (λ e. e.0) gone in
      let ids = map (λ e. e.1) gone in
      let done = λ (j : TransactionHandle).
        contains-expired NonInviteServer.is_terminated (λ tx. tx.id) j m.non_invite_servers
          v.non_invite_servers_Distinct in
      record {
        invite_clients_Distinct = v.invite_clients_Distinct;
        non_invite_clients_Distinct = v.non_invite_clients_Distinct;
        invite_servers_Distinct = v.invite_servers_Distinct;
        non_invite_servers_Distinct =
            remove_all-Distinct handles m.non_invite_servers v.non_invite_servers_Distinct;
        invite_clients_Typed = λ j. ground (
          arith,
          lookup-remove_all handles j m.handle_to_type,
          v.invite_clients_Typed j,
          done j,
          v.non_invite_servers_Typed j,
        );
        non_invite_clients_Typed = λ j. ground (
          arith,
          lookup-remove_all handles j m.handle_to_type,
          v.non_invite_clients_Typed j,
          done j,
          v.non_invite_servers_Typed j,
        );
        invite_servers_Typed = λ j. ground (
          arith,
          lookup-remove_all handles j m.handle_to_type,
          v.invite_servers_Typed j,
          done j,
          v.non_invite_servers_Typed j,
        );
        non_invite_servers_Typed = λ j. ground (
          arith,
          lookup-remove_all handles j m.handle_to_type,
          v.non_invite_servers_Typed j,
          lookup-remove_all handles j m.non_invite_servers,
        );
        standing = λ j. ground (
          arith,
          v.standing j,
          done j,
          lookup-remove_all handles j m.handle_to_type,
          lookup-remove_all handles j m.non_invite_servers,
          v.invite_clients_Typed j,
          v.non_invite_clients_Typed j,
          v.invite_servers_Typed j,
          v.non_invite_servers_Typed j,
        );
        fresh = λ h le. ground (arith, v.fresh h, lookup-remove_all handles h m.handle_to_type);
        known = λ id. elim (Option-cases (lookup id m.id_to_handle)) [
          | inl unknown ↦ rw (lookup-remove_all ids id m.id_to_handle, unknown) (ground arith)
          | inr (j, leads) ↦ elim (Bool-cases (contains id ids)) [
            | inl removed ↦ rw (lookup-remove_all ids id m.id_to_handle, removed) tt
            | inr stays ↦
                rw (lookup-remove_all ids id m.id_to_handle, stays, leads)
                  (elim (Option-cases (lookup j m.non_invite_servers)) [
                    | inl elsewhere ↦
                        ground (arith, clean_non_invite_servers-find m j v, v.known id)
                    | inr (tx, found) ↦ ground (
                      arith,
                      clean_non_invite_servers-find m j v,
                      v.known id,
                      contains-expired_label NonInviteServer.is_terminated (λ tx. tx.id) j tx
                          m.non_invite_servers,
                    )
                  ])
          ]
        ];
      }
