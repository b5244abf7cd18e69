-- ===== src/Dialog/Invite/Built.antt =====
-- The CSeq of the requests that an INVITE dialog builds, crates/rsiprtp/src/dialog/invite.rs.
use Prim.Native.String.{String}
use rsiprtp.Common.{◌+◌, [], ◌∷◌, some, Option-cases, inl, inr, ◌≡◌, arith, min, ℕ, Option, none}
use rsiprtp.Transaction.Messages as Requested
use rsiprtp.Dialog.Messages.{DialogMessages, InDialogRequest, Refresher}
use rsiprtp.Dialog.Invite.Requests.{or_zero, allowed, in_dialog}
use rsiprtp.Dialog.State.{terminating, next_local_seq}
use rsiprtp.Dialog.Invite.{
  build_in_dialog_request, build_in_dialog_request_with, InviteDialog, send_bye,
  build_bye_with_reason, build_prack, build_update,
}

-- The builder puts the CSeq that it is given into the request, where `cseq` reads it.
abbrev pub CseqKept : DialogMessages → Type 0
CseqKept D =
    (f : InDialogRequest) (r : D.base.Request)
    → D.build_in_dialog f ≡ some r
    → D.base.cseq r ≡ some f.cseq

module _ {D : DialogMessages} where
  pub send_bye-cseq :
      (d : InviteDialog D) (branch : String) (r : D.base.Request)
      → CseqKept D
      → (send_bye branch d).0 ≡ some r
      → D.base.cseq r ≡ some (send_bye branch d).1.info.local_seq
  unfolding send_bye build_in_dialog_request build_in_dialog_request_with in_dialog
  send_bye-cseq d branch r kept sent =
      let info = next_local_seq (record d.info { state = terminating }) in
      ground (
        arith,
        kept (record (in_dialog info Requested.bye info.local_seq branch) { headers = [] }) r,
      )

  pub build_bye-cseq :
      (d : InviteDialog D) (reason branch : String) (r : D.base.Request)
      → CseqKept D
      → (build_bye_with_reason reason branch d).0 ≡ some r
      → D.base.cseq r ≡ some (build_bye_with_reason reason branch d).1.info.local_seq
  unfolding build_bye_with_reason build_in_dialog_request_with in_dialog
  build_bye-cseq d reason branch r kept sent =
      let cseq = min (d.info.local_seq + 1) 4294967295 in
      ground (
        arith,
        kept
            (record (in_dialog d.info Requested.bye cseq branch) {
              headers = ("Reason", reason) ∷ [];
            })
            r,
      )

  pub build_prack-cseq :
      (d e : InviteDialog D) (to : D.base.Response) (branch : String) (r : D.base.Request)
      → CseqKept D
      → build_prack to branch d ≡ some (r, e)
      → (D.base.cseq r ≡ some e.info.local_seq) × (e ≡ record d { info = next_local_seq d.info })
  unfolding build_prack in_dialog
  build_prack-cseq d e to branch r kept built = elim (Option-cases (D.base.cseq_method to)) [
    | inl missing ↦ absurd (ground arith)
    | inr (method, known) ↦
        let info = next_local_seq d.info in
        ground (
          arith,
          kept
              (record (in_dialog info Requested.prack info.local_seq branch) {
                rack = some (or_zero (D.rseq to), or_zero (D.response_cseq to), method);
              })
              r,
        )
  ]

  pub build_update-cseq :
      (d e : InviteDialog D) (session_expires : Option ℕ) (branch : String) (r : D.base.Request)
      → CseqKept D
      → build_update session_expires branch d ≡ some (r, e)
      → (D.base.cseq r ≡ some e.info.local_seq) × (e ≡ record d { info = next_local_seq d.info })
  unfolding build_update in_dialog
  build_update-cseq d e none branch r kept built =
      let info = next_local_seq d.info in
      ground (
        arith,
        kept (record (in_dialog info Requested.update info.local_seq branch) { allow = allowed }) r,
      )
  build_update-cseq d e (some secs) branch r kept built =
      let info = next_local_seq d.info in
      ground (
        arith,
        kept
            (record (in_dialog info Requested.update info.local_seq branch) {
              allow = allowed;
              session_expires =
                  some (record { delta_seconds = secs; refresher = some Refresher.uac });
              supported = "timer" ∷ [];
            })
            r,
      )
