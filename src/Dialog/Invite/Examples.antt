-- ===== src/Dialog/Invite/Examples.antt =====
-- Runs of an INVITE dialog: a caller's, with a PRACK and a BYE, and a callee's, with re-INVITEs.
use rsiprtp.Common.{[], ◌∷◌, List, Option, none, some, inl, inr, ◌≡◌, refl, arith}
use rsiprtp.Transaction.Messages.{invite}
use rsiprtp.Dialog.Messages.{InDialogRequest}
use rsiprtp.Dialog.Sample.{messages, request_with, reply_with}
use rsiprtp.Dialog.State.{
  terminating, DialogInfo, next_local_seq, from_invite_response_uac, from_invite_uas,
  from_response_uac,
}
use rsiprtp.Dialog.Invite.{
  InviteDialog, new_uac, new_uas, handle_response, build_prack, send_bye, build_in_dialog_request,
  build_in_dialog_request_with, build_update, take_provisional, take_success,
}
use rsiprtp.Dialog.Invite.Run.{
  Input, take_response, take_request, answer, hang_up, acknowledge, refresh, World, run, start,
  step,
}
use rsiprtp.Dialog.Invite.Lifecycle.{Due, Descending, dialog-Due, reinvites-Descending}
use rsiprtp.Dialog.Invite.Ending.{bye_never_completes}
use rsiprtp.Dialog.Invite.Built.{CseqKept}
use rsiprtp.Dialog.Invite.Sequence.{sent-Descending}

abbrev caller : InviteDialog messages
caller = new_uac messages (request_with invite "alicetag" "" 1)

abbrev final : Option (World messages) → World messages
final none = start caller
final (some w) = w

abbrev outgoing : List (Input messages)
outgoing =
    take_response (reply_with 183)
    ∷ acknowledge (reply_with 183) "b1"
    ∷ take_response (reply_with 200)
    ∷ refresh (some 1800) "b2"
    ∷ []

abbrev talking : World messages
talking = final (run (start caller) outgoing)

abbrev ended : World messages
ended = final (run talking (hang_up "b3" ∷ []))

dialog-Due_example : Due talking.dialog.info.state talking.established_told talking.ended_told
unfolding run step build_prack build_update
dialog-Due_example =
    dialog-Due caller outgoing talking (request_with invite "alicetag" "" 1, inl refl) refl

abbrev or_else : Option (InviteDialog messages) → InviteDialog messages
or_else none = caller
or_else (some d) = d

abbrev callee : InviteDialog messages
callee =
    or_else (new_uas messages (request_with invite "alicetag" "" 1) "bobtag" "sip:bob@192.168.1.2")

abbrev incoming : List (Input messages)
incoming =
    answer (reply_with 200)
    ∷ take_request (request_with invite "alicetag" "bobtag" 2)
    ∷ take_request (request_with invite "alicetag" "bobtag" 2)
    ∷ take_request (request_with invite "alicetag" "bobtag" 5)
    ∷ []

reinvites-Descending_example : Descending (final (run (start callee) incoming)).reinvites
unfolding new_uas from_invite_uas run step
reinvites-Descending_example =
    reinvites-Descending callee incoming (final (run (start callee) incoming))
      (request_with invite "alicetag" "" 1, inr ("bobtag", "sip:bob@192.168.1.2", refl)) refl

bye_never_completes_example :
    (final (run ended (take_response (reply_with 200) ∷ []))).dialog.info.state ≡ terminating
unfolding run step send_bye build_prack build_update handle_response new_uac take_provisional
    from_invite_response_uac from_response_uac next_local_seq take_success build_in_dialog_request
    build_in_dialog_request_with
bye_never_completes_example =
    bye_never_completes ended (final (run ended (take_response (reply_with 200) ∷ [])))
      (take_response (reply_with 200) ∷ []) refl refl (refl, tt) refl

abbrev answered : World messages
answered = record talking { sent = [] }

abbrev busy : List (Input messages)
busy = refresh none "b1" ∷ refresh (some 90) "b2" ∷ hang_up "b3" ∷ []

messages-CseqKept : CseqKept messages
messages-CseqKept f r e = ground arith

sent-Descending_example : Descending (final (run answered busy)).sent
unfolding run step build_prack build_update handle_response new_uac take_provisional
    from_invite_response_uac from_response_uac next_local_seq take_success send_bye
    build_in_dialog_request build_in_dialog_request_with
sent-Descending_example =
    sent-Descending answered (final (run answered busy)) busy messages-CseqKept refl
      (λ e. ground arith) refl (omega arith) refl

abbrev or_caller :
    Option (InDialogRequest × InviteDialog messages) → InDialogRequest × InviteDialog messages
or_caller none = (request_with invite "alicetag" "" 1, caller)
or_caller (some p) = p

abbrev acknowledged : InDialogRequest × InviteDialog messages
acknowledged = or_caller (build_prack (reply_with 183) "b1" caller)

abbrev info_of : Option DialogInfo → DialogInfo
info_of none = caller.info
info_of (some info) = info

abbrev request_of : Option InDialogRequest → InDialogRequest
request_of none = request_with invite "alicetag" "" 1
request_of (some r) = r

abbrev bye_sent : InDialogRequest
bye_sent = request_of (send_bye "b2" (handle_response (reply_with 200) acknowledged.1)).0
