-- ===== src/Dialog/Manager/Examples.antt =====
-- Runs of the dialog manager: a call that is made, answered and ended by the peer, and one that is rejected.
use rsiprtp.Dialog.Manager.Store.{alloc_handle, put_dialog, same_pending}
use Prim.Native.String.{String}
use rsiprtp.Common.{
  [], ◌∷◌, ◌++◌, List, Option, none, some, lookup, if◌then◌else◌, ◌==◌, ◌≡◌, refl, arith,
  number_key, insert,
}
use rsiprtp.Transaction.Messages.{invite, bye}
use rsiprtp.Dialog.Messages.{InDialogRequest}
use rsiprtp.Dialog.Sample.{messages, request_with, reply_with}
use rsiprtp.Dialog.State.{
  DialogInfo, confirmed, from_invite_response_uac, from_response_uac, same_dialog,
}
use rsiprtp.Dialog.Invite.{InviteDialog, new_uac, take_success}
use rsiprtp.Dialog.Manager.{
  DialogManager, find_dialog_for_response, deliver_response, forget_pending, note_confirmed, new,
  pending_key, find_dialog_for_request, handle_request, handle_response, cleanup_terminated,
  create_dialog,
}
use rsiprtp.Dialog.Invite as Dialogs
use rsiprtp.Dialog.Manager.WellFormed.{Consistent}
use rsiprtp.Dialog.Manager.Run.{Input, create, response, hang_up, step, run}
use rsiprtp.Dialog.Manager.Invariant.{manager-Consistent}
use rsiprtp.Dialog.Manager.View.{map_some, after, told, acts_alone}
use rsiprtp.Dialog.Manager.Ending.{
  bye_then_cleanup_forgets, answered_call_takes_requests, rejected_call_stays_pending,
}

abbrev calling : List (Input messages)
calling = create (request_with invite "alicetag" "" 1) ∷ []

abbrev talking : List (Input messages)
talking = create (request_with invite "alicetag" "" 1) ∷ response (reply_with 200) ∷ []

abbrev contact : String
contact = "sip:alice@192.168.1.1"

abbrev peer_bye : InDialogRequest
peer_bye = request_with bye "bobtag" "alicetag" 1

abbrev caller : InviteDialog messages
caller = new_uac messages (request_with invite "alicetag" "" 1)

abbrev info_of : Option DialogInfo → DialogInfo
info_of none = caller.info
info_of (some info) = info

abbrev m1 : DialogManager messages
m1 = run (new messages contact) calling

abbrev m2 : DialogManager messages
m2 = run (new messages contact) talking

manager-Consistent_example : Consistent (run (new messages contact) talking)
manager-Consistent_example = manager-Consistent contact talking (omega arith)

calling-Consistent : Consistent (run (new messages contact) calling)
calling-Consistent = manager-Consistent contact calling (omega arith)

acts_alone_example :
    (lookup 1 (step m2 (hang_up 1 "b1")).dialogs ≡ (
      if 1 == 1
      then map_some (after (hang_up 1 "b1")) (lookup 1 m2.dialogs)
      else lookup 1 m2.dialogs))
    × ((step m2 (hang_up 1 "b1")).actions
        ≡ m2.actions ++ told 1 (hang_up 1 "b1") (lookup 1 m2.dialogs))
acts_alone_example = acts_alone m2 (hang_up 1 "b1") 1 1 refl

bye_then_cleanup_forgets_example :
    (lookup 1 (cleanup_terminated (handle_request peer_bye "newtag" m2).1).dialogs ≡ none)
    × (find_dialog_for_request peer_bye (cleanup_terminated (handle_request peer_bye "newtag" m2).1)
        ≡ none)
unfolding find_dialog_for_request lookup run step handle_response find_dialog_for_response
    create_dialog insert alloc_handle new same_pending deliver_response put_dialog forget_pending
    note_confirmed same_dialog new_uac Dialogs.handle_response take_success from_invite_response_uac
    from_response_uac
bye_then_cleanup_forgets_example =
    bye_then_cleanup_forgets m2 peer_bye 1 1 "newtag" manager-Consistent_example refl refl refl

answered_call_takes_requests_example :
    (find_dialog_for_request peer_bye (handle_response (reply_with 200) m1).1 ≡ some 1)
    × (lookup ("test@example.com", "alicetag") (handle_response (reply_with 200) m1).1.pending_uac
        ≡ none)
unfolding lookup run step create_dialog insert alloc_handle new same_pending new_uac
    from_invite_response_uac from_response_uac
answered_call_takes_requests_example =
    answered_call_takes_requests m1 (reply_with 200) peer_bye 1 caller
      (info_of (from_invite_response_uac messages caller.invite (reply_with 200) confirmed))
      "test@example.com" "alicetag" "bobtag" refl refl refl refl refl refl refl refl refl refl refl
      refl

rejected_call_stays_pending_example :
    (lookup 1 (cleanup_terminated (handle_response (reply_with 486) m1).1).dialogs ≡ none)
    × ((handle_response
          (reply_with 200)
          (cleanup_terminated (handle_response (reply_with 486) m1).1)).0
        ≡ some 1)
unfolding lookup run step create_dialog insert alloc_handle new same_pending new_uac
rejected_call_stays_pending_example =
    rejected_call_stays_pending m1 (reply_with 486) (reply_with 200) 1 caller "test@example.com"
      "alicetag" calling-Consistent refl refl refl refl refl refl refl refl refl
