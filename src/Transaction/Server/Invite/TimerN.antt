-- ===== src/Transaction/Server/Invite/TimerN.antt =====
-- What a firing of Timer N does to the buffer of reliable provisionals, and which actions it queues.
use rsiprtp.Common.{
  ℕ, ◌+◌, ◌≡◌, refl, sym, ap, List, [], ◌∷◌, ◌++◌, append-nil, true, false, not, Option, none, some,
  if◌then◌else◌, inl, inr, ◌⊎◌, min, arith,
}
use rsiprtp.Transaction.Timer.{Timer, timer_n, same_timer}
use rsiprtp.Transaction.TimerValues.{Duration}
use rsiprtp.Transaction.Messages.{Messages}
use rsiprtp.Transaction.Action.{
  Action, send, event, set_timer, cancel_timer, Armed, disarm, apply_actions,
}
use rsiprtp.Transaction.Server.Invite.{
  FinalSent, nothing_sent, non_two_xx, two_xx, Event, request_received, ack_received,
  prack_received, prack_timeout, timeout, transport_error, InviteServerTransaction, fire_timer_n,
  reschedule, send_bytes, timeouts,
}
use rsiprtp.Transaction.Server.Invite.Provisional.{
  ReliableProvisional, Ticked, is_empty, next_due, tick_all, kept, resends, abandoned,
  retain_not_in, retain_ne,
}

-- A timeout of a reliable provisional that is reported as later than a final response.
abbrev pub late_event : {M : Messages} → Event M → ℕ
late_event (request_received r) = 0
late_event ack_received = 0
late_event (prack_received n) = 0
late_event (prack_timeout n nothing_sent) = 0
late_event (prack_timeout n non_two_xx) = 1
late_event (prack_timeout n two_xx) = 1
late_event timeout = 0
late_event transport_error = 0

abbrev pub late : {M : Messages} → List (Action (Event M)) → ℕ
late [] = 0
late (send bytes ∷ as') = late as'
late (event e ∷ as') = late_event e + late as'
late (set_timer t d ∷ as') = late as'
late (cancel_timer t ∷ as') = late as'

-- The buffer that a firing of Timer N leaves, and the actions that it queues.
module _ {M : Messages} where
  abbrev pub due : InviteServerTransaction M → Duration
  due tx = elim (next_due tx.reliable_provisionals) [ none ↦ tx.timers.t1 | some d ↦ d ]

  abbrev pub ticked : InviteServerTransaction M → List Ticked
  ticked tx = tick_all (due tx) tx.timers tx.reliable_provisionals

  abbrev pub left : InviteServerTransaction M → List ReliableProvisional
  left tx = retain_not_in (abandoned (ticked tx)) (kept (ticked tx))

module _ (M : Messages) where
  abbrev timer_for : Option Duration → List (Action (Event M))
  timer_for none = []
  timer_for (some d) = set_timer timer_n d ∷ []

  reschedule_lem :
      (d : Option Duration) (tx : InviteServerTransaction M)
      → reschedule d tx ≡ record tx { actions = tx.actions ++ timer_for d }
  reschedule_lem none tx = λ i. record tx { actions = sym (append-nil tx.actions) i }
  reschedule_lem (some d) tx = refl

  apply_actions-append :
      (xs ys : List (Action (Event M))) (armed : Armed)
      → apply_actions (xs ++ ys) armed ≡ apply_actions ys (apply_actions xs armed)
  apply_actions-append [] ys armed = refl
  apply_actions-append (send b ∷ xs) ys armed = apply_actions-append xs ys armed
  apply_actions-append (event e ∷ xs) ys armed = apply_actions-append xs ys armed
  apply_actions-append (set_timer t d ∷ xs) ys armed = apply_actions-append xs ys _
  apply_actions-append (cancel_timer t ∷ xs) ys armed = apply_actions-append xs ys _

  late-append : (xs ys : List (Action (Event M))) → late (xs ++ ys) ≡ late xs + late ys
  late-append [] ys = omega arith
  late-append (send b ∷ xs) ys = late-append xs ys
  late-append (event e ∷ xs) ys = omega (arith, late-append xs ys)
  late-append (set_timer t d ∷ xs) ys = late-append xs ys
  late-append (cancel_timer t ∷ xs) ys = late-append xs ys

  apply_actions-send_bytes :
      (bs : List (List ℕ)) (armed : Armed) → apply_actions (send_bytes {M = M} bs) armed ≡ armed
  apply_actions-send_bytes [] armed = refl
  apply_actions-send_bytes (b ∷ bs) armed = apply_actions-send_bytes bs armed

  apply_actions-timeouts :
      (f : FinalSent) (ns : List ℕ) (armed : Armed)
      → apply_actions (timeouts {M = M} f ns) armed ≡ armed
  apply_actions-timeouts f [] armed = refl
  apply_actions-timeouts f (n ∷ ns) armed = apply_actions-timeouts f ns armed

  late-send_bytes : (bs : List (List ℕ)) → late (send_bytes {M = M} bs) ≡ 0
  late-send_bytes [] = refl
  late-send_bytes (b ∷ bs) = late-send_bytes bs

  late-timeouts :
      (f : FinalSent) (ns : List ℕ) → f ≡ nothing_sent → late (timeouts {M = M} f ns) ≡ 0
  late-timeouts f [] h = refl
  late-timeouts f (n ∷ ns) h = ground (arith, late-timeouts f ns h)

  late-timer_for : (d : Option Duration) → late (timer_for d) ≡ 0
  late-timer_for none = refl
  late-timer_for (some d) = refl

  abbrev pub queued : InviteServerTransaction M → List (Action (Event M))
  queued tx =
      ((tx.actions ++ send_bytes (resends (ticked tx)))
        ++ timeouts tx.final_sent (abandoned (ticked tx)))
      ++ timer_for (next_due (left tx))

  pub fire_timer_n-full :
      (tx : InviteServerTransaction M)
      → is_empty tx.reliable_provisionals ≡ false
      → fire_timer_n tx ≡ record tx { reliable_provisionals = left tx; actions = queued tx }
  unfolding fire_timer_n
  fire_timer_n-full tx full = rw (full, fire_timer_n) (reschedule_lem (next_due (left tx)) _)

  pub fire_timer_n-empty :
      (tx : InviteServerTransaction M)
      → is_empty tx.reliable_provisionals ≡ true
      → fire_timer_n tx ≡ tx
  unfolding fire_timer_n
  fire_timer_n-empty tx empty = rw (empty, fire_timer_n) refl

  pub late-queued :
      (tx : InviteServerTransaction M)
      → tx.actions ≡ []
      → tx.final_sent ≡ nothing_sent
      → late (queued tx) ≡ 0
  late-queued tx polled h =
      let bytes = resends (ticked tx) in
      let gone = abandoned (ticked tx) in
      let head = tx.actions ++ send_bytes bytes in
      omega (
        arith,
        ap (λ (as' : List (Action (Event M))). late as') polled,
        late-append tx.actions (send_bytes bytes),
        late-append head (timeouts tx.final_sent gone),
        late-append (head ++ timeouts tx.final_sent gone) (timer_for (next_due (left tx))),
        late-send_bytes bytes,
        late-timeouts tx.final_sent gone h,
        late-timer_for (next_due (left tx)),
      )

  pub next_due-cases :
      (l : List ReliableProvisional)
      → ((is_empty l ≡ true) × (next_due l ≡ none))
        ⊎ ((is_empty l ≡ false) × ((d : Duration) × (next_due l ≡ some d)))
  unfolding next_due
  next_due-cases [] = inl (refl, refl)
  next_due-cases (e ∷ l) = elim (next_due-cases l) [
    | inl (a, b) ↦ inr (refl, (e.next_fire_after, rw b refl))
    | inr (a, (d, b)) ↦ inr (refl, (min e.next_fire_after d, rw b refl))
  ]

  -- After a firing Timer N runs exactly if an entry is left, and no other timer has changed.
  pub apply_actions-queued :
      (tx : InviteServerTransaction M) (armed : Armed) (t : Timer)
      → tx.actions ≡ []
      → apply_actions (queued tx) (disarm timer_n armed) t
        ≡ (if same_timer timer_n t then not (is_empty (left tx)) else armed t)
  apply_actions-queued tx armed t polled =
      rw
        (
          polled, apply_actions-append, apply_actions-append, apply_actions-send_bytes,
          apply_actions-timeouts,
        )
        (elim (next_due-cases (left tx)) [
          | inl (a, b) ↦ ground arith
          | inr (a, (d, b)) ↦ ground arith
        ])

  pub is_empty-append :
      (l : List ReliableProvisional) (e : ReliableProvisional) → is_empty (l ++ (e ∷ [])) ≡ false
  is_empty-append [] e = refl
  is_empty-append (x ∷ l) e = refl

  pub is_empty-retain_ne :
      (n : ℕ) (l : List ReliableProvisional) → is_empty l ≡ true → is_empty (retain_ne n l) ≡ true
  unfolding retain_ne
  is_empty-retain_ne n [] h = refl
  is_empty-retain_ne n (x ∷ l) h = cc
