-- ===== src/Transaction/Action.antt =====
-- The actions that every transaction emits (the `Action` of each file of
-- crates/rsiprtp/src/transaction/{client,server}), and the environment that carries them out: which
-- timers are running.
use rsiprtp.Common.{ℕ, List, [], ◌∷◌, Bool, true, false, if◌then◌else◌}
use rsiprtp.Transaction.Timer.{Timer, same_timer}
use rsiprtp.Transaction.TimerValues.{Duration}

-- `E` is the transaction's `Event`.
pub data Action (E : Type 0) : Type 0 where
  send : List ℕ → Action E
  event : E → Action E
  set_timer : Timer → Duration → Action E
  cancel_timer : Timer → Action E

-- The timers that are running.
abbrev pub Armed : Type 0
Armed = Timer → Bool

abbrev pub arm : Timer → Armed → Armed
arm t armed u = if same_timer t u then true else armed u

abbrev pub disarm : Timer → Armed → Armed
disarm t armed u = if same_timer t u then false else armed u

abbrev pub nothing_armed : Armed
nothing_armed _ = false

module _ {E : Type 0} where
  abbrev pub apply_action : Action E → Armed → Armed
  apply_action (send bytes) armed = armed
  apply_action (event e) armed = armed
  apply_action (set_timer t d) armed = arm t armed
  apply_action (cancel_timer t) armed = disarm t armed

  -- The environment takes the actions in the order in which they were queued.
  abbrev pub apply_actions : List (Action E) → Armed → Armed
  apply_actions [] armed = armed
  apply_actions (a ∷ as') armed = apply_actions as' (apply_action a armed)

  -- What goes out on the network.
  abbrev pub sent : List (Action E) → List (List ℕ)
  sent [] = []
  sent (send bytes ∷ as') = bytes ∷ sent as'
  sent (event e ∷ as') = sent as'
  sent (set_timer t d ∷ as') = sent as'
  sent (cancel_timer t ∷ as') = sent as'
