-- ===== src/Robs/Examples.antt =====
-- vec.rs: the theorems at concrete inputs.
use remoc.Base.{ℕ, ◌≡◌, refl, ◌==◌, Bool, true, false, none, List, [], ◌∷◌, arith}
use remoc.Robs.Observable.{VecEvent, push_event, retain_not_event, done_event, ObservableVec, done}
use remoc.Robs.Subscription.{BroadcastMsg, broadcast_value, broadcast_lagged, subscribe_incremental}
use remoc.Robs.Mirror.{mirror, stopped}
use remoc.Robs.Mirror.Calls.{Call, push_call, retain_call, done_call}
use remoc.Robs.Mirror.Refines.{mirror_incremental-done}

abbrev observed : ObservableVec ℕ
observed = record { v = 1 ∷ 2 ∷ []; is_done = false }

abbrev not_two : ℕ → ℕ → Bool
not_two i x = elim (x == 2) [ true ↦ false | false ↦ true ]

abbrev calls : List (Call ℕ)
calls = push_call 3 ∷ retain_call not_two ∷ done_call ∷ []

abbrev events : List (VecEvent ℕ)
events = push_event 3 ∷ retain_not_event (1 ∷ []) ∷ done_event ∷ []

-- The first event arrives, and the others are lost.
abbrev received : List (BroadcastMsg (VecEvent ℕ))
received = broadcast_value (push_event 3) ∷ broadcast_lagged ∷ []

abbrev all_received : List (BroadcastMsg (VecEvent ℕ))
all_received =
    broadcast_value (push_event 3)
    ∷ broadcast_value (retain_not_event (1 ∷ []))
    ∷ broadcast_value done_event
    ∷ []

abbrev ended : ObservableVec ℕ
ended = record { v = 1 ∷ 3 ∷ []; is_done = true }

mirror_incremental-done_example :
    mirror 9 (subscribe_incremental ended []) 10
    ≡ stopped (record { v = 1 ∷ []; complete = false; done = true; error = none; max_size = 10 })
mirror_incremental-done_example =
    mirror_incremental-done ended [] 9 10 refl (omega arith) (omega arith)
