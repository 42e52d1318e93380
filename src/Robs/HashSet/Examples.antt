-- ===== src/Robs/HashSet/Examples.antt =====
-- hash_set.rs: the theorem at a concrete input.
use remoc.Base.{ℕ, ◌≡◌, refl, ◌==◌, Bool, true, false, some, List, [], ◌∷◌, ltb}
use remoc.Robs.HashSet.{
  set_event, remove_event, done_event, ObservableHashSet, MirroredHashSet, set_insert, set_remove,
  set_replace,
}
use remoc.Robs.HashSet.Calls.{
  SetCall, insert_call, replace_call, remove_call, retain_call, done_call, set_calls,
}

abbrev same : ℕ → ℕ → Bool
same x y = x == y

abbrev set_of_two : ObservableHashSet ℕ
set_of_two = record { hs = 1 ∷ 2 ∷ []; is_done = false }

abbrev its_mirror : MirroredHashSet ℕ
its_mirror = record { hs = 1 ∷ 2 ∷ []; complete = true; done = false; max_size = 3 }

abbrev set_calls_made : List (SetCall ℕ)
set_calls_made =
    insert_call 3 ∷ replace_call 2 ∷ remove_call 1 ∷ retain_call (λ x. ltb x 3) ∷ done_call ∷ []

set_calls_sent :
    set_calls same set_calls_made set_of_two
    ≡ some (
      record { hs = 2 ∷ []; is_done = true },
      set_event 3 ∷ set_event 2 ∷ remove_event 1 ∷ remove_event 3 ∷ done_event ∷ [],
    )
unfolding set_insert set_replace set_remove
set_calls_sent = refl
