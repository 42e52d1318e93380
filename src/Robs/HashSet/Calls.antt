-- ===== src/Robs/HashSet/Calls.antt =====
-- hash_set.rs: any calls on an observed hash set in turn.
use remoc.Base.{Bool, Option, none, some, List, [], ◌∷◌, ◌++◌}
use remoc.Robs.HashSet.{
  HashSetEvent, ObservableHashSet, SetChange, set_changed, set_panicked, set_insert, set_replace,
  set_take, set_remove, set_clear, set_retain, set_shrink_to_fit, set_done,
}

-- The calls that change a hash set.
pub data SetCall {ℓ} (A : Type ℓ) : Type ℓ where
  insert_call : A → SetCall A
  replace_call : A → SetCall A
  remove_call : A → SetCall A
  take_call : A → SetCall A
  clear_call : SetCall A
  retain_call : (A → Bool) → SetCall A
  shrink_to_fit_call : SetCall A
  done_call : SetCall A

module _ {ℓ} {A : Type ℓ} (eq : A → A → Bool) where
  abbrev pub Sent : Type ℓ
  Sent = ObservableHashSet A × List (HashSetEvent A)

  -- What a call does apart from the value that it returns; `none` is a panic.
  abbrev pub effect_of {κ} : {R : Type κ} → SetChange A R → Option Sent
  effect_of (set_changed o events r) = some (o, events)
  effect_of set_panicked = none

  abbrev pub set_call : SetCall A → ObservableHashSet A → Option Sent
  set_call (insert_call x) o = effect_of (set_insert eq o x)
  set_call (replace_call x) o = effect_of (set_replace eq o x)
  set_call (remove_call x) o = effect_of (set_remove eq o x)
  set_call (take_call x) o = effect_of (set_take eq o x)
  set_call clear_call o = effect_of (set_clear eq o)
  set_call (retain_call f) o = effect_of (set_retain eq o f)
  set_call shrink_to_fit_call o = effect_of (set_shrink_to_fit eq o)
  set_call done_call o = effect_of (set_done eq o)

  abbrev pub with_events : List (HashSetEvent A) → Option Sent → Option Sent
  with_events events none = none
  with_events events (some (o, more)) = some (o, events ++ more)

  abbrev pub then_calls : Option Sent → (ObservableHashSet A → Option Sent) → Option Sent
  then_calls none go_on = none
  then_calls (some (o, events)) go_on = with_events events (go_on o)

  -- The calls in turn, with all events.
  abbrev pub set_calls : List (SetCall A) → ObservableHashSet A → Option Sent
  set_calls [] o = some (o, [])
  set_calls (c ∷ cs) o = then_calls (set_call c o) (set_calls cs)
