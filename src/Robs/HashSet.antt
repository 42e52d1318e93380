-- ===== src/Robs/HashSet.antt =====
-- hash_set.rs: `ObservableHashSet` and `MirroredHashSetInner`. A hash set is the list of its elements,
-- in an order that nothing depends on; `eq` is the equality of the elements.
mod Alike
mod Distinct
pub mod Calls
mod Shown
mod Append
mod Panics
pub mod Refines
mod Examples
use remoc.Base.{
  ℕ, ltb, ◌==◌, if◌then◌else◌, Bool, true, false, not, Option, none, some, List, [], ◌∷◌, ◌++◌,
  length, map,
}
use remoc.Robs.Subscription.{RecvError, max_size_exceeded}

pub data HashSetEvent {ℓ} (A : Type ℓ) : Type ℓ where
  set_event : A → HashSetEvent A
  remove_event : A → HashSetEvent A
  clear_event : HashSetEvent A
  shrink_to_fit_event : HashSetEvent A
  done_event : HashSetEvent A
  initial_complete : HashSetEvent A

pub record ObservableHashSet {ℓ} (A : Type ℓ) : Type ℓ where
  pub hs : List A
  pub is_done : Bool

-- The hash set after a call with the events that are sent and what the call returns, or the panic.
pub data SetChange {ℓ κ} (A : Type ℓ) (R : Type κ) : Type (ℓ ⊔ κ) where
  set_changed : ObservableHashSet A → List (HashSetEvent A) → R → SetChange A R
  set_panicked : SetChange A R

pub record MirroredHashSet {ℓ} (A : Type ℓ) : Type ℓ where
  pub hs : List A
  pub complete : Bool
  pub done : Bool
  pub max_size : ℕ

abbrev pub has_none {ℓ} : {A : Type ℓ} → List A → Bool
has_none [] = true
has_none (x ∷ xs) = false

abbrev pub kept {ℓ} : {A : Type ℓ} → (A → Bool) → List A → List A
kept f [] = []
kept f (x ∷ xs) = let rest = kept f xs in if f x then x ∷ rest else rest

module _ {ℓ} {A : Type ℓ} (eq : A → A → Bool) where
  -- The operations of `HashSet`. An insertion leaves an equal element as it is.
  abbrev pub get_equal : A → List A → Option A
  get_equal x [] = none
  get_equal x (y ∷ ys) = let rest = get_equal x ys in if eq y x then some y else rest

  abbrev pub has_equal : A → List A → Bool
  has_equal x [] = false
  has_equal x (y ∷ ys) = let rest = has_equal x ys in if eq y x then true else rest

  abbrev pub insert_new : A → List A → List A
  insert_new x ys = if has_equal x ys then ys else ys ++ (x ∷ [])

  abbrev pub put_equal : A → List A → List A
  put_equal x [] = []
  put_equal x (y ∷ ys) = let rest = put_equal x ys in if eq y x then x ∷ ys else y ∷ rest

  abbrev pub replace_equal : A → List A → List A
  replace_equal x ys = if has_equal x ys then put_equal x ys else ys ++ (x ∷ [])

  abbrev pub remove_equal : A → List A → List A
  remove_equal x [] = []
  remove_equal x (y ∷ ys) = let rest = remove_equal x ys in if eq y x then ys else y ∷ rest

  abbrev pub unless_done {κ} : {R : Type κ} → ObservableHashSet A → SetChange A R → SetChange A R
  unless_done o change = if o.is_done then set_panicked else change

  unfoldable pub set_insert : ObservableHashSet A → A → SetChange A Bool
  set_insert o x = unless_done o (
      set_changed (record o { hs = insert_new x o.hs }) (set_event x ∷ []) (not (has_equal x o.hs)))

  unfoldable pub set_replace : ObservableHashSet A → A → SetChange A (Option A)
  set_replace o x =
      unless_done o
        (set_changed (record o { hs = replace_equal x o.hs }) (set_event x ∷ []) (get_equal x o.hs))

  -- The branches of a removal for the element that is found.
  abbrev pub taken : ObservableHashSet A → A → Option A → SetChange A (Option A)
  taken o x none = set_changed o [] none
  taken o x (some v) =
      set_changed (record o { hs = remove_equal x o.hs }) (remove_event v ∷ []) (some v)

  unfoldable pub set_take : ObservableHashSet A → A → SetChange A (Option A)
  set_take o x = unless_done o (taken o x (get_equal x o.hs))

  abbrev pub as_bool : SetChange A (Option A) → SetChange A Bool
  as_bool (set_changed o events none) = set_changed o events false
  as_bool (set_changed o events (some v)) = set_changed o events true
  as_bool set_panicked = set_panicked

  unfoldable pub set_remove : ObservableHashSet A → A → SetChange A Bool
  set_remove o x = unless_done o (as_bool (taken o x (get_equal x o.hs)))

  abbrev pub set_clear : ObservableHashSet A → SetChange A (Unit {0})
  set_clear o = unless_done o (
      if has_none o.hs
      then set_changed o [] tt
      else set_changed (record o { hs = [] }) (clear_event ∷ []) tt)

  abbrev pub set_retain : ObservableHashSet A → (A → Bool) → SetChange A (Unit {0})
  set_retain o f = unless_done o (
      set_changed (record o { hs = kept f o.hs }) (map remove_event (kept (λ x. not (f x)) o.hs))
        tt)

  abbrev pub set_shrink_to_fit : ObservableHashSet A → SetChange A (Unit {0})
  set_shrink_to_fit o = unless_done o (set_changed o (shrink_to_fit_event ∷ []) tt)

  abbrev pub set_done : ObservableHashSet A → SetChange A (Unit {0})
  set_done o =
      if o.is_done
      then set_changed o [] tt
      else set_changed (record o { is_done = true }) (done_event ∷ []) tt

  -- `MirroredHashSetInner::handle_event`; `none` is `Ok(())`.
  unfoldable pub handle_set_event :
      MirroredHashSet A → HashSetEvent A → MirroredHashSet A × Option RecvError
  handle_set_event m initial_complete = (record m { complete = true }, none)
  handle_set_event m (set_event x) =
      let hs = insert_new x m.hs in
      (
        record m { hs = hs },
        if ltb m.max_size (length hs) then some (max_size_exceeded m.max_size) else none,
      )
  handle_set_event m (remove_event x) = (record m { hs = remove_equal x m.hs }, none)
  handle_set_event m clear_event = (record m { hs = [] }, none)
  handle_set_event m shrink_to_fit_event = (m, none)
  handle_set_event m done_event = (record m { done = true }, none)

  -- The task of the mirror over the events that it receives: it stops at an error, and when done.
  abbrev pub after_set_event :
      MirroredHashSet A × Option RecvError
      → (MirroredHashSet A → MirroredHashSet A × Option RecvError)
      → MirroredHashSet A × Option RecvError
  after_set_event (m, some e) again = (m, some e)
  after_set_event (m, none) again = if m.done then (m, none) else again m

  abbrev pub handle_set_events :
      List (HashSetEvent A) → MirroredHashSet A → MirroredHashSet A × Option RecvError
  handle_set_events [] m = (m, none)
  handle_set_events (e ∷ events) m =
      after_set_event (handle_set_event m e) (handle_set_events events)
