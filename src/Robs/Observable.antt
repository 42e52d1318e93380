-- ===== src/Robs/Observable.antt =====
-- vec.rs, `ObservableVec`: each change of the vector with the event that it sends.
use remoc.Base.{
  ℕ, ltb, leb, ◌==◌, ◌!=◌, if◌then◌else◌, Bool, true, not, Option, none, some, List, [], ◌∷◌, ◌++◌,
  length, take,
}
use remoc.Robs.Vector.{
  split_last, get_at, insert_at, set_at, remove_at, swap_remove_at, fill_with, resize_to,
  retain_from, positions_from,
}

-- A `HashSet<usize>` is a list.
pub data VecEvent {ℓ} (A : Type ℓ) : Type ℓ where
  push_event : A → VecEvent A
  pop_event : VecEvent A
  insert_event : ℕ → A → VecEvent A
  set_event : ℕ → A → VecEvent A
  remove_event : ℕ → VecEvent A
  swap_remove_event : ℕ → VecEvent A
  fill_event : A → VecEvent A
  resize_event : ℕ → A → VecEvent A
  truncate_event : ℕ → VecEvent A
  retain_event : List ℕ → VecEvent A
  retain_not_event : List ℕ → VecEvent A
  clear_event : VecEvent A
  shrink_to_fit_event : VecEvent A
  done_event : VecEvent A
  initial_complete : VecEvent A

-- `v` and `done`; the channel of events is the list of the events sent.
pub record ObservableVec {ℓ} (A : Type ℓ) : Type ℓ where
  pub v : List A
  pub is_done : Bool

-- The vector afterwards, the event and the value returned, or the panic.
pub data Change {ℓ κ} (A : Type ℓ) (R : Type κ) : Type (ℓ ⊔ κ) where
  changed : ObservableVec A → Option (VecEvent A) → R → Change A R
  panicked : Change A R

module _ {ℓ} {A : Type ℓ} where
  -- `assert_not_done`
  abbrev pub unless_done {κ} : {R : Type κ} → ObservableVec A → Change A R → Change A R
  unless_done o change = if o.is_done then panicked else change

  abbrev pub with_vec : ObservableVec A → List A → ObservableVec A
  with_vec o v = record o { v = v }

  unfoldable pub push : ObservableVec A → A → Change A (Unit {0})
  push o value =
      unless_done o (changed (with_vec o (o.v ++ (value ∷ []))) (some (push_event value)) tt)

  abbrev pub popped : ObservableVec A → Option (List A × A) → Change A (Option A)
  popped o none = changed o none none
  popped o (some (v, value)) = changed (with_vec o v) (some pop_event) (some value)

  unfoldable pub pop : ObservableVec A → Change A (Option A)
  pop o = unless_done o (popped o (split_last o.v))

  -- `get_mut` and the drop of the reference; `written` is the value that a mutable access has left.
  abbrev pub written_at : ObservableVec A → ℕ → Option A → Option A → Change A (Option A)
  written_at o index none written = changed o none none
  written_at o index (some old) none = changed o none (some old)
  written_at o index (some old) (some value) =
      changed (with_vec o (set_at index value o.v)) (some (set_event index value)) (some old)

  unfoldable pub get_mut : ObservableVec A → ℕ → Option A → Change A (Option A)
  get_mut o index written = unless_done o (written_at o index (get_at index o.v) written)

  -- `Vec::insert` panics where the index is above the length, before anything is sent.
  unfoldable pub insert : ObservableVec A → ℕ → A → Change A (Unit {0})
  insert o index value = unless_done o (
      if leb index (length o.v)
      then changed (with_vec o (insert_at index value o.v)) (some (insert_event index value)) tt
      else panicked)

  abbrev pub removed_at : ObservableVec A → List A → VecEvent A → Option A → Change A A
  removed_at o v event none = panicked
  removed_at o v event (some value) = changed (with_vec o v) (some event) value

  unfoldable pub remove : ObservableVec A → ℕ → Change A A
  remove o index =
      unless_done o (removed_at o (remove_at index o.v) (remove_event index) (get_at index o.v))

  unfoldable pub swap_remove : ObservableVec A → ℕ → Change A A
  swap_remove o index =
      unless_done o
        (removed_at o (swap_remove_at index o.v) (swap_remove_event index) (get_at index o.v))

  unfoldable pub fill : ObservableVec A → A → Change A (Unit {0})
  fill o value =
      unless_done o (changed (with_vec o (fill_with value o.v)) (some (fill_event value)) tt)

  unfoldable pub resize : ObservableVec A → ℕ → A → Change A (Unit {0})
  resize o new_len value = unless_done o (
      if new_len != length o.v
      then changed (with_vec o (resize_to new_len value o.v)) (some (resize_event new_len value)) tt
      else changed o none tt)

  unfoldable pub truncate : ObservableVec A → ℕ → Change A (Unit {0})
  truncate o new_len = unless_done o (
      if ltb new_len (length o.v)
      then changed (with_vec o (take new_len o.v)) (some (truncate_event new_len)) tt
      else changed o none tt)

  unfoldable pub clear : ObservableVec A → Change A (Unit {0})
  clear o =
      unless_done o (
        if length o.v == 0
        then changed o none tt
        else changed (with_vec o []) (some clear_event) tt)

  -- The smaller of the two sets is sent.
  abbrev pub retain_sets : List ℕ → List ℕ → Option (VecEvent A)
  retain_sets keep remove =
      if length remove == 0
      then none
      else if ltb (length keep) (length remove)
      then some (retain_event keep)
      else some (retain_not_event remove)

  -- The predicate may depend on how often it has been called.
  unfoldable pub retain : ObservableVec A → (ℕ → A → Bool) → Change A (Unit {0})
  retain o f = unless_done o (
      changed (with_vec o (retain_from 0 f o.v))
        (retain_sets (positions_from 0 f o.v) (positions_from 0 (λ i x. not (f i x)) o.v)) tt)

  unfoldable pub shrink_to_fit : ObservableVec A → Change A (Unit {0})
  shrink_to_fit o = unless_done o (changed o (some shrink_to_fit_event) tt)

  unfoldable pub done : ObservableVec A → Change A (Unit {0})
  done o =
      if o.is_done
      then changed o none tt
      else changed (record o { is_done = true }) (some done_event) tt
