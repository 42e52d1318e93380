-- ===== src/Robs/Mirror/Calls.antt =====
-- vec.rs: sequences of changes of an observable vector, and their effect on a mirror.
use remoc.Base.{
  ℕ, zero, suc, ◌<◌, ◌≡◌, refl, Bool, not, Option, none, some, List, [], ◌∷◌, length, arith,
}
use remoc.Robs.Vector.{split_last, get_at, positions_from, remove_at, swap_remove_at}
use remoc.Robs.Retain.{retain_from-positions, retain_from-not_positions, retain_from-all}
use remoc.Robs.Observable.{
  VecEvent, remove_event, swap_remove_event, ObservableVec, Change, changed, panicked, push, pop,
  get_mut, insert, remove, swap_remove, fill, resize, truncate, clear, retain, shrink_to_fit, done,
  popped, removed_at, written_at,
}
use remoc.Robs.Subscription.{RecvError, max_size_exceeded}
use remoc.Robs.Mirror.{MirroredVec, handle_event}

-- The calls that change a vector.
pub data Call {ℓ} (A : Type ℓ) : Type ℓ where
  push_call : A → Call A
  pop_call : Call A
  get_mut_call : ℕ → Option A → Call A
  insert_call : ℕ → A → Call A
  remove_call : ℕ → Call A
  swap_remove_call : ℕ → Call A
  fill_call : A → Call A
  resize_call : ℕ → A → Call A
  truncate_call : ℕ → Call A
  clear_call : Call A
  retain_call : (ℕ → A → Bool) → Call A
  shrink_to_fit_call : Call A
  done_call : Call A

length_zero {ℓ} : {A : Type ℓ} (xs : List A) → length xs ≡ 0 → xs ≡ []
length_zero [] h = refl
length_zero (x ∷ xs) h = absurd (omega (arith, h))

module _ {ℓ} {A : Type ℓ} where
  -- What a call does apart from the value that it returns; `none` is a panic.
  abbrev pub effect {κ} : {R : Type κ} → Change A R → Option (ObservableVec A × Option (VecEvent A))
  effect (changed o e r) = some (o, e)
  effect panicked = none

  unfoldable pub call : Call A → ObservableVec A → Option (ObservableVec A × Option (VecEvent A))
  call (push_call x) o = effect (push o x)
  call pop_call o = effect (pop o)
  call (get_mut_call i written) o = effect (get_mut o i written)
  call (insert_call i x) o = effect (insert o i x)
  call (remove_call i) o = effect (remove o i)
  call (swap_remove_call i) o = effect (swap_remove o i)
  call (fill_call x) o = effect (fill o x)
  call (resize_call n x) o = effect (resize o n x)
  call (truncate_call n) o = effect (truncate o n)
  call clear_call o = effect (clear o)
  call (retain_call f) o = effect (retain o f)
  call shrink_to_fit_call o = effect (shrink_to_fit o)
  call done_call o = effect (done o)

  -- A mirror that shows a vector, and has seen no error.
  abbrev pub Shows : MirroredVec A → ObservableVec A → Type ℓ
  Shows m o = (m.v ≡ o.v) × (m.done ≡ o.is_done) × (m.error ≡ none)

  -- The mirror after an event, or none, against the vector after the call: it shows the vector, or
  -- has more elements than it may have.
  abbrev pub Handled : ObservableVec A → ℕ → MirroredVec A × Option RecvError → Type ℓ
  Handled o max_size (m, none) = Shows m o × (m.max_size ≡ max_size)
  Handled o max_size (m, some e) = (e ≡ max_size_exceeded max_size) × Unit {ℓ}

  abbrev pub handle_maybe : MirroredVec A → Option (VecEvent A) → MirroredVec A × Option RecvError
  handle_maybe m none = (m, none)
  handle_maybe m (some e) = handle_event m e

  abbrev pub HandledCall : MirroredVec A → Option (ObservableVec A × Option (VecEvent A)) → Type ℓ
  HandledCall m none = Unit {ℓ}
  HandledCall m (some (o', e)) = Handled o' m.max_size (handle_maybe m e)

  get_at-lt : (i : ℕ) (xs : List A) (x : A) → get_at i xs ≡ some x → i < length xs
  get_at-lt i [] x h = cc
  get_at-lt zero (y ∷ xs) x h = omega arith
  get_at-lt (suc i) (y ∷ xs) x h = omega (arith, get_at-lt i xs x h)

  removed_at-HandledCall :
      (m : MirroredVec A) (o : ObservableVec A) (i : ℕ) (r : Option A)
      → Shows m o
      → get_at i o.v ≡ r
      → HandledCall m (effect (removed_at o (remove_at i o.v) (remove_event i) r))
  unfolding handle_event
  removed_at-HandledCall m o i none s e = tt
  removed_at-HandledCall m o i (some x) s e = ground (arith, get_at-lt i o.v x e)

  swap_removed_at-HandledCall :
      (m : MirroredVec A) (o : ObservableVec A) (i : ℕ) (r : Option A)
      → Shows m o
      → get_at i o.v ≡ r
      → HandledCall m (effect (removed_at o (swap_remove_at i o.v) (swap_remove_event i) r))
  unfolding handle_event
  swap_removed_at-HandledCall m o i none s e = tt
  swap_removed_at-HandledCall m o i (some x) s e = ground (arith, get_at-lt i o.v x e)

  written_at-HandledCall :
      (m : MirroredVec A) (o : ObservableVec A) (i : ℕ) (r written : Option A)
      → Shows m o
      → get_at i o.v ≡ r
      → HandledCall m (effect (written_at o i r written))
  unfolding handle_event
  written_at-HandledCall m o i none written s e = (s, refl)
  written_at-HandledCall m o i (some x) none s e = (s, refl)
  written_at-HandledCall m o i (some x) (some y) s e = ground (arith, get_at-lt i o.v x e)

  popped-HandledCall :
      (m : MirroredVec A) (o : ObservableVec A) (r : Option (List A × A))
      → Shows m o
      → split_last o.v ≡ r
      → HandledCall m (effect (popped o r))
  unfolding handle_event
  popped-HandledCall m o none s e = (s, refl)
  popped-HandledCall m o (some (v, x)) s e = ground arith

  retain-HandledCall :
      (m : MirroredVec A) (o : ObservableVec A) (f : ℕ → A → Bool)
      → Shows m o
      → HandledCall m (effect (retain o f))
  unfolding handle_event retain
  retain-HandledCall m o f s = ground (
    arith,
    retain_from-positions 0 f (positions_from 0 f o.v) o.v (λ n k. refl),
    retain_from-not_positions 0 f (positions_from 0 (λ i x. not (f i x)) o.v) o.v (λ n k. refl),
    retain_from-all 0 f o.v,
    length_zero (positions_from 0 (λ i x. not (f i x)) o.v),
  )

  -- Each call that does not panic: a mirror that shows the vector handles the event, if one is sent,
  -- and shows the changed vector, or has exceeded its size.
  pub call-HandledCall :
      (m : MirroredVec A) (o : ObservableVec A) (c : Call A) → Shows m o → HandledCall m (call c o)
  unfolding call handle_event push pop get_mut insert remove swap_remove fill resize truncate clear
      shrink_to_fit done
  call-HandledCall m o (push_call x) s = ground arith
  call-HandledCall m o pop_call s = ground (arith, popped-HandledCall m o (split_last o.v) s refl)
  call-HandledCall m o (get_mut_call i written) s =
      ground (arith, written_at-HandledCall m o i (get_at i o.v) written s refl)
  call-HandledCall m o (insert_call i x) s = ground arith
  call-HandledCall m o (remove_call i) s =
      ground (arith, removed_at-HandledCall m o i (get_at i o.v) s refl)
  call-HandledCall m o (swap_remove_call i) s =
      ground (arith, swap_removed_at-HandledCall m o i (get_at i o.v) s refl)
  call-HandledCall m o (fill_call x) s = ground arith
  call-HandledCall m o (resize_call n x) s = ground arith
  call-HandledCall m o (truncate_call n) s = ground arith
  call-HandledCall m o clear_call s = ground (arith, length_zero o.v)
  call-HandledCall m o (retain_call f) s = retain-HandledCall m o f s
  call-HandledCall m o shrink_to_fit_call s = ground arith
  call-HandledCall m o done_call s = ground arith
