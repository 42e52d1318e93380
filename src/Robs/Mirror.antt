-- ===== src/Robs/Mirror.antt =====
-- vec.rs, `MirroredVecInner::handle_event` and the task of `VecSubscription::mirror`. The mirror is
-- neither dropped nor detached while the task runs, and has no subscribers of its own.
pub mod Calls
pub mod Follow
pub mod Refines
use remoc.Base.{
  ℕ, zero, suc, ltb, leb, if◌then◌else◌, Bool, true, false, not, Option, none, some, List, [], ◌∷◌,
  ◌++◌, length, take, contains,
}
use remoc.Robs.Vector.{
  split_last, without_last, insert_at, set_at, remove_at, swap_remove_at, fill_with, resize_to,
  retain_from,
}
use remoc.Robs.Observable.{
  VecEvent, push_event, pop_event, insert_event, set_event, remove_event, swap_remove_event,
  fill_event, resize_event, truncate_event, retain_event, retain_not_event, clear_event,
  shrink_to_fit_event, done_event, initial_complete,
}
use remoc.Robs.Subscription.{
  RecvError, max_size_exceeded, invalid_index, VecSubscription, Received, event, ended, failed,
  not_taken, pending, recv, take_initial, is_done,
}
use mathlib.Core.Option

pub record MirroredVec {ℓ} (A : Type ℓ) : Type ℓ where
  pub v : List A
  pub complete : Bool
  pub done : Bool
  pub error : Option RecvError
  pub max_size : ℕ

-- The task has stopped, or waits for an event; or the panic, or no fuel.
pub data Task {ℓ} (A : Type ℓ) : Type ℓ where
  stopped : MirroredVec A → Task A
  waiting : MirroredVec A → Task A
  task_panicked : Task A
  out_of_fuel : Task A

module _ {ℓ} {A : Type ℓ} where
  abbrev pub with_v : MirroredVec A → List A → MirroredVec A
  with_v m v = record m { v = v }

  -- A change that needs an index below a bound.
  abbrev pub if_index : Bool → MirroredVec A → ℕ → List A → MirroredVec A × Option RecvError
  if_index ok m i v = if ok then (with_v m v, none) else (m, some (invalid_index i))

  -- `none` is `Ok(())`.
  unfoldable pub handle_event : MirroredVec A → VecEvent A → MirroredVec A × Option RecvError
  handle_event m initial_complete = (record m { complete = true }, none)
  handle_event m (push_event x) =
      let v = m.v ++ (x ∷ []) in
      (with_v m v, if ltb m.max_size (length v) then some (max_size_exceeded m.max_size) else none)
  handle_event m pop_event = (with_v m (without_last (split_last m.v)), none)
  handle_event m (insert_event i x) = if_index (leb i (length m.v)) m i (insert_at i x m.v)
  handle_event m (set_event i x) = if_index (ltb i (length m.v)) m i (set_at i x m.v)
  handle_event m (remove_event i) = if_index (ltb i (length m.v)) m i (remove_at i m.v)
  handle_event m (swap_remove_event i) = if_index (ltb i (length m.v)) m i (swap_remove_at i m.v)
  handle_event m (fill_event x) = (with_v m (fill_with x m.v), none)
  handle_event m (resize_event l x) = (with_v m (resize_to l x m.v), none)
  handle_event m (truncate_event l) = (with_v m (take l m.v), none)
  handle_event m (retain_event r) = (with_v m (retain_from 0 (λ i x. contains r i) m.v), none)
  handle_event m (retain_not_event nr) =
      (with_v m (retain_from 0 (λ i x. not (contains nr i)) m.v), none)
  handle_event m clear_event = (with_v m [], none)
  handle_event m shrink_to_fit_event = (m, none)
  handle_event m done_event = (record m { done = true }, none)

  abbrev pub after_event : MirroredVec A × Option RecvError → (MirroredVec A → Task A) → Task A
  after_event (m, some e) again = stopped (record m { error = some e })
  after_event (m, none) again = if m.done then stopped m else again m

  abbrev pub after_recv : Received A → MirroredVec A → (MirroredVec A → Task A) → Task A
  after_recv (event e) m again = after_event (handle_event m e) again
  after_recv ended m again = stopped m
  after_recv (failed e) m again = stopped (record m { error = some e })
  after_recv not_taken m again = task_panicked
  after_recv pending m again = waiting m

  unfoldable pub mirror_task : ℕ → VecSubscription A → MirroredVec A → Task A
  mirror_task zero sub m = out_of_fuel
  mirror_task (suc fuel) sub m = let (sub', r) = recv sub in after_recv r m (mirror_task fuel sub')

  unfoldable pub mirror : ℕ → VecSubscription A → ℕ → Task A
  mirror fuel sub max_size =
      let (sub', v) = take_initial sub in
      mirror_task fuel sub' (record {
        v = Option.get_or v [];
        complete = sub'.complete;
        done = is_done sub';
        error = none;
        max_size = max_size;
      })
