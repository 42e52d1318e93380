-- ===== src/Robs/Mirror/Follow.antt =====
-- vec.rs: the task of a mirror, over the events of a sequence of changes.
use remoc.Base.{
  ℕ, zero, suc, ◌<◌, ◌≡◌, ◌⊎◌, refl, inl, inr, if◌then◌else◌, Bool, true, false, Bool-cases, Option,
  none, some, List, [], ◌∷◌, length, arith,
}
use remoc.Robs.Observable.{
  VecEvent, done_event, ObservableVec, push, pop, get_mut, insert, remove, swap_remove, fill,
  resize, truncate, clear, retain, shrink_to_fit, done,
}
use remoc.Robs.Subscription.{
  RecvError, lagged, BroadcastMsg, broadcast_value, broadcast_lagged, VecSubscription, event,
  failed, recv, is_done_event,
}
use remoc.Robs.Mirror.{
  MirroredVec, Task, stopped, waiting, task_panicked, out_of_fuel, handle_event, after_event,
  mirror_task,
}
use remoc.Robs.Mirror.Calls.{
  Call, call, Shows, Handled, HandledCall, handle_maybe, call-HandledCall,
}

module _ {ℓ} {A : Type ℓ} where
  -- The events handled one after the other, until an error or the last event.
  abbrev pub apply_after :
      MirroredVec A × Option RecvError
      → (MirroredVec A → MirroredVec A × Option RecvError)
      → MirroredVec A × Option RecvError
  apply_after (m, some e) rest = (m, some e)
  apply_after (m, none) rest = if m.done then (m, none) else rest m

  unfoldable pub apply : List (VecEvent A) → MirroredVec A → MirroredVec A × Option RecvError
  apply [] m = (m, none)
  apply (e ∷ es) m = apply_after (handle_event m e) (apply es)

  abbrev pub task_of : MirroredVec A × Option RecvError → Task A
  task_of (m, some e) = stopped (record m { error = some e })
  task_of (m, none) = if m.done then stopped m else waiting m

  -- What the broadcast channel can bring of the events that are sent: all of them in their order, or
  -- some and then that others have been lost, after which it may bring anything.
  abbrev pub IsReceived : List (VecEvent A) → List (BroadcastMsg (VecEvent A)) → Type ℓ
  IsReceived [] [] = Unit {ℓ}
  IsReceived [] (r ∷ received) = ⊥ × Unit {ℓ}
  IsReceived (e ∷ events) [] = ⊥ × Unit {ℓ}
  IsReceived (e ∷ events) (broadcast_value e' ∷ received) = (e' ≡ e) × IsReceived events received
  IsReceived (e ∷ events) (broadcast_lagged ∷ received) = Unit {ℓ}

  abbrev pub any_lagged : List (BroadcastMsg (VecEvent A)) → Bool
  any_lagged [] = false
  any_lagged (broadcast_value e ∷ received) = any_lagged received
  any_lagged (broadcast_lagged ∷ received) = true

  abbrev pub IsLagged : Task A → Type 0
  IsLagged (stopped m) = m.error ≡ some lagged
  IsLagged (waiting m) = ⊥
  IsLagged task_panicked = ⊥
  IsLagged out_of_fuel = ⊥

  -- The task comes to what the events come to, or has stopped since it lagged.
  abbrev pub Follows : Bool → Task A → MirroredVec A × Option RecvError → Type ℓ
  Follows lags t r = (t ≡ task_of r) ⊎ ((lags ≡ true) × IsLagged t)

  same_task :
      (lags : Bool) (t t' : Task A) (r r' : MirroredVec A × Option RecvError)
      → t ≡ t'
      → r ≡ r'
      → Follows lags t' r'
      → Follows lags t r
  same_task lags t t' r r' e f h = rw (e, f) h

  after_event-Follows :
      (lags : Bool) (r : MirroredVec A × Option RecvError) (again : MirroredVec A → Task A)
      (rest : MirroredVec A → MirroredVec A × Option RecvError)
      → ((m : MirroredVec A) → m.done ≡ false → Follows lags (again m) (rest m))
      → Follows lags (after_event r again) (apply_after r rest)
  after_event-Follows lags (m, some e) again rest h = inl refl
  after_event-Follows lags (m, none) again rest h = elim (Bool-cases m.done) [
    | inl t ↦ inl (ground (arith, t))
    | inr u ↦
        same_task lags (after_event (m, none) again) (again m) (apply_after (m, none) rest) (rest m)
          (ground (arith, u)) (ground (arith, u)) (h m u)
  ]

  done_inv : (e : VecEvent A) → is_done_event e ≡ true → e ≡ done_event
  done_inv e h = ground arith

  recv_change_lem :
      (sub : VecSubscription A) (e : VecEvent A) (received : List (BroadcastMsg (VecEvent A)))
      → sub.complete ≡ true
      → sub.events ≡ some (broadcast_value e ∷ received)
      → is_done_event e ≡ false
      → recv sub ≡ (record sub { events = some received }, event e)
  unfolding recv
  recv_change_lem sub e received c h u = ground (arith, c, h, u)

  recv_lagged :
      (sub : VecSubscription A) (received : List (BroadcastMsg (VecEvent A)))
      → sub.complete ≡ true
      → sub.events ≡ some (broadcast_lagged ∷ received)
      → recv sub ≡ (record sub { events = some received }, failed lagged)
  unfolding recv
  recv_lagged sub received c h = ground (arith, c, h)

  -- The task on a subscription with its initial value taken.
  pub mirror_task-Follows :
      (es : List (VecEvent A)) (received : List (BroadcastMsg (VecEvent A))) (fuel : ℕ)
      (sub : VecSubscription A) (m : MirroredVec A)
      → IsReceived es received
      → length received < fuel
      → sub.complete ≡ true
      → sub.done ≡ false
      → sub.events ≡ some received
      → m.done ≡ false
      → Follows (any_lagged received) (mirror_task fuel sub m) (apply es m)
  unfolding mirror_task apply
  mirror_task-Follows es received zero sub m r l c d e n = absurd (omega (arith, l))
  mirror_task-Follows [] [] (suc fuel) sub m r l c d e n =
      inl (unfold recv in ground (arith, c, d, e, n))
  mirror_task-Follows [] (x ∷ received) (suc fuel) sub m r l c d e n = absurd r.0
  mirror_task-Follows (ev ∷ es) [] (suc fuel) sub m r l c d e n = absurd r.0
  mirror_task-Follows (ev ∷ es) (broadcast_lagged ∷ received) (suc fuel) sub m r l c d e n =
      inr (refl, rw (recv_lagged sub received c e) refl)
  mirror_task-Follows (ev ∷ es) (broadcast_value ev' ∷ received) (suc fuel) sub m r l c d e n =
      elim (Bool-cases (is_done_event ev)) [
        | inl t ↦ inl (unfold handle_event recv in ground (arith, c, d, e, n, r.0, done_inv ev t))
        | inr u ↦ rw (recv_change_lem sub ev received c (rw r.0 at e) u) (
            after_event-Follows (any_lagged received) (handle_event m ev)
              (mirror_task fuel (record sub { events = some received })) (apply es)
              (λ m' k.
                mirror_task-Follows es received fuel (record sub { events = some received }) m' r.1
                  (omega (arith, l)) c d refl k))
      ]

  abbrev pub cons_event : Option (VecEvent A) → List (VecEvent A) → List (VecEvent A)
  cons_event none es = es
  cons_event (some e) es = e ∷ es

  abbrev pub then_run :
      Option (VecEvent A)
      → Option (ObservableVec A × List (VecEvent A))
      → Option (ObservableVec A × List (VecEvent A))
  then_run e none = none
  then_run e (some (o, es)) = some (o, cons_event e es)

  -- The calls one after the other, with the events that they send, unless one panics.
  abbrev pub run_after :
      Option (ObservableVec A × Option (VecEvent A))
      → (ObservableVec A → Option (ObservableVec A × List (VecEvent A)))
      → Option (ObservableVec A × List (VecEvent A))
  run_after none rest = none
  run_after (some (o, e)) rest = then_run e (rest o)

  unfoldable pub run :
      List (Call A) → ObservableVec A → Option (ObservableVec A × List (VecEvent A))
  run [] o = some (o, [])
  run (c ∷ cs) o = run_after (call c o) (run cs)

  -- After `done` nothing changes and no event is sent.
  abbrev pub Ended : ObservableVec A → Option (ObservableVec A × List (VecEvent A)) → Type ℓ
  Ended o none = Unit {ℓ}
  Ended o (some (o', es)) = (o' ≡ o) × (es ≡ [])

  run-Ended : (cs : List (Call A)) (o : ObservableVec A) → o.is_done ≡ true → Ended o (run cs o)
  unfolding run call push pop get_mut insert remove swap_remove fill resize truncate clear retain
      shrink_to_fit done
  run-Ended [] o h = (refl, refl)
  run-Ended (c ∷ cs) o h = ground (arith, run-Ended cs o h)

  apply_after-Handled :
      (r : MirroredVec A × Option RecvError)
      (rest : MirroredVec A → MirroredVec A × Option RecvError) (o o' : ObservableVec A)
      (max_size : ℕ)
      → Handled o max_size r
      → (o.is_done ≡ true → o' ≡ o)
      → ((m : MirroredVec A) → Shows m o → m.max_size ≡ max_size → Handled o' max_size (rest m))
      → Handled o' max_size (apply_after r rest)
  apply_after-Handled (m, some e) rest o o' max_size h ended go = h
  apply_after-Handled (m, none) rest o o' max_size h ended go = elim (Bool-cases m.done) [
    | inl t ↦ rw t (ground (arith, h, t, ended (ground (arith, h, t))))
    | inr u ↦ simp u (go m h.0 h.1)
  ]

  abbrev pub HandledRun : MirroredVec A → Option (ObservableVec A × List (VecEvent A)) → Type ℓ
  HandledRun m none = Unit {ℓ}
  HandledRun m (some (o', es)) = Handled o' m.max_size (apply es m)

  -- The step of the induction below, on the outcome of the first call and of the rest.
  then_run-HandledRun :
      (m : MirroredVec A) (o : ObservableVec A) (e : Option (VecEvent A))
      (later : Option (ObservableVec A × List (VecEvent A)))
      → Handled o m.max_size (handle_maybe m e)
      → (o.is_done ≡ true → Ended o later)
      → ((m' : MirroredVec A) → Shows m' o → HandledRun m' later)
      → HandledRun m (then_run e later)
  unfolding apply
  then_run-HandledRun m o e none h ended go = tt
  then_run-HandledRun m o none (some (o', es)) h ended go = go m h.0
  then_run-HandledRun m o (some e) (some (o', es)) h ended go =
      apply_after-Handled (handle_event m e) (apply es) o o' m.max_size h (λ d. (ended d).0)
        (λ m' s k. rw⁻¹ k (go m' s))

  run_after-HandledRun :
      (m : MirroredVec A) (first : Option (ObservableVec A × Option (VecEvent A)))
      (cs : List (Call A))
      → HandledCall m first
      → ((m' : MirroredVec A) (o : ObservableVec A) → Shows m' o → HandledRun m' (run cs o))
      → HandledRun m (run_after first (run cs))
  run_after-HandledRun m none cs h go = tt
  run_after-HandledRun m (some (o, e)) cs h go =
      then_run-HandledRun m o e (run cs o) h (run-Ended cs o) (λ m' s. go m' o s)

  pub run-HandledRun :
      (cs : List (Call A)) (m : MirroredVec A) (o : ObservableVec A)
      → Shows m o
      → HandledRun m (run cs o)
  unfolding run apply
  run-HandledRun [] m o s = (s, refl)
  run-HandledRun (c ∷ cs) m o s =
      run_after-HandledRun m (call c o) cs (call-HandledCall m o c s)
        (λ m' o' s'. run-HandledRun cs m' o' s')
