-- ===== src/Robs/Mirror/Refines.antt =====
-- vec.rs: a mirror against the vector that it observes, from the subscription on.
use remoc.Base.{
  ℕ, zero, suc, ◌≤◌, ◌≡◌, ◌⊎◌, ◌==◌, Bool, true, false, Option, none, some, List, length, take,
  arith,
}
use remoc.Robs.Observable.{VecEvent, ObservableVec}
use remoc.Robs.Subscription.{
  RecvError, lagged, max_size_exceeded, BroadcastMsg, VecSubscription, incremental, recv,
  subscribe_incremental,
}
use remoc.Robs.Mirror.{
  MirroredVec, Task, stopped, waiting, task_panicked, out_of_fuel, handle_event, mirror_task,
  mirror,
}
use remoc.Robs.Mirror.Calls.{Shows}

module _ {ℓ} {A : Type ℓ} where
  -- A task that has handled what it received: it shows the vector, and waits if and only if the vector
  -- is not done; or it has stopped with the error that the mirror's size was exceeded, or, where events
  -- were lost, with the error that it lagged.
  abbrev pub EndsWith : Bool → Option RecvError → MirroredVec A → ObservableVec A → ℕ → Type ℓ
  EndsWith lags none m o max_size = Shows m o × (o.is_done ≡ true)
  EndsWith lags (some e) m o max_size =
      ((e ≡ max_size_exceeded max_size) ⊎ ((lags ≡ true) × (e ≡ lagged))) × Unit {ℓ}

  abbrev pub Mirrors : Bool → ObservableVec A → ℕ → Task A → Type ℓ
  Mirrors lags o max_size (waiting m) = Shows m o × (o.is_done ≡ false)
  Mirrors lags o max_size (stopped m) = EndsWith lags m.error m o max_size
  Mirrors lags o max_size task_panicked = ⊥ × Unit {ℓ}
  Mirrors lags o max_size out_of_fuel = ⊥ × Unit {ℓ}

  -- The elements that arrive first of an incremental subscription: the task goes on with all of them
  -- in the mirror, or stops because it exceeds its maximum size.
  abbrev pub at_element : List A → Option (List (BroadcastMsg (VecEvent A))) → VecSubscription A
  at_element rx events = record {
    initial = incremental (length rx) rx;
    complete = false;
    events = events;
    done = false;
  }

  abbrev pub with_elements : List A → Bool → ℕ → MirroredVec A
  with_elements v complete max_size = record {
    v = v;
    complete = complete;
    done = false;
    error = none;
    max_size = max_size;
  }

  -- An incremental subscription to a vector that is done, with a maximum size above zero: its mirror
  -- stops after the first event, with the first element alone where there is one, and says that the
  -- vector is done, without an error; only that of an empty vector is complete.
  pub mirror_incremental-done :
      (o : ObservableVec A) (events : List (BroadcastMsg (VecEvent A))) (fuel max_size : ℕ)
      → o.is_done ≡ true
      → 1 ≤ max_size
      → 1 ≤ fuel
      → mirror fuel (subscribe_incremental o events) max_size
        ≡ stopped (record {
          v = take 1 o.v;
          complete = length o.v == 0;
          done = true;
          error = none;
          max_size = max_size;
        })
  unfolding mirror subscribe_incremental mirror_task handle_event recv
  mirror_incremental-done o events zero max_size d k f = absurd (omega (arith, f))
  mirror_incremental-done o events (suc fuel) max_size d k f = ground (arith, d, k)
