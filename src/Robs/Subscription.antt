-- ===== src/Robs/Subscription.antt =====
-- vec.rs, `VecSubscription`: the initial value and the events as they are received. What the channels
-- have brought is a list; an empty list of events is one that has to be waited for. What the broadcast
-- channel makes of the events, by the size of its buffer, is an argument of the subscription. Errors of
-- the channels other than lag are not modelled.
use remoc.Base.{
  ℕ, ◌-◌, ltb, if◌then◌else◌, Bool, true, false, Option, none, some, List, [], ◌∷◌, length,
}
use remoc.Robs.Observable.{VecEvent, push_event, done_event, initial_complete, ObservableVec}

-- robs/mod.rs; the errors of the underlying channels are left out.
pub data RecvError : Type 0 where
  closed : RecvError
  lagged : RecvError
  max_size_exceeded : ℕ → RecvError
  invalid_index : ℕ → RecvError

-- What the broadcast channel brings: an event, or that events have been lost before, since the buffer
-- was full.
pub data BroadcastMsg {ℓ} (E : Type ℓ) : Type ℓ where
  broadcast_value : E → BroadcastMsg E
  broadcast_lagged : BroadcastMsg E

pub data VecInitialValue {ℓ} (A : Type ℓ) : Type ℓ where
  value : List A → VecInitialValue A
  incremental : ℕ → List A → VecInitialValue A

pub record VecSubscription {ℓ} (A : Type ℓ) : Type ℓ where
  pub initial : VecInitialValue A
  pub complete : Bool
  pub events : Option (List (BroadcastMsg (VecEvent A)))
  pub done : Bool

-- What `recv` returns: an event, the end, an error, the panic, or nothing yet.
pub data Received {ℓ} (A : Type ℓ) : Type ℓ where
  event : VecEvent A → Received A
  ended : Received A
  failed : RecvError → Received A
  not_taken : Received A
  pending : Received A

module _ {ℓ} {A : Type ℓ} where
  abbrev pub new_subscription :
      VecInitialValue A → Option (List (BroadcastMsg (VecEvent A))) → VecSubscription A
  new_subscription initial events = record {
    initial = initial;
    complete = false;
    events = events;
    done = false;
  }

  -- What the channel brings after the subscription, where there can be any events.
  abbrev pub events_of :
      ObservableVec A → List (BroadcastMsg (VecEvent A)) → Option (List (BroadcastMsg (VecEvent A)))
  events_of o events = if o.is_done then none else some events

  -- The last argument is what the broadcast channel brings, with the buffer that the call asks for.
  unfoldable pub subscribe : ObservableVec A → List (BroadcastMsg (VecEvent A)) → VecSubscription A
  subscribe o events = new_subscription (value o.v) (events_of o events)

  unfoldable pub subscribe_incremental :
      ObservableVec A → List (BroadcastMsg (VecEvent A)) → VecSubscription A
  subscribe_incremental o events =
      new_subscription (incremental (length o.v) o.v) (events_of o events)

  abbrev pub no_events : Option (List (BroadcastMsg (VecEvent A))) → Bool
  no_events none = true
  no_events (some events) = false

  abbrev pub is_done : VecSubscription A → Bool
  is_done sub = if no_events sub.events then true else sub.done

  abbrev pub take_value :
      VecSubscription A → VecInitialValue A → VecSubscription A × Option (List A)
  take_value sub (value v) =
      if sub.complete
      then (sub, none)
      else (record sub { initial = value []; complete = true }, some v)
  take_value sub (incremental len rx) = (sub, none)

  abbrev pub take_initial : VecSubscription A → VecSubscription A × Option (List A)
  take_initial sub = take_value sub sub.initial

  abbrev pub recv_done : VecSubscription A → VecSubscription A × Received A
  recv_done sub = if sub.done then (sub, ended) else (record sub { done = true }, event done_event)

  abbrev pub is_done_event : VecEvent A → Bool
  is_done_event done_event = true
  is_done_event e = false

  abbrev pub recv_change :
      VecSubscription A → Option (List (BroadcastMsg (VecEvent A))) → VecSubscription A × Received A
  recv_change sub none = recv_done sub
  recv_change sub (some []) = (sub, pending)
  recv_change sub (some (broadcast_lagged ∷ events)) =
      (record sub { events = some events }, failed lagged)
  recv_change sub (some (broadcast_value e ∷ events)) =
      if is_done_event e
      then recv_done (record sub { events = none })
      else (record sub { events = some events }, event e)

  abbrev pub recv_element : VecSubscription A → ℕ → List A → VecSubscription A × Received A
  recv_element sub len [] = (sub, failed closed)
  recv_element sub len (v ∷ rx) =
      (record sub { initial = incremental (len - 1) rx }, event (push_event v))

  abbrev pub recv_initial : VecSubscription A → VecInitialValue A → VecSubscription A × Received A
  recv_initial sub (value v) = (sub, not_taken)
  recv_initial sub (incremental len rx) =
      if ltb 0 len
      then recv_element sub len rx
      else (record sub { complete = true }, event initial_complete)

  unfoldable pub recv : VecSubscription A → VecSubscription A × Received A
  recv sub = if sub.complete then recv_change sub sub.events else recv_initial sub sub.initial
