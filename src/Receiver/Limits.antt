-- ===== src/Receiver/Limits.antt =====
-- receiver.rs: what `Receiver::recv_any` gives for any messages in the queue.
use remoc.Base.{
  ℕ, suc, ◌≤◌, ◌<◌, ◌≡◌, refl, ap, ◌∙◌, if◌then◌else◌, Bool, true, false, Option, none, some, List,
  [], ◌∷◌, ◌++◌, length, length-append, arith,
}
use mathlib.Core.Path.{subst}
use remoc.Receiver.{
  recv_ch_mux, ReceivedData, ReceivedPortRequests, PortReceiveMsg, data_received, port_requests,
  request_received_report, finished_msg, DataBuf, new_buf, try_push, joined, into_vec, Receiving,
  nothing, data_state, chunks_state, requests_state, accepted_port, rejected_port, PreConnectState,
  Receiver, RecvAny, any_data, any_chunks, any_requests, any_end, any_error, any_wait, Turn,
  after_turn, return_credit, with_receiving, data_of, requests_of, push_data, add_data,
  push_requests, add_requests, finish_any, handle_any, any_loop, announce, any_accepted, recv_any,
}
use remoc.Receiver.Whole.{joined-append}

module _ {ℓ κ} {A : Type ℓ} {Q : Type κ} where
  -- The size of a buffer is that of its bytes.
  abbrev pub Consistent : Receiving A Q → Type 0
  Consistent nothing = Unit {0}
  Consistent (data_state d) = d.remaining ≡ length (into_vec d)
  Consistent (chunks_state chunks completed announced) = Unit {0}
  Consistent (requests_state requests) = Unit {0}

  -- Results within the limits; a group of requests has taken a message from the queue.
  abbrev pub Limited : Receiver A Q → ℕ → ℕ → RecvAny A Q → Type 0
  Limited r queued now (any_data d) =
      (d.remaining ≡ length (into_vec d)) × (d.remaining ≤ r.max_data_size)
  Limited r queued now (any_requests requests) = (length requests ≤ r.max_ports) × (now < queued)
  Limited r queued now any_chunks = Unit {0}
  Limited r queued now any_end = Unit {0}
  Limited r queued now (any_error e) = Unit {0}
  Limited r queued now any_wait = Unit {0}

  abbrev pub Same : Receiver A Q → Receiver A Q → Type 0
  Same r r' = (r'.max_data_size ≡ r.max_data_size) × (r'.max_ports ≡ r.max_ports)

  abbrev TurnWithin : Receiver A Q → Turn (Receiver A Q) (RecvAny A Q) → Type 0
  TurnWithin r (r', none) = Consistent r'.receiving × Same r r'
  TurnWithin r (r', some result) =
      Consistent r'.receiving × Same r r' × Limited r (suc (length r.rx)) (length r'.rx) result

  push_data-TurnWithin :
      (r : Receiver A Q) (d : ReceivedData A) (buf : DataBuf A)
      → buf.remaining ≡ length (into_vec buf)
      → TurnWithin r (push_data r d buf (try_push buf d.buf r.max_data_size))
  push_data-TurnWithin r d buf h =
      ground (arith, h, joined-append buf.bufs d.buf, length-append (joined buf.bufs) d.buf)

  add_data-TurnWithin :
      (r : Receiver A Q) (d : ReceivedData A) (first : Bool) (receiving : Receiving A Q)
      → Consistent receiving
      → TurnWithin r (add_data r d (data_of first receiving))
  add_data-TurnWithin r d true receiving h = push_data-TurnWithin r d new_buf refl
  add_data-TurnWithin r d false (data_state buf) h = push_data-TurnWithin r d buf h
  add_data-TurnWithin r d false nothing h = ground arith
  add_data-TurnWithin r d false (chunks_state chunks completed announced) h = ground arith
  add_data-TurnWithin r d false (requests_state requests) h = ground arith

  push_requests-TurnWithin :
      (r : Receiver A Q) (p : ReceivedPortRequests Q) (requests : List Q)
      → TurnWithin r (push_requests r p requests)
  push_requests-TurnWithin r p requests = ground arith

  add_requests-TurnWithin :
      (r : Receiver A Q) (p : ReceivedPortRequests Q) (o : Option (List Q))
      → TurnWithin r (add_requests r p o)
  add_requests-TurnWithin r p none = ground arith
  add_requests-TurnWithin r p (some requests) =
      push_requests-TurnWithin r p (requests ++ p.requests)

  finish_any-Limited :
      (r : Receiver A Q) (n m : ℕ) (p : PreConnectState) → Limited r n m (finish_any p)
  finish_any-Limited r n m accepted_port = tt
  finish_any-Limited r n m (rejected_port no_ports) = tt

  handle_any-TurnWithin :
      (r : Receiver A Q) (msg : PortReceiveMsg A Q)
      → Consistent r.receiving
      → TurnWithin r (handle_any r msg)
  unfolding handle_any
  handle_any-TurnWithin r (data_received d) h =
      add_data-TurnWithin (return_credit r d.port_credit) d d.first r.receiving h
  handle_any-TurnWithin r (port_requests p) h =
      add_requests-TurnWithin (return_credit r p.credit) p (requests_of p.first r.receiving)
  handle_any-TurnWithin r request_received_report h = (h, (refl, refl))
  handle_any-TurnWithin r finished_msg h =
      (h, (refl, refl), finish_any-Limited r (suc (length r.rx)) (length r.rx) r.at_closure)

  abbrev pub WithinLimits : Receiver A Q → ℕ → Receiver A Q × RecvAny A Q → Type 0
  WithinLimits r queued (r', result) =
      Consistent r'.receiving × Same r r' × Limited r queued (length r'.rx) result

  Limited-later :
      (r r' : Receiver A Q) (n m : ℕ) (result : RecvAny A Q)
      → Same r r'
      → Limited r' n m result
      → Limited r (suc n) m result
  Limited-later r r' n m (any_data d) s h = omega (arith, h, s)
  Limited-later r r' n m (any_requests requests) s h = omega (arith, h, s)
  Limited-later r r' n m any_chunks s h = tt
  Limited-later r r' n m any_end s h = tt
  Limited-later r r' n m (any_error e) s h = tt
  Limited-later r r' n m any_wait s h = tt

  after_turn-WithinLimits :
      (r : Receiver A Q) (rx : List (PortReceiveMsg A Q)) (turn : Turn (Receiver A Q) (RecvAny A Q))
      → r.rx ≡ rx
      → TurnWithin r turn
      → ((r' : Receiver A Q)
          → Consistent r'.receiving
          → WithinLimits r' (length rx) (any_loop rx r'))
      → WithinLimits r (suc (length rx)) (after_turn turn (any_loop rx))
  after_turn-WithinLimits r rx (r', none) q h go =
      let again = go r' h.0 in
      (
        again.0,
        (again.1.0 ∙ h.1.0, again.1.1 ∙ h.1.1),
        Limited-later r r' (length rx) (length (any_loop rx r').0.rx) (any_loop rx r').1 h.1
            again.2,
      )
  after_turn-WithinLimits r rx (r', some result) q h go =
      (h.0, h.1, subst (λ n. Limited r (suc n) (length r'.rx) result) (ap length q) h.2)

  empty-Limited :
      (r : Receiver A Q) (b : Bool) → Limited r 0 0 (if b then any_error recv_ch_mux else any_wait)
  empty-Limited r true = tt
  empty-Limited r false = tt

  any_loop-WithinLimits :
      (rx : List (PortReceiveMsg A Q)) (r : Receiver A Q)
      → Consistent r.receiving
      → WithinLimits r (length rx) (any_loop rx r)
  unfolding any_loop
  any_loop-WithinLimits [] r h = (h, (refl, refl), empty-Limited r r.rx_ended)
  any_loop-WithinLimits (msg ∷ rx) r h =
      (after_turn-WithinLimits (record r { rx = rx }) rx (handle_any (record r { rx = rx }) msg)
        refl (handle_any-TurnWithin (record r { rx = rx }) msg h) (any_loop-WithinLimits rx))

  announce-WithinLimits :
      (r : Receiver A Q) (receiving : Receiving A Q)
      → Consistent r.receiving
      → WithinLimits r (length r.rx) (after_turn (announce r receiving) (λ r'. any_loop r'.rx r'))
  announce-WithinLimits r nothing h = any_loop-WithinLimits r.rx r h
  announce-WithinLimits r (data_state d) h = any_loop-WithinLimits r.rx r h
  announce-WithinLimits r (requests_state requests) h = any_loop-WithinLimits r.rx r h
  announce-WithinLimits r (chunks_state [] true announced) h =
      any_loop-WithinLimits r.rx (with_receiving r nothing) tt
  announce-WithinLimits r (chunks_state [] false announced) h = (tt, (refl, refl), tt)
  announce-WithinLimits r (chunks_state (c ∷ chunks) completed announced) h = (tt, (refl, refl), tt)

  open-WithinLimits :
      (r : Receiver A Q) (b : Bool)
      → Consistent r.receiving
      → WithinLimits r (length r.rx) (
          if b then (r, any_end) else after_turn (announce r r.receiving) (λ r'. any_loop r'.rx r'))
  open-WithinLimits r true h = (h, (refl, refl), tt)
  open-WithinLimits r false h = announce-WithinLimits r r.receiving h

  accepted-WithinLimits :
      (r : Receiver A Q) (p : PreConnectState)
      → Consistent r.receiving
      → WithinLimits r (length r.rx) (any_accepted p r)
  accepted-WithinLimits r (rejected_port no_ports) h = (h, (refl, refl), tt)
  accepted-WithinLimits r accepted_port h = open-WithinLimits r r.finished h

  -- For any messages in the queue, where a message that is put together has the size of its bytes:
  -- `recv_any` keeps that so and keeps the limits, data that it gives has the size of its bytes and
  -- is within `max_data_size`, a group of requests that it gives is within `max_ports` and has taken
  -- a message from the queue at least.
  pub recv_any-WithinLimits :
      (r : Receiver A Q) → Consistent r.receiving → WithinLimits r (length r.rx) (recv_any r)
  unfolding recv_any
  recv_any-WithinLimits r h = accepted-WithinLimits r r.pre_connected h
