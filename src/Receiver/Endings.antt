-- ===== src/Receiver/Endings.antt =====
-- receiver.rs: what `Receiver::recv` gives for any messages in the queue.
use remoc.Base.{ℕ, zero, suc, ◌≤◌, ◌<◌, ◌≡◌, true, false, length, arith}
use remoc.Receiver.{
  into_vec, Receiving, nothing, data_state, chunks_state, requests_state, Receiver, RecvAny,
  any_data, any_chunks, any_requests, any_end, any_error, any_wait, recv_any,
}
use remoc.Receiver.Calls.{
  RecvData, a_buf, data_end, data_error, data_wait, out_of_fuel, discarded, discard_chunks,
  after_any, recv_loop, recv,
}
use remoc.Receiver.Limits.{Consistent, WithinLimits, recv_any-WithinLimits}

module _ {ℓ κ} {A : Type ℓ} {Q : Type κ} where
  abbrev pub DataLimited : Receiver A Q → Receiver A Q × RecvData A → Type 0
  DataLimited r (r', a_buf d) =
      Consistent r'.receiving
      × (d.remaining ≡ length (into_vec d))
      × (d.remaining ≤ r.max_data_size)
  DataLimited r (r', data_end) = Consistent r'.receiving
  DataLimited r (r', data_error e) = Consistent r'.receiving
  DataLimited r (r', data_wait) = Consistent r'.receiving
  DataLimited r (r', out_of_fuel) = ⊥

  DataLimited-same :
      (r r' : Receiver A Q) (res : Receiver A Q × RecvData A)
      → r'.max_data_size ≡ r.max_data_size
      → DataLimited r' res
      → DataLimited r res
  DataLimited-same r r' (r'', a_buf d) e h = (h.0, h.1, omega (arith, e, h.2))
  DataLimited-same r r' (r'', data_end) e h = h
  DataLimited-same r r' (r'', data_error err) e h = h
  DataLimited-same r r' (r'', data_wait) e h = h
  DataLimited-same r r' (r'', out_of_fuel) e h = h

  discarded-Consistent : (s : Receiving A Q) → Consistent s → Consistent (discarded s)
  discarded-Consistent (chunks_state chunks completed true) h = tt
  discarded-Consistent (chunks_state chunks completed false) h = tt
  discarded-Consistent nothing h = tt
  discarded-Consistent (data_state d) h = h
  discarded-Consistent (requests_state requests) h = tt

  after_any-DataLimited :
      (r : Receiver A Q) (res : Receiver A Q × RecvAny A Q)
      (again : Receiver A Q → Receiver A Q × RecvData A)
      → WithinLimits r (length r.rx) res
      → ((r' : Receiver A Q)
          → Consistent r'.receiving
          → length r'.rx < length r.rx
          → DataLimited r' (again r'))
      → DataLimited r (after_any res again)
  unfolding discard_chunks
  after_any-DataLimited r (r', any_data d) again h go = (h.0, h.2.0, h.2.1)
  after_any-DataLimited r (r', any_chunks) again h go = discarded-Consistent r'.receiving h.0
  after_any-DataLimited r (r', any_requests requests) again h go =
      DataLimited-same r r' (again r') h.1.0 (go r' h.0 h.2.1)
  after_any-DataLimited r (r', any_end) again h go = h.0
  after_any-DataLimited r (r', any_error e) again h go = h.0
  after_any-DataLimited r (r', any_wait) again h go = h.0

  recv_loop-DataLimited :
      (fuel : ℕ) (r : Receiver A Q)
      → Consistent r.receiving
      → length r.rx < fuel
      → DataLimited r (recv_loop fuel r)
  unfolding recv_loop
  recv_loop-DataLimited zero r h l = absurd (omega (arith, l))
  recv_loop-DataLimited (suc fuel) r h l =
      after_any-DataLimited r (recv_any r) (recv_loop fuel) (recv_any-WithinLimits r h)
        (λ r' h' l'. recv_loop-DataLimited fuel r' h' (omega (arith, l, l')))

  -- For any messages in the queue, where a message that is put together has the size of its bytes:
  -- `recv` ends, with a result other than the end of its fuel, keeps that so, and data that it gives
  -- has the size of its bytes and is within `max_data_size`.
  pub recv-DataLimited : (r : Receiver A Q) → Consistent r.receiving → DataLimited r (recv r)
  unfolding recv
  recv-DataLimited r h = recv_loop-DataLimited (suc (length r.rx)) r h (omega arith)
