-- ===== src/Receiver/Calls.antt =====
-- receiver.rs: `Receiver::recv`, `Receiver::recv_chunk` and `Receiver::discard_chunks`.
use remoc.Base.{
  ℕ, zero, suc, ◌+◌, if◌then◌else◌, Bool, true, false, none, some, List, [], ◌∷◌, length,
}
use remoc.Receiver.{
  ReceivedData, PortReceiveMsg, data_received, port_requests, request_received_report, finished_msg,
  DataBuf, Receiving, nothing, data_state, chunks_state, requests_state, PreConnectState,
  accepted_port, rejected_port, Receiver, RecvError, exceeds_max_data_size, RecvAny, any_data,
  any_chunks, any_requests, any_end, any_error, any_wait, Turn, after_turn, return_credit,
  with_receiving, recv_any,
}

pub data RecvChunkError : Type 0 where
  chunk_ch_mux : RecvChunkError
  chunk_cancelled : RecvChunkError

pub data RecvChunk {ℓ} (A : Type ℓ) : Type ℓ where
  a_chunk : List A → RecvChunk A
  chunk_end : RecvChunk A
  chunk_error : RecvChunkError → RecvChunk A
  chunk_wait : RecvChunk A

pub data RecvData {ℓ} (A : Type ℓ) : Type ℓ where
  a_buf : DataBuf A → RecvData A
  data_end : RecvData A
  data_error : RecvError → RecvData A
  data_wait : RecvData A
  out_of_fuel : RecvData A

abbrev pub finish_chunk {ℓ} : {A : Type ℓ} → PreConnectState → RecvChunk A
finish_chunk accepted_port = chunk_end
finish_chunk (rejected_port no_ports) = chunk_error chunk_cancelled

module _ {ℓ κ} {A : Type ℓ} {Q : Type κ} where
  -- The chunks that have been received already, and the end of the message.
  abbrev pub ready_chunk : Receiver A Q → Receiving A Q → Turn (Receiver A Q) (RecvChunk A)
  ready_chunk r (chunks_state (c ∷ chunks) completed announced) =
      (with_receiving r (chunks_state chunks completed true), some (a_chunk c))
  ready_chunk r (chunks_state [] true announced) = (with_receiving r nothing, some chunk_end)
  ready_chunk r (chunks_state [] false announced) = (r, none)
  ready_chunk r nothing = (r, none)
  ready_chunk r (data_state d) = (r, none)
  ready_chunk r (requests_state requests) = (r, none)

  abbrev pub is_chunks : Receiving A Q → Bool
  is_chunks (chunks_state chunks completed announced) = true
  is_chunks nothing = false
  is_chunks (data_state d) = false
  is_chunks (requests_state requests) = false

  -- Whether a chunked reception is in progress, and whether the chunk is the first of a message.
  abbrev pub chunk_data :
      Bool → Bool → Receiver A Q → ReceivedData A → Turn (Receiver A Q) (RecvChunk A)
  chunk_data true true r d = (
    with_receiving r (chunks_state (d.buf ∷ []) d.last false),
    some (chunk_error chunk_cancelled),
  )
  chunk_data true false r d = (with_receiving r (chunks_state [] d.last true), some (a_chunk d.buf))
  chunk_data false true r d = (with_receiving r (chunks_state [] d.last true), some (a_chunk d.buf))
  chunk_data false false r d = (r, none)

  unfoldable pub handle_chunk :
      Receiver A Q → PortReceiveMsg A Q → Turn (Receiver A Q) (RecvChunk A)
  handle_chunk r (data_received d) =
      chunk_data (is_chunks r.receiving) d.first (return_credit r d.port_credit) d
  handle_chunk r (port_requests p) =
      let r1 = return_credit r p.credit in
      if is_chunks r.receiving
      then (with_receiving r1 nothing, some (chunk_error chunk_cancelled))
      else (r1, none)
  handle_chunk r request_received_report = (record r { reports = r.reports + 1 }, none)
  handle_chunk r finished_msg =
      if is_chunks r.receiving
      then (record r { finished = true; receiving = nothing }, some (chunk_error chunk_cancelled))
      else (record r { finished = true }, some (finish_chunk r.at_closure))

  unfoldable pub chunk_loop : List (PortReceiveMsg A Q) → Receiver A Q → Receiver A Q × RecvChunk A
  chunk_loop [] r =
      after_turn (ready_chunk r r.receiving)
        λ r'. (record r' { rx = [] }, if r'.rx_ended then chunk_error chunk_ch_mux else chunk_wait)
  chunk_loop (msg ∷ rx) r =
      after_turn (ready_chunk r r.receiving)
        λ r'. after_turn (handle_chunk (record r' { rx = rx }) msg) (chunk_loop rx)

  abbrev pub chunk_accepted : PreConnectState → Receiver A Q → Receiver A Q × RecvChunk A
  chunk_accepted (rejected_port no_ports) r = (r, chunk_error chunk_cancelled)
  chunk_accepted accepted_port r = if r.finished then (r, chunk_end) else chunk_loop r.rx r

  unfoldable pub recv_chunk : Receiver A Q → Receiver A Q × RecvChunk A
  recv_chunk r = chunk_accepted r.pre_connected r

  abbrev pub discarded : Receiving A Q → Receiving A Q
  discarded (chunks_state chunks completed true) = nothing
  discarded (chunks_state chunks completed false) = chunks_state chunks completed false
  discarded nothing = nothing
  discarded (data_state d) = data_state d
  discarded (requests_state requests) = requests_state requests

  unfoldable pub discard_chunks : Receiver A Q → Receiver A Q
  discard_chunks r = with_receiving r (discarded r.receiving)

  abbrev pub after_any :
      Receiver A Q × RecvAny A Q
      → (Receiver A Q → Receiver A Q × RecvData A)
      → Receiver A Q × RecvData A
  after_any (r, any_data d) again = (r, a_buf d)
  after_any (r, any_chunks) again =
      (discard_chunks r, data_error (exceeds_max_data_size r.max_data_size))
  after_any (r, any_requests requests) again = again r
  after_any (r, any_end) again = (r, data_end)
  after_any (r, any_error e) again = (r, data_error e)
  after_any (r, any_wait) again = (r, data_wait)

  unfoldable pub recv_loop : ℕ → Receiver A Q → Receiver A Q × RecvData A
  recv_loop zero r = (r, out_of_fuel)
  recv_loop (suc fuel) r = after_any (recv_any r) (recv_loop fuel)

  -- Requests are dropped; a group of them uses a message of the queue up.
  unfoldable pub recv : Receiver A Q → Receiver A Q × RecvData A
  recv r = recv_loop (suc (length r.rx)) r
