-- ===== src/Receiver.antt =====
-- remoc/src/chmux/receiver.rs, `Receiver`: messages are put together from the chunks of a port.
-- A credit that is returned is appended to a list, which Credit/Monitor turns into events.
use remoc.Base.{
  ℕ, zero, suc, ◌+◌, ◌^◌, ltb, leb, ◌&&◌, if◌then◌else◌, Bool, true, false, Option, none, some,
  List, [], ◌∷◌, ◌++◌, length,
}
use remoc.Credit.Monitor.{UsedPortCredit}
pub mod Calls
pub mod Whole
pub mod Delivery
pub mod Chunked
pub mod Discards
pub mod Stream
pub mod Limits
pub mod Endings
mod Examples

-- The field `global_credit` is never read; it returns the shared credits when it is dropped, which is
-- in Credit/Global.
pub record ReceivedData {ℓ} (A : Type ℓ) : Type ℓ where
  pub buf : List A
  pub first : Bool
  pub last : Bool
  pub port_credit : UsedPortCredit

pub record ReceivedPortRequests {ℓ} (Q : Type ℓ) : Type ℓ where
  pub requests : List Q
  pub first : Bool
  pub last : Bool
  pub credit : UsedPortCredit

pub data PortReceiveMsg {ℓ κ} (A : Type ℓ) (Q : Type κ) : Type (ℓ ⊔ κ) where
  data_received : ReceivedData A → PortReceiveMsg A Q
  port_requests : ReceivedPortRequests Q → PortReceiveMsg A Q
  request_received_report : PortReceiveMsg A Q
  finished_msg : PortReceiveMsg A Q

pub record DataBuf {ℓ} (A : Type ℓ) : Type ℓ where
  pub bufs : List (List A)
  pub remaining : ℕ

abbrev pub new_buf {ℓ} : {A : Type ℓ} → DataBuf A
new_buf = record { bufs = []; remaining = 0 }

-- `none` gives the buffer back. The sum is of two `usize`.
abbrev pub try_push {ℓ} : {A : Type ℓ} → DataBuf A → List A → ℕ → Option (DataBuf A)
try_push d buf max_size =
    if ltb (d.remaining + length buf) (2 ^ 64) && leb (d.remaining + length buf) max_size
    then some (record { bufs = d.bufs ++ (buf ∷ []); remaining = d.remaining + length buf })
    else none

abbrev pub joined {ℓ} : {A : Type ℓ} → List (List A) → List A
joined [] = []
joined (buf ∷ bufs) = buf ++ joined bufs

-- `From<DataBuf> for Vec<u8>`.
abbrev pub into_vec {ℓ} : {A : Type ℓ} → DataBuf A → List A
into_vec d = joined d.bufs

-- `chunks_state` has the chunks not passed on yet, and whether the last one has been received and
-- the message has been announced.
pub data Receiving {ℓ κ} (A : Type ℓ) (Q : Type κ) : Type (ℓ ⊔ κ) where
  nothing : Receiving A Q
  data_state : DataBuf A → Receiving A Q
  chunks_state : List (List A) → Bool → Bool → Receiving A Q
  requests_state : List Q → Receiving A Q

-- The state of a connected or pre-connected port, once it is decided.
-- A port that has been accepted tentatively can be rejected until its closure.
pub data PreConnectState : Type 0 where
  accepted_port : PreConnectState
  rejected_port : Bool → PreConnectState

-- The messages that the multiplexer task has queued, and whether it has gone away behind them.
-- `pre_connected` is the state at the call, `at_closure` that when the closure is observed.
pub record Receiver {ℓ κ} (A : Type ℓ) (Q : Type κ) : Type (ℓ ⊔ κ) where
  pub max_data_size : ℕ
  pub max_ports : ℕ
  pub rx : List (PortReceiveMsg A Q)
  pub rx_ended : Bool
  pub receiving : Receiving A Q
  pub returned : List UsedPortCredit
  pub reports : ℕ
  pub finished : Bool
  pub pre_connected : PreConnectState
  pub at_closure : PreConnectState

pub data RecvError : Type 0 where
  recv_ch_mux : RecvError
  exceeds_max_data_size : ℕ → RecvError
  exceeds_max_port_count : ℕ → RecvError
  recv_rejected : Bool → RecvError

-- `Result<Option<Received>, RecvError>`, or a wait for a message.
pub data RecvAny {ℓ κ} (A : Type ℓ) (Q : Type κ) : Type (ℓ ⊔ κ) where
  any_data : DataBuf A → RecvAny A Q
  any_chunks : RecvAny A Q
  any_requests : List Q → RecvAny A Q
  any_end : RecvAny A Q
  any_error : RecvError → RecvAny A Q
  any_wait : RecvAny A Q

-- A turn of a loop: it returns, or goes on.
abbrev pub Turn {ℓ κ} : Type ℓ → Type κ → Type (ℓ ⊔ κ)
Turn S R = S × Option R

abbrev pub after_turn {ℓ κ} : {S : Type ℓ} {R : Type κ} → Turn S R → (S → S × R) → S × R
after_turn (s, some result) again = (s, result)
after_turn (s, none) again = again s

module _ {ℓ κ} {A : Type ℓ} {Q : Type κ} where
  abbrev pub return_credit : Receiver A Q → UsedPortCredit → Receiver A Q
  return_credit r credit = record r { returned = r.returned ++ (credit ∷ []) }

  abbrev pub with_receiving : Receiver A Q → Receiving A Q → Receiver A Q
  with_receiving r receiving = record r { receiving = receiving }

  -- `mem::take` of a data state, which the first chunk of a message makes new.
  abbrev pub data_of : Bool → Receiving A Q → Option (DataBuf A)
  data_of true receiving = some new_buf
  data_of false (data_state d) = some d
  data_of false nothing = none
  data_of false (chunks_state chunks completed announced) = none
  data_of false (requests_state requests) = none

  abbrev pub requests_of : Bool → Receiving A Q → Option (List Q)
  requests_of true receiving = some []
  requests_of false (requests_state requests) = some requests
  requests_of false nothing = none
  requests_of false (data_state d) = none
  requests_of false (chunks_state chunks completed announced) = none

  abbrev pub push_data :
      Receiver A Q
      → ReceivedData A
      → DataBuf A
      → Option (DataBuf A)
      → Turn (Receiver A Q) (RecvAny A Q)
  push_data r d buf (some buf') =
      if d.last
      then (with_receiving r nothing, some (any_data buf'))
      else (with_receiving r (data_state buf'), none)
  push_data r d buf none =
      (with_receiving r (chunks_state (buf.bufs ++ (d.buf ∷ [])) d.last true), some any_chunks)

  abbrev pub add_data :
      Receiver A Q → ReceivedData A → Option (DataBuf A) → Turn (Receiver A Q) (RecvAny A Q)
  add_data r d none = (with_receiving r nothing, none)
  add_data r d (some buf) = push_data r d buf (try_push buf d.buf r.max_data_size)

  abbrev pub push_requests :
      Receiver A Q → ReceivedPortRequests Q → List Q → Turn (Receiver A Q) (RecvAny A Q)
  push_requests r p requests =
      if ltb r.max_ports (length requests)
      then (with_receiving r nothing, some (any_error (exceeds_max_port_count r.max_ports)))
      else if p.last
      then (with_receiving r nothing, some (any_requests requests))
      else (with_receiving r (requests_state requests), none)

  abbrev pub add_requests :
      Receiver A Q → ReceivedPortRequests Q → Option (List Q) → Turn (Receiver A Q) (RecvAny A Q)
  add_requests r p none = (with_receiving r nothing, none)
  add_requests r p (some requests) = push_requests r p (requests ++ p.requests)

  abbrev pub finish_any : PreConnectState → RecvAny A Q
  finish_any accepted_port = any_end
  finish_any (rejected_port no_ports) = any_error (recv_rejected no_ports)

  unfoldable pub handle_any : Receiver A Q → PortReceiveMsg A Q → Turn (Receiver A Q) (RecvAny A Q)
  handle_any r (data_received d) =
      add_data (return_credit r d.port_credit) d (data_of d.first r.receiving)
  handle_any r (port_requests p) =
      add_requests (return_credit r p.credit) p (requests_of p.first r.receiving)
  handle_any r request_received_report = (record r { reports = r.reports + 1 }, none)
  handle_any r finished_msg = (record r { finished = true }, some (finish_any r.at_closure))

  -- The loop, over the messages in the queue.
  unfoldable pub any_loop : List (PortReceiveMsg A Q) → Receiver A Q → Receiver A Q × RecvAny A Q
  any_loop [] r = (record r { rx = [] }, if r.rx_ended then any_error recv_ch_mux else any_wait)
  any_loop (msg ∷ rx) r = after_turn (handle_any (record r { rx = rx }) msg) (any_loop rx)

  -- A chunked reception that is in progress is announced again.
  abbrev pub announce : Receiver A Q → Receiving A Q → Turn (Receiver A Q) (RecvAny A Q)
  announce r nothing = (r, none)
  announce r (data_state d) = (r, none)
  announce r (requests_state requests) = (r, none)
  announce r (chunks_state [] true announced) = (with_receiving r nothing, none)
  announce r (chunks_state [] false announced) =
      (with_receiving r (chunks_state [] false true), some any_chunks)
  announce r (chunks_state (c ∷ chunks) completed announced) =
      (with_receiving r (chunks_state (c ∷ chunks) completed true), some any_chunks)

  abbrev pub any_accepted : PreConnectState → Receiver A Q → Receiver A Q × RecvAny A Q
  any_accepted (rejected_port no_ports) r = (r, any_error (recv_rejected no_ports))
  any_accepted accepted_port r =
      if r.finished
      then (r, any_end)
      else after_turn (announce r r.receiving) (λ r'. any_loop r'.rx r')

  unfoldable pub recv_any : Receiver A Q → Receiver A Q × RecvAny A Q
  recv_any r = any_accepted r.pre_connected r
