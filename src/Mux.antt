-- ===== src/Mux.antt =====
-- remoc/src/chmux/mux.rs: the life of a connected port in the table of the multiplexer task, from its
-- connection until it is freed. The charge and the return of credits are in Credit.
pub mod Peers
pub mod Flight
pub mod Invariant
pub mod Events
pub mod Arrivals
pub mod Safe
pub mod Late
mod Examples
use remoc.Base.{
  ℕ, ◌+◌, ◌-◌, ◌==◌, ◌&&◌, ◌||◌, not, if◌then◌else◌, Bool, true, false, Option, none, some, List,
  [], ◌∷◌, ◌++◌,
}

-- The messages about a port whose treatment depends on its state. The first flag of data says whether
-- it passes the checks on arrival: its size is within the chunk size, and the receive buffer has the
-- credits that it takes (the arithmetic is in Credit).
pub data PortMsg : Type 0 where
  data_for_port : Bool → Bool → Bool → PortMsg
  report_request : PortMsg
  report : PortMsg
  send_finish : PortMsg
  receive_close : PortMsg
  receive_finish : PortMsg

-- What the task puts into the queue of the local receiver.
pub data Queued : Type 0 where
  queued_data : Bool → Bool → Queued
  queued_report_request : Queued
  queued_finished : Queued

-- `PortState::Connected`. `receiver_tx_data` says whether the sender of the queue is there, and
-- `queue` what went through it; `closed_notify` whether the list of those to notify is there;
-- `credits_closed` has the argument of the call that closed the credit provider.
pub record Port : Type 0 where
  pub receiver_tx_data : Bool
  pub queue : List Queued
  pub receiver_closed : Bool
  pub receiver_dropped : Bool
  pub sender_dropped : Bool
  pub remote_receiver_closed : Bool
  pub closed_notify : Bool
  pub credits_closed : Option Bool
  pub remote_receiver_dropped : Bool
  pub report_processed : ℕ
  pub reports_delivered : ℕ

-- What the table has for a port.
pub data PortState : Type 0 where
  vacant : PortState
  connecting : PortState
  connected : Port → PortState

pub data MuxResult {ℓ} (A : Type ℓ) : Type ℓ where
  ok : A → MuxResult A
  protocol_error : MuxResult A
  mux_panicked : MuxResult A

abbrev pub created_port : Port
created_port = record {
  receiver_tx_data = true;
  queue = [];
  receiver_closed = false;
  receiver_dropped = false;
  sender_dropped = false;
  remote_receiver_closed = false;
  closed_notify = true;
  credits_closed = none;
  remote_receiver_dropped = false;
  report_processed = 0;
  reports_delivered = 0;
}

abbrev pub can_free : Port → Bool
can_free p =
    p.sender_dropped && p.receiver_dropped && not p.receiver_tx_data && p.remote_receiver_dropped

-- The branch of a connected port.
abbrev pub freed : Port → PortState
freed p = if can_free p then vacant else connected p

unfoldable pub maybe_free_port : PortState → MuxResult PortState
maybe_free_port (connected p) = ok (freed p)
maybe_free_port vacant = mux_panicked
maybe_free_port connecting = mux_panicked

-- The events of the local ends of a port.
pub data PortEvent : Type 0 where
  send_data : Bool → Bool → Bool → PortEvent
  request_report : PortEvent
  received_report : PortEvent
  sender_dropped_event : PortEvent
  receiver_closed_event : PortEvent
  receiver_dropped_event : PortEvent

abbrev pub sending : MuxResult PortState → PortMsg → MuxResult (PortState × PortMsg)
sending (ok s) msg = ok (s, msg)
sending protocol_error msg = protocol_error
sending mux_panicked msg = mux_panicked

-- The branches of the events for a connected port.
abbrev pub drop_sender : Port → MuxResult (PortState × PortMsg)
drop_sender p =
    if p.sender_dropped
    then mux_panicked
    else sending (maybe_free_port (connected (record p { sender_dropped = true }))) send_finish

abbrev pub close_receiver : Port → MuxResult (PortState × PortMsg)
close_receiver p =
    if p.receiver_closed || p.receiver_dropped
    then mux_panicked
    else ok (connected (record p { receiver_closed = true }), receive_close)

abbrev pub drop_receiver : Port → MuxResult (PortState × PortMsg)
drop_receiver p =
    if p.receiver_dropped
    then mux_panicked
    else sending (maybe_free_port (connected (record p { receiver_dropped = true }))) receive_finish

abbrev pub request_report_of : Port → MuxResult (PortState × PortMsg)
request_report_of p =
    ok (connected (record p { report_processed = p.report_processed + 1 }), report_request)

abbrev pub if_connected {ℓ} :
    {A : Type ℓ} → MuxResult A → PortState → (Port → MuxResult A) → MuxResult A
if_connected otherwise vacant handle = otherwise
if_connected otherwise connecting handle = otherwise
if_connected otherwise (connected p) handle = handle p

-- Data and reports of processed data go to the peer without a look at the table.
unfoldable pub handle_port_event : PortState → PortEvent → MuxResult (PortState × PortMsg)
handle_port_event s (send_data charged first last) = ok (s, data_for_port charged first last)
handle_port_event s received_report = ok (s, report)
handle_port_event s request_report = if_connected mux_panicked s request_report_of
handle_port_event s sender_dropped_event = if_connected mux_panicked s drop_sender
handle_port_event s receiver_closed_event = if_connected mux_panicked s close_receiver
handle_port_event s receiver_dropped_event = if_connected mux_panicked s drop_receiver

abbrev pub enqueue : Queued → Port → MuxResult PortState
enqueue msg p =
    if p.receiver_tx_data
    then ok (connected (record p { queue = p.queue ++ (msg ∷ []) }))
    else protocol_error

-- Data is charged to the receive buffer before it is queued.
abbrev pub take_data : Bool → Bool → Bool → Port → MuxResult PortState
take_data charged first last p =
    if charged then enqueue (queued_data first last) p else protocol_error

abbrev pub finish_sender : Port → MuxResult PortState
finish_sender p =
    if p.receiver_tx_data
    then maybe_free_port (
        connected
          (record p { receiver_tx_data = false; queue = p.queue ++ (queued_finished ∷ []) }))
    else protocol_error

-- The provider is closed and the waiting tasks are notified; `unwrap` panics where the list is gone.
abbrev pub hang_up : Bool → Port → MuxResult Port
hang_up gracefully p =
    if p.closed_notify
    then ok (record p {
      credits_closed = some gracefully;
      remote_receiver_closed = true;
      closed_notify = false;
    })
    else mux_panicked

abbrev pub then_free : MuxResult Port → MuxResult PortState
then_free (ok p) = maybe_free_port (connected p)
then_free protocol_error = protocol_error
then_free mux_panicked = mux_panicked

abbrev pub close_sender : Port → MuxResult PortState
close_sender p = if p.remote_receiver_closed then protocol_error else then_free (hang_up true p)

abbrev pub gone : MuxResult Port → MuxResult Port
gone (ok p) = ok (record p {
  reports_delivered = p.reports_delivered + p.report_processed;
  report_processed = 0;
  remote_receiver_dropped = true;
})
gone protocol_error = protocol_error
gone mux_panicked = mux_panicked

abbrev pub lose_receiver : Port → MuxResult PortState
lose_receiver p = then_free (gone (if p.remote_receiver_closed then ok p else hang_up false p))

abbrev pub deliver_report : PortState → PortState
deliver_report vacant = vacant
deliver_report connecting = connecting
deliver_report (connected p) = connected (
    if p.report_processed == 0 then p else record p {
      report_processed = p.report_processed - 1;
      reports_delivered = p.reports_delivered + 1;
    })

unfoldable pub handle_port_msg : PortState → PortMsg → MuxResult PortState
handle_port_msg s (data_for_port charged first last) =
    if_connected protocol_error s (take_data charged first last)
handle_port_msg s report_request = if_connected protocol_error s (enqueue queued_report_request)
handle_port_msg s report = ok (deliver_report s)
handle_port_msg s send_finish = if_connected protocol_error s finish_sender
handle_port_msg s receive_close = if_connected protocol_error s close_sender
handle_port_msg s receive_finish = if_connected protocol_error s lose_receiver
