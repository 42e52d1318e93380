-- ===== src/Open/Responder.antt =====
-- mux.rs, the events and messages of requests for ports at the end that answers them. The answers of
-- the application are in Answers.
use remoc.Base.{
  contains, remove, ℕ, suc, ◌+◌, ◌-◌, ltb, leb, ◌==◌, ◌||◌, if◌then◌else◌, Bool, true, false,
  Option, none, some, List, [], ◌∷◌, ◌++◌, length,
}
use remoc.SidePort.{SidePort, local, remote}
use remoc.Mux.{MuxResult, ok, protocol_error, mux_panicked}
use remoc.Open.{ResponderMsg, port_opened, rejected_msg, listener_finish}
use remoc.Msg.Types.{PortDataItem}

-- `Request`; `pre_connected` says whether the sender and the receiver are there.
pub record Request : Type 0 where
  pub remote_port : ℕ
  pub id : ℕ
  pub wait : Bool
  pub pre_connected : Bool

pub data RemoteConnectMsg : Type 0 where
  request : Request → RemoteConnectMsg
  client_dropped : RemoteConnectMsg

-- The events of `PortEvt` that answer a request. A reserved port is there or not.
pub data AnswerEvt : Type 0 where
  accepted_evt : SidePort → ℕ → AnswerEvt
  accepted_after_pre_connect : ℕ → AnswerEvt
  rejected_evt : ℕ → Bool → Bool → AnswerEvt
  rejected_after_accept : ℕ → Bool → AnswerEvt

-- The parts of `ChMux` that requests read and change: the connected ports with their remote ports,
-- the ports that the allocator has given out, and the two listen queues, which `is_listening` says
-- are there. `requests` are the requests outside of the queues whose answer is still to come: the
-- application has them, or they were dropped and the spawned task has not run. `events` is the
-- channel of the answers.
pub record Responder : Type 0 where
  pub ports : List (SidePort × SidePort)
  pub allocated : List SidePort
  pub outstanding_remote_port_requests : List ℕ
  pub pre_connect_port_pool : ℕ
  pub connect_queue : ℕ
  pub is_port_side_supported : Bool
  pub is_listening : Bool
  pub wait_queue : List RemoteConnectMsg
  pub no_wait_queue : List RemoteConnectMsg
  pub requests : List Request
  pub events : List AnswerEvt
  pub remote_client_dropped : Bool

abbrev pub new_responder : Bool → ℕ → Responder
new_responder port_side connect_queue = record {
  ports = [];
  allocated = [];
  outstanding_remote_port_requests = [];
  pre_connect_port_pool = connect_queue;
  connect_queue = connect_queue;
  is_port_side_supported = port_side;
  is_listening = true;
  wait_queue = [];
  no_wait_queue = [];
  requests = [];
  events = [];
  remote_client_dropped = false;
}

abbrev pub same_port : SidePort → SidePort → Bool
same_port (local a) (local b) = a == b
same_port (local a) (remote b) = false
same_port (remote a) (local b) = false
same_port (remote a) (remote b) = a == b

abbrev pub has_port : List SidePort → SidePort → Bool
has_port [] port = false
has_port (p ∷ ps) port = same_port p port || has_port ps port

abbrev pub has_entry : List (SidePort × SidePort) → SidePort → Bool
has_entry [] port = false
has_entry ((p, q) ∷ ps) port = same_port p port || has_entry ps port

-- `create_port` for a port of the other end.
abbrev create_remote_port : Responder → SidePort → ℕ → MuxResult Responder
create_remote_port s local_port remote_port =
    if has_entry s.ports local_port
    then mux_panicked
    else ok (record s { ports = (local_port, remote remote_port) ∷ s.ports })

-- The branch of a request with `pre_connect`: a reserved port of the pool becomes the port of the
-- requester's number, which fails where that is allocated.
abbrev pub pre_connect_port : Responder → ℕ → Bool → MuxResult Responder
pre_connect_port s port false = ok s
pre_connect_port s port true =
    if s.pre_connect_port_pool == 0
    then protocol_error
    else if has_port s.allocated (remote port)
    then protocol_error
    else create_remote_port
        (record s {
          pre_connect_port_pool = s.pre_connect_port_pool - 1;
          allocated = remote port ∷ s.allocated;
        })
        (remote port) port

abbrev drop_request : Request → Responder → Responder
drop_request req s = record s { requests = s.requests ++ (req ∷ []) }

-- `try_send` into a listen queue, whose capacity is one more than `connect_queue`.
abbrev pub is_full : Responder → List RemoteConnectMsg → Bool
is_full s queue = leb (s.connect_queue + 1) (length queue)

abbrev pub listen_request : Responder → Request → MuxResult Responder
listen_request s req =
    if s.is_listening
    then (if req.wait
        then (if is_full s s.wait_queue
            then protocol_error
            else ok (record s { wait_queue = s.wait_queue ++ (request req ∷ []) }))
        else if is_full s s.no_wait_queue
        then protocol_error
        else ok (record s { no_wait_queue = s.no_wait_queue ++ (request req ∷ []) }))
    else ok (drop_request req s)

abbrev then_listen : Request → MuxResult Responder → MuxResult Responder
then_listen req (ok s) = listen_request s req
then_listen req protocol_error = protocol_error
then_listen req mux_panicked = mux_panicked

-- The id of a request without one is its port.
abbrev id_or_port : Option ℕ → ℕ → ℕ
id_or_port (some id) port = id
id_or_port none port = port

abbrev pub insert_outstanding : Responder → ℕ → Responder
insert_outstanding s port = record s {
  outstanding_remote_port_requests = port ∷ s.outstanding_remote_port_requests;
}

abbrev pub new_request : ℕ → Option ℕ → Bool → Bool → Request
new_request port id wait pre_connected = record {
  remote_port = port;
  id = id_or_port id port;
  wait = wait;
  pre_connected = pre_connected;
}

abbrev pub is_outstanding : Responder → ℕ → Bool
is_outstanding s port = contains s.outstanding_remote_port_requests port

-- `MultiplexMsg::OpenPort`.
unfoldable pub handle_open_port : Responder → ℕ → Bool → Option ℕ → Bool → MuxResult Responder
handle_open_port s client_port wait id pre_connect =
    if is_outstanding s client_port
    then protocol_error
    else if ltb s.connect_queue (suc (length s.outstanding_remote_port_requests))
    then protocol_error
    else then_listen (new_request client_port id wait pre_connect)
        (pre_connect_port (insert_outstanding s client_port) client_port pre_connect)

-- The requests of `MultiplexMsg::PortData`, in their order, which go to the receiver of the port. They
-- begin with what the task has, and go on with what it has after each.
abbrev pub then_requests :
    Request → MuxResult (Responder × List Request) → MuxResult (Responder × List Request)
then_requests req (ok (s, reqs)) = ok (s, req ∷ reqs)
then_requests req protocol_error = protocol_error
then_requests req mux_panicked = mux_panicked

-- The loop over the ports, after the checks of the port, the chunk size and the credits.
unfoldable pub open_data_ports :
    MuxResult Responder → Bool → List PortDataItem → MuxResult (Responder × List Request)
open_data_ports (ok s) wait [] = ok (s, [])
open_data_ports (ok s) wait (item ∷ items) =
    if is_outstanding s item.port
    then protocol_error
    else then_requests (new_request item.port (some item.id) wait item.pre_connect) (
        open_data_ports
          (pre_connect_port (insert_outstanding s item.port) item.port item.pre_connect) wait items)
open_data_ports protocol_error wait items = protocol_error
open_data_ports mux_panicked wait items = mux_panicked

-- `MultiplexMsg::ClientFinish`.
unfoldable pub handle_client_finish : Responder → MuxResult Responder
handle_client_finish s =
    if s.is_listening
    then (if is_full s s.wait_queue || is_full s s.no_wait_queue
        then protocol_error
        else ok (record s {
          wait_queue = s.wait_queue ++ (client_dropped ∷ []);
          no_wait_queue = s.no_wait_queue ++ (client_dropped ∷ []);
          remote_client_dropped = true;
        }))
    else ok (record s { remote_client_dropped = true })

-- `GlobalEvt::ListenerDropped`. The requests in the queues have been dropped with the listener.
abbrev pub requests_of : List RemoteConnectMsg → List Request
requests_of [] = []
requests_of (request req ∷ msgs) = req ∷ requests_of msgs
requests_of (client_dropped ∷ msgs) = requests_of msgs

abbrev pub handle_listener_dropped : Responder → Responder × ResponderMsg
handle_listener_dropped s = (
  record s {
    is_listening = false;
    wait_queue = [];
    no_wait_queue = [];
    requests = s.requests ++ (requests_of s.wait_queue ++ requests_of s.no_wait_queue);
  },
  listener_finish,
)

abbrev and_send : ResponderMsg → MuxResult Responder → MuxResult (Responder × ResponderMsg)
and_send msg (ok s) = ok (s, msg)
and_send msg protocol_error = protocol_error
and_send msg mux_panicked = mux_panicked

-- The request leaves the set of those outstanding, and a reserved port goes back to the pool.
abbrev pub settled : Responder → ℕ → Bool → Responder
settled s port true = record s {
  outstanding_remote_port_requests = remove s.outstanding_remote_port_requests port;
  pre_connect_port_pool = s.pre_connect_port_pool + 1;
}
settled s port false = record s {
  outstanding_remote_port_requests = remove s.outstanding_remote_port_requests port;
}

-- The events of the answers.
unfoldable pub handle_answer : Responder → AnswerEvt → MuxResult (Responder × ResponderMsg)
handle_answer s (accepted_evt local_port remote_port) =
    if is_outstanding s remote_port
    then and_send (port_opened remote_port local_port)
        (create_remote_port (settled s remote_port false) local_port remote_port)
    else mux_panicked
handle_answer s (accepted_after_pre_connect remote_port) =
    if is_outstanding s remote_port
    then ok (settled s remote_port true, port_opened remote_port (remote remote_port))
    else mux_panicked
handle_answer s (rejected_evt remote_port no_ports reserved_port) =
    if is_outstanding s remote_port
    then ok (settled s remote_port reserved_port, rejected_msg remote_port no_ports)
    else mux_panicked
handle_answer s (rejected_after_accept remote_port no_ports) =
    ok (s, rejected_msg remote_port no_ports)
