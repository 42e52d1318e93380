-- ===== src/Open/Requester.antt =====
-- mux.rs, the events and messages of requests for ports at
-- the end that makes them. The client is in Client.
use remoc.Base.{
  ℕ, ◌+◌, ◌==◌, ◌||◌, if◌then◌else◌, Bool, true, false, Option, none, some, List, [], ◌∷◌,
}
use remoc.SidePort.{SidePort, local, flipped}
use remoc.Mux.{MuxResult, ok, protocol_error, mux_panicked}
use remoc.Open.{
  RequesterMsg, open_port, client_finish, PreConnectState, pre_connected, accepted, rejected,
}
use remoc.Msg.Types.{PortDataItem}

-- The task behind `response_tx`: `Client::connect`, which holds a credit for the request, or
-- `Sender::connect`, which holds none.
pub data Awaiting : Type 0 where
  by_client : Awaiting
  by_port_sender : Awaiting

-- `PortState` with what the requests read, and no entry. A connected port has its `remote_port`,
-- the value of `pre_connected_tx`, and whether `pre_connect_credit` is there.
pub data PortEntry : Type 0 where
  vacant : PortEntry
  connecting : Awaiting → PortEntry
  connected : SidePort → Option PreConnectState → Bool → PortEntry

-- `Accepted` with the ports of the sender and the receiver, local and remote.
pub data ConnectRsp : Type 0 where
  accepted_rsp : SidePort → SidePort → ConnectRsp
  rejected_rsp : Bool → ConnectRsp

-- A `ClientReq` or `PortReq`. The allocated port is its number, and the pre-connect credit whether
-- there is one.
pub record ClientReq : Type 0 where
  pub port : ℕ
  pub id : ℕ
  pub wait : Bool
  pub pre_connect_credit : Bool

-- The ports by the number that this end has allocated, the credits that are left in the semaphore,
-- and the responses that were sent, each with its port.
pub record Requester : Type 0 where
  pub ports : ℕ → PortEntry
  pub connect_credits : ℕ
  pub connect_rx : List ClientReq
  pub responses : List (ℕ × ConnectRsp)
  pub port_id : Bool
  pub pre_connect : Bool
  pub remote_listener_dropped : Bool
  pub all_clients_dropped : Bool

abbrev pub new_requester : Bool → Bool → ℕ → Requester
new_requester port_id pre_connect connect_queue = record {
  ports = λ port. vacant;
  connect_credits = connect_queue;
  connect_rx = [];
  responses = [];
  port_id = port_id;
  pre_connect = pre_connect;
  remote_listener_dropped = false;
  all_clients_dropped = false;
}

abbrev pub set_entry : (ℕ → PortEntry) → ℕ → PortEntry → ℕ → PortEntry
set_entry ports port entry other = if port == other then entry else ports other

-- The drop of a credit, where there is one.
abbrev pub give_back : Bool → Requester → Requester
give_back true r = record r { connect_credits = r.connect_credits + 1 }
give_back false r = r

abbrev pub respond : ℕ → ConnectRsp → Requester → Requester
respond port response r = record r { responses = (port, response) ∷ r.responses }

-- The client holds its credit until it has the response.
abbrev holds_credit : Awaiting → Bool
holds_credit by_client = true
holds_credit by_port_sender = false

abbrev is_connected : PortEntry → Bool
is_connected vacant = false
is_connected (connecting waiter) = false
is_connected (connected port state credit) = true

abbrev is_vacant : PortEntry → Bool
is_vacant vacant = true
is_vacant (connecting waiter) = false
is_vacant (connected port state credit) = false

-- `create_port` where the local port has the given number.
abbrev create_port : Requester → ℕ → SidePort → Option PreConnectState → Bool → MuxResult Requester
create_port r port remote_port state credit =
    if is_connected (r.ports port)
    then mux_panicked
    else ok (
        respond port (accepted_rsp (local port) remote_port)
          (record r { ports = set_entry r.ports port (connected remote_port state credit) }))

abbrev start_connecting : Requester → ℕ → Awaiting → MuxResult Requester
start_connecting r port waiter =
    if is_vacant (r.ports port)
    then ok (record r { ports = set_entry r.ports port (connecting waiter) })
    else mux_panicked

-- The port of one request, of a client or in port data, with who awaits the response.
abbrev pub begin_request : Requester → Awaiting → ClientReq → MuxResult Requester
begin_request r waiter req =
    if req.pre_connect_credit
    then create_port r req.port (local req.port) (some pre_connected) true
    else start_connecting r req.port waiter

abbrev pub open_port_msg : Requester → ClientReq → RequesterMsg
open_port_msg r req =
    open_port req.port req.wait (if r.port_id then some req.id else none) req.pre_connect_credit

abbrev pub then_send :
    RequesterMsg → MuxResult Requester → MuxResult (Requester × Option RequesterMsg)
then_send msg (ok r) = ok (r, some msg)
then_send msg protocol_error = protocol_error
then_send msg mux_panicked = mux_panicked

-- `GlobalEvt::ConnectReq`. The response to a request that is not sent ends the hold of its credit.
unfoldable pub handle_connect_req :
    Requester → ClientReq → MuxResult (Requester × Option RequesterMsg)
handle_connect_req r req =
    if r.remote_listener_dropped
    then ok (give_back true (respond req.port (rejected_rsp false) r), none)
    else then_send (open_port_msg r req) (begin_request r by_client req)

-- The requests of `PortEvt::SendPorts`, in their order, with the items of the message. They begin with
-- what the task has, and go on with what it has after each.
abbrev pub port_data_item : Requester → ClientReq → PortDataItem
port_data_item r req = record {
  port = req.port;
  id = if r.port_id then req.id else req.port;
  pre_connect = req.pre_connect_credit;
}

abbrev pub then_item :
    PortDataItem
    → MuxResult (Requester × List PortDataItem)
    → MuxResult (Requester × List PortDataItem)
then_item item (ok (r, items)) = ok (r, item ∷ items)
then_item item protocol_error = protocol_error
then_item item mux_panicked = mux_panicked

unfoldable pub send_ports :
    MuxResult Requester → List ClientReq → MuxResult (Requester × List PortDataItem)
send_ports (ok r) [] = ok (r, [])
send_ports (ok r) (req ∷ reqs) =
    then_item (port_data_item r req) (send_ports (begin_request r by_port_sender req) reqs)
send_ports protocol_error reqs = protocol_error
send_ports mux_panicked reqs = mux_panicked

-- The `wait` of the message.
abbrev any_wait : List ClientReq → Bool
any_wait [] = false
any_wait (req ∷ reqs) = req.wait || any_wait reqs

abbrev pub handle_all_clients_dropped : Requester → Requester × RequesterMsg
handle_all_clients_dropped r = (record r { all_clients_dropped = true }, client_finish)

-- The branches of the two answers for the entry of the port.
abbrev pub opened_entry : Requester → ℕ → SidePort → PortEntry → MuxResult Requester
opened_entry r port server_port vacant = protocol_error
opened_entry r port server_port (connecting waiter) =
    create_port
      (give_back (holds_credit waiter) (record r { ports = set_entry r.ports port vacant })) port
      (flipped server_port) none false
opened_entry r port server_port (connected remote_port none credit) = protocol_error
opened_entry r port server_port (connected remote_port (some state) credit) = ok (
    give_back credit
      (record r { ports = set_entry r.ports port (connected remote_port (some accepted) false) }))

abbrev pub rejected_entry : Requester → ℕ → Bool → PortEntry → MuxResult Requester
rejected_entry r port no_ports vacant = protocol_error
rejected_entry r port no_ports (connecting waiter) = ok (
    give_back (holds_credit waiter)
      (respond port (rejected_rsp no_ports) (record r { ports = set_entry r.ports port vacant })))
rejected_entry r port no_ports (connected remote_port none credit) = protocol_error
rejected_entry r port no_ports (connected remote_port (some state) credit) = ok (
    give_back credit (record r {
      ports = set_entry r.ports port (connected remote_port (some (rejected no_ports)) false);
    }))

unfoldable pub handle_port_opened : Requester → ℕ → SidePort → MuxResult Requester
handle_port_opened r client_port server_port =
    opened_entry r client_port server_port (r.ports client_port)

unfoldable pub handle_rejected : Requester → ℕ → Bool → MuxResult Requester
handle_rejected r client_port no_ports = rejected_entry r client_port no_ports (r.ports client_port)

abbrev pub handle_listener_finish : Requester → Requester
handle_listener_finish r = record r { remote_listener_dropped = true }
