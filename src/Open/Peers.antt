-- ===== src/Open/Peers.antt =====
-- mux.rs: a requester and a responder, joined by queues of messages. Requests in port data and the
-- rejection of a port that has been accepted are not among what happens here, nor is the drop of halves
-- of ports that are opened or pre-connected, by which `maybe_free_port` frees a port: the moves are
-- those of connections whose ports stay. A pre-connected port that is freed before its request is
-- decided makes the answer an error.
use remoc.Base.{
  ◌≡◌, ℕ, ◌==◌, if◌then◌else◌, Bool, true, false, Option, none, some, List, [], ◌∷◌, ◌++◌,
}
use remoc.SidePort.{local}
use remoc.Mux.{MuxResult, ok, protocol_error, mux_panicked}
use remoc.Open.{
  RequesterMsg, open_port, client_finish, ResponderMsg, port_opened, rejected_msg, listener_finish,
}
use remoc.Open.Requester.{
  Requester, ClientReq, vacant, new_requester, handle_connect_req, handle_all_clients_dropped,
  handle_port_opened, handle_rejected, handle_listener_finish,
}
use remoc.Open.Client.{try_pre_connect, connect, Connecting, queued, failed, waiting}
use remoc.Open.Responder.{
  Responder, Request, RemoteConnectMsg, request, client_dropped, AnswerEvt, new_responder, has_port,
  handle_open_port, handle_client_finish, handle_listener_dropped, handle_answer,
}
use remoc.Open.Answers.{Reservation, accept, accept_reserved, accept_tentatively, reject, send_drop}

pub record Peers : Type 0 where
  pub requester : Requester
  pub responder : Responder
  pub to_responder : List RequesterMsg
  pub to_requester : List ResponderMsg

-- What both ends know of each other: `port_id`, `pre_connect` and `port_side`, and the queue's size.
abbrev pub new_peers : Bool → Bool → Bool → ℕ → Peers
new_peers port_id pre_connect port_side connect_queue = record {
  requester = new_requester port_id pre_connect connect_queue;
  responder = new_responder port_side connect_queue;
  to_responder = [];
  to_requester = [];
}

-- How the application answers a request.
pub data Choice : Type 0 where
  accepts : Reservation → Choice
  accepts_reserved : Reservation → Reservation → Choice
  accepts_tentatively : Reservation → Choice
  rejects : Bool → Choice
  drops : Choice

-- What happens next: a client asks, after an attempt to pre-connect or without; the task takes the
-- next request of its clients; the clients are dropped; the next message reaches the responder; the
-- application takes from a listen queue; it answers a request, which stands between others; the task
-- takes the next answer; the listener is dropped; the next message reaches the requester.
pub data Move : Type 0 where
  ask : Bool → ClientReq → Move
  take_connect_req : Move
  drop_clients : Move
  reach_responder : Move
  take_from_queue : Bool → Move
  answer : List Request → Request → List Request → Choice → Move
  take_answer : Move
  drop_listener : Move
  reach_requester : Move

-- A request that has failed or waits is given up, and its pre-connect credit goes back.
abbrev pub asked : Requester → Connecting → Requester
asked before (queued r) = r
asked before (failed error) = before
asked before waiting = before

abbrev pub ask_for_port : Requester → Bool → ClientReq → Requester
ask_for_port r pre_connects req =
    let (r', req') = if pre_connects then try_pre_connect r req else (r, req) in
    asked r (connect r' true req')

abbrev with_msg {ℓ} : {A : Type ℓ} → List A → Option A → List A
with_msg msgs none = msgs
with_msg msgs (some msg) = msgs ++ (msg ∷ [])

abbrev requested : Peers → MuxResult (Requester × Option RequesterMsg) → MuxResult Peers
requested c (ok (r, msg)) =
    ok (record c { requester = r; to_responder = with_msg c.to_responder msg })
requested c protocol_error = protocol_error
requested c mux_panicked = mux_panicked

abbrev pub take_req : Peers → List ClientReq → MuxResult Peers
take_req c [] = ok c
take_req c (req ∷ reqs) =
    requested c (handle_connect_req (record c.requester { connect_rx = reqs }) req)

abbrev handle_requester_msg : Responder → RequesterMsg → MuxResult Responder
handle_requester_msg s (open_port port wait id pre_connect) =
    handle_open_port s port wait id pre_connect
handle_requester_msg s client_finish = handle_client_finish s

abbrev pub responded : Peers → List RequesterMsg → MuxResult Responder → MuxResult Peers
responded c rest (ok s) = ok (record c { responder = s; to_responder = rest })
responded c rest protocol_error = protocol_error
responded c rest mux_panicked = mux_panicked

abbrev pub take_requester_msg : Peers → List RequesterMsg → MuxResult Peers
take_requester_msg c [] = ok c
take_requester_msg c (msg ∷ rest) = responded c rest (handle_requester_msg c.responder msg)

-- `Listener::inspect` for what it receives from one of the two queues.
abbrev pub inspect_wait : Responder → List RemoteConnectMsg → Responder
inspect_wait s [] = s
inspect_wait s (request req ∷ rest) = record s {
  wait_queue = rest;
  requests = s.requests ++ (req ∷ []);
}
inspect_wait s (client_dropped ∷ rest) = record s { wait_queue = rest }

abbrev pub inspect_no_wait : Responder → List RemoteConnectMsg → Responder
inspect_no_wait s [] = s
inspect_no_wait s (request req ∷ rest) = record s {
  no_wait_queue = rest;
  requests = s.requests ++ (req ∷ []);
}
inspect_no_wait s (client_dropped ∷ rest) = record s { no_wait_queue = rest }

abbrev pub choose : Request → Choice → Responder → Responder
choose req (accepts reservation) s = (accept req reservation s).0
choose req (accepts_reserved reservation further) s = (accept_reserved req reservation further s).0
choose req (accepts_tentatively reservation) s = (accept_tentatively req reservation s).0
choose req (rejects no_ports) s = reject req no_ports s
choose req drops s = send_drop req s

abbrev pub answered : Peers → MuxResult (Responder × ResponderMsg) → MuxResult Peers
answered c (ok (s, msg)) =
    ok (record c { responder = s; to_requester = c.to_requester ++ (msg ∷ []) })
answered c protocol_error = protocol_error
answered c mux_panicked = mux_panicked

abbrev pub take_event : Peers → List AnswerEvt → MuxResult Peers
take_event c [] = ok c
take_event c (event ∷ events) =
    answered c (handle_answer (record c.responder { events = events }) event)

abbrev handle_responder_msg : Requester → ResponderMsg → MuxResult Requester
handle_responder_msg r (port_opened port server_port) = handle_port_opened r port server_port
handle_responder_msg r (rejected_msg port no_ports) = handle_rejected r port no_ports
handle_responder_msg r listener_finish = ok (handle_listener_finish r)

abbrev pub told : Peers → List ResponderMsg → MuxResult Requester → MuxResult Peers
told c rest (ok r) = ok (record c { requester = r; to_requester = rest })
told c rest protocol_error = protocol_error
told c rest mux_panicked = mux_panicked

abbrev pub take_responder_msg : Peers → List ResponderMsg → MuxResult Peers
take_responder_msg c [] = ok c
take_responder_msg c (msg ∷ rest) = told c rest (handle_responder_msg c.requester msg)

abbrev pub move : Peers → Move → MuxResult Peers
move c (ask pre_connects req) =
    ok (record c { requester = ask_for_port c.requester pre_connects req })
move c take_connect_req = take_req c c.requester.connect_rx
move c drop_clients =
    let (r, msg) = handle_all_clients_dropped c.requester in
    ok (record c { requester = r; to_responder = c.to_responder ++ (msg ∷ []) })
move c reach_responder = take_requester_msg c c.to_responder
move c (take_from_queue true) =
    ok (record c { responder = inspect_wait c.responder c.responder.wait_queue })
move c (take_from_queue false) =
    ok (record c { responder = inspect_no_wait c.responder c.responder.no_wait_queue })
move c (answer front req back choice) =
    ok
      (record c { responder = choose req choice (record c.responder { requests = front ++ back }) })
move c take_answer = take_event c c.responder.events
move c drop_listener = answered c (ok (handle_listener_dropped c.responder))
move c reach_requester = take_responder_msg c c.to_requester

abbrev pub has_req : List ClientReq → ℕ → Bool
has_req [] port = false
has_req (req ∷ reqs) port = if req.port == port then true else has_req reqs port

abbrev UsesNew : Responder → Reservation → Type 0
UsesNew s reservation = has_port s.allocated (local reservation.local_number) ≡ false

-- The number that a reservation would become is one that is not allocated.
abbrev pub CanChoose : Responder → Choice → Type 0
CanChoose s (accepts reservation) = UsesNew s reservation
CanChoose s (accepts_reserved reservation further) = UsesNew s reservation
CanChoose s (accepts_tentatively reservation) = Unit {0}
CanChoose s (rejects no_ports) = Unit {0}
CanChoose s drops = Unit {0}

-- A client is there to ask, for a number that is not in use, and the clients are dropped once.
abbrev pub CanMove : Peers → Move → Type 0
CanMove c (ask pre_connects req) =
    (req.pre_connect_credit ≡ false)
    × (c.requester.all_clients_dropped ≡ false)
    × (c.requester.ports req.port ≡ vacant)
    × (has_req c.requester.connect_rx req.port ≡ false)
CanMove c take_connect_req = Unit {0}
CanMove c drop_clients = (c.requester.all_clients_dropped ≡ false) × (c.requester.connect_rx ≡ [])
CanMove c reach_responder = Unit {0}
CanMove c (take_from_queue wait) = Unit {0}
CanMove c (answer front req back choice) =
    (c.responder.requests ≡ front ++ (req ∷ back)) × CanChoose c.responder choice
CanMove c take_answer = Unit {0}
CanMove c drop_listener = c.responder.is_listening ≡ true
CanMove c reach_requester = Unit {0}

pub data Reachable (start : Peers) : Peers → Type 0 where
  starts : Reachable start start
  moves :
      (c c' : Peers) (m : Move)
      → Reachable start c
      → CanMove c m
      → move c m ≡ ok c'
      → Reachable start c'
