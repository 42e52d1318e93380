-- ===== src/Open/Weights.antt =====
-- Weights of what is under way about the opening of ports, by the port of the request, of all requests
-- and of those that are pre-connected; and numbers that are read from the entry of a port.
use remoc.Base.{
  ◌≡◌, ◌≤◌, refl, arith, ℕ, ◌+◌, if◌then◌else◌, Bool, true, false, none, some, List, [], inl, inr,
  Bool-cases, ◌∷◌, length,
}
use remoc.SidePort.{SidePort}
use remoc.Open.{
  RequesterMsg, open_port, client_finish, ResponderMsg, port_opened, rejected_msg, listener_finish,
  pre_connected, accepted, rejected,
}
use remoc.Open.Requester.{PortEntry, vacant, connecting, connected, ClientReq}
use remoc.Open.Responder.{
  Request, RemoteConnectMsg, request, client_dropped, AnswerEvt, accepted_evt,
  accepted_after_pre_connect, rejected_evt, rejected_after_accept, Responder, requests_of,
}
use remoc.Open.Counts.{total, bit, at_port, each, total-le}
use remoc.Open.Peers.{Peers}

-- Weights by the port of the request, of all requests and of those that are pre-connected.
abbrev pub w_client : (ℕ → ℕ) → ClientReq → ℕ
w_client f req = f req.port

abbrev pub w_open : (ℕ → ℕ) → RequesterMsg → ℕ
w_open f (open_port port wait id pre_connect) = f port
w_open f client_finish = 0

abbrev pub w_open_pre : (ℕ → ℕ) → RequesterMsg → ℕ
w_open_pre f (open_port port wait id true) = f port
w_open_pre f (open_port port wait id false) = 0
w_open_pre f client_finish = 0

abbrev pub w_finish : RequesterMsg → ℕ
w_finish (open_port port wait id pre_connect) = 0
w_finish client_finish = 1

abbrev pub w_request : (ℕ → ℕ) → Request → ℕ
w_request f req = f req.remote_port

abbrev pub w_request_pre : (ℕ → ℕ) → Request → ℕ
w_request_pre f req = if req.pre_connected then f req.remote_port else 0

abbrev pub w_queued : (Request → ℕ) → RemoteConnectMsg → ℕ
w_queued w (request req) = w req
w_queued w client_dropped = 0

abbrev pub w_dropped : RemoteConnectMsg → ℕ
w_dropped (request req) = 0
w_dropped client_dropped = 1

abbrev pub w_event : (ℕ → ℕ) → AnswerEvt → ℕ
w_event f (accepted_evt local_port port) = f port
w_event f (accepted_after_pre_connect port) = f port
w_event f (rejected_evt port no_ports reserved) = f port
w_event f (rejected_after_accept port no_ports) = 0

abbrev pub w_event_pre : (ℕ → ℕ) → AnswerEvt → ℕ
w_event_pre f (accepted_evt local_port port) = 0
w_event_pre f (accepted_after_pre_connect port) = f port
w_event_pre f (rejected_evt port no_ports true) = f port
w_event_pre f (rejected_evt port no_ports false) = 0
w_event_pre f (rejected_after_accept port no_ports) = 0

abbrev pub w_accepted : (ℕ → ℕ) → AnswerEvt → ℕ
w_accepted f (accepted_evt local_port port) = f port
w_accepted f (accepted_after_pre_connect port) = 0
w_accepted f (rejected_evt port no_ports reserved) = 0
w_accepted f (rejected_after_accept port no_ports) = 0

abbrev pub w_key : SidePort → AnswerEvt → ℕ
w_key k (accepted_evt local_port port) = at_port k local_port
w_key k (accepted_after_pre_connect port) = 0
w_key k (rejected_evt port no_ports reserved) = 0
w_key k (rejected_after_accept port no_ports) = 0

abbrev pub w_late : AnswerEvt → ℕ
w_late (accepted_evt local_port port) = 0
w_late (accepted_after_pre_connect port) = 0
w_late (rejected_evt port no_ports reserved) = 0
w_late (rejected_after_accept port no_ports) = 1

abbrev pub w_answer : (ℕ → ℕ) → ResponderMsg → ℕ
w_answer f (port_opened port server_port) = f port
w_answer f (rejected_msg port no_ports) = f port
w_answer f listener_finish = 0

abbrev pub w_opened : (ℕ → ℕ) → ResponderMsg → ℕ
w_opened f (port_opened port server_port) = f port
w_opened f (rejected_msg port no_ports) = 0
w_opened f listener_finish = 0

abbrev pub in_queues : (Request → ℕ) → Responder → ℕ
in_queues w s = total (w_queued w) s.wait_queue + total (w_queued w) s.no_wait_queue

abbrev pub pending : (Request → ℕ) → Responder → ℕ
pending w s = in_queues w s + total w s.requests

-- The requests that have left the requester and whose answer has not come back.
abbrev pub in_flight : (ℕ → ℕ) → Peers → ℕ
in_flight f c =
    total (w_open f) c.to_responder
    + pending (w_request f) c.responder
    + total (w_event f) c.responder.events
    + total (w_answer f) c.to_requester

abbrev pub n_undecided : PortEntry → ℕ
n_undecided vacant = 0
n_undecided (connecting waiter) = 1
n_undecided (connected port none credit) = 0
n_undecided (connected port (some pre_connected) credit) = 1
n_undecided (connected port (some accepted) credit) = 0
n_undecided (connected port (some (rejected no_ports)) credit) = 0

abbrev pub n_used : PortEntry → ℕ
n_used vacant = 0
n_used (connecting waiter) = 1
n_used (connected port state credit) = 1

abbrev pub n_connected : PortEntry → ℕ
n_connected vacant = 0
n_connected (connecting waiter) = 0
n_connected (connected port state credit) = 1

pub w_accepted-le : (f : ℕ → ℕ) (event : AnswerEvt) → w_accepted f event ≤ w_event f event
w_accepted-le f (accepted_evt local_port port) = omega arith
w_accepted-le f (accepted_after_pre_connect port) = omega arith
w_accepted-le f (rejected_evt port no_ports reserved) = omega arith
w_accepted-le f (rejected_after_accept port no_ports) = omega arith

pub w_opened-le : (f : ℕ → ℕ) (msg : ResponderMsg) → w_opened f msg ≤ w_answer f msg
w_opened-le f (port_opened port server_port) = omega arith
w_opened-le f (rejected_msg port no_ports) = omega arith
w_opened-le f listener_finish = omega arith

pub n_undecided-le : (entry : PortEntry) → n_undecided entry ≤ n_used entry
n_undecided-le vacant = omega arith
n_undecided-le (connecting waiter) = omega arith
n_undecided-le (connected port none credit) = omega arith
n_undecided-le (connected port (some pre_connected) credit) = omega arith
n_undecided-le (connected port (some accepted) credit) = omega arith
n_undecided-le (connected port (some (rejected no_ports)) credit) = omega arith

pub n_connected-le : (entry : PortEntry) → n_connected entry ≤ n_used entry
n_connected-le vacant = omega arith
n_connected-le (connecting waiter) = omega arith
n_connected-le (connected port state credit) = omega arith

pub n_undecided-le_one : (entry : PortEntry) → n_undecided entry ≤ 1
n_undecided-le_one vacant = omega arith
n_undecided-le_one (connecting waiter) = omega arith
n_undecided-le_one (connected port none credit) = omega arith
n_undecided-le_one (connected port (some pre_connected) credit) = omega arith
n_undecided-le_one (connected port (some accepted) credit) = omega arith
n_undecided-le_one (connected port (some (rejected no_ports)) credit) = omega arith

pub w_request_pre-le : (f : ℕ → ℕ) (req : Request) → w_request_pre f req ≤ w_request f req
w_request_pre-le f req = elim (Bool-cases req.pre_connected) [
  | inl e ↦ rw e (omega arith)
  | inr e ↦ rw e (omega arith)
]

w_queued-le :
    (w v : Request → ℕ)
    → ((req : Request) → w req ≤ v req)
    → (msg : RemoteConnectMsg) → w_queued w msg ≤ w_queued v msg
w_queued-le w v h (request req) = h req
w_queued-le w v h client_dropped = omega arith

pub pending-le :
    (w v : Request → ℕ) (s : Responder)
    → ((req : Request) → w req ≤ v req)
    → pending w s ≤ pending v s
pending-le w v s h = omega (
  arith,
  total-le (w_queued w) (w_queued v) (w_queued-le w v h) s.wait_queue,
  total-le (w_queued w) (w_queued v) (w_queued-le w v h) s.no_wait_queue,
  total-le w v h s.requests,
)

pub w_event_pre-le : (f : ℕ → ℕ) (event : AnswerEvt) → w_event_pre f event ≤ w_event f event
w_event_pre-le f (accepted_evt local_port port) = omega arith
w_event_pre-le f (accepted_after_pre_connect port) = omega arith
w_event_pre-le f (rejected_evt port no_ports true) = omega arith
w_event_pre-le f (rejected_evt port no_ports false) = omega arith
w_event_pre-le f (rejected_after_accept port no_ports) = omega arith

pub length-queue :
    (queue : List RemoteConnectMsg)
    → length queue ≡ total (w_queued (w_request each)) queue + total w_dropped queue
unfolding total
length-queue [] = refl
length-queue (request req ∷ queue) = omega (arith, length-queue queue)
length-queue (client_dropped ∷ queue) = omega (arith, length-queue queue)

pub bit-le : (b : Bool) → bit b ≤ 1
bit-le true = omega arith
bit-le false = omega arith

pub total-requests_of :
    (w : Request → ℕ) (queue : List RemoteConnectMsg)
    → total w (requests_of queue) ≡ total (w_queued w) queue
unfolding total
total-requests_of w [] = refl
total-requests_of w (request req ∷ queue) = omega (arith, total-requests_of w queue)
total-requests_of w (client_dropped ∷ queue) = omega (arith, total-requests_of w queue)
