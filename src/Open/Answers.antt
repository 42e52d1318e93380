-- ===== src/Open/Answers.antt =====
-- listener.rs, `Request`: how the application answers a request, and what it gets.
use remoc.Base.{ℕ, if◌then◌else◌, Bool, true, false, [], ◌∷◌, ◌++◌}
use remoc.SidePort.{SidePort, local, remote}
use remoc.Open.Responder.{
  Responder, Request, AnswerEvt, accepted_evt, accepted_after_pre_connect, rejected_evt,
  rejected_after_accept, has_port,
}

pub data ListenerError : Type 0 where
  local_ports_exhausted : ListenerError
  remote_port_already_allocated : ℕ → ListenerError

-- The pre-connected sender and receiver, the wait for those that the multiplexer task creates, an
-- error, or `NotPreConnected`.
pub data Answered : Type 0 where
  pre_connected_pair : Answered
  awaits_pair : Answered
  listener_error : ListenerError → Answered
  not_pre_connected : Answered

abbrev send_answer : AnswerEvt → Responder → Responder
send_answer event s = record s { events = s.events ++ (event ∷ []) }

-- What the spawned task of the drop sends. It waits for a reserved port as long as that takes.
abbrev pub send_drop : Request → Responder → Responder
send_drop req s = send_answer (rejected_evt req.remote_port false req.pre_connected) s

abbrev pub reject : Request → Bool → Responder → Responder
reject req no_ports s = send_answer (rejected_evt req.remote_port no_ports req.pre_connected) s

-- What the allocator answers to a request: whether it makes a reservation, and the number that
-- `into_local` would give.
pub record Reservation : Type 0 where
  pub is_granted : Bool
  pub local_number : ℕ

-- The branch of a request with a sender and a receiver. An error drops the request.
unfoldable pub accept_pre_connected : Request → Reservation → Responder → Responder × Answered
accept_pre_connected req reservation s =
    if reservation.is_granted
    then (send_answer (accepted_after_pre_connect req.remote_port) s, pre_connected_pair)
    else (send_drop req s, listener_error local_ports_exhausted)

abbrev allocate_and_accept : SidePort → Request → Responder → Responder × Answered
allocate_and_accept port req s = (
  send_answer (accepted_evt port req.remote_port) (record s { allocated = port ∷ s.allocated }),
  awaits_pair,
)

-- The rest of `accept_reserved` for a request without them.
abbrev pub accept_with : Request → Reservation → Responder → Responder × Answered
accept_with req reservation s =
    if s.is_port_side_supported
    then (if has_port s.allocated (remote req.remote_port)
        then (send_drop req s, listener_error (remote_port_already_allocated req.remote_port))
        else allocate_and_accept (remote req.remote_port) req s)
    else allocate_and_accept (local reservation.local_number) req s

-- With the reservation that is passed and that of a request with a pre-connected port.
unfoldable pub accept_reserved :
    Request → Reservation → Reservation → Responder → Responder × Answered
unfolding accept_pre_connected
accept_reserved req reservation further s =
    if req.pre_connected then accept_pre_connected req further s else accept_with req reservation s

unfoldable pub accept : Request → Reservation → Responder → Responder × Answered
unfolding accept_pre_connected
accept req reservation s =
    if req.pre_connected
    then accept_pre_connected req reservation s
    else if reservation.is_granted
    then accept_with req reservation s
    else if req.wait
    then (send_drop req s, listener_error local_ports_exhausted)
    else (reject req true s, listener_error local_ports_exhausted)

unfoldable pub accept_tentatively : Request → Reservation → Responder → Responder × Answered
unfolding accept_pre_connected
accept_tentatively req reservation s =
    if req.pre_connected
    then accept_pre_connected req reservation s
    else (send_drop req s, not_pre_connected)

-- `AcceptGuard::reject`.
abbrev reject_after_accept : ℕ → Bool → Responder → Responder
reject_after_accept remote_port no_ports s =
    send_answer (rejected_after_accept remote_port no_ports) s
