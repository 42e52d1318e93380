-- ===== src/Open.antt =====
-- remoc/src/chmux/mux.rs, client.rs and listener.rs: the opening of ports. One end, the requester,
-- asks for ports, and the other, the responder, answers. Here is what the two exchange; the ends are
-- in the children. The requests that a port sends as port data are in Responder as well.
pub mod Requester
pub mod Client
pub mod Responder
pub mod Answers
pub mod Peers
mod Counts
mod Weights
mod Invariant
mod Asking
mod Sending
mod Arriving
mod Finishing
mod Choosing
mod Answering
mod Listing
mod Settling
mod Hearing
mod Telling
pub mod Safe
pub mod Overrun
mod Examples
use remoc.Base.{ℕ, Bool, true, false, Option}
use remoc.SidePort.{SidePort}

-- The messages of the requester: `OpenPort` with `client_port`, `wait`, `id` and `pre_connect`, and
-- `ClientFinish`.
pub data RequesterMsg : Type 0 where
  open_port : ℕ → Bool → Option ℕ → Bool → RequesterMsg
  client_finish : RequesterMsg

-- The messages of the responder: `PortOpened` with `client_port` and `server_port`, `Rejected` with
-- `client_port` and `no_ports`, and `ListenerFinish`.
pub data ResponderMsg : Type 0 where
  port_opened : ℕ → SidePort → ResponderMsg
  rejected_msg : ℕ → Bool → ResponderMsg
  listener_finish : ResponderMsg

pub data PreConnectState : Type 0 where
  pre_connected : PreConnectState
  accepted : PreConnectState
  rejected : Bool → PreConnectState

abbrev is_decided : PreConnectState → Bool
is_decided pre_connected = false
is_decided accepted = true
is_decided (rejected no_ports) = true
