-- ===== src/Mux/Late.antt =====
-- mux.rs: a request for a report that comes after the end of its sender.
use remoc.Base.{◌≡◌, false, List, [], ◌∷◌, arith, Bool-cases, inl, inr}
use remoc.Mux.{
  PortMsg, data_for_port, report_request, report, send_finish, receive_close, receive_finish, Port,
  PortState, vacant, connecting, connected, MuxResult, ok, protocol_error, mux_panicked,
  handle_port_msg, maybe_free_port, freed, can_free,
}

abbrev then_msgs : MuxResult PortState → (PortState → MuxResult PortState) → MuxResult PortState
then_msgs (ok s) rest = rest s
then_msgs protocol_error rest = protocol_error
then_msgs mux_panicked rest = mux_panicked

-- The messages for a port in turn.
abbrev pub handle_port_msgs : List PortMsg → PortState → MuxResult PortState
handle_port_msgs [] s = ok s
handle_port_msgs (msg ∷ msgs) s = then_msgs (handle_port_msg s msg) (handle_port_msgs msgs)

-- The sender of the receive queue is gone.
abbrev HasEnded : PortState → Type 0
HasEnded vacant = Unit {0}
HasEnded connecting = Unit {0}
HasEnded (connected p) = p.receiver_tx_data ≡ false

abbrev EndedAfter : MuxResult PortState → Type 0
EndedAfter (ok s) = HasEnded s
EndedAfter protocol_error = Unit {0}
EndedAfter mux_panicked = Unit {0}

freed-HasEnded : (p : Port) → p.receiver_tx_data ≡ false → HasEnded (freed p)
freed-HasEnded p h = elim (Bool-cases (can_free p)) [ inl e ↦ rw e tt | inr e ↦ rw e h ]

finish-EndedAfter : (s : PortState) → EndedAfter (handle_port_msg s send_finish)
unfolding handle_port_msg maybe_free_port
finish-EndedAfter vacant = tt
finish-EndedAfter connecting = tt
finish-EndedAfter (connected p) = ground arith

msg-EndedAfter : (s : PortState) (msg : PortMsg) → HasEnded s → EndedAfter (handle_port_msg s msg)
unfolding handle_port_msg maybe_free_port
msg-EndedAfter s (data_for_port charged first last) h = ground (arith, h)
msg-EndedAfter s report_request h = ground (arith, h)
msg-EndedAfter s report h = ground (arith, h)
msg-EndedAfter s send_finish h = ground (arith, h)
msg-EndedAfter s receive_close h = ground (arith, h)
msg-EndedAfter s receive_finish h = ground (arith, h)

-- What follows a request that comes too late.
abbrev pub IsRefused : MuxResult PortState → Type 0
IsRefused (ok s) = handle_port_msg s report_request ≡ protocol_error
IsRefused protocol_error = Unit {0}
IsRefused mux_panicked = Unit {0}

msgs-IsRefused :
    (msgs : List PortMsg) (r : MuxResult PortState)
    → EndedAfter r
    → IsRefused (then_msgs r (handle_port_msgs msgs))
unfolding handle_port_msg
msgs-IsRefused [] (ok s) h = ground (arith, h)
msgs-IsRefused (msg ∷ msgs) (ok s) h =
    msgs-IsRefused msgs (handle_port_msg s msg) (msg-EndedAfter s msg h)
msgs-IsRefused msgs protocol_error h = tt
msgs-IsRefused msgs mux_panicked h = tt

-- Once the end of a sender has arrived, and whatever other messages about the port follow as long as
-- it is not opened anew: where none of them is taken for an error, a request for a report is taken for
-- a violation of the protocol.
pub handle_port_msgs-IsRefused :
    (s : PortState) (msgs : List PortMsg) → IsRefused (handle_port_msgs (send_finish ∷ msgs) s)
handle_port_msgs-IsRefused s msgs =
    msgs-IsRefused msgs (handle_port_msg s send_finish) (finish-EndedAfter s)
