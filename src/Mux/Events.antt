-- ===== src/Mux/Events.antt =====
-- mux.rs: an event of the application at one end of a channel.
use remoc.Base.{◌≡◌, refl, sym, ap, ◌∙◌, not, Bool, true, false, List, [], ◌∷◌, ◌++◌, arith}
use remoc.Mux.{
  PortMsg, data_for_port, report_request, report, send_finish, receive_close, receive_finish, Port,
  PortState, vacant, connecting, connected, MuxResult, ok, protocol_error, mux_panicked, PortEvent,
  send_data, request_report, received_report, sender_dropped_event, receiver_closed_event,
  receiver_dropped_event, handle_port_event, maybe_free_port, drop_sender, drop_receiver,
  close_receiver,
}
use remoc.Mux.Peers.{Side, IsPossible, released}
use remoc.Mux.Flight.{Flight-append}
use remoc.Mux.Invariant.{
  InFlight, IsSound, IsSoundSide, knows_finished, knows_closed, knows_dropped, freed-InFlight,
  freed-Knows, freed-IsSound,
}

-- The port after an event: both directions, and the halves that are left.
abbrev pub Goes :
    List PortMsg
    → List PortMsg
    → PortState
    → Side
    → PortEvent
    → MuxResult (PortState × PortMsg)
    → Type 0
Goes out back other side e (ok (s, msg)) =
    let after = released (record side { state = s }) e in
    InFlight (out ++ (msg ∷ [])) other after.state
    × InFlight back after.state other
    × IsSoundSide after
Goes out back other side e protocol_error = ⊥
Goes out back other side e mux_panicked = ⊥

drop_sender-Goes :
    (out back : List PortMsg) (other : PortState) (p : Port) (s r c : Bool)
    → InFlight out other (connected p)
    → InFlight back (connected p) other
    → IsSound (connected p) s r c
    → s ≡ true
    → Goes out back other
        (record { state = connected p; has_sender = s; has_receiver = r; has_closed = c })
        sender_dropped_event
        (drop_sender p)
unfolding maybe_free_port
drop_sender-Goes out back other p s r c f b h e =
    let p' : Port = record p { sender_dropped = true } in
    let unsaid : p.sender_dropped ≡ false = h.0.0 ∙ ap not e in
    rw unsaid (
      freed-InFlight (out ++ (send_finish ∷ [])) other p' (
          Flight-append out send_finish (knows_finished other) (knows_closed other)
            (knows_dropped other) p.sender_dropped p.receiver_closed p.receiver_dropped f unsaid),
      freed-Knows back other p' h.1 b,
      freed-IsSound p' false r c (refl, h.0.1, h.0.2) h.1,
    )

close_receiver-Goes :
    (out back : List PortMsg) (other : PortState) (p : Port) (s r c : Bool)
    → InFlight out other (connected p)
    → InFlight back (connected p) other
    → IsSound (connected p) s r c
    → r ≡ true
    → c ≡ false
    → Goes out back other
        (record { state = connected p; has_sender = s; has_receiver = r; has_closed = c })
        receiver_closed_event
        (close_receiver p)
close_receiver-Goes out back other p s r c f b h e k =
    let unclosed : p.receiver_closed ≡ false = h.0.2 ∙ k in
    let undropped : p.receiver_dropped ≡ false = h.0.1 ∙ ap not e in
    rw (unclosed, undropped)
      (
        Flight-append out receive_close (knows_finished other) (knows_closed other)
            (knows_dropped other) p.sender_dropped false false (rw (unclosed, undropped) at f)
            (refl, refl),
        b,
        ((h.0.0, sym undropped ∙ h.0.1, refl), h.1, rw undropped at h.2),
      )

drop_receiver-Goes :
    (out back : List PortMsg) (other : PortState) (p : Port) (s r c : Bool)
    → InFlight out other (connected p)
    → InFlight back (connected p) other
    → IsSound (connected p) s r c
    → r ≡ true
    → Goes out back other
        (record { state = connected p; has_sender = s; has_receiver = r; has_closed = c })
        receiver_dropped_event
        (drop_receiver p)
unfolding maybe_free_port
drop_receiver-Goes out back other p s r c f b h e =
    let p' : Port = record p { receiver_dropped = true } in
    let undropped : p.receiver_dropped ≡ false = h.0.1 ∙ ap not e in
    rw undropped (
      freed-InFlight (out ++ (receive_finish ∷ [])) other p' (
          Flight-append out receive_finish (knows_finished other) (knows_closed other)
            (knows_dropped other) p.sender_dropped p.receiver_closed p.receiver_dropped f
            undropped),
      freed-Knows back other p' h.1 b,
      freed-IsSound p' s false c (h.0.0, refl, h.0.2) h.1,
    )

pub event-Goes :
    (out back : List PortMsg) (other state : PortState) (s r c : Bool) (e : PortEvent)
    → InFlight out other state
    → InFlight back state other
    → IsSound state s r c
    → IsPossible (record { state = state; has_sender = s; has_receiver = r; has_closed = c }) e
    → Goes out back other
        (record { state = state; has_sender = s; has_receiver = r; has_closed = c })
        e
        (handle_port_event state e)
unfolding handle_port_event
event-Goes out back other connecting s r c e f b h k = absurd h
event-Goes out back other vacant s r c (send_data charged first last) f b h k = ground (arith, h, k)
event-Goes out back other vacant s r c request_report f b h k = ground (arith, h, k)
event-Goes out back other vacant s r c received_report f b h k = ground (arith, h, k)
event-Goes out back other vacant s r c sender_dropped_event f b h k = ground (arith, h, k)
event-Goes out back other vacant s r c receiver_closed_event f b h k = ground (arith, h, k)
event-Goes out back other vacant s r c receiver_dropped_event f b h k = ground (arith, h, k)
event-Goes out back other (connected p) s r c (send_data charged first last) f b h k = (
  Flight-append out (data_for_port charged first last) (knows_finished other) (knows_closed other)
      (knows_dropped other) p.sender_dropped p.receiver_closed p.receiver_dropped f
      (h.0.0 ∙ ap not k.0, k.1),
  b,
  h,
)
event-Goes out back other (connected p) s r c request_report f b h k = (
  Flight-append out report_request (knows_finished other) (knows_closed other) (knows_dropped other)
      p.sender_dropped p.receiver_closed p.receiver_dropped f (h.0.0 ∙ ap not k),
  b,
  h,
)
event-Goes out back other (connected p) s r c received_report f b h k = (
  Flight-append out report (knows_finished other) (knows_closed other) (knows_dropped other)
      p.sender_dropped p.receiver_closed p.receiver_dropped f tt,
  b,
  h,
)
event-Goes out back other (connected p) s r c sender_dropped_event f b h k =
    drop_sender-Goes out back other p s r c f b h k
event-Goes out back other (connected p) s r c receiver_closed_event f b h k =
    close_receiver-Goes out back other p s r c f b h k.0 k.1
event-Goes out back other (connected p) s r c receiver_dropped_event f b h k =
    drop_receiver-Goes out back other p s r c f b h k
