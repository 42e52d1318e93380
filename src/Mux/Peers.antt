-- ===== src/Mux/Peers.antt =====
-- mux.rs: the two ends of a channel, whose multiplexer tasks are joined by queues of messages.
use remoc.Base.{◌≡◌, Bool, true, false, Option, none, some, List, [], ◌∷◌, ◌++◌}
use remoc.Mux.{
  PortMsg, PortState, connected, MuxResult, ok, protocol_error, mux_panicked, created_port,
  PortEvent, send_data, request_report, received_report, sender_dropped_event,
  receiver_closed_event, receiver_dropped_event, handle_port_event, handle_port_msg,
}

-- A side: its port, whether the application has the sender and the receiver, and whether it has
-- closed the receiver.
pub record Side : Type 0 where
  pub state : PortState
  pub has_sender : Bool
  pub has_receiver : Bool
  pub has_closed : Bool

pub record Channel : Type 0 where
  pub here : Side
  pub there : Side
  pub to_there : List PortMsg
  pub to_here : List PortMsg

abbrev pub new_side : Side
new_side = record {
  state = connected created_port;
  has_sender = true;
  has_receiver = true;
  has_closed = false;
}

abbrev pub new_channel : Channel
new_channel = record { here = new_side; there = new_side; to_there = []; to_here = [] }

abbrev pub turned : Channel → Channel
turned c = record { here = c.there; there = c.here; to_there = c.to_here; to_here = c.to_there }

-- Events come from the half that they are about, and a closed receiver is not closed again. A report is
-- requested while the sender is there: the future of `all_received` can outlive it, and polled then it
-- brings about an error (Mux/Late). What is sent passes the checks on arrival, since the sender keeps to
-- the chunk size and has the credits that it spends (Credit/Conserve).
abbrev pub IsPossible : Side → PortEvent → Type 0
IsPossible s (send_data charged first last) = (s.has_sender ≡ true) × (charged ≡ true)
IsPossible s request_report = s.has_sender ≡ true
IsPossible s received_report = s.has_receiver ≡ true
IsPossible s sender_dropped_event = s.has_sender ≡ true
IsPossible s receiver_closed_event = (s.has_receiver ≡ true) × (s.has_closed ≡ false)
IsPossible s receiver_dropped_event = s.has_receiver ≡ true

abbrev pub released : Side → PortEvent → Side
released s (send_data charged first last) = s
released s request_report = s
released s received_report = s
released s sender_dropped_event = record s { has_sender = false }
released s receiver_closed_event = record s { has_closed = true }
released s receiver_dropped_event = record s { has_receiver = false }

-- An event of the application here, or the next message to here.
abbrev pub acted : Channel → PortEvent → MuxResult (PortState × PortMsg) → MuxResult Channel
acted c e (ok (s, msg)) = ok (record c {
  here = released (record c.here { state = s }) e;
  to_there = c.to_there ++ (msg ∷ []);
})
acted c e protocol_error = protocol_error
acted c e mux_panicked = mux_panicked

abbrev pub act : Channel → PortEvent → MuxResult Channel
act c e = acted c e (handle_port_event c.here.state e)

abbrev pub arrived : Channel → List PortMsg → MuxResult PortState → MuxResult Channel
arrived c rest (ok s) = ok (record c { here = record c.here { state = s }; to_here = rest })
arrived c rest protocol_error = protocol_error
arrived c rest mux_panicked = mux_panicked

abbrev pub take_msg : Channel → List PortMsg → MuxResult Channel
take_msg c [] = ok c
take_msg c (msg ∷ rest) = arrived c rest (handle_port_msg c.here.state msg)

-- The end that it happens at, here or there, and an event or else an arrival.
abbrev pub move : Channel → Option PortEvent → MuxResult Channel
move c (some e) = act c e
move c none = take_msg c c.to_here

abbrev pub CanMove : Channel → Option PortEvent → Type 0
CanMove c (some e) = IsPossible c.here e
CanMove c none = Unit {0}

pub data Reachable : Channel → Type 0 where
  start : Reachable new_channel
  turn : (c : Channel) → Reachable c → Reachable (turned c)
  moved :
      (c c' : Channel) (m : Option PortEvent)
      → Reachable c
      → CanMove c m
      → move c m ≡ ok c'
      → Reachable c'
