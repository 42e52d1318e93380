-- ===== src/Mux/Invariant.antt =====
-- mux.rs: what holds between the two ends of a channel, and that freeing a port keeps it.
use remoc.Base.{◌≡◌, ◌&&◌, not, Bool, true, false, List, Bool-cases, inl, inr, arith}
use remoc.Mux.{PortMsg, Port, PortState, vacant, connecting, connected, can_free, freed}
use remoc.Mux.Peers.{Side, Channel}
use remoc.Mux.Flight.{Flight, Flight-closed}

-- What an end knows of the other one.
abbrev pub knows_finished : PortState → Bool
knows_finished vacant = true
knows_finished connecting = true
knows_finished (connected p) = not p.receiver_tx_data

abbrev pub knows_closed : PortState → Bool
knows_closed vacant = true
knows_closed connecting = true
knows_closed (connected p) = p.remote_receiver_closed

abbrev pub knows_dropped : PortState → Bool
knows_dropped vacant = true
knows_dropped connecting = true
knows_dropped (connected p) = p.remote_receiver_dropped

-- What an end has said.
abbrev pub said_finished : PortState → Bool
said_finished vacant = true
said_finished connecting = true
said_finished (connected p) = p.sender_dropped

abbrev pub said_closed : PortState → Bool
said_closed vacant = true
said_closed connecting = true
said_closed (connected p) = p.receiver_closed

abbrev pub said_dropped : PortState → Bool
said_dropped vacant = true
said_dropped connecting = true
said_dropped (connected p) = p.receiver_dropped

abbrev pub InFlight : List PortMsg → PortState → PortState → Type 0
InFlight q receiving sending =
    Flight (knows_finished receiving) (knows_closed receiving) (knows_dropped receiving) q
      (said_finished sending) (said_closed sending) (said_dropped sending)

-- The list of those to notify is there until the remote receiver is closed, as it is once it is dropped.
abbrev pub IsKept : Port → Type 0
IsKept p =
    (p.closed_notify ≡ not p.remote_receiver_closed)
    × ((p.remote_receiver_dropped && not p.remote_receiver_closed) ≡ false)

abbrev pub HasHalves : Port → Bool → Bool → Bool → Type 0
HasHalves p has_sender has_receiver has_closed =
    (p.sender_dropped ≡ not has_sender)
    × (p.receiver_dropped ≡ not has_receiver)
    × (p.receiver_closed ≡ has_closed)

-- A port in the table is not to be freed, and one that is not has no halves left.
abbrev pub IsSound : PortState → Bool → Bool → Bool → Type 0
IsSound vacant has_sender has_receiver has_closed = (has_sender ≡ false) × (has_receiver ≡ false)
IsSound connecting has_sender has_receiver has_closed = ⊥
IsSound (connected p) has_sender has_receiver has_closed =
    HasHalves p has_sender has_receiver has_closed × IsKept p × (can_free p ≡ false)

abbrev pub IsSoundSide : Side → Type 0
IsSoundSide s = IsSound s.state s.has_sender s.has_receiver s.has_closed

abbrev pub Invariant : Channel → Type 0
Invariant c =
    InFlight c.to_there c.there.state c.here.state
    × InFlight c.to_here c.here.state c.there.state
    × IsSoundSide c.here
    × IsSoundSide c.there

can_free_lem :
    (p : Port)
    → can_free p ≡ true
    → (p.sender_dropped ≡ true)
      × (p.receiver_dropped ≡ true)
      × (p.receiver_tx_data ≡ false)
      × (p.remote_receiver_dropped ≡ true)
can_free_lem p h = ground (arith, h)

-- Freeing a port leaves what it has said and what it knows.
pub freed-InFlight :
    (q : List PortMsg) (other : PortState) (p : Port)
    → InFlight q other (connected p)
    → InFlight q other (freed p)
freed-InFlight q other p h = elim (Bool-cases (can_free p)) [
  | inl t ↦
      let e = can_free_lem p t in
      rw t (
        Flight-closed q (knows_finished other) (knows_closed other) (knows_dropped other) true
          p.receiver_closed true (rw (e.0, e.1) at h))
  | inr f ↦ rw f h
]

pub freed-Knows :
    (q : List PortMsg) (other : PortState) (p : Port)
    → IsKept p
    → InFlight q (connected p) other
    → InFlight q (freed p) other
freed-Knows q other p k h = elim (Bool-cases (can_free p)) [
  | inl t ↦
      let e = can_free_lem p t in
      let closed : p.remote_receiver_closed ≡ true = ground (arith, e.3, k.1) in
      rw t (rw (e.2, e.3, closed) at h)
  | inr f ↦ rw f h
]

pub freed-IsSound :
    (p : Port) (has_sender has_receiver has_closed : Bool)
    → HasHalves p has_sender has_receiver has_closed
    → IsKept p
    → IsSound (freed p) has_sender has_receiver has_closed
freed-IsSound p has_sender has_receiver has_closed h k = elim (Bool-cases (can_free p)) [
  | inl t ↦ let e = can_free_lem p t in rw t (ground (arith, e, h))
  | inr f ↦ rw f (h, k, f)
]
