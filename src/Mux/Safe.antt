-- ===== src/Mux/Safe.antt =====
-- mux.rs: between two conforming ends no handler fails, and ports are freed.
use remoc.Base.{◌≡◌, refl, ◌∙◌, Bool, true, false, Option, none, some, List, [], ◌∷◌, arith}
use remoc.Mux.{
  PortMsg, PortState, vacant, connecting, connected, MuxResult, ok, protocol_error, mux_panicked,
  PortEvent, handle_port_event, handle_port_msg,
}
use remoc.Mux.Peers.{
  Channel, acted, arrived, take_msg, move, CanMove, Reachable, start, turn, moved,
}
use remoc.Mux.Invariant.{
  InFlight, IsSound, IsSoundSide, Invariant, knows_finished, knows_dropped, said_finished,
  said_dropped,
}
use remoc.Mux.Events.{Goes, event-Goes}
use remoc.Mux.Arrivals.{Takes, msg-Takes}

abbrev InvariantAfter : MuxResult Channel → Type 0
InvariantAfter (ok c) = Invariant c
InvariantAfter protocol_error = ⊥
InvariantAfter mux_panicked = ⊥

acted-Invariant :
    (c : Channel) (e : PortEvent) (r : MuxResult (PortState × PortMsg))
    → Goes c.to_there c.to_here c.there.state c.here e r
    → IsSoundSide c.there
    → InvariantAfter (acted c e r)
acted-Invariant c e (ok (s, msg)) g there = (g.0, g.1, g.2, there)
acted-Invariant c e protocol_error g there = g
acted-Invariant c e mux_panicked g there = g

arrived-Invariant :
    (c : Channel) (rest : List PortMsg) (r : MuxResult PortState)
    → Takes c.to_there rest c.there.state c.here r
    → IsSoundSide c.there
    → InvariantAfter (arrived c rest r)
arrived-Invariant c rest (ok s) t there = (t.0, t.1, t.2, there)
arrived-Invariant c rest protocol_error t there = t
arrived-Invariant c rest mux_panicked t there = t

take_msg-Invariant :
    (c : Channel) (back : List PortMsg)
    → c.to_here ≡ back
    → Invariant c
    → InvariantAfter (take_msg c back)
take_msg-Invariant c [] q h = h
take_msg-Invariant c (msg ∷ rest) q h =
    arrived-Invariant c rest (handle_port_msg c.here.state msg)
      (msg-Takes c.to_there rest c.there.state c.here.state c.here.has_sender c.here.has_receiver
        c.here.has_closed msg h.0 (rw q at h.1) h.2)
      h.3

move-Invariant :
    (c : Channel) (m : Option PortEvent) → Invariant c → CanMove c m → InvariantAfter (move c m)
move-Invariant c none h k = take_msg-Invariant c c.to_here refl h
move-Invariant c (some e) h k =
    acted-Invariant c e (handle_port_event c.here.state e)
      (event-Goes c.to_there c.to_here c.there.state c.here.state c.here.has_sender
        c.here.has_receiver c.here.has_closed e h.0 h.1 h.2 k)
      h.3

pub Reachable-Invariant : (c : Channel) → Reachable c → Invariant c
Reachable-Invariant c start = ground arith
Reachable-Invariant c (turn c' r) = let h = Reachable-Invariant c' r in (h.1, h.0, h.3, h.2)
Reachable-Invariant c (moved c' c1 m r k e) =
    rw e at (move-Invariant c' m (Reachable-Invariant c' r) k)

abbrev pub Succeeds : MuxResult Channel → Type 0
Succeeds (ok c) = Unit {0}
Succeeds protocol_error = ⊥
Succeeds mux_panicked = ⊥

-- A port whose application has dropped both halves, where the peer has said the same.
halves_gone :
    (s : PortState) (c : Bool)
    → IsSound s false false c
    → (said_finished s ≡ true) × (said_dropped s ≡ true)
halves_gone vacant c h = (refl, refl)
halves_gone connecting c h = absurd h
halves_gone (connected p) c h = (h.0.0, h.0.1)

vacated :
    (s : PortState) (c : Bool)
    → IsSound s false false c
    → knows_finished s ≡ true
    → knows_dropped s ≡ true
    → s ≡ vacant
vacated vacant c h k d = refl
vacated connecting c h k d = absurd h
vacated (connected p) c h k d = absurd (ground (arith, h, k, d))

-- In every reachable state of a channel where the applications at both ends have dropped their sender
-- and their receiver and no message is under way, both ends have freed their port.
pub Reachable-freed :
    (c : Channel)
    → Reachable c
    → c.here.has_sender ≡ false
    → c.here.has_receiver ≡ false
    → c.there.has_sender ≡ false
    → c.there.has_receiver ≡ false
    → c.to_there ≡ []
    → c.to_here ≡ []
    → (c.here.state ≡ vacant) × (c.there.state ≡ vacant)
Reachable-freed c r hs hr ts tr q q' =
    let h = Reachable-Invariant c r in
    let here : IsSound c.here.state false false c.here.has_closed = rw (hs, hr) at h.2 in
    let there : IsSound c.there.state false false c.there.has_closed = rw (ts, tr) at h.3 in
    let out : InFlight [] c.there.state c.here.state = rw q at h.0 in
    let back : InFlight [] c.here.state c.there.state = rw q' at h.1 in
    let here_gone = halves_gone c.here.state c.here.has_closed here in
    let there_gone = halves_gone c.there.state c.there.has_closed there in
    (
      vacated c.here.state c.here.has_closed here (back.0 ∙ there_gone.0) (back.2 ∙ there_gone.1),
      vacated c.there.state c.there.has_closed there (out.0 ∙ here_gone.0) (out.2 ∙ here_gone.1),
    )
