-- ===== src/Open/Telling.antt =====
-- mux.rs: an answer that reaches the requester keeps what holds between the ends, and is no violation
-- of the protocol.
use remoc.Base.{◌≡◌, refl, arith, ℕ, ◌+◌, Bool, true, false, none, some, List, [], ap, ◌∷◌}
use remoc.SidePort.{SidePort}
use remoc.Open.{
  ResponderMsg, port_opened, rejected_msg, listener_finish, pre_connected, accepted, rejected,
}
use remoc.Open.Requester.{
  PortEntry, vacant, connecting, connected, by_client, by_port_sender, opened_entry, rejected_entry,
  handle_port_opened, handle_rejected,
}
use remoc.Open.Counts.{total, at, each, total_first, at_refl}
use remoc.Open.Peers.{Peers, take_responder_msg, told}
use remoc.Open.Invariant.{IsSoundEntry, Invariant, InvariantAfter}
use remoc.Open.Weights.{w_answer, w_opened, n_undecided, n_connected, n_undecided-le_one}
use remoc.Open.Hearing.{heard-Invariant, set_entry-Hears, opened_connecting, opened_ports-Hears}

opened_entry-Invariant :
    (c : Peers) (port : ℕ) (server_port : SidePort) (rest : List ResponderMsg) (entry : PortEntry)
    → Invariant c
    → c.to_requester ≡ port_opened port server_port ∷ rest
    → c.requester.ports port ≡ entry
    → IsSoundEntry entry
    → n_undecided entry ≡ 1
    → InvariantAfter (told c rest (opened_entry c.requester port server_port entry))
opened_entry-Invariant c port server_port rest vacant h q e sound u = absurd (omega (arith, u))
opened_entry-Invariant c port server_port rest (connecting by_client) h q e sound u =
    rw (opened_connecting c.requester port server_port) (
      heard-Invariant c (port_opened port server_port) port _ _ rest h q (λ f. refl)
        (ap n_undecided e) (opened_ports-Hears c port server_port (ap n_connected e)))
opened_entry-Invariant c port server_port rest (connecting by_port_sender) h q e sound u =
    absurd sound
opened_entry-Invariant c port server_port rest (connected remote_port none credit) h q e sound u =
    absurd (omega (arith, u))
opened_entry-Invariant c port server_port rest (connected remote_port (some pre_connected) true) h q
      e sound u =
    heard-Invariant c (port_opened port server_port) port _ _ rest h q (λ f. refl)
      (ap n_undecided e)
      (set_entry-Hears c (port_opened port server_port) port
        (connected remote_port (some accepted) false) tt refl (omega arith)
        (omega (arith, ap n_connected e)) (omega (arith, at_refl port)))
opened_entry-Invariant c port server_port rest (connected remote_port (some pre_connected) false) h
      q e sound u =
    absurd sound
opened_entry-Invariant c port server_port rest (connected remote_port (some accepted) credit) h q e
      sound u =
    absurd (omega (arith, u))
opened_entry-Invariant c port server_port rest
      (connected remote_port (some (rejected no_ports)) credit) h q e sound u =
    absurd (omega (arith, u))

rejected_entry-Invariant :
    (c : Peers) (port : ℕ) (no_ports : Bool) (rest : List ResponderMsg) (entry : PortEntry)
    → Invariant c
    → c.to_requester ≡ rejected_msg port no_ports ∷ rest
    → c.requester.ports port ≡ entry
    → IsSoundEntry entry
    → n_undecided entry ≡ 1
    → InvariantAfter (told c rest (rejected_entry c.requester port no_ports entry))
rejected_entry-Invariant c port no_ports rest vacant h q e sound u = absurd (omega (arith, u))
rejected_entry-Invariant c port no_ports rest (connecting by_client) h q e sound u =
    heard-Invariant c (rejected_msg port no_ports) port _ _ rest h q (λ f. refl) (ap n_undecided e)
      (set_entry-Hears c (rejected_msg port no_ports) port vacant tt refl (omega arith)
        (omega (arith, ap n_connected e)) (omega arith))
rejected_entry-Invariant c port no_ports rest (connecting by_port_sender) h q e sound u =
    absurd sound
rejected_entry-Invariant c port no_ports rest (connected remote_port none credit) h q e sound u =
    absurd (omega (arith, u))
rejected_entry-Invariant c port no_ports rest (connected remote_port (some pre_connected) true) h q
      e sound u =
    heard-Invariant c (rejected_msg port no_ports) port _ _ rest h q (λ f. refl) (ap n_undecided e)
      (set_entry-Hears c (rejected_msg port no_ports) port
        (connected remote_port (some (rejected no_ports)) false) tt refl (omega arith)
        (omega (arith, ap n_connected e)) (omega arith))
rejected_entry-Invariant c port no_ports rest (connected remote_port (some pre_connected) false) h q
      e sound u =
    absurd sound
rejected_entry-Invariant c port no_ports rest (connected remote_port (some accepted) credit) h q e
      sound u =
    absurd (omega (arith, u))
rejected_entry-Invariant c port no_ports rest
      (connected remote_port (some (rejected no_ports')) credit) h q e sound u =
    absurd (omega (arith, u))

abbrev finished_listener : Peers → List ResponderMsg → Peers
finished_listener c rest = record c {
  requester = record c.requester { remote_listener_dropped = true };
  to_requester = rest;
}

listener_finish-Invariant :
    (c : Peers) (rest : List ResponderMsg)
    → Invariant c
    → c.to_requester ≡ listener_finish ∷ rest
    → Invariant (finished_listener c rest)
listener_finish-Invariant c rest h q =
    let first : (w : ResponderMsg → ℕ) → total w c.to_requester ≡ w listener_finish + total w rest =
      λ w. total_first w c.to_requester rest listener_finish q in
    record {
      sound = h.sound;
      placed = λ p. omega (arith, h.placed p, first (w_answer (at p)));
      single = h.single;
      credited = omega (arith, h.credited, first (w_answer each));
      outstanding = h.outstanding;
      pooled = h.pooled;
      opened = h.opened;
      fresh = h.fresh;
      known = λ p. omega (arith, h.known p, first (w_opened (at p)));
      keyed = h.keyed;
      once = h.once;
      timely = h.timely;
      finished = h.finished;
      wait_dropped = h.wait_dropped;
      no_wait_dropped = h.no_wait_dropped;
    }

pub take_responder_msg-Invariant :
    (c : Peers) (msgs : List ResponderMsg)
    → c.to_requester ≡ msgs
    → Invariant c
    → InvariantAfter (take_responder_msg c msgs)
unfolding handle_port_opened handle_rejected
take_responder_msg-Invariant c [] q h = h
take_responder_msg-Invariant c (port_opened port server_port ∷ rest) q h =
    opened_entry-Invariant c port server_port rest (c.requester.ports port) h q refl (h.sound port)
      (omega (
        arith,
        h.placed port,
        n_undecided-le_one (c.requester.ports port),
        at_refl port,
        total_first (w_answer (at port)) c.to_requester rest (port_opened port server_port) q,
      ))
take_responder_msg-Invariant c (rejected_msg port no_ports ∷ rest) q h =
    rejected_entry-Invariant c port no_ports rest (c.requester.ports port) h q refl (h.sound port) (
      omega (
        arith,
        h.placed port,
        n_undecided-le_one (c.requester.ports port),
        at_refl port,
        total_first (w_answer (at port)) c.to_requester rest (rejected_msg port no_ports) q,
      ))
take_responder_msg-Invariant c (listener_finish ∷ rest) q h = listener_finish-Invariant c rest h q
