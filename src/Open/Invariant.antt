-- ===== src/Open/Invariant.antt =====
-- mux.rs: what holds between a requester and a responder. Every request that has no answer yet is in
-- exactly one place, which is counted by its port and by its credit.
use remoc.Base.{◌≡◌, ◌≤◌, refl, arith, ℕ, ◌+◌, Bool, true, false, none, some}
use remoc.SidePort.{SidePort, remote}
use remoc.Mux.{MuxResult, ok, protocol_error, mux_panicked}
use remoc.Open.{pre_connected, accepted, rejected}
use remoc.Open.Requester.{PortEntry, vacant, connecting, connected, by_client, by_port_sender}
use remoc.Open.Counts.{total, bit, at, at_port, at_key, each}
use remoc.Open.Peers.{Peers, new_peers}
use remoc.Open.Weights.{
  w_client, w_open, w_open_pre, w_finish, w_request, w_request_pre, w_dropped, w_event, w_event_pre,
  w_accepted, w_key, w_late, w_opened, pending, in_flight, n_undecided, n_used, n_connected,
}

-- A request without an answer holds a credit.
abbrev pub IsSoundEntry : PortEntry → Type 0
IsSoundEntry vacant = Unit {0}
IsSoundEntry (connecting by_client) = Unit {0}
IsSoundEntry (connecting by_port_sender) = ⊥
IsSoundEntry (connected port none credit) = Unit {0}
IsSoundEntry (connected port (some pre_connected) true) = Unit {0}
IsSoundEntry (connected port (some pre_connected) false) = ⊥
IsSoundEntry (connected port (some accepted) credit) = Unit {0}
IsSoundEntry (connected port (some (rejected no_ports)) credit) = Unit {0}

pub record Invariant (c : Peers) : Type 0 where
  pub sound : (p : ℕ) → IsSoundEntry (c.requester.ports p)
  pub placed : (p : ℕ) → n_undecided (c.requester.ports p) ≡ in_flight (at p) c
  pub single :
      (p : ℕ) → n_used (c.requester.ports p) + total (w_client (at p)) c.requester.connect_rx ≤ 1
  pub credited :
      c.requester.connect_credits + total (w_client each) c.requester.connect_rx + in_flight each c
      ≡ c.responder.connect_queue
  pub outstanding :
      (f : ℕ → ℕ)
      → total f c.responder.outstanding_remote_port_requests
        ≡ pending (w_request f) c.responder + total (w_event f) c.responder.events
  pub pooled :
      c.responder.pre_connect_port_pool
        + pending (w_request_pre each) c.responder
        + total (w_event_pre each) c.responder.events
      ≡ c.responder.connect_queue
  pub opened :
      (p : ℕ)
      → total (w_open_pre (at p)) c.to_responder
          + pending (w_request_pre (at p)) c.responder
          + total (w_event_pre (at p)) c.responder.events
        ≤ n_connected (c.requester.ports p)
  pub fresh :
      (p : ℕ)
      → total (at_port (remote p)) c.responder.allocated
          + total (w_open (at p)) c.to_responder
          + total (w_client (at p)) c.requester.connect_rx
        ≤ 1
  pub known :
      (p : ℕ)
      → total (at_port (remote p)) c.responder.allocated
        ≤ total (w_accepted (at p)) c.responder.events
          + total (w_opened (at p)) c.to_requester
          + n_connected (c.requester.ports p)
  pub keyed :
      (k : SidePort)
      → total (at_key k) c.responder.ports + total (w_key k) c.responder.events
        ≡ total (at_port k) c.responder.allocated
  pub once : (k : SidePort) → total (at_port k) c.responder.allocated ≤ 1
  pub timely : total w_late c.responder.events ≡ 0
  pub finished :
      total w_finish c.to_responder + bit c.responder.remote_client_dropped
      ≡ bit c.requester.all_clients_dropped
  pub wait_dropped : total w_dropped c.responder.wait_queue ≤ bit c.responder.remote_client_dropped
  pub no_wait_dropped :
      total w_dropped c.responder.no_wait_queue ≤ bit c.responder.remote_client_dropped

abbrev pub InvariantAfter : MuxResult Peers → Type 0
InvariantAfter (ok c) = Invariant c
InvariantAfter protocol_error = ⊥
InvariantAfter mux_panicked = ⊥

pub new_peers-Invariant :
    (port_id pre_connect port_side : Bool) (connect_queue : ℕ)
    → Invariant (new_peers port_id pre_connect port_side connect_queue)
unfolding total
new_peers-Invariant port_id pre_connect port_side connect_queue = record {
  sound = λ p. tt;
  placed = λ p. refl;
  single = λ p. omega arith;
  credited = omega arith;
  outstanding = λ f. refl;
  pooled = omega arith;
  opened = λ p. omega arith;
  fresh = λ p. omega arith;
  known = λ p. omega arith;
  keyed = λ k. refl;
  once = λ k. omega arith;
  timely = refl;
  finished = refl;
  wait_dropped = omega arith;
  no_wait_dropped = omega arith;
}
