-- ===== src/Open/Safe.antt =====
-- mux.rs: between two conforming ends no handler of requests for ports fails, and every request gets
-- its answer.
use remoc.Base.{◌≡◌, ◌≤◌, refl, ap, arith, ℕ, ◌+◌, Bool, true, false, List, [], ◌∷◌, length}
use remoc.Mux.{MuxResult, ok, protocol_error, mux_panicked}
use remoc.Open.Counts.{total, at, each}
use remoc.Open.Peers.{
  Peers, new_peers, Move, ask, take_connect_req, drop_clients, reach_responder, take_from_queue,
  answer, take_answer, drop_listener, reach_requester, move, CanMove, Reachable, starts, moves,
}
use remoc.Open.Weights.{in_flight, n_undecided, pending, w_client, w_event_pre, w_request_pre}
use remoc.Open.Invariant.{Invariant, InvariantAfter, new_peers-Invariant}
use remoc.Open.Asking.{ask-Invariant}
use remoc.Open.Sending.{take_req-Invariant, drop_clients-Invariant}
use remoc.Open.Finishing.{take_requester_msg-Invariant}
use remoc.Open.Answering.{answer-Invariant}
use remoc.Open.Listing.{inspect_wait-Invariant, inspect_no_wait-Invariant, drop_listener-Invariant}
use remoc.Open.Settling.{take_event-Invariant}
use remoc.Open.Telling.{take_responder_msg-Invariant}

move-Invariant : (c : Peers) (m : Move) → Invariant c → CanMove c m → InvariantAfter (move c m)
move-Invariant c (ask pre_connects req) h k = ask-Invariant c pre_connects req h k.0 k.2 k.3
move-Invariant c take_connect_req h k = take_req-Invariant c c.requester.connect_rx refl h
move-Invariant c drop_clients h k = drop_clients-Invariant c k.0 h
move-Invariant c reach_responder h k = take_requester_msg-Invariant c c.to_responder refl h
move-Invariant c (take_from_queue true) h k = inspect_wait-Invariant c c.responder.wait_queue refl h
move-Invariant c (take_from_queue false) h k =
    inspect_no_wait-Invariant c c.responder.no_wait_queue refl h
move-Invariant c (answer front req back choice) h k =
    answer-Invariant c front back req choice h k.0 k.1
move-Invariant c take_answer h k = take_event-Invariant c c.responder.events refl h
move-Invariant c drop_listener h k = drop_listener-Invariant c h
move-Invariant c reach_requester h k = take_responder_msg-Invariant c c.to_requester refl h

Reachable-Invariant : (start c : Peers) → Invariant start → Reachable start c → Invariant c
Reachable-Invariant start c h starts = h
Reachable-Invariant start c h (moves c' c1 m r k e) =
    rw e at (move-Invariant c' m (Reachable-Invariant start c' h r) k)

abbrev pub OpenSucceeds : MuxResult Peers → Type 0
OpenSucceeds (ok c) = Unit {0}
OpenSucceeds protocol_error = ⊥
OpenSucceeds mux_panicked = ⊥

InvariantAfter-OpenSucceeds : (r : MuxResult Peers) → InvariantAfter r → OpenSucceeds r
InvariantAfter-OpenSucceeds (ok c) h = tt
InvariantAfter-OpenSucceeds protocol_error h = h
InvariantAfter-OpenSucceeds mux_panicked h = h

-- Between a requester and a responder that both follow the code, with any size of the connect queue
-- and whichever features they have, in every state that is reached by the moves of clients, listener
-- and application and by arrivals of messages in their order, where no requests are sent in port data,
-- no accepted port is rejected, and no port is freed, since a half of each port that is opened or
-- pre-connected is kept: whatever happens next, neither end reports a violation of the protocol or
-- panics.
pub Reachable-OpenSucceeds :
    (port_id pre_connect port_side : Bool) (connect_queue : ℕ) (c : Peers) (m : Move)
    → Reachable (new_peers port_id pre_connect port_side connect_queue) c
    → CanMove c m
    → OpenSucceeds (move c m)
Reachable-OpenSucceeds port_id pre_connect port_side connect_queue c m r k =
    let start = new_peers port_id pre_connect port_side connect_queue in
    let start' = new_peers-Invariant port_id pre_connect port_side connect_queue in
    InvariantAfter-OpenSucceeds (move c m)
      (move-Invariant c m (Reachable-Invariant start c start' r) k)

abbrev pub IsBounded : Peers → Type 0
IsBounded c =
    (length c.responder.outstanding_remote_port_requests ≤ c.responder.connect_queue)
    × (c.requester.connect_credits ≤ c.responder.connect_queue)
    × (c.responder.pre_connect_port_pool ≤ c.responder.connect_queue)
    × (length c.responder.wait_queue ≤ c.responder.connect_queue + 1)
    × (length c.responder.no_wait_queue ≤ c.responder.connect_queue + 1)

Invariant-of :
    (port_id pre_connect port_side : Bool) (connect_queue : ℕ) (c : Peers)
    → Reachable (new_peers port_id pre_connect port_side connect_queue) c
    → Invariant c
Invariant-of port_id pre_connect port_side connect_queue c r =
    Reachable-Invariant (new_peers port_id pre_connect port_side connect_queue) c
      (new_peers-Invariant port_id pre_connect port_side connect_queue) r

-- Nothing is under way between the ends, and no request waits for an answer.
abbrev IsQuiet : Peers → Type 0
IsQuiet c =
    (c.requester.connect_rx ≡ [])
    × (c.to_responder ≡ [])
    × (c.responder.wait_queue ≡ [])
    × (c.responder.no_wait_queue ≡ [])
    × (c.responder.requests ≡ [])
    × (c.responder.events ≡ [])
    × (c.to_requester ≡ [])

no_members : (ns : List ℕ) → total each ns ≡ 0 → ns ≡ []
unfolding total
no_members [] h = refl
no_members (n ∷ ns) h = absurd (omega (arith, h))

abbrev pub IsIdle : Peers → Type 0
IsIdle c =
    (c.requester.connect_credits ≡ c.responder.connect_queue)
    × (c.responder.pre_connect_port_pool ≡ c.responder.connect_queue)
    × (c.responder.outstanding_remote_port_requests ≡ [])
    × ((p : ℕ) → n_undecided (c.requester.ports p) ≡ 0)

-- In every such state where nothing is under way and the application holds no request: all credits
-- of the connect queue are back at the requester and all reserved ports in the pool of the responder,
-- no request is outstanding there, and no port of the requester is still connecting or pre-connected
-- without an answer.
pub Reachable-IsIdle :
    (port_id pre_connect port_side : Bool) (connect_queue : ℕ) (c : Peers)
    → Reachable (new_peers port_id pre_connect port_side connect_queue) c
    → IsQuiet c
    → IsIdle c
unfolding total
Reachable-IsIdle port_id pre_connect port_side connect_queue c r quiet =
    let h = Invariant-of port_id pre_connect port_side connect_queue c r in
    let s = c.responder in
    let unsent : total (w_client each) c.requester.connect_rx ≡ 0 = ap (total _) quiet.0 in
    let zero : (f : ℕ → ℕ) → in_flight f c ≡ 0 =
      λ f. rw (quiet.1, quiet.2, quiet.3, quiet.4, quiet.5, quiet.6) refl in
    let no_pre : pending (w_request_pre each) s ≡ 0 = rw (quiet.2, quiet.3, quiet.4) refl in
    let no_events : total (w_event_pre each) s.events ≡ 0 = ap (total _) quiet.5 in
    (
      omega (arith, h.credited, unsent, zero each),
      omega (arith, h.pooled, no_pre, no_events),
      no_members s.outstanding_remote_port_requests (omega (arith, h.outstanding each, zero each)),
      λ p. omega (arith, h.placed p, zero (at p)),
    )
