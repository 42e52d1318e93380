-- ===== src/Open/Listing.antt =====
-- listener.rs and mux.rs: what the listener takes from its queues, and its end, keep what holds between
-- the ends.
use remoc.Base.{◌≡◌, ◌≤◌, refl, arith, ℕ, ◌+◌, Bool, false, List, [], ◌∷◌, ◌++◌}
use remoc.Mux.{ok}
use remoc.Open.{ResponderMsg, listener_finish}
use remoc.Open.Responder.{
  Request, RemoteConnectMsg, request, client_dropped, requests_of, handle_listener_dropped,
}
use remoc.Open.Counts.{total, at, each, total_last, total_first, total-append}
use remoc.Open.Peers.{Peers, inspect_wait, inspect_no_wait, answered}
use remoc.Open.Invariant.{Invariant, InvariantAfter}
use remoc.Open.Weights.{
  w_request, w_request_pre, w_queued, w_dropped, w_answer, w_opened, pending, total-requests_of,
}
use remoc.Open.Answering.{with_responder}

-- Requests that change their place, with another listener and with messages that are no answers.
abbrev relisted :
    Peers
    → Bool
    → List RemoteConnectMsg
    → List RemoteConnectMsg
    → List Request
    → List ResponderMsg
    → Peers
relisted c listening wait no_wait reqs msgs = record c {
  responder = record c.responder {
    is_listening = listening;
    wait_queue = wait;
    no_wait_queue = no_wait;
    requests = reqs;
  };
  to_requester = msgs;
}

relisted-Invariant :
    (c : Peers) (listening : Bool) (wait no_wait : List RemoteConnectMsg) (reqs : List Request)
    (msgs : List ResponderMsg)
    → Invariant c
    → ((w : Request → ℕ)
        → total (w_queued w) wait + total (w_queued w) no_wait + total w reqs
          ≡ pending w c.responder)
    → total w_dropped wait ≤ total w_dropped c.responder.wait_queue
    → total w_dropped no_wait ≤ total w_dropped c.responder.no_wait_queue
    → ((f : ℕ → ℕ) → total (w_answer f) msgs ≡ total (w_answer f) c.to_requester)
    → ((f : ℕ → ℕ) → total (w_opened f) msgs ≡ total (w_opened f) c.to_requester)
    → Invariant (relisted c listening wait no_wait reqs msgs)
relisted-Invariant c listening wait no_wait reqs msgs h same fewer fewer' answers opens = record {
  sound = h.sound;
  placed = λ p. omega (arith, h.placed p, same (w_request (at p)), answers (at p));
  single = h.single;
  credited = omega (arith, h.credited, same (w_request each), answers each);
  outstanding = λ f. omega (arith, h.outstanding f, same (w_request f));
  pooled = omega (arith, h.pooled, same (w_request_pre each));
  opened = λ p. omega (arith, h.opened p, same (w_request_pre (at p)));
  fresh = h.fresh;
  known = λ p. omega (arith, h.known p, opens (at p));
  keyed = h.keyed;
  once = h.once;
  timely = h.timely;
  finished = h.finished;
  wait_dropped = omega (arith, h.wait_dropped, fewer);
  no_wait_dropped = omega (arith, h.no_wait_dropped, fewer');
}

pub inspect_wait-Invariant :
    (c : Peers) (queue : List RemoteConnectMsg)
    → c.responder.wait_queue ≡ queue
    → Invariant c
    → Invariant (with_responder c (inspect_wait c.responder queue))
inspect_wait-Invariant c [] q h = h
inspect_wait-Invariant c (request req ∷ rest) q h =
    relisted-Invariant c c.responder.is_listening rest c.responder.no_wait_queue
      (c.responder.requests ++ (req ∷ [])) c.to_requester h
      (λ w. omega (
        arith,
        total_first (w_queued w) c.responder.wait_queue rest (request req) q,
        total_last w c.responder.requests req,
      ))
      (omega (arith, total_first w_dropped c.responder.wait_queue rest (request req) q))
      (omega arith) (λ f. refl) (λ f. refl)
inspect_wait-Invariant c (client_dropped ∷ rest) q h =
    relisted-Invariant c c.responder.is_listening rest c.responder.no_wait_queue
      c.responder.requests c.to_requester h
      (λ w. omega (arith, total_first (w_queued w) c.responder.wait_queue rest client_dropped q))
      (omega (arith, total_first w_dropped c.responder.wait_queue rest client_dropped q))
      (omega arith) (λ f. refl) (λ f. refl)

pub inspect_no_wait-Invariant :
    (c : Peers) (queue : List RemoteConnectMsg)
    → c.responder.no_wait_queue ≡ queue
    → Invariant c
    → Invariant (with_responder c (inspect_no_wait c.responder queue))
inspect_no_wait-Invariant c [] q h = h
inspect_no_wait-Invariant c (request req ∷ rest) q h =
    relisted-Invariant c c.responder.is_listening c.responder.wait_queue rest
      (c.responder.requests ++ (req ∷ [])) c.to_requester h
      (λ w. omega (
        arith,
        total_first (w_queued w) c.responder.no_wait_queue rest (request req) q,
        total_last w c.responder.requests req,
      ))
      (omega arith)
      (omega (arith, total_first w_dropped c.responder.no_wait_queue rest (request req) q))
      (λ f. refl) (λ f. refl)
inspect_no_wait-Invariant c (client_dropped ∷ rest) q h =
    relisted-Invariant c c.responder.is_listening c.responder.wait_queue rest c.responder.requests
      c.to_requester h
      (λ w. omega (arith, total_first (w_queued w) c.responder.no_wait_queue rest client_dropped q))
      (omega arith)
      (omega (arith, total_first w_dropped c.responder.no_wait_queue rest client_dropped q))
      (λ f. refl) (λ f. refl)

pub drop_listener-Invariant :
    (c : Peers)
    → Invariant c
    → InvariantAfter (answered c (ok (handle_listener_dropped c.responder)))
unfolding total
drop_listener-Invariant c h =
    let wait = c.responder.wait_queue in
    let no_wait = c.responder.no_wait_queue in
    relisted-Invariant c false [] [] _ (c.to_requester ++ (listener_finish ∷ [])) h
      (λ w. omega (
        arith,
        total-append w c.responder.requests (requests_of wait ++ requests_of no_wait),
        total-append w (requests_of wait) (requests_of no_wait),
        total-requests_of w wait,
        total-requests_of w no_wait,
      ))
      (omega arith) (omega arith)
      (λ f. omega (arith, total_last (w_answer f) c.to_requester listener_finish))
      (λ f. omega (arith, total_last (w_opened f) c.to_requester listener_finish))
