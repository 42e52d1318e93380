-- ===== src/Open/Finishing.antt =====
-- mux.rs: the end of the clients keeps what holds between the ends where it reaches the responder.
use remoc.Base.{
  ◌≡◌, ◌≤◌, refl, arith, ℕ, ◌+◌, true, false, List, [], inl, inr, Bool-cases, suc, ◌∷◌, ◌++◌,
}
use remoc.Mux.{ok}
use remoc.Open.{RequesterMsg, open_port, client_finish}
use remoc.Open.Responder.{
  Request, RemoteConnectMsg, client_dropped, Responder, handle_client_finish, is_full,
}
use remoc.Open.Counts.{total, bit, at, each, total_last, total_first}
use remoc.Open.Peers.{Peers, take_requester_msg, responded}
use remoc.Open.Invariant.{Invariant, InvariantAfter}
use remoc.Open.Weights.{
  w_open, w_open_pre, w_finish, w_request, w_request_pre, w_queued, w_dropped, in_queues,
  length-queue, bit-le,
}
use remoc.Open.Arriving.{fits, open_port-Invariant}

-- The queues after the message that the clients are gone, and the flag.
abbrev client_gone :
    Peers → List RequesterMsg → List RemoteConnectMsg → List RemoteConnectMsg → Peers
client_gone c rest wait no_wait = record c {
  responder = record c.responder {
    wait_queue = wait;
    no_wait_queue = no_wait;
    remote_client_dropped = true;
  };
  to_responder = rest;
}

client_gone-Invariant :
    (c : Peers) (rest : List RequesterMsg) (wait no_wait : List RemoteConnectMsg)
    → Invariant c
    → c.to_responder ≡ client_finish ∷ rest
    → ((w : Request → ℕ)
        → total (w_queued w) wait + total (w_queued w) no_wait ≡ in_queues w c.responder)
    → total w_dropped wait ≤ suc (total w_dropped c.responder.wait_queue)
    → total w_dropped no_wait ≤ suc (total w_dropped c.responder.no_wait_queue)
    → Invariant (client_gone c rest wait no_wait)
client_gone-Invariant c rest wait no_wait h q same few_wait few_no_wait =
    let first : (w : RequesterMsg → ℕ) → total w c.to_responder ≡ w client_finish + total w rest =
      λ w. total_first w c.to_responder rest client_finish q in
    record {
      sound = h.sound;
      placed = λ p. omega (arith, h.placed p, first (w_open (at p)), same (w_request (at p)));
      single = h.single;
      credited = omega (arith, h.credited, first (w_open each), same (w_request each));
      outstanding = λ f. omega (arith, h.outstanding f, same (w_request f));
      pooled = omega (arith, h.pooled, same (w_request_pre each));
      opened =
          λ p. omega (arith, h.opened p, first (w_open_pre (at p)), same (w_request_pre (at p)));
      fresh = λ p. omega (arith, h.fresh p, first (w_open (at p)));
      known = h.known;
      keyed = h.keyed;
      once = h.once;
      timely = h.timely;
      finished = omega (
        arith,
        h.finished,
        first w_finish,
        bit-le c.requester.all_clients_dropped,
        bit-le c.responder.remote_client_dropped,
      );
      wait_dropped = omega (
        arith,
        h.wait_dropped,
        few_wait,
        h.finished,
        first w_finish,
        bit-le c.requester.all_clients_dropped,
      );
      no_wait_dropped = omega (
        arith,
        h.no_wait_dropped,
        few_no_wait,
        h.finished,
        first w_finish,
        bit-le c.requester.all_clients_dropped,
      );
    }

room_for_finish :
    (c : Peers) (rest : List RequesterMsg)
    → Invariant c
    → c.to_responder ≡ client_finish ∷ rest
    → (is_full c.responder c.responder.wait_queue ≡ false)
      × (is_full c.responder c.responder.no_wait_queue ≡ false)
room_for_finish c rest h q =
    let none_dropped : bit c.responder.remote_client_dropped ≡ 0 = omega (
      arith,
      h.finished,
      bit-le c.requester.all_clients_dropped,
      total_first w_finish c.to_responder rest client_finish q,
    ) in
    (
      fits c.responder c.responder.wait_queue (
          omega
            (arith, length-queue c.responder.wait_queue, h.wait_dropped, h.credited, none_dropped)),
      fits c.responder c.responder.no_wait_queue (
          omega (
            arith,
            length-queue c.responder.no_wait_queue,
            h.no_wait_dropped,
            h.credited,
            none_dropped,
          )),
    )

abbrev with_finish : List RemoteConnectMsg → List RemoteConnectMsg
with_finish queue = queue ++ (client_dropped ∷ [])

total-with_finish :
    (w : Request → ℕ) (s : Responder)
    → total (w_queued w) (with_finish s.wait_queue)
        + total (w_queued w) (with_finish s.no_wait_queue)
      ≡ in_queues w s
total-with_finish w s = omega (
  arith,
  total_last (w_queued w) s.wait_queue client_dropped,
  total_last (w_queued w) s.no_wait_queue client_dropped,
)

finish_listening :
    (s : Responder)
    → s.is_listening ≡ true
    → is_full s s.wait_queue ≡ false
    → is_full s s.no_wait_queue ≡ false
    → handle_client_finish s
      ≡ ok (record s {
        wait_queue = with_finish s.wait_queue;
        no_wait_queue = with_finish s.no_wait_queue;
        remote_client_dropped = true;
      })
unfolding handle_client_finish
finish_listening s e fit fit' = rw (e, fit, fit') refl

finish_unheard :
    (s : Responder)
    → s.is_listening ≡ false
    → handle_client_finish s ≡ ok (record s { remote_client_dropped = true })
unfolding handle_client_finish
finish_unheard s e = rw e refl

client_finish-Invariant :
    (c : Peers) (rest : List RequesterMsg)
    → Invariant c
    → c.to_responder ≡ client_finish ∷ rest
    → InvariantAfter (responded c rest (handle_client_finish c.responder))
client_finish-Invariant c rest h q =
    let s = c.responder in
    elim (Bool-cases s.is_listening) [
      | inl e ↦
          rw (finish_listening s e (room_for_finish c rest h q).0 (room_for_finish c rest h q).1) (
            client_gone-Invariant c rest (with_finish s.wait_queue) (with_finish s.no_wait_queue) h
              q (λ w. total-with_finish w s)
              (omega (arith, total_last w_dropped s.wait_queue client_dropped))
              (omega (arith, total_last w_dropped s.no_wait_queue client_dropped)))
      | inr e ↦ rw (finish_unheard s e) (
          client_gone-Invariant c rest s.wait_queue s.no_wait_queue h q (λ w. refl) (omega arith)
            (omega arith))
    ]

pub take_requester_msg-Invariant :
    (c : Peers) (msgs : List RequesterMsg)
    → c.to_responder ≡ msgs
    → Invariant c
    → InvariantAfter (take_requester_msg c msgs)
take_requester_msg-Invariant c [] q h = h
take_requester_msg-Invariant c (open_port port wait id pre ∷ rest) q h =
    open_port-Invariant c rest port wait id pre h q
take_requester_msg-Invariant c (client_finish ∷ rest) q h = client_finish-Invariant c rest h q
