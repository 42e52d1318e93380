-- ===== src/Open/Arriving.antt =====
-- mux.rs: an `OpenPort` message that reaches the responder keeps what holds between the ends, and is no
-- violation of the protocol.
use remoc.Base.{
  ◌≡◌, ◌≤◌, refl, arith, ℕ, ◌+◌, Bool, true, false, Option, List, [], ◌∙◌, inl, inr, Bool-cases,
  suc, ◌-◌, ◌==◌, ◌∷◌, ◌++◌, ltb, length,
}
use remoc.SidePort.{SidePort, remote, local}
use remoc.Mux.{ok}
use remoc.Open.{RequesterMsg, open_port}
use remoc.Open.Responder.{
  Request, RemoteConnectMsg, request, Responder, handle_open_port, listen_request, is_full,
  new_request, pre_connect_port, insert_outstanding, has_port, has_entry, is_outstanding,
}
use remoc.Open.Counts.{
  total, at, at_port, at_key, each, total_last, total_first, at_refl, total-le, total_each,
  total-contains, total-has_port, total-has_entry,
}
use remoc.Open.Peers.{Peers, responded}
use remoc.Open.Invariant.{Invariant, InvariantAfter}
use remoc.Open.Weights.{
  w_open, w_open_pre, w_finish, w_request, w_request_pre, w_queued, w_dropped, w_event, w_event_pre,
  pending, n_undecided-le_one, w_request_pre-le, pending-le, w_event_pre-le, length-queue, bit-le,
}

-- The responder with other queues and other requests.
abbrev relisted :
    Responder → List RemoteConnectMsg → List RemoteConnectMsg → List Request → Responder
relisted s wait no_wait reqs = record s {
  wait_queue = wait;
  no_wait_queue = no_wait;
  requests = reqs;
}

-- A request is listed, in a queue or where dropped requests are.
record Lists (s : Responder) (req : Request) : Type 0 where
  wait : List RemoteConnectMsg
  no_wait : List RemoteConnectMsg
  reqs : List Request
  listed : listen_request s req ≡ ok (relisted s wait no_wait reqs)
  more : (w : Request → ℕ) → pending w (relisted s wait no_wait reqs) ≡ pending w s + w req
  same_wait : total w_dropped wait ≡ total w_dropped s.wait_queue
  same_no_wait : total w_dropped no_wait ≡ total w_dropped s.no_wait_queue

listen_request-Lists :
    (s : Responder) (req : Request)
    → is_full s s.wait_queue ≡ false
    → is_full s s.no_wait_queue ≡ false
    → Lists s req
listen_request-Lists s req fit fit' = elim (Bool-cases s.is_listening) [
  | inl e ↦ elim (Bool-cases req.wait) [
    | inl w ↦ record {
      wait = s.wait_queue ++ (request req ∷ []);
      no_wait = s.no_wait_queue;
      reqs = s.requests;
      listed = rw (e, w, fit) refl;
      more = λ v. omega (arith, total_last (w_queued v) s.wait_queue (request req));
      same_wait = omega (arith, total_last w_dropped s.wait_queue (request req));
      same_no_wait = refl;
    }
    | inr w ↦ record {
      wait = s.wait_queue;
      no_wait = s.no_wait_queue ++ (request req ∷ []);
      reqs = s.requests;
      listed = rw (e, w, fit') refl;
      more = λ v. omega (arith, total_last (w_queued v) s.no_wait_queue (request req));
      same_wait = refl;
      same_no_wait = omega (arith, total_last w_dropped s.no_wait_queue (request req));
    }
  ]
  | inr e ↦ record {
    wait = s.wait_queue;
    no_wait = s.no_wait_queue;
    reqs = s.requests ++ (req ∷ []);
    listed = rw e refl;
    more = λ v. omega (arith, total_last v s.requests req);
    same_wait = refl;
    same_no_wait = refl;
  }
]

pub fits :
    (s : Responder) (queue : List RemoteConnectMsg)
    → length queue ≤ s.connect_queue
    → is_full s queue ≡ false
fits s queue h = ground arith

-- What the next message of the requester says, where it asks for a port.
module _ (c : Peers) (rest : List RequesterMsg) (port : ℕ) (wait : Bool) (id : Option ℕ)
    (pre : Bool) (h : Invariant c) (q : c.to_responder ≡ open_port port wait id pre ∷ rest) where
  first :
      (w : RequesterMsg → ℕ)
      → total w c.to_responder ≡ w (open_port port wait id pre) + total w rest
  first w = total_first w c.to_responder rest (open_port port wait id pre) q

  not_outstanding : is_outstanding c.responder port ≡ false
  not_outstanding = total-contains c.responder.outstanding_remote_port_requests port (
      omega (
        arith,
        h.outstanding (at port),
        h.placed port,
        n_undecided-le_one (c.requester.ports port),
        first (w_open (at port)),
        at_refl port,
      ))

  few : suc (length c.responder.outstanding_remote_port_requests) ≤ c.responder.connect_queue
  few = omega (
    arith,
    h.credited,
    h.outstanding each,
    first (w_open each),
    total_each c.responder.outstanding_remote_port_requests,
  )

  wait_fits : is_full c.responder c.responder.wait_queue ≡ false
  wait_fits = fits c.responder c.responder.wait_queue (
      omega (
        arith,
        length-queue c.responder.wait_queue,
        h.wait_dropped,
        h.credited,
        first (w_open each),
        bit-le c.responder.remote_client_dropped,
      ))

  no_wait_fits : is_full c.responder c.responder.no_wait_queue ≡ false
  no_wait_fits = fits c.responder c.responder.no_wait_queue (
      omega (
        arith,
        length-queue c.responder.no_wait_queue,
        h.no_wait_dropped,
        h.credited,
        first (w_open each),
        bit-le c.responder.remote_client_dropped,
      ))

  pool_left : 1 ≤ c.responder.pre_connect_port_pool
  pool_left = omega (
    arith,
    h.pooled,
    h.credited,
    first (w_open each),
    pending-le (w_request_pre each) (w_request each) c.responder (w_request_pre-le each),
    total-le (w_event_pre each) (w_event each) (w_event_pre-le each) c.responder.events,
  )

  not_allocated : total (at_port (remote port)) c.responder.allocated ≡ 0
  not_allocated = omega (arith, h.fresh port, first (w_open (at port)), at_refl port)

  unkeyed : total (at_key (remote port)) c.responder.ports ≡ 0
  unkeyed = omega (arith, h.keyed (remote port), not_allocated)

-- The responder after the step for a pre-connected request.
abbrev pre_opened : Responder → ℕ → Responder
pre_opened s port = record s {
  outstanding_remote_port_requests = port ∷ s.outstanding_remote_port_requests;
  pre_connect_port_pool = s.pre_connect_port_pool - 1;
  allocated = remote port ∷ s.allocated;
  ports = (remote port, remote port) ∷ s.ports;
}

pre_connect_port_lem :
    (s : Responder) (port : ℕ)
    → 1 ≤ s.pre_connect_port_pool
    → has_port s.allocated (remote port) ≡ false
    → has_entry s.ports (remote port) ≡ false
    → pre_connect_port (insert_outstanding s port) port true ≡ ok (pre_opened s port)
pre_connect_port_lem s port left new unused =
    let some_left : (s.pre_connect_port_pool == 0) ≡ false = ground (arith, left) in
    rw (some_left, new, unused) refl

handle_open_port_lem :
    (s s1 : Responder) (port : ℕ) (wait : Bool) (id : Option ℕ) (pre : Bool)
    → is_outstanding s port ≡ false
    → suc (length s.outstanding_remote_port_requests) ≤ s.connect_queue
    → pre_connect_port (insert_outstanding s port) port pre ≡ ok s1
    → handle_open_port s port wait id pre ≡ listen_request s1 (new_request port id wait pre)
unfolding handle_open_port
handle_open_port_lem s s1 port wait id pre new few e =
    let fits_in : ltb s.connect_queue (suc (length s.outstanding_remote_port_requests)) ≡ false =
      ground (arith, few) in
    rw (new, fits_in, e) refl

abbrev opened_plain :
    Peers
    → List RequesterMsg
    → ℕ
    → List RemoteConnectMsg
    → List RemoteConnectMsg
    → List Request
    → Peers
opened_plain c rest port wait no_wait reqs = record c {
  responder = relisted (insert_outstanding c.responder port) wait no_wait reqs;
  to_responder = rest;
}

abbrev opened_pre :
    Peers
    → List RequesterMsg
    → ℕ
    → List RemoteConnectMsg
    → List RemoteConnectMsg
    → List Request
    → Peers
opened_pre c rest port wait no_wait reqs = record c {
  responder = relisted (pre_opened c.responder port) wait no_wait reqs;
  to_responder = rest;
}

module _ (c : Peers) (rest : List RequesterMsg) (port : ℕ) (wait : Bool) (id : Option ℕ)
    (h : Invariant c) where
  opened_plain-Invariant :
      (q : c.to_responder ≡ open_port port wait id false ∷ rest)
      (l : Lists (insert_outstanding c.responder port) (new_request port id wait false))
      → Invariant (opened_plain c rest port l.wait l.no_wait l.reqs)
  unfolding total
  opened_plain-Invariant q l = record {
    sound = h.sound;
    placed = λ p. omega (arith, h.placed p, first' (w_open (at p)), l.more (w_request (at p)));
    single = h.single;
    credited = omega (arith, h.credited, first' (w_open each), l.more (w_request each));
    outstanding = λ f. omega (arith, h.outstanding f, l.more (w_request f));
    pooled = omega (arith, h.pooled, l.more (w_request_pre each));
    opened =
        λ p. omega (arith, h.opened p, first' (w_open_pre (at p)), l.more (w_request_pre (at p)));
    fresh = λ p. omega (arith, h.fresh p, first' (w_open (at p)));
    known = h.known;
    keyed = h.keyed;
    once = h.once;
    timely = h.timely;
    finished = omega (arith, h.finished, first' w_finish);
    wait_dropped = omega (arith, h.wait_dropped, l.same_wait);
    no_wait_dropped = omega (arith, h.no_wait_dropped, l.same_no_wait);
  }
    where
      first' :
          (w : RequesterMsg → ℕ)
          → total w c.to_responder ≡ w (open_port port wait id false) + total w rest
      first' w = first c rest port wait id false h q w

  opened_pre-Invariant :
      (q : c.to_responder ≡ open_port port wait id true ∷ rest)
      (l : Lists (pre_opened c.responder port) (new_request port id wait true))
      → Invariant (opened_pre c rest port l.wait l.no_wait l.reqs)
  unfolding total
  opened_pre-Invariant q l = record {
    sound = h.sound;
    placed = λ p. omega (arith, h.placed p, first' (w_open (at p)), l.more (w_request (at p)));
    single = h.single;
    credited = omega (arith, h.credited, first' (w_open each), l.more (w_request each));
    outstanding = λ f. omega (arith, h.outstanding f, l.more (w_request f));
    pooled = omega (arith, h.pooled, l.more (w_request_pre each), left);
    opened =
        λ p. omega (arith, h.opened p, first' (w_open_pre (at p)), l.more (w_request_pre (at p)));
    fresh = λ p. omega (arith, h.fresh p, first' (w_open (at p)));
    known = λ p. omega (
      arith,
      h.known p,
      h.opened p,
      h.fresh p,
      first' (w_open_pre (at p)),
      first' (w_open (at p)),
    );
    keyed = λ k. omega (arith, h.keyed k);
    once = once';
    timely = h.timely;
    finished = omega (arith, h.finished, first' w_finish);
    wait_dropped = omega (arith, h.wait_dropped, l.same_wait);
    no_wait_dropped = omega (arith, h.no_wait_dropped, l.same_no_wait);
  }
    where
      first' :
          (w : RequesterMsg → ℕ)
          → total w c.to_responder ≡ w (open_port port wait id true) + total w rest
      first' w = first c rest port wait id true h q w

      left : 1 ≤ c.responder.pre_connect_port_pool
      left = pool_left c rest port wait id true h q

      once' : (k : SidePort) → at_port k (remote port) + total (at_port k) c.responder.allocated ≤ 1
      once' (local n) = omega (arith, h.once (local n))
      once' (remote p) = omega (arith, h.fresh p, first' (w_open (at p)))

pub open_port-Invariant :
    (c : Peers) (rest : List RequesterMsg) (port : ℕ) (wait : Bool) (id : Option ℕ) (pre : Bool)
    → Invariant c
    → c.to_responder ≡ open_port port wait id pre ∷ rest
    → InvariantAfter (responded c rest (handle_open_port c.responder port wait id pre))
open_port-Invariant c rest port wait id false h q =
    let l =
      listen_request-Lists (insert_outstanding c.responder port) (new_request port id wait false)
        (wait_fits c rest port wait id false h q) (no_wait_fits c rest port wait id false h q) in
    rw
      (handle_open_port_lem c.responder (insert_outstanding c.responder port) port wait id false
          (not_outstanding c rest port wait id false h q) (few c rest port wait id false h q) refl
        ∙ l.listed)
      (opened_plain-Invariant c rest port wait id h q l)
open_port-Invariant c rest port wait id true h q =
    let s = c.responder in
    let l =
      listen_request-Lists (pre_opened s port) (new_request port id wait true)
        (wait_fits c rest port wait id true h q) (no_wait_fits c rest port wait id true h q) in
    rw
      (handle_open_port_lem s (pre_opened s port) port wait id true
          (not_outstanding c rest port wait id true h q) (few c rest port wait id true h q)
          (pre_connect_port_lem s port (pool_left c rest port wait id true h q)
            (total-has_port s.allocated (remote port) (not_allocated c rest port wait id true h q))
            (total-has_entry s.ports (remote port) (unkeyed c rest port wait id true h q)))
        ∙ l.listed)
      (opened_pre-Invariant c rest port wait id h q l)
