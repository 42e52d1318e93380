-- ===== src/Open/Settling.antt =====
-- mux.rs: an answer that reaches the task keeps what holds between the ends.
use remoc.Base.{
  ◌≡◌, ◌≤◌, refl, arith, ℕ, ◌+◌, Bool, true, false, List, [], inl, inr, Bool-cases, ◌∷◌, ◌++◌,
  remove,
}
use remoc.SidePort.{SidePort, remote}
use remoc.Mux.{ok}
use remoc.Open.{ResponderMsg, port_opened, rejected_msg}
use remoc.Open.Responder.{
  AnswerEvt, accepted_evt, accepted_after_pre_connect, rejected_evt, rejected_after_accept,
  Responder, has_entry, is_outstanding, handle_answer, settled,
}
use remoc.Open.Counts.{
  total, at, at_key, each, total_last, total_first, at_refl, at_port_refl, total-has_entry,
  contains-total, total-remove,
}
use remoc.Open.Peers.{Peers, take_event}
use remoc.Open.Invariant.{Invariant, InvariantAfter}
use remoc.Open.Weights.{
  w_event, w_event_pre, w_accepted, w_key, w_late, w_answer, w_opened, n_undecided-le_one,
}

-- An answer reaches the task: its request is settled, and the requester is told.
abbrev told_of : Peers → List AnswerEvt → ResponderMsg → ℕ → ℕ → List (SidePort × SidePort) → Peers
told_of c rest msg port pool ports = record c {
  responder = record c.responder {
    events = rest;
    outstanding_remote_port_requests = remove c.responder.outstanding_remote_port_requests port;
    pre_connect_port_pool = pool;
    ports = ports;
  };
  to_requester = c.to_requester ++ (msg ∷ []);
}

-- The request of an answer is outstanding, once.
counted_once :
    (c : Peers) (event : AnswerEvt) (rest : List AnswerEvt) (port : ℕ)
    → Invariant c
    → c.responder.events ≡ event ∷ rest
    → ((f : ℕ → ℕ) → w_event f event ≡ f port)
    → total (at port) c.responder.outstanding_remote_port_requests ≡ 1
counted_once c event rest port h q whole = omega (
  arith,
  h.outstanding (at port),
  h.placed port,
  n_undecided-le_one (c.requester.ports port),
  total_first (w_event (at port)) c.responder.events rest event q,
  whole (at port),
  at_refl port,
)

is_outstanding-total :
    (s : Responder) (port : ℕ)
    → total (at port) s.outstanding_remote_port_requests ≡ 1
    → is_outstanding s port ≡ true
is_outstanding-total s port h = elim (Bool-cases (is_outstanding s port)) [
  | inl e ↦ e
  | inr e ↦ absurd (omega (arith, h, contains-total s.outstanding_remote_port_requests port e))
]

told_of-Invariant :
    (c : Peers) (event : AnswerEvt) (rest : List AnswerEvt) (msg : ResponderMsg) (port pool : ℕ)
    (ports : List (SidePort × SidePort))
    → Invariant c
    → c.responder.events ≡ event ∷ rest
    → ((f : ℕ → ℕ) → w_event f event ≡ f port)
    → ((f : ℕ → ℕ) → w_answer f msg ≡ f port)
    → ((f : ℕ → ℕ) → w_accepted f event ≤ w_opened f msg)
    → pool ≡ c.responder.pre_connect_port_pool + w_event_pre each event
    → ((k : SidePort) → total (at_key k) ports ≡ total (at_key k) c.responder.ports + w_key k event)
    → Invariant (told_of c rest msg port pool ports)
told_of-Invariant c event rest msg port pool ports h q whole answer less filled keys =
    let first : (w : AnswerEvt → ℕ) → total w c.responder.events ≡ w event + total w rest =
      λ w. total_first w c.responder.events rest event q in
    let last : (w : ResponderMsg → ℕ)
        → total w (c.to_requester ++ (msg ∷ [])) ≡ total w c.to_requester + w msg =
      λ w. total_last w c.to_requester msg in
    record {
      sound = h.sound;
      placed = λ p. omega (
        arith,
        h.placed p,
        first (w_event (at p)),
        last (w_answer (at p)),
        whole (at p),
        answer (at p),
      );
      single = h.single;
      credited =
          omega (
            arith,
            h.credited,
            first (w_event each),
            last (w_answer each),
            whole each,
            answer each,
          );
      outstanding = λ f. omega (
        arith,
        h.outstanding f,
        first (w_event f),
        whole f,
        total-remove f c.responder.outstanding_remote_port_requests port
            (counted_once c event rest port h q whole),
      );
      pooled = omega (arith, h.pooled, first (w_event_pre each), filled);
      opened = λ p. omega (arith, h.opened p, first (w_event_pre (at p)));
      fresh = h.fresh;
      known = λ p.
          omega (arith, h.known p, first (w_accepted (at p)), last (w_opened (at p)), less (at p));
      keyed = λ k. omega (arith, h.keyed k, first (w_key k), keys k);
      once = h.once;
      timely = omega (arith, h.timely, first w_late);
      finished = h.finished;
      wait_dropped = h.wait_dropped;
      no_wait_dropped = h.no_wait_dropped;
    }

-- What the task does with each answer to a request that is outstanding.
accepted_lem :
    (s : Responder) (local_port : SidePort) (port : ℕ)
    → is_outstanding s port ≡ true
    → has_entry s.ports local_port ≡ false
    → handle_answer s (accepted_evt local_port port)
      ≡ ok (
        record (settled s port false) { ports = (local_port, remote port) ∷ s.ports },
        port_opened port local_port,
      )
unfolding handle_answer
accepted_lem s local_port port e new = rw (e, new) refl

accepted_after_lem :
    (s : Responder) (port : ℕ)
    → is_outstanding s port ≡ true
    → handle_answer s (accepted_after_pre_connect port)
      ≡ ok (settled s port true, port_opened port (remote port))
unfolding handle_answer
accepted_after_lem s port e = rw e refl

rejected_lem :
    (s : Responder) (port : ℕ) (no_ports reserved : Bool)
    → is_outstanding s port ≡ true
    → handle_answer s (rejected_evt port no_ports reserved)
      ≡ ok (settled s port reserved, rejected_msg port no_ports)
unfolding handle_answer
rejected_lem s port no_ports reserved e = rw e refl

pub take_event-Invariant :
    (c : Peers) (events : List AnswerEvt)
    → c.responder.events ≡ events
    → Invariant c
    → InvariantAfter (take_event c events)
unfolding total handle_answer
take_event-Invariant c [] q h = h
take_event-Invariant c (accepted_evt local_port port ∷ rest) q h =
    let s = c.responder in
    let event = accepted_evt local_port port in
    let unkeyed : total (at_key local_port) s.ports ≡ 0 = omega (
      arith,
      h.keyed local_port,
      h.once local_port,
      total_first (w_key local_port) s.events rest event q,
      at_port_refl local_port,
    ) in
    rw
      (accepted_lem (record s { events = rest }) local_port port
        (is_outstanding-total s port (counted_once c event rest port h q (λ f. refl)))
        (total-has_entry s.ports local_port unkeyed))
      (told_of-Invariant c event rest (port_opened port local_port) port s.pre_connect_port_pool
        ((local_port, remote port) ∷ s.ports) h q (λ f. refl) (λ f. refl) (λ f. omega arith)
        (omega arith) (λ k. omega arith))
take_event-Invariant c (accepted_after_pre_connect port ∷ rest) q h =
    let s = c.responder in
    let event = accepted_after_pre_connect port in
    rw
      (accepted_after_lem (record s { events = rest }) port
        (is_outstanding-total s port (counted_once c event rest port h q (λ f. refl))))
      (told_of-Invariant c event rest (port_opened port (remote port)) port
        (s.pre_connect_port_pool + 1) s.ports h q (λ f. refl) (λ f. refl) (λ f. omega arith) refl
        (λ k. omega arith))
take_event-Invariant c (rejected_evt port no_ports true ∷ rest) q h =
    let s = c.responder in
    let event = rejected_evt port no_ports true in
    rw
      (rejected_lem (record s { events = rest }) port no_ports true
        (is_outstanding-total s port (counted_once c event rest port h q (λ f. refl))))
      (told_of-Invariant c event rest (rejected_msg port no_ports) port
        (s.pre_connect_port_pool + 1) s.ports h q (λ f. refl) (λ f. refl) (λ f. omega arith) refl
        (λ k. omega arith))
take_event-Invariant c (rejected_evt port no_ports false ∷ rest) q h =
    let s = c.responder in
    let event = rejected_evt port no_ports false in
    rw
      (rejected_lem (record s { events = rest }) port no_ports false
        (is_outstanding-total s port (counted_once c event rest port h q (λ f. refl))))
      (told_of-Invariant c event rest (rejected_msg port no_ports) port s.pre_connect_port_pool
        s.ports h q (λ f. refl) (λ f. refl) (λ f. omega arith) (omega arith) (λ k. omega arith))
take_event-Invariant c (rejected_after_accept port no_ports ∷ rest) q h = absurd (
    omega (
      arith,
      h.timely,
      total_first w_late c.responder.events rest (rejected_after_accept port no_ports) q,
    ))
