-- ===== src/Open/Answering.antt =====
-- listener.rs: an answer of the application keeps what holds between the ends.
use remoc.Base.{◌≡◌, arith, ℕ, ◌+◌, List, [], ◌∷◌, ◌++◌}
use remoc.SidePort.{SidePort, remote}
use remoc.Open.Responder.{Request, AnswerEvt, Responder}
use remoc.Open.Counts.{total, at, each, total_last, total_split}
use remoc.Open.Peers.{
  Peers, Choice, accepts, accepts_reserved, accepts_tentatively, rejects, drops, choose, CanChoose,
}
use remoc.Open.Invariant.{Invariant}
use remoc.Open.Weights.{
  w_request, w_request_pre, w_event, w_event_pre, w_accepted, w_key, w_late, n_undecided-le,
  n_undecided-le_one,
}
use remoc.Open.Choosing.{IsAnswer, choose-Answers}

-- The application or the drop of a request has an answer, and the allocator a list of ports.
abbrev with_answer : Peers → List Request → AnswerEvt → List SidePort → Peers
with_answer c reqs event ports = record c {
  responder = record c.responder {
    requests = reqs;
    events = c.responder.events ++ (event ∷ []);
    allocated = ports;
  };
}

with_answer-Invariant :
    (c : Peers) (front back : List Request) (req : Request) (event : AnswerEvt)
    (ports : List SidePort)
    → Invariant c
    → c.responder.requests ≡ front ++ (req ∷ back)
    → IsAnswer c.responder.allocated req event ports
    → Invariant (with_answer c (front ++ back) event ports)
with_answer-Invariant c front back req event ports h q a =
    let split : (w : Request → ℕ) → total w c.responder.requests ≡ w req + total w (front ++ back) =
      λ w. total_split w c.responder.requests front back req q in
    let last : (w : AnswerEvt → ℕ)
        → total w (c.responder.events ++ (event ∷ [])) ≡ total w c.responder.events + w event =
      λ w. total_last w c.responder.events event in
    record {
      sound = h.sound;
      placed = λ p.
          omega
            (arith, h.placed p, split (w_request (at p)), last (w_event (at p)), a.whole (at p));
      single = h.single;
      credited =
          omega (arith, h.credited, split (w_request each), last (w_event each), a.whole each);
      outstanding =
          λ f. omega (arith, h.outstanding f, split (w_request f), last (w_event f), a.whole f);
      pooled =
          omega
            (arith, h.pooled, split (w_request_pre each), last (w_event_pre each), a.same_pre each);
      opened = λ p. omega (
        arith,
        h.opened p,
        split (w_request_pre (at p)),
        last (w_event_pre (at p)),
        a.same_pre (at p),
      );
      fresh = λ p. omega (
        arith,
        h.fresh p,
        h.placed p,
        h.single p,
        split (w_request (at p)),
        a.keyed_less p,
        a.accepts_less (at p),
        a.allocates (remote p),
        a.allocates_once (remote p),
        n_undecided-le_one (c.requester.ports p),
        n_undecided-le (c.requester.ports p),
      );
      known = λ p.
          omega
            (arith, h.known p, a.keyed_less p, a.allocates (remote p), last (w_accepted (at p)));
      keyed = λ k. omega (arith, h.keyed k, a.allocates k, last (w_key k));
      once = a.allocates_once;
      timely = omega (arith, h.timely, a.in_time, last w_late);
      finished = h.finished;
      wait_dropped = h.wait_dropped;
      no_wait_dropped = h.no_wait_dropped;
    }

CanChoose-without :
    (s : Responder) (reqs : List Request) (choice : Choice)
    → CanChoose s choice
    → CanChoose (record s { requests = reqs }) choice
CanChoose-without s reqs (accepts reservation) h = h
CanChoose-without s reqs (accepts_reserved reservation further) h = h
CanChoose-without s reqs (accepts_tentatively reservation) h = h
CanChoose-without s reqs (rejects no_ports) h = h
CanChoose-without s reqs drops h = h

abbrev without : Peers → List Request → Responder
without c reqs = record c.responder { requests = reqs }

abbrev pub with_responder : Peers → Responder → Peers
with_responder c s = record c { responder = s }

pub answer-Invariant :
    (c : Peers) (front back : List Request) (req : Request) (choice : Choice)
    → Invariant c
    → c.responder.requests ≡ front ++ (req ∷ back)
    → CanChoose c.responder choice
    → Invariant (with_responder c (choose req choice (without c (front ++ back))))
answer-Invariant c front back req choice h q k =
    let a =
      choose-Answers (without c (front ++ back)) req choice h.once
        (CanChoose-without c.responder (front ++ back) choice k) in
    rw a.is_sent (with_answer-Invariant c front back req a.event a.ports h q a.is_answer)
