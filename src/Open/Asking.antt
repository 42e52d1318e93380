-- ===== src/Open/Asking.antt =====
-- client.rs: a request of a client keeps what holds between the ends.
use remoc.Base.{
  ◌≡◌, ◌≤◌, refl, arith, ℕ, ◌+◌, Bool, true, false, List, [], ◌⊎◌, ap, inl, inr, Bool-cases, ◌-◌,
  ◌==◌, ◌&&◌, not, ◌∷◌, ◌++◌,
}
use remoc.Open.Requester.{vacant, ClientReq, Requester}
use remoc.Open.Client.{connect}
use remoc.Open.Counts.{total, at, each, total_last, at_refl, at-cases, total-le}
use remoc.Open.Peers.{Peers, has_req, asked, ask_for_port}
use remoc.Open.Invariant.{Invariant}
use remoc.Open.Weights.{
  w_client, w_event, w_accepted, w_answer, w_opened, n_undecided, n_used, n_connected,
  w_accepted-le, w_opened-le,
}

has_req-total :
    (reqs : List ClientReq) (p : ℕ) → has_req reqs p ≡ false → total (w_client (at p)) reqs ≡ 0
unfolding total
has_req-total [] p h = refl
has_req-total (req ∷ reqs) p h = elim (Bool-cases (req.port == p)) [
  | inl e ↦ absurd (ground (arith, rw e at h))
  | inr e ↦ rw e (omega (arith, has_req-total reqs p (rw e at h)))
]

-- A request goes into the queue of the task with its credit.
abbrev with_req : Peers → ClientReq → Peers
with_req c req = record c {
  requester = record c.requester {
    connect_credits = c.requester.connect_credits - 1;
    connect_rx = c.requester.connect_rx ++ (req ∷ []);
  };
}

with_req-Invariant :
    (c : Peers) (req : ClientReq)
    → Invariant c
    → c.requester.ports req.port ≡ vacant
    → has_req c.requester.connect_rx req.port ≡ false
    → 1 ≤ c.requester.connect_credits
    → Invariant (with_req c req)
with_req-Invariant c req h free new credit =
    let r = c.requester in
    let last : (f : ℕ → ℕ)
        → total (w_client f) (r.connect_rx ++ (req ∷ []))
          ≡ total (w_client f) r.connect_rx + f req.port =
      λ f. total_last (w_client f) r.connect_rx req in
    let n_free : n_used (r.ports req.port) ≡ 0 = ap n_used free in
    let n_unconnected : n_connected (r.ports req.port) ≡ 0 = ap n_connected free in
    let n_placed : n_undecided (r.ports req.port) ≡ 0 = ap n_undecided free in
    let none_asked : total (w_client (at req.port)) r.connect_rx ≡ 0 =
      has_req-total r.connect_rx req.port new in
    record {
      sound = h.sound;
      placed = h.placed;
      single = λ p. elim (at-cases p req.port) [
        | inl e ↦ omega (arith, h.single p, last (at p), e)
        | inr e ↦ rw (← e) (omega (arith, n_free, none_asked, last (at req.port), at_refl req.port))
      ];
      credited = omega (arith, h.credited, last each, credit);
      outstanding = h.outstanding;
      pooled = h.pooled;
      opened = h.opened;
      fresh = λ p. elim (at-cases p req.port) [
        | inl e ↦ omega (arith, h.fresh p, last (at p), e)
        | inr e ↦ rw (← e) (
            omega (
              arith,
              h.known req.port,
              h.placed req.port,
              n_unconnected,
              n_placed,
              none_asked,
              last (at req.port),
              at_refl req.port,
              total-le (w_accepted (at req.port)) (w_event (at req.port))
                  (w_accepted-le (at req.port)) c.responder.events,
              total-le (w_opened (at req.port)) (w_answer (at req.port)) (w_opened-le (at req.port))
                  c.to_requester,
            ))
      ];
      known = h.known;
      keyed = h.keyed;
      once = h.once;
      timely = h.timely;
      finished = h.finished;
      wait_dropped = h.wait_dropped;
      no_wait_dropped = h.no_wait_dropped;
    }

abbrev queued_req : Requester → ClientReq → Requester
queued_req r req = record r {
  connect_credits = r.connect_credits - 1;
  connect_rx = r.connect_rx ++ (req ∷ []);
}

-- A client's request changes nothing, or takes one credit that is there.
abbrev Asks : Requester → ClientReq → Requester → Type 0
Asks r req r' =
    (r' ≡ r)
    ⊎ ((1 ≤ r.connect_credits)
        × ((req' : ClientReq) × ((req'.port ≡ req.port) × (r' ≡ queued_req r req'))))

connect-Asks :
    (r : Requester) (req : ClientReq)
    → req.pre_connect_credit ≡ false
    → Asks r req (asked r (connect r true req))
unfolding connect
connect-Asks r req off = elim (Bool-cases r.remote_listener_dropped) [
  | inl e ↦ rw e (inl refl)
  | inr e ↦
      rw (e, off)
        (elim (Bool-cases (r.connect_credits == 0)) [
          | inl z ↦
              rw z
                (elim (Bool-cases req.wait) [ inl w ↦ rw w (inl refl) | inr w ↦ rw w (inl refl) ])
          | inr z ↦
              rw z
                (inr (ground (arith, z), (record req { pre_connect_credit = false }, (refl, refl))))
        ])
]

pre_connect-Asks :
    (r : Requester) (req : ClientReq)
    → (r.connect_credits == 0) ≡ false
    → Asks r req (
        asked r (
          connect
            (record r { connect_credits = r.connect_credits - 1 })
            true
            (record req { pre_connect_credit = true })))
unfolding connect
pre_connect-Asks r req z = elim (Bool-cases r.remote_listener_dropped) [
  | inl e ↦ rw e (inl refl)
  | inr e ↦ rw e (inr (ground (arith, z), (record req { pre_connect_credit = true }, (refl, refl))))
]

ask_for_port-Asks :
    (r : Requester) (pre_connects : Bool) (req : ClientReq)
    → req.pre_connect_credit ≡ false
    → Asks r req (ask_for_port r pre_connects req)
ask_for_port-Asks r false req off = connect-Asks r req off
ask_for_port-Asks r true req off =
    elim (Bool-cases
      (r.pre_connect && not req.pre_connect_credit && not (r.connect_credits == 0))) [
        | inl e ↦ rw e (pre_connect-Asks r req (ground (arith, e)))
        | inr e ↦ rw e (connect-Asks r req off)
      ]

abbrev pub with_requester : Peers → Requester → Peers
with_requester c r = record c { requester = r }

asked-Invariant :
    (c : Peers) (req : ClientReq) (r : Requester)
    → Invariant c
    → c.requester.ports req.port ≡ vacant
    → has_req c.requester.connect_rx req.port ≡ false
    → Asks c.requester req r
    → Invariant (with_requester c r)
asked-Invariant c req r h free new (inl e) = rw e h
asked-Invariant c req r h free new (inr (credit, (req', (q, e)))) =
    rw e (with_req-Invariant c req' h (rw q free) (rw q new) credit)

pub ask-Invariant :
    (c : Peers) (pre_connects : Bool) (req : ClientReq)
    → Invariant c
    → req.pre_connect_credit ≡ false
    → c.requester.ports req.port ≡ vacant
    → has_req c.requester.connect_rx req.port ≡ false
    → Invariant (with_requester c (ask_for_port c.requester pre_connects req))
ask-Invariant c pre_connects req h off free new =
    asked-Invariant c req (ask_for_port c.requester pre_connects req) h free new
      (ask_for_port-Asks c.requester pre_connects req off)
