-- ===== src/Open/Sending.antt =====
-- mux.rs: the requests that the task takes from its clients, and the end of the clients, keep what
-- holds between the ends.
use remoc.Base.{
  ◌≡◌, ◌≤◌, refl, arith, ℕ, ◌+◌, true, false, Option, none, some, List, [], sym, ap, ◌∙◌, inl, inr,
  Bool-cases, ◌==◌, ◌∷◌, ◌++◌,
}
use remoc.SidePort.{local}
use remoc.Mux.{ok}
use remoc.Open.{RequesterMsg, open_port, client_finish, pre_connected}
use remoc.Open.Requester.{
  PortEntry, vacant, connecting, connected, by_client, ClientReq, Requester, ConnectRsp, set_entry,
  handle_connect_req, accepted_rsp, rejected_rsp, respond, give_back, then_send, open_port_msg,
  begin_request,
}
use remoc.Open.Counts.{total, bit, at, each, total_last, total_first, at_refl, set_entry-count}
use remoc.Open.Peers.{Peers, take_req}
use remoc.Open.Invariant.{IsSoundEntry, Invariant, InvariantAfter}
use remoc.Open.Weights.{
  w_client, w_open, w_open_pre, w_finish, n_undecided, n_used, n_connected, n_undecided-le,
  n_connected-le,
}
use remoc.Open.Asking.{with_requester}

-- The task takes a request: it answers it, or sends it and remembers it.
abbrev unsent : Peers → List (ℕ × ConnectRsp) → List ClientReq → Peers
unsent c log reqs = with_requester c (record c.requester {
  connect_rx = reqs;
  responses = log;
  connect_credits = c.requester.connect_credits + 1;
})

respond-Invariant :
    (c : Peers) (log : List (ℕ × ConnectRsp)) (req : ClientReq) (reqs : List ClientReq)
    → Invariant c
    → c.requester.connect_rx ≡ req ∷ reqs
    → Invariant (unsent c log reqs)
respond-Invariant c log req reqs h q =
    let first : (f : ℕ → ℕ)
        → total (w_client f) c.requester.connect_rx ≡ f req.port + total (w_client f) reqs =
      λ f. total_first (w_client f) c.requester.connect_rx reqs req q in
    record {
      sound = h.sound;
      placed = h.placed;
      single = λ p. omega (arith, h.single p, first (at p));
      credited = omega (arith, h.credited, first each);
      outstanding = h.outstanding;
      pooled = h.pooled;
      opened = h.opened;
      fresh = λ p. omega (arith, h.fresh p, first (at p));
      known = h.known;
      keyed = h.keyed;
      once = h.once;
      timely = h.timely;
      finished = h.finished;
      wait_dropped = h.wait_dropped;
      no_wait_dropped = h.no_wait_dropped;
    }

set_entry-IsSoundEntry :
    (ports : ℕ → PortEntry) (port : ℕ) (entry : PortEntry) (p : ℕ)
    → IsSoundEntry entry
    → IsSoundEntry (ports p)
    → IsSoundEntry (set_entry ports port entry p)
set_entry-IsSoundEntry ports port entry p h k = elim (Bool-cases (port == p)) [
  | inl e ↦ rw e h
  | inr e ↦ rw e k
]

set_entry-le :
    (w : PortEntry → ℕ) (ports : ℕ → PortEntry) (port p : ℕ) (entry : PortEntry)
    → w (ports port) ≡ 0
    → w (ports p) ≤ w (set_entry ports port entry p)
set_entry-le w ports port p entry off = elim (Bool-cases (port == p)) [
  | inl e ↦
      let q : port ≡ p = ground (arith, e) in rw e (omega (arith, off, ap (λ n. w (ports n)) q))
  | inr e ↦ rw e (omega arith)
]

abbrev sent :
    Peers → List (ℕ × ConnectRsp) → List ClientReq → ClientReq → Option ℕ → PortEntry → Peers
sent c log reqs req id entry = record c {
  requester = record c.requester {
    connect_rx = reqs;
    ports = set_entry c.requester.ports req.port entry;
    responses = log;
  };
  to_responder = c.to_responder ++ (open_port req.port req.wait id req.pre_connect_credit ∷ []);
}

sent-Invariant :
    (c : Peers) (log : List (ℕ × ConnectRsp)) (req : ClientReq) (reqs : List ClientReq)
    (id : Option ℕ) (entry : PortEntry)
    → Invariant c
    → c.requester.connect_rx ≡ req ∷ reqs
    → IsSoundEntry entry
    → n_undecided entry ≡ 1
    → n_used entry ≡ 1
    → n_connected entry ≡ bit req.pre_connect_credit
    → Invariant (sent c log reqs req id entry)
sent-Invariant c log req reqs id entry h q sound undecided used is_open =
    let first : (f : ℕ → ℕ)
        → total (w_client f) c.requester.connect_rx ≡ f req.port + total (w_client f) reqs =
      λ f. total_first (w_client f) c.requester.connect_rx reqs req q in
    let last : (w : RequesterMsg → ℕ)
        → total w (sent c log reqs req id entry).to_responder
          ≡ total w c.to_responder + w (open_port req.port req.wait id req.pre_connect_credit) =
      λ w. total_last w c.to_responder _ in
    let free : n_used (c.requester.ports req.port) ≡ 0 =
      omega (arith, h.single req.port, first (at req.port), at_refl req.port) in
    let placed' = λ (p : ℕ).
      set_entry-count n_undecided c.requester.ports req.port p entry 0 1
        (omega (arith, free, n_undecided-le (c.requester.ports req.port))) undecided in
    let used' =
      λ (p : ℕ). set_entry-count n_used c.requester.ports req.port p entry 0 1 free used in
    let off : n_connected (c.requester.ports req.port) ≡ 0 =
      omega (arith, free, n_connected-le (c.requester.ports req.port)) in
    let more : (p : ℕ)
        → n_connected (c.requester.ports p)
          ≤ n_connected (set_entry c.requester.ports req.port entry p) =
      λ p. set_entry-le n_connected c.requester.ports req.port p entry off in
    record {
      sound = λ p. set_entry-IsSoundEntry c.requester.ports req.port entry p sound (h.sound p);
      placed = λ p. omega (arith, h.placed p, placed' p, last (w_open (at p)));
      single = λ p. omega (arith, h.single p, used' p, first (at p));
      credited = omega (arith, h.credited, first each, last (w_open each));
      outstanding = h.outstanding;
      pooled = h.pooled;
      opened = λ p. elim (Bool-cases req.pre_connect_credit) [
        | inl e ↦ omega (
          arith,
          h.opened p,
          last (w_open_pre (at p)),
          ap (λ b. w_open_pre (at p) (open_port req.port req.wait id b)) e,
          set_entry-count n_connected c.requester.ports req.port p entry 0 1 off
              (is_open ∙ ap bit e),
        )
        | inr e ↦ omega (
          arith,
          h.opened p,
          last (w_open_pre (at p)),
          more p,
          ap (λ b. w_open_pre (at p) (open_port req.port req.wait id b)) e,
        )
      ];
      fresh = λ p. omega (arith, h.fresh p, first (at p), last (w_open (at p)));
      known = λ p. omega (arith, h.known p, more p);
      keyed = h.keyed;
      once = h.once;
      timely = h.timely;
      finished = omega (arith, h.finished, last (w_finish));
      wait_dropped = h.wait_dropped;
      no_wait_dropped = h.no_wait_dropped;
    }

unused_entry : (entry : PortEntry) → n_used entry ≡ 0 → entry ≡ vacant
unused_entry vacant h = refl
unused_entry (connecting waiter) h = absurd (ground arith)
unused_entry (connected port state credit) h = absurd (ground arith)

handle_connect_req_refused :
    (r : Requester) (req : ClientReq)
    → r.remote_listener_dropped ≡ true
    → handle_connect_req r req ≡ ok (give_back true (respond req.port (rejected_rsp false) r), none)
unfolding handle_connect_req
handle_connect_req_refused r req e = rw e refl

handle_connect_req_sent :
    (r : Requester) (req : ClientReq)
    → r.remote_listener_dropped ≡ false
    → handle_connect_req r req ≡ then_send (open_port_msg r req) (begin_request r by_client req)
unfolding handle_connect_req
handle_connect_req_sent r req e = rw e refl

pre_connect_request :
    (r : Requester) (req : ClientReq)
    → req.pre_connect_credit ≡ true
    → r.ports req.port ≡ vacant
    → begin_request r by_client req
      ≡ ok (
          respond req.port (accepted_rsp (local req.port) (local req.port)) (record r {
            ports =
                set_entry r.ports req.port (connected (local req.port) (some pre_connected) true);
          }))
pre_connect_request r req e free = rw (e, free) refl

connecting_request :
    (r : Requester) (req : ClientReq)
    → req.pre_connect_credit ≡ false
    → r.ports req.port ≡ vacant
    → begin_request r by_client req
      ≡ ok (record r { ports = set_entry r.ports req.port (connecting by_client) })
connecting_request r req e free = rw (e, free) refl

pub take_req-Invariant :
    (c : Peers) (reqs : List ClientReq)
    → c.requester.connect_rx ≡ reqs
    → Invariant c
    → InvariantAfter (take_req c reqs)
unfolding handle_connect_req
take_req-Invariant c [] q h = h
take_req-Invariant c (req ∷ reqs) q h =
    let free : c.requester.ports req.port ≡ vacant = unused_entry (c.requester.ports req.port) (
      omega (
        arith,
        h.single req.port,
        at_refl req.port,
        total_first (w_client (at req.port)) c.requester.connect_rx reqs req q,
      )) in
    elim (Bool-cases c.requester.remote_listener_dropped) [
      | inl e ↦
          rw (handle_connect_req_refused (record c.requester { connect_rx = reqs }) req e)
            (respond-Invariant c _ req reqs h q)
      | inr e ↦
          rw (handle_connect_req_sent (record c.requester { connect_rx = reqs }) req e)
            (elim (Bool-cases req.pre_connect_credit) [
              | inl p ↦
                  rw (pre_connect_request (record c.requester { connect_rx = reqs }) req p free) (
                    sent-Invariant c _ req reqs _
                      (connected (local req.port) (some pre_connected) true) h q tt refl refl
                      (sym (ap bit p)))
              | inr p ↦
                  rw (connecting_request (record c.requester { connect_rx = reqs }) req p free) (
                    sent-Invariant c _ req reqs _ (connecting by_client) h q tt refl refl
                      (sym (ap bit p)))
            ])
    ]

pub drop_clients-Invariant :
    (c : Peers)
    → c.requester.all_clients_dropped ≡ false
    → Invariant c
    → Invariant (record c {
      requester = record c.requester { all_clients_dropped = true };
      to_responder = c.to_responder ++ (client_finish ∷ []);
    })
drop_clients-Invariant c off h =
    let last : (w : RequesterMsg → ℕ)
        → total w (c.to_responder ++ (client_finish ∷ []))
          ≡ total w c.to_responder + w client_finish =
      λ w. total_last w c.to_responder client_finish in
    record {
      sound = h.sound;
      placed = λ p. omega (arith, h.placed p, last (w_open (at p)));
      single = h.single;
      credited = omega (arith, h.credited, last (w_open each));
      outstanding = h.outstanding;
      pooled = h.pooled;
      opened = λ p. omega (arith, h.opened p, last (w_open_pre (at p)));
      fresh = λ p. omega (arith, h.fresh p, last (w_open (at p)));
      known = h.known;
      keyed = h.keyed;
      once = h.once;
      timely = h.timely;
      finished = omega (arith, h.finished, last w_finish, ap bit off);
      wait_dropped = h.wait_dropped;
      no_wait_dropped = h.no_wait_dropped;
    }
