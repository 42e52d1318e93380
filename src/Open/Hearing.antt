-- ===== src/Open/Hearing.antt =====
-- mux.rs: what an answer does to the entry of its port at the requester.
use remoc.Base.{
  ◌≡◌, ◌≤◌, refl, arith, ℕ, ◌+◌, true, false, none, List, ap, inl, inr, Bool-cases, ◌==◌, ◌∷◌,
}
use remoc.SidePort.{SidePort, remote, local, flipped}
use remoc.Mux.{ok}
use remoc.Open.{ResponderMsg, port_opened}
use remoc.Open.Requester.{
  PortEntry, vacant, connecting, connected, by_client, Requester, ConnectRsp, set_entry,
  accepted_rsp, opened_entry,
}
use remoc.Open.Counts.{total, at, each, total_first, at_refl}
use remoc.Open.Peers.{Peers}
use remoc.Open.Invariant.{IsSoundEntry, Invariant}
use remoc.Open.Weights.{
  w_answer, w_opened, n_undecided, n_used, n_connected, w_opened-le, n_undecided-le,
}

-- The requester after an answer for a port whose request has one credit.
abbrev heard : Peers → (ℕ → PortEntry) → List (ℕ × ConnectRsp) → List ResponderMsg → Peers
heard c ports log rest = record c {
  requester = record c.requester {
    ports = ports;
    responses = log;
    connect_credits = c.requester.connect_credits + 1;
  };
  to_requester = rest;
}

-- What an answer does to the ports: one entry, which awaited it, has another value.
pub record Hears (c : Peers) (msg : ResponderMsg) (port : ℕ) (ports : ℕ → PortEntry) : Type 0 where
  pub entry : PortEntry
  pub elsewhere : (p : ℕ) → (port == p) ≡ false → ports p ≡ c.requester.ports p
  pub here : ports port ≡ entry
  pub is_sound : IsSoundEntry entry
  pub decided : n_undecided entry ≡ 0
  pub used : n_used entry ≤ 1
  pub as_connected : n_connected (c.requester.ports port) ≤ n_connected entry
  pub opens : w_opened (at port) msg ≤ n_connected entry

apart : (p port : ℕ) → (port == p) ≡ false → at p port ≡ 0
apart p port e = rw e refl

pub heard-Invariant :
    (c : Peers) (msg : ResponderMsg) (port : ℕ) (ports : ℕ → PortEntry)
    (log : List (ℕ × ConnectRsp)) (rest : List ResponderMsg)
    → Invariant c
    → c.to_requester ≡ msg ∷ rest
    → ((f : ℕ → ℕ) → w_answer f msg ≡ f port)
    → n_undecided (c.requester.ports port) ≡ 1
    → Hears c msg port ports
    → Invariant (heard c ports log rest)
heard-Invariant c msg port ports log rest h q whole undecided a =
    let first : (w : ResponderMsg → ℕ) → total w c.to_requester ≡ w msg + total w rest =
      λ w. total_first w c.to_requester rest msg q in
    let same : (w : PortEntry → ℕ) (p : ℕ)
        → (port == p) ≡ false
        → w (ports p) ≡ w (c.requester.ports p) =
      λ w p e. ap w (a.elsewhere p e) in
    let now : (w : PortEntry → ℕ) → w (ports port) ≡ w a.entry = λ w. ap w a.here in
    record {
      sound = λ p. elim (Bool-cases (port == p)) [
        | inl e ↦ rw (← eq p e, a.here) a.is_sound
        | inr e ↦ rw (a.elsewhere p e) (h.sound p)
      ];
      placed = λ p. elim (Bool-cases (port == p)) [
        | inl e ↦ rw (← eq p e) (
            omega (
              arith,
              h.placed port,
              first (w_answer (at port)),
              whole (at port),
              at_refl port,
              now n_undecided,
              a.decided,
              undecided,
            ))
        | inr e ↦ omega (
          arith,
          h.placed p,
          first (w_answer (at p)),
          whole (at p),
          apart p port e,
          same n_undecided p e,
        )
      ];
      single = λ p. elim (Bool-cases (port == p)) [
        | inl e ↦ rw (← eq p e) (
            omega (
              arith,
              h.single port,
              now n_used,
              a.used,
              undecided,
              n_undecided-le (c.requester.ports port),
            ))
        | inr e ↦ omega (arith, h.single p, same n_used p e)
      ];
      credited = omega (arith, h.credited, first (w_answer each), whole each);
      outstanding = h.outstanding;
      pooled = h.pooled;
      opened = λ p. elim (Bool-cases (port == p)) [
        | inl e ↦ rw (← eq p e) (omega (arith, h.opened port, now n_connected, a.as_connected))
        | inr e ↦ omega (arith, h.opened p, same n_connected p e)
      ];
      fresh = h.fresh;
      known = λ p. elim (Bool-cases (port == p)) [
        | inl e ↦ rw (← eq p e) (
            omega (
              arith,
              h.known port,
              h.once (remote port),
              now n_connected,
              a.as_connected,
              a.opens,
              first (w_opened (at port)),
            ))
        | inr e ↦ omega (
          arith,
          h.known p,
          first (w_opened (at p)),
          same n_connected p e,
          w_opened-le (at p) msg,
          whole (at p),
          apart p port e,
        )
      ];
      keyed = h.keyed;
      once = h.once;
      timely = h.timely;
      finished = h.finished;
      wait_dropped = h.wait_dropped;
      no_wait_dropped = h.no_wait_dropped;
    }
  where
    eq : (p : ℕ) → (port == p) ≡ true → port ≡ p
    eq p e = ground (arith, e)

self-eq : (p : ℕ) → (p == p) ≡ true
self-eq p = ground arith

pub set_entry-Hears :
    (c : Peers) (msg : ResponderMsg) (port : ℕ) (entry : PortEntry)
    → IsSoundEntry entry
    → n_undecided entry ≡ 0
    → n_used entry ≤ 1
    → n_connected (c.requester.ports port) ≤ n_connected entry
    → w_opened (at port) msg ≤ n_connected entry
    → Hears c msg port (set_entry c.requester.ports port entry)
set_entry-Hears c msg port entry sound decided used conn opens = record {
  entry = entry;
  elsewhere = λ p e. rw e refl;
  here = rw (self-eq port) refl;
  is_sound = sound;
  decided = decided;
  used = used;
  as_connected = conn;
  opens = opens;
}

abbrev opened_ports : (ℕ → PortEntry) → ℕ → SidePort → ℕ → PortEntry
opened_ports ports port server_port =
    set_entry (set_entry ports port vacant) port (connected (flipped server_port) none false)

pub opened_connecting :
    (r : Requester) (port : ℕ) (server_port : SidePort)
    → opened_entry r port server_port (connecting by_client)
      ≡ ok (record r {
        ports = opened_ports r.ports port server_port;
        connect_credits = r.connect_credits + 1;
        responses = (port, accepted_rsp (local port) (flipped server_port)) ∷ r.responses;
      })
opened_connecting r port server_port = rw (self-eq port) refl

pub opened_ports-Hears :
    (c : Peers) (port : ℕ) (server_port : SidePort)
    → n_connected (c.requester.ports port) ≡ 0
    → Hears c (port_opened port server_port) port (opened_ports c.requester.ports port server_port)
opened_ports-Hears c port server_port off = record {
  entry = connected (flipped server_port) none false;
  elsewhere = λ p e. rw e refl;
  here = rw (self-eq port) refl;
  is_sound = tt;
  decided = refl;
  used = omega arith;
  as_connected = omega (arith, off);
  opens = omega (arith, at_refl port);
}
