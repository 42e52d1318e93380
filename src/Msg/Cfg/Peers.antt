-- ===== src/Msg/Cfg/Peers.antt =====
-- msg.rs: what `ExchangedCfg::read` makes of the configuration of any peer, old or hostile.
use remoc.Base.{
  drop, ℕ, ◌*◌, ◌^◌, Option, ◌≤◌, ◌<◌, ◌≡◌, refl, leb, true, false, none, some, List, [], ◌∷◌,
  arith, Bool-cases, inl, inr,
}
use remoc.Io.{
  pure, ok, err, stuck, Result, Reader, read_u8, ◌>>=◌, FixedWidth, >>=_ok, >>=_err,
  FixedWidth-cases,
}
use remoc.Msg.Types.{External, Duration, ExchangedCfg}
use remoc.Msg.Reads.{IsU32Option}
use remoc.Msg.Cfg.{
  or_return, or_return_ok, or_return_err, timeout_of, at_least, at_least_ok, at_least_err,
  read_port_extensions, base_cfg, read_global_credits_enabled, read_codec_extensions,
  read_extensions, read_cfg,
}
use remoc.Msg.Cfg.RoundTrip.{IsValidCfg}

-- The result has the four base fields of `b`, and 32-bit global credits, or none where they are not
-- enabled.
abbrev Extends : {V : Type 0} → ExchangedCfg V → Result (ExchangedCfg V × List ℕ) → Type 0
Extends b (ok (c, rest)) =
    (c.connection_timeout ≡ b.connection_timeout)
    × (c.chunk_size ≡ b.chunk_size)
    × (c.port_receive_buffer ≡ b.port_receive_buffer)
    × (c.connect_queue ≡ b.connect_queue)
    × (c.global_credits_enabled ≡ false → c.global_credits ≡ none)
    × IsU32Option c.global_credits
Extends b (err e) = ⊥
Extends b stuck = ⊥

or_return-Extends :
    {V : Type 0} (b this : ExchangedCfg V) (k : ℕ → Reader (ExchangedCfg V)) (bs : List ℕ)
    → Extends b (ok (this, []))
    → ((byte : ℕ) (rest : List ℕ) → Extends b (k byte rest))
    → Extends b (or_return read_u8 this k bs)
or_return-Extends b this k [] h hk = h
or_return-Extends b this k (byte ∷ bs) h hk = hk byte bs

-- A timeout is a number of milliseconds above zero that fits 64 bits.
abbrev pub IsTimeout : Option Duration → Type 0
IsTimeout none = Unit {0}
IsTimeout (some d) = (1_000_000 ≤ d) × (d < 2 ^ 64 * 1_000_000)

timeout_of-IsTimeout : (millis : ℕ) → millis < 2 ^ 64 → IsTimeout (timeout_of millis)
timeout_of-IsTimeout millis h = ground (arith, h)

module _ {V : Type 0} (ext : External V) where
  read_global_credits_enabled-Extends :
      (b this : ExchangedCfg V) (bs : List ℕ)
      → Extends b (ok (this, bs))
      → Extends b (read_global_credits_enabled ext this bs)
  unfolding read_global_credits_enabled ◌>>=◌ pure
  read_global_credits_enabled-Extends b this [] h = h
  read_global_credits_enabled-Extends b this (byte ∷ bs) h = ground arith

  read_codec_extensions-Extends :
      (b this : ExchangedCfg V) (bs : List ℕ)
      → Extends b (ok (this, bs))
      → Extends b (read_codec_extensions ext this bs)
  unfolding read_codec_extensions ◌>>=◌ pure
  read_codec_extensions-Extends b this bs h = or_return-Extends b this _ bs h λ b1 r1.
      or_return-Extends b _ _ r1 h λ b2 r2.
        or_return-Extends b _ _ r2 h λ b3 r3.
          or_return-Extends b _ _ r3 h λ b4 r4. read_global_credits_enabled-Extends b _ r4 h

  read_port_extensions-Extends :
      (b this : ExchangedCfg V) (bs : List ℕ)
      → Extends b (ok (this, bs))
      → Extends b (read_port_extensions ext this bs)
  unfolding read_port_extensions ◌>>=◌ pure
  read_port_extensions-Extends b this bs h = or_return-Extends b this _ bs h λ b1 r1.
      or_return-Extends b _ _ r1 h λ b2 r2. or_return-Extends b _ _ r2 h λ b3 r3.
        or_return-Extends b _ _ r3 h
          λ b4 r4. or_return-Extends b _ _ r4 h λ b5 r5. read_codec_extensions-Extends b _ r5 h

  -- `this` still enables the global credits, as the base does.
  read_extensions-Extends :
      (this : ExchangedCfg V) (bs : List ℕ)
      → this.global_credits_enabled ≡ true
      → this.global_credits ≡ none
      → Extends this (read_extensions ext this bs)
  unfolding read_extensions ◌>>=◌ pure
  read_extensions-Extends this bs on off = elim (FixedWidth-cases ext.order.u32 bs) [
    | inl e ↦
        rw (or_return_err ext.order.u32.read this _ e)
          (refl, refl, refl, refl, (λ _. off), rw off tt)
    | inr (n, small, e) ↦ rw (or_return_ok ext.order.u32.read this _ e) (
        read_port_extensions-Extends this (record this { global_credits = some n }) (drop 4 bs)
          (refl, refl, refl, refl, (λ h. cc), small))
  ]

  abbrev pub Accepted : Result (ExchangedCfg V × List ℕ) → Type 0
  Accepted (ok (c, rest)) =
      IsValidCfg c
      × (c.global_credits_enabled ≡ false → c.global_credits ≡ none)
      × IsU32Option c.global_credits
      × IsTimeout c.connection_timeout
  Accepted (err e) = Unit {0}
  Accepted stuck = ⊥

  Extends-Accepted :
      (b : ExchangedCfg V) (r : Result (ExchangedCfg V × List ℕ))
      → IsValidCfg b
      → IsTimeout b.connection_timeout
      → Extends b r
      → Accepted r
  Extends-Accepted b (ok (c, rest)) v t h = (ground arith, h.4, h.5, rw h.0 t)
  Extends-Accepted b (err e) v t h = tt
  Extends-Accepted b stuck v t h = h

  read_fixed-Accepted :
      {width : ℕ} (f : FixedWidth width) (k : ℕ → Reader (ExchangedCfg V)) (bs : List ℕ)
      → ((n : ℕ) (rest : List ℕ) → n < 256 ^ width → Accepted (k n rest))
      → Accepted ((f.read >>= k) bs)
  read_fixed-Accepted f k bs h = elim (FixedWidth-cases f bs) [
    | inl e ↦ rw (>>=_err f.read k e) tt
    | inr (n, small, e) ↦ rw (>>=_ok f.read k e) (h n _ small)
  ]

  at_least-Accepted :
      (least n : ℕ) (k : ℕ → Reader (ExchangedCfg V)) (bs : List ℕ)
      → (least ≤ n → Accepted (k n bs))
      → Accepted ((at_least least n >>= k) bs)
  at_least-Accepted least n k bs h = elim (Bool-cases (leb least n)) [
    | inl e ↦
        rw (>>=_ok (at_least least n) k (at_least_ok least n bs (ground arith))) (h (ground arith))
    | inr e ↦ rw (>>=_err (at_least least n) k (at_least_err least n bs (ground arith))) tt
  ]

  -- Whatever bytes a peer of any version sends, the reader ends, and a configuration that it
  -- accepts keeps the lower limits and the widths of its numbers, global credits included, and has no
  -- global credits where these are not enabled; its timeout, where there is one, is a number of
  -- milliseconds from 1 to 2 ^ 64 - 1.
  pub read_cfg-Accepted : (version : ℕ) (bs : List ℕ) → Accepted (read_cfg ext version bs)
  unfolding read_cfg ◌>>=◌ pure
  read_cfg-Accepted version bs = read_fixed-Accepted ext.order.u64 _ bs λ millis r1 long.
      read_fixed-Accepted ext.order.u32 _ r1 λ cs r2 cs_high. at_least-Accepted 4 cs _ r2 λ cs_low.
        read_fixed-Accepted ext.order.u32 _ r2 λ prb r3 prb_high.
          at_least-Accepted 4 prb _ r3 λ prb_low.
            read_fixed-Accepted ext.order.u16 _ r3 λ cq r4 cq_high.
              at_least-Accepted 1 cq _ r4 λ cq_low.
                unfold base_cfg in
                Extends-Accepted (base_cfg ext version (timeout_of millis) cs prb cq) _
                  (record {
                    chunk_size_low = cs_low;
                    chunk_size_high = cs_high;
                    port_receive_buffer_low = prb_low;
                    port_receive_buffer_high = prb_high;
                    connect_queue_low = cq_low;
                    connect_queue_high = cq_high;
                  })
                  (timeout_of-IsTimeout millis long)
                  (read_extensions-Extends (base_cfg ext version (timeout_of millis) cs prb cq) r4
                    refl refl)
