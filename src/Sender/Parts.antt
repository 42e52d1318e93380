-- ===== src/Sender/Parts.antt =====
-- sender.rs: the messages of one call of a `ChunkSender`.
use remoc.Base.{
  ℕ, zero, suc, ◌+◌, ◌≤◌, ◌<◌, ◌≡◌, refl, sym, ap, ◌∙◌, max, ◌&&◌, Bool, false, Option, none, some,
  List, [], ◌∷◌, ◌++◌, length, length-append, All, arith,
}
use remoc.Msg.Types.{DataCredits}
use remoc.Credit.Assigned.{AssignedCredits, take_mixed}
use remoc.Sender.Data.{SendData, is_nil, send_chunk}
use remoc.Sender.Cuts.{
  IsFull, IsGrant, TakenFull, take_mixed-TakenFull, full-IsGrant, bytes_of, Chunk, send_chunk-Chunk,
}
use remoc.Sender.Chunks.{
  Chunking, chunk_sent, chunk_waits, chunk_panicked, chunk_out_of_fuel, after_msgs, flagged,
  after_part, part_loop, part_empty, do_send_int,
}

module _ {ℓ} {A : Type ℓ} where
  -- Messages of one call: only the first may start a message and only the last may end it.
  abbrev pub IsPart : ℕ → Bool → Bool → List (SendData A) → Type 0
  IsPart chunk_size first finish [] = Unit {0}
  IsPart chunk_size first finish (msg ∷ msgs) =
      (msg.first ≡ first)
      × (msg.last ≡ (is_nil msgs && finish))
      × (length msg.bytes ≤ chunk_size)
      × IsPart chunk_size false finish msgs

  -- With `answers` to come before: what is sent, and that a byte takes an answer at most.
  abbrev Sent : ℕ → ℕ → Bool → Bool → List A → Chunking A → Type ℓ
  Sent answers chunk_size first finish data' (chunk_sent msgs credits grants) =
      (bytes_of msgs ≡ data')
      × IsPart chunk_size first finish msgs
      × (is_nil msgs ≡ is_nil data')
      × IsFull credits
      × All IsGrant grants
      × (answers ≤ length grants + length data')
  Sent answers chunk_size first finish data' (chunk_waits msgs) = ⊥ × Unit {ℓ}
  Sent answers chunk_size first finish data' chunk_panicked = ⊥ × Unit {ℓ}
  Sent answers chunk_size first finish data' chunk_out_of_fuel = ⊥ × Unit {ℓ}

  after_msgs-Sent :
      (answers left chunk_size : ℕ) (first finish : Bool) (x : A) (data' rest : List A)
      (msg : SendData A) (r : Chunking A)
      → answers ≤ suc left
      → msg.bytes ++ rest ≡ x ∷ data'
      → msg.first ≡ first
      → msg.last ≡ is_nil rest
      → 1 ≤ length msg.bytes
      → length msg.bytes ≤ chunk_size
      → Sent left chunk_size false finish rest r
      → Sent answers chunk_size first finish (x ∷ data') (after_msgs (flagged finish msg ∷ []) r)
  after_msgs-Sent answers left chunk_size first finish x data' rest msg (chunk_sent msgs q g) n e f
        l k c s =
      (
        ap (λ bytes. msg.bytes ++ bytes) s.0 ∙ e,
        (f, ap (λ last. last && finish) (l ∙ sym s.2), c, s.1),
        refl,
        s.3,
        s.4,
        omega (arith, n, s.5, k, ap length e, length-append msg.bytes rest),
      )
  after_msgs-Sent answers left chunk_size first finish x data' rest msg (chunk_waits msgs) n e f l k
        c s =
      s
  after_msgs-Sent answers left chunk_size first finish x data' rest msg chunk_panicked n e f l k c
        s =
      s
  after_msgs-Sent answers left chunk_size first finish x data' rest msg chunk_out_of_fuel n e f l k
        c s =
      s

  after_part-Sent :
      (answers left chunk_size : ℕ) (first finish : Bool) (x : A) (data' : List A)
      (chunk : Option (SendData A × List A × List AssignedCredits))
      (again : List A → List AssignedCredits → Chunking A)
      → answers ≤ suc left
      → Chunk chunk_size first (x ∷ data') chunk
      → ((rest : List A) (q : List AssignedCredits)
          → length rest < length (x ∷ data')
          → IsFull q
          → Sent left chunk_size false finish rest (again rest q))
      → Sent answers chunk_size first finish (x ∷ data') (after_part finish chunk again)
  after_part-Sent answers left chunk_size first finish x data' none again n c go = c
  after_part-Sent answers left chunk_size first finish x data' (some (msg, rest, q)) again n
        (e, f, l, k, m, full) go =
      after_msgs-Sent answers left chunk_size first finish x data' rest msg (again rest q) n e f l k
        m (go rest q (omega (arith, ap length e, length-append msg.bytes rest)) full)

  part_loop-Sent :
      (fuel chunk_size : ℕ) (grants : List (List AssignedCredits)) (data' : List A)
      (credits : List AssignedCredits) (first finish : Bool)
      → 1 ≤ chunk_size
      → length data' ≤ fuel
      → length data' ≤ length grants
      → All IsGrant grants
      → IsFull credits
      → Sent
          (length grants)
          chunk_size
          first
          finish
          data'
          (part_loop fuel chunk_size grants data' credits first finish)
  unfolding part_loop
  part_loop-Sent fuel chunk_size grants [] credits first finish h f n g c =
      (refl, tt, refl, c, g, omega arith)
  part_loop-Sent zero chunk_size grants (x ∷ data') credits first finish h f n g c =
      absurd (omega (arith, f))
  part_loop-Sent (suc fuel) chunk_size [] (x ∷ data') [] first finish h f n g c =
      absurd (omega (arith, n))
  part_loop-Sent (suc fuel) chunk_size (granted ∷ grants) (x ∷ data') [] first finish h f n g c =
      after_part-Sent (suc (length grants)) (length grants) chunk_size first finish x data'
        (send_chunk chunk_size (x ∷ data') granted first)
        (λ rest q. part_loop fuel chunk_size grants rest q false finish) (omega arith)
        (send_chunk-Chunk chunk_size first (x ∷ data') granted h (omega arith) g.0)
        (λ rest q l full.
          part_loop-Sent fuel chunk_size grants rest q false finish h (omega (arith, f, l))
            (omega (arith, n, l)) g.1 full)
  part_loop-Sent (suc fuel) chunk_size grants (x ∷ data') (ac ∷ credits) first finish h f n g c =
      after_part-Sent (length grants) (length grants) chunk_size first finish x data'
        (send_chunk chunk_size (x ∷ data') (ac ∷ credits) first)
        (λ rest q. part_loop fuel chunk_size grants rest q false finish) (omega arith)
        (send_chunk-Chunk chunk_size first (x ∷ data') (ac ∷ credits) h (omega arith)
          (full-IsGrant ac credits c))
        (λ rest q l full.
          part_loop-Sent fuel chunk_size grants rest q false finish h (omega (arith, f, l))
            (omega (arith, n, l)) g full)

  -- One call sends one message at least, and takes an answer for each byte at most, and for no byte one.
  abbrev pub Called : ℕ → ℕ → Bool → Bool → List A → Chunking A → Type ℓ
  Called answers chunk_size first finish data' (chunk_sent msgs credits grants) =
      (bytes_of msgs ≡ data')
      × IsPart chunk_size first finish msgs
      × (1 ≤ length msgs)
      × IsFull credits
      × All IsGrant grants
      × (answers ≤ length grants + max (length data') 1)
  Called answers chunk_size first finish data' (chunk_waits msgs) = ⊥ × Unit {ℓ}
  Called answers chunk_size first finish data' chunk_panicked = ⊥ × Unit {ℓ}
  Called answers chunk_size first finish data' chunk_out_of_fuel = ⊥ × Unit {ℓ}

  Sent-Called :
      (answers chunk_size : ℕ) (first finish : Bool) (x : A) (data' : List A) (r : Chunking A)
      → Sent answers chunk_size first finish (x ∷ data') r
      → Called answers chunk_size first finish (x ∷ data') r
  Sent-Called answers chunk_size first finish x data' (chunk_sent [] q g) s =
      absurd (omega (arith, ap length s.0))
  Sent-Called answers chunk_size first finish x data' (chunk_sent (m ∷ msgs) q g) s =
      (s.0, s.1, omega arith, s.3, s.4, omega (arith, s.5))
  Sent-Called answers chunk_size first finish x data' (chunk_waits msgs) s = s
  Sent-Called answers chunk_size first finish x data' chunk_panicked s = s
  Sent-Called answers chunk_size first finish x data' chunk_out_of_fuel s = s

  part_empty-Called :
      (chunk_size : ℕ) (first finish : Bool) (data' : List A) (q : List AssignedCredits)
      (grants : List (List AssignedCredits)) (answers : ℕ)
      (taken : Option (List AssignedCredits × DataCredits))
      → data' ≡ []
      → answers ≤ suc (length grants)
      → All IsGrant grants
      → TakenFull q 1 taken
      → Called answers chunk_size first finish data' (part_empty first finish grants taken)
  part_empty-Called chunk_size first finish data' q grants answers none e n g t = (t, tt)
  part_empty-Called chunk_size first finish data' q grants answers (some (q', taken)) e n g t =
      (sym e, (refl, refl, omega arith, tt), omega arith, t, g, omega (arith, n))

  pub do_send_int-Called :
      (chunk_size : ℕ) (grants : List (List AssignedCredits)) (data' : List A)
      (credits : List AssignedCredits) (first finish : Bool)
      → 1 ≤ chunk_size
      → max (length data') 1 ≤ length grants
      → All IsGrant grants
      → IsFull credits
      → Called
          (length grants)
          chunk_size
          first
          finish
          data'
          (do_send_int chunk_size grants data' credits first finish)
  unfolding do_send_int
  do_send_int-Called chunk_size [] [] [] first finish h n g c = absurd (omega (arith, n))
  do_send_int-Called chunk_size (granted ∷ grants) [] [] first finish h n g c =
      part_empty-Called chunk_size first finish [] granted grants (suc (length grants))
        (take_mixed granted 1) refl (omega arith) g.1
        (take_mixed-TakenFull granted 1 g.0.0 (omega arith) (omega (arith, g.0.1)))
  do_send_int-Called chunk_size grants [] (ac ∷ credits) first finish h n g c =
      part_empty-Called chunk_size first finish [] (ac ∷ credits) grants (length grants)
        (take_mixed (ac ∷ credits) 1) refl (omega arith) g
        (take_mixed-TakenFull (ac ∷ credits) 1 c (omega arith)
          (omega (arith, (full-IsGrant ac credits c).1)))
  do_send_int-Called chunk_size grants (x ∷ data') credits first finish h n g c =
      Sent-Called (length grants) chunk_size first finish x data'
        (part_loop (length (x ∷ data')) chunk_size grants (x ∷ data') credits first finish)
        (part_loop-Sent (length (x ∷ data')) chunk_size grants (x ∷ data') credits first finish h
          (omega arith) (omega (arith, n)) g c)
