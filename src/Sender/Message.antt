-- ===== src/Sender/Message.antt =====
-- sender.rs: the message that the calls of a `ChunkSender` make up.
use remoc.Base.{
  ℕ, ◌+◌, ◌≤◌, ◌≡◌, refl, sym, ap, ◌∙◌, max, Bool, true, false, List, [], ◌∷◌, ◌++◌, length,
  append_assoc, All, arith,
}
use remoc.Credit.Assigned.{AssignedCredits}
use remoc.Sender.Data.{SendData}
use remoc.Sender.Cuts.{IsFull, IsGrant, bytes_of, IsCut}
use remoc.Sender.Chunks.{
  Chunking, chunk_sent, chunk_waits, chunk_panicked, chunk_out_of_fuel, after_msgs, do_send_int,
  then_send, send_chunks,
}
use remoc.Sender.Parts.{IsPart, Called, do_send_int-Called}

module _ {ℓ} {A : Type ℓ} where
  IsPart-IsCut :
      (chunk_size : ℕ) (first : Bool) (msgs : List (SendData A))
      → IsPart chunk_size first true msgs
      → IsCut chunk_size first msgs
  IsPart-IsCut chunk_size first [] h = tt
  IsPart-IsCut chunk_size first (m ∷ []) h = (h.0, h.1, h.2, tt)
  IsPart-IsCut chunk_size first (m ∷ m' ∷ msgs) h =
      (h.0, h.1, h.2, IsPart-IsCut chunk_size false (m' ∷ msgs) h.3)

  -- Messages of a call that does not finish, and those of the calls after it.
  IsPart-append :
      (chunk_size : ℕ) (first : Bool) (m : SendData A) (msgs : List (SendData A)) (n : SendData A)
      (later : List (SendData A))
      → IsPart chunk_size first false (m ∷ msgs)
      → IsCut chunk_size false (n ∷ later)
      → IsCut chunk_size first ((m ∷ msgs) ++ (n ∷ later))
  IsPart-append chunk_size first m [] n later h c = (h.0, h.1, h.2, c)
  IsPart-append chunk_size first m (m' ∷ msgs) n later h c =
      (h.0, h.1, h.2, IsPart-append chunk_size false m' msgs n later h.3 c)

  bytes_of-append :
      (msgs later : List (SendData A)) → bytes_of (msgs ++ later) ≡ bytes_of msgs ++ bytes_of later
  bytes_of-append [] later = refl
  bytes_of-append (m ∷ msgs) later =
      ap (λ bytes. m.bytes ++ bytes) (bytes_of-append msgs later)
      ∙ sym (append_assoc m.bytes (bytes_of msgs) (bytes_of later))

  -- The chunks in order, and the answers to requests that they can take.
  abbrev pub payload : List (List A) → List A → List A
  payload [] final = final
  payload (chunk ∷ chunks) final = chunk ++ payload chunks final

  abbrev pub answers_for : List (List A) → List A → ℕ
  answers_for [] final = max (length final) 1
  answers_for (chunk ∷ chunks) final = max (length chunk) 1 + answers_for chunks final

  abbrev pub IsMessage : ℕ → Bool → List A → Chunking A → Type ℓ
  IsMessage chunk_size first data' (chunk_sent msgs credits grants) =
      (bytes_of msgs ≡ data') × IsCut chunk_size first msgs × (1 ≤ length msgs)
  IsMessage chunk_size first data' (chunk_waits msgs) = ⊥ × Unit {ℓ}
  IsMessage chunk_size first data' chunk_panicked = ⊥ × Unit {ℓ}
  IsMessage chunk_size first data' chunk_out_of_fuel = ⊥ × Unit {ℓ}

  Called-IsMessage :
      (answers chunk_size : ℕ) (first : Bool) (data' : List A) (r : Chunking A)
      → Called answers chunk_size first true data' r
      → IsMessage chunk_size first data' r
  Called-IsMessage answers chunk_size first data' (chunk_sent msgs q g) c =
      (c.0, IsPart-IsCut chunk_size first msgs c.1, c.2)
  Called-IsMessage answers chunk_size first data' (chunk_waits msgs) c = c
  Called-IsMessage answers chunk_size first data' chunk_panicked c = c
  Called-IsMessage answers chunk_size first data' chunk_out_of_fuel c = c

  after_msgs-IsMessage :
      (chunk_size : ℕ) (first : Bool) (chunk data' : List A) (msgs : List (SendData A))
      (r : Chunking A)
      → bytes_of msgs ≡ chunk
      → IsPart chunk_size first false msgs
      → 1 ≤ length msgs
      → IsMessage chunk_size false data' r
      → IsMessage chunk_size first (chunk ++ data') (after_msgs msgs r)
  after_msgs-IsMessage chunk_size first chunk data' [] r b p l h = absurd (omega (arith, l))
  after_msgs-IsMessage chunk_size first chunk data' (m ∷ msgs) (chunk_sent [] q g) b p l h =
      absurd (omega (arith, h.2))
  after_msgs-IsMessage chunk_size first chunk data' (m ∷ msgs) (chunk_sent (n ∷ later) q g) b p l
        h =
      (
        bytes_of-append (m ∷ msgs) (n ∷ later) ∙ rw (b, h.0) refl,
        IsPart-append chunk_size first m msgs n later p h.1,
        omega arith,
      )
  after_msgs-IsMessage chunk_size first chunk data' (m ∷ msgs) (chunk_waits later) b p l h = h
  after_msgs-IsMessage chunk_size first chunk data' (m ∷ msgs) chunk_panicked b p l h = h
  after_msgs-IsMessage chunk_size first chunk data' (m ∷ msgs) chunk_out_of_fuel b p l h = h

  then_send-IsMessage :
      (answers chunk_size left : ℕ) (first : Bool) (chunk data' : List A) (r : Chunking A)
      (next : List AssignedCredits → List (List AssignedCredits) → Chunking A)
      → Called answers chunk_size first false chunk r
      → max (length chunk) 1 + left ≤ answers
      → ((q : List AssignedCredits) (g : List (List AssignedCredits))
          → IsFull q
          → All IsGrant g
          → left ≤ length g
          → IsMessage chunk_size false data' (next q g))
      → IsMessage chunk_size first (chunk ++ data') (then_send r next)
  then_send-IsMessage answers chunk_size left first chunk data' (chunk_sent msgs q g) next c n go =
      after_msgs-IsMessage chunk_size first chunk data' msgs (next q g) c.0 c.1 c.2
        (go q g c.3 c.4 (omega (arith, c.5, n)))
  then_send-IsMessage answers chunk_size left first chunk data' (chunk_waits msgs) next c n go =
      absurd c.0
  then_send-IsMessage answers chunk_size left first chunk data' chunk_panicked next c n go =
      absurd c.0
  then_send-IsMessage answers chunk_size left first chunk data' chunk_out_of_fuel next c n go =
      absurd c.0

  -- A message sent chunk by chunk, with a chunk size above zero and every request for credits answered:
  -- nothing panics, the calls send one message at least, their bytes are those of the chunks and of the
  -- last chunk in order, each within the chunk size, and only the first one starts the message and only
  -- the last one ends it, whatever the lengths of the chunks are, zero included.
  pub send_chunks-IsMessage :
      (chunk_size : ℕ) (grants : List (List AssignedCredits)) (chunks : List (List A))
      (final : List A) (credits : List AssignedCredits) (first : Bool)
      → 1 ≤ chunk_size
      → answers_for chunks final ≤ length grants
      → All IsGrant grants
      → IsFull credits
      → IsMessage chunk_size first
          (payload chunks final)
          (send_chunks chunk_size grants chunks final credits first)
  unfolding send_chunks
  send_chunks-IsMessage chunk_size grants [] final credits first h n g c =
      Called-IsMessage (length grants) chunk_size first final
        (do_send_int chunk_size grants final credits first true)
        (do_send_int-Called chunk_size grants final credits first true h n g c)
  send_chunks-IsMessage chunk_size grants (chunk ∷ chunks) final credits first h n g c =
      then_send-IsMessage (length grants) chunk_size (answers_for chunks final) first chunk
        (payload chunks final) (do_send_int chunk_size grants chunk credits first false)
        (λ left grants1. send_chunks chunk_size grants1 chunks final left false)
        (do_send_int-Called chunk_size grants chunk credits first false h (omega (arith, n)) g c) n
        (λ q g' full all enough.
          send_chunks-IsMessage chunk_size g' chunks final q false h enough all full)
