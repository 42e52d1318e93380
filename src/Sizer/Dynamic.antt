-- ===== src/Sizer/Dynamic.antt =====
-- sizer.rs, `DynamicBuffer`: the sizes and thresholds that it gives.
use remoc.Base.{ℕ, ◌-◌, ◌*◌, ◌/◌, ◌^◌, min, ◌≤◌, ◌≡◌, ◌⊎◌, inr, some, List, [], ◌∷◌, arith}
use remoc.Sizer.{
  BufferSize, BufferSizeQuery, DynamicBuffer, new_dynamic, set_size, dynamic_size, dynamic_buffer,
}

-- What `GlobalCreditMonitor::return_to_remote` asserts.
abbrev pub IsUsable : BufferSize → Type 0
IsUsable b = (1 ≤ b.return_threshold) × (b.return_threshold ≤ b.size)

-- The buffer with its limits; its size is zero only before the first use.
abbrev pub IsWithin : ℕ → ℕ → DynamicBuffer → Type 0
IsWithin low high d =
    (d.least ≡ low)
    × (d.most ≡ high)
    × (low ≤ d.current.size)
    × (d.current.size ≤ high)
    × IsUsable d.current

set_size-IsWithin :
    (low high : ℕ) (d : DynamicBuffer) (n : ℕ)
    → 1 ≤ low
    → low ≤ high
    → d.least ≡ low
    → d.most ≡ high
    → (d.current.size ≡ 0) ⊎ IsWithin low high d
    → IsWithin low high (set_size d n)
unfolding set_size
set_size-IsWithin low high d n h k el em w = ground arith

dynamic_size-IsWithin :
    (low high : ℕ) (d : DynamicBuffer) (query : BufferSizeQuery)
    → 1 ≤ low
    → low ≤ high
    → IsWithin low high d
    → IsWithin low high (dynamic_size d query).0
unfolding dynamic_size
dynamic_size-IsWithin low high d query h k w = ground (
  arith,
  set_size-IsWithin low high d (min (d.current.size * 4) (2 ^ 32 - 1)) h k w.0 w.1 (inr w),
  set_size-IsWithin low high d
      (d.current.size - min ((query.report.least - d.high_level) / 2) 65_536) h k w.0 w.1 (inr w),
)

dynamic_size-current :
    (d : DynamicBuffer) (query : BufferSizeQuery)
    → (dynamic_size d query).1 ≡ (dynamic_size d query).0.current
unfolding dynamic_size
dynamic_size-current d query = ground arith

-- The answers of a buffer to a list of queries, after its initial size.
abbrev pub answers : DynamicBuffer → List BufferSizeQuery → List BufferSize
answers d [] = []
answers d (query ∷ queries) =
    let (d', b) = dynamic_size d query in let rest = answers d' queries in b ∷ rest

abbrev pub AllAnswers : ℕ → ℕ → List BufferSize → Type 0
AllAnswers low high [] = Unit {0}
AllAnswers low high (b ∷ bs) =
    (low ≤ b.size) × (b.size ≤ high) × IsUsable b × AllAnswers low high bs

answers-AllAnswers :
    (low high : ℕ) (d : DynamicBuffer) (queries : List BufferSizeQuery)
    → 1 ≤ low
    → low ≤ high
    → IsWithin low high d
    → AllAnswers low high (answers d queries)
answers-AllAnswers low high d [] h k w = tt
answers-AllAnswers low high d (query ∷ queries) h k w =
    let w' = dynamic_size-IsWithin low high d query h k w in
    ground (
      arith,
      w',
      dynamic_size-current d query,
      answers-AllAnswers low high (dynamic_size d query).0 queries h k w',
    )

-- A dynamic buffer with limits of at least one byte gives, initially and for any queries, a size
-- within its limits and a threshold for returning credits between one and that size, as the caller
-- asserts.
pub dynamic_buffer-AllAnswers :
    (low high : ℕ) (d : DynamicBuffer) (queries : List BufferSizeQuery)
    → 1 ≤ low
    → new_dynamic low high ≡ some d
    → let (d', b) = dynamic_buffer.initial d in AllAnswers low high (b ∷ answers d' queries)
dynamic_buffer-AllAnswers low high d queries h e =
    let w =
      set_size-IsWithin low high d d.least h (ground arith) (ground arith) (ground arith)
        (ground arith) in
    ground (arith, w, answers-AllAnswers low high (set_size d d.least) queries h (ground arith) w)
