-- ===== src/Varint/Prefix.antt =====
-- varint.rs on input that stops early.
use remoc.Base.{
  ℕ, ap, Bool, true, false, ◌≡◌, ◌≢◌, refl, List, [], ◌∷◌, ◌++◌, append-nil, length, length-append,
  arith, inl, inr,
}
use remoc.Io.{
  FixedWidth-cases, ok, err, stuck, unexpected_eof, invalid_data, Result-cases, IsU32, ByteOrder,
}
use remoc.Varint.{VarintDecoder, new_decoder, decode, read_loop, read_v32, write_v32}
use remoc.Varint.RoundTrip.{read_v32-write_v32}

-- Bytes behind a value are left alone.
pub read_loop-append_ok :
    (front back : List ℕ) (d : VarintDecoder) (n : ℕ) (rest : List ℕ)
    → read_loop d front ≡ ok (n, rest)
    → read_loop d (front ++ back) ≡ ok (n, rest ++ back)
unfolding read_loop
read_loop-append_ok [] back d n rest h = cc
read_loop-append_ok (val ∷ front) back d n rest h =
    ground (arith, read_loop-append_ok front back (decode d val).0 n rest)

read_loop-append_invalid :
    (front back : List ℕ) (d : VarintDecoder)
    → read_loop d front ≡ err invalid_data
    → read_loop d (front ++ back) ≡ err invalid_data
unfolding read_loop
read_loop-append_invalid [] back d h = cc
read_loop-append_invalid (val ∷ front) back d h =
    ground (arith, read_loop-append_invalid front back (decode d val).0)

decode-ne-stuck : (d : VarintDecoder) (val : ℕ) → (decode d val).1 ≢ stuck
unfolding decode
decode-ne-stuck d val = ground arith

read_loop-ne-stuck : (bs : List ℕ) (d : VarintDecoder) → read_loop d bs ≢ stuck
unfolding read_loop
read_loop-ne-stuck [] d = λ e. cc
read_loop-ne-stuck (val ∷ bs) d =
    ground (arith, decode-ne-stuck d val, read_loop-ne-stuck bs (decode d val).0)

module _ (order : ByteOrder) where
  pub read_v32_empty : (varint : Bool) → read_v32 order varint [] ≡ err unexpected_eof
  unfolding read_v32 read_loop
  read_v32_empty true = refl
  read_v32_empty false = order.u32.read_short [] (omega arith)

  pub read_v32-ne-stuck : (varint : Bool) (bs : List ℕ) → read_v32 order varint bs ≢ stuck
  unfolding read_v32
  read_v32-ne-stuck true bs = read_loop-ne-stuck bs new_decoder
  read_v32-ne-stuck false bs = elim (FixedWidth-cases order.u32 bs) [
    | inl e ↦ rw e (λ h. cc)
    | inr (n, small, e) ↦ rw e (λ h. cc)
  ]

  -- A slice that ends inside what `write_v32` wrote for a 32-bit number is reported as the end of
  -- the file, in either encoding: a number cut short is never taken for another one.
  pub read_v32_truncated :
      (n : ℕ) (varint : Bool) (x : ℕ) (front back : List ℕ)
      → IsU32 n
      → write_v32 order n varint ≡ front ++ (x ∷ back)
      → read_v32 order varint front ≡ err unexpected_eof
  unfolding read_v32 write_v32
  read_v32_truncated n false x front back h e =
      order.u32.read_short front
        (omega (arith, ap length e, length-append front (x ∷ back), order.u32.length-write n))
  read_v32_truncated n true x front back h e =
      elim (Result-cases (read_loop new_decoder front) (read_loop-ne-stuck front new_decoder)) [
        | inl ((u, rest), r) ↦ ground (
          arith,
          whole,
          read_loop-append_ok front (x ∷ back) new_decoder u rest r,
          length-append rest (x ∷ back),
        )
        | inr (unexpected_eof, r) ↦ r
        | inr (invalid_data, r) ↦
            cc (whole, read_loop-append_invalid front (x ∷ back) new_decoder r)
      ]
    where
      whole : read_loop new_decoder (front ++ (x ∷ back)) ≡ ok (n, [])
      whole = rw (append-nil, e) at (read_v32-write_v32 order n true [] h)
