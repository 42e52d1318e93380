-- ===== src/Varint/RoundTrip.antt =====
-- varint.rs: what `write_v32` writes, `read_v32` reads back.
use remoc.Base.{
  ℕ, zero, suc, ◌+◌, ◌-◌, ◌*◌, ◌/◌, ◌%◌, ◌^◌, ◌≤◌, ◌<◌, ◌≡◌, refl, Bool, true, false, none, some,
  List, [], ◌∷◌, ◌++◌, arith, Bool-cases, ltb, inl, inr,
}
use remoc.Base.Bits.{bit_or-shifted, byte_low, byte_top, byte_set_top}
use remoc.Io.{err, unexpected_eof, ok, IsU32, ByteOrder}
use remoc.Varint.{
  VarintDecoder, new_decoder, varint_loop, varint_u32, decode, after_decode, read_loop, write_v32,
  read_v32,
}

abbrev decoder : ℕ → ℕ → VarintDecoder
decoder value pos = record { value = value; pos = pos }

-- A byte with its top bit set adds the group `g` above the bits read so far.
decode_more :
    (pos acc g : ℕ)
    → pos < 4
    → acc < 2 ^ (7 * pos)
    → g < 128
    → decode (decoder acc pos) (g + 128) ≡ (decoder (acc + g * 2 ^ (7 * pos)) (pos + 1), ok none)
unfolding decode
decode_more zero acc g hp ha hg =
    ground (arith, byte_low (g + 128), byte_top (g + 128), bit_or-shifted 0 g acc)
decode_more (suc zero) acc g hp ha hg =
    ground (arith, byte_low (g + 128), byte_top (g + 128), bit_or-shifted 7 g acc)
decode_more (suc (suc zero)) acc g hp ha hg =
    ground (arith, byte_low (g + 128), byte_top (g + 128), bit_or-shifted 14 g acc)
decode_more (suc (suc (suc zero))) acc g hp ha hg =
    ground (arith, byte_low (g + 128), byte_top (g + 128), bit_or-shifted 21 g acc)
decode_more (suc (suc (suc (suc pos)))) acc g hp ha hg = absurd (omega arith)

-- A byte below 128 completes the value; the fifth byte holds at most four bits.
decode_last :
    (pos acc g : ℕ)
    → pos < 5
    → acc < 2 ^ (7 * pos)
    → g < 128
    → g < 2 ^ (32 - 7 * pos)
    → decode (decoder acc pos) g ≡ (new_decoder, ok (some (acc + g * 2 ^ (7 * pos))))
unfolding decode
decode_last zero acc g hp ha hg hl = ground (arith, byte_low g, byte_top g, bit_or-shifted 0 g acc)
decode_last (suc zero) acc g hp ha hg hl =
    ground (arith, byte_low g, byte_top g, bit_or-shifted 7 g acc)
decode_last (suc (suc zero)) acc g hp ha hg hl =
    ground (arith, byte_low g, byte_top g, bit_or-shifted 14 g acc)
decode_last (suc (suc (suc zero))) acc g hp ha hg hl =
    ground (arith, byte_low g, byte_top g, bit_or-shifted 21 g acc)
decode_last (suc (suc (suc (suc zero)))) acc g hp ha hg hl =
    ground (arith, byte_low g, byte_top g, bit_or-shifted 28 g acc)
decode_last (suc (suc (suc (suc (suc pos))))) acc g hp ha hg hl = absurd (omega arith)

-- The lowest group of `v` goes to the accumulator, and the rest still fits the bits above.
split_group :
    (pos acc v : ℕ)
    → pos < 4
    → acc < 2 ^ (7 * pos)
    → v < 2 ^ (32 - 7 * pos)
    → (v / 128 < 2 ^ (32 - 7 * (pos + 1)))
      × (acc + v % 128 * 2 ^ (7 * pos) < 2 ^ (7 * (pos + 1)))
      × (acc + v % 128 * 2 ^ (7 * pos) + v / 128 * 2 ^ (7 * (pos + 1)) ≡ acc + v * 2 ^ (7 * pos))
split_group zero acc v hp ha hv = omega arith
split_group (suc zero) acc v hp ha hv = omega arith
split_group (suc (suc zero)) acc v hp ha hv = omega arith
split_group (suc (suc (suc zero))) acc v hp ha hv = omega arith
split_group (suc (suc (suc (suc pos)))) acc v hp ha hv = absurd (omega arith)

-- A value of 128 or more is not at the fifth byte.
more_room : (pos v : ℕ) → pos < 5 → v < 2 ^ (32 - 7 * pos) → 128 ≤ v → pos < 4
more_room zero v hp hv h = omega arith
more_room (suc zero) v hp hv h = omega arith
more_room (suc (suc zero)) v hp hv h = omega arith
more_room (suc (suc (suc zero))) v hp hv h = omega arith
more_room (suc (suc (suc (suc zero)))) v hp hv h = absurd (omega arith)
more_room (suc (suc (suc (suc (suc pos))))) v hp hv h = absurd (omega arith)

-- In each round `pos` bytes are behind and at most `rounds` are left of the five.
read_loop-varint_loop :
    (rounds pos acc v : ℕ) (rest : List ℕ)
    → rounds + pos ≡ 5
    → 0 < rounds
    → acc < 2 ^ (7 * pos)
    → v < 2 ^ (32 - 7 * pos)
    → read_loop (decoder acc pos) (varint_loop rounds v ++ rest)
      ≡ ok (acc + v * 2 ^ (7 * pos), rest)
unfolding varint_loop read_loop
read_loop-varint_loop zero pos acc v rest hr hz ha hv = absurd (omega arith)
read_loop-varint_loop (suc rounds) pos acc v rest hr hz ha hv = elim (Bool-cases (ltb v 128)) [
  | inl small ↦ ground (arith, decode_last pos acc v)
  | inr large ↦ ground (
    arith,
    byte_set_top (v % 256),
    more_room pos v,
    split_group pos acc v,
    decode_more pos acc (v % 128),
    read_loop-varint_loop rounds (pos + 1) (acc + v % 128 * 2 ^ (7 * pos)) (v / 128) rest,
  )
]

pub read_loop-varint_u32 :
    (n : ℕ) (rest : List ℕ) → IsU32 n → read_loop new_decoder (varint_u32 n ++ rest) ≡ ok (n, rest)
unfolding varint_u32
read_loop-varint_u32 n rest h = ground (arith, read_loop-varint_loop 5 0 0 n rest)

pub read_loop-cons :
    (d : VarintDecoder) (val : ℕ) (bs : List ℕ)
    → let (d', r) = decode d val in read_loop d (val ∷ bs) ≡ after_decode r bs (read_loop d' bs)
unfolding read_loop
read_loop-cons d val bs = refl

pub read_loop-nil : (d : VarintDecoder) → read_loop d [] ≡ err unexpected_eof
unfolding read_loop
read_loop-nil d = refl

-- A completed value leaves the decoder as new.
pub decode_resets :
    (d : VarintDecoder) (val n : ℕ)
    → (decode d val).1 ≡ ok (some n)
    → (decode d val).0 ≡ new_decoder
unfolding decode
decode_resets d val n h = ground arith

module _ (order : ByteOrder) where
  -- `read_v32` gives back the number that `write_v32` wrote, in either encoding, and leaves what
  -- follows it.
  pub read_v32-write_v32 :
      (n : ℕ) (varint : Bool) (rest : List ℕ)
      → IsU32 n
      → read_v32 order varint (write_v32 order n varint ++ rest) ≡ ok (n, rest)
  unfolding read_v32 write_v32
  read_v32-write_v32 n false rest h = order.u32.read-write n rest (omega arith)
  read_v32-write_v32 n true rest h = read_loop-varint_u32 n rest h
