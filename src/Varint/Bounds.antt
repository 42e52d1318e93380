-- ===== src/Varint/Bounds.antt =====
-- varint.rs on any input: how many bytes are written and read, and which values come out.
use remoc.Base.{
  ℕ, zero, suc, ◌+◌, ◌*◌, ◌/◌, ◌%◌, ◌^◌, ◌≤◌, ◌<◌, ◌≡◌, Bool, true, false, none, some, List, [],
  ◌∷◌, length, All, length-drop, All-drop, arith, Bool-cases, ltb, if◌then◌else◌, inl, inr, Option,
}
use mathlib.Core.Path.{subst}
use remoc.Base.Bits.{bit_or-shifted, byte_low, byte_top, byte_set_top}
use remoc.Io.{ok, err, stuck, unexpected_eof, invalid_data, Result, IsU32, IsByte, ByteOrder}
use remoc.Varint.{
  VarintDecoder, new_decoder, varint_loop, varint_u32, decode, after_decode, read_loop, write_v32,
  read_v32,
}

-- The bits below position `7 * pos` are all that a decoder at `pos` holds.
abbrev pub Partial : VarintDecoder → Type 0
Partial d = (d.pos < 5) × (d.value < 2 ^ (7 * d.pos))

new-Partial : Partial new_decoder
new-Partial = omega arith

abbrev pub Decoded : ℕ → VarintDecoder → Result (Option ℕ) → Type 0
Decoded pos d (ok (some n)) = IsU32 n × (d.pos ≡ 0) × (d.value ≡ 0)
Decoded pos d (ok none) = (d.pos ≡ pos + 1) × Partial d
Decoded pos d (err e) = (e ≡ invalid_data) × (pos ≡ 4)
Decoded pos d stuck = ⊥

-- On every byte the decoder gives a 32-bit value and is empty again, or moves on by one position,
-- or refuses the byte, and that only at the fifth.
pub decode_cases :
    (pos value val : ℕ)
    → pos < 5
    → value < 2 ^ (7 * pos)
    → IsByte val
    → let (d', r) = decode (record { value = value; pos = pos }) val in Decoded pos d' r
unfolding decode
decode_cases zero value val hp hv hb =
    ground (arith, byte_low val, byte_top val, bit_or-shifted 0 (val % 128) value)
decode_cases (suc zero) value val hp hv hb =
    ground (arith, byte_low val, byte_top val, bit_or-shifted 7 (val % 128) value)
decode_cases (suc (suc zero)) value val hp hv hb =
    ground (arith, byte_low val, byte_top val, bit_or-shifted 14 (val % 128) value)
decode_cases (suc (suc (suc zero))) value val hp hv hb =
    ground (arith, byte_low val, byte_top val, bit_or-shifted 21 (val % 128) value)
decode_cases (suc (suc (suc (suc zero)))) value val hp hv hb =
    ground (arith, byte_low val, byte_top val, bit_or-shifted 28 (val % 128 % 16) value)
decode_cases (suc (suc (suc (suc (suc pos))))) value val hp hv hb = absurd (omega arith)

-- What a read at position `pos` comes to: a 32-bit value after at most five bytes in all, the end
-- of the input before the fifth byte, or a refused fifth byte.
abbrev pub Outcome : ℕ → List ℕ → Result (ℕ × List ℕ) → Type 0
Outcome pos bs (ok (n, rest)) =
    IsU32 n × (length rest < length bs) × (length bs + pos ≤ length rest + 5) × All IsByte rest
Outcome pos bs (err unexpected_eof) = length bs + pos < 5
Outcome pos bs (err invalid_data) = 5 ≤ length bs + pos
Outcome pos bs stuck = ⊥

Outcome-cons :
    (pos val : ℕ) (bs : List ℕ) (r : Result (ℕ × List ℕ))
    → Outcome (pos + 1) bs r
    → Outcome pos (val ∷ bs) r
Outcome-cons pos val bs (ok (n, rest)) h = (h.0, omega arith, omega arith, h.3)
Outcome-cons pos val bs (err unexpected_eof) h = omega arith
Outcome-cons pos val bs (err invalid_data) h = omega arith
Outcome-cons pos val bs stuck h = h

after_decode-Outcome :
    (pos val : ℕ) (rest : List ℕ) (p : VarintDecoder × Result (Option ℕ))
    → pos < 5
    → All IsByte rest
    → Decoded pos p.0 p.1
    → (Partial p.0 → Outcome p.0.pos rest (read_loop p.0 rest))
    → Outcome pos (val ∷ rest) (after_decode p.1 rest (read_loop p.0 rest))
after_decode-Outcome pos val rest (d, ok (some n)) hp hb h ih = (h.0, omega arith, omega arith, hb)
after_decode-Outcome pos val rest (d, ok none) hp hb h ih =
    Outcome-cons pos val rest _ (subst (λ k. Outcome k rest (read_loop d rest)) h.0 (ih h.1))
after_decode-Outcome pos val rest (d, err unexpected_eof) hp hb h ih = cc (h.0)
after_decode-Outcome pos val rest (d, err invalid_data) hp hb h ih = omega arith
after_decode-Outcome pos val rest (d, stuck) hp hb h ih = h

read_loop-Outcome :
    (bs : List ℕ) (d : VarintDecoder)
    → Partial d
    → All IsByte bs
    → Outcome d.pos bs (read_loop d bs)
unfolding read_loop
read_loop-Outcome [] d h hb = omega arith
read_loop-Outcome (val ∷ rest) d h hb =
    after_decode-Outcome d.pos val rest (decode d val) h.0 hb.1
      (decode_cases d.pos d.value val h.0 h.1 hb.0)
      (λ q. read_loop-Outcome rest (decode d val).0 q hb.1)

module _ (order : ByteOrder) where
  -- A read in either encoding: on any bytes it gives a 32-bit value and takes one to five bytes, or
  -- reports the end of a slice of fewer than five bytes, or refuses bytes of which there are five
  -- at least. There is no other case.
  pub read_v32-Outcome :
      (varint : Bool) (bs : List ℕ) → All IsByte bs → Outcome 0 bs (read_v32 order varint bs)
  unfolding read_v32
  read_v32-Outcome true bs h = read_loop-Outcome bs new_decoder new-Partial h
  read_v32-Outcome false bs h = elim (Bool-cases (ltb (length bs) 4)) [
    | inl short ↦ rw (order.u32.read_short bs (ground arith)) (ground arith)
    | inr enough ↦
        let (n, small, e) = order.u32.read_enough bs (ground arith) in
        rw e (
          omega arith,
          ground (arith, length-drop 4 bs),
          omega (arith, length-drop 4 bs),
          All-drop IsByte 4 bs h,
        )
  ]

-- The bytes that a number needs: one for every started group of seven bits.
abbrev pub varint_size : ℕ → ℕ
varint_size n =
    if ltb n (2 ^ 7)
    then 1
    else if ltb n (2 ^ 14)
    then 2
    else if ltb n (2 ^ 21)
    then 3
    else if ltb n (2 ^ 28)
    then 4
    else 5

varint_loop-IsByte : (rounds v : ℕ) → All IsByte (varint_loop rounds v)
unfolding varint_loop
varint_loop-IsByte zero v = tt
varint_loop-IsByte (suc rounds) v =
    ground (arith, byte_set_top (v % 256), varint_loop-IsByte rounds (v / 128))

-- `varint_u32` writes bytes, and no more of them than the number needs.
pub varint_u32_shape :
    (n : ℕ) → IsU32 n → All IsByte (varint_u32 n) × (length (varint_u32 n) ≡ varint_size n)
unfolding varint_u32
varint_u32_shape n h = (varint_loop-IsByte 5 n, unfold varint_loop in ground arith)

pub length-write_v32 :
    (order : ByteOrder) (n : ℕ) (varint : Bool)
    → (1 ≤ length (write_v32 order n varint)) × (length (write_v32 order n varint) ≤ 5)
unfolding write_v32
length-write_v32 order n false = omega (arith, order.u32.length-write n)
length-write_v32 order n true = unfold varint_u32 varint_loop in ground arith

pub length-write_v32_fixed : (order : ByteOrder) (n : ℕ) → length (write_v32 order n false) ≡ 4
unfolding write_v32
length-write_v32_fixed order n = order.u32.length-write n
