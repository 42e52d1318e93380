-- ===== src/Io/LittleEndian.antt =====
-- An instance of the interface to `byteorder`: the little-endian digits of a number.
use remoc.Base.{
  ℕ, zero, suc, ◌+◌, ◌*◌, ◌/◌, ◌%◌, ◌^◌, ◌≤◌, ◌<◌, ◌≡◌, refl, List, [], ◌∷◌, ◌++◌, length, drop,
  arith,
}
use native.Mathlib.Nat.{pow-suc}
use remoc.Io.{unexpected_eof, ok, err, stuck, Reader, FixedWidth, ByteOrder}

abbrev pub digits_of : ℕ → ℕ → List ℕ
digits_of zero n = []
digits_of (suc width) n = n % 256 ∷ digits_of width (n / 256)

-- A byte of the slice, as the type of the source has it.
abbrev pub read_digits : ℕ → Reader ℕ
read_digits zero bs = ok (0, bs)
read_digits (suc width) [] = err unexpected_eof
read_digits (suc width) (b ∷ bs) = elim (read_digits width bs) [
  | ok (n, rest) ↦ ok (b % 256 + 256 * n, rest)
  | err e ↦ err e
  | stuck ↦ stuck
]

pub length-digits_of : (width n : ℕ) → length (digits_of width n) ≡ width
length-digits_of zero n = refl
length-digits_of (suc width) n = omega (arith, length-digits_of width (n / 256))

pub read_digits-digits_of :
    (width n : ℕ) (rest : List ℕ)
    → n < 256 ^ width
    → read_digits width (digits_of width n ++ rest) ≡ ok (n, rest)
read_digits-digits_of zero n rest h = ground arith
read_digits-digits_of (suc width) n rest h =
    ground (arith, pow-suc 256 width, read_digits-digits_of width (n / 256) rest)

pub read_digits_short :
    (width : ℕ) (bs : List ℕ) → length bs < width → read_digits width bs ≡ err unexpected_eof
read_digits_short zero bs h = absurd (omega arith)
read_digits_short (suc width) [] h = refl
read_digits_short (suc width) (b ∷ bs) h = rw (read_digits_short width bs (omega arith))

pub read_digits_enough :
    (width : ℕ) (bs : List ℕ)
    → width ≤ length bs
    → (n : ℕ) × (n < 256 ^ width) × (read_digits width bs ≡ ok (n, drop width bs))
read_digits_enough zero bs h = (0, omega arith, refl)
read_digits_enough (suc width) [] h = absurd (omega arith)
read_digits_enough (suc width) (b ∷ bs) h =
    let (n, small, e) = read_digits_enough width bs (omega arith) in
    (b % 256 + 256 * n, omega (arith, pow-suc 256 width), rw e)

abbrev fixed_width : (width : ℕ) → FixedWidth width
fixed_width width = record {
  write = digits_of width;
  read = read_digits width;
  length-write = length-digits_of width;
  read-write = read_digits-digits_of width;
  read_short = read_digits_short width;
  read_enough = read_digits_enough width;
}

abbrev pub little_endian : ByteOrder
little_endian = record { u16 = fixed_width 2; u32 = fixed_width 4; u64 = fixed_width 8 }
