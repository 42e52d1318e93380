-- ===== src/Io.antt =====
-- Reading from a byte slice through `std::io::Read`, writing to a byte vector, and the interface
-- to the crate `byteorder`, whose code is not in the repository.
pub mod LittleEndian
use remoc.Base.{
  Bool-cases, ltb, arith, ℕ, zero, suc, ◌≤◌, ◌<◌, ◌^◌, ◌≡◌, refl, List, [], ◌∷◌, ◌++◌, length, drop,
  append_assoc, ◌⊎◌, inl, inr, ◌≢◌,
}

-- The kinds of `io::Error` that reading from a slice and the decoders give.
pub data IoError : Type 0 where
  unexpected_eof invalid_data : IoError

-- `stuck` is no value of the source: a loop of the model ran out of fuel.
pub data Result {ℓ} (A : Type ℓ) : Type ℓ where
  ok : A → Result A
  err : IoError → Result A
  stuck : Result A

-- A read from a slice gives the value and the rest of the slice. After an error the source reads
-- nothing more from the slice, so no rest is kept.
abbrev pub Reader {ℓ} : Type ℓ → Type ℓ
Reader A = List ℕ → Result (A × List ℕ)

infixl 5 ◌>>=◌
unfoldable pub ◌>>=◌ {ℓ κ} : {A : Type ℓ} {B : Type κ} → Reader A → (A → Reader B) → Reader B
◌>>=◌ m f bs = elim (m bs) [ ok (a, rest) ↦ f a rest | err e ↦ err e | stuck ↦ stuck ]

unfoldable pub pure {ℓ} : {A : Type ℓ} → A → Reader A
pure a bs = ok (a, bs)

unfoldable pub fail {ℓ} : {A : Type ℓ} → IoError → Reader A
fail e bs = err e

-- A single byte: `read_exact` on a buffer of length one.
abbrev pub read_u8 : Reader ℕ
read_u8 [] = err unexpected_eof
read_u8 (b ∷ rest) = ok (b, rest)

-- `r.unwrap_or_default()` on the result of reading a byte; a failed read leaves the empty slice.
abbrev pub read_u8_or_default : Reader ℕ
read_u8_or_default [] = ok (0, [])
read_u8_or_default (b ∷ rest) = ok (b, rest)

abbrev pub IsByte : ℕ → Type 0
IsByte b = b < 256

abbrev pub IsU32 : ℕ → Type 0
IsU32 n = n < 2 ^ 32

-- What `byteorder` documents of an unsigned integer of `width` bytes: it writes `width` bytes,
-- reads back what it wrote, reads nothing past the integer, and gives the end-of-file error of
-- `read_exact` where fewer bytes are left. The value read is one of the integer type.
pub record FixedWidth (width : ℕ) : Type 0 where
  pub write : ℕ → List ℕ
  pub read : Reader ℕ
  pub length-write : (n : ℕ) → length (write n) ≡ width
  pub read-write : (n : ℕ) (rest : List ℕ) → n < 256 ^ width → read (write n ++ rest) ≡ ok (n, rest)
  pub read_short : (bs : List ℕ) → length bs < width → read bs ≡ err unexpected_eof
  pub read_enough :
      (bs : List ℕ)
      → width ≤ length bs
      → (n : ℕ) × (n < 256 ^ width) × (read bs ≡ ok (n, drop width bs))

-- `write_u16::<LE>` to `write_u64::<LE>` and their readers.
pub record ByteOrder : Type 0 where
  pub u16 : FixedWidth 2
  pub u32 : FixedWidth 4
  pub u64 : FixedWidth 8

-- An integer that was written before `xs`, in a buffer with `ys` behind it.
pub read-write-append :
    {width : ℕ} (f : FixedWidth width) (n : ℕ) (xs ys : List ℕ)
    → n < 256 ^ width
    → f.read ((f.write n ++ xs) ++ ys) ≡ ok (n, xs ++ ys)
read-write-append f n xs ys h = rw append_assoc (f.read-write n (xs ++ ys) h)

pub Result-cases {ℓ} :
    {A : Type ℓ} (r : Result A) → r ≢ stuck → ((a : A) × (r ≡ ok a)) ⊎ ((e : IoError) × (r ≡ err e))
Result-cases (ok a) h = inl (a, refl)
Result-cases (err e) h = inr (e, refl)
Result-cases stuck h = absurd (h refl)

-- A step of a reader whose result is known.
pub >>=_ok {ℓ κ} :
    {A : Type ℓ} {B : Type κ} (m : Reader A) (f : A → Reader B) {bs rest : List ℕ} {a : A}
    → m bs ≡ ok (a, rest)
    → (m >>= f) bs ≡ f a rest
unfolding ◌>>=◌
>>=_ok m f e = rw (e, ◌>>=◌)

pub >>=_err {ℓ κ} :
    {A : Type ℓ} {B : Type κ} (m : Reader A) (f : A → Reader B) {bs : List ℕ} {e : IoError}
    → m bs ≡ err e
    → (m >>= f) bs ≡ err e
unfolding ◌>>=◌
>>=_err m f e = rw (e, ◌>>=◌)

-- Reading an integer ends in one of two ways on every slice.
pub FixedWidth-cases :
    {width : ℕ} (f : FixedWidth width) (bs : List ℕ)
    → (f.read bs ≡ err unexpected_eof)
      ⊎ ((n : ℕ) × (n < 256 ^ width) × (f.read bs ≡ ok (n, drop width bs)))
FixedWidth-cases {width} f bs = elim (Bool-cases (ltb (length bs) width)) [
  | inl short ↦ inl (f.read_short bs (ground arith))
  | inr enough ↦ inr (f.read_enough bs (ground arith))
]
