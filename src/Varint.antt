-- ===== src/Varint.antt =====
-- remoc/src/varint.rs: 32-bit integers in one to five bytes, seven bits a byte, lowest first.
pub mod Bounds
pub mod RoundTrip
pub mod Prefix
mod Examples
use remoc.Base.{
  ℕ, zero, suc, ◌+◌, ◌-◌, ◌*◌, ◌/◌, ◌%◌, ◌^◌, bit_and, bit_or, Bool, true, false, ◌&&◌, ltb, ◌==◌,
  if◌then◌else◌, Option, none, some, List, [], ◌∷◌,
}
use remoc.Io.{IoError, unexpected_eof, invalid_data, Result, ok, err, stuck, Reader, ByteOrder}

-- The largest number of bytes for an integer of `size` bytes.
abbrev pub varint_max : ℕ → ℕ
varint_max size = (size * 8 + (7 - 1)) / 7

-- The largest value of the last byte.
abbrev pub max_of_last_byte : ℕ → ℕ
max_of_last_byte size = 2 ^ (size * 8 % 7) - 1

-- The rounds left, and `value`. A byte is kept with its top bit set while bits remain.
pub varint_loop : ℕ → ℕ → List ℕ
varint_loop zero value = []
varint_loop (suc rounds) value =
    let byte = value % 256 in
    if ltb value 128 then byte ∷ [] else bit_or byte 0x80 ∷ varint_loop rounds (value / 128)

pub varint_u32 : ℕ → List ℕ
varint_u32 n = varint_loop (varint_max 4) n

pub record VarintDecoder : Type 0 where
  pub value : ℕ
  pub pos : ℕ

abbrev pub new_decoder : VarintDecoder
new_decoder = record { value = 0; pos = 0 }

pub is_empty : VarintDecoder → Bool
is_empty d = d.pos == 0

-- One byte; the decoder afterwards, and the value once it is complete.
unfoldable pub decode : VarintDecoder → ℕ → VarintDecoder × Result (Option ℕ)
decode d val =
    let carry = bit_and val 0x7f in
    let value = bit_or d.value (carry * 2 ^ (7 * d.pos) % 2 ^ 32) in
    if bit_and val 0x80 == 0
    then (if d.pos == (varint_max 4 - 1) && ltb (max_of_last_byte 4) val
        then (record d { value = value }, err invalid_data)
        else (record { value = 0; pos = 0 }, ok (some value)))
    else (if ltb (d.pos + 1) (varint_max 4)
        then (record { value = value; pos = d.pos + 1 }, ok none)
        else (record { value = value; pos = d.pos + 1 }, err invalid_data))

-- What the read loop does with the result of `decode`; `again` is the next round.
abbrev pub after_decode : Result (Option ℕ) → List ℕ → Result (ℕ × List ℕ) → Result (ℕ × List ℕ)
after_decode (ok (some n)) rest again = ok (n, rest)
after_decode (ok none) rest again = again
after_decode (err e) rest again = err e
after_decode stuck rest again = stuck

-- The loop reads a byte in each round, so it recurs on the slice.
pub read_loop : VarintDecoder → Reader ℕ
read_loop d [] = err unexpected_eof
read_loop d (val ∷ rest) =
    let (d', r) = decode d val in let again = read_loop d' rest in after_decode r rest again

module _ (order : ByteOrder) where
  -- The bytes that `write_v32` appends; the count that it returns is their number.
  unfoldable pub write_v32 : ℕ → Bool → List ℕ
  write_v32 n varint = if varint then varint_u32 n else order.u32.write n

  pub read_v32 : Bool → Reader ℕ
  read_v32 varint bs = if varint then read_loop new_decoder bs else order.u32.read bs
