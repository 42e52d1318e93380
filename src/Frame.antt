-- ===== src/Frame.antt =====
-- remoc/src/connect/io_transport.rs, `LengthCodec`: the length header before each frame, and the
-- limit on the length of a received frame from remoc/src/chmux/cfg.rs.
pub mod Header
pub mod Limit
mod Examples
use remoc.Base.{
  ℕ, ◌+◌, ◌%◌, ◌^◌, ltb, not, if◌then◌else◌, Bool, true, false, Option, none, some, List, [], ◌∷◌,
  length,
}
use remoc.Io.{IoError, invalid_data, Result, ok, err, stuck, ByteOrder}
use remoc.Varint.{VarintDecoder, decode, varint_u32, is_empty}
use remoc.Msg.Flags.{max_msg_length}

pub record LengthCodec : Type 0 where
  pub max_frame_len : ℕ
  pub varint : Bool
  pub varint_decoder : VarintDecoder

abbrev pub new_codec : ℕ → Bool → LengthCodec
new_codec max_frame_len varint = record {
  max_frame_len = max_frame_len;
  varint = varint;
  varint_decoder = record { value = 0; pos = 0 };
}

-- The codec and the source buffer after the call, and what it returns.
pub record Decoded : Type 0 where
  pub codec : LengthCodec
  pub src : List ℕ
  pub result : Result (Option ℕ)

-- The check of a complete length.
abbrev pub check_length : LengthCodec → List ℕ → ℕ → Decoded
check_length c src length' = record {
  codec = c;
  src = src;
  result = if ltb c.max_frame_len length' then err invalid_data else ok (some length');
}

abbrev pub after_byte : LengthCodec → List ℕ → Result (Option ℕ) → Decoded → Decoded
after_byte c src (ok (some n)) again = check_length c src n
after_byte c src (ok none) again = again
after_byte c src (err e) again = record { codec = c; src = src; result = err e }
after_byte c src stuck again = record { codec = c; src = src; result = stuck }

-- The loop over the bytes at hand; the varint decoder stays in the codec between calls.
pub decode_varint : LengthCodec → List ℕ → Decoded
decode_varint c [] = record { codec = c; src = []; result = ok none }
decode_varint c (b ∷ src) =
    let (d, r) = decode c.varint_decoder b in
    let c' = record c { varint_decoder = d } in
    let again = decode_varint c' src in after_byte c' src r again

abbrev pub after_u32 : LengthCodec → List ℕ → Result (ℕ × List ℕ) → Decoded
after_u32 c src (ok (n, rest)) = check_length c rest n
after_u32 c src (err e) = record { codec = c; src = src; result = err e }
after_u32 c src stuck = record { codec = c; src = src; result = stuck }

module _ (order : ByteOrder) where
  -- `get_u32_le` of the crate `bytes` reads as `read_u32::<LE>` does.
  pub decode_header : LengthCodec → List ℕ → Decoded
  unfolding decode_varint
  decode_header c src =
      if c.varint
      then decode_varint c src
      else if ltb (length src) 4
      then record { codec = c; src = src; result = ok none }
      else after_u32 c src (order.u32.read src)

  -- The header that is appended for a frame of `len` bytes; `len as u32` cuts to 32 bits.
  pub encode_header : LengthCodec → ℕ → List ℕ
  encode_header c len =
      let length' = len % 2 ^ 32 in if c.varint then varint_u32 length' else order.u32.write length'

-- Whether part of a header has been decoded.
pub has_partial_header : LengthCodec → Bool
has_partial_header c = not (is_empty c.varint_decoder)

-- `Cfg::max_frame_length`; `none` is the panic of `expect`.
pub max_frame_length : ℕ → Option ℕ
max_frame_length chunk_size =
    let sum = max_msg_length + chunk_size in if ltb sum (2 ^ 32) then some sum else none
