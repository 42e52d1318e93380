-- ===== src/Frame/Header.antt =====
-- io_transport.rs: headers written and read back, from pieces too, and frames that are refused.
use remoc.Base.{
  ℕ, ◌%◌, ◌^◌, ◌<◌, ◌≡◌, refl, ltb, if◌then◌else◌, Bool, true, false, none, some, List, [], ◌∷◌,
  ◌++◌, length-append, arith,
}
use remoc.Io.{invalid_data, ok, err, ByteOrder}
use remoc.Varint.{new_decoder, decode, read_loop, varint_u32}
use remoc.Varint.RoundTrip.{read_loop-varint_u32, read_loop-cons, read_loop-nil, decode_resets}
use remoc.Frame.{LengthCodec, check_length, decode_varint, decode_header, encode_header, new_codec}

-- A header that is not complete has used up the bytes at hand, and left the mode of the codec;
-- going on later is the same as one call on all bytes.
decode_varint-append :
    (front back : List ℕ) (c : LengthCodec)
    → (decode_varint c front).result ≡ ok none
    → let d = decode_varint c front in
      (decode_varint c (front ++ back) ≡ decode_varint d.codec back)
      × (d.src ≡ [])
      × (d.codec.varint ≡ c.varint)
unfolding decode_varint
decode_varint-append [] back c h = (refl, refl, refl)
decode_varint-append (b ∷ front) back c h = ground (
  arith,
  decode_varint-append front back (record c { varint_decoder = (decode c.varint_decoder b).0 }),
)

-- A whole header in the bytes at hand is read as `read_v32` reads it, and leaves a new decoder.
decode_varint-read_loop :
    (src rest : List ℕ) (c : LengthCodec) (n : ℕ)
    → read_loop c.varint_decoder src ≡ ok (n, rest)
    → decode_varint c src ≡ check_length (record c { varint_decoder = new_decoder }) rest n
unfolding decode_varint
decode_varint-read_loop [] rest c n h = cc (read_loop-nil c.varint_decoder)
decode_varint-read_loop (b ∷ src) rest c n h = ground (
  arith,
  read_loop-cons c.varint_decoder b src,
  decode_resets c.varint_decoder b n,
  decode_varint-read_loop src rest (record c { varint_decoder = (decode c.varint_decoder b).0 }) n,
)

cut-small : (len : ℕ) → len < 2 ^ 32 → len % 2 ^ 32 ≡ len
cut-small len h = omega arith

module _ (order : ByteOrder) where
  -- A codec between two frames takes the header of a frame off the buffer, in either encoding, and
  -- stays as it was; it refuses the frame if its length is above the limit, and gives the length if
  -- it is not.
  pub decode_header_limit :
      (max_frame_len : ℕ) (varint : Bool) (len : ℕ) (rest : List ℕ)
      → len < 2 ^ 32
      → let c = new_codec max_frame_len varint in
        decode_header order c (encode_header order c len ++ rest) ≡ record {
          codec = c;
          src = rest;
          result = if ltb max_frame_len len then err invalid_data else ok (some len);
        }
  unfolding decode_header encode_header
  decode_header_limit max_frame_len true len rest h = rw (cut-small len h) (
      decode_varint-read_loop (varint_u32 len ++ rest) rest (new_codec max_frame_len true) len
        (read_loop-varint_u32 len rest h))
  decode_header_limit max_frame_len false len rest h = ground (
    arith,
    cut-small len h,
    order.u32.read-write len rest,
    length-append (order.u32.write len) rest,
    order.u32.length-write len,
  )

  -- A variable-length header may arrive in pieces: when the bytes of the first piece do not
  -- complete it, the codec has taken them all, and going on with the second piece from the codec's
  -- new state gives what one call on both pieces gives.
  pub decode_header_resumes :
      (front back : List ℕ) (c : LengthCodec)
      → c.varint ≡ true
      → (decode_header order c front).result ≡ ok none
      → let d = decode_header order c front in
        (d.src ≡ []) × (decode_header order c (front ++ back) ≡ decode_header order d.codec back)
  unfolding decode_header
  decode_header_resumes front back c e h = ground (arith, decode_varint-append front back c)
