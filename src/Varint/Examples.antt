-- ===== src/Varint/Examples.antt =====
-- varint.rs on concrete numbers, and its theorems at concrete inputs.
use remoc.Base.{◌≡◌, refl, true, [], ◌∷◌, ◌++◌, arith}
use remoc.Io.{ok, err, invalid_data}
use remoc.Io.LittleEndian.{little_endian}
use remoc.Varint.{varint_loop, varint_u32, decode, read_loop, write_v32, read_v32, new_decoder}
use remoc.Varint.RoundTrip.{read_v32-write_v32}

varint_300 : varint_u32 300 ≡ 0xac ∷ 0x02 ∷ []
unfolding varint_u32 varint_loop
varint_300 = refl

varint_largest : varint_u32 0xffff_ffff ≡ 0xff ∷ 0xff ∷ 0xff ∷ 0xff ∷ 0x0f ∷ []
unfolding varint_u32 varint_loop
varint_largest = refl

read_too_wide : read_loop new_decoder (0xff ∷ 0xff ∷ 0xff ∷ 0xff ∷ 0x10 ∷ []) ≡ err invalid_data
unfolding read_loop decode
read_too_wide = refl

read_v32-write_v32_example :
    read_v32 little_endian true (write_v32 little_endian 300 true ++ (9 ∷ [])) ≡ ok (300, 9 ∷ [])
read_v32-write_v32_example = read_v32-write_v32 little_endian 300 true (9 ∷ []) (omega arith)
