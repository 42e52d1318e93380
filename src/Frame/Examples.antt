-- ===== src/Frame/Examples.antt =====
-- io_transport.rs: the theorems at concrete inputs.
use remoc.Base.{ℕ, ◌^◌, ◌<◌, ◌≡◌, refl, true, false, none, some, List, [], ◌∷◌, ◌++◌, length, arith}
use remoc.Io.{ok, err, invalid_data}
use remoc.Io.LittleEndian.{little_endian}
use remoc.SidePort.{local}
use remoc.Msg.Types.{PortDataItem, hello}
use remoc.Varint.{decode, write_v32}
use remoc.Msg.Write
use remoc.Msg.Write.{
  write_items, pre_connect_mode, pre_connect_count, write_msg, write_port_data, need_ids,
}
use remoc.Msg.Sample.{external, default_cfg}
use remoc.Frame.{LengthCodec, new_codec, decode_header, encode_header, max_frame_length}
use remoc.Frame.Limit.{hello_frame_limit, port_data_frame_refused}

abbrev codec : LengthCodec
codec = new_codec 1_000 true

first_byte : (decode_header little_endian codec (0xac ∷ [])).result ≡ ok none
unfolding decode_header decode
first_byte = refl

smallest_frame : max_frame_length 4 ≡ some 20
unfolding max_frame_length
smallest_frame = refl

hello_frame_limit_example :
    let c = new_codec 20 false in
    (bytes : List ℕ) × (write_msg external true (hello 4 default_cfg) ≡ some bytes)
    × (decode_header little_endian c (encode_header little_endian c (length bytes) ++ [])
        ≡ record { codec = c; src = []; result = err invalid_data })
hello_frame_limit_example =
    hello_frame_limit external true false 4 65_536 4 20 default_cfg [] refl smallest_frame

abbrev item : ℕ → PortDataItem
item port = record { port = port; id = 0; pre_connect = false }

abbrev eight_ports : List PortDataItem
eight_ports = item 1 ∷ item 2 ∷ item 3 ∷ item 4 ∷ item 5 ∷ item 6 ∷ item 7 ∷ item 8 ∷ []

eight_ids : need_ids eight_ports ≡ true
unfolding need_ids
eight_ids = refl

frame_of_48 : max_frame_length 32 ≡ some 48
unfolding max_frame_length
frame_of_48 = refl

eight_ports_fit :
    length (write_port_data external false (local 7) true true true eight_ports) < 2 ^ 32
unfolding write_port_data write_items Write.v32 write_v32 pre_connect_mode pre_connect_count
    need_ids
eight_ports_fit = omega arith

port_data_frame_refused_example :
    let bytes = write_port_data external false (local 7) true true true eight_ports in
    let c = new_codec 48 false in
    (decode_header little_endian c (encode_header little_endian c (length bytes) ++ [])).result
    ≡ err invalid_data
port_data_frame_refused_example =
    port_data_frame_refused external false (local 7) true true true eight_ports 32 48 [] eight_ids
      (omega arith) (omega arith) frame_of_48 eight_ports_fit
