-- ===== src/Frame/Limit.antt =====
-- cfg.rs, `Cfg::max_frame_length`, against the frames that io_transport.rs carries.
use remoc.Base.{
  ℕ, ◌+◌, ◌*◌, ◌^◌, ◌≤◌, ◌<◌, ◌≡◌, ap, ◌∙◌, Bool, true, false, some, List, [], ◌∷◌, ◌++◌, length,
  length-append, arith, if◌then◌else◌, ltb,
}
use remoc.Varint.{write_v32}
use remoc.Varint.Bounds.{length-write_v32_fixed}
use remoc.Io.{invalid_data, ok, err}
use remoc.SidePort.{SidePort, number}
use remoc.Msg.Types.{External, ExchangedCfg, PortDataItem, hello}
use remoc.Msg.Flags
use remoc.Msg.Write
use remoc.Msg.Write.{write_msg, need_ids, need_port_flags, pre_connect_mode, some_items}
use remoc.Msg.Length.{length-hello}
use remoc.Frame.{new_codec, decode_header, encode_header, max_frame_length}
use remoc.Frame.Header.{decode_header_limit}

module _ {V : Type 0} (ext : External V) where
  -- Whatever configuration a peer announces, its hello is written, and an endpoint that has
  -- decoded the header of the hello's frame refuses the frame if its own chunk size is below 24,
  -- and accepts the frame otherwise.
  pub hello_frame_limit :
      (varint frame_varint : Bool) (version gc chunk_size max : ℕ) (cfg : ExchangedCfg V)
      (rest : List ℕ)
      → cfg.global_credits ≡ some gc
      → max_frame_length chunk_size ≡ some max
      → let c = new_codec max frame_varint in
        (bytes : List ℕ) × (write_msg ext varint (hello version cfg) ≡ some bytes)
        × (decode_header ext.order c (encode_header ext.order c (length bytes) ++ rest) ≡ record {
          codec = c;
          src = rest;
          result = if ltb chunk_size 24 then err invalid_data else ok (some (length bytes));
        })
  unfolding max_frame_length
  hello_frame_limit varint frame_varint version gc chunk_size max cfg rest e h =
      let (bytes, w, l) = length-hello ext varint version gc cfg e in
      (
        bytes,
        w,
        decode_header_limit ext.order max frame_varint (length bytes) rest (omega arith)
            ∙ ground arith,
      )

  -- The items of a list of ports, with an id each, in the fixed-width encoding.
  length-write_items :
      (flags : Bool) (ports : List PortDataItem)
      → 8 * length ports ≤ length (Write.write_items ext false true flags ports)
  unfolding Write.write_items Write.v32
  length-write_items flags [] = omega arith
  length-write_items flags (p ∷ ports) =
      let tail =
        if flags
        then Write.flag_if p.pre_connect Flags.msg_port_data_flag_port_flag_pre_connect 0 ∷ []
        else [] in
      omega (
        arith,
        length-append (write_v32 ext.order p.port false ++ (write_v32 ext.order p.id false ++ tail))
            (Write.write_items ext false true flags ports),
        length-append (write_v32 ext.order p.port false) (write_v32 ext.order p.id false ++ tail),
        length-append (write_v32 ext.order p.id false) tail,
        length-write_v32_fixed ext.order p.port,
        length-write_v32_fixed ext.order p.id,
        length-write_items flags ports,
      )

  length-port_data :
      (port : SidePort) (first last wait : Bool) (ports : List PortDataItem)
      → need_ids ports ≡ true
      → 8 * length ports + 6 ≤ length (Write.write_port_data ext false port first last wait ports)
  unfolding Write.write_port_data Write.v32
  length-port_data port first last wait ports ids = rw ids (
      omega (
        arith,
        length-append (write_v32 ext.order (number port) false),
        length-write_v32_fixed ext.order (number port),
        length-write_items (need_port_flags (pre_connect_mode ports)) ports,
      ))

  -- A list of ports of which one has an id that is not its number, in the fixed-width encoding:
  -- where eight bytes for each port exceed the receiver's chunk size by more than ten, the receiver
  -- refuses the frame, although four bytes for each port are within the chunk size.
  pub port_data_frame_refused :
      (frame_varint : Bool) (port : SidePort) (first last wait : Bool) (ports : List PortDataItem)
      (chunk_size max : ℕ) (rest : List ℕ)
      → need_ids ports ≡ true
      → 4 * length ports ≤ chunk_size
      → chunk_size + 10 < 8 * length ports
      → max_frame_length chunk_size ≡ some max
      → length (Write.write_port_data ext false port first last wait ports) < 2 ^ 32
      → let bytes = Write.write_port_data ext false port first last wait ports in
        let c = new_codec max frame_varint in
        (decode_header ext.order c (encode_header ext.order c (length bytes) ++ rest)).result
        ≡ err invalid_data
  unfolding max_frame_length
  port_data_frame_refused frame_varint port first last wait ports chunk_size max rest ids n over h
        fits =
      ap (λ d. d.result) (decode_header_limit ext.order max frame_varint _ rest fits)
      ∙ ground (arith, length-port_data port first last wait ports ids)
