-- ===== src/Msg/Length.antt =====
-- msg.rs: the lengths of messages against `MAX_MSG_LENGTH` and `Cfg::max_frame_length` of
-- remoc/src/chmux/cfg.rs.
use remoc.Base.{
  ℕ, ◌+◌, ◌≤◌, ◌≡◌, Bool, Option, none, some, List, ◌∷◌, ◌++◌, length, length-append, arith,
}
use remoc.Varint.Bounds.{length-write_v32}
use remoc.Msg.Types.{
  External, ExchangedCfg, port_only, global_only, global_and_port, MultiplexMsg, hello, open_port,
  data_msg, port_data,
}
use remoc.Msg.Flags
use remoc.Msg.Write
use remoc.Msg.Write.{write_msg}
use remoc.Msg.Cfg.RoundTrip.{length-write_cfg}

-- Neither a hello nor a list of ports.
abbrev pub IsShort : {V : Type 0} → MultiplexMsg V → Type 0
IsShort (hello version cfg) = ⊥
IsShort (port_data port first last wait ports) = ⊥
IsShort _ = Unit {0}

abbrev pub LengthIn : Option (List ℕ) → ℕ → Type 0
LengthIn none n = ⊥
LengthIn (some bytes) n = (1 ≤ length bytes) × (length bytes ≤ n)

module _ {V : Type 0} (ext : External V) (varint : Bool) where
  length-v32 : (n : ℕ) → length (Write.v32 ext varint n) ≤ 5
  unfolding Write.v32
  length-v32 n = (length-write_v32 ext.order n varint).1

  append_len : (n : ℕ) (xs : List ℕ) → length (Write.v32 ext varint n ++ xs) ≤ 5 + length xs
  append_len n xs = omega (arith, length-append (Write.v32 ext varint n) xs, length-v32 n)

  -- Every message but a hello and a list of ports is written, and takes at most `MAX_MSG_LENGTH`
  -- bytes.
  pub write_msg-le-max_msg_length :
      (m : MultiplexMsg V) → IsShort m → LengthIn (write_msg ext varint m) Flags.max_msg_length
  unfolding write_msg
  write_msg-le-max_msg_length (hello version cfg) h = absurd h
  write_msg-le-max_msg_length (port_data port first last wait ports) h = absurd h
  write_msg-le-max_msg_length (open_port client_port wait none pre_connect) h =
      (omega arith, omega (arith, append_len client_port))
  write_msg-le-max_msg_length (open_port client_port wait (some id) pre_connect) h =
      (omega arith, omega (arith, append_len client_port, length-v32 id))
  write_msg-le-max_msg_length (data_msg port first last port_only) h =
      (omega arith, omega (arith, append_len))
  write_msg-le-max_msg_length (data_msg port first last global_only) h =
      (omega arith, omega (arith, append_len))
  write_msg-le-max_msg_length (data_msg port first last (global_and_port n)) h =
      (omega arith, omega (arith, append_len, length-v32))
  write_msg-le-max_msg_length _ h = (omega arith, omega (arith, append_len, length-v32))

  -- A hello takes 40 bytes, in either integer encoding.
  pub length-hello :
      (version gc : ℕ) (cfg : ExchangedCfg V)
      → cfg.global_credits ≡ some gc
      → (bytes : List ℕ) × (write_msg ext varint (hello version cfg) ≡ some bytes)
        × (length bytes ≡ 40)
  unfolding write_msg
  length-hello version gc cfg e =
      let (bytes, w, l) = length-write_cfg ext cfg gc e in
      (Flags.msg_hello ∷ (Write.magic ++ (version ∷ bytes)), rw w, omega arith)
