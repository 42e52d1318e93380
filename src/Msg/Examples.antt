-- ===== src/Msg/Examples.antt =====
-- msg.rs on concrete messages, and its theorems at concrete inputs.
use remoc.Base.{ℕ, ◌≡◌, refl, true, false, some, List, [], ◌∷◌, ◌++◌, arith}
use remoc.Io.{ok}
use remoc.Msg.Sample.{external, default_cfg, default_cfg-IsValidCfg}
use remoc.SidePort.{local}
use remoc.Msg.Types.{MultiplexMsg, open_port, port_data}
use remoc.Msg.Cfg.{write_cfg, read_cfg}
use remoc.Msg.Cfg.RoundTrip.{received, read_cfg-write_cfg}
use remoc.Msg.Cfg.Peers.{Accepted, read_cfg-Accepted}
use remoc.Msg.Write.{write_msg}
use remoc.Msg.Read.{read_msg}
use remoc.Msg.RoundTrip.{read_msg-write_msg}
use remoc.Msg.Reads.{EndsIn}
use remoc.Msg.Bodies.{InRange}
use remoc.Msg.Total.{read_msg-InRange}
use remoc.Msg.Length.{write_msg-le-max_msg_length, LengthIn}
use remoc.Msg.Flags.{max_msg_length}

abbrev two_ports : MultiplexMsg (Unit {0})
two_ports = port_data (local 7) true false true (
    record { port = 300; id = 5; pre_connect = true }
    ∷ record { port = 9; id = 9; pre_connect = false }
    ∷ [])

read_cfg-write_cfg_example :
    (bytes : List ℕ) × (write_cfg external default_cfg ≡ some bytes)
    × (read_cfg external 4 (bytes ++ []) ≡ ok (received default_cfg 65_536, []))
read_cfg-write_cfg_example =
    read_cfg-write_cfg external default_cfg 4 65_536 [] default_cfg-IsValidCfg refl (omega arith)

read_cfg-Accepted_example : Accepted external (read_cfg external 3 (1 ∷ 2 ∷ 3 ∷ []))
read_cfg-Accepted_example = read_cfg-Accepted external 3 (1 ∷ 2 ∷ 3 ∷ [])

read_msg-write_msg_example :
    (bytes : List ℕ) × (write_msg external true two_ports ≡ some bytes)
    × (read_msg external true bytes ≡ ok (two_ports, []))
read_msg-write_msg_example = read_msg-write_msg external true two_ports (omega arith)

read_msg-InRange_example :
    EndsIn InRange (read_msg external true (8 ∷ 0x87 ∷ 1 ∷ 0 ∷ 3 ∷ 0x80 ∷ []))
read_msg-InRange_example =
    read_msg-InRange external true (8 ∷ 0x87 ∷ 1 ∷ 0 ∷ 3 ∷ 0x80 ∷ []) (omega arith)

write_msg-le-max_msg_length_example :
    LengthIn (write_msg external true (open_port 300 true (some 5) false)) max_msg_length
write_msg-le-max_msg_length_example =
    write_msg-le-max_msg_length external true (open_port 300 true (some 5) false) tt
