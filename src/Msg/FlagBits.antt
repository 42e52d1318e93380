-- ===== src/Msg/FlagBits.antt =====
-- msg.rs: each flag byte that is written gives back the flags that it was made of.
use remoc.Base.{ℕ, ◌≡◌, refl, Bool, true, false, Option, arith}
use remoc.SidePort.{SidePort, is_local}
use remoc.Msg.Types.{DataCredits}
use remoc.Msg.Flags
use remoc.Msg.Flags.{has}
use remoc.Msg.Write.{
  flag_if, is_some, open_port_flags, data_flags, PreConnect, port_data_flags, need_port_flags,
  is_all,
}

pub has-flag_if : (set : Bool) → has (flag_if set 1 0) 1 ≡ set
has-flag_if true = refl
has-flag_if false = refl

pub open_port_flags_bits :
    (wait : Bool) (id : Option ℕ) (pre_connect : Bool)
    → let flags = open_port_flags wait id pre_connect in
      (has flags Flags.msg_open_port_flag_wait ≡ wait)
      × (has flags Flags.msg_open_port_flag_id ≡ is_some id)
      × (has flags Flags.msg_open_port_flag_pre_connect ≡ pre_connect)
open_port_flags_bits wait id pre_connect = ground arith

pub data_flags_bits :
    (port : SidePort) (first last : Bool) (credits : DataCredits)
    → let flags = data_flags port first last credits in
      (has flags Flags.msg_data_flag_port_local ≡ is_local port)
      × (has flags Flags.msg_data_flag_first ≡ first)
      × (has flags Flags.msg_data_flag_last ≡ last)
data_flags_bits port first last credits = ground arith

pub port_data_flags_bits :
    (port : SidePort) (first last wait ids : Bool) (mode : PreConnect)
    → let flags = port_data_flags port first last wait ids mode in
      (has flags Flags.msg_port_data_flag_port_local ≡ is_local port)
      × (has flags Flags.msg_port_data_flag_first ≡ first)
      × (has flags Flags.msg_port_data_flag_last ≡ last)
      × (has flags Flags.msg_port_data_flag_wait ≡ wait)
      × (has flags Flags.msg_port_data_flag_ids ≡ ids)
      × (has flags Flags.msg_port_data_flag_ports_flags ≡ need_port_flags mode)
      × (has flags Flags.msg_port_data_flag_pre_connect_all ≡ is_all mode)
port_data_flags_bits port first last wait ids mode = ground arith
