-- ===== src/Msg/Write.antt =====
-- msg.rs, `MultiplexMsg::write`. The result is the bytes written to the vector of `to_vec`; `none`
-- is a panic.
use mathlib.Core.Option
use remoc.Base.{
  ℕ, ◌+◌, ◌==◌, ◌!=◌, if◌then◌else◌, Bool, true, false, ◌||◌, bit_or, Option, none, some, List, [],
  ◌∷◌, ◌++◌, length,
}
use remoc.Varint.{write_v32}
use remoc.SidePort.{SidePort, local, remote, number, is_local, is_remote}
use remoc.Msg.Types.{
  External, DataCredits, port_only, global_only, global_and_port, PortDataItem, MultiplexMsg, reset,
  hello, ping, open_port, port_opened, rejected, data_msg, port_data, request_received_report,
  received_report, port_credits, inhibit_global_credit_usage_by_port,
  allow_global_credit_usage_by_port, send_finish, receive_close, receive_finish, global_credits,
  global_credits_report, client_finish, listener_finish, goodbye,
}
use remoc.Msg.Cfg.{write_cfg}
use remoc.Msg.Flags

-- The bytes of "CHMUX\0".
abbrev pub magic : List ℕ
magic = 67 ∷ 72 ∷ 77 ∷ 85 ∷ 88 ∷ 0 ∷ []

-- `if set { flags |= mask }`
abbrev pub flag_if : Bool → ℕ → ℕ → ℕ
flag_if set mask flags = if set then bit_or flags mask else flags

abbrev pub is_some {ℓ} : {A : Type ℓ} → Option A → Bool
is_some none = false
is_some (some a) = true

abbrev pub open_port_flags : Bool → Option ℕ → Bool → ℕ
open_port_flags wait id pre_connect = flag_if pre_connect Flags.msg_open_port_flag_pre_connect (
    flag_if (is_some id) Flags.msg_open_port_flag_id (flag_if wait Flags.msg_open_port_flag_wait 0))

abbrev pub credits_flags : DataCredits → ℕ → ℕ
credits_flags port_only flags = flags
credits_flags global_only flags = bit_or flags Flags.msg_data_flag_credits_global
credits_flags (global_and_port n) flags = bit_or flags Flags.msg_data_flag_credits_split

abbrev pub data_flags : SidePort → Bool → Bool → DataCredits → ℕ
data_flags port first last credits = flag_if (is_local port) Flags.msg_data_flag_port_local (
    credits_flags credits
      (flag_if last Flags.msg_data_flag_last (flag_if first Flags.msg_data_flag_first 0)))

-- `ports.iter().any(|port| port.port != port.id)`
unfoldable pub need_ids : List PortDataItem → Bool
need_ids [] = false
need_ids (p ∷ ports) = p.port != p.id || need_ids ports

-- `ports.iter().filter(|port| port.pre_connect).count()`
unfoldable pub pre_connect_count : List PortDataItem → ℕ
pre_connect_count [] = 0
pre_connect_count (p ∷ ports) = (if p.pre_connect then 1 else 0) + pre_connect_count ports

-- Which of the flags for pre-connected ports is set.
pub data PreConnect : Type 0 where
  no_items all_items some_items : PreConnect

unfoldable pub pre_connect_mode : List PortDataItem → PreConnect
pre_connect_mode ports =
    let count = pre_connect_count ports in
    if count == 0 then no_items else if count == length ports then all_items else some_items

abbrev pub mode_flags : PreConnect → ℕ → ℕ
mode_flags no_items flags = flags
mode_flags all_items flags = bit_or flags Flags.msg_port_data_flag_pre_connect_all
mode_flags some_items flags = bit_or flags Flags.msg_port_data_flag_ports_flags

abbrev pub need_port_flags : PreConnect → Bool
need_port_flags some_items = true
need_port_flags no_items = false
need_port_flags all_items = false

abbrev pub is_all : PreConnect → Bool
is_all all_items = true
is_all no_items = false
is_all some_items = false

abbrev pub port_data_flags : SidePort → Bool → Bool → Bool → Bool → PreConnect → ℕ
port_data_flags port first last wait ids mode =
    flag_if (is_local port) Flags.msg_port_data_flag_port_local (
      mode_flags mode (
        flag_if ids Flags.msg_port_data_flag_ids (
          flag_if wait Flags.msg_port_data_flag_wait (
            flag_if last Flags.msg_port_data_flag_last
              (flag_if first Flags.msg_port_data_flag_first 0)))))

abbrev pub by_side : SidePort → ℕ → ℕ → ℕ
by_side (remote port) at_remote at_local = at_remote
by_side (local port) at_remote at_local = at_local

module _ {V : Type 0} (ext : External V) (varint : Bool) where
  unfoldable pub v32 : ℕ → List ℕ
  v32 n = write_v32 ext.order n varint

  unfoldable pub write_open_port : ℕ → Bool → Option ℕ → Bool → List ℕ
  write_open_port client_port wait id pre_connect =
      Flags.msg_open_port
      ∷ (v32 client_port
          ++ (open_port_flags wait id pre_connect ∷ Option.get_or (Option.map v32 id) []))

  unfoldable pub write_port_opened : ℕ → SidePort → List ℕ
  write_port_opened client_port server_port =
      Flags.msg_port_opened
      ∷ (v32 client_port
          ++ (v32 (number server_port)
              ++ (flag_if (is_remote server_port) Flags.msg_port_opened_flag_server_port_remote 0
                  ∷ [])))

  unfoldable pub write_data : SidePort → Bool → Bool → DataCredits → List ℕ
  write_data port first last credits =
      Flags.msg_data
      ∷ (v32 (number port)
          ++ (data_flags port first last credits
              ∷ elim credits [ port_only ↦ [] | global_only ↦ [] | global_and_port n ↦ v32 n ]))

  unfoldable pub write_item : Bool → Bool → PortDataItem → List ℕ
  write_item ids flags p =
      v32 p.port
      ++ ((if ids then v32 p.id else [])
          ++ (if flags
              then flag_if p.pre_connect Flags.msg_port_data_flag_port_flag_pre_connect 0 ∷ []
              else []))

  unfoldable pub write_items : Bool → Bool → List PortDataItem → List ℕ
  unfolding write_item
  write_items ids flags [] = []
  write_items ids flags (p ∷ ports) = write_item ids flags p ++ write_items ids flags ports

  unfoldable pub write_port_data : SidePort → Bool → Bool → Bool → List PortDataItem → List ℕ
  write_port_data port first last wait ports =
      let ids = need_ids ports in
      let mode = pre_connect_mode ports in
      Flags.msg_port_data
      ∷ (v32 (number port)
          ++ (port_data_flags port first last wait ids mode
              ∷ write_items ids (need_port_flags mode) ports))

  -- The messages that name a port and tell its side by a flag byte.
  unfoldable pub write_port_msg : ℕ → ℕ → SidePort → List ℕ
  write_port_msg id local_flag port =
      id ∷ (v32 (number port) ++ (flag_if (is_local port) local_flag 0 ∷ []))

  unfoldable pub write_msg : MultiplexMsg V → Option (List ℕ)
  unfolding write_open_port write_port_opened write_data write_port_data write_port_msg
  write_msg reset = some (Flags.msg_reset ∷ [])
  write_msg (hello version cfg) =
      Option.map (λ bytes. Flags.msg_hello ∷ (magic ++ (version ∷ bytes))) (write_cfg ext cfg)
  write_msg ping = some (Flags.msg_ping ∷ [])
  write_msg (open_port client_port wait id pre_connect) =
      some (write_open_port client_port wait id pre_connect)
  write_msg (port_opened client_port server_port) = some (write_port_opened client_port server_port)
  write_msg (rejected client_port no_ports) = some (
      Flags.msg_rejected
      ∷ (v32 client_port ++ ((if no_ports then Flags.msg_rejected_flag_no_ports else 0) ∷ [])))
  write_msg (data_msg port first last credits) = some (write_data port first last credits)
  write_msg (port_data port first last wait ports) =
      some (write_port_data port first last wait ports)
  write_msg (request_received_report port) = some (
      write_port_msg Flags.msg_request_received_report
        Flags.msg_request_received_report_flag_port_local port)
  write_msg (received_report port) =
      some (write_port_msg Flags.msg_received_report Flags.msg_received_report_flag_port_local port)
  write_msg (port_credits port credits) = some (
      by_side port Flags.msg_port_credits Flags.msg_local_port_credits
      ∷ (v32 (number port) ++ v32 credits))
  write_msg (inhibit_global_credit_usage_by_port port) = some (
      by_side port Flags.msg_inhibit_global_credit_usage_by_port
        Flags.msg_inhibit_global_credit_usage_by_local_port
      ∷ v32 (number port))
  write_msg (allow_global_credit_usage_by_port port) = some (
      by_side port Flags.msg_allow_global_credit_usage_by_port
        Flags.msg_allow_global_credit_usage_by_local_port
      ∷ v32 (number port))
  write_msg (send_finish port) =
      some (write_port_msg Flags.msg_send_finish Flags.msg_send_finish_flag_port_local port)
  write_msg (receive_close port) =
      some (write_port_msg Flags.msg_receive_close Flags.msg_receive_close_flag_port_local port)
  write_msg (receive_finish port) =
      some (write_port_msg Flags.msg_receive_finish Flags.msg_receive_finish_flag_port_local port)
  write_msg (global_credits c) = some (Flags.msg_global_credits ∷ (v32 c.credits ++ (c.seq ∷ [])))
  write_msg (global_credits_report r) =
      some (Flags.msg_global_credits_report ∷ (v32 r.current ++ (v32 r.least ++ (r.seq ∷ []))))
  write_msg client_finish = some (Flags.msg_client_finish ∷ [])
  write_msg listener_finish = some (Flags.msg_listener_finish ∷ [])
  write_msg goodbye = some (Flags.msg_goodbye ∷ [])
