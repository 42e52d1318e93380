-- ===== src/Msg/Read.antt =====
-- msg.rs, `MultiplexMsg::read`.
use remoc.Base.{
  ℕ, zero, suc, ◌==◌, if◌then◌else◌, Bool, true, false, ◌&&◌, Option, none, some, List, [], ◌∷◌,
  length,
}
use remoc.Io.{
  unexpected_eof, invalid_data, ok, err, stuck, Reader, ◌>>=◌, pure, fail, read_u8,
  read_u8_or_default,
}
use remoc.Varint.{read_v32}
use remoc.SidePort.{SidePort, local, remote}
use remoc.Msg.Types.{
  External, DataCredits, port_only, global_only, global_and_port, PortDataItem, MultiplexMsg, reset,
  hello, ping, open_port, port_opened, rejected, data_msg, port_data, request_received_report,
  received_report, port_credits, inhibit_global_credit_usage_by_port,
  allow_global_credit_usage_by_port, send_finish, receive_close, receive_finish, global_credits,
  global_credits_report, client_finish, listener_finish, goodbye,
}
use remoc.Msg.Cfg.{read_cfg}
use remoc.Msg.Flags
use remoc.Msg.Flags.{has}

-- The six bytes of the magic identifier; `read_exact` fails on a shorter slice.
abbrev pub read_magic : Reader (Unit {0})
read_magic (a ∷ b ∷ c ∷ d ∷ e ∷ f ∷ rest) =
    if a == 67 && b == 72 && c == 77 && d == 85 && e == 88 && f == 0
    then ok (tt, rest)
    else err invalid_data
read_magic _ = err unexpected_eof

abbrev pub side_port : Bool → ℕ → SidePort
side_port at_local port = if at_local then local port else remote port

module _ {V : Type 0} (ext : External V) (varint : Bool) where
  unfoldable pub v32 : Reader ℕ
  v32 = read_v32 ext.order varint

  unfoldable pub read_hello : Reader (MultiplexMsg V)
  read_hello = do
    _ ← read_magic
    version ← read_u8
    cfg ← read_cfg ext version
    pure (hello version cfg)

  -- `Some(v32)` where the flag is set.
  abbrev pub read_id : Bool → Reader (Option ℕ)
  read_id true = v32 >>= λ id. pure (some id)
  read_id false = pure none

  unfoldable pub read_open_port : Reader (MultiplexMsg V)
  read_open_port = do
    client_port ← v32
    flags ← read_u8
    id ← read_id (has flags Flags.msg_open_port_flag_id)
    pure (
        open_port client_port (has flags Flags.msg_open_port_flag_wait) id
          (has flags Flags.msg_open_port_flag_pre_connect))

  unfoldable pub read_port_opened : Reader (MultiplexMsg V)
  read_port_opened = do
    client_port ← v32
    server_port ← v32
    flags ← read_u8_or_default
    pure (
        port_opened client_port (
          if has flags Flags.msg_port_opened_flag_server_port_remote
          then remote server_port
          else local server_port))

  abbrev pub read_credits : ℕ → Reader DataCredits
  read_credits flags =
      if has flags Flags.msg_data_flag_credits_global
      then pure global_only
      else if has flags Flags.msg_data_flag_credits_split
      then (v32 >>= λ n. pure (global_and_port n))
      else pure port_only

  unfoldable pub read_data : Reader (MultiplexMsg V)
  read_data = do
    port ← v32
    flags ← read_u8
    credits ← read_credits flags
    pure (
        data_msg (side_port (has flags Flags.msg_data_flag_port_local) port)
          (has flags Flags.msg_data_flag_first) (has flags Flags.msg_data_flag_last) credits)

  abbrev pub read_item_id : Bool → ℕ → Reader ℕ
  read_item_id true port = v32
  read_item_id false port = pure port

  abbrev pub read_item_pre_connect : Bool → Bool → Reader Bool
  read_item_pre_connect true pre_connect_all =
      read_u8 >>= λ flags. pure (has flags Flags.msg_port_data_flag_port_flag_pre_connect)
  read_item_pre_connect false pre_connect_all = pure pre_connect_all

  -- What follows the port number of an item.
  unfoldable pub read_item : ℕ → ℕ → Reader PortDataItem
  read_item flags port = do
    id ← read_item_id (has flags Flags.msg_port_data_flag_ids) port
    pre_connect ←
        read_item_pre_connect (has flags Flags.msg_port_data_flag_ports_flags)
          (has flags Flags.msg_port_data_flag_pre_connect_all)
    pure (record { port = port; id = id; pre_connect = pre_connect })

  -- The loop ends at the end of the slice; each round takes a byte, so the fuel is its length.
  unfoldable pub read_items : ℕ → ℕ → Reader (List PortDataItem)
  unfolding read_item
  read_items zero flags bs = stuck
  read_items (suc fuel) flags bs = elim (v32 bs) [
    | ok (port, rest) ↦
        (read_item flags port >>= λ item. read_items fuel flags >>= λ items. pure (item ∷ items))
          rest
    | err unexpected_eof ↦ ok ([], [])
    | err invalid_data ↦ err invalid_data
    | stuck ↦ stuck
  ]

  unfoldable pub read_port_data : Reader (MultiplexMsg V)
  unfolding read_items
  read_port_data = do
    port ← v32
    flags ← read_u8
    ports ← (λ bs. read_items (suc (length bs)) flags bs)
    pure (
        port_data (side_port (has flags Flags.msg_port_data_flag_port_local) port)
          (has flags Flags.msg_port_data_flag_first) (has flags Flags.msg_port_data_flag_last)
          (has flags Flags.msg_port_data_flag_wait) ports)

  unfoldable pub read_rejected : Reader (MultiplexMsg V)
  read_rejected = do
    client_port ← v32
    flags ← read_u8
    pure (rejected client_port (has flags Flags.msg_rejected_flag_no_ports))

  -- The messages that name a port, with its side in a flag byte that old peers leave out.
  unfoldable pub read_port_msg : (SidePort → MultiplexMsg V) → ℕ → Reader (MultiplexMsg V)
  read_port_msg message local_flag = do
    port ← v32
    flags ← read_u8_or_default
    pure (message (side_port (has flags local_flag) port))

  unfoldable pub read_port_credits : (ℕ → SidePort) → Reader (MultiplexMsg V)
  read_port_credits side = do port ← v32; credits ← v32; pure (port_credits (side port) credits)

  unfoldable pub read_port : (ℕ → MultiplexMsg V) → Reader (MultiplexMsg V)
  read_port message = v32 >>= λ port. pure (message port)

  unfoldable pub read_global_credits : Reader (MultiplexMsg V)
  read_global_credits = do
    credits ← v32
    seq ← read_u8
    pure (global_credits (record { credits = credits; seq = seq }))

  unfoldable pub read_global_credits_report : Reader (MultiplexMsg V)
  read_global_credits_report = do
    current ← v32
    least ← v32
    seq ← read_u8
    pure (global_credits_report (record { current = current; least = least; seq = seq }))

  -- The messages with a flag byte for the side of the port.
  unfoldable pub read_flagged : ℕ → Reader (MultiplexMsg V)
  unfolding read_port_msg
  read_flagged id =
      if id == Flags.msg_request_received_report
      then read_port_msg request_received_report Flags.msg_request_received_report_flag_port_local
      else if id == Flags.msg_received_report
      then read_port_msg received_report Flags.msg_received_report_flag_port_local
      else if id == Flags.msg_send_finish
      then read_port_msg send_finish Flags.msg_send_finish_flag_port_local
      else if id == Flags.msg_receive_close
      then read_port_msg receive_close Flags.msg_receive_close_flag_port_local
      else if id == Flags.msg_receive_finish
      then read_port_msg receive_finish Flags.msg_receive_finish_flag_port_local
      else fail invalid_data

  -- The messages that tell the side of the port by their number.
  unfoldable pub read_sided : ℕ → Reader (MultiplexMsg V)
  unfolding read_port_credits read_port read_flagged
  read_sided id =
      if id == Flags.msg_port_credits
      then read_port_credits remote
      else if id == Flags.msg_local_port_credits
      then read_port_credits local
      else if id == Flags.msg_inhibit_global_credit_usage_by_port
      then read_port (λ port. inhibit_global_credit_usage_by_port (remote port))
      else if id == Flags.msg_inhibit_global_credit_usage_by_local_port
      then read_port (λ port. inhibit_global_credit_usage_by_port (local port))
      else if id == Flags.msg_allow_global_credit_usage_by_port
      then read_port (λ port. allow_global_credit_usage_by_port (remote port))
      else if id == Flags.msg_allow_global_credit_usage_by_local_port
      then read_port (λ port. allow_global_credit_usage_by_port (local port))
      else read_flagged id

  -- The match on the message number, its arms in groups.
  unfoldable pub read_body : ℕ → Reader (MultiplexMsg V)
  unfolding read_hello read_open_port read_port_opened read_data read_port_data read_rejected
      read_global_credits read_global_credits_report read_sided
  read_body id =
      if id == Flags.msg_reset
      then pure reset
      else if id == Flags.msg_hello
      then read_hello
      else if id == Flags.msg_ping
      then pure ping
      else if id == Flags.msg_open_port
      then read_open_port
      else if id == Flags.msg_port_opened
      then read_port_opened
      else if id == Flags.msg_rejected
      then read_rejected
      else if id == Flags.msg_data
      then read_data
      else if id == Flags.msg_port_data
      then read_port_data
      else if id == Flags.msg_global_credits
      then read_global_credits
      else if id == Flags.msg_global_credits_report
      then read_global_credits_report
      else if id == Flags.msg_client_finish
      then pure client_finish
      else if id == Flags.msg_listener_finish
      then pure listener_finish
      else if id == Flags.msg_goodbye
      then pure goodbye
      else read_sided id

  unfoldable pub read_msg : Reader (MultiplexMsg V)
  unfolding read_body
  read_msg = read_u8 >>= read_body
