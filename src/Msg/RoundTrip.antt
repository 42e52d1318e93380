-- ===== src/Msg/RoundTrip.antt =====
-- msg.rs: `MultiplexMsg::read` after `MultiplexMsg::write`, for every message.
use remoc.Base.{
  ℕ, suc, ◌≡◌, refl, ◌∙◌, ap, Bool, Option, none, some, List, [], ◌∷◌, ◌++◌, append-nil, All,
  length, arith,
}
use remoc.Io.{ok, ◌>>=◌, pure, >>=_ok, IsU32}
use remoc.SidePort.{SidePort, local, remote, number, is_local}
use remoc.Msg.Types.{
  External, ExchangedCfg, DataCredits, port_only, global_only, global_and_port, PortDataItem,
  MultiplexMsg, reset, hello, ping, open_port, port_opened, rejected, data_msg, port_data,
  request_received_report, received_report, port_credits, inhibit_global_credit_usage_by_port,
  allow_global_credit_usage_by_port, send_finish, receive_close, receive_finish, global_credits,
  global_credits_report, client_finish, listener_finish, goodbye,
}
use remoc.Msg.Cfg.{read_cfg}
use remoc.Msg.Cfg.RoundTrip.{IsValidCfg, received, read_cfg-write_cfg}
use remoc.Msg.Flags
use remoc.Msg.Flags.{has}
use remoc.Msg.Write
use remoc.Msg.Write.{
  flag_if, open_port_flags, data_flags, port_data_flags, need_ids, pre_connect_mode, write_msg,
}
use remoc.Msg.Read
use remoc.Msg.Read.{read_magic, side_port, read_id, read_credits, read_items, read_msg}
use remoc.Msg.FlagBits.{data_flags_bits, port_data_flags_bits}
use remoc.Msg.PortData.{IsValidItem, v32_ok, read_items-write_items, ids-IdFits, mode-Suits}

-- The ranges of the source's types, and for a configuration what its reader demands.
abbrev pub IsValidMsg : {V : Type 0} → MultiplexMsg V → Type 0
IsValidMsg (hello version cfg) =
    IsValidCfg cfg × ((gc : ℕ) × (cfg.global_credits ≡ some gc) × IsU32 gc)
IsValidMsg (open_port client_port wait none pre_connect) = IsU32 client_port
IsValidMsg (open_port client_port wait (some id) pre_connect) = IsU32 client_port × IsU32 id
IsValidMsg (port_opened client_port port) = IsU32 client_port × IsU32 (number port)
IsValidMsg (rejected client_port no_ports) = IsU32 client_port
IsValidMsg (data_msg port first last (global_and_port n)) = IsU32 (number port) × IsU32 n
IsValidMsg (data_msg port first last port_only) = IsU32 (number port)
IsValidMsg (data_msg port first last global_only) = IsU32 (number port)
IsValidMsg (port_data port first last wait ports) = IsU32 (number port) × All IsValidItem ports
IsValidMsg (request_received_report port) = IsU32 (number port)
IsValidMsg (received_report port) = IsU32 (number port)
IsValidMsg (port_credits port credits) = IsU32 (number port) × IsU32 credits
IsValidMsg (inhibit_global_credit_usage_by_port port) = IsU32 (number port)
IsValidMsg (allow_global_credit_usage_by_port port) = IsU32 (number port)
IsValidMsg (send_finish port) = IsU32 (number port)
IsValidMsg (receive_close port) = IsU32 (number port)
IsValidMsg (receive_finish port) = IsU32 (number port)
IsValidMsg (global_credits c) = IsU32 c.credits
IsValidMsg (global_credits_report r) = IsU32 r.current × IsU32 r.least
IsValidMsg _ = Unit {0}

-- What arrives: the message itself, but for the configuration in a hello.
abbrev pub received_cfg : {V : Type 0} → ExchangedCfg V → ExchangedCfg V
received_cfg cfg = elim cfg.global_credits [ none ↦ cfg | some gc ↦ received cfg gc ]

abbrev pub delivered : {V : Type 0} → MultiplexMsg V → MultiplexMsg V
delivered (hello version cfg) = hello version (received_cfg cfg)
delivered m = m

side_port-flag :
    (port : SidePort) → side_port (has (flag_if (is_local port) 1 0) 1) (number port) ≡ port
side_port-flag (local port) = refl
side_port-flag (remote port) = refl

side_port-is_local : (port : SidePort) → side_port (is_local port) (number port) ≡ port
side_port-is_local (local port) = refl
side_port-is_local (remote port) = refl

module _ {V : Type 0} (ext : External V) (varint : Bool) where
  v32_end : (n : ℕ) → IsU32 n → Read.v32 ext varint (Write.v32 ext varint n) ≡ ok (n, [])
  v32_end n h = rw append-nil at (v32_ok ext varint n [] h)

  read_port_msg_ok :
      (message : SidePort → MultiplexMsg V) (port : SidePort)
      → IsU32 (number port)
      → Read.read_port_msg ext varint message 1
          (Write.v32 ext varint (number port) ++ (flag_if (is_local port) 1 0 ∷ []))
        ≡ ok (message port, [])
  unfolding Read.read_port_msg ◌>>=◌ pure
  read_port_msg_ok message port h =
      >>=_ok (Read.v32 ext varint) _ (v32_ok ext varint (number port) _ h)
      ∙ rw (side_port-flag port) refl

  credits_ok :
      (port : SidePort) (first last : Bool) (credits : DataCredits)
      → IsValidMsg {V = V} (data_msg port first last credits)
      → read_credits ext varint (data_flags port first last credits) (elim credits [
        | port_only ↦ []
        | global_only ↦ []
        | global_and_port n ↦ Write.v32 ext varint n
      ])
        ≡ ok (credits, [])
  unfolding ◌>>=◌ pure
  credits_ok port first last port_only h = ground arith
  credits_ok port first last global_only h = ground arith
  credits_ok port first last (global_and_port n) h = ground (arith, v32_end n h.1)

  read_data_ok :
      (port : SidePort) (first last : Bool) (credits : DataCredits)
      → IsU32 (number port)
      → IsValidMsg {V = V} (data_msg port first last credits)
      → read_msg ext varint (Write.write_data ext varint port first last credits)
        ≡ ok (data_msg port first last credits, [])
  unfolding read_msg Write.write_data ◌>>=◌ pure
  read_data_ok port first last credits hp h =
      let (e1, e2, e3) = data_flags_bits port first last credits in
      >>=_ok (Read.v32 ext varint) _ (v32_ok ext varint (number port) _ hp)
      ∙ >>=_ok (read_credits ext varint (data_flags port first last credits)) _
          (credits_ok port first last credits h)
      ∙ ap (λ m. ok (m, [])) (ground (arith, e1, e2, e3, side_port-is_local port))

  read_open_port_ok :
      (client_port : ℕ) (wait : Bool) (id : Option ℕ) (pre_connect : Bool)
      → IsU32 client_port
      → IsValidMsg {V = V} (open_port client_port wait id pre_connect)
      → read_msg ext varint (Write.write_open_port ext varint client_port wait id pre_connect)
        ≡ ok (open_port client_port wait id pre_connect, [])
  unfolding read_msg Write.write_open_port ◌>>=◌ pure
  read_open_port_ok client_port wait none pre_connect hp h =
      >>=_ok (Read.v32 ext varint) _ (v32_ok ext varint client_port _ hp) ∙ ground arith
  read_open_port_ok client_port wait (some id) pre_connect hp h =
      >>=_ok (Read.v32 ext varint) _ (v32_ok ext varint client_port _ hp)
      ∙ ground (arith, v32_end id h.1)

  read_port_opened_ok :
      (client_port : ℕ) (port : SidePort)
      → IsU32 client_port
      → IsU32 (number port)
      → read_msg ext varint (Write.write_port_opened ext varint client_port port)
        ≡ ok (port_opened client_port port, [])
  unfolding read_msg Write.write_port_opened ◌>>=◌ pure
  read_port_opened_ok client_port port hc hp =
      >>=_ok (Read.v32 ext varint) _ (v32_ok ext varint client_port _ hc)
      ∙ >>=_ok (Read.v32 ext varint) _ (v32_ok ext varint (number port) _ hp)
      ∙ ground arith

  read_port_data_ok :
      (port : SidePort) (first last wait : Bool) (ports : List PortDataItem)
      → IsU32 (number port)
      → All IsValidItem ports
      → read_msg ext varint (Write.write_port_data ext varint port first last wait ports)
        ≡ ok (port_data port first last wait ports, [])
  unfolding read_msg Write.write_port_data ◌>>=◌ pure
  read_port_data_ok port first last wait ports hp h =
      let ids = need_ids ports in
      let mode = pre_connect_mode ports in
      let flags = port_data_flags port first last wait ids mode in
      let (e1, e2, e3, e4, e5, e6, e7) = port_data_flags_bits port first last wait ids mode in
      >>=_ok (Read.v32 ext varint) _ (v32_ok ext varint (number port) _ hp)
      ∙ >>=_ok (λ bs. read_items ext varint (suc (length bs)) flags bs) _
          (read_items-write_items ext varint
            (suc (length (Write.write_items ext varint ids (Write.need_port_flags mode) ports)))
            flags ids mode ports (e5, e6, e7) h (ids-IdFits ports) (mode-Suits ports) (omega arith))
      ∙ ap (λ m. ok (m, [])) (ground (arith, e1, e2, e3, e4, side_port-is_local port))

  read_hello_ok :
      (version : ℕ) (cfg : ExchangedCfg V)
      → IsValidMsg (hello version cfg)
      → (bytes : List ℕ) × (write_msg ext varint (hello version cfg) ≡ some bytes)
        × (read_msg ext varint bytes ≡ ok (delivered (hello version cfg), []))
  unfolding read_msg write_msg ◌>>=◌ pure
  read_hello_ok version cfg (v, (gc, e, h)) =
      let (bytes, w, r) = read_cfg-write_cfg ext cfg version gc [] v e h in
      (
        Flags.msg_hello ∷ (Write.magic ++ (version ∷ bytes)),
        rw w,
        >>=_ok (read_cfg ext version) _ (rw append-nil at r) ∙ rw e,
      )

  -- Every valid message, written in either integer encoding, is written without a panic and read
  -- back as itself with nothing left; the configuration in a hello arrives with its timeout in
  -- whole milliseconds, and with no global credits where they are not enabled.
  pub read_msg-write_msg :
      (m : MultiplexMsg V)
      → IsValidMsg m
      → (bytes : List ℕ) × (write_msg ext varint m ≡ some bytes)
        × (read_msg ext varint bytes ≡ ok (delivered m, []))
  unfolding read_msg write_msg ◌>>=◌ pure
  read_msg-write_msg reset h = (_, refl, refl)
  read_msg-write_msg (hello version cfg) h = read_hello_ok version cfg h
  read_msg-write_msg ping h = (_, refl, refl)
  read_msg-write_msg (open_port client_port wait none pre_connect) h =
      (_, refl, read_open_port_ok client_port wait none pre_connect h h)
  read_msg-write_msg (open_port client_port wait (some id) pre_connect) h =
      (_, refl, read_open_port_ok client_port wait (some id) pre_connect h.0 h)
  read_msg-write_msg (port_opened client_port port) h =
      (_, refl, read_port_opened_ok client_port port h.0 h.1)
  read_msg-write_msg (rejected client_port no_ports) h =
      (_, refl, >>=_ok (Read.v32 ext varint) _ (v32_ok ext varint client_port _ h) ∙ ground arith)
  read_msg-write_msg (data_msg port first last port_only) h =
      (_, refl, read_data_ok port first last port_only h h)
  read_msg-write_msg (data_msg port first last global_only) h =
      (_, refl, read_data_ok port first last global_only h h)
  read_msg-write_msg (data_msg port first last (global_and_port n)) h =
      (_, refl, read_data_ok port first last (global_and_port n) h.0 h)
  read_msg-write_msg (port_data port first last wait ports) h =
      (_, refl, read_port_data_ok port first last wait ports h.0 h.1)
  read_msg-write_msg (request_received_report port) h =
      (_, refl, read_port_msg_ok request_received_report port h)
  read_msg-write_msg (received_report port) h = (_, refl, read_port_msg_ok received_report port h)
  read_msg-write_msg (port_credits (local port) credits) h = (
    _,
    refl,
    >>=_ok (Read.v32 ext varint) _ (v32_ok ext varint port _ h.0)
        ∙ >>=_ok (Read.v32 ext varint) _ (v32_end credits h.1),
  )
  read_msg-write_msg (port_credits (remote port) credits) h = (
    _,
    refl,
    >>=_ok (Read.v32 ext varint) _ (v32_ok ext varint port _ h.0)
        ∙ >>=_ok (Read.v32 ext varint) _ (v32_end credits h.1),
  )
  read_msg-write_msg (inhibit_global_credit_usage_by_port (local port)) h =
      (_, refl, >>=_ok (Read.v32 ext varint) _ (v32_end port h))
  read_msg-write_msg (inhibit_global_credit_usage_by_port (remote port)) h =
      (_, refl, >>=_ok (Read.v32 ext varint) _ (v32_end port h))
  read_msg-write_msg (allow_global_credit_usage_by_port (local port)) h =
      (_, refl, >>=_ok (Read.v32 ext varint) _ (v32_end port h))
  read_msg-write_msg (allow_global_credit_usage_by_port (remote port)) h =
      (_, refl, >>=_ok (Read.v32 ext varint) _ (v32_end port h))
  read_msg-write_msg (send_finish port) h = (_, refl, read_port_msg_ok send_finish port h)
  read_msg-write_msg (receive_close port) h = (_, refl, read_port_msg_ok receive_close port h)
  read_msg-write_msg (receive_finish port) h = (_, refl, read_port_msg_ok receive_finish port h)
  read_msg-write_msg (global_credits c) h =
      (_, refl, >>=_ok (Read.v32 ext varint) _ (v32_ok ext varint c.credits _ h))
  read_msg-write_msg (global_credits_report r) h = (
    _,
    refl,
    >>=_ok (Read.v32 ext varint) _ (v32_ok ext varint r.current _ h.0)
        ∙ >>=_ok (Read.v32 ext varint) _ (v32_ok ext varint r.least _ h.1),
  )
  read_msg-write_msg client_finish h = (_, refl, refl)
  read_msg-write_msg listener_finish h = (_, refl, refl)
  read_msg-write_msg goodbye h = (_, refl, refl)
