-- ===== src/Msg/Types.antt =====
-- msg.rs: the message types, and what they use of the crate `postbag`.
use remoc.Base.{ℕ, ◌<◌, ◌≡◌, Bool, Option, some, List}
use remoc.Io.{ByteOrder}
use remoc.SidePort.{SidePort}
use remoc.Sizer.{GlobalCreditsReport}

-- `postbag::cfg::Version` as a type `V`: its conversions from and to one byte, the default, and
-- the version of peers that send none. A version converts back from the byte that it gives.
pub record PostbagVersions (V : Type 0) : Type 0 where
  pub to_u8 : V → ℕ
  pub try_from_u8 : ℕ → Option V
  pub default : V
  pub postbag0_4 : V
  pub to_u8-lt : (v : V) → to_u8 v < 256
  pub try_from_u8-to_u8 : (v : V) → try_from_u8 (to_u8 v) ≡ some v

-- The code outside the repository that the wire format uses.
pub record External (V : Type 0) : Type 0 where
  pub order : ByteOrder
  pub versions : PostbagVersions V

-- A `Duration` is its number of nanoseconds.
abbrev pub Duration : Type 0
Duration = ℕ

pub record ExchangedCfg (V : Type 0) : Type 0 where
  pub connection_timeout : Option Duration
  pub chunk_size : ℕ
  pub port_receive_buffer : ℕ
  pub connect_queue : ℕ
  pub global_credits : Option ℕ
  pub received_report : Bool
  pub port_side : Bool
  pub pre_connect : Bool
  pub varint : Bool
  pub frame_len_varint : Bool
  pub compact_transported : Bool
  pub postbag_version : V
  pub postbag_allow_skip : Bool
  pub port_id : Bool
  pub global_credits_enabled : Bool

pub data DataCredits : Type 0 where
  port_only global_only : DataCredits
  global_and_port : ℕ → DataCredits

pub record GlobalCredits : Type 0 where
  pub credits : ℕ
  pub seq : ℕ

pub record PortDataItem : Type 0 where
  pub port : ℕ
  pub id : ℕ
  pub pre_connect : Bool

-- The fields of each message in the source's order.
pub data MultiplexMsg (V : Type 0) : Type 0 where
  reset : MultiplexMsg V
  hello : (version : ℕ) → ExchangedCfg V → MultiplexMsg V
  ping : MultiplexMsg V
  open_port : (client_port : ℕ) (wait : Bool) (id : Option ℕ) (pre_connect : Bool) → MultiplexMsg V
  port_opened : (client_port : ℕ) → SidePort → MultiplexMsg V
  rejected : (client_port : ℕ) (no_ports : Bool) → MultiplexMsg V
  data_msg : SidePort → (first last : Bool) → DataCredits → MultiplexMsg V
  port_data : SidePort → (first last wait : Bool) → List PortDataItem → MultiplexMsg V
  request_received_report : SidePort → MultiplexMsg V
  received_report : SidePort → MultiplexMsg V
  port_credits : SidePort → (credits : ℕ) → MultiplexMsg V
  inhibit_global_credit_usage_by_port : SidePort → MultiplexMsg V
  allow_global_credit_usage_by_port : SidePort → MultiplexMsg V
  send_finish : SidePort → MultiplexMsg V
  receive_close : SidePort → MultiplexMsg V
  receive_finish : SidePort → MultiplexMsg V
  global_credits : GlobalCredits → MultiplexMsg V
  global_credits_report : GlobalCreditsReport → MultiplexMsg V
  client_finish listener_finish goodbye : MultiplexMsg V
