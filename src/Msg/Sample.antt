-- ===== src/Msg/Sample.antt =====
-- A configuration with the defaults of remoc/src/chmux/cfg.rs, and an instance of what msg.rs uses
-- of other crates.
use remoc.Base.{refl, true, false, some, arith}
use remoc.Io.LittleEndian.{little_endian}
use remoc.Msg.Types.{PostbagVersions, External, ExchangedCfg}
use remoc.Msg.Cfg.RoundTrip.{IsValidCfg}

-- One version, as byte 0.
pub versions : PostbagVersions (Unit {0})
versions = record {
  to_u8 = λ v. 0;
  try_from_u8 = λ byte. some tt;
  default = tt;
  postbag0_4 = tt;
  to_u8-lt = λ v. omega arith;
  try_from_u8-to_u8 = λ v. refl;
}

abbrev pub external : External (Unit {0})
external = record { order = little_endian; versions = versions }

abbrev pub default_cfg : ExchangedCfg (Unit {0})
default_cfg = record {
  connection_timeout = some 150_000_000_000;
  chunk_size = 32_768;
  port_receive_buffer = 131_072;
  connect_queue = 128;
  global_credits = some 65_536;
  received_report = true;
  port_side = true;
  pre_connect = true;
  varint = true;
  frame_len_varint = false;
  compact_transported = true;
  postbag_version = tt;
  postbag_allow_skip = true;
  port_id = true;
  global_credits_enabled = true;
}

pub default_cfg-IsValidCfg : IsValidCfg default_cfg
default_cfg-IsValidCfg = omega arith
