-- ===== src/Msg/Cfg.antt =====
-- msg.rs, `ExchangedCfg::write` and `ExchangedCfg::read`.
pub mod RoundTrip
pub mod Peers
use remoc.Base.{
  ℕ, ◌*◌, ◌/◌, ◌-◌, ◌^◌, min, leb, ◌==◌, ◌!=◌, if◌then◌else◌, Bool, true, false, Option, none, some,
  List, [], ◌∷◌, ◌++◌, ◌≤◌, ◌<◌, arith,
}
use remoc.Io.{IoError, invalid_data, Result, ok, err, stuck, Reader, ◌>>=◌, pure, fail, read_u8}
use mathlib.Core.Path.{◌≡◌}
use mathlib.Core.Option
use remoc.Msg.Types.{PostbagVersions, External, Duration, ExchangedCfg}

abbrev pub u64_max : ℕ
u64_max = 2 ^ 64 - 1

abbrev pub as_millis : Duration → ℕ
as_millis d = d / 1_000_000

abbrev pub from_millis : ℕ → Duration
from_millis millis = millis * 1_000_000

abbrev pub byte_of : Bool → ℕ
byte_of true = 1
byte_of false = 0

abbrev pub timeout_millis : Option Duration → ℕ
timeout_millis none = 0
timeout_millis (some d) = min (as_millis d) u64_max

-- `0 => None, millis => Some(..)`
abbrev pub timeout_of : ℕ → Option Duration
timeout_of millis = if millis == 0 then none else some (from_millis millis)

abbrev pub version_or_default : {V : Type 0} → PostbagVersions V → ℕ → V
version_or_default v byte = Option.get_or (v.try_from_u8 byte) v.default

-- `let Ok(a) = m else { return Ok(this) };`. After a failed read nothing is left of the slice.
abbrev pub or_return {ℓ κ} : {A : Type ℓ} {B : Type κ} → Reader A → B → (A → Reader B) → Reader B
or_return m this k bs = elim (m bs) [
  | ok (a, rest) ↦ k a rest
  | err e ↦ ok (this, [])
  | stuck ↦ stuck
]

pub or_return_ok {ℓ κ} :
    {A : Type ℓ} {B : Type κ} (m : Reader A) (this : B) (k : A → Reader B) {bs rest : List ℕ}
    {a : A}
    → m bs ≡ ok (a, rest)
    → or_return m this k bs ≡ k a rest
or_return_ok m this k e = rw (e, or_return)

pub or_return_err {ℓ κ} :
    {A : Type ℓ} {B : Type κ} (m : Reader A) (this : B) (k : A → Reader B) {bs : List ℕ}
    {e : IoError}
    → m bs ≡ err e
    → or_return m this k bs ≡ ok (this, [])
or_return_err m this k e = rw (e, or_return)

-- `cs if cs >= least => cs, _ => return Err(invalid_data(..))`
abbrev pub at_least : ℕ → ℕ → Reader ℕ
at_least least n bs = if leb least n then ok (n, bs) else err invalid_data

pub at_least_ok : (least n : ℕ) (bs : List ℕ) → least ≤ n → at_least least n bs ≡ ok (n, bs)
at_least_ok least n bs h = ground arith

pub at_least_err : (least n : ℕ) (bs : List ℕ) → n < least → at_least least n bs ≡ err invalid_data
at_least_err least n bs h = ground arith

module _ {V : Type 0} (ext : External V) where
  open ext use {order, versions}

  -- The bytes behind the four fields that every peer sends.
  pub write_extensions : ExchangedCfg V → ℕ → List ℕ
  write_extensions c global_credits =
      order.u32.write global_credits
      ++ (byte_of c.received_report
          ∷ byte_of c.port_side
          ∷ byte_of c.pre_connect
          ∷ byte_of c.varint
          ∷ byte_of c.frame_len_varint
          ∷ byte_of c.compact_transported
          ∷ versions.to_u8 c.postbag_version
          ∷ byte_of c.postbag_allow_skip
          ∷ byte_of c.port_id
          ∷ byte_of c.global_credits_enabled
          ∷ [])

  -- `none` is the panic of `unwrap` where the global credits are not set.
  pub write_cfg : ExchangedCfg V → Option (List ℕ)
  write_cfg c =
      Option.map
        (λ global_credits.
          order.u64.write (timeout_millis c.connection_timeout)
          ++ (order.u32.write c.chunk_size
              ++ (order.u32.write c.port_receive_buffer
                  ++ (order.u16.write c.connect_queue ++ write_extensions c global_credits))))
        c.global_credits

  -- What is not sent: the values of a peer that knows nothing of the extensions.
  pub base_cfg : ℕ → Option Duration → ℕ → ℕ → ℕ → ExchangedCfg V
  base_cfg version connection_timeout chunk_size port_receive_buffer connect_queue = record {
    connection_timeout = connection_timeout;
    chunk_size = chunk_size;
    port_receive_buffer = port_receive_buffer;
    connect_queue = connect_queue;
    global_credits = none;
    received_report = false;
    port_side = false;
    pre_connect = false;
    varint = false;
    frame_len_varint = false;
    compact_transported = false;
    postbag_version = versions.postbag0_4;
    postbag_allow_skip = false;
    port_id = version == 3;
    global_credits_enabled = true;
  }

  -- The last field also withdraws the global credits where it is unset.
  pub read_global_credits_enabled : ExchangedCfg V → Reader (ExchangedCfg V)
  read_global_credits_enabled this = or_return read_u8 this λ byte.
      let enabled = byte != 0 in
      pure (
        if enabled
        then record this { global_credits_enabled = enabled }
        else record this { global_credits_enabled = enabled; global_credits = none })

  pub read_codec_extensions : ExchangedCfg V → Reader (ExchangedCfg V)
  unfolding read_global_credits_enabled
  read_codec_extensions this = or_return read_u8 this λ compact_transported.
      let this1 = record this { compact_transported = compact_transported != 0 } in
      or_return read_u8 this1 λ postbag_version.
        let this2 = record this1 {
          postbag_version = version_or_default versions postbag_version;
        } in
        or_return read_u8 this2 λ allow_skip.
          let this3 = record this2 { postbag_allow_skip = allow_skip != 0 } in
          or_return read_u8 this3
            λ port_id. read_global_credits_enabled (record this3 { port_id = port_id != 0 })

  pub read_port_extensions : ExchangedCfg V → Reader (ExchangedCfg V)
  unfolding read_codec_extensions
  read_port_extensions this = or_return read_u8 this λ received_report.
      let this1 = record this { received_report = received_report != 0 } in
      or_return read_u8 this1 λ port_side.
        let this2 = record this1 { port_side = port_side != 0 } in
        or_return read_u8 this2 λ pre_connect.
          let this3 = record this2 { pre_connect = pre_connect != 0 } in
          or_return read_u8 this3 λ varint.
            let this4 = record this3 { varint = varint != 0 } in
            or_return read_u8 this4 λ frame_len_varint.
              read_codec_extensions (record this4 { frame_len_varint = frame_len_varint != 0 })

  pub read_extensions : ExchangedCfg V → Reader (ExchangedCfg V)
  unfolding read_port_extensions
  read_extensions this =
      or_return order.u32.read this λ global_credits.
        read_port_extensions (record this { global_credits = some global_credits })

  pub read_cfg : ℕ → Reader (ExchangedCfg V)
  unfolding base_cfg read_extensions
  read_cfg version = do
    millis ← order.u64.read
    chunk_size ← order.u32.read
    chunk_size' ← at_least 4 chunk_size
    port_receive_buffer ← order.u32.read
    port_receive_buffer' ← at_least 4 port_receive_buffer
    connect_queue ← order.u16.read
    connect_queue' ← at_least 1 connect_queue
    read_extensions
        (base_cfg version (timeout_of millis) chunk_size' port_receive_buffer' connect_queue')
