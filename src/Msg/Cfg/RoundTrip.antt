-- ===== src/Msg/Cfg/RoundTrip.antt =====
-- msg.rs: `ExchangedCfg::read` after `ExchangedCfg::write`.
use remoc.Base.{
  ℕ, ◌^◌, ◌≤◌, ◌<◌, ◌≡◌, refl, ◌∙◌, ◌!=◌, if◌then◌else◌, Bool, true, false, Option, none, some,
  List, ◌++◌, length, length-append, arith,
}
use remoc.Io.{◌>>=◌, pure, >>=_ok, read-write-append, ok, IsU32}
use remoc.Msg.Types.{External, Duration, ExchangedCfg}
use remoc.Msg.Cfg.{
  or_return_ok, byte_of, timeout_millis, timeout_of, at_least, at_least_ok, write_extensions,
  write_cfg, base_cfg, read_extensions, read_cfg,
}

pub byte_of-ne-zero : (b : Bool) → (byte_of b != 0) ≡ b
byte_of-ne-zero true = refl
byte_of-ne-zero false = refl

-- The ranges of the source's integer types, and the least values that the reader accepts.
pub record IsValidCfg {V : Type 0} (c : ExchangedCfg V) : Type 0 where
  pub chunk_size_low : 4 ≤ c.chunk_size
  pub chunk_size_high : IsU32 c.chunk_size
  pub port_receive_buffer_low : 4 ≤ c.port_receive_buffer
  pub port_receive_buffer_high : IsU32 c.port_receive_buffer
  pub connect_queue_low : 1 ≤ c.connect_queue
  pub connect_queue_high : c.connect_queue < 2 ^ 16

-- What the other side learns of a configuration: the timeout in whole milliseconds, zero being
-- none, and no global credits where these are not enabled.
abbrev pub received : {V : Type 0} → ExchangedCfg V → ℕ → ExchangedCfg V
received c gc = record c {
  connection_timeout = timeout_of (timeout_millis c.connection_timeout);
  global_credits = if c.global_credits_enabled then some gc else none;
}

-- The four fields that every peer sends.
abbrev pub SameBase : {V : Type 0} → ExchangedCfg V → ExchangedCfg V → Type 0
SameBase this c =
    (this.connection_timeout ≡ timeout_of (timeout_millis c.connection_timeout))
    × (this.chunk_size ≡ c.chunk_size)
    × (this.port_receive_buffer ≡ c.port_receive_buffer)
    × (this.connect_queue ≡ c.connect_queue)

module _ {V : Type 0} (ext : External V) where
  open ext use {order, versions}

  read_extensions-write_extensions :
      (c this : ExchangedCfg V) (gc : ℕ) (rest : List ℕ)
      → SameBase this c
      → IsU32 gc
      → read_extensions ext this (write_extensions ext c gc ++ rest) ≡ ok (received c gc, rest)
  unfolding read_extensions write_extensions ◌>>=◌ pure
  read_extensions-write_extensions c this gc rest same h =
      or_return_ok order.u32.read this _ (read-write-append order.u32 gc _ rest h)
      ∙ simp (byte_of-ne-zero, versions.try_from_u8-to_u8) (ground arith)

  -- A written configuration is read back by a peer of any version as `received` says, and the
  -- bytes behind it are left.
  pub read_cfg-write_cfg :
      (c : ExchangedCfg V) (version gc : ℕ) (rest : List ℕ)
      → IsValidCfg c
      → c.global_credits ≡ some gc
      → IsU32 gc
      → (bytes : List ℕ) × (write_cfg ext c ≡ some bytes)
        × (read_cfg ext version (bytes ++ rest) ≡ ok (received c gc, rest))
  unfolding read_cfg write_cfg ◌>>=◌ pure
  read_cfg-write_cfg c version gc rest v e h = (
    order.u64.write (timeout_millis c.connection_timeout)
        ++ (order.u32.write c.chunk_size
            ++ (order.u32.write c.port_receive_buffer
                ++ (order.u16.write c.connect_queue ++ write_extensions ext c gc))),
    rw e,
    >>=_ok order.u64.read _ (read-write-append order.u64 _ _ rest (fits c.connection_timeout))
        ∙ >>=_ok order.u32.read _
            (read-write-append order.u32 c.chunk_size _ rest v.chunk_size_high)
        ∙ >>=_ok (at_least 4 c.chunk_size) _ (at_least_ok 4 _ _ v.chunk_size_low)
        ∙ >>=_ok order.u32.read _
            (read-write-append order.u32 c.port_receive_buffer _ rest v.port_receive_buffer_high)
        ∙ >>=_ok (at_least 4 c.port_receive_buffer) _ (at_least_ok 4 _ _ v.port_receive_buffer_low)
        ∙ >>=_ok order.u16.read _
            (read-write-append order.u16 c.connect_queue _ rest v.connect_queue_high)
        ∙ >>=_ok (at_least 1 c.connect_queue) _ (at_least_ok 1 _ _ v.connect_queue_low)
        ∙ read_extensions-write_extensions c _ gc rest (unfold base_cfg in (refl, refl, refl, refl))
            h,
  )
    where
      fits : (d : Option Duration) → timeout_millis d < 256 ^ 8
      fits none = omega arith
      fits (some d) = omega arith

  pub length-write_cfg :
      (c : ExchangedCfg V) (gc : ℕ)
      → c.global_credits ≡ some gc
      → (bytes : List ℕ) × (write_cfg ext c ≡ some bytes) × (length bytes ≡ 32)
  unfolding write_cfg write_extensions
  length-write_cfg c gc e =
      let tail = write_extensions ext c gc in
      let t2 = order.u16.write c.connect_queue in
      let t4 = order.u32.write c.port_receive_buffer in
      let t4' = order.u32.write c.chunk_size in
      let t8 = order.u64.write (timeout_millis c.connection_timeout) in
      (
        t8 ++ (t4' ++ (t4 ++ (t2 ++ tail))),
        rw e,
        omega (
          arith,
          length-append t8 (t4' ++ (t4 ++ (t2 ++ tail))),
          length-append t4' (t4 ++ (t2 ++ tail)),
          length-append t4 (t2 ++ tail),
          length-append t2 tail,
          length-append (order.u32.write gc),
          order.u64.length-write (timeout_millis c.connection_timeout),
          order.u32.length-write,
          order.u16.length-write c.connect_queue,
        ),
      )
