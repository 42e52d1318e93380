-- ===== src/SidePort.antt =====
-- remoc/src/chmux/port_allocator.rs, `SidePort`: a port number with the side that allocated it.
use remoc.Base.{ℕ, Bool, true, false}

pub data SidePort : Type 0 where
  local : ℕ → SidePort
  remote : ℕ → SidePort

abbrev pub number : SidePort → ℕ
number (local port) = port
number (remote port) = port

abbrev pub is_local : SidePort → Bool
is_local (local port) = true
is_local (remote port) = false

abbrev pub is_remote : SidePort → Bool
is_remote (local port) = false
is_remote (remote port) = true

abbrev pub flipped : SidePort → SidePort
flipped (local port) = remote port
flipped (remote port) = local port
