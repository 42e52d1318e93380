-- ===== src/Msg.antt =====
-- remoc/src/chmux/msg.rs: the messages between two multiplexed endpoints and their wire format.
pub mod Types
pub mod Flags
pub mod Cfg
pub mod Write
pub mod Read
pub mod FlagBits
pub mod PortData
pub mod RoundTrip
pub mod Reads
pub mod Bodies
pub mod Total
pub mod Length
pub mod Sample
mod Examples
