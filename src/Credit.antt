-- ===== src/Credit.antt =====
-- remoc/src/chmux/credit.rs: flow credits. Credits to send are held in a store (Store), taken out
-- of it by a user (User), and spent on messages (Assigned); the receiving side counts them as used
-- by the data it holds and returns them.
pub mod Assigned
pub mod Spend
pub mod Store
pub mod User
pub mod Requests
pub mod Monitor
pub mod Inhibit
pub mod Flow
pub mod Conserve
pub mod Global
pub mod GlobalReturn
mod Examples
