-- ===== src/Robs.antt =====
-- remoc/src/robs: observable collections and their mirrors.
pub mod Vector
pub mod Observable
pub mod Subscription
pub mod Mirror
pub mod HashSet
pub mod Retain
mod Examples
