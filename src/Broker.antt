-- ===== src/Broker.antt =====
-- crates/muxd/src/broker.rs: the half of the daemon that dials other hosts. A pane names a host by
-- its alias; each host has one connection and one pinned key.
mod Examples
pub mod Links
pub mod Pins
pub mod Stream
