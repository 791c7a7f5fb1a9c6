-- ===== src/Mux/Connection/Closing.antt =====
-- mux/mux/src/connection/active.rs: the end of the streams of a connection that closes.
pub mod Released
pub mod Woken
pub mod Over
