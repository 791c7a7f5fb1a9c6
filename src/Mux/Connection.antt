-- ===== src/Mux/Connection.antt =====
-- mux/mux/src/connection: the driver of a connection and the streams that it holds.
pub mod IdMap
pub mod Registry
pub mod Write
pub mod Active
pub mod Driver
pub mod System
pub mod Delivery
pub mod Closing
pub mod Shutdown
mod Tests
