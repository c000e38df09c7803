-- ===== src/Mux.antt =====
-- kernel/hls/tcp_intf/pktMultiplexor.cpp.
pub mod Lookup
pub mod Process
pub mod Route
pub mod Select
pub mod Message
pub mod Begin
