-- ===== src/Packet.antt =====
-- What the packetizers and depacketizers of kernel/hls/vnx_intf and kernel/hls/tcp_intf share: the
-- header, the counters of a message, and the depacketizer's loop.
pub mod Header
pub mod Bounds
pub mod Depacketizer
pub mod Delivered
