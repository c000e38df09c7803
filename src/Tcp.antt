-- ===== src/Tcp.antt =====
-- kernel/hls/tcp_intf, and the stand-in for the TCP stack of demo/build/hls/dummy_tcp_stack.
pub mod Packetizer
pub mod Frames
pub mod Exchange
pub mod RxHandler
pub mod Open
pub mod Stack
pub mod Connect
pub mod TxHandler
use accl.Base.{ℕ, Stream, Flit, Outcome}
use accl.Packet.Depacketizer.{Received, depacketize}

-- tcp_depacketizer.cpp.
unfoldable pub tcp_depacketizer : ℕ → Stream Flit → Outcome (Received Flit)
tcp_depacketizer fuel input = depacketize (λ (w : Flit). w.bits) (λ (w : Flit). w.keep) fuel input
