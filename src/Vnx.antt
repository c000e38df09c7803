-- ===== src/Vnx.antt =====
-- kernel/hls/vnx_intf (the packetizer and depacketizer of the UDP stack) and the loopback of
-- demo/build/hls/loopback.
pub mod Packetizer
pub mod Lanes
pub mod Frames
pub mod Loopback
pub mod RoundTrip
use accl.Base.{ℕ, Stream, Routed, Outcome}
use accl.Packet.Depacketizer.{Received, depacketize}

-- vnx_depacketizer.cpp: the depacketizer over words that carry a destination.
unfoldable pub vnx_depacketizer : ℕ → Stream Routed → Outcome (Received Routed)
vnx_depacketizer fuel input =
    depacketize (λ (w : Routed). w.bits) (λ (w : Routed). w.keep) fuel input
