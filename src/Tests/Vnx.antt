-- ===== src/Tests/Vnx.antt =====
-- The theorems on kernel/hls/vnx_intf and on the header, at messages of two words of payload.
use accl.Base.{ℕ, ◌-◌, ◌^◌, ◌≡◌, true, false, List, [], ◌∷◌, ◌++◌, Flit, Routed, done, arith}
use accl.Packet.Header.{Message, header, header_count, header_tag, header_src, header_seq}
use accl.Packet.Delivered.{delivered}
use accl.Packet.Depacketizer.{depacketize}
use accl.Packet.Depacketizer.Laws.{copies, depacketize_lem}
use accl.Vnx.Packetizer.{vnx_packetizer}
use accl.Vnx.Frames.{frame, frames, command, IsCommand, vnx_packetizer_lem}
use accl.Vnx.RoundTrip.{exchange, exchange_lem}

-- 100 bytes for node 7.
abbrev message : Message
message = record { dst = 7; bytes = 100; tag = 11; src = 3; seq = 42 }

abbrev word : ℕ → Flit
word b = record { bits = b; keep = 2 ^ 64 - 1; last = false }

abbrev words : List Flit
words = word 1000 ∷ word 2000 ∷ []

message-IsCommand : IsCommand message
message-IsCommand = omega arith

vnx_packetizer_lem_example :
    vnx_packetizer 8 5 (words ++ (word 3000 ∷ [])) (command message ++ (9 ∷ [])) 2
    ≡ done (record {
      input = word 3000 ∷ [];
      cmd = 9 ∷ [];
      out = frame message 2 0 (header message 5) ∷ frames message 2 1 words;
      sts = 42 ∷ [];
    })
vnx_packetizer_lem_example =
    vnx_packetizer_lem 8 5 2 message words (word 3000 ∷ []) (9 ∷ []) message-IsCommand (omega arith)
      (omega arith)

-- A header of 100 bytes, as it comes from the network.
abbrev head : Routed
head = record { bits = 100; keep = 2 ^ 64 - 1; last = false; dest = 7 }

abbrev routed : List Routed
routed =
    record { bits = 1000; keep = 2 ^ 64 - 1; last = true; dest = 7 }
    ∷ record { bits = 2000; keep = 2 ^ 36 - 1; last = true; dest = 7 }
    ∷ []

head_count : header_count head.bits ≡ 100
unfolding header_count
head_count = omega arith

depacketize_lem_example :
    depacketize (λ (w : Routed). w.bits) (λ (w : Routed). w.keep) 3 (head ∷ routed ++ (head ∷ []))
    ≡ done (record {
      input = head ∷ [];
      out =
          copies (λ (w : Routed). w.bits) (λ (w : Routed). w.keep) (header_count head.bits) routed;
      sts =
          header_count head.bits
          ∷ header_tag head.bits
          ∷ header_src head.bits
          ∷ header_seq head.bits
          ∷ [];
    })
depacketize_lem_example =
    depacketize_lem (λ (w : Routed). w.bits) (λ (w : Routed). w.keep) 3 head routed (head ∷ [])
      (omega (arith, head_count)) (omega (arith, head_count)) (omega arith)

exchange_lem_example :
    exchange 8 5 (words ++ []) (command message ++ []) 2
    ≡ done (record { input = []; out = delivered 100 0 words; sts = 100 ∷ 11 ∷ 3 ∷ 42 ∷ [] })
exchange_lem_example =
    exchange_lem 8 5 2 message words [] [] message-IsCommand (omega arith) (omega arith)
