-- ===== src/Tests/Tcp.antt =====
-- The theorems on the sending side of kernel/hls/tcp_intf and on connections, at small inputs.
use accl.Base.{
  ℕ, ◌+◌, ◌-◌, ◌*◌, ◌^◌, ◌≡◌, refl, true, false, List, [], ◌∷◌, ◌++◌, map, Flit, done, some, arith,
  length,
}
use accl.Packet.Header.{Message}
use accl.Packet.Delivered.{delivered}
use accl.Vnx.Frames.{command, IsCommand}
use accl.Tcp.Packetizer.{tx_command, tcp_packetizer}
use accl.Tcp.Frames.{frames, header_word, tcp_packetizer_lem}
use accl.Tcp.Exchange.{pass_on, tcp_exchange}
use accl.Tcp.Stack.{accepted}
use accl.Tcp.TxHandler.{wait_cmd, TxHandler, tx_request}
use accl.Tcp.TxHandler.Packet.{calls}
use accl.Tcp.TxHandler.Lengths.{lengths, in_packets}
use accl.Tcp.TxHandler.Status.{Finished}
use accl.Tcp.TxHandler.Message.{tx_message_lem}
use accl.Tcp.TxHandler.Whole.{data_of, asked_bytes, message_whole}
use accl.Tcp.Open.{OpenPort, open_port, OpenConResp, wait_status}
use accl.Tcp.Open.Order.{
  answers, responses, answers_kept, calls_needed, all_answered, all_status_words,
}
use accl.Tcp.Connect.{Peer, AllPeers, connect_all, sessions, connect_all_lem}

-- 80 bytes for session 7: a full word and one of 16 bytes.
abbrev message : Message
message = record { dst = 7; bytes = 80; tag = 11; src = 3; seq = 42 }

abbrev word : ℕ → Flit
word b = record { bits = b; keep = 2 ^ 64 - 1; last = false }

abbrev words : List Flit
words = word 1000 ∷ word 2000 ∷ []

message-IsCommand : IsCommand message
message-IsCommand = omega arith

abbrev no_shift : ℕ → ℕ
no_shift left = 0

tcp_packetizer_lem_example :
    tcp_packetizer 8 no_shift 5 6 (words ++ (word 3000 ∷ [])) (command message ++ (9 ∷ [])) 2
    ≡ done (record {
      input = word 3000 ∷ [];
      cmd = 9 ∷ [];
      out = header_word message 5 ∷ frames no_shift 80 2 0 words;
      cmd_tx_handler = tx_command message 2 6 ∷ [];
      sts = 42 ∷ [];
    })
tcp_packetizer_lem_example =
    tcp_packetizer_lem 8 no_shift 5 6 2 message words (word 3000 ∷ []) (9 ∷ []) message-IsCommand
      (omega arith) (omega arith) (omega arith)

tcp_exchange_example :
    pass_on 8 (tcp_packetizer 8 no_shift 5 6 (words ++ []) (command message ++ []) 2)
    ≡ done (record { input = []; out = delivered 80 0 words; sts = 80 ∷ 11 ∷ 3 ∷ 42 ∷ [] })
tcp_exchange_example =
    tcp_exchange 8 no_shift 5 6 2 message words [] [] message-IsCommand (omega arith) (omega arith)
      (omega arith) (omega arith)

-- A handler with a command for 150 bytes to session 7 in packets of two words: two requests.
abbrev handler : TxHandler
handler = record {
  data_in = word 1 ∷ word 2 ∷ word 3 ∷ word 4 ∷ [];
  cmd = (7 + 150 * 2 ^ 32 + 2 * 2 ^ 64) ∷ [];
  tx_meta = [];
  tx_data = [];
  tx_status = map (accepted 7) (lengths 2 (2 * 64) 150) ++ [];
  state = wait_cmd;
  session_id = 0;
  expected = 0;
  max_pkg_word = 0;
  length = 0;
  remaining_space = 0;
  error = 0;
  current_pkg_word = 0;
  word_cnt = 0;
  sent_byte_cnt = 0;
}

tx_message_lem_example :
    Finished
      (word 4 ∷ [])
      ([] ++ in_packets 2 2 150 (word 1 ∷ word 2 ∷ word 3 ∷ []))
      ([] ++ map (tx_request 7) (lengths 2 (2 * 64) 150))
      []
      []
      (calls (2 + (length (lengths 2 (2 * 64) 150) + 3)) handler)
tx_message_lem_example =
    tx_message_lem handler 1 7 150 2 (word 1) (word 2 ∷ word 3 ∷ []) (word 4 ∷ []) [] []
      (ground arith) (omega arith) (omega arith) (omega arith) refl refl

message_whole_example :
    let t = calls (2 + (length (lengths 2 (2 * 64) 150) + 3)) handler in
    (data_of t.tx_data ≡ data_of [] ++ data_of (word 1 ∷ word 2 ∷ word 3 ∷ []))
    × (asked_bytes t.tx_meta ≡ asked_bytes [] + 150)
message_whole_example =
    message_whole handler 1 7 150 2 (word 1) (word 2 ∷ word 3 ∷ []) (word 4 ∷ []) [] []
      (ground arith) (omega arith) (omega arith) (omega arith) refl refl

-- Two answers of the stack, and the process that passes them on.
abbrev answering : OpenConResp
answering = record {
  sts = [];
  open_status = 12345678 ∷ 87654321 ∷ [];
  state = wait_status;
  session = 0;
  success = 0;
  ip = 0;
  port = 0;
}

answers_kept_example : answers (responses (false ∷ true ∷ false ∷ []) answering) ≡ answers answering
answers_kept_example = answers_kept (false ∷ true ∷ false ∷ []) answering

all_answered_example :
    let t = responses (calls_needed 2) answering in
    (t.state ≡ wait_status)
    × (t.open_status ≡ [])
    × (t.sts ≡ [] ++ all_status_words (12345678 ∷ 87654321 ∷ []))
all_answered_example = all_answered (12345678 ∷ 87654321 ∷ []) answering refl refl

abbrev opener : OpenPort
opener = record {
  cmd = 5500 ∷ 5501 ∷ [];
  sts = [];
  listen_port = [];
  port_status = [];
  listen_state = open_port;
  success = 0;
}

abbrev peers : List Peer
peers = record { ip = 3232235777; port = 5500 } ∷ record { ip = 3232235778; port = 5501 } ∷ []

peers-AllPeers : AllPeers peers
peers-AllPeers = ground arith

connect_all_lem_example : connect_all 1 2 10 peers ≡ some (sessions 10 peers)
connect_all_lem_example = connect_all_lem 1 2 10 peers peers-AllPeers (omega arith)
