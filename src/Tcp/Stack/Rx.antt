-- ===== src/Tcp/Stack/Rx.antt =====
-- The receive side of the stand-in stack (`rx_handler`, dummy_tcp_stack.cpp).
use mathlib.Core.Option.{some-injective}
use accl.Base.{
  ℕ, zero, suc, ◌+◌, ◌-◌, ◌/◌, ◌^◌, ◌<◌, ◌≤◌, ◌≡◌, ap, ◌∙◌, false, get_range, [], ◌∷◌, ◌++◌,
  append_assoc, length, length-append, Stream, write, Flit, arith, Option, none, some,
}
use accl.Tcp.Stack.{
  buffer_header, buffer_data, send_noti, send_msg, RxHandler, announcement, buffer_word, rx_case,
  rx_handler, depth,
}

-- `n` calls that find room for a notification, `none` when one does not return; `fresh` is what
-- its packet held before.
unfoldable pub receives : ℕ → ℕ → RxHandler → Option RxHandler
receives fresh zero s = some s
receives fresh (suc n) s = elim (rx_handler fresh false s) [
  | none ↦ none
  | some t ↦ receives fresh n t
]

-- What holds of a run after a first call that returns holds of the whole.
goes_on :
    (o : Option RxHandler) (f g : RxHandler → Option RxHandler) (t : RxHandler)
    (end : Option RxHandler)
    → ((u : RxHandler) → f u ≡ some t → g u ≡ end)
    → elim o [ none ↦ none | some u ↦ f u ] ≡ some t
    → elim o [ none ↦ none | some u ↦ g u ] ≡ end
goes_on none f g t end k h = absurd cc
goes_on (some u) f g t end k h = k u h

receives-add :
    (fresh m n : ℕ) (s t : RxHandler)
    → receives fresh m s ≡ some t
    → receives fresh (m + n) s ≡ receives fresh n t
unfolding receives
receives-add fresh zero n s t h =
    let e : 0 + n ≡ n = omega arith in
    ap (λ k. receives fresh k s) e ∙ ap (receives fresh n) (some-injective s t h)
receives-add fresh (suc m) n s t h =
    let e : suc m + n ≡ suc (m + n) = omega arith in
    ap (λ k. receives fresh k s) e
    ∙ goes_on (rx_handler fresh false s) (receives fresh m) (receives fresh (m + n)) t
        (receives fresh n t) (λ u. receives-add fresh m n u t) h

first_then :
    (fresh n : ℕ) (s t : RxHandler)
    → rx_handler fresh false s ≡ some t
    → receives fresh (suc n) s ≡ receives fresh n t
unfolding receives
first_then fresh n s t h = ap (λ o. elim o [ none ↦ none | some u ↦ receives fresh n u ]) h

abbrev buffering : RxHandler → ℕ → Stream Flit → Stream Flit → RxHandler
buffering s count input buffer = record s {
  state = buffer_data;
  count = count;
  input = input;
  rx_data_buffer = buffer;
}

abbrev buffered : RxHandler → Stream Flit → Stream Flit → RxHandler
buffered s input buffer = record s {
  state = send_noti;
  count = 0;
  input = input;
  rx_data_buffer = buffer;
}

words_buffered :
    (s : RxHandler) (fresh count : ℕ) (w : Flit) (ws more buffer : Stream Flit)
    → count < s.payload_length
    → s.payload_length + 64 < 2 ^ 31
    → length (w ∷ ws) ≡ (s.payload_length - count + 63) / 64
    → length buffer + length (w ∷ ws) ≤ depth
    → receives fresh (length (w ∷ ws)) (buffering s count (w ∷ ws ++ more) buffer)
      ≡ some (buffered s more (buffer ++ (w ∷ ws)))
unfolding receives rx_handler rx_case buffer_word
words_buffered s fresh count w [] more buffer p h e d =
    let small : s.payload_length ≤ count + 64 = omega arith in ground arith
words_buffered s fresh count w (v ∷ ws) more buffer p h e d =
    let big : count + 64 < s.payload_length = omega arith in
    let step : rx_handler fresh false (buffering s count (w ∷ v ∷ ws ++ more) buffer)
        ≡ some (buffering s (count + 64) (v ∷ ws ++ more) (write buffer w)) =
      ground arith in
    let room : length (write buffer w) + length (v ∷ ws) ≤ depth =
      rw (length-append buffer (w ∷ [])) (omega arith) in
    first_then fresh (length (v ∷ ws)) (buffering s count (w ∷ v ∷ ws ++ more) buffer)
      (buffering s (count + 64) (v ∷ ws ++ more) (write buffer w)) step
    ∙ words_buffered s fresh (count + 64) v ws more (write buffer w) big h (omega arith) room
    ∙ ap (λ b. some (buffered s more b)) (append_assoc buffer (w ∷ []) (v ∷ ws))

abbrev returning : RxHandler → ℕ → Stream Flit → Stream Flit → RxHandler
returning s count buffer out = record s {
  state = send_msg;
  count = count;
  rx_data_buffer = buffer;
  rx_words = out;
}

abbrev returned : RxHandler → Stream Flit → RxHandler
returned s out = record s {
  state = buffer_header;
  count = 0;
  msg_length = 0;
  payload_length = 0;
  rx_data_buffer = [];
  rx_words = out;
}

words_returned :
    (s : RxHandler) (fresh count : ℕ) (w : Flit) (ws out : Stream Flit)
    → count < s.msg_length
    → s.msg_length + 64 < 2 ^ 31
    → length (w ∷ ws) ≡ (s.msg_length - count + 63) / 64
    → receives fresh (length (w ∷ ws)) (returning s count (w ∷ ws) out)
      ≡ some (returned s (out ++ (w ∷ ws)))
unfolding receives rx_handler rx_case
words_returned s fresh count w [] out p h e =
    let small : s.msg_length ≤ count + 64 = omega arith in ground arith
words_returned s fresh count w (v ∷ ws) out p h e =
    let big : count + 64 < s.msg_length = omega arith in
    let step : rx_handler fresh false (returning s count (w ∷ v ∷ ws) out)
        ≡ some (returning s (count + 64) (v ∷ ws) (write out w)) =
      ground arith in
    first_then fresh (length (v ∷ ws)) (returning s count (w ∷ v ∷ ws) out)
      (returning s (count + 64) (v ∷ ws) (write out w)) step
    ∙ words_returned s fresh (count + 64) v ws (write out w) big h (omega arith)
    ∙ ap (λ o. some (returned s o)) (append_assoc out (w ∷ []) (v ∷ ws))

header_buffered :
    (s : RxHandler) (fresh len : ℕ) (head : Flit) (rest : Stream Flit)
    → s.state ≡ buffer_header
    → s.input ≡ head ∷ rest
    → s.count ≡ 0
    → s.rx_data_buffer ≡ []
    → get_range 31 0 head.bits ≡ len
    → len + 128 < 2 ^ 31
    → receives fresh 1 s
      ≡ some
          (buffering (record s { payload_length = len; msg_length = len + 64 }) 0 rest (head ∷ []))
unfolding receives rx_handler rx_case buffer_word
header_buffered s fresh len head rest st i c b e h = ground arith

announced :
    (s : RxHandler) (fresh : ℕ) (buffer : Stream Flit) (r : ℕ) (input : Stream Flit)
    (reads : Stream ℕ)
    → s.read_pkg ≡ r ∷ reads
    → receives fresh 2 (buffered s input buffer)
      ≡ some (
          returning
            (record s {
              input = input;
              notification = write s.notification (announcement fresh s.msg_length);
              read_pkg = reads;
              rx_meta = write s.rx_meta 0;
            })
            0
            buffer
            s.rx_words)
unfolding receives rx_handler rx_case
announced s fresh buffer r input reads h = ground arith

-- The process at its start, with a message of `len` bytes in its input: the header word `head` and
-- the words of payload `ws`, and others behind; a read request waits. Header and payload fit in
-- the buffer of 512 words.
pub record Arrived (s : RxHandler) (head : Flit) (ws more : Stream Flit) (len r : ℕ)
    (reads : Stream ℕ) : Type 0 where
  pub waits : s.state ≡ buffer_header
  pub words : s.input ≡ head ∷ ws ++ more
  pub none_counted : s.count ≡ 0
  pub none_buffered : s.rx_data_buffer ≡ []
  pub asked : s.read_pkg ≡ r ∷ reads
  pub length_named : get_range 31 0 head.bits ≡ len
  pub some_bytes : 0 < len
  pub all_words : length ws ≡ (len + 63) / 64
  pub fits : length (head ∷ ws) ≤ 512

-- What the process is once it has announced the message by `noti`.
abbrev told : RxHandler → ℕ → ℕ → Stream Flit → Stream Flit → Stream ℕ → RxHandler
told s noti len input buffer reads =
    returning
      (record s {
        payload_length = len;
        msg_length = len + 64;
        input = input;
        notification = write s.notification noti;
        read_pkg = reads;
        rx_meta = write s.rx_meta 0;
      })
      0 buffer s.rx_words

message_told :
    (s : RxHandler) (fresh len r : ℕ) (head w : Flit) (ws more : Stream Flit) (reads : Stream ℕ)
    → Arrived s head (w ∷ ws) more len r reads
    → receives fresh (1 + (length (w ∷ ws) + 2)) s
      ≡ some (told s (announcement fresh (len + 64)) len more (head ∷ w ∷ ws) reads)
message_told s fresh len r head w ws more reads a =
    let t : RxHandler = record s { payload_length = len; msg_length = len + 64 } in
    let n = length (w ∷ ws) in
    receives-add fresh 1 (n + 2) s (buffering t 0 (w ∷ ws ++ more) (head ∷ [])) (
      header_buffered s fresh len head (w ∷ ws ++ more) a.waits a.words a.none_counted
        a.none_buffered a.length_named (omega (arith, a)))
    ∙ receives-add fresh n 2 (buffering t 0 (w ∷ ws ++ more) (head ∷ []))
        (buffered t more (head ∷ w ∷ ws))
        (words_buffered t fresh 0 w ws more (head ∷ []) a.some_bytes (omega (arith, a))
          (omega (arith, a)) (omega (arith, a)))
    ∙ announced t fresh (head ∷ w ∷ ws) r more reads a.asked

-- The notification of a message of `bytes` bytes: session, address and port 0, and not closed.
pub record Announces (bytes noti : ℕ) : Type 0 where
  pub session : get_range 15 0 noti ≡ 0
  pub bytes_told : get_range 31 16 noti ≡ bytes
  pub ip : get_range 63 32 noti ≡ 0
  pub port : get_range 79 64 noti ≡ 0
  pub stays_open : get_range 80 80 noti ≡ 0

announcement_lem : (fresh bytes : ℕ) → bytes < 2 ^ 16 → Announces bytes (announcement fresh bytes)
unfolding announcement
announcement_lem fresh bytes h = record {
  session = omega arith;
  bytes_told = omega arith;
  ip = omega arith;
  port = omega arith;
  stays_open = omega arith;
}

-- A whole message with at least one byte, whose header and payload fit in the buffer of 512 words,
-- is buffered, announced by one notification of all its bytes, header included, and, once asked
-- for, handed over word by word as it came, header first; no call waits for ever, and the process
-- is back at its start and takes nothing behind the message. It needs one call for the header,
-- one for each word of payload, two for the announcement and the request, which finds room and is
-- at hand, and one for each word handed over. No word is counted or buffered before.
pub message_handed_over :
    (s : RxHandler) (fresh len r : ℕ) (head w : Flit) (ws more : Stream Flit) (reads : Stream ℕ)
    → Arrived s head (w ∷ ws) more len r reads
    → (noti : ℕ) × Announces (len + 64) noti
      × (receives fresh (1 + (length (w ∷ ws) + 2) + length (head ∷ w ∷ ws)) s
          ≡ some (record s {
            state = buffer_header;
            input = more;
            notification = s.notification ++ (noti ∷ []);
            read_pkg = reads;
            rx_meta = s.rx_meta ++ (0 ∷ []);
            rx_words = s.rx_words ++ (head ∷ w ∷ ws);
            rx_data_buffer = [];
            payload_length = 0;
            msg_length = 0;
            count = 0;
          }))
message_handed_over s fresh len r head w ws more reads a =
    let n = length (head ∷ w ∷ ws) in
    let noti = announcement fresh (len + 64) in
    let t = told s noti len more (head ∷ w ∷ ws) reads in
    (
      noti,
      announcement_lem fresh (len + 64) (omega (arith, a)),
      receives-add fresh (1 + (length (w ∷ ws) + 2)) n s t
            (message_told s fresh len r head w ws more reads a)
          ∙ words_returned t fresh 0 head (w ∷ ws) s.rx_words (omega (arith, a)) (omega (arith, a))
              (omega (arith, a)),
    )
