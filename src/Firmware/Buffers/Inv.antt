-- ===== src/Firmware/Buffers/Inv.antt =====
-- The exchange of spare buffers with the engine keeps the tables of tags and spare buffers consistent.
use accl.Base.{
  ℕ, zero, suc, ◌+◌, ◌%◌, ◌<◌, ◌≤◌, ◌≡◌, refl, sym, ap, ◌∙◌, Bool, true, ◌&&◌, not, ◌==◌, leb,
  ==→eq, Option, none, some, List, [], ◌∷◌, set, length, get_range, arith,
}
use accl.Firmware.Machine.{
  Machine, Arrival, RxBuffer, M, Result, ok, stop, pure, modify, and_then, ◌>>◌, entry, fault, getd,
  read_from, putd, cputd, bit,
}
use accl.Firmware.Keeps.{
  Keeps, Keeps-bind, Keeps-pure, Keeps-raise, Keeps-gets, Keeps-if, bind_at, elim_at, or_stop_at,
}
use accl.Firmware.Dma.{check_dma_status, dma_cmd_addrh_addrl}
use accl.Firmware.Buffers.{
  free_tag, buffer_at, set_buffer, record_buffer, enqueue_one, enqueue_from, enqueue_rx_buffers,
  read_header, release_tag, dequeue_one, status_idle, status_enqueued, status_error,
  status_reserved,
}
use accl.Firmware.Buffers.Tables.{
  IsConsistent, rewrite_buffer, rewrite_free, give_buffer, take_buffer, entry-set_self,
}

abbrev pub Consistent : Machine → Type 0
Consistent m = IsConsistent m.dma_tag_lookup m.rx_buffers

le-free_tag : (lookup : List (Option ℕ)) (t : ℕ) → t ≤ free_tag lookup t
unfolding free_tag
le-free_tag [] t = omega arith
le-free_tag (none ∷ lookup) t = omega arith
le-free_tag (some i ∷ lookup) t = omega (arith, le-free_tag lookup (suc t))

-- The tag that is found is of no buffer, if it is in the table.
entry-free_tag :
    (lookup : List (Option ℕ)) (t k : ℕ)
    → free_tag lookup t ≡ t + k
    → k < length lookup
    → entry lookup k ≡ some none
unfolding free_tag
entry-free_tag [] t k e h = absurd (omega arith)
entry-free_tag (none ∷ lookup) t zero e h = refl
entry-free_tag (none ∷ lookup) t (suc k) e h = absurd (omega arith)
entry-free_tag (some i ∷ lookup) t zero e h = absurd (omega (arith, le-free_tag lookup (suc t)))
entry-free_tag (some i ∷ lookup) t (suc k) e h =
    entry-free_tag lookup (suc t) k (omega arith) (omega arith)

enqueue_one_keeps :
    (i tag : ℕ) (b : RxBuffer) (m : Machine)
    → Consistent m
    → entry m.rx_buffers i ≡ some b
    → b.status ≡ status_idle
    → entry m.dma_tag_lookup tag ≡ some none
    → Consistent (enqueue_one i b tag m).1
unfolding enqueue_one dma_cmd_addrh_addrl set_buffer record_buffer putd cputd
enqueue_one_keeps i tag b m c h idle free =
    give_buffer m.dma_tag_lookup m.rx_buffers c i tag b
      (record b { status = status_enqueued; dma_tag = tag }) h (λ e. omega arith) free refl refl

enqueue_from-Keeps : (i k ret : ℕ) → Keeps Consistent (enqueue_from i k ret)
unfolding Keeps enqueue_from buffer_at
enqueue_from-Keeps i zero ret m c = c
enqueue_from-Keeps i (suc k) ret m c =
    let tag : ℕ = free_tag m.dma_tag_lookup 0 in
    or_stop_at Consistent (entry m.rx_buffers i) fault _ m c (λ b h.
      elim_at Consistent (leb 16 m.num_rx_enqueued) _ _ m (λ _. c)
        (λ _.
          elim_at Consistent (b.status == status_idle) _ _ m
            (λ idle.
              elim_at Consistent (leb 16 tag) _ _ m (λ _. c)
                (λ room.
                  let free =
                    entry-free_tag m.dma_tag_lookup 0 tag (omega arith) (ground (arith, c.tags)) in
                  bind_at Consistent (enqueue_one i b tag) _ m
                    (enqueue_one_keeps i tag b m c h (==→eq b.status status_idle idle) free)
                    (λ _. enqueue_from-Keeps (suc i) k (ret + 1))))
            (λ _. enqueue_from-Keeps (suc i) k ret m c)))

pub enqueue-Keeps : Keeps Consistent enqueue_rx_buffers
unfolding enqueue_rx_buffers
enqueue-Keeps =
    Keeps-bind Consistent _ _ (Keeps-gets Consistent (λ m. length m.rx_buffers))
      (λ n. enqueue_from-Keeps 0 n 0)

-- A tag in use, and the buffer that it stands for.
record IsHeld (i tag : ℕ) (m : Machine) : Type 0 where
  consistent : Consistent m
  own : entry m.dma_tag_lookup tag ≡ some (some i)
  buffer : RxBuffer
  at : entry m.rx_buffers i ≡ some buffer

held_tags :
    (i tag : ℕ) (m : Machine) (h : IsHeld i tag m)
    → (h.buffer.status ≡ status_enqueued) × (h.buffer.dma_tag ≡ tag)
held_tags i tag m h = h.consistent.tagged tag i h.buffer h.own h.at

module _ (i tag : ℕ) where
  write-IsHeld :
      (b : RxBuffer)
      → b.status ≡ status_enqueued
      → b.dma_tag ≡ tag
      → Keeps (IsHeld i tag) (set_buffer i b)
  unfolding Keeps set_buffer
  write-IsHeld b p q m h = record {
    consistent =
        let t = held_tags i tag m h in
        rewrite_buffer m.dma_tag_lookup m.rx_buffers h.consistent i h.buffer b h.at (p ∙ sym t.0)
          (q ∙ sym t.1);
    own = h.own;
    buffer = b;
    at = entry-set_self m.rx_buffers i b h.buffer h.at;
  }

  read_from-IsHeld : (channel : ℕ) (g : List Arrival) → Keeps (IsHeld i tag) (read_from channel g)
  unfolding Keeps
  read_from-IsHeld channel [] m h = h
  read_from-IsHeld channel (a ∷ rest) m h = record {
    consistent = h.consistent;
    own = h.own;
    buffer = h.buffer;
    at = h.at;
  }

  getd-IsHeld : (channel : ℕ) → Keeps (IsHeld i tag) (getd channel)
  unfolding Keeps getd
  getd-IsHeld channel m h = read_from-IsHeld channel (m.gets channel) m h

  -- A header has been read, or the stream has run dry before.
  IsRead : Result RxBuffer × Machine → Type 0
  IsRead (ok b, m) =
      IsConsistent (set m.dma_tag_lookup tag none) m.rx_buffers
      × (entry m.rx_buffers i ≡ some b)
      × (b.status ≡ status_error)
  IsRead (stop e, m) = Consistent m

  then-IsRead :
      {A : Type 0} (f : A → M RxBuffer) (r : Result A × Machine)
      → IsHeld i tag r.1
      → ((a : A) (m : Machine) → IsHeld i tag m → IsRead (f a m))
      → IsRead (and_then f r)
  unfolding IsRead
  then-IsRead f (ok a, m) h k = k a m h
  then-IsRead f (stop e, m) h k = h.consistent

  header_done :
      (b : RxBuffer) (m : Machine)
      → IsHeld i tag m
      → b.status ≡ status_error
      → IsRead ((set_buffer i b >> pure b) m)
  unfolding IsRead set_buffer
  header_done b m h e = (
    take_buffer m.dma_tag_lookup m.rx_buffers h.consistent i tag h.buffer b h.at h.own
        (λ f. omega arith),
    entry-set_self m.rx_buffers i b h.buffer h.at,
    e,
  )

  read_header_held :
      (net_rx_id : ℕ) (b : RxBuffer) (m : Machine)
      → b.status ≡ status_enqueued
      → b.dma_tag ≡ tag
      → IsHeld i tag m
      → IsRead (read_header net_rx_id i b m)
  unfolding read_header Keeps IsRead
  read_header_held net b m p q h = then-IsRead _ (getd net m) (getd-IsHeld net m h) (λ len m1 h1.
      then-IsRead _ (set_buffer i (record b { rx_len = len }) m1) (write-IsHeld _ p q m1 h1)
        (λ _ m2 h2. then-IsRead _ (getd net m2) (getd-IsHeld net m2 h2) (λ tag' m3 h3.
          then-IsRead _ (set_buffer i (record b { rx_len = len; rx_tag = tag' }) m3)
            (write-IsHeld _ p q m3 h3)
            (λ _ m4 h4. then-IsRead _ (getd net m4) (getd-IsHeld net m4 h4) (λ src m5 h5.
              then-IsRead _
                (set_buffer i (record b { rx_len = len; rx_tag = tag'; rx_src = src }) m5)
                (write-IsHeld _ p q m5 h5)
                (λ _ m6 h6. then-IsRead _ (getd net m6) (getd-IsHeld net m6 h6) (λ seq m7 h7.
                  header_done
                    (record b {
                      rx_len = len;
                      rx_tag = tag';
                      rx_src = src;
                      sequence_number = seq;
                      status = status_error;
                    })
                    m7 h7 refl)))))))

check-Keeps :
    (P : Machine → Type 0) (status len tag : ℕ) (b : Bool)
    → Keeps P (check_dma_status status len tag b)
unfolding check_dma_status
check-Keeps P status len tag b =
    Keeps-if P (not (get_range 3 0 status == tag)) _ _ (Keeps-raise P _ _) (
      Keeps-if P (bit 4 status) _ _ (Keeps-raise P _ _) (
        Keeps-if P (bit 5 status) _ _ (Keeps-raise P _ _) (
          Keeps-if P (bit 6 status) _ _ (Keeps-raise P _ _) (
            Keeps-if P (not (bit 7 status)) _ _ (Keeps-raise P _ _) (
              Keeps-if P (b && not (bit 31 status)) _ _ (Keeps-raise P _ _) (
                Keeps-if P (b && not (get_range 30 8 status == len)) _ _ (Keeps-raise P _ _)
                  (Keeps-pure P tt)))))))

-- A buffer that is in the table, and not with the engine.
record IsOut (i : ℕ) (b : RxBuffer) (m : Machine) : Type 0 where
  consistent : Consistent m
  at : entry m.rx_buffers i ≡ some b
  out : b.status ≡ status_error

finish_keeps :
    (i : ℕ) (b b' : RxBuffer) (m : Machine)
    → IsOut i b m
    → b'.status ≡ status_reserved
    → Consistent (set_buffer i b' m).1
unfolding set_buffer
finish_keeps i b b' m h e =
    rewrite_free m.dma_tag_lookup m.rx_buffers h.consistent i b b' h.at (λ f. omega (arith, h.out))
      (λ f. omega arith)

checked_keeps :
    (i : ℕ) (b : RxBuffer) (r : Result (Unit {0}) × Machine)
    → IsOut i b r.1
    → Consistent (and_then (λ _. set_buffer i (record b { status = status_reserved })) r).1
checked_keeps i b (ok u, m) h = finish_keeps i b (record b { status = status_reserved }) m h refl
checked_keeps i b (stop e, m) h = h.consistent

read_keeps :
    (i tag status : ℕ) (r : Result RxBuffer × Machine)
    → IsRead i tag r
    → Consistent
        (and_then
          (λ b.
            modify (release_tag tag)
            >> (check_dma_status status b.rx_len b.dma_tag true
                >> set_buffer i (record b { status = status_reserved })))
          r).1
unfolding IsRead release_tag Keeps
read_keeps i tag status (ok b, m) h =
    checked_keeps i b (check_dma_status status b.rx_len b.dma_tag true (release_tag tag m)) (
      check-Keeps (IsOut i b) status b.rx_len b.dma_tag true (release_tag tag m)
        (record { consistent = h.0; at = h.1; out = h.2 }))
read_keeps i tag status (stop e, m) h = h

pub dequeue_one-Keeps : (net_rx_id status : ℕ) → Keeps Consistent (dequeue_one net_rx_id status)
unfolding Keeps dequeue_one buffer_at
dequeue_one-Keeps net status m c =
    let tag : ℕ = status % 16 in
    or_stop_at Consistent (entry m.dma_tag_lookup tag) fault _ m c (λ slot hs.
      or_stop_at Consistent slot fault _ m c (λ i hi.
        or_stop_at Consistent (entry m.rx_buffers i) fault _ m c (λ b hb.
          elim_at Consistent (b.status == status_enqueued) _ _ m
            (λ is.
              elim_at Consistent (b.dma_tag == tag) _ _ m
                (λ same.
                  elim_at Consistent (leb (length m.rx_buffers) i) _ _ m (λ _. c)
                    (λ _. read_keeps i tag status (read_header net i b m) (
                      read_header_held i tag net b m (==→eq b.status status_enqueued is)
                        (==→eq b.dma_tag tag same)
                        (record { consistent = c; own = hs ∙ ap some hi; buffer = b; at = hb }))))
                (λ _. c))
            (λ _. c))))
