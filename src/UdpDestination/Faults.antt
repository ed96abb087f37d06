-- ===== src/UdpDestination/Faults.antt =====
-- Two cases that udp_datagram_destination.hpp does not handle: `n_min` behind a large datagram, and a
-- prefix that runs round the end of the ring.
use dg_cat.Common.{
  suc, ℕ, ◌+◌, ◌-◌, ◌%◌, ◌^◌, ◌≤◌, ◌<◌, ◌≡◌, [], ◌∷◌, refl, sym, ap, ◌∙◌, true, false, List, ◌++◌,
  arith, length, ltb, some, take, drop, slice, append-nil, length-append, length-slice, take-all,
  append_assoc, slice-add, ◌%◌,
}
use dg_cat.Wire.{Endian, prefix_len, be_bytes, be_value}
use dg_cat.Wire.RoundTrip.{be_value-be_bytes}
use dg_cat.Wire.Splits.{encode}
use dg_cat.Batch.{
  ConsumerBatch, null_iovec, make_batch, copy_and_remove_bytes, limit_size, gather, compact,
}
use dg_cat.Batch.Laws.{IsBatch, take-append_le}
use dg_cat.Batch.Limit.{limit_size_lem}
use dg_cat.Queue.{BufferQueue, ready, get_data_locked, consumer_start_batch}
use dg_cat.Queue.Window.{contents, IsValid, length-contents}
use dg_cat.Queue.Take.{get_data_locked_lem}
use dg_cat.UdpDestination.{
  sends, SendResult, goes_on, size_max, send_batch, send_round, sending, at_eof, after_round,
  send_loop,
}
use dg_cat.UdpDestination.Frames.{send_round-frame, take_front}
use dg_cat.UdpDestination.Runs.{IsHeard, send_round-returns}

-- Where `n_min` was raised for a large datagram, the frames behind that datagram are lost if they
-- are fewer bytes than it at the end of file: the loop sends the one datagram and returns, with the
-- others still in the queue.
pub send_loop-drops :
    (e : Endian) (p : List ℕ) (ps : List (List ℕ)) (first second : SendResult)
    (results : List SendResult) (q : BufferQueue) (n_min : ℕ)
    → IsValid q
    → q.is_eof ≡ true
    → contents q ≡ encode (p ∷ ps)
    → length p < 2 ^ 32
    → q.consumer_index + prefix_len ≤ q.max_n
    → IsHeard first
    → n_min ≤ q.n
    → length (encode ps) < n_min
    → let s = send_loop e (first ∷ second ∷ results) q n_min in
      (s.datagrams ≡ p ∷ []) × (s.stop ≡ at_eof) × (contents s.queue ≡ encode ps)
unfolding send_loop after_round
send_loop-drops e p ps first second results q n_min v eof bytes small straight heard enough few =
    let value : be_value (be_bytes (length p)) ≡ length p =
      ap be_value (sym (append-nil (be_bytes (length p))))
      ∙ be_value-be_bytes (length p) [] small in
    let (q', batch, ran, valid, left, eof', cap, index) =
      send_round-frame e q (be_bytes (length p)) (p ++ encode ps) v bytes refl straight p
        (encode ps) n_min first refl value enough heard in
    let over =
      send_round-returns e q' n_min second valid (eof' ∙ eof)
        (omega (arith, length-contents q', ap length left)) (omega (arith, v)) in
    rw (ran, over) (refl, refl, left)

drop_past {ℓ} : {A : Type ℓ} (xs ys : List A) (k : ℕ) → drop (length xs + k) (xs ++ ys) ≡ drop k ys
drop_past [] ys k = ap (λ n. drop n ys) (omega arith)
drop_past (x ∷ xs) ys k = ap (λ n. drop n (x ∷ (xs ++ ys))) shift ∙ drop_past xs ys k
  where
    shift : length (x ∷ xs) + k ≡ suc (length xs + k)
    shift = omega arith

-- A valid ring whose bytes begin with a prefix that runs round the end of the ring.
module _ (e : Endian) (q : BufferQueue) (pre body : List ℕ) (v : IsValid q)
    (bytes : contents q ≡ pre ++ body) (four : length pre ≡ prefix_len)
    (round_end : q.max_n < q.consumer_index + prefix_len)
    (long : q.max_n - q.consumer_index < length body) where
  -- the bytes of the prefix before the end of the ring
  abbrev pub at_the_end : ℕ
  at_the_end = q.max_n - q.consumer_index

  held : q.n ≡ prefix_len + length body
  held = omega (arith, length-contents q, ap length bytes, length-append pre body)

  abbrev whole : ConsumerBatch
  whole = record {
    iov0 = record { iov_base = some q.consumer_index; iov_len = at_the_end };
    iov1 = record { iov_base = some 0; iov_len = q.n - at_the_end };
    n_iov = 2;
    n = q.n;
  }

  before : 0 < at_the_end
  before = omega (arith, v)

  handed : get_data_locked q size_max ≡ whole
  unfolding get_data_locked make_batch
  handed = ground (arith, held, v)

  abbrev left : ConsumerBatch
  left = record {
    iov0 = record { iov_base = some prefix_len; iov_len = length body - at_the_end };
    iov1 = null_iovec;
    n_iov = 1;
    n = length body - at_the_end;
  }

  abbrev copied : List ℕ
  copied = slice q.cells q.consumer_index at_the_end ++ slice q.cells 0 prefix_len

  removed : copy_and_remove_bytes q.cells whole prefix_len ≡ some (copied, left)
  unfolding copy_and_remove_bytes compact
  removed = ground (arith, held, v)

  left-IsBatch : IsBatch q.cells left
  left-IsBatch = ground (arith, held, v)

  whole_bytes : copied ++ slice q.cells prefix_len (length body - at_the_end) ≡ pre ++ body
  whole_bytes =
      let (ok_, all, size) = get_data_locked_lem q size_max v in
      let later : slice q.cells 0 (q.n - at_the_end)
          ≡ slice q.cells 0 prefix_len ++ slice q.cells prefix_len (length body - at_the_end) =
        ap (slice q.cells 0) (omega (arith, held))
        ∙ slice-add q.cells 0 prefix_len (length body - at_the_end) (omega (arith, held, v)) in
      append_assoc (slice q.cells q.consumer_index at_the_end) (slice q.cells 0 prefix_len)
        (slice q.cells prefix_len (length body - at_the_end))
      ∙ ap (λ bs. slice q.cells q.consumer_index at_the_end ++ bs) (sym later)
      ∙ sym (ap (gather q.cells) handed)
      ∙ all
      ∙ take-all size_max (contents q) (omega (arith, length-contents q, v))
      ∙ bytes

  copied_size : length copied ≡ prefix_len + at_the_end
  copied_size = omega (
    arith,
    length-append (slice q.cells q.consumer_index at_the_end) (slice q.cells 0 prefix_len),
    length-slice q.cells q.consumer_index at_the_end,
    length-slice q.cells 0 prefix_len,
    held,
    v,
  )

  left-bytes : gather q.cells left ≡ drop at_the_end body
  left-bytes =
      append-nil (slice q.cells prefix_len (length body - at_the_end))
      ∙ sym (drop_past copied (slice q.cells prefix_len (length body - at_the_end)) 0)
      ∙ ap (λ k. drop k (copied ++ slice q.cells prefix_len (length body - at_the_end)))
          (omega (arith, copied_size, four))
      ∙ ap (drop (length pre + at_the_end)) whole_bytes
      ∙ drop_past pre body at_the_end

  prefix_read : take prefix_len copied ≡ pre
  prefix_read =
      sym (
        take-append_le prefix_len copied (slice q.cells prefix_len (length body - at_the_end))
          (omega (arith, copied_size)))
      ∙ ap (take prefix_len) whole_bytes
      ∙ take_front prefix_len pre body four

  -- A datagram with a prefix that runs round the end of the ring, behind which the batch has as many
  -- bytes as it says, is sent without its first bytes: as many as the prefix has before the end of
  -- the ring are cut off in front, and the same number of bytes is sent of what stands behind it.
  pub send_batch-straddle :
      (n_min : ℕ)
      → n_min ≤ q.n
      → be_value pre + at_the_end ≤ length body
      → send_batch e q.cells n_min (get_data_locked q size_max)
        ≡ sends (take (be_value pre) (drop at_the_end body)) (be_value pre + prefix_len)
  unfolding send_batch
  send_batch-straddle n_min enough room =
      let read = ap (λ bs. e.ntohl (e.load bs)) prefix_read ∙ e.load_ntohl pre four in
      let (okl, bytes', n') = limit_size_lem q.cells left (be_value pre) left-IsBatch in
      let sent_bytes : gather q.cells (limit_size left (be_value pre))
          ≡ take (be_value pre) (drop at_the_end body) =
        bytes' ∙ ap (take (be_value pre)) left-bytes in
      let n'' : (limit_size left (be_value pre)).n ≡ be_value pre = omega (arith, n') in
      let full : ltb q.n n_min ≡ false = ground arith in
      let complete : ltb (length body - at_the_end) (be_value pre) ≡ false = ground arith in
      let small : (be_value pre + prefix_len) % 2 ^ 64 ≡ be_value pre + prefix_len =
        omega (arith, v, held) in
      rw (handed, full, removed, read, complete, sent_bytes, n'', small) refl

  straddle_asks :
      (n_min : ℕ) (result : SendResult)
      → n_min ≤ q.n
      → length body < be_value pre + at_the_end
      → send_round e q n_min result ≡ goes_on [] (be_value pre + prefix_len) q
  unfolding send_round send_batch
  straddle_asks n_min result enough few =
      let starts : consumer_start_batch q n_min size_max ≡ ready (get_data_locked q size_max) =
        let room = v.fill in unfold consumer_start_batch in ground arith in
      let read = ap (λ bs. e.ntohl (e.load bs)) prefix_read ∙ e.load_ntohl pre four in
      let full : ltb q.n n_min ≡ false = ground arith in
      let cut : ltb (length body - at_the_end) (be_value pre) ≡ true = ground arith in
      rw (starts, handed, full, removed, read, cut) refl

  -- A valid ring that holds nothing but a prefix and its datagram, where the prefix runs round the
  -- end of the ring and the datagram is longer than the part of the prefix before that end: the loop,
  -- with `n_min` no more than the bytes held, never sends the datagram and never returns, however many
  -- rounds it makes, and the ring stays as it is.
  pub send_loop-spins :
      (results : List SendResult) (n_min : ℕ)
      → be_value pre ≡ length body
      → n_min ≤ q.n
      → let s = send_loop e results q n_min in
        (s.datagrams ≡ []) × (s.stop ≡ sending) × (s.queue ≡ q)
  unfolding send_loop after_round
  send_loop-spins [] n_min last enough = (refl, refl, refl)
  send_loop-spins (r ∷ results) n_min last enough =
      rw (straddle_asks n_min r enough (omega (arith, last, before)))
        (send_loop-spins results (be_value pre + prefix_len) last (omega (arith, held)))
