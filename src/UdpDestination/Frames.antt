-- ===== src/UdpDestination/Frames.antt =====
-- A round of udp_datagram_destination.hpp on a ring whose bytes begin with a frame.
use dg_cat.Common.{
  ℕ, append_assoc, ◌+◌, ◌%◌, ◌^◌, ◌≤◌, ◌<◌, ◌≡◌, ◌≢◌, [], ◌∷◌, refl, sym, ap, ◌∙◌, true, false,
  List, ◌++◌, some, arith, length, take, drop, ltb, length-append, take-all, drop-all,
}
use dg_cat.Wire.{Endian, prefix_len, be_value}
use dg_cat.Batch.{ConsumerBatch, make_batch, copy_and_remove_bytes, limit_size, gather}
use dg_cat.Batch.Laws.{IsBatch, take-append_le, drop-append_le}
use dg_cat.Batch.Limit.{copy_and_remove_bytes_lem, limit_size_lem}
use dg_cat.Queue.{
  BufferQueue, ok, ready, get_data_locked, consumer_start_batch, consumer_commit_batch,
}
use dg_cat.Queue.Window.{wrap, contents, IsValid, length-contents}
use dg_cat.Queue.Take.{get_data_locked_lem, consumer_commit_batch_lem, consumer_commit_batch-index}
use dg_cat.UdpDestination.{
  sends, SendResult, sent, connection_refused, send_failed, goes_on, size_max, send_batch,
  send_round, after_free, after_send,
}

first_segment :
    (q : BufferQueue)
    → IsValid q
    → prefix_len ≤ q.n
    → q.consumer_index + prefix_len ≤ q.max_n
    → prefix_len ≤ (get_data_locked q size_max).iov0.iov_len
unfolding get_data_locked make_batch
first_segment q v held straight = ground arith

pub take_front {ℓ} : {A : Type ℓ} (k : ℕ) (xs ys : List A) → length xs ≡ k → take k (xs ++ ys) ≡ xs
take_front k xs ys h = take-append_le k xs ys (omega arith) ∙ take-all k xs (omega arith)

pub drop_front {ℓ} : {A : Type ℓ} (k : ℕ) (xs ys : List A) → length xs ≡ k → drop k (xs ++ ys) ≡ ys
drop_front k xs ys h =
    drop-append_le k xs ys (omega arith) ∙ ap (λ zs. zs ++ ys) (drop-all k xs (omega arith))

-- A valid ring whose bytes begin with a prefix that does not run round the end of the ring.
module _ (e : Endian) (q : BufferQueue) (pre body : List ℕ) (v : IsValid q)
    (bytes : contents q ≡ pre ++ body) (four : length pre ≡ prefix_len)
    (straight : q.consumer_index + prefix_len ≤ q.max_n) where
  held : q.n ≡ prefix_len + length body
  held = omega (arith, length-contents q, ap length bytes, length-append pre body)

  -- the batch behind `copy_and_remove_bytes`, and what it stands for
  prefix_removed :
      let b = get_data_locked q size_max in
      (b.n ≡ q.n)
      × (b' : ConsumerBatch) × (copy_and_remove_bytes q.cells b prefix_len ≡ some (pre, b'))
      × IsBatch q.cells b'
      × (gather q.cells b' ≡ body)
      × (b'.n ≡ length body)
  prefix_removed =
      let b = get_data_locked q size_max in
      let (ok_, all, size) = get_data_locked_lem q size_max v in
      let whole : gather q.cells b ≡ pre ++ body =
        all ∙ take-all size_max (contents q) (omega (arith, length-contents q, v)) ∙ bytes in
      let within = first_segment q v (omega (arith, held)) straight in
      let (b', ran, ok', left, size') = copy_and_remove_bytes_lem q.cells b prefix_len ok_ within in
      let front = ap (take prefix_len) whole ∙ take_front prefix_len pre body four in
      (
        omega (arith, size, v),
        b',
        ran ∙ ap (λ bs. some (bs, b')) front,
        ok',
        left ∙ ap (drop prefix_len) whole ∙ drop_front prefix_len pre body four,
        omega (arith, size, size', held, v),
      )

  read_prefix : e.ntohl (e.load (take prefix_len pre)) ≡ be_value pre
  read_prefix =
      ap (λ bs. e.ntohl (e.load bs)) (take-all prefix_len pre (omega arith)) ∙ e.load_ntohl pre four

  starts :
      (n_min : ℕ)
      → n_min ≤ q.n
      → consumer_start_batch q n_min size_max ≡ ready (get_data_locked q size_max)
  unfolding consumer_start_batch
  starts n_min enough = let room = v.fill in ground arith

  module _ (p rest : List ℕ) (n_min : ℕ) (eq : body ≡ p ++ rest) (value : be_value pre ≡ length p)
      (enough : n_min ≤ q.n) where
    send_batch-frame :
        send_batch e q.cells n_min (get_data_locked q size_max) ≡ sends p (length p + prefix_len)
    unfolding send_batch
    send_batch-frame =
        let (size, b', ran, ok_, left, size') = prefix_removed in
        let fits : length p ≤ b'.n = omega (arith, size', ap length eq, length-append p rest) in
        let (okl, bytes', n') = limit_size_lem q.cells b' (length p) ok_ in
        let sent_bytes : gather q.cells (limit_size b' (length p)) ≡ p =
          bytes' ∙ ap (take (length p)) (left ∙ eq) ∙ take_front (length p) p rest refl in
        let n'' : (limit_size b' (length p)).n ≡ length p = omega arith in
        let whole : ltb (get_data_locked q size_max).n n_min ≡ false = ground arith in
        let complete : ltb b'.n (length p) ≡ false = ground arith in
        let small : (length p + prefix_len) % 2 ^ 64 ≡ length p + prefix_len =
          omega (arith, v, held) in
        rw (whole, ran, read_prefix, value, complete, sent_bytes, n'', small) refl

  -- A datagram that the ring holds whole behind its prefix is sent as it is, the next round asks for
  -- no more bytes than this one, and starts with the bytes behind the datagram.
  pub send_round-frame :
      (p rest : List ℕ) (n_min : ℕ) (result : SendResult)
      → body ≡ p ++ rest
      → be_value pre ≡ length p
      → n_min ≤ q.n
      → result ≢ send_failed
      → (q' : BufferQueue) × (send_batch e q.cells n_min (get_data_locked q size_max)
          ≡ sends p (length p + prefix_len))
        × (send_round e q n_min result ≡ goes_on (p ∷ []) n_min q')
        × IsValid q'
        × (contents q' ≡ rest)
        × (q'.is_eof ≡ q.is_eof)
        × (q'.max_n ≡ q.max_n)
        × (q'.consumer_index ≡ wrap q.max_n (q.consumer_index + (length p + prefix_len)))
  unfolding send_round
  send_round-frame p rest n_min result eq value enough heard =
      let batch = send_batch-frame p rest n_min eq value enough in
      let (q', ran, valid, left, n', cap, eof, told) =
        consumer_commit_batch_lem q (length p + prefix_len) v
          (omega (arith, held, ap length eq, length-append p rest)) (omega arith) in
      let all : contents q ≡ (pre ++ p) ++ rest =
        bytes ∙ ap (λ bs. pre ++ bs) eq ∙ sym (append_assoc pre p rest) in
      (
        q',
        batch,
        rw (starts n_min enough, batch) (given result heard ran),
        valid,
        left
            ∙ ap (drop (length p + prefix_len)) all
            ∙ drop_front (length p + prefix_len) (pre ++ p) rest
                (omega (arith, length-append pre p)),
        eof,
        cap,
        consumer_commit_batch-index q q' (length p + prefix_len) v
            (omega (arith, held, ap length eq, length-append p rest)) (omega arith) ran,
      )
    where
      given :
          {q' : BufferQueue} (r : SendResult)
          → r ≢ send_failed
          → consumer_commit_batch q (length p + prefix_len) ≡ ok q'
          → after_send e q n_min r (sends p (length p + prefix_len)) ≡ goes_on (p ∷ []) n_min q'
      given sent heard ran = ap (after_free e p n_min) ran
      given connection_refused heard ran = ap (after_free e p n_min) ran
      given send_failed heard ran = absurd (heard refl)

  -- A datagram of which the ring holds only a part behind its prefix is not sent: the next round
  -- asks for the prefix and the whole datagram, and the ring is as it was.
  pub send_round-part :
      (n_min : ℕ) (result : SendResult)
      → length body < be_value pre
      → n_min ≤ q.n
      → send_round e q n_min result ≡ goes_on [] (be_value pre + prefix_len) q
  unfolding send_round send_batch
  send_round-part n_min result short enough =
      let (size, b', ran, ok_, left, size') = prefix_removed in
      let whole : ltb (get_data_locked q size_max).n n_min ≡ false = ground arith in
      let cut : ltb b'.n (be_value pre) ≡ true = ground arith in
      rw (starts n_min enough, whole, ran, read_prefix, cut) refl
