-- ===== src/UdpCopier/Sends.antt =====
-- What udp_datagram_destination.hpp does with a batch of whole frames.
use dg_cat.Common.{
  ℕ, ◌+◌, ◌%◌, ◌^◌, ◌≤◌, ◌<◌, ◌≡◌, refl, sym, ap, ◌∙◌, true, false, List, [], ◌++◌, some, arith,
  length, take, drop, ltb, length-append, take-all, append-nil, min,
}
use dg_cat.Wire.{Endian, prefix_len, be_bytes, be_value}
use dg_cat.Wire.RoundTrip.{be_value-be_bytes}
use dg_cat.Batch.{ConsumerBatch, copy_and_remove_bytes, limit_size, gather, make_batch}
use dg_cat.Batch.Laws.{IsBatch, length-gather}
use dg_cat.Batch.Limit.{copy_and_remove_bytes_lem, limit_size_lem}
use dg_cat.Queue.{BufferQueue}
use dg_cat.Queue.Window.{IsValid}
use dg_cat.Queue.Take.{batch_at, get_data_locked_lem, get_data_locked-eq}
use dg_cat.UdpDestination.{sends, send_batch, leaves}
use dg_cat.UdpDestination.Frames.{take_front, drop_front}

-- A batch that begins with a whole frame, the prefix in its first segment: the datagram is sent.
pub send_batch-whole :
    (e : Endian) (mem : List ℕ) (n_min : ℕ) (b : ConsumerBatch) (p rest : List ℕ)
    → IsBatch mem b
    → gather mem b ≡ be_bytes (length p) ++ (p ++ rest)
    → length p < 2 ^ 32
    → prefix_len ≤ b.iov0.iov_len
    → n_min ≤ b.n
    → send_batch e mem n_min b ≡ sends p (length p + prefix_len)
unfolding send_batch
send_batch-whole e mem n_min b p rest ok_ bytes small within enough =
    let pre = be_bytes (length p) in
    let size : b.n ≡ prefix_len + (length p + length rest) = omega (
      arith,
      length-gather mem b ok_,
      ap length bytes,
      length-append pre (p ++ rest),
      length-append p rest,
    ) in
    let (b', ran, ok', left, size') = copy_and_remove_bytes_lem mem b prefix_len ok_ within in
    let front : take prefix_len (gather mem b) ≡ pre =
      ap (take prefix_len) bytes ∙ take_front prefix_len pre (p ++ rest) refl in
    let removed : copy_and_remove_bytes mem b prefix_len ≡ some (pre, b') =
      ran ∙ ap (λ bs. some (bs, b')) front in
    let body : gather mem b' ≡ p ++ rest =
      left ∙ ap (drop prefix_len) bytes ∙ drop_front prefix_len pre (p ++ rest) refl in
    let read : e.ntohl (e.load (take prefix_len pre)) ≡ length p =
      ap (λ bs. e.ntohl (e.load bs)) (take-all prefix_len pre (omega arith))
      ∙ e.load_ntohl pre refl
      ∙ ap be_value (sym (append-nil pre))
      ∙ be_value-be_bytes (length p) [] small in
    let (okl, bytes', n') = limit_size_lem mem b' (length p) ok' in
    let sent_bytes : gather mem (limit_size b' (length p)) ≡ p =
      bytes' ∙ ap (take (length p)) body ∙ take_front (length p) p rest refl in
    let n'' : (limit_size b' (length p)).n ≡ length p = omega (arith, n', size', size) in
    let whole : ltb b.n n_min ≡ false = ground arith in
    let complete : ltb b'.n (length p) ≡ false = ground (arith, size', size) in
    let no_wrap : (length p + prefix_len) % 2 ^ 64 ≡ length p + prefix_len =
      omega (arith, ok_.small, size) in
    rw (whole, removed, read, complete, sent_bytes, n'', no_wrap) refl

-- The oldest bytes of a ring, as many as a positive number, are a well-formed batch.
pub batch_at-IsBatch :
    (q : BufferQueue) (k : ℕ)
    → IsValid q
    → 0 < k
    → k ≤ q.n
    → IsBatch q.cells (batch_at q.max_n q.consumer_index k)
batch_at-IsBatch q k v pos held =
    let same : min q.n k ≡ k = omega arith in
    rw (sym (get_data_locked-eq q k v (omega arith) ∙ ap (batch_at q.max_n q.consumer_index) same))
      (get_data_locked_lem q k v).0

-- A prefix that does not run round the end of the ring stands in the first segment.
pub batch_at-first :
    (cap index k : ℕ)
    → index + prefix_len ≤ cap
    → prefix_len ≤ k
    → prefix_len ≤ (batch_at cap index k).iov0.iov_len
unfolding batch_at make_batch
batch_at-first cap index k straight enough = ground arith

-- A batch with fewer bytes than a prefix ends the loop.
pub send_batch-empty :
    (e : Endian) (mem : List ℕ) (n_min : ℕ) (b : ConsumerBatch)
    → b.n < n_min
    → send_batch e mem n_min b ≡ leaves
unfolding send_batch
send_batch-empty e mem n_min b few =
    let short : ltb b.n n_min ≡ true = ground arith in rw short refl
