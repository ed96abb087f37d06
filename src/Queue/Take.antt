-- ===== src/Queue/Take.antt =====
-- What a consumer is handed, copies and frees: the batches, `consumer_copy_bytes` and
-- `consumer_commit_batch` of buffer_queue.hpp against the ring's contents.
use dg_cat.Common.{
  ℕ, zero, suc, ◌+◌, ◌-◌, ◌≤◌, ◌<◌, ◌≡◌, refl, List, [], ◌∷◌, ◌++◌, arith, length, take, drop,
  slice, leb, if◌then◌else◌, length-take, min, length-slice, get_or-slice, get_or-append,
  get_or-take, get_or-drop, length-drop, length-append, append-nil, list_ext, none, some,
}
use native.Mathlib.Decide.{dec_le}
use dg_cat.Batch.Laws.{IsBatch}
use dg_cat.Batch.{ConsumerBatch, make_batch, gather}
use dg_cat.Queue.{BufferQueue, ok, get_data_locked, consumer_copy_bytes, consumer_commit_batch}
use dg_cat.Queue.Window.{
  wrap, contents, IsValid, length-contents, get_or-contents, mod-eq-wrap, contents-eq,
}

take-min : (n : ℕ) (xs : List ℕ) → take n xs ≡ take (min (length xs) n) xs
take-min zero xs = let e : min (length xs) 0 ≡ 0 = omega arith in rw e
take-min (suc n) [] = ground arith
take-min (suc n) (x ∷ xs) = ground (arith, take-min n xs)

-- The first `k` bytes of a valid ring lie in one piece or, round the end, in two.
module _ (q : BufferQueue) (k : ℕ) (v : IsValid q) (held : k ≤ q.n) where
  pub one_piece :
      q.consumer_index + k ≤ q.max_n → slice q.cells q.consumer_index k ≡ take k (contents q)
  one_piece fits =
      list_ext 0 _ _
        (omega (
          arith,
          length-slice q.cells q.consumer_index k,
          length-take k (contents q),
          length-contents q,
        ))
        λ i h. ground (
          arith,
          length-slice q.cells q.consumer_index k,
          get_or-slice q.cells q.consumer_index k i,
          get_or-take k (contents q) i 0,
          get_or-contents q i,
        )

  pub two_pieces :
      q.max_n ≤ q.consumer_index + k
      → let n1 = q.max_n - q.consumer_index in
        slice q.cells q.consumer_index n1 ++ slice q.cells 0 (k - n1) ≡ take k (contents q)
  two_pieces round =
      let n1 = q.max_n - q.consumer_index in
      let first = slice q.cells q.consumer_index n1 in
      let second = slice q.cells 0 (k - n1) in
      list_ext 0 _ _
        (omega (
          arith,
          length-slice q.cells q.consumer_index n1,
          length-slice q.cells 0 (k - n1),
          length-append first second,
          length-take k (contents q),
          length-contents q,
        ))
        λ i h. ground (
          arith,
          length-append first second,
          length-slice q.cells q.consumer_index n1,
          length-slice q.cells 0 (k - n1),
          get_or-append first second i 0,
          get_or-slice q.cells q.consumer_index n1 i,
          get_or-slice q.cells 0 (k - n1) (i - n1),
          get_or-take k (contents q) i 0,
          get_or-contents q i,
        )

-- `consumer_copy_bytes` on a valid ring of at most as many bytes as are held copies the oldest ones, in order.
pub consumer_copy_bytes_lem :
    (q : BufferQueue) (k : ℕ)
    → IsValid q
    → k ≤ q.n
    → consumer_copy_bytes q k ≡ ok (take k (contents q))
unfolding consumer_copy_bytes
consumer_copy_bytes_lem q k v held = elim (dec_le (q.consumer_index + k) q.max_n) [
  | yes fits ↦ ground (arith, one_piece q k v held)
  | no round ↦ ground (arith, two_pieces q k v held)
]

-- `consumer_commit_batch` on a valid ring, of at least one and at most as many bytes as are held,
-- frees the oldest bytes: the ring stays valid, the rest stays in order, the
-- waiting threads are notified.
pub consumer_commit_batch_lem :
    (q : BufferQueue) (k : ℕ)
    → IsValid q
    → k ≤ q.n
    → 0 < k
    → (q' : BufferQueue) × (consumer_commit_batch q k ≡ ok q')
      × IsValid q'
      × (contents q' ≡ drop k (contents q))
      × (q'.n ≡ q.n - k)
      × (q'.max_n ≡ q.max_n)
      × (q'.is_eof ≡ q.is_eof)
      × (q'.notified ≡ q.notified + 1)
unfolding consumer_commit_batch
consumer_commit_batch_lem q k v held pos = (after, result, valid, bytes, refl, refl, refl, refl)
  where
    after : BufferQueue
    after = record q {
      consumer_index = wrap q.max_n (q.consumer_index + k);
      n = q.n - k;
      notified = q.notified + 1;
    }

    result : consumer_commit_batch q k ≡ ok after
    result = ground (arith, mod-eq-wrap q.max_n (q.consumer_index + k))

    valid : IsValid after
    valid = ground arith

    bytes : contents after ≡ drop k (contents q)
    bytes =
        contents-eq after (drop k (contents q))
          (omega (arith, length-drop k (contents q), length-contents q))
          λ i h. ground (arith, get_or-drop k (contents q) i 0, get_or-contents q (k + i))

pub consumer_commit_batch-index :
    (q q' : BufferQueue) (k : ℕ)
    → IsValid q
    → k ≤ q.n
    → 0 < k
    → consumer_commit_batch q k ≡ ok q'
    → q'.consumer_index ≡ wrap q.max_n (q.consumer_index + k)
unfolding consumer_commit_batch
consumer_commit_batch-index q q' k v held pos ran =
    ground (arith, mod-eq-wrap q.max_n (q.consumer_index + k))

-- `get_data_locked` hands out a well-formed batch for the oldest bytes of a valid ring: all of them,
-- or `n_max` if that is less.
pub get_data_locked_lem :
    (q : BufferQueue) (n_max : ℕ)
    → IsValid q
    → let b = get_data_locked q n_max in
      IsBatch q.cells b × (gather q.cells b ≡ take n_max (contents q)) × (b.n ≡ min q.n n_max)
unfolding get_data_locked make_batch
get_data_locked_lem q n_max v = (ground arith, bytes, ground arith)
  where
    bytes : gather q.cells (get_data_locked q n_max) ≡ take n_max (contents q)
    bytes =
        let k = min q.n n_max in
        let n1 = q.max_n - q.consumer_index in
        rw (take-min n_max (contents q), length-contents q)
          (elim (dec_le (q.consumer_index + k) q.max_n) [
            | yes fits ↦
                ground (arith, one_piece q k v, append-nil (slice q.cells q.consumer_index k))
            | no round ↦ ground (arith, two_pieces q k v)
          ])

-- The batch for `k` bytes from index `i` on.
unfoldable pub batch_at : ℕ → ℕ → ℕ → ConsumerBatch
unfolding make_batch
batch_at cap i k =
    if leb (i + k) cap
    then make_batch (some i) k none 0
    else make_batch (some i) (cap - i) (some 0) (k - (cap - i))

pub get_data_locked-eq :
    (q : BufferQueue) (n_max : ℕ)
    → IsValid q
    → 0 < min q.n n_max
    → get_data_locked q n_max ≡ batch_at q.max_n q.consumer_index (min q.n n_max)
unfolding get_data_locked batch_at
get_data_locked-eq q n_max v pos = ground arith

-- Such a batch stands for the oldest bytes as long as they are not freed, whatever is added.
pub gather-batch_at :
    (q : BufferQueue) (k : ℕ)
    → IsValid q
    → k ≤ q.n
    → (gather q.cells (batch_at q.max_n q.consumer_index k) ≡ take k (contents q))
      × ((batch_at q.max_n q.consumer_index k).n ≡ k)
unfolding batch_at
gather-batch_at q k v held = elim (dec_le (q.consumer_index + k) q.max_n) [
  | yes fits ↦ (
    ground (arith, one_piece q k v held, append-nil (slice q.cells q.consumer_index k)),
    ground arith,
  )
  | no round ↦ (ground (arith, two_pieces q k v held), ground arith)
]
