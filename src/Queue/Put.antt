-- ===== src/Queue/Put.antt =====
-- `put_data_locked_no_notify` of buffer_queue.hpp against the ring's contents.
use dg_cat.Common.{
  ℕ, zero, suc, ◌+◌, ◌-◌, ◌≤◌, ◌<◌, ◌≡◌, refl, List, ◌++◌, sym, arith, length, get_or, take, slice,
  blit, ltb, if◌then◌else◌, length-take, length-slice, get_or-slice, get_or-blit, length-blit,
  get_or-append, get_or-take, length-append, append-nil,
}
use native.Mathlib.Decide.{dec_le}
use dg_cat.Queue.{BufferQueue, put_data_locked_no_notify}
use dg_cat.Queue.Window.{
  wrap, cell_at, contents, IsValid, length-contents, get_or-contents, mod-eq-wrap, contents-eq,
}

-- What the call does to a valid ring with room: one copy, or two round the end of the storage.
module _ (q : BufferQueue) (src : List ℕ) (k : ℕ) (v : IsValid q) (len : k ≤ length src)
    (some_bytes : 0 < k) (room : q.n + k ≤ q.max_n) where
  put_one :
      q.producer_index + k ≤ q.max_n
      → put_data_locked_no_notify q src k ≡ record q {
        cells = blit q.cells q.producer_index (take k src);
        producer_index = wrap q.max_n (q.producer_index + k);
        n = q.n + k;
      }
  unfolding put_data_locked_no_notify
  put_one fits = ground (arith, mod-eq-wrap q.max_n (q.producer_index + k))

  put_two :
      q.max_n < q.producer_index + k
      → let n1 = q.max_n - q.producer_index in
        put_data_locked_no_notify q src k ≡ record q {
          cells = blit (blit q.cells q.producer_index (take n1 src)) 0 (slice src n1 (k - n1));
          producer_index = k - n1;
          n = q.n + k;
        }
  unfolding put_data_locked_no_notify
  put_two round =
      ground
        (arith, mod-eq-wrap q.max_n q.max_n, mod-eq-wrap q.max_n (q.producer_index + k - q.max_n))

  abbrev after_put : BufferQueue
  after_put = put_data_locked_no_notify q src k

  put_valid :
      (length after_put.cells ≡ q.max_n)
      × (after_put.n ≡ q.n + k)
      × (after_put.producer_index ≡ wrap q.max_n (q.consumer_index + (q.n + k)))
  put_valid = elim (dec_le (q.producer_index + k) q.max_n) [
    | yes fits ↦ ground (arith, put_one fits, length-blit q.cells q.producer_index (take k src))
    | no round ↦ ground (
      arith,
      put_two (omega arith),
      length-blit q.cells q.producer_index (take (q.max_n - q.producer_index) src),
      length-blit (blit q.cells q.producer_index (take (q.max_n - q.producer_index) src)) 0
          (slice src (q.max_n - q.producer_index) (k - (q.max_n - q.producer_index))),
    )
  ]

  put_fixed :
      (after_put.max_n ≡ q.max_n)
      × (after_put.consumer_index ≡ q.consumer_index)
      × (after_put.is_eof ≡ q.is_eof)
      × (after_put.stats ≡ q.stats)
      × (after_put.shared_stats ≡ q.shared_stats)
      × (after_put.notified ≡ q.notified)
  unfolding put_data_locked_no_notify
  put_fixed = ground arith

  -- Byte `i` of the ring after the call.
  put_cell :
      (i : ℕ)
      → i < q.n + k
      → cell_at after_put i ≡ (if ltb i q.n then cell_at q i else get_or src (i - q.n) 0)
  put_cell i h = elim (dec_le (q.producer_index + k) q.max_n) [
    | yes fits ↦ ground (
      arith,
      put_one fits,
      get_or-blit q.cells q.producer_index (take k src) (wrap q.max_n (q.consumer_index + i)),
      length-take k src,
      get_or-take k src (wrap q.max_n (q.consumer_index + i) - q.producer_index) 0,
    )
    | no round ↦
        let n1 = q.max_n - q.producer_index in
        let cells1 = blit q.cells q.producer_index (take n1 src) in
        let at = wrap q.max_n (q.consumer_index + i) in
        ground (
          arith,
          put_two (omega arith),
          length-blit q.cells q.producer_index (take n1 src),
          get_or-blit q.cells q.producer_index (take n1 src) at,
          get_or-blit cells1 0 (slice src n1 (k - n1)) at,
          length-take n1 src,
          get_or-take n1 src (at - q.producer_index) 0,
          length-slice src n1 (k - n1),
          get_or-slice src n1 (k - n1) at,
        )
  ]

  put_some : IsValid after_put × (contents after_put ≡ contents q ++ take k src)
  put_some = (
    ground (arith, put_valid, put_fixed),
    contents-eq after_put (contents q ++ take k src) total bytes,
  )
    where
      total : after_put.n ≡ length (contents q ++ take k src)
      total = omega (
        arith,
        put_valid,
        length-append (contents q) (take k src),
        length-contents q,
        length-take k src,
      )

      bytes :
          (i : ℕ) → i < after_put.n → cell_at after_put i ≡ get_or (contents q ++ take k src) i 0
      bytes i h = ground (
        arith,
        put_valid,
        put_cell i,
        get_or-append (contents q) (take k src) i 0,
        length-contents q,
        get_or-contents q i,
        get_or-take k src (i - q.n) 0,
      )

-- `put_data_locked_no_notify` on a valid ring with room for the bytes leaves a valid ring that holds
-- the old contents followed by the bytes, and changes neither the consumer's index, the end-of-file
-- flag, the statistics nor the capacity.
pub put_data_locked_no_notify_lem :
    (q : BufferQueue) (src : List ℕ) (k : ℕ)
    → IsValid q
    → k ≤ length src
    → q.n + k ≤ q.max_n
    → let q' = put_data_locked_no_notify q src k in
      IsValid q'
      × (contents q' ≡ contents q ++ take k src)
      × (q'.n ≡ q.n + k)
      × (q'.max_n ≡ q.max_n)
      × (q'.consumer_index ≡ q.consumer_index)
      × (q'.is_eof ≡ q.is_eof)
      × (q'.stats ≡ q.stats)
      × (q'.shared_stats ≡ q.shared_stats)
      × (q'.notified ≡ q.notified)
unfolding put_data_locked_no_notify
put_data_locked_no_notify_lem q src zero v len room =
    (v, sym (append-nil (contents q)), omega arith, refl, refl, refl, refl, refl, refl)
put_data_locked_no_notify_lem q src (suc k) v len room =
    let (valid, bytes) = put_some q src (suc k) v len (omega arith) room in
    let (_, count, _) = put_valid q src (suc k) v len (omega arith) room in
    let fixed = put_fixed q src (suc k) v len (omega arith) room in
    (valid, bytes, count, fixed.0, fixed.1, fixed.2, fixed.3, fixed.4, fixed.5)
