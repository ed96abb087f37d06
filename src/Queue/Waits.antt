-- ===== src/Queue/Waits.antt =====
-- The calls of buffer_queue.hpp that wait: when they return, and with what.
use dg_cat.Common.{
  ℕ, ◌+◌, ◌-◌, ◌≤◌, ◌<◌, ◌≡◌, true, false, arith, take, ltb, leb, if◌then◌else◌, ◌⊎◌, if_cases, min,
  ◌||◌,
}
use dg_cat.Batch.{ConsumerBatch, gather}
use dg_cat.Batch.Laws.{IsBatch}
use dg_cat.Queue.{
  BufferQueue, Waited, ready, waits, throws, get_data_locked, producer_reserve_bytes,
  consumer_start_batch, start_wake, reserve_wake,
}
use dg_cat.Queue.Window.{contents, IsValid}
use dg_cat.Queue.Take.{get_data_locked_lem}

-- On a valid ring, before the end of file, `producer_reserve_bytes` returns the number of free bytes
-- exactly when as many as asked for, or the whole capacity if that is less, are free, and waits
-- otherwise.
pub producer_reserve_bytes_lem :
    (q : BufferQueue) (n_min : ℕ)
    → IsValid q
    → q.is_eof ≡ false
    → producer_reserve_bytes q n_min
      ≡ (if leb (q.n + min n_min q.max_n) q.max_n then ready (q.max_n - q.n) else waits)
unfolding producer_reserve_bytes reserve_wake
producer_reserve_bytes_lem q n_min v h = ground arith

-- A batch that `consumer_start_batch` hands out is well formed, stands for the oldest bytes up to
-- `n_max`, and there were as many bytes as asked for unless the end of file is set.
abbrev pub Handed : BufferQueue → ℕ → ℕ → Waited ConsumerBatch → Type 0
Handed q n_min n_max (ready b) =
    IsBatch q.cells b
    × (gather q.cells b ≡ take n_max (contents q))
    × (b.n ≡ min q.n n_max)
    × ((q.is_eof ≡ true) ⊎ (n_min ≤ q.n))
Handed q n_min n_max waits = (q.is_eof ≡ false) × (q.n < n_min)
Handed q n_min n_max (throws x) = q.max_n < n_min

-- `consumer_start_batch` on a valid ring: a batch as described by `Handed`; it waits only before the
-- end of file and with fewer bytes than asked for; it throws only if more than the capacity is asked
-- for.
pub consumer_start_batch_lem :
    (q : BufferQueue) (n_min n_max : ℕ)
    → IsValid q
    → Handed q n_min n_max (consumer_start_batch q n_min n_max)
unfolding consumer_start_batch start_wake
consumer_start_batch_lem q n_min n_max v =
    let g = get_data_locked_lem q n_max v in
    if_cases (Handed q n_min n_max) (ltb q.max_n n_min) _ _ (λ h. ground arith)
      (λ h.
        if_cases (Handed q n_min n_max) (ltb q.n n_min) _ _
          (λ k.
            if_cases (Handed q n_min n_max) (q.is_eof || leb n_min q.n) _ _
              (λ l. (g.0, g.1, g.2, ground arith)) (λ l. ground arith))
          (λ k. (g.0, g.1, g.2, ground arith)))

pub start_batch-data :
    (q : BufferQueue) (n_min n_max : ℕ) (b : ConsumerBatch)
    → consumer_start_batch q n_min n_max ≡ ready b
    → b ≡ get_data_locked q n_max
unfolding consumer_start_batch start_wake
start_batch-data q n_min n_max b h = ground arith
