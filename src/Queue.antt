-- ===== src/Queue.antt =====
-- include/dg_cat/buffer_queue.hpp: the ring of bytes between a producer and a consumer. A method
-- runs under the queue's mutex, so it is a function of the queue's state; one that waits on the
-- condition variable returns the state at which it waits. A call of `notify_all` is counted.
pub mod Window
pub mod Put
pub mod Take
pub mod Waits
pub mod Commit
pub mod Fifo
use dg_cat.Common.{
  ℕ, ◌+◌, ◌%◌, Bool, true, false, ◌||◌, List, [], ◌++◌, none, some, min, replicate, take, slice,
  blit, ltb, leb, ◌==◌, if◌then◌else◌, add_size, sub_size,
}
use dg_cat.Stats.{DgBufferStats, new_buffer_stats}
use dg_cat.Batch.{ConsumerBatch, make_batch}

pub record BufferQueue : Type 0 where
  pub max_n : ℕ
  pub cells : List ℕ
  pub producer_index : ℕ
  pub consumer_index : ℕ
  pub stats : DgBufferStats
  pub shared_stats : DgBufferStats
  pub n : ℕ
  pub is_eof : Bool
  pub notified : ℕ

pub data Error : Type 0 where
  after_eof datagram_too_large requested_too_many copied_too_many freed_too_many : Error

pub data Result {ℓ} (A : Type ℓ) : Type ℓ where
  ok : A → Result A
  err : Error → Result A

-- The constructor, given `config.max_backlog` and the shared statistics.
unfoldable pub new_queue : ℕ → DgBufferStats → BufferQueue
new_queue max_backlog shared = record {
  max_n = max_backlog;
  cells = replicate max_backlog 0;
  producer_index = 0;
  consumer_index = 0;
  stats = new_buffer_stats;
  shared_stats = shared;
  n = 0;
  is_eof = false;
  notified = 0;
}

abbrev pub notify_all : BufferQueue → BufferQueue
notify_all q = record q { notified = q.notified + 1 }

unfoldable pub producer_set_eof : BufferQueue → BufferQueue
producer_set_eof q = notify_all (record q { is_eof = true })

abbrev pub n_free_locked : BufferQueue → ℕ
n_free_locked q = sub_size q.max_n q.n

unfoldable pub n_free : BufferQueue → ℕ
n_free q = sub_size q.max_n q.n

-- What a waiting call has come to: a result, or still waiting for its predicate.
pub data Waited {ℓ} (A : Type ℓ) : Type ℓ where
  ready : A → Waited A
  waits : Waited A
  throws : Error → Waited A

-- The wait of `producer_reserve_bytes`, each time that its predicate is looked at.
unfoldable pub reserve_wake : BufferQueue → ℕ → Waited ℕ
reserve_wake q need = if leb (add_size q.n need) q.max_n then ready (n_free_locked q) else waits

unfoldable pub producer_reserve_bytes : BufferQueue → ℕ → Waited ℕ
unfolding reserve_wake
producer_reserve_bytes q n_min =
    if q.is_eof
    then throws after_eof
    else (let need = min n_min q.max_n in
        if ltb (n_free_locked q) need then reserve_wake q need else ready (n_free_locked q))

-- The overload with a time limit: `expired` says that the limit was met.
unfoldable pub reserve_wake_until : Bool → BufferQueue → ℕ → Waited ℕ
reserve_wake_until expired q need =
    if leb (add_size q.n need) q.max_n || expired then ready (n_free_locked q) else waits

unfoldable pub producer_reserve_bytes_until : Bool → BufferQueue → ℕ → Waited ℕ
unfolding reserve_wake_until
producer_reserve_bytes_until expired q n_min =
    if q.is_eof
    then throws after_eof
    else (let need = min n_min q.max_n in
        if ltb (n_free_locked q) need
        then reserve_wake_until expired q need
        else ready (n_free_locked q))

unfoldable pub put_data_locked_no_notify : BufferQueue → List ℕ → ℕ → BufferQueue
put_data_locked_no_notify q src k =
    if k == 0
    then q
    else (let n1 = min k (sub_size q.max_n q.producer_index) in
        let cells1 = blit q.cells q.producer_index (take n1 src) in
        let index1 = add_size q.producer_index n1 % q.max_n in
        let n_rem = sub_size k n1 in
        if ltb 0 n_rem
        then record q {
          cells = blit cells1 index1 (slice src n1 n_rem);
          producer_index = add_size index1 n_rem % q.max_n;
          n = add_size q.n k;
        }
        else record q { cells = cells1; producer_index = index1; n = add_size q.n k })

unfoldable pub get_data_locked : BufferQueue → ℕ → ConsumerBatch
get_data_locked q n_max =
    let k = min q.n n_max in
    if k == 0
    then make_batch none 0 none 0
    else (let n1 = min q.n (sub_size q.max_n q.consumer_index) in
        if leb k n1
        then make_batch (some q.consumer_index) k none 0
        else (let n2 = sub_size k n1 in
            if n2 == 0
            then make_batch (some q.consumer_index) n1 none 0
            else make_batch (some q.consumer_index) n1 (some 0) n2))

-- The wait of `consumer_start_batch`, each time that its predicate is looked at.
unfoldable pub start_wake : BufferQueue → ℕ → ℕ → Waited ConsumerBatch
start_wake q n_min n_max =
    if q.is_eof || leb n_min q.n then ready (get_data_locked q n_max) else waits

unfoldable pub consumer_start_batch : BufferQueue → ℕ → ℕ → Waited ConsumerBatch
unfolding start_wake
consumer_start_batch q n_min n_max =
    if ltb q.max_n n_min
    then throws requested_too_many
    else if ltb q.n n_min
    then start_wake q n_min n_max
    else ready (get_data_locked q n_max)

-- The overload with a time limit makes no test of `n_min` against the capacity.
unfoldable pub start_wake_until : Bool → BufferQueue → ℕ → ℕ → Waited ConsumerBatch
start_wake_until expired q n_min n_max =
    if (q.is_eof || leb n_min q.n) || expired then ready (get_data_locked q n_max) else waits

unfoldable pub consumer_start_batch_until : Bool → BufferQueue → ℕ → ℕ → Waited ConsumerBatch
unfolding start_wake_until
consumer_start_batch_until expired q n_min n_max =
    if ltb q.n n_min
    then start_wake_until expired q n_min n_max
    else ready (get_data_locked q n_max)

-- The bytes that are written to `buffer`.
unfoldable pub consumer_copy_bytes : BufferQueue → ℕ → Result (List ℕ)
consumer_copy_bytes q k =
    if k == 0
    then ok []
    else if ltb q.n k
    then err copied_too_many
    else (let n1 = min q.n (sub_size q.max_n q.consumer_index) in
        let first = slice q.cells q.consumer_index (min n1 k) in
        if ltb n1 k then ok (first ++ slice q.cells 0 (sub_size k n1)) else ok first)

unfoldable pub consumer_commit_batch : BufferQueue → ℕ → Result BufferQueue
consumer_commit_batch q k =
    if k == 0
    then ok q
    else if ltb q.n k
    then err freed_too_many
    else ok (
        notify_all
          (record q { consumer_index = add_size q.consumer_index k % q.max_n; n = sub_size q.n k }))
