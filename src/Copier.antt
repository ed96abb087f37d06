-- ===== src/Copier.antt =====
-- A copy to a file: the producer thread and the consumer thread of `DatagramCopier::start` in
-- include/dg_cat/datagram_copier.hpp, the consumer being
-- `FileDatagramDestination::copy_from_buffer_queue` of include/dg_cat/file_datagram_destination.hpp.
-- The producer is any source: a list of batches that it hands to `producer_commit_batch`. A step is
-- one stretch of either thread that runs under the queue's mutex, or one system call. Here a thread
-- that waits may look at the queue again at any time; in Notified it does so behind a `notify_all`
-- only.
pub mod Invariant
pub mod Steps
pub mod Delivery
pub mod Stuck
pub mod Progress
pub mod Lossless
pub mod FileToFile
pub mod RandomToFile
pub mod UdpToFile
pub mod Ends
pub mod Waits
pub mod Notified
pub mod Wakes
use dg_cat.Common.{
  concat, ℕ, ◌+◌, ◌-◌, ◌≤◌, ◌≡◌, Bool, true, false, List, [], ◌∷◌, ◌++◌, take, length, ◌==◌,
  if◌then◌else◌,
}
use dg_cat.Wire.{Endian}
use dg_cat.Batch.{ConsumerBatch, gather}
use dg_cat.Queue.{
  BufferQueue, Error, ok, ready, throws, producer_set_eof, consumer_start_batch,
  consumer_commit_batch,
}
use dg_cat.Queue.Commit.Append.{result_queue}
use dg_cat.Queue.Commit.{
  Mmsghdr, CommitResult, done, waiting, failed, producer_commit_batch, commit_wake,
}

-- Where the source's thread stands. In `calling` the source has these batches still to commit, in
-- `blocked` it waits inside a call; `closing` is behind `copy_to_buffer_queue`, returned or thrown,
-- and `ended` behind `producer_set_eof`: these two name the messages that an exception left out.
pub data Producer : Type 0 where
  calling : List (List Mmsghdr) → Producer
  blocked : Mmsghdr → List Mmsghdr → List (List Mmsghdr) → Producer
  closing : List Mmsghdr → Producer
  ended : List Mmsghdr → Producer

-- Where the destination's thread stands: before `consumer_start_batch`, with a batch before `write`,
-- before `consumer_commit_batch`, before `is_eof`, behind the loop, or behind an exception.
pub data Consumer : Type 0 where
  starting : Consumer
  holding : ConsumerBatch → Consumer
  freeing : ℕ → Consumer
  checking : Consumer
  finished : Consumer
  broken : Consumer

-- `missed` counts the bytes that `write` was given and did not take; `forced` says that the source's
-- loop was ended by `force_eof`.
pub record System : Type 0 where
  pub queue : BufferQueue
  pub producer : Producer
  pub consumer : Consumer
  pub file : List ℕ
  pub missed : ℕ
  pub forced : Bool

-- How a call of `producer_commit_batch` leaves the source's thread.
abbrev pub producer_next : CommitResult → List (List Mmsghdr) → Producer
producer_next (done q) rest = calling rest
producer_next (waiting q m ms) rest = blocked m ms rest
producer_next (failed x q ms) rest = closing (ms ++ concat rest)

abbrev pub settle : System → CommitResult → List (List Mmsghdr) → System
settle s r rest = record s { queue = result_queue r; producer = producer_next r rest }

-- the test of `n_iovecs` behind `consumer_start_batch`
abbrev pub take_batch : ConsumerBatch → Consumer
take_batch b = if b.n_iov == 0 then checking else holding b

module _ (e : Endian) (max_write_size : ℕ) where
  pub data Step (s : System) : System → Type 0 where
    -- `producer_commit_batch` by the source
    call :
        (ms : List Mmsghdr) (rest : List (List Mmsghdr))
        → s.producer ≡ calling (ms ∷ rest)
        → Step s (settle s (producer_commit_batch e s.queue ms) rest)
    wake :
        (m : Mmsghdr) (ms : List Mmsghdr) (rest : List (List Mmsghdr))
        → s.producer ≡ blocked m ms rest
        → Step s (settle s (commit_wake e s.queue m ms) rest)
    -- `force_eof` by whomever, which the source's loop finds between two calls
    force :
        (rest : List (List Mmsghdr))
        → s.producer ≡ calling rest
        → Step s (record s { producer = closing (concat rest); forced = true })
    -- the end of `copy_to_buffer_queue`, then `producer_set_eof`
    leave : s.producer ≡ calling [] → Step s (record s { producer = closing [] })
    close :
        (lost : List Mmsghdr)
        → s.producer ≡ closing lost
        → Step s (record s { queue = producer_set_eof s.queue; producer = ended lost })
    -- `consumer_start_batch(1, max_write_size)`
    start :
        (b : ConsumerBatch)
        → s.consumer ≡ starting
        → consumer_start_batch s.queue 1 max_write_size ≡ ready b
        → Step s (record s { consumer = take_batch b })
    refuse :
        (x : Error)
        → s.consumer ≡ starting
        → consumer_start_batch s.queue 1 max_write_size ≡ throws x
        → Step s (record s { consumer = broken })
    -- `is_eof`
    check :
        s.consumer ≡ checking
        → Step s (record s { consumer = if s.queue.is_eof then finished else starting })
    -- `write` or `writev`, which takes `k` bytes or fails; the code looks at the failure only
    write :
        (b : ConsumerBatch) (k : ℕ)
        → s.consumer ≡ holding b
        → k ≤ b.n
        → Step s (record s {
          consumer = freeing b.n;
          file = s.file ++ take k (gather s.queue.cells b);
          missed = s.missed + (b.n - k);
        })
    write_error :
        (b : ConsumerBatch) → s.consumer ≡ holding b → Step s (record s { consumer = broken })
    -- `consumer_commit_batch(batch.n)`
    free :
        (k : ℕ) (q : BufferQueue)
        → s.consumer ≡ freeing k
        → consumer_commit_batch s.queue k ≡ ok q
        → Step s (record s { queue = q; consumer = starting })

  -- The states that can follow one after the other.
  pub data Reach (s : System) : System → Type 0 where
    here : Reach s s
    next : {t u : System} → Reach s t → Step t u → Reach s u
