-- ===== src/UdpCopier.antt =====
-- A copy to a UDP socket: the producer thread and the consumer thread of `DatagramCopier::start` in
-- include/dg_cat/datagram_copier.hpp, the consumer being
-- `UdpDatagramDestination::copy_from_buffer_queue` of include/dg_cat/udp_datagram_destination.hpp. The
-- producer is any source, as in `Copier`; a step is one stretch of either thread that runs under the
-- queue's mutex, or one system call with the computation before it. Here a thread that waits may look
-- at the queue again at any time; in Notified it does so behind a `notify_all` only.
pub mod Sends
pub mod Invariant
pub mod Held
pub mod Moves
pub mod Steps
pub mod Delivery
pub mod Refusals
pub mod Relays
pub mod Forwards
pub mod Replays
pub mod Progress
pub mod Ends
pub mod Notified
pub mod Wakes
use dg_cat.Common.{ℕ, ◌+◌, ◌≡◌, Bool, true, false, List, [], ◌∷◌, ◌++◌, concat}
use dg_cat.Wire.{Endian, prefix_len}
use dg_cat.Stats.{DgBufferStats}
use dg_cat.Batch.{ConsumerBatch}
use dg_cat.Queue.{
  BufferQueue, Error, ok, ready, throws, producer_set_eof, consumer_start_batch,
  consumer_commit_batch, new_queue,
}
use dg_cat.Queue.Commit.Append.{result_queue}
use dg_cat.Queue.Commit.{Mmsghdr, CommitResult, producer_commit_batch, commit_wake}
use dg_cat.Copier.{Producer, calling, blocked, closing, ended, producer_next}
use dg_cat.UdpDestination.{leaves, asks, refuses, sends, size_max, send_batch}

-- Where the destination's thread stands: before `consumer_start_batch`, with a batch, before
-- `consumer_commit_batch`, behind the loop, or behind an exception.
pub data Sender : Type 0 where
  starting : Sender
  holding : ConsumerBatch → Sender
  freeing : ℕ → Sender
  finished : Sender
  broken : Sender

-- `given` is what was given to `sendmsg` without a failure that is thrown, `sent` what it sent, and
-- `refused` how many datagrams it refused (ECONNREFUSED, which is passed over); `forced` says that the
-- source's loop was ended by `force_eof`.
pub record System : Type 0 where
  pub queue : BufferQueue
  pub producer : Producer
  pub sender : Sender
  pub n_min : ℕ
  pub given : List (List ℕ)
  pub sent : List (List ℕ)
  pub refused : ℕ
  pub forced : Bool

abbrev pub settle : System → CommitResult → List (List Mmsghdr) → System
settle s r rest = record s { queue = result_queue r; producer = producer_next r rest }

module _ (e : Endian) where
  pub data Step (s : System) : System → Type 0 where
    -- `producer_commit_batch` by the source
    call :
        (ms : List Mmsghdr) (rest : List (List Mmsghdr))
        → s.producer ≡ calling (ms ∷ rest)
        → Step s (settle s (producer_commit_batch e s.queue ms) rest)
    wake :
        (m : Mmsghdr) (ms : List Mmsghdr) (rest : List (List Mmsghdr))
        → s.producer ≡ blocked m ms rest
        → Step s (settle s (commit_wake e s.queue m ms) rest)
    -- `force_eof` by whomever, which the source's loop finds between two calls
    force :
        (rest : List (List Mmsghdr))
        → s.producer ≡ calling rest
        → Step s (record s { producer = closing (concat rest); forced = true })
    -- the end of `copy_to_buffer_queue`, then `producer_set_eof`
    leave : s.producer ≡ calling [] → Step s (record s { producer = closing [] })
    close :
        (lost : List Mmsghdr)
        → s.producer ≡ closing lost
        → Step s (record s { queue = producer_set_eof s.queue; producer = ended lost })
    -- `consumer_start_batch(n_min)`
    start :
        (b : ConsumerBatch)
        → s.sender ≡ starting
        → consumer_start_batch s.queue s.n_min size_max ≡ ready b
        → Step s (record s { sender = holding b })
    refuse :
        (x : Error)
        → s.sender ≡ starting
        → consumer_start_batch s.queue s.n_min size_max ≡ throws x
        → Step s (record s { sender = broken })
    -- the end of the loop, `continue`, the exception of `copy_and_remove_bytes`
    finish :
        (b : ConsumerBatch)
        → s.sender ≡ holding b
        → send_batch e s.queue.cells s.n_min b ≡ leaves
        → Step s (record s { sender = finished })
    ask :
        (b : ConsumerBatch) (k : ℕ)
        → s.sender ≡ holding b
        → send_batch e s.queue.cells s.n_min b ≡ asks k
        → Step s (record s { sender = starting; n_min = k })
    reject :
        (b : ConsumerBatch)
        → s.sender ≡ holding b
        → send_batch e s.queue.cells s.n_min b ≡ refuses
        → Step s (record s { sender = broken })
    -- `sendmsg`, which sends, gets ECONNREFUSED, or fails otherwise
    send :
        (b : ConsumerBatch) (bs : List ℕ) (k : ℕ)
        → s.sender ≡ holding b
        → send_batch e s.queue.cells s.n_min b ≡ sends bs k
        → Step s (record s {
          sender = freeing k;
          given = s.given ++ (bs ∷ []);
          sent = s.sent ++ (bs ∷ []);
        })
    send_refused :
        (b : ConsumerBatch) (bs : List ℕ) (k : ℕ)
        → s.sender ≡ holding b
        → send_batch e s.queue.cells s.n_min b ≡ sends bs k
        → Step s
            (record s { sender = freeing k; given = s.given ++ (bs ∷ []); refused = s.refused + 1 })
    send_error :
        (b : ConsumerBatch) (bs : List ℕ) (k : ℕ)
        → s.sender ≡ holding b
        → send_batch e s.queue.cells s.n_min b ≡ sends bs k
        → Step s (record s { sender = broken })
    -- `consumer_commit_batch(batch.n + PREFIX_LEN)`
    free :
        (k : ℕ) (q : BufferQueue)
        → s.sender ≡ freeing k
        → consumer_commit_batch s.queue k ≡ ok q
        → Step s (record s { queue = q; sender = starting })

  -- The states that can follow one after the other.
  pub data Reach (s : System) : System → Type 0 where
    here : Reach s s
    next : {t u : System} → Reach s t → Step t u → Reach s u

-- `DatagramCopier::start` with the batches that the source will produce.
abbrev pub initial : ℕ → DgBufferStats → List (List Mmsghdr) → System
initial max_backlog shared batches = record {
  queue = new_queue max_backlog shared;
  producer = calling batches;
  sender = starting;
  n_min = prefix_len;
  given = [];
  sent = [];
  refused = 0;
  forced = false;
}
