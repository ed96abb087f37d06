-- ===== src/Tests/Copies.antt =====
-- A copy of one datagram to a file, step by step, and a copy whose destination fails.
use dg_cat.Common.{
  concat, ℕ, ◌+◌, ◌-◌, ◌≤◌, ◌≡◌, refl, subst, true, false, List, [], ◌∷◌, ◌++◌, none, some, arith,
  length, take, replicate,
}
use dg_cat.Stats.{DgBufferStats, new_buffer_stats}
use dg_cat.Batch.{ConsumerBatch, make_batch}
use dg_cat.Queue.{
  BufferQueue, ok, ready, producer_set_eof, consumer_start_batch, start_wake, consumer_commit_batch,
  new_queue, put_data_locked_no_notify, get_data_locked,
}
use dg_cat.Queue.Window.{IsValid}
use dg_cat.Queue.Commit.{
  Mmsghdr, done, classify, store_datagram, put_frame, commit_loop, producer_commit_batch,
  commit_wake, count_datagram,
}
use dg_cat.Queue.Commit.Append.{IsMessage, stream}
use dg_cat.Copier.{
  blocked, ended, starting, finished, broken, System, settle, Step, Reach, here, next,
}
use dg_cat.Copier.Invariant.{pending, due}
use dg_cat.Copier.Delivery.{initial, Reach-accounts, finished-missed}
use dg_cat.Copier.Stuck.{IsStuck, Reach-IsStuck}
use dg_cat.Tests.{small_message, little_endian, ring, large_message, large-IsMessage}

-- a message of three bytes in a buffer of twelve
abbrev pub read_message : Mmsghdr
read_message = record small_message { iov_base = 55 ∷ 56 ∷ 57 ∷ replicate 9 0 }

pub read-IsMessage : IsMessage read_message
read-IsMessage = record { short = omega arith; backed = omega arith }

abbrev pub batches : List (List Mmsghdr)
batches = (read_message ∷ []) ∷ []

abbrev pub begin : System
begin = initial 16 new_buffer_stats batches

-- The queue with the frame, with the end of file, and without the frame again.
abbrev counted : DgBufferStats
counted = record {
  max_backlog_bytes = 7;
  n_datagrams = 1;
  n_datagrams_discarded = 0;
  n_datagram_bytes = 3;
  min_datagram_size = 3;
  max_datagram_size = 3;
  first_datagram_size = 3;
}

abbrev pub committed : BufferQueue
committed = record {
  max_n = 16;
  consumer_index = 0;
  is_eof = false;
  cells = 0 ∷ 0 ∷ 0 ∷ 3 ∷ 55 ∷ 56 ∷ 57 ∷ replicate 9 0;
  producer_index = 7;
  stats = counted;
  shared_stats = counted;
  n = 7;
  notified = 1;
}

abbrev pub closed : BufferQueue
closed = record committed { is_eof = true; notified = 2 }

abbrev pub emptied : BufferQueue
emptied = record closed { consumer_index = 7; n = 0; notified = 3 }

abbrev pub whole_batch : ConsumerBatch
whole_batch = record {
  iov0 = record { iov_base = some 0; iov_len = 7 };
  iov1 = record { iov_base = none; iov_len = 0 };
  n_iov = 1;
  n = 7;
}

abbrev pub no_batch : ConsumerBatch
no_batch = record {
  iov0 = record { iov_base = none; iov_len = 0 };
  iov1 = record { iov_base = none; iov_len = 0 };
  n_iov = 0;
  n = 0;
}

pub called : producer_commit_batch little_endian begin.queue (read_message ∷ []) ≡ done committed
unfolding new_queue producer_commit_batch commit_loop classify store_datagram put_frame
    put_data_locked_no_notify count_datagram
called = refl

pub takes : consumer_start_batch closed 1 8 ≡ ready whole_batch
unfolding consumer_start_batch get_data_locked make_batch
takes = refl

takes_none : consumer_start_batch emptied 1 8 ≡ ready no_batch
unfolding consumer_start_batch start_wake get_data_locked make_batch
takes_none = refl

pub frees : consumer_commit_batch closed 7 ≡ ok emptied
unfolding consumer_commit_batch
frees = refl

-- The states of a run in which `write` takes `k` of the seven bytes.
abbrev pub at_start : System
at_start = record {
  queue = closed;
  producer = ended [];
  consumer = starting;
  file = [];
  missed = 0;
  forced = false;
}

abbrev pub at_end : List ℕ → ℕ → System
at_end file missed = record {
  queue = emptied;
  producer = ended [];
  consumer = finished;
  file = file;
  missed = missed;
  forced = false;
}

pub to_start : Reach little_endian 8 begin at_start
unfolding producer_set_eof
to_start =
    next
      (next
        (next here (
          subst (λ r. Step little_endian 8 begin (settle begin r [])) called
            (Step.call (read_message ∷ []) [] refl)))
        (Step.leave refl))
      (Step.close [] refl)

run :
    (k : ℕ)
    → k ≤ 7
    → Reach little_endian 8 begin
        (at_end (take k (0 ∷ 0 ∷ 0 ∷ 3 ∷ 55 ∷ 56 ∷ 57 ∷ [])) (0 + (7 - k)))
run k h =
    next
      (next
        (next
          (next (next to_start (Step.start whole_batch refl takes))
            (Step.write whole_batch k refl h))
          (Step.free 7 emptied refl frees))
        (Step.start no_batch refl takes_none))
      (Step.check refl)

pub whole_run : Reach little_endian 8 begin (at_end (0 ∷ 0 ∷ 0 ∷ 3 ∷ 55 ∷ 56 ∷ 57 ∷ []) 0)
whole_run = run 7 (omega arith)

short_run : Reach little_endian 8 begin (at_end (0 ∷ 0 ∷ 0 ∷ 3 ∷ []) 3)
short_run = run 4 (omega arith)

finished-missed_example :
    (lost : List Mmsghdr) × (ended [] ≡ ended lost)
    × (4 + 3 + length (stream lost) ≡ length (stream (concat batches)))
finished-missed_example =
    finished-missed little_endian 8 16 new_buffer_stats batches (omega arith) (omega arith)
      (omega arith) (read-IsMessage, tt) short_run refl

Reach-accounts_example :
    IsValid closed
    × ([] ++ (due starting closed ++ stream (pending (ended []))) ≡ stream (concat batches))
Reach-accounts_example =
    Reach-accounts little_endian 8 16 new_buffer_stats batches (omega arith) (omega arith)
      (omega arith) (read-IsMessage, tt) to_start refl

-- The source waits with a message of five bytes for a ring that is too full, and nobody empties it.
abbrev stuck : System
stuck = record {
  queue = record ring { n = 8; producer_index = 4 };
  producer = blocked large_message [] [];
  consumer = broken;
  file = [];
  missed = 0;
  forced = false;
}

stuck-IsStuck : IsStuck stuck
stuck-IsStuck = record {
  valid = record {
    positive = omega arith;
    small = omega arith;
    storage = refl;
    consumer_in = omega arith;
    fill = omega arith;
    producer_at = refl;
  };
  gone = refl;
  message = large_message;
  behind = [];
  rest = [];
  held = refl;
  small = large-IsMessage;
  full = omega arith;
}

Reach-IsStuck_example :
    settle stuck (commit_wake little_endian stuck.queue large_message []) [] ≡ stuck
Reach-IsStuck_example =
    Reach-IsStuck little_endian 8 stuck-IsStuck (next here (Step.wake large_message [] [] refl))
