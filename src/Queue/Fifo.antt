-- ===== src/Queue/Fifo.antt =====
-- What include/dg_cat/buffer_queue.hpp promises, without a ring: a bounded list of bytes with an
-- end-of-file flag. A call of one of the queue's methods has an answer and a new state, here and for
-- the ring; the overload of `producer_commit_batch` with a time limit is left to Queue/Commit/Until.
pub mod Commits
pub mod Refines
use dg_cat.Common.{
  ℕ, ◌+◌, ◌-◌, Bool, true, false, ◌||◌, List, [], ◌∷◌, ◌++◌, length, take, drop, ltb, leb, min,
  if◌then◌else◌,
}
use dg_cat.Wire.{Endian, prefix_len}
use dg_cat.Batch.{ConsumerBatch, gather}
use dg_cat.Queue.{
  BufferQueue, Error, after_eof, datagram_too_large, requested_too_many, copied_too_many,
  freed_too_many, Result, ok, err, Waited, ready, waits, producer_set_eof, n_free,
  producer_reserve_bytes, producer_reserve_bytes_until, consumer_start_batch,
  consumer_start_batch_until, consumer_copy_bytes, consumer_commit_batch,
}
use dg_cat.Queue.Commit.{
  Mmsghdr, is_discarded, CommitResult, done, waiting, failed, producer_commit_batch, commit_wake,
}
use dg_cat.Queue.Commit.Append.{frame, payload, result_queue}

-- A call, or a wake of a waiting `producer_commit_batch`; a Boolean says that a time limit was met.
pub data Call : Type 0 where
  set_eof : Call
  free_bytes : Call
  reserve : ℕ → Call
  reserve_until : Bool → ℕ → Call
  commit : List Mmsghdr → Call
  wake : Mmsghdr → List Mmsghdr → Call
  start : ℕ → ℕ → Call
  start_until : Bool → ℕ → ℕ → Call
  copy : ℕ → Call
  free : ℕ → Call

-- What a caller sees: nothing, a number, the bytes handed out, a wait with the messages that are
-- left, or an exception.
pub data Answer : Type 0 where
  nothing : Answer
  number : ℕ → Answer
  handed : List ℕ → Answer
  stays : List Mmsghdr → Answer
  raised : Error → Answer

-- The ring's answers.
abbrev pub of_number : Waited ℕ → Answer
of_number (ready n) = number n
of_number waits = stays []
of_number (Waited.throws x) = raised x

abbrev pub of_batch : List ℕ → Waited ConsumerBatch → Answer
of_batch mem (ready b) = handed (gather mem b)
of_batch mem waits = stays []
of_batch mem (Waited.throws x) = raised x

abbrev pub of_copy : Result (List ℕ) → Answer
of_copy (ok bs) = handed bs
of_copy (err x) = raised x

abbrev pub of_free : BufferQueue → Result BufferQueue → BufferQueue × Answer
of_free q (ok q') = (q', nothing)
of_free q (err x) = (q, raised x)

abbrev pub of_commit : CommitResult → Answer
of_commit (done q) = nothing
of_commit (waiting q m ms) = stays (m ∷ ms)
of_commit (failed x q ms) = raised x

abbrev pub call_ring : Endian → BufferQueue → Call → BufferQueue × Answer
call_ring e q set_eof = (producer_set_eof q, nothing)
call_ring e q free_bytes = (q, number (n_free q))
call_ring e q (reserve n) = (q, of_number (producer_reserve_bytes q n))
call_ring e q (reserve_until expired n) = (q, of_number (producer_reserve_bytes_until expired q n))
call_ring e q (commit ms) = let r = producer_commit_batch e q ms in (result_queue r, of_commit r)
call_ring e q (wake m ms) = let r = commit_wake e q m ms in (result_queue r, of_commit r)
call_ring e q (start n_min n_max) = (q, of_batch q.cells (consumer_start_batch q n_min n_max))
call_ring e q (start_until expired n_min n_max) =
    (q, of_batch q.cells (consumer_start_batch_until expired q n_min n_max))
call_ring e q (copy k) = (q, of_copy (consumer_copy_bytes q k))
call_ring e q (free k) = of_free q (consumer_commit_batch q k)

-- The list's.
pub record Fifo : Type 0 where
  pub bytes : List ℕ
  pub closed : Bool
  pub capacity : ℕ

-- A datagram behind its length.
abbrev pub add : Fifo → Mmsghdr → Fifo
add f m = record f { bytes = f.bytes ++ frame (payload m) }

abbrev pub fits : Fifo → Mmsghdr → Bool
fits f m = leb (length f.bytes + m.msg_len + prefix_len) f.capacity

-- Messages are dealt with in order, until one does not fit.
unfoldable pub add_all : Fifo → List Mmsghdr → Fifo × Answer
add_all f [] = (f, nothing)
add_all f (m ∷ ms) = elim (is_discarded m.msg_flags) [
  | true ↦ add_all f ms
  | false ↦ elim (ltb f.capacity (m.msg_len + prefix_len)) [
    | true ↦ (f, raised datagram_too_large)
    | false ↦ elim (fits f m) [ true ↦ add_all (add f m) ms | false ↦ (f, stays (m ∷ ms)) ]
  ]
]

unfoldable pub call_fifo : Fifo → Call → Fifo × Answer
call_fifo f set_eof = (record f { closed = true }, nothing)
call_fifo f free_bytes = (f, number (f.capacity - length f.bytes))
call_fifo f (reserve n) = (
  f,
  if f.closed
      then raised after_eof
      else if leb (length f.bytes + min n f.capacity) f.capacity
      then number (f.capacity - length f.bytes)
      else stays [],
)
call_fifo f (reserve_until expired n) = (
  f,
  if f.closed
      then raised after_eof
      else if leb (length f.bytes + min n f.capacity) f.capacity || expired
      then number (f.capacity - length f.bytes)
      else stays [],
)
call_fifo f (commit []) = (f, nothing)
call_fifo f (commit (m ∷ ms)) = if f.closed then (f, raised after_eof) else add_all f (m ∷ ms)
call_fifo f (wake m ms) = if fits f m then add_all (add f m) ms else (f, stays (m ∷ ms))
call_fifo f (start n_min n_max) = (
  f,
  if ltb f.capacity n_min
      then raised requested_too_many
      else if f.closed || leb n_min (length f.bytes)
      then handed (take n_max f.bytes)
      else stays [],
)
call_fifo f (start_until expired n_min n_max) = (
  f,
  if (f.closed || leb n_min (length f.bytes)) || expired
      then handed (take n_max f.bytes)
      else stays [],
)
call_fifo f (copy k) =
    (f, if leb k (length f.bytes) then handed (take k f.bytes) else raised copied_too_many)
call_fifo f (free k) =
    if leb k (length f.bytes)
    then (record f { bytes = drop k f.bytes }, nothing)
    else (f, raised freed_too_many)

-- A sequence of calls, and its answers.
abbrev pub calls {ℓ} : {S : Type ℓ} → (S → Call → S × Answer) → S → List Call → S × List Answer
calls call s [] = (s, [])
calls call s (c ∷ cs) = let r = call s c in let t = calls call r.0 cs in (t.0, r.1 ∷ t.1)
