-- ===== src/Queue/Commit.antt =====
-- The two overloads of `producer_commit_batch` of include/dg_cat/buffer_queue.hpp. A wait gives up
-- the mutex, so a call runs in pieces: `waiting` is the state at the wait, with the message at hand
-- and those behind it, and `commit_wake` and `commit_wake_until` run on from there.
pub mod Append
pub mod Progress
pub mod Notices
pub mod Counts
pub mod Fitting
pub mod Whole
pub mod Until
use dg_cat.Common.{
  ℕ, zero, suc, ◌+◌, ◌-◌, ◌%◌, ◌^◌, ◌≤◌, ◌<◌, Bool, true, false, ◌||◌, List, [], ◌∷◌, ◌++◌, Option,
  none, some, min, max, take, ltb, leb, ◌==◌, if◌then◌else◌, add_size,
}
use dg_cat.Wire.{Endian, prefix_len}
use dg_cat.Stats.{DgBufferStats}
use dg_cat.Queue.{
  BufferQueue, Error, after_eof, datagram_too_large, notify_all, n_free_locked,
  put_data_locked_no_notify,
}

-- The bits of `msg_flags` that the code looks at.
pub record MsgFlags : Type 0 where
  pub oob : Bool
  pub errqueue : Bool
  pub trunc : Bool

-- `struct mmsghdr`: `iov_base` is the memory behind `msg_hdr.msg_iov->iov_base`.
pub record Mmsghdr : Type 0 where
  pub msg_len : ℕ
  pub msg_flags : MsgFlags
  pub iov_base : List ℕ

abbrev pub is_discarded : MsgFlags → Bool
is_discarded f = (f.oob || f.errqueue) || f.trunc

pub data CommitResult : Type 0 where
  done : BufferQueue → CommitResult
  waiting : BufferQueue → Mmsghdr → List Mmsghdr → CommitResult
  failed : Error → BufferQueue → List Mmsghdr → CommitResult

-- what the loop does with a message before it stores it
pub data Verdict : Type 0 where
  discards refuses blocks stores : Verdict

unfoldable pub classify : BufferQueue → Mmsghdr → Verdict
classify q m =
    if is_discarded m.msg_flags
    then discards
    else if ltb q.max_n (add_size m.msg_len prefix_len)
    then refuses
    else if ltb (n_free_locked q) (add_size m.msg_len prefix_len)
    then blocks
    else stores

-- the predicate of the wait
abbrev pub has_room : BufferQueue → Mmsghdr → Bool
has_room q m = leb (add_size (add_size q.n m.msg_len) prefix_len) q.max_n

unfoldable pub discard : BufferQueue → BufferQueue
discard q = record q {
  stats = record q.stats { n_datagrams_discarded = add_size q.stats.n_datagrams_discarded 1 };
}

unfoldable pub count_datagram : DgBufferStats → ℕ → DgBufferStats
count_datagram s len = record s {
  max_datagram_size = max s.max_datagram_size len;
  min_datagram_size = if s.n_datagrams == 0 then len else min s.min_datagram_size len;
  first_datagram_size = if s.n_datagrams == 0 then len else s.first_datagram_size;
  n_datagrams = add_size s.n_datagrams 1;
  n_datagram_bytes = add_size s.n_datagram_bytes len;
}

-- `_shared_stats = _stats` and `notify_all`, each if its flag is set
abbrev pub flush : BufferQueue → Bool → Bool → BufferQueue
flush q need_notify need_update_stats = record q {
  shared_stats = if need_update_stats then q.stats else q.shared_stats;
  notified = if need_notify then q.notified + 1 else q.notified;
}

module _ (e : Endian) where
  -- the prefix, then the bytes of the datagram
  unfoldable pub put_frame : BufferQueue → Mmsghdr → BufferQueue
  put_frame q m =
      put_data_locked_no_notify
        (put_data_locked_no_notify q (e.store (e.native_to_big (m.msg_len % 2 ^ 32))) prefix_len)
        m.iov_base m.msg_len

  unfoldable pub store_datagram : BufferQueue → Mmsghdr → BufferQueue
  store_datagram q m =
      let q' = put_frame q m in
      record q' {
        stats =
            count_datagram
              (record q'.stats { max_backlog_bytes = max q'.stats.max_backlog_bytes q'.n })
              m.msg_len;
      }

  -- The loop over `mmsg_hdrs[i .. n_buffers)` with `need_notify` and `need_update_stats`.
  unfoldable pub commit_loop : BufferQueue → Bool → Bool → List Mmsghdr → CommitResult
  commit_loop q need_notify need_update [] = done (flush q need_notify need_update)
  commit_loop q need_notify need_update (m ∷ ms) = elim (classify q m) [
    | discards ↦ commit_loop (discard q) need_notify true ms
    | refuses ↦ failed datagram_too_large q (m ∷ ms)
    | blocks ↦ waiting (flush q need_notify need_update) m ms
    | stores ↦ commit_loop (store_datagram q m) true true ms
  ]

  unfoldable pub producer_commit_batch : BufferQueue → List Mmsghdr → CommitResult
  producer_commit_batch q [] = done q
  producer_commit_batch q (m ∷ ms) =
      if q.is_eof then failed after_eof q (m ∷ ms) else commit_loop q false false (m ∷ ms)

  -- A wake of the waiting call, on the state that it finds.
  unfoldable pub commit_wake : BufferQueue → Mmsghdr → List Mmsghdr → CommitResult
  commit_wake q m ms =
      if has_room q m then commit_loop (store_datagram q m) true true ms else waiting q m ms

  unfoldable pub store_datagram_until : BufferQueue → Mmsghdr → BufferQueue
  store_datagram_until q m =
      let q' = put_frame q m in record q' { stats = count_datagram q'.stats m.msg_len }

  -- The overload with a time limit counts the messages that it is done with.
  unfoldable pub commit_loop_until : BufferQueue → Bool → Bool → ℕ → List Mmsghdr → CommitResult × ℕ
  commit_loop_until q need_notify need_update committed [] =
      (done (flush q need_notify need_update), committed)
  commit_loop_until q need_notify need_update committed (m ∷ ms) = elim (classify q m) [
    | discards ↦ commit_loop_until (discard q) need_notify true (add_size committed 1) ms
    | refuses ↦ (failed datagram_too_large q (m ∷ ms), committed)
    | blocks ↦ (waiting (flush q need_notify need_update) m ms, committed)
    | stores ↦ commit_loop_until (store_datagram_until q m) true true (add_size committed 1) ms
  ]

  unfoldable pub producer_commit_batch_until : BufferQueue → List Mmsghdr → CommitResult × ℕ
  producer_commit_batch_until q [] = (done q, 0)
  producer_commit_batch_until q (m ∷ ms) =
      if q.is_eof
      then (failed after_eof q (m ∷ ms), 0)
      else commit_loop_until q false false 0 (m ∷ ms)

  -- A wake, or the end of the time limit: without room the loop is left, and nothing is pending.
  unfoldable pub commit_wake_until :
      Bool → BufferQueue → ℕ → Mmsghdr → List Mmsghdr → CommitResult × ℕ
  commit_wake_until expired q committed m ms =
      if has_room q m
      then commit_loop_until (store_datagram_until q m) true true (add_size committed 1) ms
      else if expired
      then (done q, committed)
      else (waiting q m ms, committed)
