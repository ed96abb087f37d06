-- ===== src/Copier/Waits.antt =====
-- Threads that wait on the condition variable of a queue, `_cv` of include/dg_cat/buffer_queue.hpp:
-- why they wait, and that a `notify_all` comes when they should go on.
use dg_cat.Common.{
  ℕ, ◌+◌, ◌≤◌, ◌<◌, ◌≡◌, refl, Bool, true, false, List, Option, none, some, arith, ltb, inl, inr,
  ◌⊎◌,
}
use dg_cat.Wire.{prefix_len}
use dg_cat.Queue.{BufferQueue, ok, consumer_commit_batch}
use dg_cat.Queue.Commit.{Mmsghdr, CommitResult, done, waiting, failed}
use dg_cat.Queue.Commit.Append.{result_queue}
use dg_cat.Queue.Commit.Progress.{Blocked}
use dg_cat.Queue.Commit.Notices.{Tells}
use dg_cat.Copier.{Producer, calling, blocked, closing, ended, producer_next}

-- A thread that waits since there were that many notifications has been notified.
abbrev pub awake : Option ℕ → ℕ → Bool
awake none notified = true
awake (some k) notified = ltb k notified

abbrev pub IsClosing : Producer → Type 0
IsClosing p = (lost : List Mmsghdr) × (p ≡ closing lost)

-- The source's thread waits for room, or has been notified since.
abbrev pub BlockedOk : ℕ → BufferQueue → Producer → Type 0
BlockedOk seen q (calling rest) = Unit
BlockedOk seen q (blocked m ms rest) =
    (q.max_n < q.n + m.msg_len + prefix_len) ⊎ (seen < q.notified)
BlockedOk seen q (closing lost) = Unit
BlockedOk seen q (ended lost) = Unit

-- The destination's thread waits at `c`, for `few` bytes or the end of file, or has been notified
-- since, or the source's thread is about to notify it by `producer_set_eof`.
abbrev pub AsleepOk : ℕ → BufferQueue → Producer → Type 0 → Option ℕ → Type 0
AsleepOk few q p c none = Unit
AsleepOk few q p c (some k) =
    c × (k ≤ q.notified) × (((q.is_eof ≡ false) × (q.n < few)) ⊎ ((k < q.notified) ⊎ IsClosing p))

pub next-BlockedOk :
    (r : CommitResult) (rest : List (List Mmsghdr))
    → Blocked r
    → BlockedOk (result_queue r).notified (result_queue r) (producer_next r rest)
next-BlockedOk (done q) rest h = tt
next-BlockedOk (waiting q m ms) rest h = inl h.0
next-BlockedOk (failed x q ms) rest h = tt

pub next-AsleepOk :
    (few : ℕ) (q : BufferQueue) (p : Producer) (c : Type 0) (a : Option ℕ) (r : CommitResult)
    (rest : List (List Mmsghdr))
    → AsleepOk few q p c a
    → ¬ IsClosing p
    → (result_queue r).is_eof ≡ q.is_eof
    → Tells q.n q.notified r
    → AsleepOk few (result_queue r) (producer_next r rest) c a
next-AsleepOk few q p c none r rest h open_ eof tells = tt
next-AsleepOk few q p c (some k) (done q') rest (at_, before, why) open_ eof (kept, told) = (
  at_,
  omega arith,
  elim why [
    | inl (going, short) ↦ elim told [
      | inl same ↦ inl (ground (arith, eof, going), omega arith)
      | inr more ↦ inr (inl (omega arith))
    ]
    | inr (inl more) ↦ inr (inl (omega arith))
    | inr (inr shut) ↦ absurd (open_ shut)
  ],
)
next-AsleepOk few q p c (some k) (waiting q' m ms) rest (at_, before, why) open_ eof (kept, told) =
    (
      at_,
      omega arith,
      elim why [
        | inl (going, short) ↦ elim told [
          | inl same ↦ inl (ground (arith, eof, going), omega arith)
          | inr more ↦ inr (inl (omega arith))
        ]
        | inr (inl more) ↦ inr (inl (omega arith))
        | inr (inr shut) ↦ absurd (open_ shut)
      ],
    )
next-AsleepOk few q p c (some k) (failed x q' ms) rest (at_, before, why) open_ eof tells =
    (at_, omega arith, inr (inr (_, refl)))

-- A destination's thread that is elsewhere does not wait.
pub moved-AsleepOk :
    (few : ℕ) (q q' : BufferQueue) (p p' : Producer) (c c' : Type 0) (a : Option ℕ)
    → AsleepOk few q p c a
    → ¬ c
    → AsleepOk few q' p' c' a
moved-AsleepOk few q q' p p' c c' none h other = tt
moved-AsleepOk few q q' p p' c c' (some k) h other = absurd (other h.0)

-- The source's thread goes on to its end without a step on the queue.
pub kept-AsleepOk :
    (few : ℕ) (q : BufferQueue) (p p' : Producer) (c : Type 0) (a : Option ℕ)
    → AsleepOk few q p c a
    → ¬ IsClosing p
    → AsleepOk few q p' c a
kept-AsleepOk few q p p' c none h open_ = tt
kept-AsleepOk few q p p' c (some k) (at_, before, inl why) open_ = (at_, before, inl why)
kept-AsleepOk few q p p' c (some k) (at_, before, inr (inl more)) open_ =
    (at_, before, inr (inl more))
kept-AsleepOk few q p p' c (some k) (at_, before, inr (inr shut)) open_ = absurd (open_ shut)

pub told-AsleepOk :
    (few : ℕ) (q q' : BufferQueue) (p p' : Producer) (c : Type 0) (a : Option ℕ)
    → AsleepOk few q p c a
    → q.notified < q'.notified
    → AsleepOk few q' p' c a
told-AsleepOk few q q' p p' c none h more = tt
told-AsleepOk few q q' p p' c (some k) (at_, before, why) more =
    (at_, omega arith, inr (inl (omega arith)))

pub told-BlockedOk :
    (seen : ℕ) (q q' : BufferQueue) (p : Producer) → seen < q'.notified → BlockedOk seen q' p
told-BlockedOk seen q q' (calling rest) h = tt
told-BlockedOk seen q q' (blocked m ms rest) h = inr h
told-BlockedOk seen q q' (closing lost) h = tt
told-BlockedOk seen q q' (ended lost) h = tt

-- Where there is what the destination's thread waits for, it has been notified or soon will be.
pub roused :
    (few : ℕ) (q : BufferQueue) (p : Producer) (c : Type 0) (a : Option ℕ)
    → AsleepOk few q p c a
    → (q.is_eof ≡ true) ⊎ (few ≤ q.n)
    → (awake a q.notified ≡ true) ⊎ IsClosing p
roused few q p c none h there = inl refl
roused few q p c (some k) (at_, before, inl (going, short)) (inl eof) = absurd (cc (going, eof))
roused few q p c (some k) (at_, before, inl (going, short)) (inr enough) = absurd (omega arith)
roused few q p c (some k) (at_, before, inr (inl more)) there = inl (ground arith)
roused few q p c (some k) (at_, before, inr (inr shut)) there = inr shut

-- `consumer_commit_batch` of at least one byte notifies.
pub consumer_commit_batch-notifies :
    (q : BufferQueue) (k : ℕ) {q' : BufferQueue}
    → 0 < k
    → consumer_commit_batch q k ≡ ok q'
    → q.notified < q'.notified
unfolding consumer_commit_batch
consumer_commit_batch-notifies q k {q' = q'} some_ ran = ground (arith, ran)
