-- ===== src/Copier/Progress.antt =====
-- The threads of a copy to a file come to an end: a measure of the work left, and when a step is
-- possible.
use dg_cat.Common.{
  concat, All-split, All, ℕ, suc, ◌+◌, ◌*◌, ◌≤◌, ◌<◌, ◌≡◌, ◌≢◌, refl, ap, subst, List, [], ◌∷◌,
  ◌++◌, length, if◌then◌else◌, arith, inl, inr, ◌⊎◌, length-append,
}
use native.Mathlib.Decide.{dec_le}
use dg_cat.Wire.{Endian, prefix_len}
use dg_cat.Batch.{ConsumerBatch}
use dg_cat.Queue.{BufferQueue, ok, producer_set_eof, consumer_commit_batch}
use dg_cat.Queue.Window.{contents, length-contents}
use dg_cat.Queue.Take.{consumer_commit_batch_lem}
use dg_cat.Queue.Commit.{
  Mmsghdr, CommitResult, done, waiting, failed, producer_commit_batch, commit_wake,
}
use dg_cat.Queue.Commit.Append.{
  IsMessage, stream, Appends, result_queue, unsent, producer_commit_batch_lem, commit_wake_lem,
}
use dg_cat.Queue.Commit.Progress.{commit_wake-shrinks, producer_commit_batch-shrinks}
use dg_cat.Copier.{
  Producer, calling, blocked, closing, ended, Consumer, starting, holding, freeing, checking,
  finished, broken, System, producer_next, settle, take_batch, Step,
}
use dg_cat.Copier.Invariant.{pending, ConsumerOk, ProducerOk, Inv, pending-next}
use dg_cat.Queue.Commit.Whole.{stream-append}
use dg_cat.Copier.Stuck.{settle-waits}

-- What the producer has still to do, apart from the bytes.
abbrev pub calls_left : List (List Mmsghdr) → ℕ
calls_left [] = 0
calls_left (ms ∷ rest) = suc (length ms + calls_left rest)

abbrev pub producer_left : Producer → ℕ
producer_left (calling rest) = 2 + calls_left rest
producer_left (blocked m ms rest) = 2 + (suc (length ms) + calls_left rest)
producer_left (closing lost) = 1
producer_left (ended lost) = 0

abbrev pub consumer_left : Consumer → ℕ
consumer_left starting = 3
consumer_left (holding b) = 2
consumer_left (freeing k) = 1
consumer_left checking = 1
consumer_left finished = 0
consumer_left broken = 0

-- The work left: every byte that is in the queue or has still to come counts for four.
abbrev pub work_left : System → ℕ
work_left s =
    4 * (s.queue.n + length (stream (pending s.producer)))
    + (producer_left s.producer + consumer_left s.consumer)

-- `settle` turns the bytes of messages into bytes of the queue.
pub settle-bytes :
    (q : BufferQueue) (ms : List Mmsghdr) (rest : List (List Mmsghdr)) (r : CommitResult)
    → Appends q ms r
    → (result_queue r).n + length (stream (pending (producer_next r rest)))
      ≡ q.n + length (stream (ms ++ concat rest))
settle-bytes q ms rest r a = omega (
  arith,
  ap length a.bytes,
  length-append (contents (result_queue r)) (stream (unsent r)),
  length-append (contents q) (stream ms),
  length-contents (result_queue r),
  length-contents q,
  ap (λ x. length (stream x)) (pending-next r rest),
  ap length (stream-append (unsent r) (concat rest)),
  length-append (stream (unsent r)) (stream (concat rest)),
  ap length (stream-append ms (concat rest)),
  length-append (stream ms) (stream (concat rest)),
)

-- What is left of a call has fewer messages than `k` counts.
pub settle-left :
    (r : CommitResult) (rest : List (List Mmsghdr)) (k : ℕ)
    → length (unsent r) < k
    → producer_left (producer_next r rest) < 2 + (k + calls_left rest)
settle-left (done q) rest k h = omega arith
settle-left (waiting q m ms) rest k h = omega arith
settle-left (failed x q ms) rest k h = omega arith

settle-work_left :
    (s : System) (ms : List Mmsghdr) (rest : List (List Mmsghdr)) (r : CommitResult) (k : ℕ)
    → pending s.producer ≡ ms ++ concat rest
    → producer_left s.producer ≡ 2 + (k + calls_left rest)
    → Appends s.queue ms r
    → length (unsent r) < k
    → work_left (settle s r rest) < work_left s
settle-work_left s ms rest r k same left a fewer = omega (
  arith,
  settle-bytes s.queue ms rest r a,
  settle-left r rest k fewer,
  ap (λ x. length (stream x)) same,
)

pub take_batch-left : (b : ConsumerBatch) → consumer_left (take_batch b) ≤ 2
take_batch-left b = ground arith

module _ (e : Endian) (max_write_size : ℕ) {all : List Mmsghdr} {s : System} (i : Inv all s) where
  call-less :
      (ms : List Mmsghdr) (rest : List (List Mmsghdr))
      → s.producer ≡ calling (ms ∷ rest)
      → work_left (settle s (producer_commit_batch e s.queue ms) rest) < work_left s
  call-less ms rest at_ =
      let mine =
        (All-split IsMessage ms (concat rest)
          (subst (All IsMessage) (ap pending at_) i.messages)).0 in
      settle-work_left s ms rest (producer_commit_batch e s.queue ms) (suc (length ms))
        (ap pending at_) (omega (arith, ap producer_left at_))
        (producer_commit_batch_lem e s.queue ms i.valid mine)
        (omega (arith, producer_commit_batch-shrinks e s.queue ms))

  wake-less :
      (m : Mmsghdr) (ms : List Mmsghdr) (rest : List (List Mmsghdr))
      → s.producer ≡ blocked m ms rest
      → s.queue.n + m.msg_len + prefix_len ≤ s.queue.max_n
      → work_left (settle s (commit_wake e s.queue m ms) rest) < work_left s
  wake-less m ms rest at_ room =
      let (open_, stored, small) = subst (ProducerOk s.queue) at_ i.producer_ok in
      let mine =
        (All-split IsMessage (m ∷ ms) (concat rest)
          (subst (All IsMessage) (ap pending at_) i.messages)).0 in
      settle-work_left s (m ∷ ms) rest (commit_wake e s.queue m ms) (suc (length ms))
        (ap pending at_) (omega (arith, ap producer_left at_))
        (commit_wake_lem e s.queue m ms i.valid mine stored)
        (commit_wake-shrinks e s.queue m ms i.valid mine.0 room)

  pub wake-small :
      (m : Mmsghdr) (ms : List Mmsghdr) (rest : List (List Mmsghdr))
      → s.producer ≡ blocked m ms rest
      → IsMessage m
  wake-small m ms rest at_ =
      (All-split IsMessage (m ∷ ms) (concat rest)
        (subst (All IsMessage) (ap pending at_) i.messages)).0.0

  leave-less :
      s.producer ≡ calling [] → work_left (record s { producer = closing [] }) < work_left s
  leave-less at_ = omega (arith, ap producer_left at_, ap (λ p. length (stream (pending p))) at_)

  pub close-less :
      (lost : List Mmsghdr)
      → s.producer ≡ closing lost
      → work_left (record s { queue = producer_set_eof s.queue; producer = ended lost })
        < work_left s
  unfolding producer_set_eof
  close-less lost at_ =
      omega (arith, ap producer_left at_, ap (λ p. length (stream (pending p))) at_)

  -- The consumer finds the end of file wherever it looks for it.
  pub check-less :
      s.consumer ≡ checking
      → work_left (record s { consumer = if s.queue.is_eof then finished else starting })
        < work_left s
  check-less at_ =
      let (eof, none_) = subst (ConsumerOk s.queue) at_ i.consumer_ok in
      rw eof (omega (arith, ap consumer_left at_))

  pub free-less :
      (k : ℕ) (q : BufferQueue)
      → s.consumer ≡ freeing k
      → consumer_commit_batch s.queue k ≡ ok q
      → work_left (record s { queue = q; consumer = starting }) < work_left s
  free-less k q at_ ran =
      let (some_, held) = subst (ConsumerOk s.queue) at_ i.consumer_ok in
      let r = consumer_commit_batch_lem s.queue k i.valid held some_ in
      let same : q ≡ r.0 = cc (ran, r.1) in
      omega (arith, ap consumer_left at_, r.4, ap (λ (x : BufferQueue). x.n) same)

  -- Every step changes nothing or brings the work left down.
  pub Step-work_left :
      {t : System} → Step e max_write_size s t → (t ≡ s) ⊎ (work_left t < work_left s)
  Step-work_left (Step.call ms rest at_) = inr (call-less ms rest at_)
  Step-work_left (Step.wake m ms rest at_) =
      elim (dec_le (s.queue.n + m.msg_len + prefix_len) s.queue.max_n) [
        | yes room ↦ inr (wake-less m ms rest at_ room)
        | no full ↦ inl (
            settle-waits e max_write_size s m ms rest at_ i.valid (wake-small m ms rest at_)
              (omega arith))
      ]
  Step-work_left (Step.force rest at_) =
      inr (omega (arith, ap producer_left at_, ap (λ p. length (stream (pending p))) at_))
  Step-work_left (Step.leave at_) = inr (leave-less at_)
  Step-work_left (Step.close lost at_) = inr (close-less lost at_)
  Step-work_left (Step.start b at_ ran) =
      inr (omega (arith, ap consumer_left at_, take_batch-left b))
  Step-work_left (Step.refuse x at_ ran) = inr (omega (arith, ap consumer_left at_))
  Step-work_left (Step.check at_) = inr (check-less at_)
  Step-work_left (Step.write b k at_ short) = inr (omega (arith, ap consumer_left at_))
  Step-work_left (Step.write_error b at_) = inr (omega (arith, ap consumer_left at_))
  Step-work_left (Step.free k q at_ ran) = inr (free-less k q at_ ran)

  -- A step that brings the work left down, and in which the destination does not fail.
  abbrev pub Goes : Type 0
  Goes =
      (t : System) × Step e max_write_size s t
      × (work_left t < work_left s)
      × ((t.consumer ≡ s.consumer) ⊎ (t.consumer ≢ broken))

  -- The producer has ended, goes on, or waits for room.
  abbrev pub ProducerGoes : Producer → Type 0
  ProducerGoes p =
      ((lost : List Mmsghdr) × (p ≡ ended lost))
      ⊎ (Goes
          ⊎ ((m : Mmsghdr) × (ms : List Mmsghdr) × (rest : List (List Mmsghdr)) × (p
                ≡ blocked m ms rest)
              × (s.queue.max_n < s.queue.n + m.msg_len + prefix_len)))

  pub producer-goes : (p : Producer) → s.producer ≡ p → ProducerGoes p
  producer-goes (calling []) at_ = inr (inl (_, Step.leave at_, leave-less at_, inl refl))
  producer-goes (calling (ms ∷ rest)) at_ =
      inr (inl (_, Step.call ms rest at_, call-less ms rest at_, inl refl))
  producer-goes (blocked m ms rest) at_ =
      elim (dec_le (s.queue.n + m.msg_len + prefix_len) s.queue.max_n) [
        | yes room ↦ inr (inl (_, Step.wake m ms rest at_, wake-less m ms rest at_ room, inl refl))
        | no full ↦ inr (inr (m, ms, rest, refl, omega arith))
      ]
  producer-goes (closing lost) at_ =
      inr (inl (_, Step.close lost at_, close-less lost at_, inl refl))
  producer-goes (ended lost) at_ = inl (lost, refl)
