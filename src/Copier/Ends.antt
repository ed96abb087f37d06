-- ===== src/Copier/Ends.antt =====
-- Where a copy to a file stops: its ends, the states without a step that changes anything, and how
-- every other step brings down the work left.
use dg_cat.Common.{
  concat, All, ℕ, ◌+◌, ◌^◌, ◌<◌, ◌≡◌, refl, ap, subst, true, false, List, arith, inl, inr, ◌⊎◌,
}
use dg_cat.Wire.{Endian, prefix_len}
use dg_cat.Stats.{DgBufferStats}
use dg_cat.Batch.{ConsumerBatch}
use dg_cat.Queue.{Waited, ready, waits, throws, consumer_start_batch}
use dg_cat.Queue.Take.{consumer_commit_batch_lem}
use dg_cat.Queue.Waits.{Handed, consumer_start_batch_lem}
use dg_cat.Queue.Commit.{Mmsghdr}
use dg_cat.Queue.Commit.Append.{IsMessage}
use dg_cat.Copier.{
  Producer, calling, blocked, closing, ended, Consumer, starting, holding, freeing, checking,
  finished, broken, System, Step, Reach,
}
use dg_cat.Copier.Invariant.{ConsumerOk, ProducerOk, Inv}
use dg_cat.Copier.Delivery.{initial, initial-Inv, Reach-Inv}
use dg_cat.Copier.Stuck.{IsStuck}
use dg_cat.Copier.Progress.{
  work_left, Step-work_left, consumer_left, take_batch-left, Goes, ProducerGoes, producer-goes,
  free-less, check-less, wake-small,
}

-- Both threads have run to their ends.
abbrev pub IsOver : System → Type 0
IsOver s =
    ((lost : List Mmsghdr) × (s.producer ≡ ended lost))
    × ((s.consumer ≡ finished) ⊎ (s.consumer ≡ broken))

module _ (e : Endian) (max_write_size : ℕ) {all : List Mmsghdr} {s : System} (i : Inv all s) where
  abbrev Next : Type 0
  Next = IsOver s ⊎ (IsStuck s ⊎ Goes e max_write_size i)

  stuck :
      s.consumer ≡ broken
      → (m : Mmsghdr) (ms : List Mmsghdr) (rest : List (List Mmsghdr))
      → s.producer ≡ blocked m ms rest
      → s.queue.max_n < s.queue.n + m.msg_len + prefix_len
      → IsStuck s
  stuck gone m ms rest at_ full = record {
    valid = i.valid;
    gone = gone;
    message = m;
    behind = ms;
    rest = rest;
    held = at_;
    small = wake-small e max_write_size i m ms rest at_;
    full = full;
  }

  waiting-goes :
      s.queue.is_eof ≡ false
      → s.queue.n < 1
      → ProducerGoes e max_write_size i s.producer
      → Goes e max_write_size i
  waiting-goes open_ none_ (inl (lost, at_)) =
      absurd (cc (subst (ProducerOk s.queue) at_ i.producer_ok, open_))
  waiting-goes open_ none_ (inr (inl goes)) = goes
  waiting-goes open_ none_ (inr (inr (m, ms, rest, at_, full))) =
      absurd (omega (arith, (subst (ProducerOk s.queue) at_ i.producer_ok).2))

  broken-next : s.consumer ≡ broken → ProducerGoes e max_write_size i s.producer → Next
  broken-next gone (inl over) = inl (over, inr gone)
  broken-next gone (inr (inl goes)) = inr (inr goes)
  broken-next gone (inr (inr (m, ms, rest, at_, full))) = inr (inl (stuck gone m ms rest at_ full))

  finished-next :
      s.consumer ≡ finished → s.queue.is_eof ≡ true → (p : Producer) → s.producer ≡ p → Next
  finished-next at_ eof (calling rest) h =
      absurd (cc (subst (ProducerOk s.queue) h i.producer_ok, eof))
  finished-next at_ eof (blocked m ms rest) h =
      absurd (cc ((subst (ProducerOk s.queue) h i.producer_ok).0, eof))
  finished-next at_ eof (closing lost) h =
      absurd (cc (subst (ProducerOk s.queue) h i.producer_ok, eof))
  finished-next at_ eof (ended lost) h = inl ((lost, h), inl at_)

  starting-next :
      s.consumer ≡ starting
      → (r : Waited ConsumerBatch) → consumer_start_batch s.queue 1 max_write_size ≡ r
      → Next
  starting-next at_ (ready b) ran = inr (
      inr (
        _,
        Step.start b at_ ran,
        omega (arith, ap consumer_left at_, take_batch-left b),
        inr (λ h. ground (arith, h)),
      ))
  starting-next at_ (throws x) ran =
      let too_many =
        subst (Handed s.queue 1 max_write_size) ran
          (consumer_start_batch_lem s.queue 1 max_write_size i.valid) in
      absurd (omega (arith, i.valid, too_many))
  starting-next at_ waits ran =
      let (open_, none_) =
        subst (Handed s.queue 1 max_write_size) ran
          (consumer_start_batch_lem s.queue 1 max_write_size i.valid) in
      inr (inr (waiting-goes open_ none_ (producer-goes e max_write_size i s.producer refl)))

  consumer-next : (c : Consumer) → s.consumer ≡ c → Next
  consumer-next starting at_ =
      starting-next at_ (consumer_start_batch s.queue 1 max_write_size) refl
  consumer-next (holding b) at_ = inr (
      inr
        (_, Step.write b b.n at_ (omega arith), omega (arith, ap consumer_left at_), inr (λ h. cc)))
  consumer-next (freeing k) at_ =
      let (some_, held) = subst (ConsumerOk s.queue) at_ i.consumer_ok in
      let r = consumer_commit_batch_lem s.queue k i.valid held some_ in
      inr (
        inr (_, Step.free k r.0 at_ r.1, free-less e max_write_size i k r.0 at_ r.1, inr (λ h. cc)))
  consumer-next checking at_ =
      inr (inr (_, Step.check at_, check-less e max_write_size i at_, inr (λ h. ground (arith, h))))
  consumer-next finished at_ =
      finished-next at_ (subst (ConsumerOk s.queue) at_ i.consumer_ok).0 s.producer refl
  consumer-next broken at_ = broken-next at_ (producer-goes e max_write_size i s.producer refl)

  -- Both threads are at their ends, or the copy hangs, or some step brings the work left down.
  pub Inv-goes : IsOver s ⊎ (IsStuck s ⊎ Goes e max_write_size i)
  Inv-goes = consumer-next s.consumer refl

-- With positive sizes and well-formed messages, in every state that a copy to a file can reach, a
-- step changes nothing, as a wake without room does, or brings down the work that is left.
pub Reach-work_left :
    (e : Endian) (max_write_size max_backlog : ℕ) (shared : DgBufferStats)
    (batches : List (List Mmsghdr)) {s t : System}
    → 0 < max_write_size
    → 0 < max_backlog
    → max_backlog < 2 ^ 63
    → All IsMessage (concat batches)
    → Reach e max_write_size (initial max_backlog shared batches) s
    → Step e max_write_size s t
    → (t ≡ s) ⊎ (work_left t < work_left s)
Reach-work_left e mws max_backlog shared batches pos room small messages r st =
    Step-work_left e mws
      (Reach-Inv e mws (concat batches) pos
        (initial-Inv max_backlog shared batches room small messages) r)
      st
