-- ===== src/UdpCopier/Ends.antt =====
-- Where a copy to a UDP socket stops: every step brings its end nearer, and before the end some step
-- can be taken.
use dg_cat.Common.{
  concat, All-split, All, ℕ, ◌+◌, ◌^◌, ◌≤◌, ◌<◌, ◌≡◌, ◌≢◌, refl, sym, ap, ◌∙◌, subst, false, List,
  [], ◌∷◌, ◌++◌, length, length-append, arith, inl, inr, ◌⊎◌,
}
use native.Mathlib.Decide.{dec_le}
use dg_cat.Wire.{Endian, prefix_len, be_bytes}
use dg_cat.Wire.Splits.{encode}
use dg_cat.Stats.{DgBufferStats}
use dg_cat.Batch.{ConsumerBatch}
use dg_cat.Queue.{Waited, ready, waits, throws, consumer_start_batch}
use dg_cat.Queue.Window.{length-contents}
use dg_cat.Queue.Waits.{Handed, consumer_start_batch_lem}
use dg_cat.Queue.Commit.{Mmsghdr}
use dg_cat.Queue.Commit.Append.{IsMessage}
use dg_cat.Queue.Commit.Progress.{commit_wake-waits}
use dg_cat.Copier.{Producer, calling, blocked, closing, ended}
use dg_cat.Copier.Invariant.{pending, ProducerOk}
use dg_cat.Copier.Delivery.{producer_ended}
use dg_cat.Copier.Steps.{ok-injective}
use dg_cat.Queue.Commit.Whole.{delivered}
use dg_cat.UdpDestination.{size_max}
use dg_cat.UdpDestination.Runs.{IsStraight}
use dg_cat.UdpCopier.{
  Sender, starting, holding, freeing, finished, broken, System, settle, Step, Reach, initial,
}
use dg_cat.UdpCopier.Invariant.{SenderOk, Inv}
use dg_cat.UdpCopier.Held.{held-cases}
use dg_cat.UdpCopier.Delivery.{initial-Inv, Reach-Inv}
use dg_cat.UdpCopier.Progress.{
  work_left, sender_left, call-less, wake-less, leave-less, close-less, force-less, frees,
}

module _ (e : Endian) (cap : ℕ) (all : List Mmsghdr) (s : System) (i : Inv cap all s) where
  Step-work_left : {t : System} → Step e s t → (t ≡ s) ⊎ (work_left t < work_left s)
  Step-work_left (Step.call ms rest at_) = inr (call-less e cap all s i ms rest at_)
  Step-work_left (Step.wake m ms rest at_) =
      elim (dec_le (s.queue.n + m.msg_len + prefix_len) s.queue.max_n) [
        | yes room ↦ inr (wake-less e cap all s i m ms rest at_ room)
        | no full ↦
            let small =
              (All-split IsMessage (m ∷ ms) (concat rest)
                (subst (All IsMessage) (ap pending at_) i.messages)).0.0 in
            inl (
              ap (λ r. settle s r rest)
                (commit_wake-waits e s.queue m ms i.valid small (omega arith))
              ∙ (λ j. record s { producer = sym at_ j }))
      ]
  Step-work_left (Step.force rest at_) = inr (force-less e cap all s i rest at_)
  Step-work_left (Step.leave at_) = inr (leave-less e cap all s i at_)
  Step-work_left (Step.close lost at_) = inr (close-less e cap all s i lost at_)
  Step-work_left (Step.start b at_ ran) = inr (omega (arith, ap sender_left at_))
  Step-work_left (Step.refuse x at_ ran) = inr (omega (arith, ap sender_left at_))
  Step-work_left (Step.finish b at_ ran) = inr (omega (arith, ap sender_left at_))
  Step-work_left (Step.ask b k at_ ran) = elim (held-cases e cap all s i b at_) [
    | inl (left, eof, empty) ↦ absurd (cc (left, ran))
    | inr (p, rest, eq, sent_) ↦ absurd (cc (sent_, ran))
  ]
  Step-work_left (Step.reject b at_ ran) = inr (omega (arith, ap sender_left at_))
  Step-work_left (Step.send b bs k at_ ran) = inr (omega (arith, ap sender_left at_))
  Step-work_left (Step.send_refused b bs k at_ ran) = inr (omega (arith, ap sender_left at_))
  Step-work_left (Step.send_error b bs k at_ ran) = inr (omega (arith, ap sender_left at_))
  Step-work_left (Step.free k q at_ ran) =
      let (q', ran', less) = frees e cap all s i k at_ in
      inr (
        subst (λ x. work_left (record s { queue = x; sender = starting }) < work_left s)
          (ok-injective (sym ran' ∙ ran)) less)

  -- A step that brings the end nearer, without a failure.
  abbrev pub Goes : Type 0
  Goes = (t : System) × Step e s t × (work_left t < work_left s) × (t.sender ≢ broken)

  -- The source's thread goes on as long as the queue is open and empty.
  source-goes :
      s.sender ≢ broken
      → s.queue.is_eof ≡ false
      → s.queue.n ≡ 0
      → (p : Producer) → s.producer ≡ p
      → Goes
  source-goes fine open_ none_ (calling []) at_ =
      (_, Step.leave at_, leave-less e cap all s i at_, fine)
  source-goes fine open_ none_ (calling (ms ∷ rest)) at_ =
      (_, Step.call ms rest at_, call-less e cap all s i ms rest at_, fine)
  source-goes fine open_ none_ (blocked m ms rest) at_ =
      let (still, stored, small) = subst (ProducerOk s.queue) at_ i.producer_ok in
      (_, Step.wake m ms rest at_, wake-less e cap all s i m ms rest at_ (omega arith), fine)
  source-goes fine open_ none_ (closing lost) at_ =
      (_, Step.close lost at_, close-less e cap all s i lost at_, fine)
  source-goes fine open_ none_ (ended lost) at_ =
      absurd (cc (subst (ProducerOk s.queue) at_ i.producer_ok, open_))

  abbrev pub IsOver : Type 0
  IsOver = ((lost : List Mmsghdr) × (s.producer ≡ ended lost)) × (s.sender ≡ finished)

  -- Fewer bytes than a prefix are none.
  few-none : (ps : List (List ℕ)) → i.frames ≡ ps → s.queue.n < prefix_len → s.queue.n ≡ 0
  few-none [] eq few =
      omega (arith, length-contents s.queue, ap length i.held, ap (λ x. length (encode x)) eq)
  few-none (p ∷ ps) eq few = absurd (
      omega (
        arith,
        length-contents s.queue,
        ap length i.held,
        ap (λ x. length (encode x)) eq,
        length-append (be_bytes (length p)) (p ++ encode ps),
      ))

  starting-goes :
      prefix_len ≤ cap
      → s.sender ≡ starting
      → (r : Waited ConsumerBatch) → consumer_start_batch s.queue s.n_min size_max ≡ r
      → Goes
  starting-goes room at_ (ready b) ran =
      (_, Step.start b at_ ran, omega (arith, ap sender_left at_), λ h. cc)
  starting-goes room at_ (throws x) ran =
      let too_many =
        subst (Handed s.queue s.n_min size_max) ran
          (consumer_start_batch_lem s.queue s.n_min size_max i.valid) in
      absurd (omega (arith, i.asked, i.capacity, too_many))
  starting-goes room at_ waits ran =
      let (open_, few) =
        subst (Handed s.queue s.n_min size_max) ran
          (consumer_start_batch_lem s.queue s.n_min size_max i.valid) in
      source-goes (λ h. cc (at_, h)) open_ (few-none i.frames refl (omega (arith, i.asked)))
        s.producer refl

  pub sender-goes :
      prefix_len ≤ cap → s.sender ≢ broken → (c : Sender) → s.sender ≡ c → IsOver ⊎ Goes
  sender-goes room fine starting at_ =
      inr (starting-goes room at_ (consumer_start_batch s.queue s.n_min size_max) refl)
  sender-goes room fine (holding b) at_ = elim (held-cases e cap all s i b at_) [
    | inl (left, eof, empty) ↦
        inr (_, Step.finish b at_ left, omega (arith, ap sender_left at_), λ h. cc)
    | inr (p, rest, eq, sends_) ↦ inr (
      _,
      Step.send b p (length p + prefix_len) at_ sends_,
      omega (arith, ap sender_left at_),
      λ h. cc,
    )
  ]
  sender-goes room fine (freeing k) at_ =
      let (q, ran, less) = frees e cap all s i k at_ in
      inr (_, Step.free k q at_ ran, less, λ h. cc)
  sender-goes room fine finished at_ =
      let (eof, empty) = subst (SenderOk i.frames s.queue) at_ i.sender_ok in
      inl (producer_ended s.queue s.producer i.producer_ok eof, at_)
  sender-goes room fine broken at_ = absurd (fine at_)

-- In every state that a copy to a UDP socket can reach, a step changes nothing, as a wake without
-- room does, or brings down the work that is left.
-- Here the capacity holds a prefix and is below 2^63 bytes, each message has its bytes and a length
-- of 32 bits, and no prefix of a datagram runs round the end of the ring.
pub Reach-sends_less :
    (e : Endian) (max_backlog : ℕ) (shared : DgBufferStats) (batches : List (List Mmsghdr))
    {s t : System}
    → prefix_len ≤ max_backlog
    → max_backlog < 2 ^ 63
    → All IsMessage (concat batches)
    → IsStraight max_backlog 0 (delivered (concat batches))
    → Reach e (initial max_backlog shared batches) s
    → Step e s t
    → (t ≡ s) ⊎ (work_left t < work_left s)
Reach-sends_less e cap shared batches {s} room small messages straight r st =
    Step-work_left e cap (concat batches) s
      (Reach-Inv e cap (concat batches)
        (initial-Inv cap shared batches room small messages straight) r)
      st
