-- ===== src/UdpCopier/Progress.antt =====
-- The threads of a copy to a UDP socket come to an end: a measure of the work left.
use dg_cat.Common.{
  concat, All-split, All, ℕ, suc, ◌+◌, ◌*◌, ◌≤◌, ◌<◌, ◌≡◌, ap, subst, List, true, [], ◌∷◌, length,
  arith, length-append, ◌++◌,
}
use dg_cat.Wire.{Endian, prefix_len, be_bytes}
use dg_cat.Wire.Splits.{encode}
use dg_cat.Queue.{BufferQueue, ok, producer_set_eof, consumer_commit_batch}
use dg_cat.Queue.Window.{length-contents}
use dg_cat.Queue.Take.{consumer_commit_batch_lem}
use dg_cat.Queue.Commit.{Mmsghdr, CommitResult, producer_commit_batch, commit_wake}
use dg_cat.Queue.Commit.Append.{
  IsMessage, stream, Appends, unsent, producer_commit_batch_lem, commit_wake_lem,
}
use dg_cat.Queue.Commit.Progress.{commit_wake-shrinks, producer_commit_batch-shrinks}
use dg_cat.Copier.{calling, blocked, closing, ended}
use dg_cat.Copier.Invariant.{pending, ProducerOk}
use dg_cat.Copier.Progress.{calls_left, producer_left, settle-bytes, settle-left}
use dg_cat.UdpCopier.{Sender, starting, holding, freeing, finished, broken, System, settle}
use dg_cat.UdpCopier.Invariant.{SenderOk, Inv}

abbrev pub sender_left : Sender → ℕ
sender_left starting = 3
sender_left (holding b) = 2
sender_left (freeing k) = 1
sender_left finished = 0
sender_left broken = 0

-- The work left: every byte that is in the queue or has still to come counts for four.
abbrev pub work_left : System → ℕ
work_left s =
    4 * (s.queue.n + length (stream (pending s.producer)))
    + (producer_left s.producer + sender_left s.sender)

settle-work_left :
    (s : System) (ms : List Mmsghdr) (rest : List (List Mmsghdr)) (r : CommitResult) (k : ℕ)
    → pending s.producer ≡ ms ++ concat rest
    → producer_left s.producer ≡ 2 + (k + calls_left rest)
    → Appends s.queue ms r
    → length (unsent r) < k
    → work_left (settle s r rest) < work_left s
settle-work_left s ms rest r k same left a fewer = omega (
  arith,
  settle-bytes s.queue ms rest r a,
  settle-left r rest k fewer,
  ap (λ x. length (stream x)) same,
)

module _ (e : Endian) (cap : ℕ) (all : List Mmsghdr) (s : System) (i : Inv cap all s) where
  pub call-less :
      (ms : List Mmsghdr) (rest : List (List Mmsghdr))
      → s.producer ≡ calling (ms ∷ rest)
      → work_left (settle s (producer_commit_batch e s.queue ms) rest) < work_left s
  call-less ms rest at_ =
      let mine =
        (All-split IsMessage ms (concat rest)
          (subst (All IsMessage) (ap pending at_) i.messages)).0 in
      settle-work_left s ms rest (producer_commit_batch e s.queue ms) (suc (length ms))
        (ap pending at_) (omega (arith, ap producer_left at_))
        (producer_commit_batch_lem e s.queue ms i.valid mine)
        (omega (arith, producer_commit_batch-shrinks e s.queue ms))

  pub wake-less :
      (m : Mmsghdr) (ms : List Mmsghdr) (rest : List (List Mmsghdr))
      → s.producer ≡ blocked m ms rest
      → s.queue.n + m.msg_len + prefix_len ≤ s.queue.max_n
      → work_left (settle s (commit_wake e s.queue m ms) rest) < work_left s
  wake-less m ms rest at_ room =
      let (open_, stored, small) = subst (ProducerOk s.queue) at_ i.producer_ok in
      let mine =
        (All-split IsMessage (m ∷ ms) (concat rest)
          (subst (All IsMessage) (ap pending at_) i.messages)).0 in
      settle-work_left s (m ∷ ms) rest (commit_wake e s.queue m ms) (suc (length ms))
        (ap pending at_) (omega (arith, ap producer_left at_))
        (commit_wake_lem e s.queue m ms i.valid mine stored)
        (commit_wake-shrinks e s.queue m ms i.valid mine.0 room)

  pub leave-less :
      s.producer ≡ calling [] → work_left (record s { producer = closing [] }) < work_left s
  leave-less at_ = omega (arith, ap producer_left at_, ap (λ p. length (stream (pending p))) at_)

  pub force-less :
      (rest : List (List Mmsghdr))
      → s.producer ≡ calling rest
      → work_left (record s { producer = closing (concat rest); forced = true }) < work_left s
  force-less rest at_ =
      omega (arith, ap producer_left at_, ap (λ p. length (stream (pending p))) at_)

  pub close-less :
      (lost : List Mmsghdr)
      → s.producer ≡ closing lost
      → work_left (record s { queue = producer_set_eof s.queue; producer = ended lost })
        < work_left s
  unfolding producer_set_eof
  close-less lost at_ =
      omega (arith, ap producer_left at_, ap (λ p. length (stream (pending p))) at_)

  -- What is freed is a frame of the queue.
  pub frees :
      (k : ℕ)
      → s.sender ≡ freeing k
      → (q : BufferQueue) × (consumer_commit_batch s.queue k ≡ ok q)
        × (work_left (record s { queue = q; sender = starting }) < work_left s)
  frees k at_ =
      let (p, rest, eq, size) = subst (SenderOk i.frames s.queue) at_ i.sender_ok in
      let whole = length-append (be_bytes (length p)) (p ++ encode rest) in
      let within : k ≤ s.queue.n = omega (
        arith,
        length-contents s.queue,
        ap length i.held,
        ap (λ x. length (encode x)) eq,
        whole,
        length-append p (encode rest),
      ) in
      let r = consumer_commit_batch_lem s.queue k i.valid within (omega arith) in
      (r.0, r.1, omega (arith, ap sender_left at_, r.4))
