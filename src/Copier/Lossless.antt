-- ===== src/Copier/Lossless.antt =====
-- A copy to a file of messages whose frames fit into the queue, and that nobody ends by force.
use dg_cat.Common.{
  concat, All-split, All-append, All, ℕ, ◌^◌, ◌<◌, ◌≡◌, refl, sym, ap, ◌∙◌, subst, true, false,
  List, [], ◌∷◌, ◌++◌, append-nil, inl, inr, ◌⊎◌,
}
use dg_cat.Wire.{Endian}
use dg_cat.Stats.{DgBufferStats}
use dg_cat.Queue.{BufferQueue, new_queue, producer_set_eof}
use dg_cat.Queue.Take.{consumer_commit_batch_lem}
use dg_cat.Queue.Commit.{
  Mmsghdr, CommitResult, done, waiting, failed, producer_commit_batch, commit_wake,
}
use dg_cat.Queue.Commit.Append.{
  IsMessage, stream, Appends, producer_commit_batch_lem, commit_wake_lem,
}
use dg_cat.Queue.Commit.Fitting.{
  IsFitting, Accepts, producer_commit_batch-Accepts, commit_wake-Accepts,
}
use dg_cat.Copier.{
  Producer, calling, blocked, closing, ended, finished, System, producer_next, settle, Step, Reach,
  here, next,
}
use dg_cat.Copier.Invariant.{pending, ConsumerOk, ProducerOk, Inv}
use dg_cat.Copier.Delivery.{initial, initial-Inv, Reach-Inv, finished-file}

-- No message has been left out, and none will be for its size.
abbrev pub Complete : ℕ → Producer → Type 0
Complete cap (calling rest) = All (IsFitting cap) (concat rest)
Complete cap (blocked m ms rest) = All (IsFitting cap) (m ∷ (ms ++ concat rest))
Complete cap (closing lost) = lost ≡ []
Complete cap (ended lost) = lost ≡ []

pub record Keeps (cap : ℕ) (s : System) : Type 0 where
  pub capacity : s.queue.max_n ≡ cap
  pub complete : (s.forced ≡ true) ⊎ Complete cap s.producer

pub next-Complete :
    (cap : ℕ) (r : CommitResult) (rest : List (List Mmsghdr))
    → Accepts cap r
    → All (IsFitting cap) (concat rest)
    → Complete cap (producer_next r rest)
next-Complete cap (done q) rest a more = more
next-Complete cap (waiting q m ms) rest a more =
    (a.0, All-append (IsFitting cap) ms (concat rest) a.1 more)
next-Complete cap (failed x q ms) rest a more = absurd a

settle-Keeps :
    (cap : ℕ) (s : System) (ms : List Mmsghdr) (rest : List (List Mmsghdr)) (r : CommitResult)
    → Keeps cap s
    → Appends s.queue ms r
    → (Complete cap s.producer → Accepts cap r × All (IsFitting cap) (concat rest))
    → Keeps cap (settle s r rest)
settle-Keeps cap s ms rest r k a go = record {
  capacity = a.capacity ∙ k.capacity;
  complete = elim k.complete [
    | inl forced ↦ inl forced
    | inr complete ↦ inr (next-Complete cap r rest (go complete).0 (go complete).1)
  ];
}

Step-Keeps :
    (e : Endian) (max_write_size cap : ℕ) (all : List Mmsghdr) {s t : System}
    → Inv all s
    → Step e max_write_size s t
    → Keeps cap s
    → Keeps cap t
unfolding producer_set_eof
Step-Keeps e mws cap all {s} i (Step.call ms rest at_) k =
    let open_ = subst (ProducerOk s.queue) at_ i.producer_ok in
    let mine =
      (All-split IsMessage ms (concat rest)
        (subst (All IsMessage) (ap pending at_) i.messages)).0 in
    settle-Keeps cap s ms rest (producer_commit_batch e s.queue ms) k
      (producer_commit_batch_lem e s.queue ms i.valid mine)
      (λ c.
        let (fits, more) =
          All-split (IsFitting cap) ms (concat rest) (subst (Complete cap) at_ c) in
        (producer_commit_batch-Accepts e cap s.queue ms i.valid mine k.capacity open_ fits, more))
Step-Keeps e mws cap all {s} i (Step.wake m ms rest at_) k =
    let (open_, stored, small) = subst (ProducerOk s.queue) at_ i.producer_ok in
    let mine =
      (All-split IsMessage (m ∷ ms) (concat rest)
        (subst (All IsMessage) (ap pending at_) i.messages)).0 in
    settle-Keeps cap s (m ∷ ms) rest (commit_wake e s.queue m ms) k
      (commit_wake_lem e s.queue m ms i.valid mine stored)
      (λ c.
        let (fits, more) =
          All-split (IsFitting cap) (m ∷ ms) (concat rest) (subst (Complete cap) at_ c) in
        (commit_wake-Accepts e cap s.queue m ms i.valid mine k.capacity fits, more))
Step-Keeps e mws cap all i (Step.force rest at_) k = record {
  capacity = k.capacity;
  complete = inl refl;
}
Step-Keeps e mws cap all i (Step.leave at_) k = record {
  capacity = k.capacity;
  complete = elim k.complete [ inl forced ↦ inl forced | inr complete ↦ inr refl ];
}
Step-Keeps e mws cap all i (Step.close lost at_) k = record {
  capacity = k.capacity;
  complete = elim k.complete [
    | inl forced ↦ inl forced
    | inr complete ↦ inr (subst (Complete cap) at_ complete)
  ];
}
Step-Keeps e mws cap all i (Step.start b at_ ran) k = record {
  capacity = k.capacity;
  complete = k.complete;
}
Step-Keeps e mws cap all i (Step.refuse x at_ ran) k = record {
  capacity = k.capacity;
  complete = k.complete;
}
Step-Keeps e mws cap all i (Step.check at_) k = record {
  capacity = k.capacity;
  complete = k.complete;
}
Step-Keeps e mws cap all i (Step.write b n at_ short) k = record {
  capacity = k.capacity;
  complete = k.complete;
}
Step-Keeps e mws cap all i (Step.write_error b at_) k = record {
  capacity = k.capacity;
  complete = k.complete;
}
Step-Keeps e mws cap all {s} i (Step.free n q at_ ran) k =
    let (some_, held) = subst (ConsumerOk s.queue) at_ i.consumer_ok in
    let r = consumer_commit_batch_lem s.queue n i.valid held some_ in
    let same : q ≡ r.0 = cc (ran, r.1) in
    record {
      capacity = ap (λ (x : BufferQueue). x.max_n) same ∙ r.5 ∙ k.capacity;
      complete = k.complete;
    }

Reach-Keeps :
    (e : Endian) (max_write_size cap : ℕ) (all : List Mmsghdr) {s t : System}
    → 0 < max_write_size
    → Inv all s
    → Keeps cap s
    → Reach e max_write_size s t
    → Keeps cap t
Reach-Keeps e mws cap all pos i k here = k
Reach-Keeps e mws cap all pos i k (next r st) =
    Step-Keeps e mws cap all (Reach-Inv e mws all pos i r) st (Reach-Keeps e mws cap all pos i k r)

-- Where every message that is kept fits into the queue, nobody ends the source by force and no
-- `write` is short, a destination whose loop has ended has written exactly the frames of all
-- messages. The write size and the capacity are positive, the capacity is below 2^63 bytes, and each
-- message has its bytes and a length of 32 bits.
pub finished-lossless :
    (e : Endian) (max_write_size max_backlog : ℕ) (shared : DgBufferStats)
    (batches : List (List Mmsghdr)) {t : System}
    → 0 < max_write_size
    → 0 < max_backlog
    → max_backlog < 2 ^ 63
    → All IsMessage (concat batches)
    → All (IsFitting max_backlog) (concat batches)
    → Reach e max_write_size (initial max_backlog shared batches) t
    → t.consumer ≡ finished
    → t.missed ≡ 0
    → t.forced ≡ false
    → (t.producer ≡ ended []) × (t.file ≡ stream (concat batches))
unfolding new_queue
finished-lossless e mws max_backlog shared batches {t} pos room small messages fits r at_ full
      free_ =
    let i = initial-Inv max_backlog shared batches room small messages in
    let k =
      Reach-Keeps e mws max_backlog (concat batches) pos i
        (record { capacity = refl; complete = inr fits }) r in
    let (lost, over, bytes) =
      finished-file e mws max_backlog shared batches pos room small messages r at_ full in
    let none_ : lost ≡ [] = nothing lost over k.complete in
    (
      over ∙ ap ended none_,
      sym (append-nil t.file) ∙ ap (λ x. t.file ++ stream x) (sym none_) ∙ bytes,
    )
  where
    nothing :
        (lost : List Mmsghdr)
        → t.producer ≡ ended lost
        → (t.forced ≡ true) ⊎ Complete max_backlog t.producer
        → lost ≡ []
    nothing lost over (inl forced) = absurd (cc (forced, free_))
    nothing lost over (inr complete) = subst (Complete max_backlog) over complete
