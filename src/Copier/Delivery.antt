-- ===== src/Copier/Delivery.antt =====
-- A copy to a file from its start: the file against the messages.
use dg_cat.Common.{
  concat, All, false, ℕ, ◌+◌, ◌^◌, ◌<◌, ◌≡◌, refl, sym, ap, ◌∙◌, subst, true, List, [], ◌∷◌, ◌++◌,
  length, arith,
}
use dg_cat.Wire.{Endian}
use dg_cat.Stats.{DgBufferStats}
use dg_cat.Queue.{BufferQueue, new_queue}
use dg_cat.Queue.Window.{contents, IsValid, new_queue-IsValid, length-contents}
use dg_cat.Queue.Commit.{Mmsghdr}
use dg_cat.Queue.Commit.Append.{IsMessage, stream}
use dg_cat.Copier.{
  Producer, calling, blocked, closing, ended, starting, finished, System, Reach, here, next,
}
use dg_cat.Copier.Invariant.{pending, due, ConsumerOk, ProducerOk, Inv}
use dg_cat.Copier.Steps.{Step-Inv}

-- `DatagramCopier::start` with the batches that the source will produce.
abbrev pub initial : ℕ → DgBufferStats → List (List Mmsghdr) → System
initial max_backlog shared batches = record {
  queue = new_queue max_backlog shared;
  producer = calling batches;
  consumer = starting;
  file = [];
  missed = 0;
  forced = false;
}

pub initial-Inv :
    (max_backlog : ℕ) (shared : DgBufferStats) (batches : List (List Mmsghdr))
    → 0 < max_backlog
    → max_backlog < 2 ^ 63
    → All IsMessage (concat batches)
    → Inv (concat batches) (initial max_backlog shared batches)
unfolding new_queue
initial-Inv max_backlog shared batches pos small messages =
    let v = new_queue-IsValid max_backlog shared pos small in
    record {
      valid = v.0;
      messages = messages;
      producer_ok = refl;
      consumer_ok = tt;
      accounts = λ _. refl;
      lengths = omega arith;
    }

pub Reach-Inv :
    (e : Endian) (max_write_size : ℕ) (all : List Mmsghdr) {s t : System}
    → 0 < max_write_size
    → Inv all s
    → Reach e max_write_size s t
    → Inv all t
Reach-Inv e mws all pos i here = i
Reach-Inv e mws all pos i (next r st) = Step-Inv e mws all pos st (Reach-Inv e mws all pos i r)

-- Where a copy to a file stands, in whatever order the threads have run: as long as `write` took all
-- that it was given, the file and the bytes in transit are exactly the frames of the messages, in
-- order.
-- Here the write size and the capacity are positive, the capacity is below 2^63 bytes, and each
-- message has its bytes and a length of 32 bits.
pub Reach-accounts :
    (e : Endian) (max_write_size max_backlog : ℕ) (shared : DgBufferStats)
    (batches : List (List Mmsghdr)) {t : System}
    → 0 < max_write_size
    → 0 < max_backlog
    → max_backlog < 2 ^ 63
    → All IsMessage (concat batches)
    → Reach e max_write_size (initial max_backlog shared batches) t
    → t.missed ≡ 0
    → IsValid t.queue
      × (t.file ++ (due t.consumer t.queue ++ stream (pending t.producer))
          ≡ stream (concat batches))
Reach-accounts e mws max_backlog shared batches pos room small messages r full =
    let i =
      Reach-Inv e mws (concat batches) pos
        (initial-Inv max_backlog shared batches room small messages) r in
    (i.valid, i.accounts full)

empty-contents : (q : BufferQueue) → q.n ≡ 0 → contents q ≡ []
empty-contents q h = nothing (contents q) (omega (arith, length-contents q))
  where
    nothing : (xs : List ℕ) → length xs ≡ 0 → xs ≡ []
    nothing [] h = refl
    nothing (x ∷ xs) h = absurd (omega arith)

pub producer_ended :
    (q : BufferQueue) (p : Producer)
    → ProducerOk q p
    → q.is_eof ≡ true
    → (lost : List Mmsghdr) × (p ≡ ended lost)
producer_ended q (calling rest) h eof = cc
producer_ended q (blocked m ms rest) h eof = absurd (ground (arith, h.0, eof))
producer_ended q (closing lost) h eof = cc
producer_ended q (ended lost) h eof = (lost, refl)

abbrev IsOver : (all : List Mmsghdr) → System → Type 0
IsOver all t =
    (lost : List Mmsghdr) × (t.producer ≡ ended lost)
    × (t.missed ≡ 0 → t.file ++ stream lost ≡ stream all)
    × (length t.file + t.missed + length (stream lost) ≡ length (stream all))

finished-IsOver :
    (all : List Mmsghdr) (t : System) → Inv all t → t.consumer ≡ finished → IsOver all t
finished-IsOver all t i at_ =
    let (eof, empty) = subst (ConsumerOk t.queue) at_ i.consumer_ok in
    let (lost, over) = producer_ended t.queue t.producer i.producer_ok eof in
    let gone : due t.consumer t.queue ≡ [] =
      ap (λ c. due c t.queue) at_ ∙ empty-contents t.queue empty in
    (
      lost,
      over,
      (λ h.
          ap (λ p. t.file ++ stream (pending p)) (sym over)
          ∙ ap (λ x. t.file ++ (x ++ stream (pending t.producer))) (sym gone)
          ∙ i.accounts h),
      omega (arith, i.lengths, ap length gone, ap (λ p. length (stream (pending p))) over),
    )

-- When the destination's loop has ended, the source's thread has too; and if `write` took all that
-- it was given, then the file followed by the frames of the messages that an exception left out is
-- the frames of all messages.
-- Here the write size and the capacity are positive, the capacity is below 2^63 bytes, and each
-- message has its bytes and a length of 32 bits.
pub finished-file :
    (e : Endian) (max_write_size max_backlog : ℕ) (shared : DgBufferStats)
    (batches : List (List Mmsghdr)) {t : System}
    → 0 < max_write_size
    → 0 < max_backlog
    → max_backlog < 2 ^ 63
    → All IsMessage (concat batches)
    → Reach e max_write_size (initial max_backlog shared batches) t
    → t.consumer ≡ finished
    → t.missed ≡ 0
    → (lost : List Mmsghdr) × (t.producer ≡ ended lost)
      × (t.file ++ stream lost ≡ stream (concat batches))
finished-file e mws max_backlog shared batches {t} pos room small messages r at_ full =
    let i =
      Reach-Inv e mws (concat batches) pos
        (initial-Inv max_backlog shared batches room small messages) r in
    let (lost, over, bytes, lengths) = finished-IsOver (concat batches) t i at_ in
    (lost, over, bytes full)

-- When the destination's loop has ended, the file is shorter than the frames of all messages by the
-- frames that an exception left out and by exactly the bytes that `write` was given and did not
-- take: what a short write leaves is never written again.
-- Here the write size and the capacity are positive, the capacity is below 2^63 bytes, and each
-- message has its bytes and a length of 32 bits.
pub finished-missed :
    (e : Endian) (max_write_size max_backlog : ℕ) (shared : DgBufferStats)
    (batches : List (List Mmsghdr)) {t : System}
    → 0 < max_write_size
    → 0 < max_backlog
    → max_backlog < 2 ^ 63
    → All IsMessage (concat batches)
    → Reach e max_write_size (initial max_backlog shared batches) t
    → t.consumer ≡ finished
    → (lost : List Mmsghdr) × (t.producer ≡ ended lost)
      × (length t.file + t.missed + length (stream lost) ≡ length (stream (concat batches)))
finished-missed e mws max_backlog shared batches {t} pos room small messages r at_ =
    let i =
      Reach-Inv e mws (concat batches) pos
        (initial-Inv max_backlog shared batches room small messages) r in
    let (lost, over, bytes, lengths) = finished-IsOver (concat batches) t i at_ in
    (lost, over, lengths)
