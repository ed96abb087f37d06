-- ===== src/Copier/Invariant.antt =====
-- The invariant of the steps of a copy to a file (datagram_copier.hpp,
-- file_datagram_destination.hpp).
use dg_cat.Common.{
  concat, All-split, All-append, All, ℕ, ◌+◌, ◌≤◌, ◌<◌, ◌≡◌, refl, sym, ap, ◌∙◌, subst, true, false,
  List, ◌∷◌, ◌++◌, drop, length, arith, append_assoc, length-append, ap₂,
}
use dg_cat.Wire.{prefix_len}
use dg_cat.Batch.Laws.{drop-append_le}
use dg_cat.Queue.{BufferQueue}
use dg_cat.Queue.Window.{contents, IsValid, length-contents}
use dg_cat.Queue.Take.{batch_at}
use dg_cat.Queue.Commit.{Mmsghdr, CommitResult, done, waiting, failed, is_discarded}
use dg_cat.Queue.Commit.Append.{IsMessage, stream, Appends, result_queue, unsent}
use dg_cat.Queue.Commit.Progress.{Blocked}
use dg_cat.Queue.Commit.Whole.{stream-append}
use dg_cat.Copier.{
  Producer, calling, blocked, closing, ended, Consumer, starting, holding, freeing, checking,
  finished, broken, System, producer_next, settle,
}

-- The messages that are not in the queue yet, or were left out.
abbrev pub pending : Producer → List Mmsghdr
pending (calling rest) = concat rest
pending (blocked m ms rest) = m ∷ (ms ++ concat rest)
pending (closing lost) = lost
pending (ended lost) = lost

-- The bytes of the queue that are not in the file yet.
abbrev pub due : Consumer → BufferQueue → List ℕ
due starting q = contents q
due (holding b) q = contents q
due (freeing k) q = drop k (contents q)
due checking q = contents q
due finished q = contents q
due broken q = contents q

-- A batch in the consumer's hands stands for the oldest bytes; it looks for the end of file only
-- when the queue is closed and empty.
abbrev pub ConsumerOk : BufferQueue → Consumer → Type 0
ConsumerOk q starting = Unit
ConsumerOk q (holding b) = (k : ℕ) × (0 < k) × (k ≤ q.n) × (b ≡ batch_at q.max_n q.consumer_index k)
ConsumerOk q (freeing k) = (0 < k) × (k ≤ q.n)
ConsumerOk q checking = (q.is_eof ≡ true) × (q.n ≡ 0)
ConsumerOk q finished = (q.is_eof ≡ true) × (q.n ≡ 0)
ConsumerOk q broken = Unit

-- A message that is waited with is to be stored, and fits into the empty queue; only the producer's
-- end closes the queue.
abbrev pub ProducerOk : BufferQueue → Producer → Type 0
ProducerOk q (calling rest) = q.is_eof ≡ false
ProducerOk q (blocked m ms rest) =
    (q.is_eof ≡ false) × (is_discarded m.msg_flags ≡ false) × (m.msg_len + prefix_len ≤ q.max_n)
ProducerOk q (closing lost) = q.is_eof ≡ false
ProducerOk q (ended lost) = q.is_eof ≡ true

pub record Inv (all : List Mmsghdr) (s : System) : Type 0 where
  pub valid : IsValid s.queue
  pub messages : All IsMessage (pending s.producer)
  pub producer_ok : ProducerOk s.queue s.producer
  pub consumer_ok : ConsumerOk s.queue s.consumer
  -- no byte is lost, doubled or moved, unless `write` took less than it was given
  pub accounts :
      s.missed ≡ 0 → s.file ++ (due s.consumer s.queue ++ stream (pending s.producer)) ≡ stream all
  pub lengths :
      length s.file
        + s.missed
        + (length (due s.consumer s.queue) + length (stream (pending s.producer)))
      ≡ length (stream all)

-- What is added behind the contents is added behind the bytes that are due.
due-append :
    (c : Consumer) (q q' : BufferQueue) (u s : List ℕ)
    → ConsumerOk q c
    → q.n ≤ q'.n
    → contents q' ++ u ≡ contents q ++ s
    → due c q' ++ u ≡ due c q ++ s
due-append starting q q' u s ok_ grown bytes = bytes
due-append (holding b) q q' u s ok_ grown bytes = bytes
due-append (freeing k) q q' u s ok_ grown bytes =
    sym (drop-append_le k (contents q') u (omega (arith, length-contents q')))
    ∙ ap (drop k) bytes
    ∙ drop-append_le k (contents q) s (omega (arith, length-contents q))
due-append checking q q' u s ok_ grown bytes = bytes
due-append finished q q' u s ok_ grown bytes = bytes
due-append broken q q' u s ok_ grown bytes = bytes

-- The consumer's view outlasts what the producer adds.
ConsumerOk-grown :
    (c : Consumer) (q q' : BufferQueue)
    → ConsumerOk q c
    → q.is_eof ≡ false
    → q.n ≤ q'.n
    → q'.max_n ≡ q.max_n
    → q'.consumer_index ≡ q.consumer_index
    → ConsumerOk q' c
ConsumerOk-grown starting q q' ok_ open_ grown cap con = tt
ConsumerOk-grown (holding b) q q' (k, pos, held, eq) open_ grown cap con =
    (k, pos, omega arith, eq ∙ ap₂ (λ x y. batch_at x y k) (sym cap) (sym con))
ConsumerOk-grown (freeing k) q q' ok_ open_ grown cap con = omega arith
ConsumerOk-grown checking q q' ok_ open_ grown cap con = cc
ConsumerOk-grown finished q q' ok_ open_ grown cap con = cc
ConsumerOk-grown broken q q' ok_ open_ grown cap con = tt

-- An addition by the producer, in terms of what is due and what is pending.
pub grown-Inv :
    (all : List Mmsghdr) (s : System) (q' : BufferQueue) (p' : Producer)
    → Inv all s
    → s.queue.is_eof ≡ false
    → IsValid q'
    → s.queue.n ≤ q'.n
    → q'.max_n ≡ s.queue.max_n
    → q'.consumer_index ≡ s.queue.consumer_index
    → contents q' ++ stream (pending p') ≡ contents s.queue ++ stream (pending s.producer)
    → All IsMessage (pending p')
    → ProducerOk q' p'
    → Inv all (record s { queue = q'; producer = p' })
grown-Inv all s q' p' i open_ valid grown cap con bytes messages producer_ok =
    let same =
      due-append s.consumer s.queue q' (stream (pending p')) (stream (pending s.producer))
        i.consumer_ok grown bytes in
    record {
      valid = valid;
      messages = messages;
      producer_ok = producer_ok;
      consumer_ok = ConsumerOk-grown s.consumer s.queue q' i.consumer_ok open_ grown cap con;
      accounts = λ h. ap (λ x. s.file ++ x) same ∙ i.accounts h;
      lengths = omega (
        arith,
        i.lengths,
        ap length same,
        length-append (due s.consumer q') (stream (pending p')),
        length-append (due s.consumer s.queue) (stream (pending s.producer)),
      );
    }

pub pending-next :
    (r : CommitResult) (rest : List (List Mmsghdr))
    → pending (producer_next r rest) ≡ unsent r ++ concat rest
pending-next (done q) rest = refl
pending-next (waiting q m ms) rest = refl
pending-next (failed x q ms) rest = refl

pub producer_next-ProducerOk :
    (q : BufferQueue) (r : CommitResult) (rest : List (List Mmsghdr))
    → Blocked r
    → (result_queue r).is_eof ≡ false
    → ProducerOk (result_queue r) (producer_next r rest)
producer_next-ProducerOk q (done q') rest b open_ = open_
producer_next-ProducerOk q (waiting q' m ms) rest b open_ = (open_, b.2, b.1)
producer_next-ProducerOk q (failed x q' ms) rest b open_ = open_

-- A call of `producer_commit_batch` or a wake of it.
pub settle-Inv :
    (all : List Mmsghdr) (s : System) (ms : List Mmsghdr) (rest : List (List Mmsghdr))
    (r : CommitResult)
    → Inv all s
    → s.queue.is_eof ≡ false
    → pending s.producer ≡ ms ++ concat rest
    → Appends s.queue ms r
    → Blocked r
    → Inv all (settle s r rest)
settle-Inv all s ms rest r i open_ eq a b =
    grown-Inv all s (result_queue r) (producer_next r rest) i open_ a.valid a.grown a.capacity
      a.consumer bytes messages (producer_next-ProducerOk s.queue r rest b (a.eof ∙ open_))
  where
    later : All IsMessage (concat rest)
    later = (All-split IsMessage ms (concat rest) (subst (All IsMessage) eq i.messages)).1

    messages : All IsMessage (pending (producer_next r rest))
    messages =
        subst (All IsMessage) (sym (pending-next r rest))
          (All-append IsMessage (unsent r) (concat rest) a.left later)

    bytes :
        contents (result_queue r) ++ stream (pending (producer_next r rest))
        ≡ contents s.queue ++ stream (pending s.producer)
    bytes =
        let c = contents (result_queue r) in
        ap (λ x. c ++ stream x) (pending-next r rest)
        ∙ ap (λ x. c ++ x) (stream-append (unsent r) (concat rest))
        ∙ sym (append_assoc c (stream (unsent r)) (stream (concat rest)))
        ∙ ap (λ x. x ++ stream (concat rest)) a.bytes
        ∙ append_assoc (contents s.queue) (stream ms) (stream (concat rest))
        ∙ ap (λ x. contents s.queue ++ x) (sym (stream-append ms (concat rest)))
        ∙ ap (λ x. contents s.queue ++ stream x) (sym eq)
