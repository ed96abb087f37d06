-- ===== src/Copier/Steps.antt =====
-- The steps of a copy to a file against its invariant.
use dg_cat.Common.{
  concat, All-split, All, ℕ, ◌+◌, ◌-◌, ◌≤◌, ◌<◌, ◌≡◌, refl, sym, ap, ◌∙◌, subst, true, List, [],
  ◌∷◌, ◌++◌, take, drop, length, ◌==◌, arith, min, append_assoc, length-append, length-take,
  length-drop, take-append-drop, inl, inr, ◌⊎◌, if_cases, take-all, ap₂,
}
use dg_cat.Wire.{Endian}
use dg_cat.Batch.{ConsumerBatch, gather}
use dg_cat.Queue.{
  BufferQueue, ok, ready, producer_set_eof, consumer_start_batch, consumer_commit_batch,
}
use dg_cat.Queue.Window.{contents, IsValid, IsValid-eof, length-contents}
use dg_cat.Queue.Take.{gather-batch_at, get_data_locked-eq, consumer_commit_batch_lem}
use dg_cat.Queue.Waits.{Handed, consumer_start_batch_lem, start_batch-data}
use dg_cat.Queue.Commit.{Mmsghdr, producer_commit_batch, commit_wake}
use dg_cat.Queue.Commit.Append.{IsMessage, stream, producer_commit_batch_lem, commit_wake_lem}
use dg_cat.Queue.Commit.Progress.{producer_commit_batch-Blocked, commit_wake-Blocked}
use dg_cat.Copier.{
  Producer, calling, blocked, closing, ended, Consumer, starting, holding, freeing, checking,
  finished, broken, System, take_batch, Step,
}
use dg_cat.Copier.Invariant.{pending, due, ConsumerOk, ProducerOk, Inv, settle-Inv, grown-Inv}

-- A step of the consumer that leaves the queue and the file alone.
consumer-Inv :
    (all : List Mmsghdr) (s : System) (c : Consumer)
    → Inv all s
    → ConsumerOk s.queue c
    → due c s.queue ≡ due s.consumer s.queue
    → Inv all (record s { consumer = c })
consumer-Inv all s c i ok_ same = record {
  valid = i.valid;
  messages = i.messages;
  producer_ok = i.producer_ok;
  consumer_ok = ok_;
  accounts = λ h. ap (λ x. s.file ++ (x ++ stream (pending s.producer))) same ∙ i.accounts h;
  lengths = omega (arith, i.lengths, ap length same);
}

-- What the consumer takes from `consumer_start_batch`.
take_batch-ok :
    (q : BufferQueue) (max_write_size : ℕ) (b : ConsumerBatch)
    → IsValid q
    → 0 < max_write_size
    → Handed q 1 max_write_size (ready b)
    → consumer_start_batch q 1 max_write_size ≡ ready b
    → ConsumerOk q (take_batch b) × (due (take_batch b) q ≡ contents q)
take_batch-ok q max_write_size b v pos (batch, bytes, count, enough) ran =
    if_cases (λ c. ConsumerOk q c × (due c q ≡ contents q)) (b.n_iov == 0) _ _
      (λ h. let none_ : q.n ≡ 0 = ground (arith, batch) in ((closed none_ enough, none_), refl))
      (λ h.
        let some_ : 0 < min q.n max_write_size = ground (arith, batch) in
        (
          (
            min q.n max_write_size,
            some_,
            omega arith,
            start_batch-data q 1 max_write_size b ran ∙ get_data_locked-eq q max_write_size v some_,
          ),
          refl,
        ))
  where
    closed : q.n ≡ 0 → (q.is_eof ≡ true) ⊎ (1 ≤ q.n) → q.is_eof ≡ true
    closed none_ (inl eof) = eof
    closed none_ (inr more) = absurd (omega arith)

write-Inv :
    (all : List Mmsghdr) (s : System) (b : ConsumerBatch) (k : ℕ)
    → Inv all s
    → s.consumer ≡ holding b
    → k ≤ b.n
    → Inv all (record s {
      consumer = freeing b.n;
      file = s.file ++ take k (gather s.queue.cells b);
      missed = s.missed + (b.n - k);
    })
write-Inv all s b k i at_ short =
    let (n, pos, held, eq) = subst (ConsumerOk s.queue) at_ i.consumer_ok in
    let g = gather-batch_at s.queue n i.valid held in
    let count : b.n ≡ n = ap (λ x. x.n) eq ∙ g.1 in
    let bytes : gather s.queue.cells b ≡ take b.n (contents s.queue) =
      ap (gather s.queue.cells) eq ∙ g.0 ∙ ap (λ x. take x (contents s.queue)) (sym count) in
    let was : due s.consumer s.queue ≡ contents s.queue = ap (λ c. due c s.queue) at_ in
    let p = stream (pending s.producer) in
    let rest = drop b.n (contents s.queue) in
    record {
      valid = i.valid;
      messages = i.messages;
      producer_ok = i.producer_ok;
      consumer_ok = omega arith;
      accounts = λ h.
          let whole : k ≡ b.n = omega arith in
          ap (λ x. (s.file ++ x) ++ (rest ++ p))
            (ap (λ x. take x (gather s.queue.cells b)) whole
              ∙ take-all b.n (gather s.queue.cells b)
                  (omega (arith, ap length bytes, length-take b.n (contents s.queue)))
              ∙ bytes)
          ∙ append_assoc s.file (take b.n (contents s.queue)) (rest ++ p)
          ∙ ap (λ x. s.file ++ x)
              (sym (append_assoc (take b.n (contents s.queue)) rest p)
                ∙ ap (λ x. x ++ p) (take-append-drop b.n (contents s.queue) ∙ sym was))
          ∙ i.accounts (omega arith);
      lengths = omega (
        arith,
        i.lengths,
        ap length was,
        ap length bytes,
        length-take b.n (contents s.queue),
        length-drop b.n (contents s.queue),
        length-contents s.queue,
        length-take k (gather s.queue.cells b),
        length-append s.file (take k (gather s.queue.cells b)),
      );
    }

pub ok-injective : {q q' : BufferQueue} → ok q ≡ ok q' → q ≡ q'
ok-injective h = cc

pub ProducerOk-same :
    (p : Producer) (q q' : BufferQueue)
    → q'.max_n ≡ q.max_n
    → q'.is_eof ≡ q.is_eof
    → ProducerOk q p
    → ProducerOk q' p
ProducerOk-same (calling rest) q q' cap eof h = eof ∙ h
ProducerOk-same (blocked m ms rest) q q' cap eof h = (eof ∙ h.0, h.1, omega (arith, h.2))
ProducerOk-same (closing lost) q q' cap eof h = eof ∙ h
ProducerOk-same (ended lost) q q' cap eof h = eof ∙ h

-- The end of file changes no byte.
due-eof : (c : Consumer) (q : BufferQueue) → due c (producer_set_eof q) ≡ due c q
unfolding producer_set_eof
due-eof starting q = refl
due-eof (holding b) q = refl
due-eof (freeing k) q = refl
due-eof checking q = refl
due-eof finished q = refl
due-eof broken q = refl

ConsumerOk-eof :
    (c : Consumer) (q : BufferQueue) → ConsumerOk q c → ConsumerOk (producer_set_eof q) c
unfolding producer_set_eof
ConsumerOk-eof starting q h = tt
ConsumerOk-eof (holding b) q h = h
ConsumerOk-eof (freeing k) q h = h
ConsumerOk-eof checking q h = (refl, h.1)
ConsumerOk-eof finished q h = (refl, h.1)
ConsumerOk-eof broken q h = tt

free-Inv :
    (all : List Mmsghdr) (s : System) (k : ℕ) (q : BufferQueue)
    → Inv all s
    → s.consumer ≡ freeing k
    → consumer_commit_batch s.queue k ≡ ok q
    → Inv all (record s { queue = q; consumer = starting })
free-Inv all s k q i at_ ran =
    let (pos, held) = subst (ConsumerOk s.queue) at_ i.consumer_ok in
    let (q', ran', valid, bytes, count, cap, eof, told) =
      consumer_commit_batch_lem s.queue k i.valid held pos in
    let same : q' ≡ q = ok-injective (sym ran' ∙ ran) in
    let was : due s.consumer s.queue ≡ drop k (contents s.queue) = ap (λ c. due c s.queue) at_ in
    let now : contents q' ≡ due s.consumer s.queue = bytes ∙ sym was in
    let p = stream (pending s.producer) in
    subst (λ x. Inv all (record s { queue = x; consumer = starting })) same
      (record {
        valid = valid;
        messages = i.messages;
        producer_ok = ProducerOk-same s.producer s.queue q' cap eof i.producer_ok;
        consumer_ok = tt;
        accounts = λ h. ap (λ x. s.file ++ (x ++ p)) now ∙ i.accounts h;
        lengths = omega (arith, i.lengths, ap length now);
      })

close-Inv :
    (all : List Mmsghdr) (s : System) (lost : List Mmsghdr)
    → Inv all s
    → s.producer ≡ closing lost
    → Inv all (record s { queue = producer_set_eof s.queue; producer = ended lost })
unfolding producer_set_eof
close-Inv all s lost i at_ =
    let same : lost ≡ pending s.producer = sym (ap pending at_) in
    let d = due-eof s.consumer s.queue in
    record {
      valid = IsValid-eof i.valid;
      messages = subst (All IsMessage) (sym same) i.messages;
      producer_ok = refl;
      consumer_ok = ConsumerOk-eof s.consumer s.queue i.consumer_ok;
      accounts = λ h. ap₂ (λ x y. s.file ++ (x ++ stream y)) d same ∙ i.accounts h;
      lengths = omega (arith, i.lengths, ap length d, ap (λ x. length (stream x)) same);
    }

forced-Inv : (all : List Mmsghdr) {s : System} → Inv all s → Inv all (record s { forced = true })
forced-Inv all i = record {
  valid = i.valid;
  messages = i.messages;
  producer_ok = i.producer_ok;
  consumer_ok = i.consumer_ok;
  accounts = i.accounts;
  lengths = i.lengths;
}

-- Every step keeps the invariant, where the destination may write at least a byte at a time.
pub Step-Inv :
    (e : Endian) (max_write_size : ℕ) (all : List Mmsghdr) {s t : System}
    → 0 < max_write_size
    → Step e max_write_size s t
    → Inv all s
    → Inv all t
Step-Inv e mws all {s} pos (Step.call ms rest at_) i =
    let split = subst (ProducerOk s.queue) at_ i.producer_ok in
    let mine =
      (All-split IsMessage ms (concat rest)
        (subst (All IsMessage) (ap pending at_) i.messages)).0 in
    settle-Inv all s ms rest (producer_commit_batch e s.queue ms) i split (ap pending at_)
      (producer_commit_batch_lem e s.queue ms i.valid mine)
      (producer_commit_batch-Blocked e s.queue ms i.valid mine)
Step-Inv e mws all {s} pos (Step.wake m ms rest at_) i =
    let (open_, stored, small) = subst (ProducerOk s.queue) at_ i.producer_ok in
    let mine =
      (All-split IsMessage (m ∷ ms) (concat rest)
        (subst (All IsMessage) (ap pending at_) i.messages)).0 in
    settle-Inv all s (m ∷ ms) rest (commit_wake e s.queue m ms) i open_ (ap pending at_)
      (commit_wake_lem e s.queue m ms i.valid mine stored)
      (commit_wake-Blocked e s.queue m ms i.valid mine stored small)
Step-Inv e mws all {s} pos (Step.leave at_) i =
    let none_ : [] ≡ pending s.producer = sym (ap pending at_) in
    grown-Inv all s s.queue (closing []) i (subst (ProducerOk s.queue) at_ i.producer_ok) i.valid
      (omega arith) refl refl (ap (λ x. contents s.queue ++ stream x) none_) tt
      (subst (ProducerOk s.queue) at_ i.producer_ok)
Step-Inv e mws all {s} pos (Step.force rest at_) i =
    let open_ = subst (ProducerOk s.queue) at_ i.producer_ok in
    let same : concat rest ≡ pending s.producer = sym (ap pending at_) in
    forced-Inv all (
      grown-Inv all s s.queue (closing (concat rest)) i open_ i.valid (omega arith) refl refl
        (ap (λ x. contents s.queue ++ stream x) same) (subst (All IsMessage) (sym same) i.messages)
        open_)
Step-Inv e mws all pos (Step.close lost at_) i = close-Inv all _ lost i at_
Step-Inv e mws all {s} pos (Step.start b at_ ran) i =
    let h = subst (Handed s.queue 1 mws) ran (consumer_start_batch_lem s.queue 1 mws i.valid) in
    let (ok_, same) = take_batch-ok s.queue mws b i.valid pos h ran in
    consumer-Inv all s (take_batch b) i ok_ (same ∙ sym (ap (λ c. due c s.queue) at_))
Step-Inv e mws all {s} pos (Step.refuse x at_ ran) i =
    consumer-Inv all s broken i tt (sym (ap (λ c. due c s.queue) at_))
Step-Inv e mws all {s} pos (Step.check at_) i =
    let was = ap (λ c. due c s.queue) at_ in
    if_cases (λ c. Inv all (record s { consumer = c })) s.queue.is_eof _ _
      (λ eof.
        consumer-Inv all s finished i (subst (ConsumerOk s.queue) at_ i.consumer_ok) (sym was))
      (λ eof. consumer-Inv all s starting i tt (sym was))
Step-Inv e mws all {s} pos (Step.write b k at_ short) i = write-Inv all s b k i at_ short
Step-Inv e mws all {s} pos (Step.write_error b at_) i =
    consumer-Inv all s broken i tt (sym (ap (λ c. due c s.queue) at_))
Step-Inv e mws all {s} pos (Step.free k q at_ ran) i = free-Inv all s k q i at_ ran
