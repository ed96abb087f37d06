-- ===== src/UdpCopier/Steps.antt =====
-- The steps of a copy to a UDP socket against its invariant.
use dg_cat.Common.{
  concat, All-split, All, ℕ, ◌+◌, ◌≤◌, ◌≡◌, refl, sym, ap, ◌∙◌, subst, true, List, [], ◌∷◌, ◌++◌,
  length, arith, append_assoc, length-append, inl, inr, drop,
}
use dg_cat.Wire.{Endian, prefix_len, be_bytes}
use dg_cat.Wire.Splits.{encode, All32}
use dg_cat.Batch.{ConsumerBatch}
use dg_cat.Queue.{BufferQueue, ok, producer_set_eof, consumer_commit_batch}
use dg_cat.Queue.Window.{IsValid-eof, contents, length-contents, wrap}
use dg_cat.Queue.Take.{consumer_commit_batch_lem, consumer_commit_batch-index}
use dg_cat.Queue.Waits.{Handed, consumer_start_batch_lem, start_batch-data}
use dg_cat.Queue.Commit.{Mmsghdr, producer_commit_batch, commit_wake}
use dg_cat.Queue.Commit.Append.{IsMessage, producer_commit_batch_lem, commit_wake_lem}
use dg_cat.Queue.Commit.Progress.{producer_commit_batch-Blocked, commit_wake-Blocked}
use dg_cat.Queue.Commit.Fitting.{IsFitting, producer_commit_batch-Accepts, commit_wake-Accepts}
use dg_cat.Queue.Commit.Whole.{delivered, producer_commit_batch-Dealt, commit_wake-Dealt}
use dg_cat.Copier.{closing, ended}
use dg_cat.Copier.Invariant.{pending, ProducerOk}
use dg_cat.Copier.Steps.{ProducerOk-same, ok-injective}
use dg_cat.Copier.Lossless.{Complete}
use dg_cat.UdpDestination.{sends, size_max, send_batch}
use dg_cat.UdpDestination.Runs.{IsStraight}
use dg_cat.UdpDestination.Frames.{drop_front}
use dg_cat.UdpCopier.{Sender, starting, holding, freeing, finished, broken, System, Step}
use dg_cat.UdpCopier.Held.{started-SenderOk, sends-data, held-cases}
use dg_cat.UdpCopier.Invariant.{tail, due, SenderOk, Inv}
use dg_cat.UdpCopier.Moves.{settle-Inv, sender-Inv, forced-Inv, quits}

module _ (e : Endian) (cap : ℕ) (all : List Mmsghdr) (s : System) (i : Inv cap all s) where
  free-Inv :
      (k : ℕ) (q : BufferQueue)
      → s.sender ≡ freeing k
      → consumer_commit_batch s.queue k ≡ ok q
      → Inv cap all (record s { queue = q; sender = starting })
  free-Inv k q at_ ran =
      let (p, rest, eq, size) = subst (SenderOk i.frames s.queue) at_ i.sender_ok in
      let pre = be_bytes (length p) in
      let front : contents s.queue ≡ (pre ++ p) ++ encode rest =
        i.held ∙ ap encode eq ∙ sym (append_assoc pre p (encode rest)) in
      let whole = length-append pre p in
      let within : k ≤ s.queue.n =
        omega (
          arith,
          length-contents s.queue,
          ap length front,
          length-append (pre ++ p) (encode rest),
        ) in
      let (q', ran', valid, bytes, count, same_cap, eof, told) =
        consumer_commit_batch_lem s.queue k i.valid within (omega arith) in
      let same : q' ≡ q = ok-injective (sym ran' ∙ ran) in
      let later = delivered (pending s.producer) in
      let index : wrap cap (s.queue.consumer_index + (length p + prefix_len)) ≡ q'.consumer_index =
        sym (
          consumer_commit_batch-index s.queue q' k i.valid within (omega arith) ran'
          ∙ ap (λ x. wrap x (s.queue.consumer_index + k)) i.capacity
          ∙ ap (λ x. wrap cap (s.queue.consumer_index + x)) size) in
      subst (λ x. Inv cap all (record s { queue = x; sender = starting })) same
        (record {
          valid = valid;
          messages = i.messages;
          producer_ok = ProducerOk-same s.producer s.queue q' same_cap eof i.producer_ok;
          capacity = same_cap ∙ i.capacity;
          asked = i.asked;
          frames = rest;
          held = bytes ∙ ap (drop k) front ∙ drop_front k (pre ++ p) (encode rest) (omega arith);
          small = (subst All32 eq i.small).1;
          straight =
              subst (λ x. IsStraight cap x (rest ++ later)) index
                (subst (λ x. IsStraight cap s.queue.consumer_index (x ++ later)) eq i.straight).1;
          sender_ok = tt;
          accounts =
              ap (λ x. s.given ++ (x ++ later))
                (sym (ap (due s.sender) eq ∙ ap (λ c. due c (p ∷ rest)) at_))
              ∙ i.accounts;
          complete = i.complete;
        })

  send-Inv :
      (b : ConsumerBatch) (bs : List ℕ) (k : ℕ)
      → s.sender ≡ holding b
      → send_batch e s.queue.cells s.n_min b ≡ sends bs k
      → (sent : List (List ℕ)) (refused : ℕ)
      → Inv cap all (record s {
        sender = freeing k;
        given = s.given ++ (bs ∷ []);
        sent = sent;
        refused = refused;
      })
  send-Inv b bs k at_ ran sent refused = elim (held-cases e cap all s i b at_) [
    | inl (left, eof, empty) ↦ absurd (cc (left, ran))
    | inr (p, rest, eq, sent_) ↦
        let (same, size) = sends-data (sym ran ∙ sent_) in
        let later = delivered (pending s.producer) in
        record {
          valid = i.valid;
          messages = i.messages;
          producer_ok = i.producer_ok;
          capacity = i.capacity;
          asked = i.asked;
          frames = i.frames;
          held = i.held;
          small = i.small;
          straight = i.straight;
          sender_ok = (p, rest, eq, size);
          accounts =
              ap (λ x. (s.given ++ (bs ∷ [])) ++ (tail x ++ later)) eq
              ∙ append_assoc s.given (bs ∷ []) (rest ++ later)
              ∙ ap (λ x. s.given ++ (x ∷ (rest ++ later))) same
              ∙ ap (λ x. s.given ++ (x ++ later)) (sym eq ∙ sym (ap (λ c. due c i.frames) at_))
              ∙ i.accounts;
          complete = i.complete;
        }
  ]

  close-Inv :
      (lost : List Mmsghdr)
      → s.producer ≡ closing lost
      → Inv cap all (record s { queue = producer_set_eof s.queue; producer = ended lost })
  unfolding producer_set_eof
  close-Inv lost at_ =
      let same : lost ≡ pending s.producer = sym (ap pending at_) in
      record {
        valid = IsValid-eof i.valid;
        messages = subst (All IsMessage) (sym same) i.messages;
        producer_ok = refl;
        capacity = i.capacity;
        asked = i.asked;
        frames = i.frames;
        held = i.held;
        small = i.small;
        straight =
            subst (λ x. IsStraight cap s.queue.consumer_index (i.frames ++ delivered x)) (sym same)
              i.straight;
        sender_ok = closed s.sender i.sender_ok;
        accounts = ap (λ x. s.given ++ (due s.sender i.frames ++ delivered x)) same ∙ i.accounts;
        complete = λ fits. elim (i.complete fits) [
          | inl forced ↦ inl forced
          | inr c ↦ inr (subst (Complete cap) at_ c)
        ];
      }
    where
      closed :
          (c : Sender)
          → SenderOk i.frames s.queue c
          → SenderOk i.frames (producer_set_eof s.queue) c
      closed starting h = tt
      closed (holding b) (inl (none_, eof, empty)) = inl (none_, refl, empty)
      closed (holding b) (inr t) = inr t
      closed (freeing k) h = h
      closed finished h = (refl, h.1)
      closed broken h = tt

  -- Every step keeps the invariant.
  pub Step-Inv : {t : System} → Step e s t → Inv cap all t
  Step-Inv (Step.call ms rest at_) =
      let mine =
        (All-split IsMessage ms (concat rest)
          (subst (All IsMessage) (ap pending at_) i.messages)).0 in
      settle-Inv cap all s ms rest (producer_commit_batch e s.queue ms) i
        (subst (ProducerOk s.queue) at_ i.producer_ok) (ap pending at_)
        (producer_commit_batch_lem e s.queue ms i.valid mine)
        (producer_commit_batch-Dealt e s.queue ms i.valid mine)
        (producer_commit_batch-Blocked e s.queue ms i.valid mine)
        (λ c.
          let (fits, more) =
            All-split (IsFitting cap) ms (concat rest) (subst (Complete cap) at_ c) in
          (
            producer_commit_batch-Accepts e cap s.queue ms i.valid mine i.capacity
                (subst (ProducerOk s.queue) at_ i.producer_ok) fits,
            more,
          ))
  Step-Inv (Step.wake m ms rest at_) =
      let (open_, stored, small) = subst (ProducerOk s.queue) at_ i.producer_ok in
      let mine =
        (All-split IsMessage (m ∷ ms) (concat rest)
          (subst (All IsMessage) (ap pending at_) i.messages)).0 in
      settle-Inv cap all s (m ∷ ms) rest (commit_wake e s.queue m ms) i open_ (ap pending at_)
        (commit_wake_lem e s.queue m ms i.valid mine stored)
        (commit_wake-Dealt e s.queue m ms i.valid mine)
        (commit_wake-Blocked e s.queue m ms i.valid mine stored small)
        (λ c.
          let (fits, more) =
            All-split (IsFitting cap) (m ∷ ms) (concat rest) (subst (Complete cap) at_ c) in
          (commit_wake-Accepts e cap s.queue m ms i.valid mine i.capacity fits, more))
  Step-Inv (Step.leave at_) =
      let open_ = subst (ProducerOk s.queue) at_ i.producer_ok in
      quits cap all s i (closing []) open_ (sym (ap pending at_)) open_
        λ fits. elim (i.complete fits) [ inl forced ↦ inl forced | inr c ↦ inr refl ]
  Step-Inv (Step.force rest at_) =
      let open_ = subst (ProducerOk s.queue) at_ i.producer_ok in
      quits cap all (record s { forced = true }) (forced-Inv cap all i) (closing (concat rest))
        open_ (sym (ap pending at_)) open_ (λ _. inl refl)
  Step-Inv (Step.close lost at_) = close-Inv lost at_
  Step-Inv (Step.start b at_ ran) =
      sender-Inv cap all s (holding b) i
        (started-SenderOk i.frames s.queue s.n_min b i.valid i.held (omega (arith, i.asked))
          (subst (Handed s.queue s.n_min size_max) ran
            (consumer_start_batch_lem s.queue s.n_min size_max i.valid))
          (start_batch-data s.queue s.n_min size_max b ran))
        (sym (ap (λ c. due c i.frames) at_))
  Step-Inv (Step.refuse x at_ ran) =
      sender-Inv cap all s broken i tt (sym (ap (λ c. due c i.frames) at_))
  Step-Inv (Step.finish b at_ ran) = elim (held-cases e cap all s i b at_) [
    | inl (left, eof, empty) ↦
        sender-Inv cap all s finished i (eof, empty) (sym (ap (λ c. due c i.frames) at_))
    | inr (p, rest, eq, sent_) ↦ absurd (cc (sent_, ran))
  ]
  Step-Inv (Step.ask b k at_ ran) = elim (held-cases e cap all s i b at_) [
    | inl (left, eof, empty) ↦ absurd (cc (left, ran))
    | inr (p, rest, eq, sent_) ↦ absurd (cc (sent_, ran))
  ]
  Step-Inv (Step.reject b at_ ran) =
      sender-Inv cap all s broken i tt (sym (ap (λ c. due c i.frames) at_))
  Step-Inv (Step.send b bs k at_ ran) = send-Inv b bs k at_ ran _ _
  Step-Inv (Step.send_refused b bs k at_ ran) = send-Inv b bs k at_ ran _ _
  Step-Inv (Step.send_error b bs k at_ ran) =
      sender-Inv cap all s broken i tt (sym (ap (λ c. due c i.frames) at_))
  Step-Inv (Step.free k q at_ ran) = free-Inv k q at_ ran
