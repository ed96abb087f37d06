-- ===== src/UdpCopier/Delivery.antt =====
-- A copy to a UDP socket from its start: the datagrams sent against the messages.
use dg_cat.Common.{
  concat, All, ℕ, ◌+◌, ◌%◌, ◌^◌, ◌≤◌, ◌<◌, ◌≡◌, refl, sym, ap, ◌∙◌, subst, true, false, List, [],
  ◌∷◌, ◌++◌, append-nil, length, arith, inl, inr, ◌⊎◌,
}
use dg_cat.Wire.{Endian, prefix_len}
use dg_cat.Wire.Splits.{encode}
use dg_cat.Stats.{DgBufferStats}
use dg_cat.Queue.{new_queue}
use dg_cat.Queue.Window.{wrap, contents, IsValid, new_queue-IsValid}
use dg_cat.Queue.Commit.{Mmsghdr}
use dg_cat.Queue.Commit.Append.{IsMessage}
use dg_cat.Queue.Commit.Fitting.{IsFitting}
use dg_cat.Queue.Commit.Whole.{delivered}
use dg_cat.Copier.{ended}
use dg_cat.Copier.Invariant.{pending}
use dg_cat.Copier.Delivery.{producer_ended}
use dg_cat.Copier.Lossless.{Complete}
use dg_cat.UdpDestination.Runs.{IsStraight}
use dg_cat.UdpCopier.{finished, System, Reach, here, next, initial}
use dg_cat.UdpCopier.Invariant.{due, SenderOk, Inv}
use dg_cat.UdpCopier.Steps.{Step-Inv}

pub initial-Inv :
    (cap : ℕ) (shared : DgBufferStats) (batches : List (List Mmsghdr))
    → prefix_len ≤ cap
    → cap < 2 ^ 63
    → All IsMessage (concat batches)
    → IsStraight cap 0 (delivered (concat batches))
    → Inv cap (concat batches) (initial cap shared batches)
unfolding new_queue
initial-Inv cap shared batches room small messages straight =
    let v = new_queue-IsValid cap shared (omega arith) small in
    record {
      valid = v.0;
      messages = messages;
      producer_ok = refl;
      capacity = refl;
      asked = refl;
      frames = [];
      held = v.1;
      small = tt;
      straight = straight;
      sender_ok = tt;
      accounts = refl;
      complete = λ fits. inr fits;
    }

pub Reach-Inv :
    (e : Endian) (cap : ℕ) (all : List Mmsghdr) {s t : System}
    → Inv cap all s
    → Reach e s t
    → Inv cap all t
Reach-Inv e cap all i here = i
Reach-Inv e cap all i (next {t = t} r st) = Step-Inv e cap all t (Reach-Inv e cap all i r) st

-- Where a copy to a UDP socket stands, in whatever order the threads have run: the ring is valid, it
-- holds whole frames, and the datagrams given to `sendmsg` without a failure, those of the frames that
-- are still to be sent and those of the messages still to come are the datagrams of all messages, in
-- order.
-- Here the capacity holds a prefix and is below 2^63 bytes, each message has its bytes and a length
-- of 32 bits, and no prefix of a datagram runs round the end of the ring.
pub Reach-sent :
    (e : Endian) (max_backlog : ℕ) (shared : DgBufferStats) (batches : List (List Mmsghdr))
    {t : System}
    → prefix_len ≤ max_backlog
    → max_backlog < 2 ^ 63
    → All IsMessage (concat batches)
    → IsStraight max_backlog 0 (delivered (concat batches))
    → Reach e (initial max_backlog shared batches) t
    → IsValid t.queue
      × ((ps : List (List ℕ)) × (contents t.queue ≡ encode ps)
          × (t.given ++ (due t.sender ps ++ delivered (pending t.producer))
              ≡ delivered (concat batches)))
Reach-sent e cap shared batches room small messages straight r =
    let i =
      Reach-Inv e cap (concat batches) (initial-Inv cap shared batches room small messages straight)
        r in
    (i.valid, (i.frames, i.held, i.accounts))

-- When the destination's loop has ended, the source's thread has too, and the datagrams sent are the
-- datagrams of all messages, in order, but for the last ones that an exception or `force_eof` left
-- out.
-- Here the capacity holds a prefix and is below 2^63 bytes, each message has its bytes and a length
-- of 32 bits, and no prefix of a datagram runs round the end of the ring.
pub finished-sent :
    (e : Endian) (max_backlog : ℕ) (shared : DgBufferStats) (batches : List (List Mmsghdr))
    {t : System}
    → prefix_len ≤ max_backlog
    → max_backlog < 2 ^ 63
    → All IsMessage (concat batches)
    → IsStraight max_backlog 0 (delivered (concat batches))
    → Reach e (initial max_backlog shared batches) t
    → t.sender ≡ finished
    → (lost : List Mmsghdr) × (t.producer ≡ ended lost)
      × (t.given ++ delivered lost ≡ delivered (concat batches))
finished-sent e cap shared batches {t} room small messages straight r at_ =
    let i =
      Reach-Inv e cap (concat batches) (initial-Inv cap shared batches room small messages straight)
        r in
    let (eof, empty) = subst (SenderOk i.frames t.queue) at_ i.sender_ok in
    let (lost, over) = producer_ended t.queue t.producer i.producer_ok eof in
    let gone : due t.sender i.frames ≡ [] = ap (λ c. due c i.frames) at_ ∙ empty in
    (
      lost,
      over,
      ap (λ p. t.given ++ delivered (pending p)) (sym over)
          ∙ ap (λ x. t.given ++ (x ++ delivered (pending t.producer))) (sym gone)
          ∙ i.accounts,
    )

-- Where every message that is kept fits into the queue and nobody ends the source by force, a
-- destination whose loop has ended has sent exactly the datagrams of all messages, each once and
-- whole, in order.
-- Here the capacity holds a prefix and is below 2^63 bytes, each message has its bytes and a length
-- of 32 bits, and no prefix of a datagram runs round the end of the ring.
pub finished-sent_all :
    (e : Endian) (max_backlog : ℕ) (shared : DgBufferStats) (batches : List (List Mmsghdr))
    {t : System}
    → prefix_len ≤ max_backlog
    → max_backlog < 2 ^ 63
    → All IsMessage (concat batches)
    → IsStraight max_backlog 0 (delivered (concat batches))
    → All (IsFitting max_backlog) (concat batches)
    → Reach e (initial max_backlog shared batches) t
    → t.sender ≡ finished
    → t.forced ≡ false
    → (t.producer ≡ ended []) × (t.given ≡ delivered (concat batches))
finished-sent_all e cap shared batches {t} room small messages straight fits r at_ free_ =
    let i =
      Reach-Inv e cap (concat batches) (initial-Inv cap shared batches room small messages straight)
        r in
    let (lost, over, bytes) =
      finished-sent e cap shared batches room small messages straight r at_ in
    let none_ : lost ≡ [] = nothing lost over (i.complete fits) in
    (
      over ∙ ap ended none_,
      sym (append-nil t.given) ∙ ap (λ x. t.given ++ delivered x) (sym none_) ∙ bytes,
    )
  where
    nothing :
        (lost : List Mmsghdr)
        → t.producer ≡ ended lost
        → (t.forced ≡ true) ⊎ Complete cap t.producer
        → lost ≡ []
    nothing lost over (inl forced) = absurd (cc (forced, free_))
    nothing lost over (inr complete) = subst (Complete cap) over complete

-- Where the capacity and the lengths of the datagrams are multiples of four, and every datagram fits
-- into the queue with its prefix, no prefix runs round the end of the ring.
pub aligned-IsStraight :
    (cap : ℕ) (ps : List (List ℕ)) (index : ℕ)
    → cap % 4 ≡ 0
    → index % 4 ≡ 0
    → index < cap
    → All (λ p. (length p % 4 ≡ 0) × (length p + prefix_len ≤ cap)) ps
    → IsStraight cap index ps
aligned-IsStraight cap [] index whole at_ inside h = tt
aligned-IsStraight cap (p ∷ ps) index whole at_ inside h =
    let next_index = wrap cap (index + (length p + prefix_len)) in
    let aligned : next_index % 4 ≡ 0 = ground (arith, h.0) in
    let below : next_index < cap = ground (arith, h.0) in
    (omega arith, aligned-IsStraight cap ps next_index whole aligned below h.1)
