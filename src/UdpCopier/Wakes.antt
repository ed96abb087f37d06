-- ===== src/UdpCopier/Wakes.antt =====
-- A copy to a UDP socket comes to its end, with threads that wait until they are notified.
use dg_cat.Common.{
  All-split, ◌∷◌, concat, All, ℕ, zero, suc, ◌^◌, ◌≤◌, ◌<◌, ◌≡◌, ◌≢◌, ◌∙◌, refl, sym, ap, subst,
  true, List, arith, inl, inr, ◌⊎◌,
}
use dg_cat.Wire.{Endian, prefix_len}
use dg_cat.Stats.{DgBufferStats}
use dg_cat.Queue.Waits.{Handed, consumer_start_batch_lem}
use dg_cat.Queue.Commit.{Mmsghdr, commit_wake}
use dg_cat.Queue.Commit.Append.{IsMessage}
use dg_cat.Copier.{ended}
use dg_cat.UdpCopier.{finished, broken, System, settle, Step, initial}
use dg_cat.Copier.Waits.{IsClosing, BlockedOk, roused}
use dg_cat.UdpCopier.Notified.{
  Watched, may, Moves, moves, sleeps, Runs, still, onward, watched, Alert, Moves-Alert,
}
use dg_cat.UdpCopier.Invariant.{Inv}
use dg_cat.UdpCopier.Steps.{Step-Inv}
use dg_cat.Queue.Commit.Progress.{commit_wake-waits}
use dg_cat.Queue.Commit.Whole.{delivered}
use dg_cat.UdpDestination.{size_max}
use dg_cat.UdpDestination.Runs.{IsStraight}
use dg_cat.Copier.Invariant.{pending}
use dg_cat.UdpCopier.Delivery.{initial-Inv}
use dg_cat.UdpCopier.Progress.{work_left, close-less}
use dg_cat.UdpCopier.Ends.{sender-goes}

module _ (e : Endian) (cap : ℕ) (all : List Mmsghdr) (w : Watched) (i : Inv cap all w.system)
    (a : Alert w) (room : prefix_len ≤ cap) where
  -- A step that brings the work left down needs no notification that has not come, unless the source
  -- is about to close the queue.
  allowed :
      {t : System} (st : Step e w.system t)
      → work_left t < work_left w.system
      → (may e w st ≡ true) ⊎ IsClosing w.system.producer
  allowed (Step.wake m ms rest at_) less =
      elim (subst (BlockedOk w.seen w.system.queue) at_ a.blocked_ok) [
        | inl full ↦
            let small =
              (All-split IsMessage (m ∷ ms) (concat rest)
                (subst (All IsMessage) (ap pending at_) i.messages)).0.0 in
            let same : settle w.system (commit_wake e w.system.queue m ms) rest ≡ w.system =
              ap (λ r. settle w.system r rest)
                (commit_wake-waits e w.system.queue m ms i.valid small full)
              ∙ (λ j. record w.system { producer = sym at_ j }) in
            absurd (omega (arith, less, ap work_left same))
        | inr told ↦ inl (ground (arith, told))
      ]
  allowed (Step.start b at_ ran) less =
      let handed =
        subst (Handed w.system.queue w.system.n_min size_max) ran
          (consumer_start_batch_lem w.system.queue w.system.n_min size_max i.valid) in
      roused prefix_len w.system.queue w.system.producer _ w.asleep a.asleep_ok
        (elim handed.3 [ inl eof ↦ inl eof | inr enough ↦ inr (omega (arith, i.asked)) ])
  allowed (Step.refuse x at_ ran) less =
      let too_many =
        subst (Handed w.system.queue w.system.n_min size_max) ran
          (consumer_start_batch_lem w.system.queue w.system.n_min size_max i.valid) in
      absurd (omega (arith, i.asked, i.capacity, room, too_many))
  allowed (Step.call ms rest at_) less = inl refl
  allowed (Step.force rest at_) less = inl refl
  allowed (Step.leave at_) less = inl refl
  allowed (Step.close lost at_) less = inl refl
  allowed (Step.finish b at_ ran) less = inl refl
  allowed (Step.ask b k at_ ran) less = inl refl
  allowed (Step.reject b at_ ran) less = inl refl
  allowed (Step.send b bs k at_ ran) less = inl refl
  allowed (Step.send_refused b bs k at_ ran) less = inl refl
  allowed (Step.send_error b bs k at_ ran) less = inl refl
  allowed (Step.free k q at_ ran) less = inl refl

  abbrev Goes : Type 0
  Goes =
      (v : Watched) × Moves e w v
      × (work_left v.system < work_left w.system)
      × (v.system.sender ≢ broken)

  abbrev IsDone : Type 0
  IsDone = ((lost : List Mmsghdr) × (w.system.producer ≡ ended lost)) × (w.system.sender ≡ finished)

  goes : w.system.sender ≢ broken → IsDone ⊎ Goes
  goes fine = elim (sender-goes e cap all w.system i room fine w.system.sender refl) [
    | inl over ↦ inl over
    | inr (t, st, less, fine') ↦ elim (allowed st less) [
      | inl ok ↦ inr (_, moves st ok, less, fine')
      | inr (lost, at_) ↦
          inr (_, moves (Step.close lost at_) refl, close-less e cap all w.system i lost at_, fine)
    ]
  ]

module _ (e : Endian) where
  Moves-Inv :
      {cap : ℕ} {all : List Mmsghdr} {w v : Watched}
      → Inv cap all w.system
      → Moves e w v
      → Inv cap all v.system
  Moves-Inv i (moves st ok) = Step-Inv e _ _ _ i st
  Moves-Inv i (sleeps at_ up ran) = i

  Runs-before : {w v u : Watched} → Moves e w v → Runs e v u → Runs e w u
  Runs-before st still = onward still st
  Runs-before st (onward r st') = onward (Runs-before st r) st'

  drive :
      (n cap : ℕ) (all : List Mmsghdr) (w : Watched)
      → prefix_len ≤ cap
      → Inv cap all w.system
      → Alert w
      → w.system.sender ≢ broken
      → work_left w.system < n
      → (v : Watched) × Runs e w v
        × ((lost : List Mmsghdr) × (v.system.producer ≡ ended lost))
        × (v.system.sender ≡ finished)
  drive zero cap all w room i a fine few = absurd (omega arith)
  drive (suc n) cap all w room i a fine few = elim (goes e cap all w i a room fine) [
    | inl (over, done_) ↦ (w, still, over, done_)
    | inr (v, st, less, fine') ↦
        let (u, r, over, done_) =
          drive n cap all v room (Moves-Inv i st) (Moves-Alert e cap all w i a st) fine'
            (omega arith) in
        (u, Runs-before st r, over, done_)
  ]

  Runs-both :
      (cap : ℕ) (all : List Mmsghdr) {w v : Watched}
      → Inv cap all w.system
      → Alert w
      → Runs e w v
      → Inv cap all v.system × Alert v
  Runs-both cap all i a still = (i, a)
  Runs-both cap all i a (onward {v = v} r st) =
      let (j, b) = Runs-both cap all i a r in (Moves-Inv j st, Moves-Alert e cap all v j b st)

-- No wakeup is lost: in a copy to a UDP socket whose waiting threads go on only behind a `notify_all`
-- that comes after they began to wait, from every state that can be reached in which the destination
-- has not failed, the threads can go on, with no other wakeups, to the end of both, the destination's
-- by its own loop.
-- Here the capacity holds a prefix and is below 2^63 bytes, each message has its bytes and a length
-- of 32 bits, and no prefix of a datagram runs round the end of the ring.
pub Runs-sends :
    (e : Endian) (max_backlog : ℕ) (shared : DgBufferStats) (batches : List (List Mmsghdr))
    {w : Watched}
    → prefix_len ≤ max_backlog
    → max_backlog < 2 ^ 63
    → All IsMessage (concat batches)
    → IsStraight max_backlog 0 (delivered (concat batches))
    → Runs e (watched (initial max_backlog shared batches)) w
    → w.system.sender ≢ broken
    → (v : Watched) × Runs e w v
      × ((lost : List Mmsghdr) × (v.system.producer ≡ ended lost))
      × (v.system.sender ≡ finished)
Runs-sends e cap shared batches {w} room small messages straight r fine =
    let start : Alert (watched (initial cap shared batches)) = record {
      past = omega arith;
      blocked_ok = tt;
      asleep_ok = tt;
    } in
    let (i, a) =
      Runs-both e cap (concat batches) (initial-Inv cap shared batches room small messages straight)
        start r in
    drive e (suc (work_left w.system)) cap (concat batches) w room i a fine (omega arith)
