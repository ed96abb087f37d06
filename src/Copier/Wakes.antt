-- ===== src/Copier/Wakes.antt =====
-- A copy to a file comes to its end, with threads that wait until they are notified.
use dg_cat.Common.{
  concat, All, ℕ, zero, suc, ◌^◌, ◌<◌, ◌≡◌, ◌≢◌, ◌∙◌, refl, sym, ap, subst, true, List, arith, inl,
  inr, ◌⊎◌,
}
use dg_cat.Wire.{Endian}
use dg_cat.Stats.{DgBufferStats}
use dg_cat.Queue.Waits.{Handed, consumer_start_batch_lem}
use dg_cat.Queue.Commit.{Mmsghdr}
use dg_cat.Queue.Commit.Append.{IsMessage}
use dg_cat.Copier.{ended, finished, broken, System, Step}
use dg_cat.Copier.Waits.{IsClosing, BlockedOk, roused}
use dg_cat.Copier.Notified.{
  Watched, may, Moves, moves, sleeps, Runs, still, onward, watched, Alert, Moves-Alert,
}
use dg_cat.Copier.Invariant.{Inv}
use dg_cat.Copier.Steps.{Step-Inv}
use dg_cat.Copier.Stuck.{settle-waits}
use dg_cat.Copier.Delivery.{initial, initial-Inv}
use dg_cat.Copier.Progress.{work_left, wake-small, close-less}
use dg_cat.Copier.Ends.{Inv-goes}

module _ (e : Endian) (max_write_size : ℕ) {all : List Mmsghdr} (w : Watched) (i : Inv all w.system)
    (a : Alert w) where
  -- A step that brings the work left down needs no notification that has not come, unless the source
  -- is about to close the queue.
  allowed :
      {t : System} (st : Step e max_write_size w.system t)
      → work_left t < work_left w.system
      → (may e max_write_size w st ≡ true) ⊎ IsClosing w.system.producer
  allowed (Step.wake m ms rest at_) less =
      elim (subst (BlockedOk w.seen w.system.queue) at_ a.blocked_ok) [
        | inl full ↦
            let same =
              settle-waits e max_write_size w.system m ms rest at_ i.valid
                (wake-small e max_write_size i m ms rest at_) full in
            absurd (omega (arith, less, ap work_left same))
        | inr told ↦ inl (ground (arith, told))
      ]
  allowed (Step.start b at_ ran) less =
      let handed =
        subst (Handed w.system.queue 1 max_write_size) ran
          (consumer_start_batch_lem w.system.queue 1 max_write_size i.valid) in
      roused 1 w.system.queue w.system.producer _ w.asleep a.asleep_ok handed.3
  allowed (Step.refuse x at_ ran) less =
      let too_many =
        subst (Handed w.system.queue 1 max_write_size) ran
          (consumer_start_batch_lem w.system.queue 1 max_write_size i.valid) in
      absurd (omega (arith, i.valid, too_many))
  allowed (Step.call ms rest at_) less = inl refl
  allowed (Step.force rest at_) less = inl refl
  allowed (Step.leave at_) less = inl refl
  allowed (Step.close lost at_) less = inl refl
  allowed (Step.check at_) less = inl refl
  allowed (Step.write b k at_ short) less = inl refl
  allowed (Step.write_error b at_) less = inl refl
  allowed (Step.free k q at_ ran) less = inl refl

  abbrev Goes : Type 0
  Goes =
      (v : Watched) × Moves e max_write_size w v
      × (work_left v.system < work_left w.system)
      × (v.system.consumer ≢ broken)

  abbrev IsDone : Type 0
  IsDone =
      ((lost : List Mmsghdr) × (w.system.producer ≡ ended lost)) × (w.system.consumer ≡ finished)

  goes : w.system.consumer ≢ broken → IsDone ⊎ Goes
  goes fine = elim (Inv-goes e max_write_size i) [
    | inl (over, inl at_) ↦ inl (over, at_)
    | inl (over, inr gone) ↦ absurd (fine gone)
    | inr (inl hangs) ↦ absurd (fine hangs.gone)
    | inr (inr (t, st, less, safe)) ↦ elim (allowed st less) [
      | inl ok ↦
          inr (
            _,
            moves st ok,
            less,
            elim safe [ inl same ↦ λ h. fine (sym same ∙ h) | inr ok' ↦ ok' ],
          )
      | inr (lost, at_) ↦
          inr (_, moves (Step.close lost at_) refl, close-less e max_write_size i lost at_, fine)
    ]
  ]

module _ (e : Endian) (max_write_size : ℕ) where
  Moves-Inv :
      {all : List Mmsghdr} {w v : Watched}
      → 0 < max_write_size
      → Inv all w.system
      → Moves e max_write_size w v
      → Inv all v.system
  Moves-Inv {all} pos i (moves st ok) = Step-Inv e max_write_size all pos st i
  Moves-Inv pos i (sleeps at_ up ran) = i

  Runs-before :
      {w v u : Watched}
      → Moves e max_write_size w v
      → Runs e max_write_size v u
      → Runs e max_write_size w u
  Runs-before st still = onward still st
  Runs-before st (onward r st') = onward (Runs-before st r) st'

  drive :
      (n : ℕ) (all : List Mmsghdr) (w : Watched)
      → 0 < max_write_size
      → Inv all w.system
      → Alert w
      → w.system.consumer ≢ broken
      → work_left w.system < n
      → (v : Watched) × Runs e max_write_size w v
        × ((lost : List Mmsghdr) × (v.system.producer ≡ ended lost))
        × (v.system.consumer ≡ finished)
  drive zero all w pos i a fine few = absurd (omega arith)
  drive (suc n) all w pos i a fine few = elim (goes e max_write_size w i a fine) [
    | inl (over, done_) ↦ (w, still, over, done_)
    | inr (v, st, less, fine') ↦
        let (u, r, over, done_) =
          drive n all v pos (Moves-Inv pos i st) (Moves-Alert e max_write_size w i a st) fine'
            (omega arith) in
        (u, Runs-before st r, over, done_)
  ]

  Runs-both :
      (all : List Mmsghdr) {w v : Watched}
      → 0 < max_write_size
      → Inv all w.system
      → Alert w
      → Runs e max_write_size w v
      → Inv all v.system × Alert v
  Runs-both all pos i a still = (i, a)
  Runs-both all pos i a (onward {v = v} r st) =
      let (j, b) = Runs-both all pos i a r in
      (Moves-Inv pos j st, Moves-Alert e max_write_size v j b st)

-- No wakeup is lost: in a copy to a file whose waiting threads go on only behind a `notify_all` that
-- comes after they began to wait, with positive sizes and well-formed messages, from every state that
-- can be reached in which the destination has not failed, the threads can go on, with no other
-- wakeups, to the end of both, the destination's by its own loop.
pub Runs-finishes :
    (e : Endian) (max_write_size max_backlog : ℕ) (shared : DgBufferStats)
    (batches : List (List Mmsghdr)) {w : Watched}
    → 0 < max_write_size
    → 0 < max_backlog
    → max_backlog < 2 ^ 63
    → All IsMessage (concat batches)
    → Runs e max_write_size (watched (initial max_backlog shared batches)) w
    → w.system.consumer ≢ broken
    → (v : Watched) × Runs e max_write_size w v
      × ((lost : List Mmsghdr) × (v.system.producer ≡ ended lost))
      × (v.system.consumer ≡ finished)
Runs-finishes e mws cap shared batches {w} pos room small messages r fine =
    let start : Alert (watched (initial cap shared batches)) = record {
      past = omega arith;
      blocked_ok = tt;
      asleep_ok = tt;
    } in
    let (i, a) =
      Runs-both e mws (concat batches) pos (initial-Inv cap shared batches room small messages)
        start r in
    drive e mws (suc (work_left w.system)) (concat batches) w pos i a fine (omega arith)
