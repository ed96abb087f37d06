-- ===== src/Copier/Notified.antt =====
-- A copy to a file with the waits of its threads: `_cv.wait` in `producer_commit_batch` and
-- `consumer_start_batch` of include/dg_cat/buffer_queue.hpp. A thread that waits goes on only behind a
-- `notify_all` that comes after it began to wait; nothing wakes it without a reason.
use dg_cat.Common.{
  concat, All, ℕ, ◌≤◌, ◌<◌, ◌≡◌, refl, ap, subst, Bool, true, List, ◌∷◌, Option, none, some, arith,
  ltb, inl, ◌≢◌, All-split,
}
use dg_cat.Wire.{Endian}
use dg_cat.Queue.{BufferQueue, waits, producer_set_eof, consumer_start_batch}
use dg_cat.Queue.Take.{consumer_commit_batch_lem}
use dg_cat.Queue.Waits.{Handed, consumer_start_batch_lem}
use dg_cat.Queue.Commit.{Mmsghdr, CommitResult, producer_commit_batch, commit_wake}
use dg_cat.Queue.Commit.Append.{
  IsMessage, Appends, result_queue, producer_commit_batch_lem, commit_wake_lem,
}
use dg_cat.Queue.Commit.Progress.{Blocked, producer_commit_batch-Blocked, commit_wake-Blocked}
use dg_cat.Queue.Commit.Notices.{Tells, producer_commit_batch-Tells, commit_wake-Tells}
use dg_cat.Copier.{
  Producer, calling, blocked, closing, ended, Consumer, starting, System, producer_next, Step,
}
use dg_cat.Copier.Waits.{
  awake, IsClosing, BlockedOk, AsleepOk, next-BlockedOk, next-AsleepOk, moved-AsleepOk,
  kept-AsleepOk, told-AsleepOk, told-BlockedOk,
}
use dg_cat.Copier.Invariant.{pending, ConsumerOk, ProducerOk, Inv}

-- `seen` is how often the queue had notified when the source's thread came to wait, if it waits;
-- `asleep` the same for the destination's thread, `none` if it does not wait.
pub record Watched : Type 0 where
  pub system : System
  pub seen : ℕ
  pub asleep : Option ℕ

module _ (e : Endian) (max_write_size : ℕ) where
  -- A step that begins with the end of a wait needs a notification.
  abbrev pub may : (w : Watched) {t : System} → Step e max_write_size w.system t → Bool
  may w (Step.wake m ms rest at_) = ltb w.seen w.system.queue.notified
  may w (Step.start b at_ ran) = awake w.asleep w.system.queue.notified
  may w (Step.refuse x at_ ran) = awake w.asleep w.system.queue.notified
  may w _ = true

  -- How often the queue has notified when a call of the source ends or comes to wait.
  abbrev pub seen_behind : (w : Watched) {t : System} → Step e max_write_size w.system t → ℕ
  seen_behind w (Step.call ms rest at_) =
      (result_queue (producer_commit_batch e w.system.queue ms)).notified
  seen_behind w (Step.wake m ms rest at_) =
      (result_queue (commit_wake e w.system.queue m ms)).notified
  seen_behind w _ = w.seen

  -- `consumer_start_batch` returns or throws, which ends the wait.
  abbrev pub asleep_behind :
      (w : Watched) {t : System} → Step e max_write_size w.system t → Option ℕ
  asleep_behind w (Step.start b at_ ran) = none
  asleep_behind w (Step.refuse x at_ ran) = none
  asleep_behind w _ = w.asleep

  pub data Moves (w : Watched) : Watched → Type 0 where
    moves :
        {t : System} (st : Step e max_write_size w.system t)
        → may w st ≡ true
        → Moves w (record { system = t; seen = seen_behind w st; asleep = asleep_behind w st })
    -- `consumer_start_batch` comes to wait, or finds that it has to wait on
    sleeps :
        w.system.consumer ≡ starting
        → awake w.asleep w.system.queue.notified ≡ true
        → consumer_start_batch w.system.queue 1 max_write_size ≡ waits
        → Moves w (record w { asleep = some w.system.queue.notified })

  -- The states that can follow one after the other.
  pub data Runs (w : Watched) : Watched → Type 0 where
    still : Runs w w
    onward : {v u : Watched} → Runs w v → Moves v u → Runs w u

-- before the threads start
abbrev pub watched : System → Watched
watched s = record { system = s; seen = 0; asleep = none }

-- A thread that waits has reason to, or has been notified, or is about to be by the end of the source.
pub record Alert (w : Watched) : Type 0 where
  pub past : w.seen ≤ w.system.queue.notified
  pub blocked_ok : BlockedOk w.seen w.system.queue w.system.producer
  pub asleep_ok :
      AsleepOk 1 w.system.queue w.system.producer (w.system.consumer ≡ starting) w.asleep

module _ (e : Endian) (max_write_size : ℕ) {all : List Mmsghdr} (w : Watched) (i : Inv all w.system)
    (a : Alert w) where
  commit-Alert :
      (ms : List Mmsghdr) (rest : List (List Mmsghdr)) (r : CommitResult)
      → Appends w.system.queue ms r
      → Blocked r
      → Tells w.system.queue.n w.system.queue.notified r
      → ¬ IsClosing w.system.producer
      → Alert (record {
        system = dg_cat.Copier.settle w.system r rest;
        seen = (result_queue r).notified;
        asleep = w.asleep;
      })
  commit-Alert ms rest r app full tells open_ = record {
    past = omega arith;
    blocked_ok = next-BlockedOk r rest full;
    asleep_ok =
        next-AsleepOk 1 w.system.queue w.system.producer (w.system.consumer ≡ starting) w.asleep r
          rest a.asleep_ok open_ app.eof tells;
  }

  call-Alert :
      (ms : List Mmsghdr) (rest : List (List Mmsghdr))
      (at_ : w.system.producer ≡ calling (ms ∷ rest))
      → let st : Step e max_write_size w.system _ = Step.call ms rest at_ in
        Alert (record {
          system = dg_cat.Copier.settle w.system (producer_commit_batch e w.system.queue ms) rest;
          seen = seen_behind e max_write_size w st;
          asleep = w.asleep;
        })
  call-Alert ms rest at_ =
      let q = w.system.queue in
      let mine =
        (All-split IsMessage ms (concat rest)
          (subst (All IsMessage) (ap pending at_) i.messages)).0 in
      commit-Alert ms rest (producer_commit_batch e q ms)
        (producer_commit_batch_lem e q ms i.valid mine)
        (producer_commit_batch-Blocked e q ms i.valid mine) (producer_commit_batch-Tells e q ms)
        (λ (lost, h). cc)

  wake-Alert :
      (m : Mmsghdr) (ms : List Mmsghdr) (rest : List (List Mmsghdr))
      → w.system.producer ≡ blocked m ms rest
      → Alert (record {
        system = dg_cat.Copier.settle w.system (commit_wake e w.system.queue m ms) rest;
        seen = (result_queue (commit_wake e w.system.queue m ms)).notified;
        asleep = w.asleep;
      })
  wake-Alert m ms rest at_ =
      let q = w.system.queue in
      let (open_, stored, small) = subst (ProducerOk q) at_ i.producer_ok in
      let mine =
        (All-split IsMessage (m ∷ ms) (concat rest)
          (subst (All IsMessage) (ap pending at_) i.messages)).0 in
      commit-Alert (m ∷ ms) rest (commit_wake e q m ms)
        (commit_wake_lem e q m ms i.valid mine stored)
        (commit_wake-Blocked e q m ms i.valid mine stored small) (commit_wake-Tells e q m ms)
        (λ (lost, h). cc)

  -- A step of the destination's thread other than `consumer_commit_batch`.
  moved-Alert :
      (s : System)
      → w.system.consumer ≢ starting
      → s.queue ≡ w.system.queue
      → s.producer ≡ w.system.producer
      → Alert (record { system = s; seen = w.seen; asleep = w.asleep })
  moved-Alert s other same_queue same_producer =
      let q = w.system.queue in
      let p = w.system.producer in
      record {
        past = rw same_queue a.past;
        blocked_ok = rw (same_queue, same_producer) a.blocked_ok;
        asleep_ok =
            moved-AsleepOk 1 q s.queue p s.producer (w.system.consumer ≡ starting)
              (s.consumer ≡ starting) w.asleep a.asleep_ok other;
      }

  free-Alert :
      (k : ℕ) (q : BufferQueue)
      → w.system.consumer ≡ dg_cat.Copier.freeing k
      → dg_cat.Queue.consumer_commit_batch w.system.queue k ≡ dg_cat.Queue.ok q
      → Alert (record {
        system = record w.system { queue = q; consumer = starting };
        seen = w.seen;
        asleep = w.asleep;
      })
  free-Alert k q at_ ran =
      let (some_, held) = subst (ConsumerOk w.system.queue) at_ i.consumer_ok in
      let r = consumer_commit_batch_lem w.system.queue k i.valid held some_ in
      let same : q ≡ r.0 = cc (ran, r.1) in
      let more : w.system.queue.notified < q.notified =
        omega (arith, ap (λ (x : BufferQueue). x.notified) same, r.7) in
      record {
        past = omega (arith, a.past, more);
        blocked_ok =
            told-BlockedOk w.seen w.system.queue q w.system.producer (omega (arith, a.past, more));
        asleep_ok =
            moved-AsleepOk 1 w.system.queue q w.system.producer w.system.producer
              (w.system.consumer ≡ starting) (starting ≡ starting) w.asleep a.asleep_ok (λ h. cc);
      }

  -- Behind every step the threads that wait have reason to, or have been notified.
  pub Moves-Alert : {v : Watched} → Moves e max_write_size w v → Alert v
  unfolding producer_set_eof
  Moves-Alert (moves (Step.call ms rest at_) ok) = call-Alert ms rest at_
  Moves-Alert (moves (Step.wake m ms rest at_) ok) = wake-Alert m ms rest at_
  Moves-Alert (moves (Step.force rest at_) ok) = record {
    past = a.past;
    blocked_ok = tt;
    asleep_ok =
        kept-AsleepOk 1 w.system.queue w.system.producer (closing _) (w.system.consumer ≡ starting)
          w.asleep a.asleep_ok (λ (lost, h). cc);
  }
  Moves-Alert (moves (Step.leave at_) ok) = record {
    past = a.past;
    blocked_ok = tt;
    asleep_ok =
        kept-AsleepOk 1 w.system.queue w.system.producer (closing _) (w.system.consumer ≡ starting)
          w.asleep a.asleep_ok (λ (lost, h). cc);
  }
  Moves-Alert (moves (Step.close lost at_) ok) = record {
    past = omega (arith, a.past);
    blocked_ok = tt;
    asleep_ok =
        told-AsleepOk 1 w.system.queue (producer_set_eof w.system.queue) w.system.producer
          (ended lost) (w.system.consumer ≡ starting) w.asleep a.asleep_ok (omega arith);
  }
  Moves-Alert (moves (Step.start b at_ ran) ok) = record {
    past = a.past;
    blocked_ok = a.blocked_ok;
    asleep_ok = tt;
  }
  Moves-Alert (moves (Step.refuse x at_ ran) ok) = record {
    past = a.past;
    blocked_ok = a.blocked_ok;
    asleep_ok = tt;
  }
  Moves-Alert (moves (Step.check at_) ok) = moved-Alert _ (λ h. cc) refl refl
  Moves-Alert (moves (Step.write b k at_ short) ok) = moved-Alert _ (λ h. cc) refl refl
  Moves-Alert (moves (Step.write_error b at_) ok) = moved-Alert _ (λ h. cc) refl refl
  Moves-Alert (moves (Step.free k q at_ ran) ok) = free-Alert k q at_ ran
  Moves-Alert (sleeps at_ up ran) =
      let (open_, none_) =
        subst (Handed w.system.queue 1 max_write_size) ran
          (consumer_start_batch_lem w.system.queue 1 max_write_size i.valid) in
      record {
        past = a.past;
        blocked_ok = a.blocked_ok;
        asleep_ok = (at_, omega arith, inl (open_, none_));
      }
