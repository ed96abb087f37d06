-- ===== src/Threads/Throws.antt =====
-- `wait` throws the first exception of the endpoints.
use dg_cat.Common.{
  ℕ, ◌+◌, ◌≡◌, refl, ap, subst, Bool, true, false, Option, some, leb, if◌then◌else◌, if_cases,
  arith, ◌||◌, ◌&&◌, not,
}
use dg_cat.Threads.{
  Worker, running, behind, over, Waiter, joining_source, joining_destination, killing, locking,
  timing, joining_signal, rethrowing, returned, Threads, recorded, started, is_joinable, Step,
  Reach, here, next,
}
use dg_cat.Threads.Joining.{
  is_over, is_past_source, is_past_destination, is_good, started-good, Reach-good,
}

is_over_lem : (w : Worker) → is_over w ≡ true → w ≡ over
is_over_lem running h = absurd (ground arith)
is_over_lem behind h = absurd (ground arith)
is_over_lem over h = refl

-- what `wait` throws is the exception that is recorded
abbrev pub IsThrown : Option ℕ → Waiter → Type 0
IsThrown exception (returned x) = x ≡ exception
IsThrown exception _ = Unit

-- Before both endpoints are over, `wait` has not returned.
IsThrown-early :
    (w : Waiter) (x : Option ℕ) (source destination : Worker)
    → ((not (is_past_source w) || is_over source)
        && (not (is_past_destination w) || is_over destination))
      ≡ true
    → (is_over source && is_over destination) ≡ false
    → IsThrown x w
IsThrown-early joining_source x source destination i h = tt
IsThrown-early joining_destination x source destination i h = tt
IsThrown-early killing x source destination i h = tt
IsThrown-early locking x source destination i h = tt
IsThrown-early timing x source destination i h = tt
IsThrown-early joining_signal x source destination i h = tt
IsThrown-early rethrowing x source destination i h = tt
IsThrown-early (returned y) x source destination i h = absurd (ground (arith, i, h))

IsThrown-if :
    (x : Option ℕ) (b : Bool) (v w : Waiter)
    → IsThrown x v
    → IsThrown x w
    → IsThrown x (if b then v else w)
IsThrown-if x b v w h k = if_cases (IsThrown x) b v w (λ _. h) (λ _. k)

Step-IsThrown :
    {s t : Threads}
    → is_good s ≡ true
    → IsThrown s.exception s.waiter
    → Step s t
    → IsThrown t.exception t.waiter
Step-IsThrown {s} i r (Step.source_returns at_) = r
Step-IsThrown {s} i r (Step.source_throws x at_) =
    IsThrown-early s.waiter (recorded s.exception x) s.source s.destination (ground (arith, i))
      (ground (arith, at_))
Step-IsThrown {s} i r (Step.source_closes at_) = r
Step-IsThrown {s} i r (Step.destination_returns at_) = r
Step-IsThrown {s} i r (Step.destination_throws x at_) =
    IsThrown-early s.waiter (recorded s.exception x) s.source s.destination (ground (arith, i))
      (ground (arith, at_))
Step-IsThrown {s} i r (Step.destination_forces at_) = r
Step-IsThrown {s} i r Step.raise_sigint = r
Step-IsThrown {s} i r Step.raise_sigusr1 = r
Step-IsThrown {s} i r (Step.enter at_) = r
Step-IsThrown {s} i r (Step.test at_) = r
Step-IsThrown {s} i r (Step.take_sigint at_ p) = r
Step-IsThrown {s} i r (Step.take_sigusr1 at_ p) = r
Step-IsThrown {s} i r (Step.retest sig at_) = r
Step-IsThrown {s} i r (Step.handle_sigint at_) =
    if_cases (λ (t : Threads). IsThrown t.exception t.waiter) (leb 2 (s.n_sigint + 1)) _ _ (λ h. r)
      (λ h. r)
Step-IsThrown {s} i r (Step.handle_sigusr1 at_) = r
Step-IsThrown {s} i r (Step.leave at_) = r
Step-IsThrown {s} i r (Step.notify at_) = r
Step-IsThrown {s} i r (Step.join_source at_ end_) = tt
Step-IsThrown {s} i r (Step.join_destination at_ end_) =
    IsThrown-if s.exception (is_joinable s.signal_thread) killing rethrowing tt tt
Step-IsThrown {s} i r (Step.kill at_) = tt
Step-IsThrown {s} i r (Step.look at_) =
    IsThrown-if s.exception s.signal_thread_waiting timing joining_signal tt tt
Step-IsThrown {s} i r (Step.wake at_) =
    IsThrown-if s.exception s.signal_thread_waiting killing joining_signal tt tt
Step-IsThrown {s} i r (Step.join_signal at_ end_) = tt
Step-IsThrown {s} i r (Step.rethrow at_) = refl

Reach-IsThrown :
    (handle_signals : Bool) {t : Threads}
    → Reach (started handle_signals) t
    → IsThrown t.exception t.waiter
Reach-IsThrown handle_signals here = tt
Reach-IsThrown handle_signals (next r run st) =
    Step-IsThrown (Reach-good (started-good handle_signals) r) (Reach-IsThrown handle_signals r) st

-- Where `wait` has returned, both endpoints' threads are over, and what it throws is the exception
-- that is recorded, if there is one.
pub Reach-throws :
    (handle_signals : Bool) {t : Threads} (x : Option ℕ)
    → Reach (started handle_signals) t
    → t.waiter ≡ returned x
    → (x ≡ t.exception) × (t.source ≡ over) × (t.destination ≡ over)
Reach-throws handle_signals {t} x r at_ =
    let i = Reach-good (started-good handle_signals) r in
    (
      subst (IsThrown t.exception) at_ (Reach-IsThrown handle_signals r),
      is_over_lem t.source (ground (arith, i, at_)),
      is_over_lem t.destination (ground (arith, i, at_)),
    )

-- The first exception that an endpoint's thread records stays.
pub Reach-exception :
    {s t : Threads} (x : ℕ) → s.exception ≡ some x → Reach s t → t.exception ≡ some x
Reach-exception x first here = first
Reach-exception {s} x first (next r run st) = go (Reach-exception x first r) st
  where
    go : {u v : Threads} → u.exception ≡ some x → Step u v → v.exception ≡ some x
    go {u} h (Step.source_returns at_) = h
    go {u} h (Step.source_throws y at_) = ap (λ o. recorded o y) h
    go {u} h (Step.source_closes at_) = h
    go {u} h (Step.destination_returns at_) = h
    go {u} h (Step.destination_throws y at_) = ap (λ o. recorded o y) h
    go {u} h (Step.destination_forces at_) = h
    go {u} h Step.raise_sigint = h
    go {u} h Step.raise_sigusr1 = h
    go {u} h (Step.enter at_) = h
    go {u} h (Step.test at_) = h
    go {u} h (Step.take_sigint at_ p) = h
    go {u} h (Step.take_sigusr1 at_ p) = h
    go {u} h (Step.retest sig at_) = h
    go {u} h (Step.handle_sigint at_) =
        if_cases (λ (t : Threads). t.exception ≡ some x) (leb 2 (u.n_sigint + 1)) _ _ (λ _. h)
          (λ _. h)
    go {u} h (Step.handle_sigusr1 at_) = h
    go {u} h (Step.leave at_) = h
    go {u} h (Step.notify at_) = h
    go {u} h (Step.join_source at_ end_) = h
    go {u} h (Step.join_destination at_ end_) = h
    go {u} h (Step.kill at_) = h
    go {u} h (Step.look at_) = h
    go {u} h (Step.wake at_) = h
    go {u} h (Step.join_signal at_ end_) = h
    go {u} h (Step.rethrow at_) = h
