-- ===== src/Threads/Joining.antt =====
-- What holds in every state of the threads, and why the `join` of the signal thread does not block.
use dg_cat.Common.{
  ◌+◌, ◌≡◌, refl, Bool, true, false, leb, if◌then◌else◌, if_cases, arith, ◌||◌, ◌&&◌, not,
}
use dg_cat.Threads.{
  Worker, over, SignalThread, testing, blocked, received, handling, leaving, Waiter, joining_source,
  joining_destination, killing, locking, timing, joining_signal, Threads, started, is_joinable,
  Step, Reach, here, next,
}

abbrev pub is_over : Worker → Bool
is_over over = true
is_over _ = false

-- between the two writes of `_signal_thread_waiting`
abbrev pub in_loop : SignalThread → Bool
in_loop testing = true
in_loop blocked = true
in_loop (received sig) = true
in_loop (handling sig) = true
in_loop leaving = true
in_loop _ = false

abbrev pub is_blocked : SignalThread → Bool
is_blocked blocked = true
is_blocked _ = false

-- with a signal, or waiting for one
abbrev pub is_held : SignalThread → Bool
is_held blocked = true
is_held (received sig) = true
is_held (handling sig) = true
is_held _ = false

-- behind the `join` of the source's thread, of the destination's, behind `pthread_kill`, in the `join` of the signal
-- thread, and in the part of `wait` that is about the signal thread
abbrev pub is_past_source : Waiter → Bool
is_past_source joining_source = false
is_past_source _ = true

abbrev pub is_past_destination : Waiter → Bool
is_past_destination joining_source = false
is_past_destination joining_destination = false
is_past_destination _ = true

abbrev pub is_asking : Waiter → Bool
is_asking locking = true
is_asking timing = true
is_asking _ = false

abbrev pub is_joining : Waiter → Bool
is_joining joining_signal = true
is_joining _ = false

abbrev pub is_stopping : Waiter → Bool
is_stopping killing = true
is_stopping locking = true
is_stopping timing = true
is_stopping joining_signal = true
is_stopping _ = false

-- The end of file stands behind the source's thread; what `wait` has joined is over; the flag is set in the loop of the signal
-- thread; the `join` of that thread finds it without a signal; a blocked one has a signal pending
-- behind `pthread_kill`.
abbrev pub is_good : Threads → Bool
is_good s =
    (not (is_over s.source) || s.is_eof)
    && ((not (is_past_source s.waiter) || is_over s.source)
        && ((not (is_past_destination s.waiter) || is_over s.destination)
            && ((if s.signal_thread_waiting
                  then in_loop s.signal_thread
                  else not (in_loop s.signal_thread))
                && ((not (is_joining s.waiter) || not (is_held s.signal_thread))
                    && ((not (is_asking s.waiter && is_blocked s.signal_thread)
                          || s.pending_sigusr1)
                        && (not (is_stopping s.waiter) || is_joinable s.signal_thread))))))

pub started-good : (handle_signals : Bool) → is_good (started handle_signals) ≡ true
started-good true = refl
started-good false = refl

pub Step-good : {s t : Threads} → is_good s ≡ true → Step s t → is_good t ≡ true
Step-good {s} i (Step.source_returns at_) = ground (arith, i, at_)
Step-good {s} i (Step.source_throws x at_) = ground (arith, i, at_)
Step-good {s} i (Step.source_closes at_) = ground (arith, i, at_)
Step-good {s} i (Step.destination_returns at_) = ground (arith, i, at_)
Step-good {s} i (Step.destination_throws x at_) = ground (arith, i, at_)
Step-good {s} i (Step.destination_forces at_) = ground (arith, i, at_)
Step-good {s} i Step.raise_sigint = ground (arith, i)
Step-good {s} i Step.raise_sigusr1 = ground (arith, i)
Step-good {s} i (Step.enter at_) = ground (arith, i, at_)
Step-good {s} i (Step.test at_) = ground (arith, i, at_)
Step-good {s} i (Step.take_sigint at_ p) = ground (arith, i, at_)
Step-good {s} i (Step.take_sigusr1 at_ p) = ground (arith, i, at_)
Step-good {s} i (Step.retest sig at_) = ground (arith, i, at_)
Step-good {s} i (Step.handle_sigint at_) =
    if_cases (λ t. is_good t ≡ true) (leb 2 (s.n_sigint + 1)) _ _ (λ h. ground (arith, i, at_))
      (λ h. ground (arith, i, at_))
Step-good {s} i (Step.handle_sigusr1 at_) = ground (arith, i, at_)
Step-good {s} i (Step.leave at_) = ground (arith, i, at_)
Step-good {s} i (Step.notify at_) = ground (arith, i, at_)
Step-good {s} i (Step.join_source at_ end_) = ground (arith, i, at_, end_)
Step-good {s} i (Step.join_destination at_ end_) = ground (arith, i, at_, end_)
Step-good {s} i (Step.kill at_) = ground (arith, i, at_)
Step-good {s} i (Step.look at_) = ground (arith, i, at_)
Step-good {s} i (Step.wake at_) = ground (arith, i, at_)
Step-good {s} i (Step.join_signal at_ end_) = ground (arith, i, at_, end_)
Step-good {s} i (Step.rethrow at_) = ground (arith, i, at_)

pub Reach-good : {s t : Threads} → is_good s ≡ true → Reach s t → is_good t ≡ true
Reach-good i here = i
Reach-good i (next r run st) = Step-good (Reach-good i r) st

-- Where `wait` is in the `join` of the signal thread, the queue is at the end of file, and that
-- thread has no signal to handle and does not wait for one, whatever signals came and whenever the
-- endpoints ended.
pub Reach-joins :
    (handle_signals : Bool) {t : Threads}
    → Reach (started handle_signals) t
    → t.waiter ≡ joining_signal
    → (t.is_eof ≡ true) × (is_held t.signal_thread ≡ false)
Reach-joins handle_signals r at_ =
    let i = Reach-good (started-good handle_signals) r in
    (ground (arith, i, at_), ground (arith, i, at_))
