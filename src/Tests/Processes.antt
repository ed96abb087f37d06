-- ===== src/Tests/Processes.antt =====
-- The theorems on threads, mutexes and rates, each at one input.
use dg_cat.Common.{
  ℕ, ◌+◌, ◌-◌, ◌*◌, ◌/◌, ◌≡◌, refl, true, false, List, [], ◌∷◌, some, All, arith, ◌⊎◌, ◌==◌, max,
}
use dg_cat.Common.Int.{ℤ, pos, negsuc}
use dg_cat.Stats.{DgSourceStats, new_buffer_stats, zero_time}
use dg_cat.Stats.Rates.{
  Doubles, DgCatStats, rate, throughput_datagrams_per_sec, throughput_bytes_per_sec,
  mean_datagram_size,
}
use dg_cat.Stats.Measured.{counted, rates_lem}
use dg_cat.Stats.Locks.{Thread, assigns, start_all, Does, locks, copies_from, unlocks, copies_to}
use dg_cat.Stats.Locks.Free.{IsDone, Reach-goes}
use dg_cat.Threads.{
  Threads, over, blocked, notifying, joining_signal, returned, done, sigusr1, started, Step, Reach,
  here, next,
}
use dg_cat.Threads.Joining.{is_held, Reach-joins}
use dg_cat.Threads.Throws.{Reach-throws}
use dg_cat.Threads.Returns.{IsOver, Runs, Reach-returns}

-- A run in which the source throws while the signal thread waits for a signal.
abbrev waiting_signal : Threads
waiting_signal = record (started true) { signal_thread = blocked; signal_thread_waiting = true }

abbrev ended : Threads
ended = record waiting_signal {
  source = over;
  destination = over;
  exception = some 5;
  is_eof = true;
  source_forced = true;
}

to_ended : Reach (started true) ended
to_ended =
    next
      (next
        (next
          (next (next (next here refl (Step.enter refl)) refl (Step.test refl)) refl
            (Step.source_throws 5 refl))
          refl (Step.source_closes refl))
        refl (Step.destination_returns refl))
      refl (Step.destination_forces refl)

Reach-returns_example : (t : Threads) × Runs ended t × IsOver t
Reach-returns_example = Reach-returns true to_ended refl refl

-- `wait` sends its signal, and the signal thread leaves its loop.
abbrev joining : Threads
joining = record ended {
  signal_thread = notifying;
  signal_thread_waiting = false;
  waiter = joining_signal;
}

to_joining : Reach (started true) joining
to_joining =
    next
      (next
        (next
          (next
            (next
              (next (next to_ended refl (Step.join_source refl refl)) refl
                (Step.join_destination refl refl))
              refl (Step.kill refl))
            refl (Step.take_sigusr1 refl refl))
          refl (Step.retest sigusr1 refl))
        refl (Step.leave refl))
      refl (Step.look refl)

Reach-joins_example : (joining.is_eof ≡ true) × (is_held joining.signal_thread ≡ false)
Reach-joins_example = Reach-joins true to_joining refl

abbrev thrown : Threads
thrown = record joining { signal_thread = done; waiter = returned (some 5) }

to_thrown : Reach (started true) thrown
to_thrown =
    next (next (next to_joining refl (Step.notify refl)) refl (Step.join_signal refl refl)) refl
      (Step.rethrow refl)

Reach-throws_example :
    (some 5 ≡ thrown.exception) × (thrown.source ≡ over) × (thrown.destination ≡ over)
Reach-throws_example = Reach-throws true (some 5) to_thrown refl

-- Two threads that assign two objects to each other; both hold the mutex that they read from.
abbrev crossing : List Thread
crossing =
    record {
      held = 1 ∷ [];
      rest = copies_from 1 ∷ unlocks 1 ∷ locks 0 ∷ copies_to 0 ∷ unlocks 0 ∷ [];
    }
    ∷ record {
      held = 0 ∷ [];
      rest = copies_from 0 ∷ unlocks 0 ∷ locks 1 ∷ copies_to 1 ∷ unlocks 1 ∷ [];
    }
    ∷ []

abbrev crossed : List Thread
crossed = start_all ((assigns 0 1 ∷ []) ∷ (assigns 1 0 ∷ []) ∷ [])

to_crossing : dg_cat.Stats.Locks.Reach crossed crossing
to_crossing =
    dg_cat.Stats.Locks.next
      (dg_cat.Stats.Locks.next dg_cat.Stats.Locks.here
        (dg_cat.Stats.Locks.step [] _ _ _ refl (Does.lock 1 _ refl (tt, (tt, tt)))))
      (dg_cat.Stats.Locks.step (_ ∷ []) _ _ _ refl
        (Does.lock 0 _ refl (((λ h. absurd (omega arith)), tt), (tt, tt))))

Reach-goes_example :
    All IsDone crossing ⊎ ((us : List Thread) × dg_cat.Stats.Locks.Step crossing us)
Reach-goes_example = Reach-goes ((assigns 0 1 ∷ []) ∷ (assigns 1 0 ∷ []) ∷ []) to_crossing

-- Integers for doubles.
abbrev magnitude : ℤ → ℕ
magnitude (pos n) = n
magnitude (negsuc n) = 0

abbrev whole_numbers : Doubles ℕ
whole_numbers = record {
  zero_double = 0;
  is_zero = λ n. n == 0;
  of_long = magnitude;
  of_size = λ n. n;
  to_long = pos;
  add = λ a b. a + b;
  subtract = λ a b. a - b;
  multiply = λ a b. a * b;
  divide = λ a b. a / b;
  maximum = max;
  floor = λ n. n;
  round = λ n. n;
}

abbrev two_seconds : DgSourceStats
two_seconds = record {
  max_clump_size = 1;
  start_clock_time = 0;
  start_time = zero_time;
  end_time = record { tv_sec = pos 2; tv_nsec = pos 0 };
}

rates_example :
    let s : DgCatStats = record {
      stat_seq = 0;
      source_stats = two_seconds;
      buffer_stats = counted new_buffer_stats (9 ∷ 4 ∷ 6 ∷ []);
    } in
    (throughput_datagrams_per_sec whole_numbers s ≡ rate whole_numbers two_seconds 2)
    × (throughput_bytes_per_sec whole_numbers s ≡ rate whole_numbers two_seconds 10)
    × (mean_datagram_size whole_numbers s ≡ 6)
rates_example = rates_lem whole_numbers 0 9 (4 ∷ 6 ∷ []) two_seconds (omega arith) (omega arith)
