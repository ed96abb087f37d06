-- ===== src/Threads.antt =====
-- The threads of `DatagramCopier` in include/dg_cat/datagram_copier.hpp: the source's and the
-- destination's thread with the exception that they record, the signal thread, and `wait`. What the
-- endpoints do is left open here: each returns or throws at some time.
pub mod Joining
pub mod Throws
pub mod Goes
pub mod Returns
use dg_cat.Common.{ℕ, ◌+◌, ◌≡◌, Bool, true, false, Option, none, some, leb, if◌then◌else◌}

-- In the endpoint's loop, behind it, or done.
pub data Worker : Type 0 where
  running behind over : Worker

pub data Signal : Type 0 where
  sigint sigusr1 : Signal

-- Where `handle_signals` stands: before it sets `_signal_thread_waiting`, before the first `is_eof`
-- of a round, in `sigwait`, before the second `is_eof`, in the `switch`, behind the loop, before
-- `notify_all`, or done.
pub data SignalThread : Type 0 where
  not_started entering testing blocked : SignalThread
  received handling : Signal → SignalThread
  leaving notifying done : SignalThread

-- Where `wait` stands: in a `join`, before `pthread_kill`, before the first test of
-- `_signal_thread_waiting`, in `wait_for`, or at its end with the exception that it throws.
pub data Waiter : Type 0 where
  joining_source joining_destination killing locking timing joining_signal rethrowing : Waiter
  returned : Option ℕ → Waiter

pub record Threads : Type 0 where
  pub source : Worker
  pub destination : Worker
  pub signal_thread : SignalThread
  pub waiter : Waiter
  pub exception : Option ℕ
  pub is_eof : Bool
  pub source_forced : Bool
  pub signal_thread_waiting : Bool
  pub pending_sigint : Bool
  pub pending_sigusr1 : Bool
  pub n_sigint : ℕ
  pub stat_seq : ℕ
  -- behind `exit(1)`
  pub exited : Bool

-- what a thread records of the exceptions: the first one
abbrev pub recorded : Option ℕ → ℕ → Option ℕ
recorded none x = some x
recorded (some y) x = some y

-- behind the increment of `n_sigint`
abbrev pub after_sigint : Threads → Threads
after_sigint s =
    if leb 2 s.n_sigint
    then record s { exited = true }
    else record s { source_forced = true; signal_thread = testing }

-- behind `start`, with `wait` called
abbrev pub started : (handle_signals : Bool) → Threads
started handle_signals = record {
  source = running;
  destination = running;
  signal_thread = if handle_signals then entering else not_started;
  waiter = joining_source;
  exception = none;
  is_eof = false;
  source_forced = false;
  signal_thread_waiting = false;
  pending_sigint = false;
  pending_sigusr1 = false;
  n_sigint = 0;
  stat_seq = 0;
  exited = false;
}

-- `_signal_thread.joinable()`
abbrev pub is_joinable : SignalThread → Bool
is_joinable not_started = false
is_joinable _ = true

pub data Step (s : Threads) : Threads → Type 0 where
  source_returns : s.source ≡ running → Step s (record s { source = behind })
  source_throws :
      (x : ℕ)
      → s.source ≡ running
      → Step s (record s { source = behind; exception = recorded s.exception x })
  -- `producer_set_eof`
  source_closes : s.source ≡ behind → Step s (record s { source = over; is_eof = true })
  destination_returns : s.destination ≡ running → Step s (record s { destination = behind })
  destination_throws :
      (x : ℕ)
      → s.destination ≡ running
      → Step s (record s { destination = behind; exception = recorded s.exception x })
  -- `force_eof` of the source
  destination_forces :
      s.destination ≡ behind → Step s (record s { destination = over; source_forced = true })
  -- signals from outside
  raise_sigint : Step s (record s { pending_sigint = true })
  raise_sigusr1 : Step s (record s { pending_sigusr1 = true })
  -- `handle_signals`
  enter :
      s.signal_thread ≡ entering
      → Step s (record s { signal_thread = testing; signal_thread_waiting = true })
  test :
      s.signal_thread ≡ testing
      → Step s (record s { signal_thread = if s.is_eof then leaving else blocked })
  take_sigint :
      s.signal_thread ≡ blocked
      → s.pending_sigint ≡ true
      → Step s (record s { signal_thread = received sigint; pending_sigint = false })
  take_sigusr1 :
      s.signal_thread ≡ blocked
      → s.pending_sigusr1 ≡ true
      → Step s (record s { signal_thread = received sigusr1; pending_sigusr1 = false })
  retest :
      (sig : Signal)
      → s.signal_thread ≡ received sig
      → Step s (record s { signal_thread = if s.is_eof then leaving else handling sig })
  handle_sigint :
      s.signal_thread ≡ handling sigint
      → Step s (after_sigint (record s { n_sigint = s.n_sigint + 1 }))
  -- `get_stats`
  handle_sigusr1 :
      s.signal_thread ≡ handling sigusr1
      → Step s (record s { signal_thread = testing; stat_seq = s.stat_seq + 1 })
  leave :
      s.signal_thread ≡ leaving
      → Step s (record s { signal_thread = notifying; signal_thread_waiting = false })
  notify : s.signal_thread ≡ notifying → Step s (record s { signal_thread = done })
  -- `wait`
  join_source :
      s.waiter ≡ joining_source
      → s.source ≡ over
      → Step s (record s { waiter = joining_destination })
  join_destination :
      s.waiter ≡ joining_destination
      → s.destination ≡ over
      → Step s (record s { waiter = if is_joinable s.signal_thread then killing else rethrowing })
  kill : s.waiter ≡ killing → Step s (record s { waiter = locking; pending_sigusr1 = true })
  look :
      s.waiter ≡ locking
      → Step s (record s { waiter = if s.signal_thread_waiting then timing else joining_signal })
  -- the end of `wait_for`: notified, after a second, or without a reason
  wake :
      s.waiter ≡ timing
      → Step s (record s { waiter = if s.signal_thread_waiting then killing else joining_signal })
  join_signal :
      s.waiter ≡ joining_signal → s.signal_thread ≡ done → Step s (record s { waiter = rethrowing })
  rethrow : s.waiter ≡ rethrowing → Step s (record s { waiter = returned s.exception })

-- The states that can follow one after the other, until the process exits.
pub data Reach (s : Threads) : Threads → Type 0 where
  here : Reach s s
  next : {t u : Threads} → Reach s t → t.exited ≡ false → Step t u → Reach s u
