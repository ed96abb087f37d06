-- ===== src/Threads/Goes.antt =====
-- Behind the end of both endpoints, `wait` is over or some thread comes nearer to its end.
use dg_cat.Common.{
  ℕ, ◌+◌, ◌≡◌, ◌<◌, refl, Bool, true, false, Option, leb, if◌then◌else◌, if_cases, Bool-cases,
  arith, ◌||◌, not, ◌⊎◌, inl, inr,
}
use dg_cat.Threads.{
  over, sigint, sigusr1, SignalThread, not_started, entering, testing, blocked, received, handling,
  leaving, notifying, done, Waiter, joining_source, joining_destination, killing, locking, timing,
  joining_signal, rethrowing, returned, Threads, after_sigint, is_joinable, Step,
}
use dg_cat.Threads.Joining.{is_blocked, is_good}

abbrev pub signal_left : SignalThread → ℕ
signal_left not_started = 0
signal_left entering = 5
signal_left testing = 4
signal_left blocked = 4
signal_left (received sig) = 3
signal_left (handling sig) = 6
signal_left leaving = 2
signal_left notifying = 1
signal_left done = 0

abbrev pub waiter_left : Waiter → ℕ
waiter_left joining_source = 7
waiter_left joining_destination = 6
waiter_left killing = 5
waiter_left locking = 4
waiter_left timing = 4
waiter_left joining_signal = 3
waiter_left rethrowing = 1
waiter_left (returned x) = 0

-- how far the threads are from their ends, behind the end of the endpoints
abbrev pub left : Threads → ℕ
left s = if s.exited then 0 else signal_left s.signal_thread + waiter_left s.waiter

-- A step of the program itself: no signal from outside.
abbrev pub is_own : {s t : Threads} → Step s t → Bool
is_own Step.raise_sigint = false
is_own Step.raise_sigusr1 = false
is_own _ = true

-- A step of the program towards the end.
pub record Goes (s t : Threads) : Type 0 where
  pub step : Step s t
  pub own : is_own step ≡ true
  pub less : left t < left s
  pub source : t.source ≡ s.source
  pub destination : t.destination ≡ s.destination

-- the signal thread can go on
abbrev is_going : SignalThread → Bool
is_going not_started = false
is_going done = false
is_going _ = true

signal-goes :
    (s : Threads) (th : SignalThread)
    → s.signal_thread ≡ th
    → s.exited ≡ false
    → s.is_eof ≡ true
    → (not (is_blocked th) || s.pending_sigusr1) ≡ true
    → is_going th ≡ true
    → (t : Threads) × Goes s t
signal-goes s not_started at_ alive eof woken going = absurd (ground arith)
signal-goes s done at_ alive eof woken going = absurd (ground arith)
signal-goes s entering at_ alive eof woken going = (
  _,
  record {
    step = Step.enter at_;
    own = refl;
    less = ground (arith, at_, alive);
    source = refl;
    destination = refl;
  },
)
signal-goes s testing at_ alive eof woken going = (
  _,
  record {
    step = Step.test at_;
    own = refl;
    less = ground (arith, at_, alive, eof);
    source = refl;
    destination = refl;
  },
)
signal-goes s blocked at_ alive eof woken going = (
  _,
  record {
    step = Step.take_sigusr1 at_ (ground (arith, woken));
    own = refl;
    less = ground (arith, at_, alive);
    source = refl;
    destination = refl;
  },
)
signal-goes s (received sig) at_ alive eof woken going = (
  _,
  record {
    step = Step.retest sig at_;
    own = refl;
    less = ground (arith, at_, alive, eof);
    source = refl;
    destination = refl;
  },
)
signal-goes s (handling sigint) at_ alive eof woken going =
    let counted = record s { n_sigint = s.n_sigint + 1 } in
    (
      after_sigint counted,
      record {
        step = Step.handle_sigint at_;
        own = refl;
        less =
            if_cases (λ t. left t < left s) (leb 2 (s.n_sigint + 1)) _ _
              (λ h. ground (arith, at_, alive)) (λ h. ground (arith, at_, alive));
        source =
            if_cases (λ (t : Threads). t.source ≡ s.source) (leb 2 (s.n_sigint + 1)) _ _ (λ h. refl)
              (λ h. refl);
        destination =
            if_cases (λ (t : Threads). t.destination ≡ s.destination) (leb 2 (s.n_sigint + 1)) _ _
              (λ h. refl) (λ h. refl);
      },
    )
signal-goes s (handling sigusr1) at_ alive eof woken going = (
  _,
  record {
    step = Step.handle_sigusr1 at_;
    own = refl;
    less = ground (arith, at_, alive);
    source = refl;
    destination = refl;
  },
)
signal-goes s leaving at_ alive eof woken going = (
  _,
  record {
    step = Step.leave at_;
    own = refl;
    less = ground (arith, at_, alive);
    source = refl;
    destination = refl;
  },
)
signal-goes s notifying at_ alive eof woken going = (
  _,
  record {
    step = Step.notify at_;
    own = refl;
    less = ground (arith, at_, alive);
    source = refl;
    destination = refl;
  },
)

ends : (th : SignalThread) → is_going th ≡ false → is_joinable th ≡ true → th ≡ done
ends not_started stuck joinable = absurd (ground arith)
ends entering stuck joinable = absurd (ground arith)
ends testing stuck joinable = absurd (ground arith)
ends blocked stuck joinable = absurd (ground arith)
ends (received sig) stuck joinable = absurd (ground arith)
ends (handling sig) stuck joinable = absurd (ground arith)
ends leaving stuck joinable = absurd (ground arith)
ends notifying stuck joinable = absurd (ground arith)
ends done stuck joinable = refl

-- Behind the end of both endpoints, `wait` is over or some thread can go on.
pub goes :
    (s : Threads) (w : Waiter)
    → s.waiter ≡ w
    → is_good s ≡ true
    → s.exited ≡ false
    → s.source ≡ over
    → s.destination ≡ over
    → ((x : Option ℕ) × (s.waiter ≡ returned x)) ⊎ ((t : Threads) × Goes s t)
goes s joining_source at_ i alive source destination = inr (
  _,
  record {
    step = Step.join_source at_ source;
    own = refl;
    less = ground (arith, at_, alive);
    source = refl;
    destination = refl;
  },
)
goes s joining_destination at_ i alive source destination = inr (
  _,
  record {
    step = Step.join_destination at_ destination;
    own = refl;
    less = ground (arith, at_, alive);
    source = refl;
    destination = refl;
  },
)
goes s killing at_ i alive source destination = inr (
  _,
  record {
    step = Step.kill at_;
    own = refl;
    less = ground (arith, at_, alive);
    source = refl;
    destination = refl;
  },
)
goes s locking at_ i alive source destination = elim (Bool-cases s.signal_thread_waiting) [
  | inl waiting ↦ inr (
      signal-goes s s.signal_thread refl alive (ground (arith, i, at_)) (ground (arith, i, at_))
        (ground (arith, i, waiting)))
  | inr clear ↦ inr (
    _,
    record {
      step = Step.look at_;
      own = refl;
      less = ground (arith, at_, alive, clear);
      source = refl;
      destination = refl;
    },
  )
]
goes s timing at_ i alive source destination = elim (Bool-cases s.signal_thread_waiting) [
  | inl waiting ↦ inr (
      signal-goes s s.signal_thread refl alive (ground (arith, i, at_)) (ground (arith, i, at_))
        (ground (arith, i, waiting)))
  | inr clear ↦ inr (
    _,
    record {
      step = Step.wake at_;
      own = refl;
      less = ground (arith, at_, alive, clear);
      source = refl;
      destination = refl;
    },
  )
]
goes s joining_signal at_ i alive source destination =
    elim (Bool-cases (is_going s.signal_thread)) [
      | inl going ↦ inr (
          signal-goes s s.signal_thread refl alive (ground (arith, i, at_)) (ground (arith, i, at_))
            going)
      | inr ended ↦
          let stopped = ends s.signal_thread ended (ground (arith, i, at_)) in
          inr (
            _,
            record {
              step = Step.join_signal at_ stopped;
              own = refl;
              less = ground (arith, at_, alive);
              source = refl;
              destination = refl;
            },
          )
    ]
goes s rethrowing at_ i alive source destination = inr (
  _,
  record {
    step = Step.rethrow at_;
    own = refl;
    less = ground (arith, at_, alive);
    source = refl;
    destination = refl;
  },
)
goes s (returned x) at_ i alive source destination = inl (x, at_)
