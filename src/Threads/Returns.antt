-- ===== src/Threads/Returns.antt =====
-- `wait` returns behind the end of the endpoints.
use dg_cat.Common.{
  ℕ, zero, suc, ◌≡◌, ◌<◌, refl, ◌∙◌, Bool, true, false, Option, Bool-cases, arith, ◌⊎◌, inl, inr,
}
use dg_cat.Threads.{over, returned, Threads, started, Step, Reach}
use dg_cat.Threads.Joining.{is_good, Step-good, started-good, Reach-good}
use dg_cat.Threads.Goes.{is_own, left, goes}

-- `wait` has returned, or the process has exited.
abbrev pub IsOver : Threads → Type 0
IsOver t = (t.exited ≡ true) ⊎ ((x : Option ℕ) × (t.waiter ≡ returned x))

-- The program runs on by itself, without a signal from outside.
pub data Runs (s : Threads) : Threads → Type 0 where
  still : Runs s s
  onward :
      {t u : Threads} → Runs s t → t.exited ≡ false → (st : Step t u) → is_own st ≡ true → Runs s u

drive :
    (fuel : ℕ) (s₀ s : Threads)
    → left s < fuel
    → Runs s₀ s
    → is_good s ≡ true
    → s.source ≡ over
    → s.destination ≡ over
    → (t : Threads) × Runs s₀ t × IsOver t
drive zero s₀ s enough r i source destination = absurd (omega arith)
drive (suc fuel) s₀ s enough r i source destination = elim (Bool-cases s.exited) [
  | inl gone ↦ (s, r, inl gone)
  | inr alive ↦ elim (goes s s.waiter refl i alive source destination) [
    | inl (x, at_) ↦ (s, r, inr (x, at_))
    | inr (t, g) ↦
        drive fuel s₀ t (omega (arith, g.less)) (onward r alive g.step g.own) (Step-good i g.step)
          (g.source ∙ source) (g.destination ∙ destination)
  ]
]

-- Once the threads of both endpoints are over, the program can run on by itself, without any further
-- signal from outside, to a state where `wait` has returned or the process has exited, whatever
-- signals came before and in whatever order the threads ran.
pub Reach-returns :
    (handle_signals : Bool) {s : Threads}
    → Reach (started handle_signals) s
    → s.source ≡ over
    → s.destination ≡ over
    → (t : Threads) × Runs s t × IsOver t
Reach-returns handle_signals {s} r source destination =
    drive (suc (left s)) s s (omega arith) still (Reach-good (started-good handle_signals) r) source
      destination
