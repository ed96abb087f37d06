-- ===== src/Timespec/Laws.antt =====
-- timespec_math.hpp: normal forms, and subtraction against addition.
use dg_cat.Common.{ℕ, suc, ◌+◌, ◌*◌, ◌/◌, ◌%◌, ◌≡◌, ◌<◌, refl, arith, leb, if_cases, ◌==◌, ◌≢◌}
use dg_cat.Common.Int.{
  ℤ, pos, negsuc, pos_part, neg_part, ◌+ℤ◌, ◌-ℤ◌, eq_of_parts, int_laws, sub_ℕ-le,
}
use dg_cat.Timespec.{Timespec, giga, borrow, normalize_timespec, timespec_subtract, timespec_add}

-- The nanoseconds lie in the range that a `timespec` allows.
pub record IsNormal (t : Timespec) : Type 0 where
  pub nonneg : neg_part t.tv_nsec ≡ 0
  pub below : pos_part t.tv_nsec < giga

-- `t` is `sec` seconds and `nsec` nanoseconds: an equation of integers, its negative parts moved over.
abbrev pub IsTime : Timespec → ℤ → ℤ → Type 0
IsTime t sec nsec =
    pos_part t.tv_sec * giga + pos_part t.tv_nsec + neg_part sec * giga + neg_part nsec
    ≡ neg_part t.tv_sec * giga + neg_part t.tv_nsec + pos_part sec * giga + pos_part nsec

abbrev Normalizes : ℤ → ℤ → Timespec → Type 0
Normalizes sec nsec t = IsNormal t × IsTime t sec nsec

abbrev Borrowed : ℤ → ℕ → Timespec → Type 0
Borrowed sec m t =
    IsNormal t
    × (pos_part t.tv_sec * giga + pos_part t.tv_nsec + neg_part sec * giga + m
        ≡ neg_part t.tv_sec * giga + neg_part t.tv_nsec + pos_part sec * giga)

borrow_lem : (sec : ℤ) (m : ℕ) → m < giga → Borrowed sec m (borrow sec m)
unfolding borrow
borrow_lem sec m h =
    if_cases (Borrowed sec m) (m == 0) _ _
      (λ k.
        let z : m ≡ 0 = ground arith in
        (record { nonneg = refl; below = omega arith }, omega arith))
      (λ k.
        let z : m ≢ 0 = ground arith in
        rw (sub_ℕ-le giga m (omega arith))
          (record { nonneg = refl; below = omega arith }, omega int_laws))

-- `normalize_timespec` brings the nanoseconds into the range from 0 to 999999999 and keeps the time.
pub normalize_timespec_lem :
    (sec nsec : ℤ)
    → IsNormal (normalize_timespec sec nsec) × IsTime (normalize_timespec sec nsec) sec nsec
unfolding normalize_timespec
normalize_timespec_lem sec (pos n) =
    if_cases (Normalizes sec (pos n)) (leb giga n) _ _ (λ h. (ground arith, omega int_laws))
      (λ h. (ground arith, omega int_laws))
normalize_timespec_lem sec (negsuc n) =
    if_cases (Normalizes sec (negsuc n)) (leb giga (suc n)) _ _
      (λ h.
        let b = borrow_lem (sec -ℤ pos (suc n / giga)) (suc n % giga) (omega arith) in
        (b.0, omega int_laws))
      (λ h.
        let small : suc n < giga = ground arith in
        let b = borrow_lem sec (suc n) small in (b.0, omega int_laws))

-- A time has one normal form.
normal_unique : (t u : Timespec) → IsNormal t → IsNormal u → IsTime t u.tv_sec u.tv_nsec → t ≡ u
normal_unique t u h k e = λ i. record { tv_sec = secs i; tv_nsec = nsecs i }
  where
    secs : t.tv_sec ≡ u.tv_sec
    secs = eq_of_parts t.tv_sec u.tv_sec (omega arith)

    nsecs : t.tv_nsec ≡ u.tv_nsec
    nsecs = eq_of_parts t.tv_nsec u.tv_nsec (omega arith)

-- The difference of two times, added to the second, gives the first back; and the difference is in
-- normal form. The first time is in normal form.
pub add-subtract :
    (time1 time0 : Timespec)
    → IsNormal time1
    → (timespec_add (timespec_subtract time1 time0) time0 ≡ time1)
      × IsNormal (timespec_subtract time1 time0)
unfolding timespec_add timespec_subtract
add-subtract time1 time0 v =
    let d =
      normalize_timespec_lem (time1.tv_sec -ℤ time0.tv_sec) (time1.tv_nsec -ℤ time0.tv_nsec) in
    let t = timespec_subtract time1 time0 in
    let s = normalize_timespec_lem (t.tv_sec +ℤ time0.tv_sec) (t.tv_nsec +ℤ time0.tv_nsec) in
    (normal_unique _ time1 s.0 v (omega (int_laws, s.1, d.1)), d.0)
