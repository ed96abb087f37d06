-- ===== src/Timespec.antt =====
-- include/dg_cat/timespec_math.hpp: times as seconds and nanoseconds. The source's `long` is taken
-- as an integer: a signed overflow is no behaviour that the code relies on.
pub mod Laws
use dg_cat.Common.{ℕ, suc, ◌+◌, ◌-◌, ◌/◌, ◌%◌, Bool, ltb, leb, ◌==◌, if◌then◌else◌}
use dg_cat.Common.Int.{ℤ, pos, negsuc, sub_ℕ, ◌+ℤ◌, ◌-ℤ◌}

pub record Timespec : Type 0 where
  pub tv_sec : ℤ
  pub tv_nsec : ℤ

abbrev pub giga : ℕ
giga = 1_000_000_000

-- the last test of the negative branch, `tv_nsec != 0`; there `tv_nsec` is `-m`
borrow : ℤ → ℕ → Timespec
borrow tv_sec m =
    if m == 0
    then record { tv_sec = tv_sec; tv_nsec = pos 0 }
    else record { tv_sec = tv_sec -ℤ pos 1; tv_nsec = sub_ℕ giga m }

unfoldable pub normalize_timespec : ℤ → ℤ → Timespec
unfolding borrow
normalize_timespec tv_sec (pos n) =
    if leb giga n
    then record { tv_sec = tv_sec +ℤ pos (n / giga); tv_nsec = pos (n % giga) }
    else record { tv_sec = tv_sec; tv_nsec = pos n }
normalize_timespec tv_sec (negsuc n) =
    if leb giga (suc n)
    then borrow (tv_sec -ℤ pos (suc n / giga)) (suc n % giga)
    else borrow tv_sec (suc n)

unfoldable pub timespec_subtract : Timespec → Timespec → Timespec
timespec_subtract time1 time0 =
    normalize_timespec (time1.tv_sec -ℤ time0.tv_sec) (time1.tv_nsec -ℤ time0.tv_nsec)

unfoldable pub timespec_add : Timespec → Timespec → Timespec
timespec_add time1 time2 =
    normalize_timespec (time1.tv_sec +ℤ time2.tv_sec) (time1.tv_nsec +ℤ time2.tv_nsec)
