-- ===== src/Config/Limits.antt =====
-- The number of datagrams that one call of `recvmmsg` may be asked for, from config.hpp.
use dg_cat.Common.{ℕ, ◌-◌, ◌^◌, ◌<◌, ◌≤◌, ◌≡◌, Bool, arith, ◌==◌, size_mod, min, if◌then◌else◌}
use dg_cat.Common.Int.{pos, negsuc}
use dg_cat.Config.{DgCatConfig, resolve_iovecs, new_config}

module _ {Double : Type 0} (is_negative : Double → Bool) where
  -- Where the system has a limit, `max_iovecs` ends up positive and within it: it is the limit if
  -- none was asked for, and the smaller of the two otherwise.
  pub new_config-iovecs :
      (limit : ℕ) (c : DgCatConfig Double)
      → 0 < limit
      → limit < 2 ^ 63
      → let c' = new_config is_negative (pos limit) c in
        (0 < c'.max_iovecs)
        × (c'.max_iovecs ≤ limit)
        × (c'.max_iovecs ≡ (if c.max_iovecs == 0 then limit else min c.max_iovecs limit))
  unfolding new_config resolve_iovecs
  new_config-iovecs limit c pos_ small = ground arith

  -- Where `sysconf` fails with -1, the constructor goes on: `max_iovecs` is 2^64 - 1 if none was
  -- asked for, and whatever was asked for otherwise.
  pub new_config-failed :
      (c : DgCatConfig Double)
      → c.max_iovecs < size_mod
      → (new_config is_negative (negsuc 0) c).max_iovecs
        ≡ (if c.max_iovecs == 0 then size_mod - 1 else c.max_iovecs)
  unfolding new_config resolve_iovecs
  new_config-failed c small = ground arith
