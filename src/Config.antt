-- ===== src/Config.antt =====
-- `DgCatConfig` of include/dg_cat/config.hpp: the fields that its constructor computes, and the
-- integer ones that it copies. The times are doubles, a parameter here; `sysconf(_SC_IOV_MAX)` is an
-- argument.
pub mod Limits
use dg_cat.Common.{ℕ, Bool, true, false, ltb, ◌==◌, ◌||◌, if◌then◌else◌, ◌%◌, size_mod}
use dg_cat.Common.Int.{ℤ, pos, negsuc}
use dg_cat.Common.{sub_size, suc}

pub record DgCatConfig (Double : Type 0) : Type 0 where
  pub bufsize : ℕ
  pub max_backlog : ℕ
  pub eof_timeout : Double
  pub start_timeout : Double
  pub max_datagram_rate : Double
  pub max_datagrams : ℕ
  pub max_read_size : ℕ
  pub max_write_size : ℕ
  pub max_iovecs : ℕ
  pub append : Bool
  pub handle_signals : Bool

-- the cast of a `long` to `size_t`
abbrev pub to_size : ℤ → ℕ
to_size (pos n) = n % size_mod
to_size (negsuc n) = sub_size 0 (suc n)

-- The test of `sys_max_iovecs < 0` is never true of a `size_t`, so there is no exception.
unfoldable pub resolve_iovecs : ℤ → ℕ → ℕ
resolve_iovecs sys_conf max_iovecs =
    let sys_max_iovecs = to_size sys_conf in
    if (max_iovecs == 0) || ltb sys_max_iovecs max_iovecs then sys_max_iovecs else max_iovecs

module _ {Double : Type 0} (is_negative : Double → Bool) where
  -- The constructor, given the arguments as a record.
  unfoldable pub new_config : ℤ → DgCatConfig Double → DgCatConfig Double
  unfolding resolve_iovecs
  new_config sys_conf c = record c {
    start_timeout = if is_negative c.start_timeout then c.eof_timeout else c.start_timeout;
    max_iovecs = resolve_iovecs sys_conf c.max_iovecs;
  }
