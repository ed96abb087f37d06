-- ===== src/CommandLine.antt =====
-- The options of src/main.cpp and the configuration that it makes of them. The parser is a library:
-- the values that it gives are a record here; doubles are a parameter.
pub mod Timeouts
use dg_cat.Common.{ℕ, Bool, not, if◌then◌else◌}
use dg_cat.Common.Int.{ℤ}
use dg_cat.Config.{DgCatConfig, new_config}

pub record Options (Double : Type 0) : Type 0 where
  pub max_datagram_size : ℕ
  pub max_backlog : ℕ
  pub eof_timeout : Double
  pub start_timeout : Double
  pub max_datagram_rate : Double
  pub max_datagrams : ℕ
  pub max_read_size : ℕ
  pub max_write_size : ℕ
  pub max_iovecs : ℕ
  pub append : Bool
  pub no_handle_signals : Bool

-- the arguments of the constructor, with this start limit
abbrev pub arguments : {Double : Type 0} → Options Double → Double → DgCatConfig Double
arguments o start_timeout = record {
  bufsize = o.max_datagram_size;
  max_backlog = o.max_backlog;
  eof_timeout = o.eof_timeout;
  start_timeout = start_timeout;
  max_datagram_rate = o.max_datagram_rate;
  max_datagrams = o.max_datagrams;
  max_read_size = o.max_read_size;
  max_write_size = o.max_write_size;
  max_iovecs = o.max_iovecs;
  append = o.append;
  handle_signals = not o.no_handle_signals;
}

module _ {Double : Type 0} (is_negative : Double → Bool) where
  -- from the values of the parser to the configuration
  unfoldable pub configure : ℤ → Options Double → DgCatConfig Double
  configure sys_conf o =
      new_config is_negative sys_conf
        (arguments o (if is_negative o.start_timeout then o.eof_timeout else o.start_timeout))
