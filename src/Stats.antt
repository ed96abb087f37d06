-- ===== src/Stats.antt =====
-- include/dg_cat/stats.hpp: the statistics of the source and of the queue.
pub mod Rates
pub mod Measured
pub mod Text
pub mod Locks
use dg_cat.Common.{ℕ}
use dg_cat.Common.Int.{pos}
use dg_cat.Timespec.{Timespec}

-- `DgSourceStats`: the largest batch, and when the first and the last datagram came.
pub record DgSourceStats : Type 0 where
  pub max_clump_size : ℕ
  pub start_clock_time : ℕ
  pub start_time : Timespec
  pub end_time : Timespec

abbrev pub zero_time : Timespec
zero_time = record { tv_sec = pos 0; tv_nsec = pos 0 }

abbrev pub new_source_stats : DgSourceStats
new_source_stats = record {
  max_clump_size = 0;
  start_clock_time = 0;
  start_time = zero_time;
  end_time = zero_time;
}

pub record DgBufferStats : Type 0 where
  pub max_backlog_bytes : ℕ
  pub n_datagrams : ℕ
  pub n_datagrams_discarded : ℕ
  pub n_datagram_bytes : ℕ
  pub min_datagram_size : ℕ
  pub max_datagram_size : ℕ
  pub first_datagram_size : ℕ

abbrev pub new_buffer_stats : DgBufferStats
new_buffer_stats = record {
  max_backlog_bytes = 0;
  n_datagrams = 0;
  n_datagrams_discarded = 0;
  n_datagram_bytes = 0;
  min_datagram_size = 0;
  max_datagram_size = 0;
  first_datagram_size = 0;
}
