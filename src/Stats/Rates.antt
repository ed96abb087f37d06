-- ===== src/Stats/Rates.antt =====
-- `DgCatStats` of include/dg_cat/stats.hpp and the conversions of include/dg_cat/timespec_math.hpp:
-- everything with doubles, whose operations are a parameter.
use dg_cat.Common.{ℕ, Bool, max, sub_size, ◌==◌, if◌then◌else◌}
use dg_cat.Common.Int.{ℤ}
use dg_cat.Timespec.{Timespec, giga, normalize_timespec, timespec_subtract}
use dg_cat.Stats.{DgSourceStats, DgBufferStats}

-- The operations of the processor's doubles: casts from and to integers, `floor`, `round`.
pub record Doubles (D : Type 0) : Type 0 where
  pub zero_double : D
  pub is_zero : D → Bool
  pub of_long : ℤ → D
  pub of_size : ℕ → D
  pub to_long : D → ℤ
  pub add : D → D → D
  pub subtract : D → D → D
  pub multiply : D → D → D
  pub divide : D → D → D
  pub maximum : D → D → D
  pub floor : D → D
  pub round : D → D

-- `DgDestinationStats` has no member.
pub record DgCatStats : Type 0 where
  pub stat_seq : ℕ
  pub source_stats : DgSourceStats
  pub buffer_stats : DgBufferStats

module _ {D : Type 0} (d : Doubles D) where
  abbrev pub timespec_to_secs : Timespec → D
  timespec_to_secs ts =
      d.add (d.of_long ts.tv_sec) (d.divide (d.of_long ts.tv_nsec) (d.of_size giga))

  unfoldable pub secs_to_timespec : D → Timespec
  secs_to_timespec secs =
      let sec = d.to_long (d.floor secs) in
      let part = d.subtract secs (d.of_long sec) in
      let nsec = d.to_long (d.round (d.multiply part (d.of_size giga))) in
      normalize_timespec sec nsec

  abbrev pub elapsed_secs : DgSourceStats → D
  elapsed_secs s =
      d.maximum (timespec_to_secs (timespec_subtract s.end_time s.start_time)) d.zero_double

  -- the integer, over the seconds that went by
  abbrev pub rate : DgSourceStats → ℕ → D
  rate s k =
      if d.is_zero (elapsed_secs s) then d.zero_double else d.divide (d.of_size k) (elapsed_secs s)

  unfoldable pub throughput_datagrams_per_sec : DgCatStats → D
  throughput_datagrams_per_sec s =
      rate s.source_stats (sub_size (max s.buffer_stats.n_datagrams 1) 1)

  unfoldable pub throughput_bytes_per_sec : DgCatStats → D
  throughput_bytes_per_sec s =
      let b = s.buffer_stats in
      rate s.source_stats
        (sub_size (max b.n_datagram_bytes b.first_datagram_size) b.first_datagram_size)

  unfoldable pub mean_datagram_size : DgCatStats → D
  mean_datagram_size s =
      if s.buffer_stats.n_datagrams == 0
      then d.zero_double
      else d.divide (d.of_size s.buffer_stats.n_datagram_bytes)
          (d.of_size s.buffer_stats.n_datagrams)
