-- ===== src/Stats/Text.antt =====
-- The lines of statistics of include/dg_cat/stats.hpp: `brief_str`. The printing of numbers and of
-- times is the standard library's, a parameter.
pub mod Labels
pub mod Joined
use dg_cat.Common.{ℕ, Bool, List, [], ◌∷◌, ◌++◌, length, ltb, if◌then◌else◌}
use dg_cat.Stats.{DgSourceStats, DgBufferStats}
use dg_cat.Stats.Rates.{
  Doubles, DgCatStats, elapsed_secs, throughput_datagrams_per_sec, throughput_bytes_per_sec,
  mean_datagram_size,
}
use dg_cat.Stats.Text.Labels.*

-- `std::to_string` of integers and doubles, and `time_t_to_utc_string`.
pub record Printer (D : Type 0) : Type 0 where
  pub of_size : ℕ → List ℕ
  pub of_double : D → List ℕ
  pub utc_string : ℕ → List ℕ

-- `result += ", "` unless the result is empty
abbrev pub add_comma : List ℕ → List ℕ
add_comma result = if ltb 0 (length result) then result ++ comma else result

-- a part behind the result, unless it is empty
abbrev pub add_part : List ℕ → List ℕ → List ℕ
add_part part result = if ltb 0 (length part) then add_comma result ++ part else result

module _ {D : Type 0} (d : Doubles D) (p : Printer D) where
  unfoldable pub source_brief_str : DgSourceStats → List ℕ
  source_brief_str s =
      max_clump_size_label
      ++ (p.of_size s.max_clump_size
          ++ (start_clock_time_label
              ++ (p.utc_string s.start_clock_time
                  ++ (elapsed_secs_next_label ++ p.of_double (elapsed_secs d s)))))

  unfoldable pub buffer_brief_str : DgBufferStats → List ℕ
  buffer_brief_str s =
      max_backlog_bytes_label
      ++ (p.of_size s.max_backlog_bytes
          ++ (n_datagrams_label
              ++ (p.of_size s.n_datagrams
                  ++ (n_datagrams_discarded_label
                      ++ (p.of_size s.n_datagrams_discarded
                          ++ (n_datagram_bytes_label
                              ++ (p.of_size s.n_datagram_bytes
                                  ++ (min_datagram_size_label
                                      ++ (p.of_size s.min_datagram_size
                                          ++ (max_datagram_size_label
                                              ++ (p.of_size s.max_datagram_size
                                                  ++ (first_datagram_size_label
                                                      ++ p.of_size s.first_datagram_size))))))))))))

  -- that of `DgDestinationStats`
  abbrev pub destination_brief_str : List ℕ
  destination_brief_str = []

  -- the part with the rates
  abbrev pub rates_str : DgCatStats → List ℕ
  rates_str s =
      elapsed_secs_label
      ++ (p.of_double (elapsed_secs d s.source_stats)
          ++ (throughput_datagrams_per_sec_label
              ++ (p.of_double (throughput_datagrams_per_sec d s)
                  ++ (throughput_bytes_per_sec_label
                      ++ (p.of_double (throughput_bytes_per_sec d s)
                          ++ (mean_datagram_size_label ++ p.of_double (mean_datagram_size d s)))))))

  unfoldable pub brief_str : DgCatStats → List ℕ
  brief_str s =
      let source_str = source_brief_str s.source_stats in
      let result = add_part (buffer_brief_str s.buffer_stats) source_str in
      add_comma (add_part destination_brief_str result) ++ rates_str s
