-- ===== src/Stats/Measured.antt =====
-- The statistics of a queue, from the sizes of the datagrams that it stored, and the rates.
use dg_cat.Common.{
  ℕ, suc, ◌+◌, ◌<◌, ◌≡◌, refl, ap, ap₂, ◌∙◌, false, List, [], ◌∷◌, length, max, min, arith,
  size_mod, ◌==◌, if◌then◌else◌,
}
use dg_cat.Timespec.{timespec_subtract}
use dg_cat.Stats.{DgBufferStats, DgSourceStats, new_buffer_stats}
use dg_cat.Stats.Rates.{
  Doubles, DgCatStats, rate, throughput_datagrams_per_sec, throughput_bytes_per_sec,
  mean_datagram_size,
}
use dg_cat.Queue.Commit.{count_datagram}

abbrev pub counted : DgBufferStats → List ℕ → DgBufferStats
counted s [] = s
counted s (len ∷ lens) = counted (count_datagram s len) lens

abbrev pub sum : List ℕ → ℕ
sum [] = 0
sum (k ∷ ks) = k + sum ks

abbrev pub largest : ℕ → List ℕ → ℕ
largest m [] = m
largest m (k ∷ ks) = largest (max m k) ks

abbrev pub smallest : ℕ → List ℕ → ℕ
smallest m [] = m
smallest m (k ∷ ks) = smallest (min m k) ks

-- The statistics behind some datagrams more, none of the counters coming to 2^64.
counted-more :
    (s : DgBufferStats) (lens : List ℕ)
    → 0 < s.n_datagrams
    → s.n_datagrams + length lens < size_mod
    → s.n_datagram_bytes + sum lens < size_mod
    → let t = counted s lens in
      (t.n_datagrams ≡ s.n_datagrams + length lens)
      × (t.n_datagram_bytes ≡ s.n_datagram_bytes + sum lens)
      × (t.first_datagram_size ≡ s.first_datagram_size)
      × (t.min_datagram_size ≡ smallest s.min_datagram_size lens)
      × (t.max_datagram_size ≡ largest s.max_datagram_size lens)
unfolding count_datagram
counted-more s [] some_ few small = (omega arith, omega arith, refl, refl, refl)
counted-more s (len ∷ lens) some_ few small =
    let later : (s.n_datagrams == 0) ≡ false = ground arith in
    let (n, bytes, first, least, most) =
      counted-more (count_datagram s len) lens (omega arith) (omega arith) (omega arith) in
    (
      omega (arith, n),
      omega (arith, bytes),
      first ∙ ground (arith, later),
      least ∙ ap (λ m. smallest m lens) (ground (arith, later)),
      most,
    )

-- What a new queue has counted behind at least one datagram: the number and the sum of the sizes,
-- the first, the least and the greatest size; neither counter comes to 2^64.
pub counted_lem :
    (len : ℕ) (lens : List ℕ)
    → suc (length lens) < size_mod
    → len + sum lens < size_mod
    → let t = counted new_buffer_stats (len ∷ lens) in
      (t.n_datagrams ≡ suc (length lens))
      × (t.n_datagram_bytes ≡ len + sum lens)
      × (t.first_datagram_size ≡ len)
      × (t.min_datagram_size ≡ smallest len lens)
      × (t.max_datagram_size ≡ largest len lens)
unfolding count_datagram
counted_lem len lens few small =
    let (n, bytes, first, least, most) =
      counted-more (count_datagram new_buffer_stats len) lens (omega arith) (omega arith)
        (omega arith) in
    (
      omega (arith, n),
      omega (arith, bytes),
      first,
      least,
      most ∙ ap (λ m. largest m lens) (omega arith),
    )

-- Behind at least one datagram, with neither counter coming to 2^64, the rates are the number and the
-- sizes of all datagrams but the first, divided by the seconds from the first to the last one, where
-- these are not zero, and zero otherwise; the mean is that of all datagrams. The seconds are those of
-- the end time less the start time, with the nanoseconds over 10^9, and zero if that is negative.
pub rates_lem :
    {D : Type 0} (d : Doubles D) (seq len : ℕ) (lens : List ℕ) (times : DgSourceStats)
    → suc (length lens) < size_mod
    → len + sum lens < size_mod
    → let s : DgCatStats = record {
      stat_seq = seq;
      source_stats = times;
      buffer_stats = counted new_buffer_stats (len ∷ lens);
    } in
      let gap = timespec_subtract times.end_time times.start_time in
      let secs =
        d.maximum
          (d.add (d.of_long gap.tv_sec) (d.divide (d.of_long gap.tv_nsec) (d.of_size 1000000000)))
          d.zero_double in
      (throughput_datagrams_per_sec d s
        ≡ (if d.is_zero secs then d.zero_double else d.divide (d.of_size (length lens)) secs))
      × (throughput_bytes_per_sec d s
          ≡ (if d.is_zero secs then d.zero_double else d.divide (d.of_size (sum lens)) secs))
      × (mean_datagram_size d s
          ≡ d.divide (d.of_size (len + sum lens)) (d.of_size (suc (length lens))))
unfolding throughput_datagrams_per_sec throughput_bytes_per_sec mean_datagram_size
rates_lem d seq len lens times few small =
    let (n, bytes, first, least, most) = counted_lem len lens few small in
    let t = counted new_buffer_stats (len ∷ lens) in
    let later : (t.n_datagrams == 0) ≡ false = ground (arith, n) in
    (
      ap (rate d times) (omega (arith, n)),
      ap (rate d times) (omega (arith, bytes, first)),
      rw later (ap₂ (λ a b. d.divide (d.of_size a) (d.of_size b)) bytes n),
    )
