-- ===== src/Tests/Endpoints.antt =====
-- The theorems on the UDP destination, the other sources, closing and the configuration, each at one
-- input.
use dg_cat.Common.{
  concat, ℕ, ◌+◌, ◌-◌, ◌*◌, ◌≤◌, ◌≡◌, refl, true, false, List, [], ◌∷◌, ◌++◌, Option, none, some,
  arith, length, ltb, if◌then◌else◌, replicate, ◌||◌,
}
use dg_cat.Common.Int.{pos}
use dg_cat.Timespec.{Timespec}
use dg_cat.Stats.{new_buffer_stats, new_source_stats, zero_time}
use dg_cat.Queue.{BufferQueue}
use dg_cat.Queue.Window.{contents, IsValid}
use dg_cat.UdpDestination.Pace.{wait_until, send_times, send_times-rate}
use dg_cat.UdpDestination.Runs.{send_loop-encode}
use dg_cat.UdpDestination.Faults.{send_loop-spins}
use dg_cat.UdpDestination.{sending, at_eof, send_loop, connection_refused, sent}
use dg_cat.RandomSource.{Draw, Generator}
use dg_cat.RandomSource.Generated.{IsDraw}
use dg_cat.RandomSource.Args.{key_n, key_seed}
use dg_cat.UdpSource.{Receive, received, timed_out, interrupted, receive, new_receiver}
use dg_cat.UdpSource.Received.{largest, receive-counts}
use dg_cat.Handle.{opened}
use dg_cat.Handle.Once.{closes, forces, calls, calls_lem}
use dg_cat.Paths.{
  udp_scheme, any_address, char_colon, Endpoint, create_source, create_destination, source_address,
  destination_address,
}
use dg_cat.Paths.Named.{udp_address_lem}
use dg_cat.Tests.{little_endian, small_message, large_message, bad_message}

abbrev prefix : List ℕ
prefix = 0 ∷ 0 ∷ 0 ∷ 3 ∷ []

-- The ring with `n` bytes from `index` on, behind the end of file.
abbrev closed_ring : ℕ → ℕ → List ℕ → BufferQueue
closed_ring index n cells = record {
  max_n = 16;
  cells = cells;
  producer_index = if ltb (index + n) 16 then index + n else index + n - 16;
  consumer_index = index;
  stats = new_buffer_stats;
  shared_stats = new_buffer_stats;
  n = n;
  is_eof = true;
  notified = 0;
}

abbrev closed_frame : ℕ → BufferQueue
closed_frame n =
    closed_ring 5 n (0 ∷ 0 ∷ 0 ∷ 0 ∷ 0 ∷ 0 ∷ 0 ∷ 0 ∷ 3 ∷ 7 ∷ 8 ∷ 9 ∷ 0 ∷ 0 ∷ 0 ∷ 0 ∷ [])

closed_frame-IsValid : (n : ℕ) → n ≤ 11 → IsValid (closed_frame n)
closed_frame-IsValid n h = record {
  positive = omega arith;
  small = omega arith;
  storage = refl;
  consumer_in = omega arith;
  fill = omega arith;
  producer_at = ground arith;
}

send_loop-encode_example :
    let s = send_loop little_endian (connection_refused ∷ sent ∷ []) (closed_frame 7) 4 in
    (s.datagrams ≡ (7 ∷ 8 ∷ 9 ∷ []) ∷ []) × (s.stop ≡ at_eof) × (contents s.queue ≡ [])
send_loop-encode_example =
    send_loop-encode little_endian ((7 ∷ 8 ∷ 9 ∷ []) ∷ []) (connection_refused ∷ sent ∷ [])
      (closed_frame 7) (closed_frame-IsValid 7 (omega arith)) refl (omega arith) refl
      (omega arith, tt) (omega arith, tt) ((λ h. cc), ((λ h. cc), tt)) (omega arith)

-- A frame whose prefix has two bytes before the end of the ring, and one with `n` bytes.
abbrev bent_ring : ℕ → BufferQueue
bent_ring n = closed_ring 14 n (0 ∷ 3 ∷ 7 ∷ 8 ∷ 9 ∷ 0 ∷ 0 ∷ 0 ∷ 0 ∷ 0 ∷ 0 ∷ 0 ∷ 0 ∷ 0 ∷ 0 ∷ 0 ∷ [])

bent_ring-IsValid : (n : ℕ) → 4 ≤ n → n ≤ 16 → IsValid (bent_ring n)
bent_ring-IsValid n h k = record {
  positive = omega arith;
  small = omega arith;
  storage = refl;
  consumer_in = omega arith;
  fill = omega arith;
  producer_at = ground arith;
}

send_loop-spins_example :
    let s = send_loop little_endian (sent ∷ sent ∷ []) (bent_ring 7) 4 in
    (s.datagrams ≡ []) × (s.stop ≡ sending) × (s.queue ≡ bent_ring 7)
send_loop-spins_example =
    send_loop-spins little_endian (bent_ring 7) prefix (7 ∷ 8 ∷ 9 ∷ [])
      (bent_ring-IsValid 7 (omega arith) (omega arith)) refl refl (omega arith) (omega arith)
      (sent ∷ sent ∷ []) 4 refl (omega arith)

abbrev draw : Draw
draw = record { force_eof = false; size = 2; digits = λ i. 11; now = zero_time; clock = 0 }

draw-IsDraw : IsDraw draw
draw-IsDraw = record { going = refl; short = omega arith; digit = λ i. omega arith }

abbrev fresh : Generator
fresh = record {
  buffer = replicate 4 0;
  n_datagrams = 0;
  start_time = zero_time;
  start_clock_time = 0;
  stats = new_source_stats;
}

-- decimal digits, read from the left
abbrev decimal : ℕ → List ℕ → Option ℕ
decimal k [] = some k
decimal k (c ∷ cs) = if ltb c 48 || ltb 57 c then none else decimal (k * 10 + (c - 48)) cs

-- `n=25` and `seed=7`
abbrev two_args : List (List ℕ × List ℕ)
two_args = (key_n, 50 ∷ 53 ∷ []) ∷ (key_seed, 55 ∷ []) ∷ []

-- A start limit of 5 s and a later one of 1 s.
abbrev five : Timespec
five = record { tv_sec = pos 5; tv_nsec = pos 0 }

abbrev one : Timespec
one = record { tv_sec = pos 1; tv_nsec = pos 0 }

abbrev schedule : List Receive
schedule =
    interrupted
    ∷ received (small_message ∷ bad_message ∷ []) zero_time 0
    ∷ received (large_message ∷ []) zero_time 0
    ∷ timed_out
    ∷ []

receive-counts_example :
    let run = receive five one schedule new_receiver in
    (run.last.n_datagrams ≡ length (concat run.batches))
    × (run.last.stats.max_clump_size ≡ largest run.batches)
receive-counts_example = receive-counts five one schedule (omega arith)

calls_example :
    calls (opened 3) (closes ∷ forces ∷ closes ∷ [])
    ≡ record { fd = none; closed = true; force_eof = true; released = 3 ∷ []; notified = 1 }
calls_example = calls_lem 3 closes (forces ∷ closes ∷ [])

-- `udp://::1:80`
udp_address_example :
    let path = udp_scheme ++ ((58 ∷ 58 ∷ 49 ∷ []) ++ (char_colon ∷ 56 ∷ 48 ∷ [])) in
    let short = udp_scheme ++ (56 ∷ 48 ∷ []) in
    (create_source path ≡ Endpoint.udp)
    × (create_destination path ≡ Endpoint.udp)
    × (source_address path ≡ (58 ∷ 58 ∷ 49 ∷ [], 56 ∷ 48 ∷ []))
    × (destination_address path ≡ some (58 ∷ 58 ∷ 49 ∷ [], 56 ∷ 48 ∷ []))
    × (source_address short ≡ (any_address, 56 ∷ 48 ∷ []))
    × (destination_address short ≡ none)
udp_address_example =
    udp_address_lem (58 ∷ 58 ∷ 49 ∷ []) (56 ∷ 48 ∷ []) (omega arith, (omega arith, tt))

-- Three rounds, ten apart, the second one late.
send_times-rate_example :
    (length (send_times 10 100 ((100 ∷ []) ∷ (105 ∷ 125 ∷ []) ∷ (126 ∷ []) ∷ [])) ≡ 3)
    × (100 + 2 * 10 ≤ 130)
unfolding send_times wait_until
send_times-rate_example =
    send_times-rate 10 100 130 ((100 ∷ []) ∷ (105 ∷ 125 ∷ []) ∷ (126 ∷ []) ∷ [])
      (refl, (refl, (refl, tt)))
