-- ===== src/RandomSource.antt =====
-- The loop of `RandomDatagramSource::copy_to_buffer_queue` in
-- include/dg_cat/random_datagram_source.hpp. The random numbers and the clocks of a round are an
-- argument.
pub mod Args
pub mod Generated
pub mod Made
use dg_cat.Common.{
  ℕ, ◌+◌, ◌%◌, ◌^◌, ◌-◌, Bool, true, false, ◌&&◌, not, List, [], ◌∷◌, ◌++◌, length, drop, replicate,
  tabulate, ltb, leb, ◌==◌, if◌then◌else◌, add_size,
}
use dg_cat.Timespec.{Timespec}
use dg_cat.Stats.{DgSourceStats}
use dg_cat.Queue.Commit.{Mmsghdr, MsgFlags}

-- What a round takes from outside: `_force_eof` as it stands, the values of the two distributions,
-- and the clocks.
pub record Draw : Type 0 where
  pub force_eof : Bool
  pub size : ℕ
  pub digits : ℕ → ℕ
  pub now : Timespec
  pub clock : ℕ

-- the characters '0' and 'a'
abbrev pub char_0 : ℕ
char_0 = 48

abbrev pub char_a : ℕ
char_a = 97

unfoldable pub random_hex_digit : ℕ → ℕ
random_hex_digit dig = if ltb dig 10 then char_0 + dig else char_a + dig - 10

-- The locals of the loop, the buffer, and the shared statistics.
pub record Generator : Type 0 where
  pub buffer : List ℕ
  pub n_datagrams : ℕ
  pub start_time : Timespec
  pub start_clock_time : ℕ
  pub stats : DgSourceStats

-- `_buffer.resize(dg_size)` if that is more, then the first `dg_size` characters
unfoldable pub fill : List ℕ → ℕ → (ℕ → ℕ) → List ℕ
fill buffer dg_size digits =
    tabulate dg_size (λ i. random_hex_digit (digits i)) ++ drop dg_size buffer

abbrev pub generated : List ℕ → Draw → Mmsghdr
generated buffer d = record {
  msg_len = d.size % 2 ^ 32;
  msg_flags = record { oob = false; errqueue = false; trunc = false };
  iov_base = buffer;
}

-- from `clock_gettime` to the end of the loop's body
unfoldable pub after_draw : Generator → Draw → Generator
after_draw g d =
    let start_time = if g.n_datagrams == 0 then d.now else g.start_time in
    let start_clock_time = if g.n_datagrams == 0 then d.clock else g.start_clock_time in
    record {
      buffer = fill g.buffer d.size d.digits;
      n_datagrams = add_size g.n_datagrams 1;
      start_time = start_time;
      start_clock_time = start_clock_time;
      stats = record {
        max_clump_size = 1;
        start_clock_time = start_clock_time;
        start_time = start_time;
        end_time = d.now;
      };
    }

-- How a run stops: `drawing` is a schedule that is used up.
pub data Stop : Type 0 where
  drawing all_generated forced : Stop

pub record Run : Type 0 where
  pub sent : List Mmsghdr
  pub stop : Stop
  pub last : Generator

-- The loop over a schedule of rounds, where every call of `producer_commit_batch` returns.
unfoldable pub generate : ℕ → List Draw → Generator → Run
generate n_to_generate [] g = record { sent = []; stop = drawing; last = g }
generate n_to_generate (d ∷ ds) g =
    let g' = after_draw g d in
    let rest = generate n_to_generate ds g' in
    if not (n_to_generate == 0) && leb n_to_generate g.n_datagrams
    then record { sent = []; stop = all_generated; last = g }
    else if d.force_eof
    then record { sent = []; stop = forced; last = g }
    else record rest { sent = generated g'.buffer d ∷ rest.sent }
