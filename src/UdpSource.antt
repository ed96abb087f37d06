-- ===== src/UdpSource.antt =====
-- The loop of `UdpDatagramSource::copy_to_buffer_queue` in include/dg_cat/udp_datagram_source.hpp.
-- What `recvmmsg` returns, and the two time limits as `timespec` values, are arguments.
pub mod Received
pub mod Buffers
pub mod Memory
use dg_cat.Common.{
  ℕ, ◌+◌, Bool, true, false, List, [], ◌∷◌, ◌++◌, Option, none, some, max, length, ◌==◌,
  if◌then◌else◌, add_size, sub_size,
}
use dg_cat.Timespec.{Timespec}
use dg_cat.Stats.{DgSourceStats, new_source_stats, zero_time}
use dg_cat.Queue.Commit.{Mmsghdr}

-- Which of the two time limits `current_timeout` points to.
pub data Limit : Type 0 where
  first_dg next_dg : Limit

-- One call of `recvmmsg`: the datagrams, with the clocks as they stand afterwards, or an error:
-- EAGAIN, a bad handle (with `_force_eof` as it stands), EINTR, or another.
pub data Receive : Type 0 where
  received : (ms : List Mmsghdr) (now : Timespec) (clock : ℕ) → Receive
  timed_out : Receive
  bad_handle : (force_eof : Bool) → Receive
  interrupted : Receive
  failed : Receive

-- The locals of the loop, the time limit of the socket, and the shared statistics.
pub record Receiver : Type 0 where
  pub n_datagrams : ℕ
  pub current_timeout : Option Limit
  pub rcvtimeo : Timespec
  pub start_time : Timespec
  pub start_clock_time : ℕ
  pub stats : DgSourceStats

abbrev pub new_receiver : Receiver
new_receiver = record {
  n_datagrams = 0;
  current_timeout = none;
  rcvtimeo = zero_time;
  start_time = zero_time;
  start_clock_time = 0;
  stats = new_source_stats;
}

abbrev same_limit : Option Limit → Limit → Bool
same_limit (some Limit.first_dg) Limit.first_dg = true
same_limit (some Limit.next_dg) Limit.next_dg = true
same_limit _ _ = false

-- How a run stops: `receiving` is a schedule that is used up.
pub data Stop : Type 0 where
  receiving at_timeout at_force thrown : Stop

-- The batches committed, the time limits that were set at the calls of `recvmmsg`, and the end.
pub record Run : Type 0 where
  pub batches : List (List Mmsghdr)
  pub limits : List Timespec
  pub stop : Stop
  pub last : Receiver

module _ (first_dg_timespec dg_timespec : Timespec) where
  abbrev pub limit_of : Limit → Timespec
  limit_of Limit.first_dg = first_dg_timespec
  limit_of Limit.next_dg = dg_timespec

  -- the choice of the time limit, and `setsockopt` if it is another than before
  unfoldable pub set_limit : Receiver → Receiver
  set_limit r =
      let timeout = if r.n_datagrams == 0 then Limit.first_dg else Limit.next_dg in
      if same_limit r.current_timeout timeout
      then r
      else record r { current_timeout = some timeout; rcvtimeo = limit_of timeout }

  -- from `clock_gettime` to the end of the loop's body
  unfoldable pub after_receive : Receiver → List Mmsghdr → Timespec → ℕ → Receiver
  after_receive r ms now clock =
      let start_time = if r.n_datagrams == 0 then now else r.start_time in
      let start_clock_time = if r.n_datagrams == 0 then clock else r.start_clock_time in
      let n_datagrams = add_size r.n_datagrams (length ms) in
      record r {
        n_datagrams = n_datagrams;
        start_time = start_time;
        start_clock_time = start_clock_time;
        stats = record {
          max_clump_size = max r.stats.max_clump_size (sub_size n_datagrams r.n_datagrams);
          start_clock_time = start_clock_time;
          start_time = start_time;
          end_time = now;
        };
      }

  abbrev stopped : Stop → Receiver → Run
  stopped s r = record { batches = []; limits = []; stop = s; last = r }

  -- what a call of `recvmmsg` means for the run, where `later` is the rest of the run
  unfoldable pub on_receive : (Receiver → Run) → Receiver → Receive → Run
  on_receive later r (received [] now clock) = stopped at_timeout r
  on_receive later r (received (m ∷ ms) now clock) =
      let rest = later (after_receive r (m ∷ ms) now clock) in
      record rest { batches = (m ∷ ms) ∷ rest.batches }
  on_receive later r timed_out = stopped at_timeout r
  on_receive later r (bad_handle true) = stopped at_force r
  on_receive later r (bad_handle false) = stopped thrown r
  on_receive later r interrupted = later r
  on_receive later r failed = stopped thrown r

  -- The loop over a schedule, where every call of `producer_commit_batch` returns.
  unfoldable pub receive : List Receive → Receiver → Run
  receive [] r = stopped receiving r
  receive (ev ∷ evs) r =
      let r' = set_limit r in
      let run = on_receive (receive evs) r' ev in record run { limits = r'.rcvtimeo ∷ run.limits }
