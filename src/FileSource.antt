-- ===== src/FileSource.antt =====
-- `FileDatagramSource::copy_to_buffer_queue` of include/dg_cat/file_datagram_source.hpp. What the
-- file descriptor gives is a stream of bytes and a schedule: how many bytes each `read` returns at
-- most, and where it is interrupted or fails.
pub mod Parse
pub mod Spec
pub mod Buffer
pub mod Filled
pub mod Rounds
pub mod Run
pub mod Kept
use dg_cat.Common.{
  ℕ, zero, suc, ◌+◌, ◌-◌, ◌/◌, ◌<◌, ◌≤◌, Bool, true, false, List, [], ◌∷◌, ◌++◌, Option, none, some,
  min, max, length, take, drop, slice, blit, replicate, ltb, leb, ◌==◌, if◌then◌else◌, add_size,
  sub_size,
}
use dg_cat.Wire.{Endian, prefix_len}
use dg_cat.Timespec.{Timespec}
use dg_cat.Stats.{DgSourceStats, new_source_stats, zero_time}
use dg_cat.Queue.Commit.{Mmsghdr, MsgFlags}

-- The flags of `_msgs` are never written: the vector's entries are zero.
abbrev pub no_flags : MsgFlags
no_flags = record { oob = false; errqueue = false; trunc = false }

-- What the inner loop leaves: the messages of the batch, `i_next_datagram`, and the length that it
-- wrote last to an entry of `_iovs` past the batch.
pub record Parsed : Type 0 where
  pub msgs : List Mmsghdr
  pub next : ℕ
  pub pending : ℕ

abbrev pub prepend : Mmsghdr → Option Parsed → Option Parsed
prepend m none = none
prepend m (some p) = some (record p { msgs = m ∷ p.msgs })

module _ (e : Endian) (slots : ℕ) where
  -- The inner loop from `i_next_datagram = i` with `k` messages in the batch; `none` is a write past
  -- the `slots` entries of `_iovs` and `_msgs`. Each round is counted off `fuel`, see `Parse`.
  unfoldable pub parse : ℕ → List ℕ → ℕ → ℕ → ℕ → Option Parsed
  parse zero buffer n_read i k = none
  parse (suc fuel) buffer n_read i k = elim (ltb i n_read) [
    | false ↦ some (record { msgs = []; next = i; pending = 0 })
    | true ↦ elim (leb slots k) [
      | true ↦ none
      | false ↦
          let nb_datagram = e.ntohl (e.load (slice buffer i prefix_len)) in
          elim (ltb n_read (i + prefix_len + nb_datagram)) [
            | true ↦ some (record { msgs = []; next = i; pending = nb_datagram })
            | false ↦
                prepend
                  (record {
                    msg_len = nb_datagram;
                    msg_flags = no_flags;
                    iov_base = drop (i + prefix_len) buffer;
                  })
                  (parse fuel buffer n_read (i + prefix_len + nb_datagram) (k + 1))
          ]
    ]
  ]

-- The locals of `copy_to_buffer_queue`, the buffer, and the shared statistics.
pub record Reader : Type 0 where
  pub buffer : List ℕ
  pub n_read : ℕ
  pub n_min : ℕ
  pub n_datagrams : ℕ
  pub start_time : Timespec
  pub start_clock_time : ℕ
  pub stats : DgSourceStats

-- The state at the head of the loop, given `config.max_read_size`.
abbrev pub new_reader : ℕ → Reader
new_reader max_read_size = record {
  buffer = replicate max_read_size 0;
  n_read = 0;
  n_min = prefix_len;
  n_datagrams = 0;
  start_time = zero_time;
  start_clock_time = 0;
  stats = new_source_stats;
}

-- the number of entries of `_iovs` and `_msgs`
abbrev pub slots_of : ℕ → ℕ
slots_of max_read_size = max_read_size / prefix_len

-- One call of `read`: it gives at most `k + 1` bytes (and none at the end of the stream), with the
-- two clocks as they stand afterwards; or it fails with EINTR, with EBADF (with `_force_eof` as it
-- stands), or with another error.
pub data Event : Type 0 where
  chunk : (k : ℕ) (now : Timespec) (clock : ℕ) → Event
  interrupted : Event
  bad_handle : (force_eof : Bool) → Event
  broken : Event

-- What a round of the loop comes to. `commits` is the call of `producer_commit_batch`, with the
-- state behind it; `overruns` is the write past `_iovs`.
pub data Round : Type 0 where
  again : Reader → Round
  commits : List Mmsghdr → Reader → Round
  ends : Round
  forced : Round
  throws : Round
  overruns : Round

-- `_buffer.resize(n_min)` if that is more
abbrev pub grow : List ℕ → ℕ → List ℕ
grow buffer n_min =
    if ltb (length buffer) n_min then buffer ++ replicate (n_min - length buffer) 0 else buffer

-- from the call of `producer_commit_batch` to the end of the loop's body
unfoldable pub after_commit : Reader → Parsed → Timespec → ℕ → Reader
after_commit r p now clock =
    let start_time = if r.n_datagrams == 0 then now else r.start_time in
    let start_clock_time = if r.n_datagrams == 0 then clock else r.start_clock_time in
    record {
      buffer =
          if ltb p.next r.n_read
          then blit r.buffer 0 (slice r.buffer p.next (r.n_read - p.next))
          else r.buffer;
      n_read = if ltb p.next r.n_read then r.n_read - p.next else 0;
      n_min = prefix_len;
      n_datagrams = add_size r.n_datagrams (length p.msgs);
      start_time = start_time;
      start_clock_time = start_clock_time;
      stats = record {
        max_clump_size = max r.stats.max_clump_size (length p.msgs);
        start_clock_time = start_clock_time;
        start_time = start_time;
        end_time = now;
      };
    }

-- the batch that the inner loop found, or the larger `n_min`
settle : Reader → Timespec → ℕ → Parsed → List Mmsghdr → Round
settle r now clock p [] = again (record r { n_min = p.pending + prefix_len })
settle r now clock p (m ∷ ms) = commits (m ∷ ms) (after_commit r p now clock)

unfoldable pub on_parsed : Reader → Timespec → ℕ → Option Parsed → Round
unfolding settle
on_parsed r now clock none = overruns
on_parsed r now clock (some p) = settle r now clock p p.msgs

module _ (e : Endian) (slots : ℕ) where
  -- the body of the loop behind `read`, which gave the bytes `bs`
  unfoldable pub on_bytes : Reader → Timespec → ℕ → List ℕ → Round
  unfolding on_parsed
  on_bytes r now clock [] = ends
  on_bytes r now clock (b ∷ bs) =
      let n_read = r.n_read + length (b ∷ bs) in
      let r' : Reader = record r { buffer = blit r.buffer r.n_read (b ∷ bs); n_read = n_read } in
      if ltb n_read r.n_min
      then again r'
      else on_parsed r' now clock (parse e slots (n_read + 1) r'.buffer n_read 0 0)

  -- A round, with what is left of the stream.
  unfoldable pub round : Reader → List ℕ → Event → Round × List ℕ
  unfolding on_bytes
  round r stream (chunk k now clock) =
      let r' : Reader = record r { buffer = grow r.buffer r.n_min } in
      let nb1 = min (k + 1) (length r'.buffer - r'.n_read) in
      (on_bytes r' now clock (take nb1 stream), drop nb1 stream)
  round r stream interrupted = (again (record r { buffer = grow r.buffer r.n_min }), stream)
  round r stream (bad_handle true) = (forced, stream)
  round r stream (bad_handle false) = (throws, stream)
  round r stream broken = (throws, stream)

-- How a run of the loop stops: `running` is a schedule that is used up.
pub data Stop : Type 0 where
  running at_eof at_force thrown overrun : Stop

-- The batches that were committed, how the run stopped, and the bytes that were left in the buffer.
pub record Outcome : Type 0 where
  pub batches : List (List Mmsghdr)
  pub stop : Stop
  pub left : List ℕ

abbrev stopped : Stop → Reader → Outcome
stopped s r = record { batches = []; stop = s; left = slice r.buffer 0 r.n_read }

-- what a round means for the run, where `later` is the rest of the run
unfoldable pub go_on : (Reader → List ℕ → Outcome) → Reader → Round × List ℕ → Outcome
go_on later r (again r', stream) = later r' stream
go_on later r (commits ms r', stream) =
    let rest = later r' stream in record rest { batches = ms ∷ rest.batches }
go_on later r (ends, stream) = stopped at_eof r
go_on later r (forced, stream) = stopped at_force r
go_on later r (throws, stream) = stopped thrown r
go_on later r (overruns, stream) = stopped overrun r

module _ (e : Endian) (slots : ℕ) where
  -- The loop over a schedule, where every call of `producer_commit_batch` returns.
  unfoldable pub copy_to_buffer_queue : List Event → Reader → List ℕ → Outcome
  unfolding go_on
  copy_to_buffer_queue [] r stream = stopped running r
  copy_to_buffer_queue (ev ∷ evs) r stream =
      go_on (copy_to_buffer_queue evs) r (round e slots r stream ev)
