-- ===== src/UdpDestination.antt =====
-- The loop of `UdpDatagramDestination::copy_from_buffer_queue` in
-- include/dg_cat/udp_datagram_destination.hpp: one datagram for each round. The pauses for
-- `max_datagram_rate` change no state of the queue; they stand by themselves in UdpDestination/Pace.
pub mod Frames
pub mod Runs
pub mod Faults
pub mod Relay
pub mod Pace
use dg_cat.Common.{
  [], ◌∷◌, ◌++◌, ℕ, ◌+◌, ◌-◌, Bool, true, false, List, Option, none, some, take, ltb, if◌then◌else◌,
  add_size, size_mod,
}
use dg_cat.Wire.{Endian, prefix_len}
use dg_cat.Batch.{ConsumerBatch, copy_and_remove_bytes, limit_size, gather}
use dg_cat.Queue.{
  BufferQueue, Error, Result, ok, err, Waited, ready, waits, throws, consumer_start_batch,
  consumer_commit_batch,
}

-- What the code does with a batch: it leaves the loop, asks for more bytes from now on, gets the
-- exception of `copy_and_remove_bytes`, or sends the bytes and then frees as many as said.
pub data Send : Type 0 where
  leaves : Send
  asks : ℕ → Send
  refuses : Send
  sends : List ℕ → ℕ → Send

-- How `sendmsg` ends: ECONNREFUSED is ignored.
pub data SendResult : Type 0 where
  sent connection_refused send_failed : SendResult

-- What a round comes to: what it gave to `sendmsg`, with `n_min` and the queue for the next one, or
-- the end.
pub data SendRound : Type 0 where
  goes_on : List (List ℕ) → ℕ → BufferQueue → SendRound
  blocks : SendRound
  returns : SendRound
  raises : SendRound

-- the default of `n_max`
abbrev pub size_max : ℕ
size_max = size_mod - 1

module _ (e : Endian) where
  -- from `copy_and_remove_bytes` to `limit_size`, with the batch that is left of the prefix
  unfoldable pub send_rest : List ℕ → Option (List ℕ × ConsumerBatch) → Send
  send_rest mem none = refuses
  send_rest mem (some (nbo_prefix, b)) =
      let nb_datagram = e.ntohl (e.load (take prefix_len nbo_prefix)) in
      if ltb b.n nb_datagram
      then asks (nb_datagram + prefix_len)
      else (let limited = limit_size b nb_datagram in
          sends (gather mem limited) (add_size limited.n prefix_len))

  unfoldable pub send_batch : List ℕ → ℕ → ConsumerBatch → Send
  unfolding send_rest
  send_batch mem n_min b =
      if ltb b.n n_min then leaves else send_rest mem (copy_and_remove_bytes mem b prefix_len)

  -- `consumer_commit_batch` behind `sendmsg`
  abbrev pub after_free : List ℕ → ℕ → Result BufferQueue → SendRound
  after_free bs n_min (ok q) = goes_on (bs ∷ []) n_min q
  after_free bs n_min (err x) = raises

  abbrev pub after_send : BufferQueue → ℕ → SendResult → Send → SendRound
  after_send q n_min result leaves = returns
  after_send q n_min result (asks k) = goes_on [] k q
  after_send q n_min result refuses = raises
  after_send q n_min sent (sends bs k) = after_free bs n_min (consumer_commit_batch q k)
  after_send q n_min connection_refused (sends bs k) =
      after_free bs n_min (consumer_commit_batch q k)
  after_send q n_min send_failed (sends bs k) = raises

  abbrev pub after_start : BufferQueue → ℕ → SendResult → Waited ConsumerBatch → SendRound
  after_start q n_min result (ready b) = after_send q n_min result (send_batch q.cells n_min b)
  after_start q n_min result waits = blocks
  after_start q n_min result (throws x) = raises

  unfoldable pub send_round : BufferQueue → ℕ → SendResult → SendRound
  unfolding send_batch
  send_round q n_min result = after_start q n_min result (consumer_start_batch q n_min size_max)

-- How a run of the loop stops: `sending` is a list of results that is used up.
pub data Stop : Type 0 where
  sending : Stop
  at_eof : Stop
  waiting : Stop
  thrown : Stop

-- The datagrams that were given to `sendmsg`, and the queue at the end.
pub record Sent : Type 0 where
  pub datagrams : List (List ℕ)
  pub stop : Stop
  pub queue : BufferQueue

abbrev stopped : Stop → BufferQueue → Sent
stopped s q = record { datagrams = []; stop = s; queue = q }

-- what a round means for the run, where `later` is the rest of the run
unfoldable pub after_round : (BufferQueue → ℕ → Sent) → BufferQueue → SendRound → Sent
after_round later q (goes_on bs n_min q') =
    let rest = later q' n_min in record rest { datagrams = bs ++ rest.datagrams }
after_round later q blocks = stopped waiting q
after_round later q returns = stopped at_eof q
after_round later q raises = stopped thrown q

-- The loop over a list of results of `sendmsg`, one for each round; the loop starts with
-- `prefix_len` for `n_min`.
module _ (e : Endian) where
  unfoldable pub send_loop : List SendResult → BufferQueue → ℕ → Sent
  send_loop [] q n_min = stopped sending q
  send_loop (result ∷ results) q n_min =
      after_round (send_loop results) q (send_round e q n_min result)
