-- ===== src/Tests/EndToEnd.antt =====
-- The ends of a copy to a file, and copies to a file from a file, from draws and from a socket.
use dg_cat.Copier.{holding}
use dg_cat.Copier.Progress.{work_left}
use dg_cat.Copier.Ends.{Reach-work_left}
use dg_cat.Copier.Notified.{Watched, Runs, still, onward, sleeps, watched}
use dg_cat.Copier.Wakes.{Runs-finishes}
use dg_cat.Queue.{waits, consumer_start_batch, start_wake, new_queue}
use dg_cat.Copier.FileToFile.{file-to-file}
use dg_cat.Copier.UdpToFile.{arrived, udp-to-file}
use dg_cat.UdpSource.{Receive, timed_out, on_receive, receive, new_receiver}
use dg_cat.Copier.RandomToFile.{one_by_one, random-to-file}
use dg_cat.RandomSource.{Draw, Generator, fill, generate, after_draw, random_hex_digit}
use dg_cat.RandomSource.Generated.{IsDraw}
use dg_cat.Stats.{new_source_stats}
use dg_cat.Wire.Splits.{encode, encode-Splits}
use dg_cat.Stats.{zero_time}
use dg_cat.FileSource.{
  Event, chunk, at_eof, new_reader, slots_of, copy_to_buffer_queue, round, parse, after_commit,
}
use dg_cat.Common.{
  some, ◌++◌, ℕ, ◌+◌, ◌≡◌, refl, subst, false, List, [], ◌∷◌, arith, replicate, sym, inl, inr, min,
  ◌<◌, ◌⊎◌,
}
use dg_cat.Stats.{new_buffer_stats}
use dg_cat.Queue.Commit.{Mmsghdr}
use dg_cat.Queue.Commit.Append.{stream}
use dg_cat.Copier.{ended, finished, System, Step, Reach}
use dg_cat.Copier.Delivery.{initial}
use dg_cat.Tests.{little_endian}
use dg_cat.Tests.Copies.{
  begin, read_message, read-IsMessage, batches, whole_batch, at_start, at_end, takes, to_start,
  whole_run,
}

-- The destination's thread waits for the first byte.
waits_first : consumer_start_batch begin.queue 1 8 ≡ waits
unfolding consumer_start_batch start_wake new_queue
waits_first = refl

Runs-finishes_example :
    (v : Watched) × Runs little_endian 8
      (record (watched begin) { asleep = some begin.queue.notified })
      v
    × ((lost : List Mmsghdr) × (v.system.producer ≡ ended lost))
    × (v.system.consumer ≡ finished)
Runs-finishes_example =
    Runs-finishes little_endian 8 16 new_buffer_stats batches (omega arith) (omega arith)
      (omega arith) (read-IsMessage, tt) (onward still (sleeps refl refl waits_first)) (λ h. cc)

holding_batch : System
holding_batch = record at_start { consumer = holding whole_batch }

Reach-work_left_example :
    (holding_batch ≡ at_start) ⊎ (work_left holding_batch < work_left at_start)
unfolding holding_batch
Reach-work_left_example =
    Reach-work_left little_endian 8 16 new_buffer_stats batches (omega arith) (omega arith)
      (omega arith) (read-IsMessage, tt) to_start (Step.start whole_batch refl takes)

-- The source reads the frame from a file, in one `read`.
abbrev pub frame_file : List ℕ
frame_file = encode ((55 ∷ 56 ∷ 57 ∷ []) ∷ [])

abbrev pub reads : List Event
reads = chunk 99 zero_time 0 ∷ chunk 99 zero_time 0 ∷ []

pub reads_all :
    let o = copy_to_buffer_queue little_endian (slots_of 16) reads (new_reader 16) frame_file in
    (o.stop ≡ at_eof) × (o.batches ≡ batches)
unfolding copy_to_buffer_queue round parse after_commit
reads_all = (refl, refl)

file-to-file_example : 0 ∷ 0 ∷ 0 ∷ 3 ∷ 55 ∷ 56 ∷ 57 ∷ [] ≡ encode ((55 ∷ 56 ∷ 57 ∷ []) ∷ [])
file-to-file_example =
    file-to-file little_endian 16 8 16 new_buffer_stats frame_file ((55 ∷ 56 ∷ 57 ∷ []) ∷ []) []
      reads (omega arith, refl) (encode-Splits ((55 ∷ 56 ∷ 57 ∷ []) ∷ []) (omega arith, tt))
      (inl (omega arith)) (omega arith, omega arith) (omega arith, tt) (omega arith) (omega arith)
      (omega arith) reads_all.0
      (subst
        (λ bs.
          Reach little_endian 8 (initial 16 new_buffer_stats bs)
            (at_end (0 ∷ 0 ∷ 0 ∷ 3 ∷ 55 ∷ 56 ∷ 57 ∷ []) 0))
        (sym reads_all.1) whole_run)
      refl refl refl

-- Draws of three hexadecimal digits, of which one is asked for.
abbrev draw : Draw
draw = record {
  force_eof = false;
  size = 3;
  digits = λ i. min (7 + i) 15;
  now = zero_time;
  clock = 0;
}

draw-IsDraw : IsDraw draw
draw-IsDraw = record { going = refl; short = omega arith; digit = λ i. omega arith }

abbrev fresh : Generator
fresh = record {
  buffer = replicate 12 0;
  n_datagrams = 0;
  start_time = zero_time;
  start_clock_time = 0;
  stats = new_source_stats;
}

draws_all : one_by_one (generate 1 (draw ∷ draw ∷ []) fresh).sent ≡ batches
unfolding generate after_draw fill random_hex_digit
draws_all = refl

random-to-file_example : 0 ∷ 0 ∷ 0 ∷ 3 ∷ 55 ∷ 56 ∷ 57 ∷ [] ≡ encode ((55 ∷ 56 ∷ 57 ∷ []) ∷ [])
unfolding random_hex_digit
random-to-file_example =
    random-to-file little_endian 8 16 1 new_buffer_stats (draw ∷ draw ∷ []) fresh
      (draw-IsDraw, (draw-IsDraw, tt)) (omega arith) (omega arith) refl (omega arith)
      (omega arith, (omega arith, tt)) (omega arith) (omega arith) (omega arith)
      (subst
        (λ bs.
          Reach little_endian 8 (initial 16 new_buffer_stats bs)
            (at_end (0 ∷ 0 ∷ 0 ∷ 3 ∷ 55 ∷ 56 ∷ 57 ∷ []) 0))
        (sym draws_all) whole_run)
      refl refl refl

-- The message comes behind an interruption, and then nothing for too long.
abbrev pub arrivals : List Receive
arrivals = Receive.interrupted ∷ Receive.received (read_message ∷ []) zero_time 0 ∷ []

pub receives_all :
    (receive zero_time zero_time (arrivals ++ (timed_out ∷ [])) new_receiver).batches ≡ batches
unfolding receive on_receive
receives_all = refl

udp-to-file_example : 0 ∷ 0 ∷ 0 ∷ 3 ∷ 55 ∷ 56 ∷ 57 ∷ [] ≡ stream (arrived arrivals)
udp-to-file_example =
    udp-to-file little_endian 8 16 new_buffer_stats zero_time zero_time arrivals [] new_receiver
      (tt, (tt, tt)) (read-IsMessage, tt) (inr (omega arith), tt) (omega arith) (omega arith)
      (omega arith)
      (subst
        (λ bs.
          Reach little_endian 8 (initial 16 new_buffer_stats bs)
            (at_end (0 ∷ 0 ∷ 0 ∷ 3 ∷ 55 ∷ 56 ∷ 57 ∷ []) 0))
        (sym receives_all) whole_run)
      refl refl refl
