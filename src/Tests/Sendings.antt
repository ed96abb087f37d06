-- ===== src/Tests/Sendings.antt =====
-- A copy of one datagram to a UDP socket, step by step, and copies from a file and from a socket.
use dg_cat.Common.{concat, some, ℕ, ◌≡◌, refl, sym, subst, false, List, [], ◌∷◌, ◌++◌, arith, inl}
use dg_cat.Stats.{new_buffer_stats}
use dg_cat.Wire.Splits.{encode, encode-Splits}
use dg_cat.Batch.{make_batch, copy_and_remove_bytes, limit_size}
use dg_cat.Queue.{
  waits, new_queue, ready, producer_set_eof, consumer_start_batch, start_wake, get_data_locked,
}
use dg_cat.Queue.Window.{contents, IsValid}
use dg_cat.Queue.Commit.{Mmsghdr}
use dg_cat.Queue.Commit.Whole.{delivered}
use dg_cat.Copier.{ended}
use dg_cat.Copier.Invariant.{pending}
use dg_cat.UdpDestination.{leaves, sends, size_max, send_batch}
use dg_cat.UdpCopier.{starting, finished, System, settle, Step, Reach, here, next, initial}
use dg_cat.UdpCopier.Invariant.{due}
use dg_cat.UdpCopier.Delivery.{Reach-sent}
use dg_cat.UdpCopier.Notified.{Watched, Runs, still, onward, sleeps, watched}
use dg_cat.UdpCopier.Wakes.{Runs-sends}
use dg_cat.UdpCopier.Relays.{file-to-udp}
use dg_cat.Tests.{little_endian}
use dg_cat.Tests.Copies.{
  read_message, read-IsMessage, batches, closed, emptied, whole_batch, no_batch, called, frees,
}
use dg_cat.Tests.EndToEnd.{frame_file, reads, reads_all}

abbrev begin : System
begin = initial 16 new_buffer_stats batches

takes : consumer_start_batch closed 4 size_max ≡ ready whole_batch
unfolding consumer_start_batch get_data_locked make_batch
takes = refl

takes_none : consumer_start_batch emptied 4 size_max ≡ ready no_batch
unfolding consumer_start_batch start_wake get_data_locked make_batch
takes_none = refl

gives : send_batch little_endian closed.cells 4 whole_batch ≡ sends (55 ∷ 56 ∷ 57 ∷ []) 7
unfolding send_batch copy_and_remove_bytes limit_size
gives = refl

gives_none : send_batch little_endian emptied.cells 4 no_batch ≡ leaves
unfolding send_batch
gives_none = refl

-- The states behind the source's end, and at the end.
abbrev at_start : System
at_start = record {
  queue = closed;
  producer = ended [];
  sender = starting;
  n_min = 4;
  given = [];
  sent = [];
  refused = 0;
  forced = false;
}

abbrev pub at_end : System
at_end = record {
  queue = emptied;
  producer = ended [];
  sender = finished;
  n_min = 4;
  given = (55 ∷ 56 ∷ 57 ∷ []) ∷ [];
  sent = (55 ∷ 56 ∷ 57 ∷ []) ∷ [];
  refused = 0;
  forced = false;
}

to_start : Reach little_endian begin at_start
unfolding producer_set_eof
to_start =
    next
      (next
        (next here (
          subst (λ r. Step little_endian begin (settle begin r [])) called
            (Step.call (read_message ∷ []) [] refl)))
        (Step.leave refl))
      (Step.close [] refl)

pub whole_run : Reach little_endian begin at_end
whole_run =
    next
      (next
        (next
          (next (next to_start (Step.start whole_batch refl takes))
            (Step.send whole_batch (55 ∷ 56 ∷ 57 ∷ []) 7 refl gives))
          (Step.free 7 emptied refl frees))
        (Step.start no_batch refl takes_none))
      (Step.finish no_batch refl gives_none)

Reach-sent_example :
    IsValid closed
    × ((ps : List (List ℕ)) × (contents closed ≡ encode ps)
        × ([] ++ (due starting ps ++ delivered (pending (ended []))) ≡ delivered (concat batches)))
Reach-sent_example =
    Reach-sent little_endian 16 new_buffer_stats batches (omega arith) (omega arith)
      (read-IsMessage, tt) (omega arith, tt) to_start

-- The destination's thread waits for the first prefix.
waits_first : consumer_start_batch begin.queue 4 size_max ≡ waits
unfolding consumer_start_batch start_wake new_queue
waits_first = refl

Runs-sends_example :
    (v : Watched) × Runs little_endian
      (record (watched begin) { asleep = some begin.queue.notified })
      v
    × ((lost : List Mmsghdr) × (v.system.producer ≡ ended lost))
    × (v.system.sender ≡ finished)
Runs-sends_example =
    Runs-sends little_endian 16 new_buffer_stats batches (omega arith) (omega arith)
      (read-IsMessage, tt) (omega arith, tt) (onward still (sleeps refl refl waits_first)) (λ h. cc)

file-to-udp_example : at_end.sent ≡ (55 ∷ 56 ∷ 57 ∷ []) ∷ []
file-to-udp_example =
    file-to-udp little_endian 16 16 new_buffer_stats frame_file ((55 ∷ 56 ∷ 57 ∷ []) ∷ []) [] reads
      (omega arith, refl) (encode-Splits ((55 ∷ 56 ∷ 57 ∷ []) ∷ []) (omega arith, tt))
      (inl (omega arith)) (omega arith, omega arith) (omega arith, tt) (omega arith) (omega arith)
      (omega arith, tt) reads_all.0
      (subst (λ bs. Reach little_endian (initial 16 new_buffer_stats bs) at_end) (sym reads_all.1)
        whole_run)
      refl refl refl
