-- ===== src/Tests/Forwards.antt =====
-- A kernel that receives into buffers, and a copy of one datagram from a socket to a socket.
use dg_cat.Common.{
  ℕ, ◌≡◌, refl, sym, subst, false, List, [], ◌∷◌, ◌++◌, length, take, drop, min, ltb, arith,
  length-append, length-take, length-drop,
}
use dg_cat.Stats.{new_buffer_stats, zero_time}
use dg_cat.Queue.Commit.{Mmsghdr}
use dg_cat.UdpSource.{timed_out, on_receive, receive, new_receiver}
use dg_cat.UdpSource.Buffers.{
  new_buffers, allocate, Recvmmsg, Arrival, came, signalled, receive_clump, events,
}
use dg_cat.UdpSource.Memory.{fitting}
use dg_cat.UdpDestination.Frames.{take_front}
use dg_cat.UdpCopier.{Reach, initial}
use dg_cat.UdpCopier.Forwards.{incoming, udp-forwards}
use dg_cat.Tests.{little_endian}
use dg_cat.Copier
use dg_cat.Copier.Delivery
use dg_cat.UdpCopier.Replays.{record-replay}
use dg_cat.Tests.EndToEnd.{reads, reads_all}
use dg_cat.Tests.Copies
use dg_cat.Tests.Copies.{batches}
use dg_cat.Tests.Sendings.{at_end, whole_run}

abbrev kernel_message : List ℕ → List ℕ → ℕ → Mmsghdr
kernel_message d buffer iov_len = record {
  msg_len = min (length d) iov_len;
  msg_flags = record { oob = false; errqueue = false; trunc = ltb iov_len (length d) };
  iov_base = take iov_len d ++ drop (min (length d) iov_len) buffer;
}

abbrev kernel : Recvmmsg
kernel = record {
  receive_into = kernel_message;
  len = λ d buffer iov_len room. refl;
  same_length = λ d buffer iov_len room. omega (
    arith,
    length-append (take iov_len d) (drop (min (length d) iov_len) buffer),
    length-take iov_len d,
    length-drop (min (length d) iov_len) buffer,
  );
  bytes = λ d buffer iov_len room.
      take_front (min (length d) iov_len) (take iov_len d) (drop (min (length d) iov_len) buffer)
        (omega (arith, length-take iov_len d));
  trunc = λ d buffer iov_len room. refl;
  in_band = λ d buffer iov_len room. refl;
  no_error = λ d buffer iov_len room. refl;
}

abbrev arrivals : List Arrival
arrivals = signalled ∷ came ((55 ∷ 56 ∷ 57 ∷ []) ∷ []) zero_time 0 ∷ []

receives_all :
    (receive zero_time zero_time
      (events kernel arrivals (allocate 1 12 0 (new_buffers 1)) ++ (timed_out ∷ []))
      new_receiver).batches
    ≡ batches
unfolding receive on_receive events receive_clump allocate
receives_all = refl

udp-forwards_example : at_end.sent ≡ fitting 12 (incoming arrivals)
udp-forwards_example =
    udp-forwards little_endian kernel 1 12 16 new_buffer_stats zero_time zero_time arrivals []
      new_receiver (omega arith) (omega arith) (omega arith) (tt, ((omega arith, omega arith), tt))
      (omega arith, tt)
      (subst (λ bs. Reach little_endian (initial 16 new_buffer_stats bs) at_end) (sym receives_all)
        whole_run)
      refl refl refl

-- The same datagram, copied to a file, and from there to a socket.
record-replay_example : at_end.sent ≡ fitting 12 (incoming arrivals)
record-replay_example =
    record-replay little_endian kernel 1 12 8 16 new_buffer_stats zero_time zero_time arrivals []
      new_receiver (omega arith) (omega arith) (omega arith) (omega arith)
      (tt, ((omega arith, omega arith), tt))
      (subst
        (λ bs.
          Copier.Reach little_endian 8 (Copier.Delivery.initial 16 new_buffer_stats bs)
            (Copies.at_end (0 ∷ 0 ∷ 0 ∷ 3 ∷ 55 ∷ 56 ∷ 57 ∷ []) 0))
        (sym receives_all) Copies.whole_run)
      refl refl refl little_endian 16 16 new_buffer_stats reads (omega arith, refl)
      (omega arith, omega arith) (omega arith, tt) (omega arith) (omega arith) (omega arith, tt)
      reads_all.0
      (subst (λ bs. Reach little_endian (initial 16 new_buffer_stats bs) at_end) (sym reads_all.1)
        whole_run)
      refl refl refl
