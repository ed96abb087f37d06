-- ===== src/UdpCopier/Replays.antt =====
-- Two copies, of a UDP socket to a file and later of that file to a UDP socket, perhaps on machines
-- of different byte orders.
use dg_cat.Common.{
  All, ℕ, ◌+◌, ◌^◌, ◌≤◌, ◌<◌, ◌≡◌, sym, ap, ◌∙◌, subst, false, List, [], ◌∷◌, ◌++◌, length, arith,
  inl,
}
use dg_cat.Wire.{Endian, prefix_len}
use dg_cat.Wire.Splits.{Splits, encode, encode-Splits, All32}
use dg_cat.Timespec.{Timespec}
use dg_cat.Stats.{DgBufferStats}
use dg_cat.Queue.Commit.Whole.{stream-delivered, delivered-All32}
use dg_cat.FileSource.{Event, new_reader, slots_of, at_eof, copy_to_buffer_queue}
use dg_cat.FileSource.Spec.{IsShort}
use dg_cat.FileSource.Run.{IsAligned}
use dg_cat.UdpSource.{Receive, timed_out, Receiver, receive}
use dg_cat.UdpSource.Buffers.{new_buffers, allocate, Recvmmsg, Arrival, events}
use dg_cat.UdpSource.Memory.{new_buffers-IsReady, fitting}
use dg_cat.Copier
use dg_cat.Copier.Delivery
use dg_cat.Copier.UdpToFile.{arrived, udp-to-file}
use dg_cat.UdpDestination.Runs.{IsStraight}
use dg_cat.UdpCopier.{finished, System, Reach, initial}
use dg_cat.UdpCopier.Relays.{file-to-udp}
use dg_cat.UdpCopier.Forwards.{incoming, IsClump, events-Good, fits-all}

-- A copy of a UDP socket to a file, ended by a time limit, whose destination has come to its end: the
-- file holds the frames of the datagrams that fit into the source's buffers.
module _ (e : Endian) (k : Recvmmsg) (max_iovecs bufsize max_write_size max_backlog : ℕ)
    (shared : DgBufferStats) (first next : Timespec) (arrivals : List Arrival) (rest : List Receive)
    (r : Receiver) (small : bufsize < 2 ^ 32) (room : bufsize + prefix_len ≤ max_backlog)
    (below : max_backlog < 2 ^ 63) (some_ : 0 < max_write_size)
    (clumps : All (IsClump max_iovecs) arrivals) {t : Copier.System}
    (run : Copier.Reach e max_write_size
      (Copier.Delivery.initial max_backlog shared
        (receive first next
          (events k arrivals (allocate max_iovecs bufsize 0 (new_buffers max_iovecs))
            ++ (timed_out ∷ rest))
          r).batches)
      t)
    (at_ : t.consumer ≡ Copier.finished) (full : t.missed ≡ 0) (free_ : t.forced ≡ false) where
  recorded :
      All32 (fitting bufsize (incoming arrivals))
      × (t.file ≡ encode (fitting bufsize (incoming arrivals)))
  recorded =
      let b = allocate max_iovecs bufsize 0 (new_buffers max_iovecs) in
      let (good, (messages, lens, bytes)) =
        events-Good k max_iovecs bufsize small arrivals b clumps
          (new_buffers-IsReady max_iovecs bufsize) in
      let ms = arrived (events k arrivals b) in
      (
        subst All32 bytes (delivered-All32 ms messages),
        udp-to-file e max_write_size max_backlog shared first next (events k arrivals b) rest r good
              messages (fits-all bufsize max_backlog ms room lens) some_ (omega arith) below run at_
              full free_
            ∙ stream-delivered ms messages
            ∙ ap encode bytes,
      )

  -- A UDP socket is copied to a file until a time limit, and the file, later and perhaps by a machine
  -- of another byte order, to a UDP socket: when the second destination's loop has ended, it has sent
  -- exactly the datagrams that came in and fitted into the first source's buffers, each once and
  -- whole, in order, whatever the schedules of reads and the orders of the threads.
  -- In the first copy a buffer with a prefix fits into the queue, a call of `recvmmsg` brings at least
  -- one datagram and no more than there are buffers, no `write` is short, and the destination's loop
  -- has ended. In the second the read size is a positive multiple of four, every datagram fits with
  -- its prefix into the read size and the queue, no prefix runs round the end of the ring, and the
  -- source reads to the end of the file. Nobody ends a source by force, and `sendmsg` refuses no
  -- datagram.
  pub record-replay :
      (e' : Endian) (max_read_size max_backlog' : ℕ) (shared' : DgBufferStats) (evs : List Event)
      {u : System}
      → IsAligned max_read_size
      → IsShort (slots_of max_read_size) (fitting bufsize (incoming arrivals)) []
      → All (λ p. length p + prefix_len ≤ max_backlog') (fitting bufsize (incoming arrivals))
      → prefix_len ≤ max_backlog'
      → max_backlog' < 2 ^ 63
      → IsStraight max_backlog' 0 (fitting bufsize (incoming arrivals))
      → (copy_to_buffer_queue e'
          (slots_of max_read_size)
          evs
          (new_reader max_read_size)
          t.file).stop
        ≡ at_eof
      → Reach e'
          (initial max_backlog' shared'
            (copy_to_buffer_queue e'
              (slots_of max_read_size)
              evs
              (new_reader max_read_size)
              t.file).batches)
          u
      → u.sender ≡ finished
      → u.forced ≡ false
      → u.refused ≡ 0
      → u.sent ≡ fitting bufsize (incoming arrivals)
  record-replay e' max_read_size cap' shared' evs aligned short fits room' below' straight stop run'
        at_' free_' accepted =
      let ps = fitting bufsize (incoming arrivals) in
      let (lens, file) = recorded in
      file-to-udp e' max_read_size cap' shared' t.file ps [] evs aligned
        (subst (λ s. Splits s ps []) (sym file) (encode-Splits ps lens)) (inl (omega arith)) short
        fits room' below' straight stop run' at_' free_' accepted
