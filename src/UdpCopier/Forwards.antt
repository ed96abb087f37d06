-- ===== src/UdpCopier/Forwards.antt =====
-- A copy from a UDP socket to a UDP socket, with the buffers that udp_datagram_source.hpp hands to
-- `recvmmsg`.
use dg_cat.Common.{
  All, All-append, ℕ, ◌+◌, ◌^◌, ◌≤◌, ◌<◌, ◌≡◌, refl, sym, ap₂, ◌∙◌, subst, false, List, [], ◌∷◌,
  ◌++◌, length, arith, inr,
}
use dg_cat.Wire.{Endian, prefix_len}
use dg_cat.Timespec.{Timespec}
use dg_cat.Stats.{DgBufferStats}
use dg_cat.Queue.Commit.{Mmsghdr}
use dg_cat.Queue.Commit.Append.{IsMessage}
use dg_cat.Queue.Commit.Fitting.{IsFitting}
use dg_cat.Queue.Commit.Whole.{delivered, delivered-append}
use dg_cat.UdpSource.{Receive, timed_out, Receiver, receive}
use dg_cat.UdpSource.Buffers.{
  Buffers, new_buffers, allocate, Recvmmsg, receive_clump, Arrival, came, signalled, events,
}
use dg_cat.UdpSource.Memory.{
  IsReady, new_buffers-IsReady, fitting, fitting-append, receive_clump_lem,
}
use dg_cat.Copier.UdpToFile.{IsArrival, arrived}
use dg_cat.UdpDestination.Runs.{IsStraight}
use dg_cat.UdpCopier.{finished, System, Reach, initial}
use dg_cat.UdpCopier.Relays.{udp-to-udp}

-- the datagrams that come in, in order
abbrev pub incoming : List Arrival → List (List ℕ)
incoming [] = []
incoming (came ds now clock ∷ arrivals) = ds ++ incoming arrivals
incoming (signalled ∷ arrivals) = incoming arrivals

-- A call of `recvmmsg` brings a datagram for each message at most, and at least one.
abbrev pub IsClump : ℕ → Arrival → Type 0
IsClump n (came ds now clock) = (0 < length ds) × (length ds ≤ n)
IsClump n signalled = Unit

abbrev pub Good : ℕ → List Mmsghdr → List (List ℕ) → Type 0
Good bufsize ms ds =
    All IsMessage ms × All (λ m. m.msg_len ≤ bufsize) ms × (delivered ms ≡ fitting bufsize ds)

module _ (k : Recvmmsg) (n bufsize : ℕ) (small : bufsize < 2 ^ 32) where
  clump-IsArrival :
      (ds : List (List ℕ)) (b : Buffers) (now : Timespec) (clock : ℕ)
      → 0 < length ds
      → IsArrival (Receive.received (receive_clump k 0 ds b).0 now clock)
  unfolding receive_clump
  clump-IsArrival [] b now clock some_ = absurd (omega arith)
  clump-IsArrival (d ∷ ds) b now clock some_ = tt

  pub events-Good :
      (arrivals : List Arrival) (b : Buffers)
      → All (IsClump n) arrivals
      → IsReady n bufsize n b
      → All IsArrival (events k arrivals b)
        × Good bufsize (arrived (events k arrivals b)) (incoming arrivals)
  unfolding events
  events-Good [] b h r = (tt, (tt, tt, refl))
  events-Good (came ds now clock ∷ arrivals) b h r =
      let (messages, lens, bytes, ready) =
        receive_clump_lem k n bufsize 0 ds b small (omega (arith, h.0)) r in
      let c = receive_clump k 0 ds b in
      let (more, (messages', lens', bytes')) = events-Good arrivals c.1 h.1 ready in
      let rest = arrived (events k arrivals c.1) in
      (
        (clump-IsArrival ds b now clock h.0.0, more),
        (
          All-append IsMessage c.0 rest messages messages',
          All-append (λ m. m.msg_len ≤ bufsize) c.0 rest lens lens',
          delivered-append c.0 rest
              ∙ ap₂ ◌++◌ bytes bytes'
              ∙ sym (fitting-append bufsize ds (incoming arrivals)),
        ),
      )
  events-Good (signalled ∷ arrivals) b h r =
      let (more, good) = events-Good arrivals b h.1 r in ((tt, more), good)

pub fits-all :
    (bufsize cap : ℕ) (ms : List Mmsghdr)
    → bufsize + prefix_len ≤ cap
    → All (λ m. m.msg_len ≤ bufsize) ms
    → All (IsFitting cap) ms
fits-all bufsize cap [] room h = tt
fits-all bufsize cap (m ∷ ms) room h = (inr (omega (arith, h.0)), fits-all bufsize cap ms room h.1)

-- Datagrams that come in clumps, with signals in between, until a time limit ends the source, through
-- the source's buffers and the queue to a UDP socket: when the destination's loop has ended it has
-- sent exactly those that fit into a buffer, each once and whole, in order, whatever the order of the
-- threads. A buffer with a prefix fits into the queue, a call of `recvmmsg` brings at least one
-- datagram and no more than there are buffers, no prefix runs round the end of the ring, nobody ends
-- the source by force, and `sendmsg` refuses no datagram.
pub udp-forwards :
    (e : Endian) (k : Recvmmsg) (max_iovecs bufsize max_backlog : ℕ) (shared : DgBufferStats)
    (first next : Timespec) (arrivals : List Arrival) (rest : List Receive) (r : Receiver)
    {t : System}
    → bufsize < 2 ^ 32
    → bufsize + prefix_len ≤ max_backlog
    → max_backlog < 2 ^ 63
    → All (IsClump max_iovecs) arrivals
    → IsStraight max_backlog 0 (fitting bufsize (incoming arrivals))
    → let b = allocate max_iovecs bufsize 0 (new_buffers max_iovecs) in
      Reach e
        (initial max_backlog shared
          (receive first next (events k arrivals b ++ (timed_out ∷ rest)) r).batches)
        t
      → t.sender ≡ finished
      → t.forced ≡ false
      → t.refused ≡ 0
      → t.sent ≡ fitting bufsize (incoming arrivals)
udp-forwards e k n bufsize cap shared first next arrivals rest r small room below clumps straight
      run at_ free_ accepted =
    let b = allocate n bufsize 0 (new_buffers n) in
    let (good, (messages, lens, bytes)) =
      events-Good k n bufsize small arrivals b clumps (new_buffers-IsReady n bufsize) in
    udp-to-udp e cap shared first next (events k arrivals b) rest r good messages
      (fits-all bufsize cap (arrived (events k arrivals b)) room lens) (omega arith) below
      (subst (IsStraight cap 0) (sym bytes) straight) run at_ free_ accepted
    ∙ bytes
