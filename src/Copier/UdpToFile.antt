-- ===== src/Copier/UdpToFile.antt =====
-- A copy of received datagrams to a file: the loop of udp_datagram_source.hpp, the queue, and the loop
-- of file_datagram_destination.hpp together.
use dg_cat.Common.{
  ℕ, ◌^◌, ◌<◌, ◌≡◌, refl, sym, ap, ◌∙◌, subst, false, List, [], ◌∷◌, ◌++◌, All, concat,
}
use dg_cat.Wire.{Endian}
use dg_cat.Timespec.{Timespec}
use dg_cat.Stats.{DgBufferStats}
use dg_cat.Queue.Commit.{Mmsghdr}
use dg_cat.Queue.Commit.Append.{IsMessage, stream}
use dg_cat.Queue.Commit.Fitting.{IsFitting}
use dg_cat.UdpSource.{
  Receive, received, timed_out, bad_handle, interrupted, failed, Receiver, at_timeout, on_receive,
  receive,
}
use dg_cat.Copier.{finished, System, Reach}
use dg_cat.Copier.Delivery.{initial}
use dg_cat.Copier.Lossless.{finished-lossless}

-- Datagrams that came, or an interruption.
abbrev pub IsArrival : Receive → Type 0
IsArrival (received [] now clock) = ⊥
IsArrival (received (m ∷ ms) now clock) = Unit
IsArrival timed_out = ⊥
IsArrival (bad_handle f) = ⊥
IsArrival interrupted = Unit
IsArrival failed = ⊥

-- the datagrams that came, in order
abbrev pub arrived : List Receive → List Mmsghdr
arrived [] = []
arrived (received ms now clock ∷ evs) = ms ++ arrived evs
arrived (timed_out ∷ evs) = arrived evs
arrived (bad_handle f ∷ evs) = arrived evs
arrived (interrupted ∷ evs) = arrived evs
arrived (failed ∷ evs) = arrived evs

-- The source commits everything that comes before the time limit, and stops there.
pub receive-arrived :
    (first next : Timespec) (evs rest : List Receive) (r : Receiver)
    → All IsArrival evs
    → let run = receive first next (evs ++ (timed_out ∷ rest)) r in
      (concat run.batches ≡ arrived evs) × (run.stop ≡ at_timeout)
unfolding receive on_receive
receive-arrived first next [] rest r h = (refl, refl)
receive-arrived first next (received [] now clock ∷ evs) rest r h = absurd h.0
receive-arrived first next (received (m ∷ ms) now clock ∷ evs) rest r h =
    let (all, stop) = receive-arrived first next evs rest _ h.1 in
    (ap (λ ns. m ∷ (ms ++ ns)) all, stop)
receive-arrived first next (timed_out ∷ evs) rest r h = absurd h.0
receive-arrived first next (bad_handle f ∷ evs) rest r h = absurd h.0
receive-arrived first next (interrupted ∷ evs) rest r h = receive-arrived first next evs rest _ h.1
receive-arrived first next (failed ∷ evs) rest r h = absurd h.0

-- A UDP source that receives datagrams in batches, with interruptions in between, until a time limit
-- ends it, through a queue into a file: when the destination's loop has ended, the file holds the
-- frames of the datagrams that came, those left out that are marked as truncated, out of band or an error,
-- in order, whatever the order of the threads. Every other datagram fits with its prefix into the queue, no `write` is short, and nobody
-- ends the source by force.
pub udp-to-file :
    (e : Endian) (max_write_size max_backlog : ℕ) (shared : DgBufferStats) (first next : Timespec)
    (evs rest : List Receive) (r : Receiver) {t : System}
    → All IsArrival evs
    → All IsMessage (arrived evs)
    → All (IsFitting max_backlog) (arrived evs)
    → 0 < max_write_size
    → 0 < max_backlog
    → max_backlog < 2 ^ 63
    → Reach e max_write_size
        (initial max_backlog shared (receive first next (evs ++ (timed_out ∷ rest)) r).batches)
        t
    → t.consumer ≡ finished
    → t.missed ≡ 0
    → t.forced ≡ false
    → t.file ≡ stream (arrived evs)
udp-to-file e mws cap shared first next evs rest r arrivals messages fits pos room small run at_
      full free_ =
    let all = (receive-arrived first next evs rest r arrivals).0 in
    let (over, written) =
      finished-lossless e mws cap shared (receive first next (evs ++ (timed_out ∷ rest)) r).batches
        pos room small (subst (All IsMessage) (sym all) messages)
        (subst (All (IsFitting cap)) (sym all) fits) run at_ full free_ in
    written ∙ ap stream all
