-- ===== src/UdpCopier/Relays.antt =====
-- Copies to a UDP socket with their sources: the loops of file_datagram_source.hpp and
-- udp_datagram_source.hpp, the queue, and the loop of udp_datagram_destination.hpp together.
use dg_cat.Common.{
  ℕ, ◌+◌, ◌^◌, ◌≤◌, ◌<◌, ◌≡◌, refl, sym, ap, ◌∙◌, subst, false, List, [], ◌∷◌, ◌++◌, length, map,
  All, concat,
}
use dg_cat.Wire.{Endian, prefix_len}
use dg_cat.Wire.Splits.{Splits, IsPartial}
use dg_cat.Timespec.{Timespec}
use dg_cat.Stats.{DgBufferStats}
use dg_cat.Queue.Commit.{Mmsghdr}
use dg_cat.Queue.Commit.Append.{IsMessage, payload}
use dg_cat.Queue.Commit.Fitting.{IsFitting}
use dg_cat.Queue.Commit.Whole.{delivered}
use dg_cat.FileSource.{Event, new_reader, slots_of, at_eof, copy_to_buffer_queue}
use dg_cat.FileSource.Spec.{IsShort}
use dg_cat.FileSource.Run.{IsAligned, copy_to_buffer_queue_lem, copy_to_buffer_queue-at_eof}
use dg_cat.FileSource.Kept.{IsKept, copy_to_buffer_queue-Kept, IsFitting-payloads}
use dg_cat.UdpSource.{Receive, timed_out, Receiver, receive}
use dg_cat.Copier.UdpToFile.{IsArrival, arrived, receive-arrived}
use dg_cat.UdpDestination.Runs.{IsStraight}
use dg_cat.UdpCopier.{finished, System, Reach, initial}
use dg_cat.UdpCopier.Refusals.{Reach-unrefused}
use dg_cat.UdpCopier.Delivery.{finished-sent_all}

delivered-Kept : (ms : List Mmsghdr) → All IsKept ms → delivered ms ≡ map payload ms
delivered-Kept [] k = refl
delivered-Kept (m ∷ ms) k = rw (k.0) (ap (λ ps. payload m ∷ ps) (delivered-Kept ms k.1))

-- A file source that reads the datagrams `ps` and comes to the end of its file, through a queue to a
-- UDP socket: when the destination's loop has ended it has sent exactly `ps`, in order, whatever the
-- schedule of reads, the size of the batches and the order of the threads. The read size is a
-- positive multiple of four, every datagram fits with its prefix into the read size and into the
-- queue, no prefix runs round the end of the ring, nobody ends the source by force, and `sendmsg`
-- refuses no datagram.
pub file-to-udp :
    (e : Endian) (max_read_size max_backlog : ℕ) (shared : DgBufferStats) (s : List ℕ)
    (ps : List (List ℕ)) (rest : List ℕ) (evs : List Event) {t : System}
    → IsAligned max_read_size
    → Splits s ps rest
    → IsPartial rest
    → IsShort (slots_of max_read_size) ps rest
    → All (λ p. length p + prefix_len ≤ max_backlog) ps
    → prefix_len ≤ max_backlog
    → max_backlog < 2 ^ 63
    → IsStraight max_backlog 0 ps
    → (copy_to_buffer_queue e (slots_of max_read_size) evs (new_reader max_read_size) s).stop
      ≡ at_eof
    → Reach e
        (initial max_backlog shared
          (copy_to_buffer_queue e
            (slots_of max_read_size)
            evs
            (new_reader max_read_size)
            s).batches)
        t
    → t.sender ≡ finished
    → t.forced ≡ false
    → t.refused ≡ 0
    → t.sent ≡ ps
file-to-udp e max_read_size cap shared s ps rest evs aligned denotes part short fits room small
      straight stop r at_ free_ accepted =
    let o = copy_to_buffer_queue e (slots_of max_read_size) evs (new_reader max_read_size) s in
    let ms = concat o.batches in
    let (later, first, messages, inside) =
      copy_to_buffer_queue_lem e max_read_size s ps rest evs aligned denotes part short in
    let (all, left) =
      copy_to_buffer_queue-at_eof e max_read_size s ps rest evs aligned denotes part short stop in
    let same =
      delivered-Kept ms
        (copy_to_buffer_queue-Kept e (slots_of max_read_size) evs (new_reader max_read_size) s)
      ∙ all in
    let fitting =
      IsFitting-payloads cap ms messages
        (subst (All (λ p. length p + prefix_len ≤ cap)) (sym all) fits) in
    Reach-unrefused e cap shared _ r accepted
    ∙ (finished-sent_all e cap shared o.batches room small messages
        (subst (IsStraight cap 0) (sym same) straight) fitting r at_ free_).1
    ∙ same

-- A UDP source that receives datagrams in batches, with interruptions in between, until a time limit
-- ends it, through a queue to a UDP socket: when the destination's loop has ended it has sent the
-- datagrams that came, each once and whole, in order, those left out that are marked as truncated,
-- out of band or an error, whatever the order of the threads. Every other datagram fits with its
-- prefix into the queue, no prefix runs round the end of the ring, nobody ends the source by force,
-- and `sendmsg` refuses no datagram.
pub udp-to-udp :
    (e : Endian) (max_backlog : ℕ) (shared : DgBufferStats) (first next : Timespec)
    (evs rest : List Receive) (r : Receiver) {t : System}
    → All IsArrival evs
    → All IsMessage (arrived evs)
    → All (IsFitting max_backlog) (arrived evs)
    → prefix_len ≤ max_backlog
    → max_backlog < 2 ^ 63
    → IsStraight max_backlog 0 (delivered (arrived evs))
    → Reach e
        (initial max_backlog shared (receive first next (evs ++ (timed_out ∷ rest)) r).batches)
        t
    → t.sender ≡ finished
    → t.forced ≡ false
    → t.refused ≡ 0
    → t.sent ≡ delivered (arrived evs)
udp-to-udp e cap shared first next evs rest r arrivals messages fits room small straight run at_
      free_ accepted =
    let all = (receive-arrived first next evs rest r arrivals).0 in
    Reach-unrefused e cap shared _ run accepted
    ∙ (finished-sent_all e cap shared (receive first next (evs ++ (timed_out ∷ rest)) r).batches
        room small (subst (All IsMessage) (sym all) messages)
        (subst (λ ms. IsStraight cap 0 (delivered ms)) (sym all) straight)
        (subst (All (IsFitting cap)) (sym all) fits) run at_ free_).1
    ∙ ap delivered all
