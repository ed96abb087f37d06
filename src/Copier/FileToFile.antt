-- ===== src/Copier/FileToFile.antt =====
-- A copy from a file to a file: the loop of file_datagram_source.hpp, the queue, and the loop of
-- file_datagram_destination.hpp together.
use dg_cat.Common.{
  ℕ, ◌+◌, ◌^◌, ◌≤◌, ◌<◌, ◌≡◌, sym, ap, ◌∙◌, subst, false, List, length, All, concat,
}
use dg_cat.Wire.{Endian, prefix_len}
use dg_cat.Wire.Splits.{Splits, IsPartial, encode}
use dg_cat.Stats.{DgBufferStats}
use dg_cat.FileSource.{Event, new_reader, slots_of, at_eof, copy_to_buffer_queue}
use dg_cat.FileSource.Spec.{IsShort}
use dg_cat.FileSource.Run.{IsAligned, copy_to_buffer_queue_lem, copy_to_buffer_queue-at_eof}
use dg_cat.FileSource.Kept.{copy_to_buffer_queue-Kept, stream-encode, IsFitting-payloads}
use dg_cat.Copier.{finished, System, Reach}
use dg_cat.Copier.Delivery.{initial}
use dg_cat.Copier.Lossless.{finished-lossless}

-- A file source that reads the datagrams `ps` and comes to the end of its file, through a queue into
-- a file: when the destination's loop has ended, the file holds the frames of `ps`, whole frames
-- only, whatever the schedule of reads, the size of the batches and the order of the threads. The
-- read size is a positive multiple of four, every datagram fits with its prefix into the read size
-- and into the queue, no `write` is short, and nobody ends the source by force.
pub file-to-file :
    (e : Endian) (max_read_size max_write_size max_backlog : ℕ) (shared : DgBufferStats)
    (s : List ℕ) (ps : List (List ℕ)) (rest : List ℕ) (evs : List Event) {t : System}
    → IsAligned max_read_size
    → Splits s ps rest
    → IsPartial rest
    → IsShort (slots_of max_read_size) ps rest
    → All (λ p. length p + prefix_len ≤ max_backlog) ps
    → 0 < max_write_size
    → 0 < max_backlog
    → max_backlog < 2 ^ 63
    → (copy_to_buffer_queue e (slots_of max_read_size) evs (new_reader max_read_size) s).stop
      ≡ at_eof
    → Reach e max_write_size
        (initial max_backlog shared
          (copy_to_buffer_queue e
            (slots_of max_read_size)
            evs
            (new_reader max_read_size)
            s).batches)
        t
    → t.consumer ≡ finished
    → t.missed ≡ 0
    → t.forced ≡ false
    → t.file ≡ encode ps
file-to-file e max_read_size mws cap shared s ps rest evs aligned denotes part short fits pos room
      small stop r at_ full free_ =
    let o = copy_to_buffer_queue e (slots_of max_read_size) evs (new_reader max_read_size) s in
    let ms = concat o.batches in
    let (later, first, messages, inside) =
      copy_to_buffer_queue_lem e max_read_size s ps rest evs aligned denotes part short in
    let (all, left) =
      copy_to_buffer_queue-at_eof e max_read_size s ps rest evs aligned denotes part short stop in
    let kept =
      copy_to_buffer_queue-Kept e (slots_of max_read_size) evs (new_reader max_read_size) s in
    let fitting =
      IsFitting-payloads cap ms messages
        (subst (All (λ p. length p + prefix_len ≤ cap)) (sym all) fits) in
    let (over, written) =
      finished-lossless e mws cap shared o.batches pos room small messages fitting r at_ full
        free_ in
    written ∙ stream-encode ms messages kept ∙ ap encode all
