-- ===== src/FileSource/Run.antt =====
-- `FileDatagramSource::copy_to_buffer_queue` as a whole.
use dg_cat.Common.{
  concat, All, ℕ, ◌%◌, ◌<◌, ◌≡◌, ◌≢◌, refl, sym, ap, ◌∙◌, List, [], ◌∷◌, ◌++◌, arith, length,
  length-replicate, inl, append-nil,
}
use dg_cat.Wire.{Endian, prefix_len}
use dg_cat.Wire.Splits.{Splits, IsPartial, encode, All32, encode-Splits}
use dg_cat.FileSource.{Event, Reader, new_reader, slots_of, at_eof, overrun, copy_to_buffer_queue}
use dg_cat.Queue.Commit.Append.{IsMessage}
use dg_cat.FileSource.Parse.{payloads}
use dg_cat.FileSource.Spec.{IsShort, Ready, Delivers, go_on-Delivers}
use dg_cat.FileSource.Rounds.{round-RoundGood, round-Moves, go_on-at_eof, AllChunks}

run-Delivers :
    (e : Endian) (slots : ℕ) (evs : List Event) (r : Reader) (s : List ℕ) (ps : List (List ℕ))
    (rest : List ℕ)
    → Ready slots r s ps rest
    → Delivers ps rest (copy_to_buffer_queue e slots evs r s)
unfolding copy_to_buffer_queue
run-Delivers e slots [] r s ps rest ready = record {
  later = ps;
  sent_first = refl;
  messages = tt;
  in_bounds = λ q. cc;
  at_end = λ q. cc;
}
run-Delivers e slots (ev ∷ evs) r s ps rest ready =
    go_on-Delivers slots (copy_to_buffer_queue e slots evs) r _ ps rest
      (round-RoundGood e slots r s ps rest ev ready)
      (λ r' s' qs h. run-Delivers e slots evs r' s' qs rest h)

run-at_eof :
    (e : Endian) (slots : ℕ) (evs : List Event) (r : Reader) (s : List ℕ) (ps : List (List ℕ))
    (rest : List ℕ)
    → Ready slots r s ps rest
    → AllChunks evs
    → length s < length evs
    → (copy_to_buffer_queue e slots evs r s).stop ≡ at_eof
unfolding copy_to_buffer_queue
run-at_eof e slots [] r s ps rest ready all more = absurd (omega arith)
run-at_eof e slots (ev ∷ evs) r s ps rest ready all more =
    go_on-at_eof slots (copy_to_buffer_queue e slots evs) r _ ps rest (length s)
      (round-RoundGood e slots r s ps rest ev ready) (round-Moves e slots r s ev all.0)
      (λ r' s' qs h less. run-at_eof e slots evs r' s' qs rest h all.1 (omega arith))

-- The read size is a positive multiple of four.
abbrev pub IsAligned : ℕ → Type 0
IsAligned max_read_size = (0 < max_read_size) × (max_read_size % prefix_len ≡ 0)

start-Ready :
    (max_read_size : ℕ) (s : List ℕ) (ps : List (List ℕ)) (rest : List ℕ)
    → IsAligned max_read_size
    → Splits s ps rest
    → IsPartial rest
    → IsShort (slots_of max_read_size) ps rest
    → Ready (slots_of max_read_size) (new_reader max_read_size) s ps rest
start-Ready max_read_size s ps rest aligned denotes part short =
    let len = length-replicate {A = ℕ} max_read_size 0 in
    record {
      reader = record {
        inside = omega arith;
        least = omega arith;
        bounded = omega (arith, len);
        needed = omega arith;
        room = inl (omega (arith, len));
        part = inl (omega arith);
        need = inl refl;
      };
      denotes = denotes;
      short = short;
      ending = part;
    }

-- With a read size that is a positive multiple of four, and datagrams that fit into it with their
-- prefixes, as an incomplete one at the end of the stream would by the length that its prefix states:
-- the source commits the first datagrams of the stream, in order, none invented, doubled or altered,
-- as well-formed messages, whatever the schedule of reads, interruptions and failures, and it does
-- not write past its message table.
pub copy_to_buffer_queue_lem :
    (e : Endian) (max_read_size : ℕ) (s : List ℕ) (ps : List (List ℕ)) (rest : List ℕ)
    (evs : List Event)
    → IsAligned max_read_size
    → Splits s ps rest
    → IsPartial rest
    → IsShort (slots_of max_read_size) ps rest
    → let o = copy_to_buffer_queue e (slots_of max_read_size) evs (new_reader max_read_size) s in
      (later : List (List ℕ)) × (payloads (concat o.batches) ++ later ≡ ps)
      × All IsMessage (concat o.batches)
      × (o.stop ≢ overrun)
copy_to_buffer_queue_lem e max_read_size s ps rest evs aligned denotes part short =
    let d =
      run-Delivers e (slots_of max_read_size) evs (new_reader max_read_size) s ps rest
        (start-Ready max_read_size s ps rest aligned denotes part short) in
    (d.later, d.sent_first, d.messages, d.in_bounds)

-- Under the same conditions on sizes: if the source stops at the end of the stream, it has committed
-- all datagrams, and the incomplete rest is left in its buffer.
pub copy_to_buffer_queue-at_eof :
    (e : Endian) (max_read_size : ℕ) (s : List ℕ) (ps : List (List ℕ)) (rest : List ℕ)
    (evs : List Event)
    → IsAligned max_read_size
    → Splits s ps rest
    → IsPartial rest
    → IsShort (slots_of max_read_size) ps rest
    → (copy_to_buffer_queue e (slots_of max_read_size) evs (new_reader max_read_size) s).stop
      ≡ at_eof
    → let o = copy_to_buffer_queue e (slots_of max_read_size) evs (new_reader max_read_size) s in
      (payloads (concat o.batches) ≡ ps) × (o.left ≡ rest)
copy_to_buffer_queue-at_eof e max_read_size s ps rest evs aligned denotes part short stop =
    let d =
      run-Delivers e (slots_of max_read_size) evs (new_reader max_read_size) s ps rest
        (start-Ready max_read_size s ps rest aligned denotes part short) in
    let sent = payloads (
      concat
        (copy_to_buffer_queue e (slots_of max_read_size) evs (new_reader max_read_size)
          s).batches) in
    (
      sym (append-nil sent) ∙ ap (λ x. sent ++ x) (sym (d.at_end stop).0) ∙ d.sent_first,
      (d.at_end stop).1,
    )

-- A file that was written as the frames of datagrams `ps` is read back whole, where the read size is
-- a positive multiple of four, every datagram fits into it with its prefix and has a length of 32
-- bits, and the schedule has no failure and more reads than the file has bytes: the source stops at
-- the end of the file, has committed exactly `ps`, and nothing is left over.
pub encode-copy_to_buffer_queue :
    (e : Endian) (max_read_size : ℕ) (ps : List (List ℕ)) (evs : List Event)
    → IsAligned max_read_size
    → All32 ps
    → IsShort (slots_of max_read_size) ps []
    → AllChunks evs
    → length (encode ps) < length evs
    → let o =
        copy_to_buffer_queue e
          (slots_of max_read_size)
          evs
          (new_reader max_read_size)
          (encode ps) in
      (o.stop ≡ at_eof) × (payloads (concat o.batches) ≡ ps) × (o.left ≡ [])
encode-copy_to_buffer_queue e max_read_size ps evs aligned all short chunks more =
    let split = encode-Splits ps all in
    let ready =
      start-Ready max_read_size (encode ps) ps [] aligned split (inl (omega arith)) short in
    let slots = slots_of max_read_size in
    let stop =
      run-at_eof e slots evs (new_reader max_read_size) (encode ps) ps [] ready chunks more in
    let d = run-Delivers e slots evs (new_reader max_read_size) (encode ps) ps [] ready in
    let sent =
      payloads (
        concat (copy_to_buffer_queue e slots evs (new_reader max_read_size) (encode ps)).batches) in
    (
      stop,
      sym (append-nil sent) ∙ ap (λ x. sent ++ x) (sym (d.at_end stop).0) ∙ d.sent_first,
      (d.at_end stop).1,
    )
