-- ===== src/Tests/Sources.antt =====
-- The theorems on `FileDatagramSource::copy_to_buffer_queue`, each at one file.
use dg_cat.Common.{concat, All, ℕ, ◌≡◌, ◌≢◌, refl, List, [], ◌∷◌, ◌++◌, arith, inl, replicate}
use dg_cat.Stats.{zero_time}
use dg_cat.Wire.Splits.{Splits, encode, encode-Splits, Splits-append}
use dg_cat.Queue.Commit.Append.{IsMessage}
use dg_cat.FileSource.{
  Event, chunk, interrupted, at_eof, overrun, new_reader, slots_of, copy_to_buffer_queue,
}
use dg_cat.FileSource.Parse.{payloads}
use dg_cat.FileSource.Run.{copy_to_buffer_queue_lem, encode-copy_to_buffer_queue}
use dg_cat.Tests.{little_endian}

abbrev two_datagrams : List (List ℕ)
two_datagrams = (7 ∷ 8 ∷ 9 ∷ []) ∷ (1 ∷ 2 ∷ []) ∷ []

-- The two frames, and two bytes of a third prefix.
abbrev cut_file : List ℕ
cut_file = encode two_datagrams ++ (0 ∷ 0 ∷ [])

cut_file-Splits : Splits cut_file two_datagrams (0 ∷ 0 ∷ [])
cut_file-Splits =
    Splits-append two_datagrams (encode two_datagrams) [] (0 ∷ 0 ∷ [])
      (encode-Splits two_datagrams (omega arith, (omega arith, tt)))

-- Three bytes at a time, with an interruption.
abbrev few_reads : List Event
few_reads = chunk 2 zero_time 0 ∷ interrupted ∷ replicate 3 (chunk 2 zero_time 0)

copy_to_buffer_queue_example :
    let o = copy_to_buffer_queue little_endian (slots_of 16) few_reads (new_reader 16) cut_file in
    (later : List (List ℕ)) × (payloads (concat o.batches) ++ later ≡ two_datagrams)
    × All IsMessage (concat o.batches)
    × (o.stop ≢ overrun)
copy_to_buffer_queue_example =
    copy_to_buffer_queue_lem little_endian 16 cut_file two_datagrams (0 ∷ 0 ∷ []) few_reads
      (omega arith) cut_file-Splits (inl (omega arith)) (omega arith)

-- Two bytes at a time.
abbrev many_reads : List Event
many_reads = replicate 14 (chunk 1 zero_time 0)

encode-copy_to_buffer_queue_example :
    let o =
      copy_to_buffer_queue little_endian
        (slots_of 16)
        many_reads
        (new_reader 16)
        (encode two_datagrams) in
    (o.stop ≡ at_eof) × (payloads (concat o.batches) ≡ two_datagrams) × (o.left ≡ [])
encode-copy_to_buffer_queue_example =
    encode-copy_to_buffer_queue little_endian 16 two_datagrams many_reads (omega arith)
      (omega arith, (omega arith, tt)) (omega arith)
      (
        refl,
        (
          refl,
          (
            refl,
            (
              refl,
              (refl, (refl, (refl, (refl, (refl, (refl, (refl, (refl, (refl, (refl, tt)))))))))),
            ),
          ),
        ),
      )
      (omega arith)
