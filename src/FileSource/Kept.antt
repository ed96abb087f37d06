-- ===== src/FileSource/Kept.antt =====
-- The flags of the messages of `FileDatagramSource::copy_to_buffer_queue`, and the bytes that they
-- become in a queue.
use dg_cat.Common.{
  ℕ, zero, suc, ◌+◌, ◌-◌, ◌≤◌, ◌≡◌, refl, sym, ap₂, ◌∙◌, true, false, List, [], ◌∷◌, ◌++◌, Option,
  none, some, arith, length, take, slice, ltb, leb, inl, inr, Bool-cases, All, All-append, concat,
  if_cases, min, append_assoc,
}
use dg_cat.Wire.{Endian, prefix_len, be_bytes}
use dg_cat.Wire.Splits.{encode}
use dg_cat.Timespec.{Timespec}
use dg_cat.Queue.Commit.{Mmsghdr, is_discarded}
use dg_cat.Queue.Commit.Append.{IsMessage, payload, stream}
use dg_cat.Queue.Commit.Fitting.{IsFitting}
use dg_cat.Queue.Commit.Progress.{length-payload}
use dg_cat.FileSource.{
  no_flags, Parsed, prepend, parse, Reader, Event, chunk, interrupted, bad_handle, broken, Round,
  again, commits, ends, forced, throws, overruns, grow, on_parsed, on_bytes, round, go_on, Outcome,
  copy_to_buffer_queue,
}
use dg_cat.FileSource.Parse.{payloads}

abbrev pub IsKept : Mmsghdr → Type 0
IsKept m = is_discarded m.msg_flags ≡ false

abbrev KeptParsed : Option Parsed → Type 0
KeptParsed none = Unit
KeptParsed (some p) = All IsKept p.msgs

abbrev KeptRound : Round → Type 0
KeptRound (again r) = Unit
KeptRound (commits ms r) = All IsKept ms
KeptRound ends = Unit
KeptRound forced = Unit
KeptRound throws = Unit
KeptRound overruns = Unit

prepend-Kept :
    (m : Mmsghdr) (o : Option Parsed) → IsKept m → KeptParsed o → KeptParsed (prepend m o)
prepend-Kept m none h k = tt
prepend-Kept m (some p) h k = (h, k)

on_parsed-Kept :
    (r : Reader) (now : Timespec) (clock : ℕ) (o : Option Parsed)
    → KeptParsed o
    → KeptRound (on_parsed r now clock o)
unfolding on_parsed
on_parsed-Kept r now clock none k = tt
on_parsed-Kept r now clock (some p) k = settled p.msgs k
  where
    settled :
        (ms : List Mmsghdr) → All IsKept ms → KeptRound (dg_cat.FileSource.settle r now clock p ms)
    settled [] k = tt
    settled (m ∷ ms) k = k

module _ (e : Endian) (slots : ℕ) where
  parse-Kept :
      (fuel : ℕ) (buffer : List ℕ) (n_read i k : ℕ)
      → KeptParsed (parse e slots fuel buffer n_read i k)
  unfolding parse
  parse-Kept zero buffer n_read i k = tt
  parse-Kept (suc fuel) buffer n_read i k =
      let nb = e.ntohl (e.load (slice buffer i prefix_len)) in
      elim (Bool-cases (ltb i n_read)) [
        | inr end ↦ rw (end, parse) tt
        | inl more ↦ elim (Bool-cases (leb slots k)) [
          | inl over ↦ rw (more, over, parse) tt
          | inr free_ ↦ elim (Bool-cases (ltb n_read (i + prefix_len + nb))) [
            | inl cut ↦ rw (more, free_, cut, parse) tt
            | inr whole ↦
                rw (more, free_, whole, parse)
                  (prepend-Kept _ (parse e slots fuel buffer n_read (i + prefix_len + nb) (k + 1))
                    refl (parse-Kept fuel buffer n_read (i + prefix_len + nb) (k + 1)))
          ]
        ]
      ]

  on_bytes-Kept :
      (r : Reader) (now : Timespec) (clock : ℕ) (bs : List ℕ)
      → KeptRound (on_bytes e slots r now clock bs)
  unfolding on_bytes
  on_bytes-Kept r now clock [] = tt
  on_bytes-Kept r now clock (b ∷ bs) =
      if_cases KeptRound (ltb (r.n_read + length (b ∷ bs)) r.n_min) _ _ (λ h. tt)
        (λ h. on_parsed-Kept _ now clock (parse e slots _ _ _ 0 0) (parse-Kept _ _ _ 0 0))

  round-Kept : (r : Reader) (s : List ℕ) (ev : Event) → KeptRound (round e slots r s ev).0
  unfolding round
  round-Kept r s (chunk k now clock) =
      let r' : Reader = record r { buffer = grow r.buffer r.n_min } in
      on_bytes-Kept r' now clock (take (min (k + 1) (length r'.buffer - r.n_read)) s)
  round-Kept r s interrupted = tt
  round-Kept r s (bad_handle true) = tt
  round-Kept r s (bad_handle false) = tt
  round-Kept r s broken = tt

  go_on-Kept :
      (later : Reader → List ℕ → Outcome) (r : Reader) (x : Round × List ℕ)
      → KeptRound x.0
      → ((r' : Reader) (s : List ℕ) → All IsKept (concat (later r' s).batches))
      → All IsKept (concat (go_on later r x).batches)
  unfolding go_on
  go_on-Kept later r (again r', s) k h = h r' s
  go_on-Kept later r (commits ms r', s) k h =
      All-append IsKept ms (concat (later r' s).batches) k (h r' s)
  go_on-Kept later r (ends, s) k h = tt
  go_on-Kept later r (forced, s) k h = tt
  go_on-Kept later r (throws, s) k h = tt
  go_on-Kept later r (overruns, s) k h = tt

  pub copy_to_buffer_queue-Kept :
      (evs : List Event) (r : Reader) (s : List ℕ)
      → All IsKept (concat (copy_to_buffer_queue e slots evs r s).batches)
  unfolding copy_to_buffer_queue
  copy_to_buffer_queue-Kept [] r s = tt
  copy_to_buffer_queue-Kept (ev ∷ evs) r s =
      go_on-Kept (copy_to_buffer_queue e slots evs) r (round e slots r s ev) (round-Kept r s ev)
        (λ r' s'. copy_to_buffer_queue-Kept evs r' s')

-- Messages without discarded ones become the frames of their payloads.
pub stream-encode :
    (ms : List Mmsghdr) → All IsMessage ms → All IsKept ms → stream ms ≡ encode (payloads ms)
stream-encode [] w k = refl
stream-encode (m ∷ ms) w k = rw k.0 (
    append_assoc (be_bytes m.msg_len) (payload m) (stream ms)
    ∙ ap₂ (λ n r. be_bytes n ++ (payload m ++ r)) (sym (length-payload m w.0))
        (stream-encode ms w.1 k.1))

pub IsFitting-payloads :
    (cap : ℕ) (ms : List Mmsghdr)
    → All IsMessage ms
    → All (λ p. length p + prefix_len ≤ cap) (payloads ms)
    → All (IsFitting cap) ms
IsFitting-payloads cap [] w h = tt
IsFitting-payloads cap (m ∷ ms) w h =
    (inr (omega (arith, h.0, length-payload m w.0)), IsFitting-payloads cap ms w.1 h.1)
