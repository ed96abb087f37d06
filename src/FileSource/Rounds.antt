-- ===== src/FileSource/Rounds.antt =====
-- A round of `FileDatagramSource::copy_to_buffer_queue`: what it does to the buffer and the stream.
use dg_cat.Common.{
  ℕ, ◌+◌, ◌-◌, ◌≤◌, ◌<◌, ◌≡◌, refl, sym, ap, ◌∙◌, Bool, true, false, List, [], ◌∷◌, ◌++◌, Option,
  none, some, arith, length, take, drop, ltb, subst, length-take, length-drop, append-nil, min,
  take-append-drop, if_cases, ltb→lt, ltb→le,
}
use dg_cat.Wire.{Endian}
use dg_cat.Wire.Splits.{Splits, IsPartial, Splits-unique}
use dg_cat.Timespec.{Timespec}
use dg_cat.Queue.Commit.{Mmsghdr}
use dg_cat.FileSource.{
  Parsed, Reader, Event, chunk, interrupted, bad_handle, broken, Round, again, commits, ends,
  forced, throws, overruns, grow, settle, on_parsed, on_bytes, round, at_eof, Outcome, go_on,
}
use dg_cat.FileSource.Spec.{front, IsReader, IsShort, Ready, RoundGood}
use dg_cat.FileSource.Buffer.{grown-IsReader}
use dg_cat.FileSource.Filled.{filled-Ready, parsed-RoundGood}

module _ (e : Endian) (slots : ℕ) (r : Reader) (s : List ℕ) (ps : List (List ℕ)) (rest : List ℕ)
    (now : Timespec) (clock : ℕ) (v : IsReader slots r) (short : IsShort slots ps rest)
    (ending : IsPartial rest) where
  -- The body of the loop behind `read`; with no byte read the stream is at its end.
  on_bytes-RoundGood :
      (r0 : Reader) (bs : List ℕ)
      → front r ≡ front r0
      → (bs ≡ [] → s ≡ [])
      → r.n_read + length bs ≤ length r.buffer
      → Splits (front r ++ (bs ++ s)) ps rest
      → RoundGood slots r0 ps rest (on_bytes e slots r now clock bs, s)
  unfolding on_bytes
  on_bytes-RoundGood r0 [] same eof fits denotes =
      let all : front r ++ s ≡ front r0 =
        ap (λ x. front r ++ x) (eof refl) ∙ append-nil (front r) ∙ same in
      let part : IsPartial (front r0) = subst IsPartial same v.part in
      let u =
        Splits-unique ps [] (front r0) rest (front r0) (subst (λ x. Splits x ps rest) all denotes)
          refl ending part in
      (u.0, sym u.1)
  on_bytes-RoundGood r0 (b ∷ bs) same eof fits denotes =
      if_cases (λ x. RoundGood slots r0 ps rest (x, s)) (ltb (r.n_read + length (b ∷ bs)) r.n_min) _
        _
        (λ low.
          filled-Ready e slots r (b ∷ bs) s ps rest now clock v fits (omega arith) denotes short
            ending (ltb→lt _ _ low))
        (λ enough.
          parsed-RoundGood e slots r (b ∷ bs) s ps rest now clock v fits (omega arith) denotes short
            ending r0 (ltb→le _ _ enough))

length-zero : (xs : List ℕ) → length xs ≡ 0 → xs ≡ []
length-zero [] h = refl
length-zero (x ∷ xs) h = absurd (omega arith)

-- Every round keeps the denotation.
pub round-RoundGood :
    (e : Endian) (slots : ℕ) (r : Reader) (s : List ℕ) (ps : List (List ℕ)) (rest : List ℕ)
    (ev : Event)
    → Ready slots r s ps rest
    → RoundGood slots r ps rest (round e slots r s ev)
unfolding round
round-RoundGood e slots r s ps rest (chunk k now clock) ready =
    let (v, same, room) = grown-IsReader slots r ready.reader in
    let nb1 = min (k + 1) (length (grow r.buffer r.n_min) - r.n_read) in
    let cut = length-take nb1 s in
    on_bytes-RoundGood e slots (record r { buffer = grow r.buffer r.n_min }) (drop nb1 s) ps rest
      now clock v ready.short ready.ending r (take nb1 s) same
      (λ h. length-zero (drop nb1 s) (omega (arith, ap length h, cut, length-drop nb1 s, room)))
      (omega (arith, cut, room)) (rw (same, take-append-drop nb1 s) ready.denotes)
round-RoundGood e slots r s ps rest interrupted ready =
    let (v, same, room) = grown-IsReader slots r ready.reader in
    record {
      reader = v;
      denotes = rw same ready.denotes;
      short = ready.short;
      ending = ready.ending;
    }
round-RoundGood e slots r s ps rest (bad_handle true) ready = tt
round-RoundGood e slots r s ps rest (bad_handle false) ready = tt
round-RoundGood e slots r s ps rest broken ready = tt

-- A round of a schedule that never fails uses up bytes, or ends the loop.
abbrev pub Moves : ℕ → Round × List ℕ → Type 0
Moves n (again r', s) = length s < n
Moves n (commits ms r', s) = length s < n
Moves n (ends, s) = Unit
Moves n (forced, s) = ⊥
Moves n (throws, s) = ⊥
Moves n (overruns, s) = Unit

abbrev pub is_chunk : Event → Bool
is_chunk (chunk k now clock) = true
is_chunk _ = false

abbrev pub AllChunks : List Event → Type 0
AllChunks [] = Unit
AllChunks (ev ∷ evs) = (is_chunk ev ≡ true) × AllChunks evs

settle-Moves :
    (r : Reader) (now : Timespec) (clock : ℕ) (p : Parsed) (ms : List Mmsghdr) (s : List ℕ) (n : ℕ)
    → length s < n
    → Moves n (settle r now clock p ms, s)
unfolding settle
settle-Moves r now clock p [] s n h = h
settle-Moves r now clock p (m ∷ ms) s n h = h

parsed-Moves :
    (r : Reader) (now : Timespec) (clock : ℕ) (p : Option Parsed) (s : List ℕ) (n : ℕ)
    → length s < n
    → Moves n (on_parsed r now clock p, s)
unfolding on_parsed
parsed-Moves r now clock none s n h = tt
parsed-Moves r now clock (some p) s n h = settle-Moves r now clock p p.msgs s n h

bytes-Moves :
    (e : Endian) (slots : ℕ) (r : Reader) (now : Timespec) (clock : ℕ) (bs s : List ℕ)
    → Moves (length bs + length s) (on_bytes e slots r now clock bs, s)
unfolding on_bytes
bytes-Moves e slots r now clock [] s = tt
bytes-Moves e slots r now clock (b ∷ bs) s =
    if_cases (λ x. Moves (length (b ∷ bs) + length s) (x, s))
      (ltb (r.n_read + length (b ∷ bs)) r.n_min) _ _ (λ _. omega arith)
      (λ _. parsed-Moves _ now clock _ s (length (b ∷ bs) + length s) (omega arith))

pub round-Moves :
    (e : Endian) (slots : ℕ) (r : Reader) (s : List ℕ) (ev : Event)
    → is_chunk ev ≡ true
    → Moves (length s) (round e slots r s ev)
unfolding round
round-Moves e slots r s (chunk k now clock) h =
    let nb1 = min (k + 1) (length (grow r.buffer r.n_min) - r.n_read) in
    let whole : length (take nb1 s) + length (drop nb1 s) ≡ length s =
      omega (arith, length-take nb1 s, length-drop nb1 s) in
    rw whole at (
      bytes-Moves e slots (record r { buffer = grow r.buffer r.n_min }) now clock (take nb1 s)
        (drop nb1 s))
round-Moves e slots r s interrupted h = cc
round-Moves e slots r s (bad_handle f) h = cc
round-Moves e slots r s broken h = cc

pub go_on-at_eof :
    (slots : ℕ) (later : Reader → List ℕ → Outcome) (r : Reader) (x : Round × List ℕ)
    (ps : List (List ℕ)) (rest : List ℕ) (n : ℕ)
    → RoundGood slots r ps rest x
    → Moves n x
    → ((r' : Reader) (s : List ℕ) (qs : List (List ℕ))
        → Ready slots r' s qs rest
        → length s < n
        → (later r' s).stop ≡ at_eof)
    → (go_on later r x).stop ≡ at_eof
unfolding go_on
go_on-at_eof slots later r (again r', s) ps rest n g m h = h r' s ps g m
go_on-at_eof slots later r (commits ms r', s) ps rest n (qs, eq, all, ready) m h = h r' s qs ready m
go_on-at_eof slots later r (ends, s) ps rest n g m h = refl
go_on-at_eof slots later r (forced, s) ps rest n g m h = absurd m
go_on-at_eof slots later r (throws, s) ps rest n g m h = absurd m
go_on-at_eof slots later r (overruns, s) ps rest n g m h = absurd g
