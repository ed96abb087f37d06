-- ===== src/FileSource/Buffer.antt =====
-- The buffer of `FileDatagramSource` under `resize`, `read` and `memmove`.
use dg_cat.Common.{
  ℕ, ◌+◌, ◌-◌, ◌≤◌, ◌<◌, ◌≡◌, refl, List, [], ◌∷◌, ◌++◌, arith, length, slice, blit, ltb, inl,
  list_ext, length-slice, get_or-slice, length-append, get_or-append, length-replicate, replicate,
  get_or-blit, length-blit, max, if_cases, lt→ltb, le→ltb,
}
use native.Mathlib.Decide.{dec_lt}
use dg_cat.Wire.{prefix_len, be_value}
use dg_cat.Timespec.{Timespec}
use dg_cat.FileSource.{Parsed, Reader, grow, after_commit}
use dg_cat.FileSource.Parse.{held}
use dg_cat.FileSource.Spec.{front, IsReader}

-- Four bytes decide a prefix.
pub be_value-front : (xs ys : List ℕ) → prefix_len ≤ length xs → be_value (xs ++ ys) ≡ be_value xs
be_value-front (a ∷ b ∷ c ∷ d ∷ xs) ys h = refl
be_value-front [] ys h = absurd (omega arith)
be_value-front (a ∷ []) ys h = absurd (omega arith)
be_value-front (a ∷ b ∷ []) ys h = absurd (omega arith)
be_value-front (a ∷ b ∷ c ∷ []) ys h = absurd (omega arith)

-- The buffer after a `read`.
pub front-blit :
    (buffer : List ℕ) (n : ℕ) (bs : List ℕ)
    → n + length bs ≤ length buffer
    → slice (blit buffer n bs) 0 (n + length bs) ≡ slice buffer 0 n ++ bs
front-blit buffer n bs h =
    list_ext 0 _ _
      (omega (
        arith,
        length-slice (blit buffer n bs) 0 (n + length bs),
        length-blit buffer n bs,
        length-slice buffer 0 n,
        length-append (slice buffer 0 n) bs,
      ))
      λ i p. ground (
        arith,
        length-slice (blit buffer n bs) 0 (n + length bs),
        length-blit buffer n bs,
        length-slice buffer 0 n,
        get_or-slice (blit buffer n bs) 0 (n + length bs) i,
        get_or-blit buffer n bs i,
        get_or-append (slice buffer 0 n) bs i 0,
        get_or-slice buffer 0 n i,
      )

-- The buffer after `memmove`.
pub front-memmove :
    (buffer : List ℕ) (a n : ℕ)
    → a + n ≤ length buffer
    → slice (blit buffer 0 (slice buffer a n)) 0 n ≡ slice buffer a n
front-memmove buffer a n h =
    list_ext 0 _ _
      (omega (
        arith,
        length-slice (blit buffer 0 (slice buffer a n)) 0 n,
        length-blit buffer 0 (slice buffer a n),
        length-slice buffer a n,
      ))
      λ i p. ground (
        arith,
        length-slice (blit buffer 0 (slice buffer a n)) 0 n,
        length-blit buffer 0 (slice buffer a n),
        length-slice buffer a n,
        get_or-slice (blit buffer 0 (slice buffer a n)) 0 n i,
        get_or-blit buffer 0 (slice buffer a n) i,
      )

front-grow :
    (buffer : List ℕ) (n m : ℕ) → n ≤ length buffer → slice (grow buffer m) 0 n ≡ slice buffer 0 n
front-grow buffer n m h =
    if_cases (λ b. slice b 0 n ≡ slice buffer 0 n) (ltb (length buffer) m) _ _
      (λ _.
        list_ext 0 _ _
          (omega (
            arith,
            length-slice (buffer ++ replicate (m - length buffer) 0) 0 n,
            length-slice buffer 0 n,
            length-append buffer (replicate (m - length buffer) 0),
          ))
          λ i p. ground (
            arith,
            length-slice (buffer ++ replicate (m - length buffer) 0) 0 n,
            length-append buffer (replicate (m - length buffer) 0),
            get_or-slice (buffer ++ replicate (m - length buffer) 0) 0 n i,
            get_or-slice buffer 0 n i,
            get_or-append buffer (replicate (m - length buffer) 0) i 0,
          ))
      (λ _. refl)

length-grow : (buffer : List ℕ) (m : ℕ) → length (grow buffer m) ≡ max (length buffer) m
length-grow buffer m = ground (
  arith,
  length-append buffer (replicate (m - length buffer) 0),
  length-replicate {A = ℕ} (m - length buffer) 0,
)

pub grown-IsReader :
    (slots : ℕ) (r : Reader)
    → IsReader slots r
    → let r' = record r { buffer = grow r.buffer r.n_min } in
      IsReader slots r' × (front r' ≡ front r) × (r'.n_read < length r'.buffer)
grown-IsReader slots r v =
    let same = front-grow r.buffer r.n_read r.n_min v.inside in
    let len = length-grow r.buffer r.n_min in
    (
      record {
        inside = omega (arith, len, v);
        least = v.least;
        bounded = omega (arith, len, v);
        needed = v.needed;
        room = inl (omega (arith, len, v));
        part = rw same v.part;
        need = rw same v.need;
      },
      same,
      omega (arith, len, v),
    )

abbrev pub Shifted : Reader → ℕ → Reader → Type 0
Shifted r next r' =
    (length r'.buffer ≡ length r.buffer)
    × (r'.n_read ≡ r.n_read - next)
    × (front r' ≡ held r.buffer r.n_read next)
    × (r'.n_min ≡ prefix_len)

-- What is behind the committed datagrams is moved to the front.
pub after_commit-Shifted :
    (r : Reader) (p : Parsed) (now : Timespec) (clock : ℕ)
    → p.next ≤ r.n_read
    → r.n_read ≤ length r.buffer
    → Shifted r p.next (after_commit r p now clock)
unfolding after_commit
after_commit-Shifted r p now clock inside fit = elim (dec_lt p.next r.n_read) [
  | yes more ↦
      let rest = r.n_read - p.next in
      rw (lt→ltb p.next r.n_read more) (
        length-blit r.buffer 0 (slice r.buffer p.next rest),
        refl,
        front-memmove r.buffer p.next rest (omega arith),
        refl,
      )
  | no all ↦
      let none_ : r.n_read - p.next ≡ 0 = omega arith in
      rw (le→ltb p.next r.n_read (omega arith), none_) (refl, refl, refl, refl)
]
