-- ===== src/RandomSource/Generated.antt =====
-- The datagrams that random_datagram_source.hpp commits, against the draws.
use dg_cat.Common.{
  All, ℕ, zero, suc, ◌+◌, ◌^◌, ◌≤◌, ◌<◌, ◌≡◌, refl, ap, ap₂, ◌%◌, ◌++◌, not, ◌==◌, ◌&&◌, ◌∙◌, true,
  false, List, [], ◌∷◌, arith, length, take, drop, tabulate, length-tabulate, take-all,
  length-append, map, size_mod, ◌⊎◌, leb,
}
use dg_cat.Batch.Laws.{take-append_le}
use dg_cat.Queue.Commit.Append.{IsMessage, payload}
use dg_cat.RandomSource.{
  Draw, random_hex_digit, Generator, fill, generated, after_draw, all_generated, Run, generate,
}

-- A character '0' to '9' or 'a' to 'f'.
abbrev pub IsHexDigit : ℕ → Type 0
IsHexDigit c = ((48 ≤ c) × (c ≤ 57)) ⊎ ((97 ≤ c) × (c ≤ 102))

-- A draw as the distributions give it.
pub record IsDraw (d : Draw) : Type 0 where
  pub going : d.force_eof ≡ false
  pub short : d.size < 2 ^ 32
  pub digit : (i : ℕ) → d.digits i ≤ 15

-- The characters of a draw.
abbrev pub drawn : Draw → List ℕ
drawn d = tabulate d.size (λ i. random_hex_digit (d.digits i))

random_hex_digit_lem : (dig : ℕ) → dig ≤ 15 → IsHexDigit (random_hex_digit dig)
unfolding random_hex_digit
random_hex_digit_lem dig h = ground arith

All-tabulate : (n : ℕ) (f : ℕ → ℕ) (P : ℕ → Type 0) → ((i : ℕ) → P (f i)) → All P (tabulate n f)
All-tabulate zero f P h = tt
All-tabulate (suc n) f P h = (h 0, All-tabulate n (λ i. f (suc i)) P (λ i. h (suc i)))

pub drawn-IsHexDigit : (d : Draw) → IsDraw d → All IsHexDigit (drawn d)
drawn-IsHexDigit d h =
    All-tabulate d.size _ IsHexDigit (λ i. random_hex_digit_lem (d.digits i) (h.digit i))

generated-payload :
    (buffer : List ℕ) (d : Draw)
    → IsDraw d
    → payload (generated (fill buffer d.size d.digits) d) ≡ drawn d
unfolding fill
generated-payload buffer d h =
    let n = length-tabulate d.size (λ i. random_hex_digit (d.digits i)) in
    let whole : d.size % 2 ^ 32 ≡ d.size = omega (arith, h.short) in
    ap (λ k. take k (drawn d ++ drop d.size buffer)) whole
    ∙ take-append_le d.size (drawn d) (drop d.size buffer) (omega arith)
    ∙ take-all d.size (drawn d) (omega arith)

generated-IsMessage :
    (buffer : List ℕ) (d : Draw) → IsDraw d → IsMessage (generated (fill buffer d.size d.digits) d)
unfolding fill
generated-IsMessage buffer d h =
    let n = length-tabulate d.size (λ i. random_hex_digit (d.digits i)) in
    record {
      short = omega arith;
      backed = omega (arith, h.short, length-append (drawn d) (drop d.size buffer));
    }

-- What a run has committed from where `n_datagrams` stands, if it stops at the number asked for.
pub record Generates (n_more : ℕ) (ds : List Draw) (r : Run) : Type 0 where
  pub payloads : map payload r.sent ≡ map drawn (take n_more ds)
  pub messages : All IsMessage r.sent
  pub stops : r.stop ≡ all_generated

generate-from :
    (n_more : ℕ) (ds : List Draw) (g : Generator) (n_to_generate : ℕ)
    → All IsDraw ds
    → 0 < n_to_generate
    → n_to_generate < size_mod
    → g.n_datagrams + n_more ≡ n_to_generate
    → n_more < length ds
    → Generates n_more ds (generate n_to_generate ds g)
unfolding generate after_draw
generate-from n_more [] g n h pos small eq more = absurd (omega arith)
generate-from zero (d ∷ ds) g n h pos small eq more =
    let enough : (not (n == 0) && leb n g.n_datagrams) ≡ true = ground arith in
    rw enough (record { payloads = refl; messages = tt; stops = refl })
generate-from (suc k) (d ∷ ds) g n h pos small eq more =
    let few : (not (n == 0) && leb n g.n_datagrams) ≡ false = ground arith in
    let r = generate-from k ds (after_draw g d) n h.1 pos small (omega arith) (omega arith) in
    rw (few, h.0.going)
      (record {
        payloads = ap₂ ◌∷◌ (generated-payload g.buffer d h.0) r.payloads;
        messages = (generated-IsMessage g.buffer d h.0, r.messages);
        stops = r.stops;
      })

-- With a number `n` to generate, no forced end and more rounds than `n`, the source commits exactly
-- `n` datagrams, each of the size and the characters drawn for it, and stops.
pub generate_lem :
    (n_to_generate : ℕ) (ds : List Draw) (g : Generator)
    → All IsDraw ds
    → 0 < n_to_generate
    → n_to_generate < size_mod
    → g.n_datagrams ≡ 0
    → n_to_generate < length ds
    → let r = generate n_to_generate ds g in
      (map payload r.sent ≡ map drawn (take n_to_generate ds))
      × All IsMessage r.sent
      × (r.stop ≡ all_generated)
generate_lem n ds g h pos small fresh more =
    let r = generate-from n ds g n h pos small (omega arith) more in
    (r.payloads, r.messages, r.stops)
