-- ===== src/Copier/RandomToFile.antt =====
-- A copy of generated datagrams to a file: the loop of random_datagram_source.hpp, which commits one
-- datagram at a time, the queue, and the loop of file_datagram_destination.hpp together.
use dg_cat.Common.{
  ℕ, zero, suc, ◌+◌, ◌^◌, ◌≤◌, ◌<◌, ◌≡◌, refl, sym, ap, ◌∙◌, subst, false, List, [], ◌∷◌, arith,
  length, take, map, All, concat, size_mod, not, ◌==◌, ◌&&◌, leb, Bool-cases, inl, inr,
  length-tabulate,
}
use dg_cat.Wire.{Endian, prefix_len}
use dg_cat.Wire.Splits.{encode}
use dg_cat.Stats.{DgBufferStats}
use dg_cat.Queue.Commit.{Mmsghdr}
use dg_cat.Queue.Commit.Append.{IsMessage, payload}
use dg_cat.FileSource.Kept.{IsKept, stream-encode, IsFitting-payloads}
use dg_cat.RandomSource.{Draw, random_hex_digit, Generator, after_draw, generate}
use dg_cat.RandomSource.Generated.{IsDraw, drawn, generate_lem}
use dg_cat.Copier.{finished, System, Reach}
use dg_cat.Copier.Delivery.{initial}
use dg_cat.Copier.Lossless.{finished-lossless}

-- a call of `producer_commit_batch` for each message
abbrev pub one_by_one : List Mmsghdr → List (List Mmsghdr)
one_by_one [] = []
one_by_one (m ∷ ms) = (m ∷ []) ∷ one_by_one ms

concat-one_by_one : (ms : List Mmsghdr) → concat (one_by_one ms) ≡ ms
concat-one_by_one [] = refl
concat-one_by_one (m ∷ ms) = ap (λ ns. m ∷ ns) (concat-one_by_one ms)

generate-Kept : (n : ℕ) (ds : List Draw) (g : Generator) → All IsKept (generate n ds g).sent
unfolding generate after_draw
generate-Kept n [] g = tt
generate-Kept n (d ∷ ds) g = elim (Bool-cases (not (n == 0) && leb n g.n_datagrams)) [
  | inl enough ↦ rw (enough) tt
  | inr few ↦ elim (Bool-cases d.force_eof) [
    | inl by_force ↦ rw (few, by_force) tt
    | inr going ↦ rw (few, going) (refl, generate-Kept n ds (after_draw g d))
  ]
]

fits-drawn :
    (cap n : ℕ) (ds : List Draw)
    → All (λ d. d.size + prefix_len ≤ cap) ds
    → All (λ p. length p + prefix_len ≤ cap) (map drawn (take n ds))
fits-drawn cap zero ds h = tt
fits-drawn cap (suc n) [] h = tt
fits-drawn cap (suc n) (d ∷ ds) h = (
  omega (arith, length-tabulate d.size (λ i. random_hex_digit (d.digits i)), h.0),
  fits-drawn cap n ds h.1,
)

-- A random source that is to generate `n` datagrams, through a queue into a file: when the
-- destination's loop has ended, the file holds the frames of the `n` datagrams drawn, in order,
-- whatever the order of the threads. Every datagram fits with its prefix into the queue, no `write`
-- is short, and nobody ends the source by force.
pub random-to-file :
    (e : Endian) (max_write_size max_backlog n : ℕ) (shared : DgBufferStats) (ds : List Draw)
    (g : Generator) {t : System}
    → All IsDraw ds
    → 0 < n
    → n < size_mod
    → g.n_datagrams ≡ 0
    → n < length ds
    → All (λ d. d.size + prefix_len ≤ max_backlog) ds
    → 0 < max_write_size
    → 0 < max_backlog
    → max_backlog < 2 ^ 63
    → Reach e max_write_size (initial max_backlog shared (one_by_one (generate n ds g).sent)) t
    → t.consumer ≡ finished
    → t.missed ≡ 0
    → t.forced ≡ false
    → t.file ≡ encode (map drawn (take n ds))
random-to-file e mws cap n shared ds g draws pos below fresh more fits room0 room small r at_ full
      free_ =
    let ms = (generate n ds g).sent in
    let same = concat-one_by_one ms in
    let (all, messages, stops) = generate_lem n ds g draws pos below fresh more in
    let fitting =
      IsFitting-payloads cap ms messages
        (subst (All (λ p. length p + prefix_len ≤ cap)) (sym all) (fits-drawn cap n ds fits)) in
    let (over, written) =
      finished-lossless e mws cap shared (one_by_one ms) room0 room small
        (subst (All IsMessage) (sym same) messages)
        (subst (All (dg_cat.Queue.Commit.Fitting.IsFitting cap)) (sym same) fitting) r at_ full
        free_ in
    written
    ∙ ap (dg_cat.Queue.Commit.Append.stream) same
    ∙ stream-encode ms messages (generate-Kept n ds g)
    ∙ ap encode all
