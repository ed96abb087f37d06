-- ===== src/Common/Memory.antt =====
-- Raw memory as a list of bytes: `memcpy` out of it, `memcpy` into it, and tables of bytes.
use Prim.Native.Nat.{ℕ, zero, suc, ◌+◌, ◌-◌, ◌<◌, ◌≤◌}
use mathlib.Core.Path.{◌≡◌, refl, ap}
use mathlib.Core.List.{List, [], ◌∷◌, ◌++◌}
use mathlib.Core.Bool.{◌&&◌}
use native.Mathlib.Omega.{arith}
use dg_cat.Common.Tests.{ltb, leb, ◌==◌, if◌then◌else◌}
use dg_cat.Common.Lists.{
  length, get_or, set, take, drop, length-set, length-take, length-drop, get_or-take, get_or-drop,
  get_or-set, get_or-append, length-append, list_ext,
}

-- The `n` bytes from address `off` on.
abbrev pub slice : List ℕ → ℕ → ℕ → List ℕ
slice mem off n = take n (drop off mem)

-- `memcpy(&mem[off], bs, length bs)`; a write out of bounds changes nothing.
abbrev pub blit : List ℕ → ℕ → List ℕ → List ℕ
blit mem off [] = mem
blit mem off (b ∷ bs) = blit (set mem off b) (suc off) bs

abbrev pub tabulate : ℕ → (ℕ → ℕ) → List ℕ
tabulate zero f = []
tabulate (suc n) f = f 0 ∷ tabulate n (λ i. f (suc i))

pub length-slice : (mem : List ℕ) (off n : ℕ) → off + n ≤ length mem → length (slice mem off n) ≡ n
length-slice mem off n h = omega (arith, length-take n (drop off mem), length-drop off mem)

pub get_or-slice :
    (mem : List ℕ) (off n i : ℕ) → i < n → get_or (slice mem off n) i 0 ≡ get_or mem (off + i) 0
get_or-slice mem off n i h =
    ground (arith, get_or-take n (drop off mem) i 0, get_or-drop off mem i 0)

pub length-blit : (mem : List ℕ) (off : ℕ) (bs : List ℕ) → length (blit mem off bs) ≡ length mem
length-blit mem off [] = refl
length-blit mem off (b ∷ bs) =
    omega (arith, length-blit (set mem off b) (suc off) bs, length-set mem off b)

get_or-cons :
    (b : ℕ) (bs : List ℕ) (k : ℕ)
    → get_or (b ∷ bs) k 0 ≡ (if k == 0 then b else get_or bs (k - 1) 0)
get_or-cons b bs zero = refl
get_or-cons b bs (suc k) = ground arith

pub get_or-blit :
    (mem : List ℕ) (off : ℕ) (bs : List ℕ) (j : ℕ)
    → off + length bs ≤ length mem
    → get_or (blit mem off bs) j 0
      ≡ (if leb off j && ltb j (off + length bs) then get_or bs (j - off) 0 else get_or mem j 0)
get_or-blit mem off [] j h = ground arith
get_or-blit mem off (b ∷ bs) j h = ground (
  arith,
  get_or-blit (set mem off b) (suc off) bs j,
  get_or-set mem off j b 0,
  length-set mem off b,
  get_or-cons b bs (j - off),
)

pub length-tabulate : (n : ℕ) (f : ℕ → ℕ) → length (tabulate n f) ≡ n
length-tabulate zero f = refl
length-tabulate (suc n) f = ap suc (length-tabulate n (λ i. f (suc i)))

pub get_or-tabulate : (n : ℕ) (f : ℕ → ℕ) (i : ℕ) → i < n → get_or (tabulate n f) i 0 ≡ f i
get_or-tabulate zero f i h = elim h [ ]
get_or-tabulate (suc n) f zero h = refl
get_or-tabulate (suc n) f (suc i) h = get_or-tabulate n (λ k. f (suc k)) i (omega arith)

-- A run of bytes is two runs, one after the other.
pub slice-add :
    (mem : List ℕ) (a n m : ℕ)
    → a + n + m ≤ length mem
    → slice mem a (n + m) ≡ slice mem a n ++ slice mem (a + n) m
slice-add mem a n m h =
    list_ext 0 _ _
      (omega (
        arith,
        length-slice mem a (n + m),
        length-slice mem a n,
        length-slice mem (a + n) m,
        length-append (slice mem a n) (slice mem (a + n) m),
      ))
      λ i p. ground (
        arith,
        length-slice mem a (n + m),
        length-slice mem a n,
        get_or-append (slice mem a n) (slice mem (a + n) m) i 0,
        get_or-slice mem a (n + m) i,
        get_or-slice mem a n i,
        get_or-slice mem (a + n) m (i - n),
      )
