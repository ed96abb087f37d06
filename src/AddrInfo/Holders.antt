-- ===== src/AddrInfo/Holders.antt =====
-- How many shared pointers of include/dg_cat/addrinfo.hpp the objects have.
use dg_cat.Common.{
  ℕ, zero, suc, ◌+◌, ◌≤◌, ◌<◌, ◌≡◌, refl, ap, List, [], ◌∷◌, ◌++◌, Option, none, some, length,
  get_or, set, arith, subst,
}
use dg_cat.AddrInfo.Ownership.{held}
use dg_cat.AddrInfo.Counts.{Sound, release_all-Sound}
use dg_cat.AddrInfo.Shared.{Object, Heap, pointers, release, release_all, remove_at}

-- how many shared pointers to a result the objects have
abbrev pub holders : ℕ → List Object → ℕ
holders b [] = 0
holders b (o ∷ os) = held b (pointers o) + holders b os

module _ (b : ℕ) where
  pub holders-append : (os os' : List Object) → holders b (os ++ os') ≡ holders b os + holders b os'
  holders-append [] os' = omega arith
  holders-append (o ∷ os) os' = omega (arith, holders-append os os')

  pub holders-set :
      (os : List Object) (i : ℕ) (o d : Object)
      → i < length os
      → holders b (set os i o) + held b (pointers (get_or os i d))
        ≡ holders b os + held b (pointers o)
  holders-set [] i o d h = absurd (omega arith)
  holders-set (x ∷ os) zero o d h = omega arith
  holders-set (x ∷ os) (suc i) o d h = omega (arith, holders-set os i o d (omega arith))

  pub holders-remove_at :
      (os : List Object) (i : ℕ) (d : Object)
      → i < length os
      → holders b (remove_at os i) + held b (pointers (get_or os i d)) ≡ holders b os
  holders-remove_at [] i d h = absurd (omega arith)
  holders-remove_at (x ∷ os) zero d h = omega arith
  holders-remove_at (x ∷ os) (suc i) d h = omega (arith, holders-remove_at os i d (omega arith))

  pub holders-nth :
      (os : List Object) (i : ℕ) (d : Object)
      → i < length os
      → held b (pointers (get_or os i d)) ≤ holders b os
  holders-nth os i d h = omega (arith, holders-remove_at os i d h)

  -- Every use count is that of the objects' shared pointers.
  abbrev pub Counted : Heap → Type 0
  Counted h = Sound b h.counts h.destroyed (holders b h.objects)

  release_all-objects : (ps : List (Option ℕ)) (h : Heap) → (release_all ps h).objects ≡ h.objects
  release_all-objects [] h = refl
  release_all-objects (none ∷ ps) h = release_all-objects ps h
  release_all-objects (some k ∷ ps) h = release_all-objects ps (release (some k) h)

  pub release_all-Counted :
      (ps : List (Option ℕ)) (h : Heap) (n : ℕ)
      → Sound b h.counts h.destroyed n
      → holders b h.objects + held b ps ≡ n
      → Counted (release_all ps h)
  release_all-Counted ps h n s sum =
      subst (Sound b (release_all ps h).counts (release_all ps h).destroyed)
        (omega (arith, ap (holders b) (release_all-objects ps h)))
        (release_all-Sound b ps h n s (omega arith))
