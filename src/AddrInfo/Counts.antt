-- ===== src/AddrInfo/Counts.antt =====
-- The use counts of the shared pointers in include/dg_cat/addrinfo.hpp.
use dg_cat.Common.{
  ℕ, zero, suc, ◌+◌, ◌-◌, ◌≤◌, ◌<◌, ◌≡◌, ap, List, [], ◌∷◌, Option, none, some, length, ltb, ◌==◌,
  ◌&&◌, get_or, if◌then◌else◌, arith, length-set, get_or-set, subst,
}
use native.Mathlib.Decide.{ℕ_discrete}
use dg_cat.AddrInfo.Ownership.{owns, held, times, times-append}
use dg_cat.AddrInfo.Shared.{Heap, share, share_all, release, release_all}

-- The use count of a result is `n`, and it was destroyed once if it is there and `n` is zero.
abbrev pub Sound : ℕ → List ℕ → List ℕ → ℕ → Type 0
Sound b counts destroyed n =
    (get_or counts b 0 ≡ n)
    × (times b destroyed ≡ (if ltb b (length counts) && n == 0 then 1 else 0))

module _ (b : ℕ) where
  pub get_or-inside : (c : List ℕ) (i : ℕ) → 0 < get_or c i 0 → i < length c
  get_or-inside [] i h = absurd (omega arith)
  get_or-inside (x ∷ c) zero h = omega arith
  get_or-inside (x ∷ c) (suc i) h = omega (arith, get_or-inside c i h)

  share-Sound :
      (p : Option ℕ) (c d : List ℕ) (n : ℕ)
      → Sound b c d n
      → (0 < owns b p → 0 < n)
      → Sound b (share p c) d (n + owns b p)
  share-Sound none c d n (used, gone) some_ = (omega arith, ground arith)
  share-Sound (some k) c d n (used, gone) some_ = elim (ℕ_discrete b k) [
    | yes same ↦
        let inside = get_or-inside c b (omega (arith, some_ (ground arith))) in
        (
          ground (arith, get_or-set c k b (get_or c k 0 + 1) 0, ap (λ i. get_or c i 0) same),
          ground (arith, length-set c k (get_or c k 0 + 1), some_ (ground arith)),
        )
    | no other ↦ (
      ground (arith, get_or-set c k b (get_or c k 0 + 1) 0),
      ground (arith, length-set c k (get_or c k 0 + 1)),
    )
  ]

  release-Sound :
      (p : Option ℕ) (h : Heap) (n : ℕ)
      → Sound b h.counts h.destroyed n
      → owns b p ≤ n
      → Sound b (release p h).counts (release p h).destroyed (n - owns b p)
  release-Sound none h n (used, gone) within = (omega arith, ground arith)
  release-Sound (some k) h n (used, gone) within =
      let left = get_or h.counts k 0 - 1 in
      elim (ℕ_discrete b k) [
        | yes same ↦
            let some_ : 0 < n = ground arith in
            let inside = get_or-inside h.counts b (omega arith) in
            (
              ground (arith, get_or-set h.counts k b left 0, ap (λ i. get_or h.counts i 0) same),
              ground (
                arith,
                length-set h.counts k left,
                times-append b h.destroyed (k ∷ []),
                ap (λ i. get_or h.counts i 0) same,
              ),
            )
        | no other ↦ (
          ground (arith, get_or-set h.counts k b left 0),
          ground (arith, length-set h.counts k left, times-append b h.destroyed (k ∷ [])),
        )
      ]

  pub share_all-Sound :
      (ps : List (Option ℕ)) (c d : List ℕ) (n : ℕ)
      → Sound b c d n
      → (0 < held b ps → 0 < n)
      → Sound b (share_all ps c) d (n + held b ps)
  share_all-Sound [] c d n s some_ = subst (Sound b c d) (omega arith) s
  share_all-Sound (p ∷ ps) c d n s some_ =
      subst (Sound b (share_all ps (share p c)) d) (omega arith) (
        share_all-Sound ps (share p c) d (n + owns b p)
          (share-Sound p c d n s (λ h. some_ (omega arith)))
          (λ h. omega (arith, some_ (omega arith))))

  pub release_all-Sound :
      (ps : List (Option ℕ)) (h : Heap) (n : ℕ)
      → Sound b h.counts h.destroyed n
      → held b ps ≤ n
      → Sound b (release_all ps h).counts (release_all ps h).destroyed (n - held b ps)
  release_all-Sound [] h n s within = subst (Sound b h.counts h.destroyed) (omega arith) s
  release_all-Sound (p ∷ ps) h n s within =
      subst (Sound b (release_all ps (release p h)).counts (release_all ps (release p h)).destroyed)
        (omega arith)
        (release_all-Sound ps (release p h) (n - owns b p) (release-Sound p h n s (omega arith))
          (omega arith))
