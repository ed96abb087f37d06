-- ===== src/AddrInfo/Ownership.antt =====
-- Every result of `getaddrinfo` has one owner until it is freed, and is freed once.
use dg_cat.Common.{
  ℕ, zero, suc, ◌+◌, ◌≡◌, ◌<◌, refl, ap, ◌∙◌, List, [], ◌∷◌, ◌++◌, Option, none, some, length, ltb,
  ◌==◌, ◌&&◌, not, get_or, set, if◌then◌else◌, if_cases, arith, length-set, get_or-set,
}
use dg_cat.AddrInfo.Owners.{
  Owners, freeaddrinfo, remove_at, construct, construct_from, assign, swap, destroy, Operation,
  constructs, moves, assigns, swaps, destroys, operate_all, no_owners, is_alive,
}

-- how often a result stands at a place, among objects, and in what was freed
abbrev pub owns : ℕ → Option ℕ → ℕ
owns p none = 0
owns p (some k) = if p == k then 1 else 0

abbrev pub held : ℕ → List (Option ℕ) → ℕ
held p [] = 0
held p (o ∷ os) = owns p o + held p os

abbrev pub times : ℕ → List ℕ → ℕ
times p [] = 0
times p (k ∷ ks) = owns p (some k) + times p ks

-- how often a sequence of operations makes an owner of a result
abbrev pub acquired : ℕ → List Operation → ℕ
acquired p [] = 0
acquired p (constructs o ∷ os) = owns p o + acquired p os
acquired p (moves i ∷ os) = acquired p os
acquired p (assigns i j ∷ os) = acquired p os
acquired p (swaps i j ∷ os) = acquired p os
acquired p (destroys i ∷ os) = acquired p os

module _ (p : ℕ) where
  pub held-append : (os os' : List (Option ℕ)) → held p (os ++ os') ≡ held p os + held p os'
  held-append [] os' = omega arith
  held-append (o ∷ os) os' = omega (arith, held-append os os')

  pub times-append : (ks ks' : List ℕ) → times p (ks ++ ks') ≡ times p ks + times p ks'
  times-append [] ks' = omega arith
  times-append (k ∷ ks) ks' = omega (arith, times-append ks ks')

  times-freeaddrinfo :
      (ks : List ℕ) (o : Option ℕ) → times p (freeaddrinfo ks o) ≡ times p ks + owns p o
  times-freeaddrinfo ks none = omega arith
  times-freeaddrinfo ks (some k) = omega (arith, times-append ks (k ∷ []))

  held-set :
      (os : List (Option ℕ)) (i : ℕ) (o : Option ℕ)
      → i < length os
      → held p (set os i o) + owns p (get_or os i none) ≡ held p os + owns p o
  held-set [] i o h = absurd (omega arith)
  held-set (x ∷ os) zero o h = omega arith
  held-set (x ∷ os) (suc i) o h = omega (arith, held-set os i o (omega arith))

  held-remove_at :
      (os : List (Option ℕ)) (i : ℕ)
      → i < length os
      → held p (remove_at os i) + owns p (get_or os i none) ≡ held p os
  held-remove_at [] i h = absurd (omega arith)
  held-remove_at (x ∷ os) zero h = omega arith
  held-remove_at (x ∷ os) (suc i) h = omega (arith, held-remove_at os i (omega arith))

  -- the owners of a result, and how often it was freed
  abbrev pub uses : Owners → ℕ
  uses r = held p r.objects + times p r.freed

  construct_from-uses : (i : ℕ) (r : Owners) → uses (construct_from i r) ≡ uses r
  unfolding construct_from
  construct_from-uses i r =
      if_cases (λ t. uses t ≡ uses r) (is_alive r i) _ _
        (λ h. omega (
          arith,
          held-append (set r.objects i none) (get_or r.objects i none ∷ []),
          held-set r.objects i none (ground arith),
        ))
        (λ h. refl)

  destroy-uses : (i : ℕ) (r : Owners) → uses (destroy i r) ≡ uses r
  unfolding destroy
  destroy-uses i r =
      if_cases (λ t. uses t ≡ uses r) (is_alive r i) _ _
        (λ h. omega (
          arith,
          held-remove_at r.objects i (ground arith),
          times-freeaddrinfo r.freed (get_or r.objects i none),
        ))
        (λ h. refl)

  -- an object that is given what another one has, and that other one after it
  get_or-set_other :
      (os : List (Option ℕ)) (i j : ℕ)
      → get_or (set os i (get_or os j none)) j none ≡ get_or os j none
  get_or-set_other os i j = get_or-set os i j (get_or os j none) none ∙ same i j
    where
      same :
          (i j : ℕ)
          → (if i == j && ltb i (length os) then get_or os j none else get_or os j none)
            ≡ get_or os j none
      same i j = if_cases (λ o. o ≡ get_or os j none) _ _ _ (λ h. refl) (λ h. refl)

  held-set_both :
      (os : List (Option ℕ)) (i j : ℕ) (o : Option ℕ)
      → i < length os
      → j < length os
      → held p (set (set os i (get_or os j none)) j o) + owns p (get_or os i none)
        ≡ held p os + owns p o
  held-set_both os i j o within within' = omega (
    arith,
    held-set os i (get_or os j none) within,
    held-set (set os i (get_or os j none)) j o (omega (arith, length-set os i (get_or os j none))),
    ap (owns p) (get_or-set_other os i j),
  )

  assign-uses : (i j : ℕ) (r : Owners) → uses (assign i j r) ≡ uses r
  unfolding assign
  assign-uses i j r =
      if_cases (λ t. uses t ≡ uses r) (is_alive r i && (is_alive r j && not (i == j))) _ _
        (λ h. omega (
          arith,
          held-set_both r.objects i j none (ground arith) (ground arith),
          times-freeaddrinfo r.freed (get_or r.objects i none),
        ))
        (λ h. refl)

  swap-uses : (i j : ℕ) (r : Owners) → uses (swap i j r) ≡ uses r
  unfolding swap
  swap-uses i j r =
      if_cases (λ t. uses t ≡ uses r) (is_alive r i && is_alive r j) _ _
        (λ h. omega (
          arith,
          held-set_both r.objects i j (get_or r.objects i none) (ground arith) (ground arith),
        ))
        (λ h. refl)

  operate_all-uses :
      (os : List Operation) (r : Owners) → uses (operate_all os r) ≡ acquired p os + uses r
  operate_all-uses [] r = omega arith
  operate_all-uses (constructs o ∷ os) r =
      omega (arith, operate_all-uses os (construct o r), held-append r.objects (o ∷ []))
  operate_all-uses (moves i ∷ os) r =
      operate_all-uses os (construct_from i r)
      ∙ ap (λ n. acquired p os + n) (construct_from-uses i r)
  operate_all-uses (assigns i j ∷ os) r =
      operate_all-uses os (assign i j r) ∙ ap (λ n. acquired p os + n) (assign-uses i j r)
  operate_all-uses (swaps i j ∷ os) r =
      operate_all-uses os (swap i j r) ∙ ap (λ n. acquired p os + n) (swap-uses i j r)
  operate_all-uses (destroys i ∷ os) r =
      operate_all-uses os (destroy i r) ∙ ap (λ n. acquired p os + n) (destroy-uses i r)

-- Whatever objects are constructed, moved, assigned, swapped and destroyed, each result of
-- `getaddrinfo` has, for every time that a constructor was given it, either one object that owns it
-- or one call of `freeaddrinfo`.
pub operate_all-freed :
    (p : ℕ) (os : List Operation)
    → let r = operate_all os no_owners in held p r.objects + times p r.freed ≡ acquired p os
operate_all-freed p os = omega (arith, operate_all-uses p os no_owners)
