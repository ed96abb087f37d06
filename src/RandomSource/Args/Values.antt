-- ===== src/RandomSource/Args/Values.antt =====
-- What the arguments of `random://` set: of each key the last value counts.
use dg_cat.Common.{
  ℕ, ◌%◌, ◌^◌, ◌≡◌, refl, sym, ap, ◌∙◌, ap₂, subst, Bool, true, false, List, [], ◌∷◌, Option, none,
  some, ◌&&◌, ◌||◌, if◌then◌else◌, Bool-cases, ◌⊎◌, inl, inr, arith,
}
use dg_cat.RandomSource.Args.{same_string, with_number, RandomArgs, assign}
use dg_cat.RandomSource.Args.Printed.{assign_all}

-- "n", "min_size", "max_size" and "seed"
abbrev pub n_string : List ℕ
n_string = 110 ∷ []

abbrev pub min_size_string : List ℕ
min_size_string = 109 ∷ 105 ∷ 110 ∷ 95 ∷ 115 ∷ 105 ∷ 122 ∷ 101 ∷ []

abbrev pub max_size_string : List ℕ
max_size_string = 109 ∷ 97 ∷ 120 ∷ 95 ∷ 115 ∷ 105 ∷ 122 ∷ 101 ∷ []

abbrev pub seed_string : List ℕ
seed_string = 115 ∷ 101 ∷ 101 ∷ 100 ∷ []

abbrev is_known : List ℕ → Bool
is_known key =
    same_string key n_string
    || same_string key min_size_string
    || same_string key max_size_string
    || same_string key seed_string

abbrev is_some : Option ℕ → Bool
is_some none = false
is_some (some k) = true

abbrev value_of : Option ℕ → ℕ
value_of none = 0
value_of (some k) = k

module _ (stoul : List ℕ → Option ℕ) where
  -- the number behind the last argument with this key, or `k` if there is none
  abbrev pub last_value : List ℕ → ℕ → List (List ℕ × List ℕ) → ℕ
  last_value key k [] = k
  last_value key k (kv ∷ kvs) =
      last_value key (if same_string kv.0 key then value_of (stoul kv.1) else k) kvs

  -- Every key is one of the four, and every value is read as a number.
  abbrev pub all_known : List (List ℕ × List ℕ) → Bool
  all_known [] = true
  all_known (kv ∷ kvs) = is_known kv.0 && (is_some (stoul kv.1) && all_known kvs)

  -- what is set
  abbrev pub all_set : (n lo hi seed : ℕ) → List (List ℕ × List ℕ) → Option RandomArgs
  all_set n lo hi seed kvs =
      if all_known kvs
      then some (record {
        n_to_generate = last_value n_string n kvs;
        min_size = last_value min_size_string lo kvs;
        max_size = last_value max_size_string hi kvs;
        seed = last_value seed_string seed kvs % 2 ^ 32;
      })
      else none

same_string-eq : (xs ys : List ℕ) → same_string xs ys ≡ true → xs ≡ ys
same_string-eq [] [] h = refl
same_string-eq [] (y ∷ ys) h = absurd (ground (arith, h))
same_string-eq (x ∷ xs) [] h = absurd (ground (arith, h))
same_string-eq (x ∷ xs) (y ∷ ys) h =
    ap₂ ◌∷◌ (ground (arith, h)) (same_string-eq xs ys (ground (arith, h)))

Option-cases : (o : Option ℕ) → (o ≡ none) ⊎ ((k : ℕ) × (o ≡ some k))
Option-cases none = inl refl
Option-cases (some k) = inr (k, refl)

-- what an assignment leaves
abbrev put : (ℕ → RandomArgs) → Option ℕ → Option RandomArgs
put f none = none
put f (some k) = some (f k)

module _ (stoul : List ℕ → Option ℕ) where
  -- An assignment of each key.
  assign-known :
      (a : RandomArgs) (v : List ℕ) (o : Option ℕ)
      → stoul v ≡ o
      → (assign stoul a n_string v ≡ put (λ k. record a { n_to_generate = k }) o)
        × (assign stoul a min_size_string v ≡ put (λ k. record a { min_size = k }) o)
        × (assign stoul a max_size_string v ≡ put (λ k. record a { max_size = k }) o)
        × (assign stoul a seed_string v ≡ put (λ k. record a { seed = k % 2 ^ 32 }) o)
  unfolding assign
  assign-known a v o read = (
    as_put (λ k. record a { n_to_generate = k }) (stoul v)
        ∙ ap (put (λ k. record a { n_to_generate = k })) read,
    as_put (λ k. record a { min_size = k }) (stoul v)
        ∙ ap (put (λ k. record a { min_size = k })) read,
    as_put (λ k. record a { max_size = k }) (stoul v)
        ∙ ap (put (λ k. record a { max_size = k })) read,
    as_put (λ k. record a { seed = k % 2 ^ 32 }) (stoul v)
        ∙ ap (put (λ k. record a { seed = k % 2 ^ 32 })) read,
  )
    where
      as_put : (f : ℕ → RandomArgs) (o : Option ℕ) → with_number stoul f o ≡ put f o
      as_put f none = refl
      as_put f (some k) = refl

  assign-unknown :
      (a : RandomArgs) (key v : List ℕ) → is_known key ≡ false → assign stoul a key v ≡ none
  unfolding assign
  assign-unknown a key v h = ground arith

  abbrev then_assign : List (List ℕ × List ℕ) → Option RandomArgs → Option RandomArgs
  then_assign kvs none = none
  then_assign kvs (some a) = assign_all stoul a kvs

  assign_all-step :
      (a : RandomArgs) (key v : List ℕ) (kvs : List (List ℕ × List ℕ)) (o : Option RandomArgs)
      → assign stoul a key v ≡ o
      → assign_all stoul a ((key, v) ∷ kvs) ≡ then_assign kvs o
  assign_all-step a key v kvs o read = go (assign stoul a key v) ∙ ap (then_assign kvs) read
    where
      go :
          (o : Option RandomArgs)
          → elim o [ none ↦ none | some a' ↦ assign_all stoul a' kvs ] ≡ then_assign kvs o
      go none = refl
      go (some a') = refl

  -- The assignments one after the other throw where a key is unknown or a value is no number, and
  -- otherwise leave the last value of each key.
  pub assign_all_lem :
      (kvs : List (List ℕ × List ℕ)) (n lo hi seed : ℕ)
      → assign_all stoul
          (record { n_to_generate = n; min_size = lo; max_size = hi; seed = seed % 2 ^ 32 })
          kvs
        ≡ all_set stoul n lo hi seed kvs
  assign_all_lem [] n lo hi seed = refl
  assign_all_lem ((key, v) ∷ kvs) n lo hi seed = elim (Bool-cases (same_string key n_string)) [
    | inl is_n ↦
        subst (λ x. Sets x) (sym (same_string-eq key n_string is_n))
          (elim (Option-cases (stoul v)) [
            | inl bad ↦
                assign_all-step a n_string v kvs none (assign-known a v none bad).0 ∙ rw bad refl
            | inr (k, good) ↦
                assign_all-step a n_string v kvs _ (assign-known a v (some k) good).0
                ∙ rw good (assign_all_lem kvs k lo hi seed)
          ])
    | inr not_n ↦ elim (Bool-cases (same_string key min_size_string)) [
      | inl is_min ↦
          subst (λ x. Sets x) (sym (same_string-eq key min_size_string is_min))
            (elim (Option-cases (stoul v)) [
              | inl bad ↦
                  assign_all-step a min_size_string v kvs none (assign-known a v none bad).1
                  ∙ rw bad refl
              | inr (k, good) ↦
                  assign_all-step a min_size_string v kvs _ (assign-known a v (some k) good).1
                  ∙ rw good (assign_all_lem kvs n k hi seed)
            ])
      | inr not_min ↦ elim (Bool-cases (same_string key max_size_string)) [
        | inl is_max ↦
            subst (λ x. Sets x) (sym (same_string-eq key max_size_string is_max))
              (elim (Option-cases (stoul v)) [
                | inl bad ↦
                    assign_all-step a max_size_string v kvs none (assign-known a v none bad).2
                    ∙ rw bad refl
                | inr (k, good) ↦
                    assign_all-step a max_size_string v kvs _ (assign-known a v (some k) good).2
                    ∙ rw good (assign_all_lem kvs n lo k seed)
              ])
        | inr not_max ↦ elim (Bool-cases (same_string key seed_string)) [
          | inl is_seed ↦
              subst (λ x. Sets x) (sym (same_string-eq key seed_string is_seed))
                (elim (Option-cases (stoul v)) [
                  | inl bad ↦
                      assign_all-step a seed_string v kvs none (assign-known a v none bad).3
                      ∙ rw bad refl
                  | inr (k, good) ↦
                      assign_all-step a seed_string v kvs _ (assign-known a v (some k) good).3
                      ∙ rw good (assign_all_lem kvs n lo hi k)
                ])
          | inr not_seed ↦
              let unknown : is_known key ≡ false = ground arith in
              assign_all-step a key v kvs none (assign-unknown a key v unknown)
              ∙ rw (not_n, not_min, not_max, not_seed) refl
        ]
      ]
    ]
  ]
    where
      a : RandomArgs
      a = record { n_to_generate = n; min_size = lo; max_size = hi; seed = seed % 2 ^ 32 }

      Sets : List ℕ → Type 0
      Sets x =
          assign_all stoul
            (record { n_to_generate = n; min_size = lo; max_size = hi; seed = seed % 2 ^ 32 })
            ((x, v) ∷ kvs)
          ≡ all_set stoul n lo hi seed ((x, v) ∷ kvs)
