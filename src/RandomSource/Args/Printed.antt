-- ===== src/RandomSource/Args/Printed.antt =====
-- The arguments of `random://`, written as `key=value&key=value`.
use dg_cat.Common.{
  All, ℕ, zero, suc, ◌+◌, ◌<◌, ◌≤◌, ◌≡◌, ◌≢◌, refl, ap, ap₂, ◌∙◌, true, false, List, [], ◌∷◌, ◌++◌,
  Option, none, some, take, drop, length, ◌==◌, arith, length-append, append-nil,
}
use dg_cat.RandomSource.Args.{
  find_char, char_eq, char_amp, RandomArgs, take_arg, assign, set_arg, parse_args,
}

abbrev pub print_arg : List ℕ × List ℕ → List ℕ
print_arg (key, val_s) = key ++ (char_eq ∷ val_s)

abbrev pub print_more : List (List ℕ × List ℕ) → List ℕ
print_more [] = []
print_more (kv ∷ kvs) = char_amp ∷ (print_arg kv ++ print_more kvs)

-- The arguments with a '&' between them.
abbrev pub print_args : List (List ℕ × List ℕ) → List ℕ
print_args [] = []
print_args (kv ∷ kvs) = print_arg kv ++ print_more kvs

-- A key has no '=' and no '&', a value has no '&'.
abbrev pub IsArg : List ℕ × List ℕ → Type 0
IsArg (key, val_s) = All (λ c. (c ≢ char_eq) × (c ≢ char_amp)) key × All (λ c. c ≢ char_amp) val_s

module _ (stoul : List ℕ → Option ℕ) where
  -- The arguments one after the other.
  abbrev pub assign_all : RandomArgs → List (List ℕ × List ℕ) → Option RandomArgs
  assign_all a [] = some a
  assign_all a (kv ∷ kvs) = elim (assign stoul a kv.0 kv.1) [
    | none ↦ none
    | some a' ↦ assign_all a' kvs
  ]

find_char-none : (c : ℕ) (xs : List ℕ) → All (λ x. x ≢ c) xs → find_char c xs ≡ none
find_char-none c [] h = refl
find_char-none c (x ∷ xs) h =
    let other : (x == c) ≡ false = ground (arith, h.0) in rw (other, find_char-none c xs h.1) refl

find_char-first :
    (c : ℕ) (xs ys : List ℕ) → All (λ x. x ≢ c) xs → find_char c (xs ++ (c ∷ ys)) ≡ some (length xs)
find_char-first c [] ys h = let same : (c == c) ≡ true = ground arith in rw same refl
find_char-first c (x ∷ xs) ys h =
    let other : (x == c) ≡ false = ground (arith, h.0) in
    rw (other, find_char-first c xs ys h.1) refl

pub before {ℓ} :
    {A : Type ℓ} (xs : List A) (y : A) (ys : List A) → take (length xs) (xs ++ (y ∷ ys)) ≡ xs
before [] y ys = refl
before (x ∷ xs) y ys = ap (λ r. x ∷ r) (before xs y ys)

pub behind {ℓ} :
    {A : Type ℓ} (xs : List A) (y : A) (ys : List A) → drop (length xs + 1) (xs ++ (y ∷ ys)) ≡ ys
behind [] y ys = refl
behind (x ∷ xs) y ys =
    let moved : suc (length xs) + 1 ≡ suc (length xs + 1) = omega arith in
    ap (λ k. drop k (x ∷ (xs ++ (y ∷ ys)))) moved ∙ behind xs y ys

no_ampersand : (kv : List ℕ × List ℕ) → IsArg kv → All (λ c. c ≢ char_amp) (print_arg kv)
no_ampersand (key, val_s) h = from key h.0
  where
    from :
        (xs : List ℕ)
        → All (λ c. (c ≢ char_eq) × (c ≢ char_amp)) xs
        → All (λ c. c ≢ char_amp) (xs ++ (char_eq ∷ val_s))
    from [] k = (omega arith, h.1)
    from (x ∷ xs) k = (k.0.1, from xs k.1)

no_equals :
    (key : List ℕ) → All (λ c. (c ≢ char_eq) × (c ≢ char_amp)) key → All (λ c. c ≢ char_eq) key
no_equals [] h = tt
no_equals (x ∷ xs) h = (h.0.0, no_equals xs h.1)

take_arg-print :
    (kv : List ℕ × List ℕ) (kvs : List (List ℕ × List ℕ))
    → IsArg kv
    → take_arg (print_arg kv ++ print_more kvs) ≡ (print_arg kv, print_args kvs)
take_arg-print kv [] h =
    let alone = append-nil (print_arg kv) in
    rw (alone, find_char-none char_amp (print_arg kv) (no_ampersand kv h)) refl
take_arg-print kv (next ∷ kvs) h =
    let arg = print_arg kv in
    let rest = print_args (next ∷ kvs) in
    rw (find_char-first char_amp arg rest (no_ampersand kv h))
      (λ i. (before arg char_amp rest i, behind arg char_amp rest i))

module _ (stoul : List ℕ → Option ℕ) where
  set_arg-print :
      (a : RandomArgs) (kv : List ℕ × List ℕ)
      → IsArg kv
      → set_arg stoul a (print_arg kv) ≡ assign stoul a kv.0 kv.1
  set_arg-print a (key, val_s) h =
      rw (find_char-first char_eq key val_s (no_equals key h.0))
        (ap₂ (assign stoul a) (before key char_eq val_s) (behind key char_eq val_s))

  abbrev then_parse : ℕ → List ℕ → Option RandomArgs → Option RandomArgs
  then_parse fuel rest none = none
  then_parse fuel rest (some a) = parse_args stoul fuel a rest

  parse_args-step :
      (fuel : ℕ) (a : RandomArgs) (s : List ℕ)
      → 0 < length s
      → parse_args stoul (suc fuel) a s
        ≡ then_parse fuel (take_arg s).1 (set_arg stoul a (take_arg s).0)
  unfolding parse_args
  parse_args-step fuel a [] some_ = absurd (omega arith)
  parse_args-step fuel a (c ∷ s) some_ = elim (set_arg stoul a (take_arg (c ∷ s)).0) [
    | none ↦ refl
    | some a' ↦ refl
  ]

  -- The constructor's loop reads the arguments back and assigns them in their order: it throws where
  -- an assignment throws, and the last one of a key counts. The fuel is more than the length.
  pub parse_args-print :
      (kvs : List (List ℕ × List ℕ)) (fuel : ℕ) (a : RandomArgs)
      → All IsArg kvs
      → length (print_args kvs) < fuel
      → parse_args stoul fuel a (print_args kvs) ≡ assign_all stoul a kvs
  unfolding parse_args
  parse_args-print [] fuel a h enough = refl
  parse_args-print (kv ∷ kvs) zero a h enough = absurd (omega arith)
  parse_args-print (kv ∷ kvs) (suc fuel) a h enough =
      let s = print_arg kv ++ print_more kvs in
      let taken = take_arg-print kv kvs h.0 in
      parse_args-step fuel a s (
        omega (
          arith,
          length-append (print_arg kv) (print_more kvs),
          length-append kv.0 (char_eq ∷ kv.1),
        ))
      ∙ ap (λ (p : List ℕ × List ℕ). then_parse fuel p.1 (set_arg stoul a p.0)) taken
      ∙ ap (then_parse fuel (print_args kvs)) (set_arg-print a kv h.0)
      ∙ later (λ a'. parse_args-print kvs fuel a' h.1 shorter) (assign stoul a kv.0 kv.1)
    where
      shorter : length (print_args kvs) < fuel
      shorter = omega (
        arith,
        length-append (print_arg kv) (print_more kvs),
        length-append kv.0 (char_eq ∷ kv.1),
        less kvs,
        enough,
      )
        where
          less : (ks : List (List ℕ × List ℕ)) → length (print_args ks) ≤ length (print_more ks)
          less [] = omega arith
          less (k ∷ ks) = omega arith

      later :
          ((a' : RandomArgs) → parse_args stoul fuel a' (print_args kvs) ≡ assign_all stoul a' kvs)
          → (o : Option RandomArgs)
          → then_parse fuel (print_args kvs) o
            ≡ elim o [ none ↦ none | some a' ↦ assign_all stoul a' kvs ]
      later ih none = refl
      later ih (some a') = ih a'
