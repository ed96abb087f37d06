-- ===== src/Wire/Splits.antt =====
-- What a stream of length-prefixed datagrams denotes: the framing of files and pipes, read with
-- `ntohl` and written with `native_to_big`.
use dg_cat.Common.{
  ℕ, ◌+◌, ◌^◌, ◌<◌, ◌≡◌, refl, sym, ap, ap₂, ◌∙◌, List, [], ◌∷◌, ◌++◌, arith, length, append_assoc,
  length-append, ◌⊎◌, subst,
}
use dg_cat.Wire.{be_bytes, be_value, prefix_len}
use dg_cat.Wire.RoundTrip.{be_value-be_bytes}

-- `s` is the frames of the datagrams `ps`, in order, followed by `r`: each frame is four bytes with
-- the length, then the datagram.
abbrev pub Splits : List ℕ → List (List ℕ) → List ℕ → Type 0
Splits s [] r = s ≡ r
Splits s (p ∷ ps) r =
    (pre : List ℕ) × (t : List ℕ) × (length pre ≡ prefix_len)
    × (be_value pre ≡ length p)
    × (s ≡ pre ++ (p ++ t))
    × Splits t ps r

-- No whole frame stands at the front.
abbrev pub IsPartial : List ℕ → Type 0
IsPartial r = (length r < prefix_len) ⊎ (length r < prefix_len + be_value r)

pub Splits-append :
    (ps : List (List ℕ)) (s r more : List ℕ) → Splits s ps r → Splits (s ++ more) ps (r ++ more)
Splits-append [] s r more h = ap (λ x. x ++ more) h
Splits-append (p ∷ ps) s r more (pre, t, four, value, eq, later) = (
  pre,
  t ++ more,
  four,
  value,
  ap (λ x. x ++ more) eq
      ∙ append_assoc pre (p ++ t) more
      ∙ ap (λ x. pre ++ x) (append_assoc p t more),
  Splits-append ps t r more later,
)

pub Splits-trans :
    (ps qs : List (List ℕ)) (s r u : List ℕ) → Splits s ps r → Splits r qs u → Splits s (ps ++ qs) u
Splits-trans [] qs s r u h k = subst (λ x. Splits x qs u) (sym h) k
Splits-trans (p ∷ ps) qs s r u (pre, t, four, value, eq, later) k =
    (pre, t, four, value, eq, Splits-trans ps qs t r u later k)

-- The frames of a list of datagrams.
abbrev pub encode : List (List ℕ) → List ℕ
encode [] = []
encode (p ∷ ps) = be_bytes (length p) ++ (p ++ encode ps)

abbrev pub All32 : List (List ℕ) → Type 0
All32 [] = Unit
All32 (p ∷ ps) = (length p < 2 ^ 32) × All32 ps

pub encode-Splits : (ps : List (List ℕ)) → All32 ps → Splits (encode ps) ps []
encode-Splits [] h = refl
encode-Splits (p ∷ ps) h = (
  be_bytes (length p),
  encode ps,
  refl,
  be_value-be_bytes (length p) [] h.0,
  refl,
  encode-Splits ps h.1,
)

append_cancel {ℓ} :
    {A : Type ℓ} (xs ys us vs : List A)
    → length xs ≡ length ys
    → xs ++ us ≡ ys ++ vs
    → (xs ≡ ys) × (us ≡ vs)
append_cancel [] [] us vs e h = (refl, h)
append_cancel [] (y ∷ ys) us vs e h = absurd (omega arith)
append_cancel (x ∷ xs) [] us vs e h = absurd (omega arith)
append_cancel (x ∷ xs) (y ∷ ys) us vs e h =
    let r = append_cancel xs ys us vs (omega arith) (cc) in (cc (r.0), r.1)

pub be_value-append :
    (pre xs : List ℕ) → length pre ≡ prefix_len → be_value (pre ++ xs) ≡ be_value pre
be_value-append (a ∷ b ∷ c ∷ d ∷ []) xs h = refl
be_value-append [] xs h = absurd (omega arith)
be_value-append (a ∷ []) xs h = absurd (omega arith)
be_value-append (a ∷ b ∷ []) xs h = absurd (omega arith)
be_value-append (a ∷ b ∷ c ∷ []) xs h = absurd (omega arith)
be_value-append (a ∷ b ∷ c ∷ d ∷ e ∷ f) xs h = absurd (omega arith)

pub not-IsPartial :
    (s p pre t : List ℕ)
    → length pre ≡ prefix_len
    → be_value pre ≡ length p
    → s ≡ pre ++ (p ++ t)
    → ¬ IsPartial s
not-IsPartial s p pre t four value eq part = omega (
  arith,
  part,
  ap length eq,
  length-append pre (p ++ t),
  length-append p t,
  ap be_value eq ∙ be_value-append pre (p ++ t) four,
)

-- Two frames at the front of one stream are the same.
pub Splits-first :
    (p q s pre t pre' t' : List ℕ)
    → length pre ≡ prefix_len
    → be_value pre ≡ length p
    → s ≡ pre ++ (p ++ t)
    → length pre' ≡ prefix_len
    → be_value pre' ≡ length q
    → s ≡ pre' ++ (q ++ t')
    → (p ≡ q) × (t ≡ t')
Splits-first p q s pre t pre' t' four value eq four' value' eq' =
    let front = append_cancel pre pre' _ _ (four ∙ sym four') (sym eq ∙ eq') in
    append_cancel p q t t' (sym value ∙ ap be_value front.0 ∙ value') front.1

-- A stream has at most one reading up to an incomplete frame.
pub Splits-unique :
    (ps qs : List (List ℕ)) (s r u : List ℕ)
    → Splits s ps r
    → Splits s qs u
    → IsPartial r
    → IsPartial u
    → (ps ≡ qs) × (r ≡ u)
Splits-unique [] [] s r u h k hr hu = (refl, sym h ∙ k)
Splits-unique [] (q ∷ qs) s r u h (pre, t, four, value, eq, later) hr hu =
    absurd (not-IsPartial s q pre t four value eq (subst IsPartial (sym h) hr))
Splits-unique (p ∷ ps) [] s r u (pre, t, four, value, eq, later) k hr hu =
    absurd (not-IsPartial s p pre t four value eq (subst IsPartial (sym k) hu))
Splits-unique (p ∷ ps) (q ∷ qs) s r u (pre, t, four, value, eq, later)
      (pre', t', four', value', eq', later') hr hu =
    let body = Splits-first p q s pre t pre' t' four value eq four' value' eq' in
    let rest =
      Splits-unique ps qs t r u later (subst (λ x. Splits x qs u) (sym body.1) later') hr hu in
    (ap₂ ◌∷◌ body.0 rest.0, rest.1)
