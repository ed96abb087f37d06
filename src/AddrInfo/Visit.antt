-- ===== src/AddrInfo/Visit.antt =====
-- The loops of addrinfo.hpp come to their ends: `updateResults`, and a range loop over the list.
use dg_cat.Common.{
  ℕ, zero, suc, ◌+◌, ◌-◌, ◌<◌, ◌≤◌, ◌≡◌, refl, sym, ap, ◌∙◌, List, [], ◌∷◌, ◌++◌, Option, none,
  some, length, leb, ◌==◌, get_or, drop, drop-all, arith, append-nil, append_assoc, true, false,
}
use native.Mathlib.Decide.{dec_le}
use dg_cat.AddrInfo.{update_results, begin, Flow, continues, breaks, ended, after_body, for_each}

-- The nodes from an address on, in the order of `ai_next`.
abbrev pub IsChain : (ℕ → Option ℕ) → Option ℕ → List ℕ → Type 0
IsChain ai_next head [] = head ≡ none
IsChain ai_next head (p ∷ ps) = (head ≡ some p) × IsChain ai_next (ai_next p) ps

update_results-chain :
    (ai_next : ℕ → Option ℕ) (ps results : List ℕ) (head : Option ℕ) (fuel : ℕ)
    → IsChain ai_next head ps
    → length ps ≤ fuel
    → update_results ai_next fuel head results ≡ some (results ++ ps)
unfolding update_results
update_results-chain ai_next [] results head fuel chain enough =
    rw chain (ap some (sym (append-nil results)))
update_results-chain ai_next (p ∷ ps) results head zero chain enough = absurd (omega arith)
update_results-chain ai_next (p ∷ ps) results head (suc fuel) chain enough = rw (chain.0) (
    update_results-chain ai_next ps (results ++ (p ∷ [])) (ai_next p) fuel chain.1 (omega arith)
    ∙ ap some (append_assoc results (p ∷ []) ps))

-- Where the nodes that `getaddrinfo` linked by `ai_next` are finitely many, `updateResults` ends, and
-- the entries are all the nodes, in order.
pub update_results_lem :
    (ai_next : ℕ → Option ℕ) (ps : List ℕ) (head : Option ℕ)
    → IsChain ai_next head ps
    → update_results ai_next (length ps) head [] ≡ some ps
update_results_lem ai_next ps head chain =
    update_results-chain ai_next ps [] head (length ps) chain (omega arith)

drop-get_or : (xs : List ℕ) (k : ℕ) → k < length xs → drop k xs ≡ get_or xs k 0 ∷ drop (k + 1) xs
drop-get_or [] k h = absurd (omega arith)
drop-get_or (x ∷ xs) zero h = refl
drop-get_or (x ∷ xs) (suc k) h = ground (arith, drop-get_or xs k (omega arith))

module _ {ℓ} {S : Type ℓ} where
  abbrev pub after_flow : (S → S) → Flow S → S
  after_flow later (continues s) = later s
  after_flow later (breaks s) = s

  -- the state behind a body run on the elements of a list one by one, until it breaks
  abbrev pub visit : (ℕ → S → Flow S) → List ℕ → S → S
  visit body [] s = s
  visit body (x ∷ xs) s = after_flow (visit body xs) (body x s)

  module _ (list : ℕ) (results : List ℕ) (body : ℕ → S → Flow S) where
    -- one round of the loop, on an element
    for_each-body :
        (fuel k : ℕ) (f : Flow S)
        → k < length results
        → ((s : S)
            → for_each list results body fuel (record { addrinfo_list = list; index = k + 1 }) s
              ≡ ended (visit body (drop (k + 1) results) s))
        → after_body
            (for_each list results body fuel)
            results
            (record { addrinfo_list = list; index = k })
            f
          ≡ ended (after_flow (visit body (drop (k + 1) results)) f)
    for_each-body fuel k (breaks s) within later = refl
    for_each-body fuel k (continues s) within later =
        let inside : leb (length results) k ≡ false = ground arith in rw inside (later s)

    for_each-drop :
        (fuel k : ℕ) (s : S)
        → k ≤ length results
        → length results - k < fuel
        → for_each list results body fuel (record { addrinfo_list = list; index = k }) s
          ≡ ended (visit body (drop k results) s)
    unfolding for_each
    for_each-drop zero k s within enough = absurd (omega arith)
    for_each-drop (suc fuel) k s within enough =
        let same : (list == list) ≡ true = ground arith in
        elim (dec_le (length results) k) [
          | yes more ↦
              let equal : (k == length results) ≡ true = ground arith in
              rw (same, equal, drop-all k results more) refl
          | no less ↦
              let differs : (k == length results) ≡ false = ground arith in
              let inside : leb (length results) k ≡ false = ground arith in
              rw (same, differs, inside, drop-get_or results k (omega arith))
                (for_each-body fuel k (body (get_or results k 0) s) (omega arith)
                  (λ s'. for_each-drop fuel (k + 1) s' (omega arith) (omega arith)))
        ]

    -- A range loop over the list is done within one round more than there are entries: the body runs
    -- on the entries in order until it breaks, and neither `*` nor `++` throws.
    pub for_each_lem :
        (s : S)
        → for_each list results body (suc (length results)) (begin list) s
          ≡ ended (visit body results s)
    for_each_lem s = for_each-drop (suc (length results)) 0 s (omega arith) (omega arith)
