-- ===== src/Stats/Text/Joined.antt =====
-- `brief_str` of `DgCatStats` is its parts with commas between them.
use dg_cat.Common.{ℕ, ◌≡◌, refl, List, [], ◌∷◌, ◌++◌, length, ltb, append_assoc, arith, true}
use dg_cat.Stats.Rates.{Doubles, DgCatStats}
use dg_cat.Stats.Text.{
  Printer, add_comma, add_part, source_brief_str, buffer_brief_str, destination_brief_str,
  rates_str, brief_str,
}
use dg_cat.Stats.Text.Labels.{comma}

-- texts with commas between them, the empty ones left out
abbrev pub join_behind : List ℕ → List (List ℕ) → List ℕ
join_behind result [] = result
join_behind [] (t ∷ ts) = join_behind t ts
join_behind (c ∷ cs) ([] ∷ ts) = join_behind (c ∷ cs) ts
join_behind (c ∷ cs) ((b ∷ bs) ∷ ts) = join_behind ((c ∷ cs) ++ (comma ++ (b ∷ bs))) ts

abbrev pub join_texts : List (List ℕ) → List ℕ
join_texts ts = join_behind [] ts

add_comma-some : (c : ℕ) (cs : List ℕ) → add_comma (c ∷ cs) ≡ (c ∷ cs) ++ comma
add_comma-some c cs = let some_ : ltb 0 (length (c ∷ cs)) ≡ true = ground arith in rw some_ refl

add_part-some :
    (b c : ℕ) (bs cs : List ℕ) → add_part (b ∷ bs) (c ∷ cs) ≡ (c ∷ cs) ++ (comma ++ (b ∷ bs))
add_part-some b c bs cs =
    let some_ : ltb 0 (length (b ∷ bs)) ≡ true = ground arith in
    rw (some_, add_comma-some c cs) (append_assoc (c ∷ cs) comma (b ∷ bs))

-- The parts of `brief_str`, the third one empty.
parts :
    (source buffer rates : List ℕ) (c b r : ℕ) (cs bs rs : List ℕ)
    → source ≡ c ∷ cs
    → buffer ≡ b ∷ bs
    → rates ≡ r ∷ rs
    → add_comma (add_part [] (add_part buffer source)) ++ rates
      ≡ join_texts (source ∷ buffer ∷ [] ∷ rates ∷ [])
parts source buffer rates c b r cs bs rs one two three =
    rw (one, two, three, add_part-some b c bs cs, add_comma-some c (cs ++ (comma ++ (b ∷ bs))))
      (append_assoc ((c ∷ cs) ++ (comma ++ (b ∷ bs))) comma (r ∷ rs))

module _ {D : Type 0} (d : Doubles D) (p : Printer D) where
  -- The line is the parts of the source, the queue, the destination and the rates, with a comma and a
  -- space between those that are not empty.
  pub brief_str_lem :
      (s : DgCatStats)
      → brief_str d p s
        ≡ join_texts (
            source_brief_str d p s.source_stats
            ∷ buffer_brief_str d p s.buffer_stats
            ∷ destination_brief_str d p
            ∷ rates_str d p s
            ∷ [])
  unfolding brief_str source_brief_str buffer_brief_str
  brief_str_lem s =
      parts (source_brief_str d p s.source_stats) (buffer_brief_str d p s.buffer_stats)
        (rates_str d p s) _ _ _ _ _ _ refl refl refl
