-- ===== src/AddrInfo.antt =====
-- include/dg_cat/addrinfo.hpp: the list of addresses that `getaddrinfo` gives, and the iterator over
-- it. An entry is the address of its `addrinfo` here; the shared pointer beside it is in AddrInfo/Shared.
pub mod Owners
pub mod Ownership
pub mod Shared
pub mod Counts
pub mod Holders
pub mod Alive
pub mod Visit
use dg_cat.Common.{
  ℕ, zero, suc, ◌+◌, Bool, List, [], ◌∷◌, ◌++◌, Option, none, some, length, leb, ◌==◌, ◌&&◌, get_or,
  if◌then◌else◌,
}

-- The loop of `updateResults`, where `ai_next` is that field at an address; `none` where the fuel
-- runs out.
unfoldable pub update_results : (ℕ → Option ℕ) → ℕ → Option ℕ → List ℕ → Option (List ℕ)
update_results ai_next fuel none results = some results
update_results ai_next zero (some pai) results = none
update_results ai_next (suc fuel) (some pai) results =
    update_results ai_next fuel (ai_next pai) (results ++ (pai ∷ []))

-- The address of the list, and an index.
pub record Iterator : Type 0 where
  pub addrinfo_list : ℕ
  pub index : ℕ

-- A value, or the exception `std::out_of_range`.
pub data Checked {ℓ} (A : Type ℓ) : Type ℓ where
  value : A → Checked A
  out_of_range : Checked A

abbrev pub begin : ℕ → Iterator
begin list = record { addrinfo_list = list; index = 0 }

abbrev pub end : ℕ → List ℕ → Iterator
end list results = record { addrinfo_list = list; index = length results }

-- `operator==` of the iterator
abbrev pub is_same : Iterator → Iterator → Bool
is_same a b = (a.addrinfo_list == b.addrinfo_list) && (a.index == b.index)

-- `operator*` of the iterator
abbrev pub dereference : List ℕ → Iterator → Checked ℕ
dereference results it =
    if leb (length results) it.index then out_of_range else value (get_or results it.index 0)

-- `operator++`
abbrev pub advance : List ℕ → Iterator → Checked Iterator
advance results it =
    if leb (length results) it.index
    then out_of_range
    else value (record it { index = it.index + 1 })

-- How the body of a loop over the list ends: `continue`, or at its end, or `break`.
pub data Flow {ℓ} (S : Type ℓ) : Type ℓ where
  continues : S → Flow S
  breaks : S → Flow S

pub data Visited {ℓ} (S : Type ℓ) : Type ℓ where
  ended : S → Visited S
  thrown : Visited S
  exhausted : Visited S

module _ {ℓ} {S : Type ℓ} where
  abbrev pub after_advance : (Iterator → S → Visited S) → S → Checked Iterator → Visited S
  after_advance later s (value it) = later it s
  after_advance later s out_of_range = thrown

  abbrev pub after_body : (Iterator → S → Visited S) → List ℕ → Iterator → Flow S → Visited S
  after_body later results it (continues s) = after_advance later s (advance results it)
  after_body later results it (breaks s) = ended s

  abbrev pub after_dereference :
      (Iterator → S → Visited S) → (ℕ → S → Flow S) → List ℕ → Iterator → S → Checked ℕ → Visited S
  after_dereference later body results it s (value entry) =
      after_body later results it (body entry s)
  after_dereference later body results it s out_of_range = thrown

  -- `for (auto ai = list.begin(); ai != list.end(); ++ai) { auto& entry = *ai; ... }`
  unfoldable pub for_each :
      (list : ℕ) (results : List ℕ) → (ℕ → S → Flow S) → ℕ → Iterator → S → Visited S
  for_each list results body zero it s = exhausted
  for_each list results body (suc fuel) it s =
      if is_same it (end list results)
      then ended s
      else after_dereference (for_each list results body fuel) body results it s
          (dereference results it)
