-- ===== src/Tests/Resources.antt =====
-- The theorems on address lists and sockets, each at one input.
use dg_cat.Common.{
  get_or, ℕ, ◌+◌, ◌≡◌, refl, Bool, List, [], ◌∷◌, Option, none, some, ◌==◌, if◌then◌else◌,
}
use dg_cat.AddrInfo.Owners.{
  constructs, moves, assigns, swaps, destroys, operate_all, no_owners, Operation,
}
use dg_cat.AddrInfo.Ownership.{held, times, operate_all-freed}
use dg_cat.AddrInfo.Shared
use dg_cat.AddrInfo.Alive.{operate_all-alive}
use dg_cat.Sockets.{member, open_source, open_destination}
use dg_cat.Sockets.First.{open-first, open_source-closed}

-- Two results; the first is moved, the second is assigned over it, and the owners are destroyed.
abbrev operations : List Operation
operations =
    constructs (some 8) ∷ constructs (some 9) ∷ moves 0 ∷ assigns 2 1 ∷ swaps 0 2 ∷ destroys 0 ∷ []

operate_all-freed_example :
    let r = operate_all operations no_owners in held 8 r.objects + times 8 r.freed ≡ 1
operate_all-freed_example = operate_all-freed 8 operations

-- A list of two addresses, whose first entry is copied before the list is destroyed.
abbrev sharings : List Shared.Operation
sharings =
    Shared.makes_list (5 ∷ 6 ∷ [])
    ∷ Shared.makes_entry
    ∷ Shared.assigns_element 1 0 0
    ∷ Shared.destructs 0
    ∷ []

operate_all-alive_example :
    let h = Shared.operate_all sharings Shared.no_objects in
    (get_or h.counts 0 0 ≡ 1) × (times 0 h.destroyed ≡ 0)
unfolding Shared.construct_list Shared.assign_element Shared.destruct
operate_all-alive_example = operate_all-alive 0 sharings

-- There is no socket for the first entry, and the second one is refused.
abbrev socket_of : ℕ → Option ℕ
socket_of entry = if entry == 1 then none else some (entry + 10)

abbrev takes : ℕ → ℕ → Bool
takes entry s = entry == 3

open-first_example :
    (open_source socket_of takes 0 (1 ∷ 2 ∷ 3 ∷ 4 ∷ []) ≡ member 13 (some 3) (12 ∷ []))
    × (open_destination socket_of takes 0 (1 ∷ 2 ∷ 3 ∷ 4 ∷ []) ≡ member 13 (some 3) (12 ∷ []))
open-first_example =
    open-first socket_of takes 0 (1 ∷ 2 ∷ []) (4 ∷ []) 3 13 (refl, (refl, tt)) refl refl

open_source-closed_example : open_source socket_of takes 0 (1 ∷ 2 ∷ []) ≡ member 12 none (12 ∷ [])
open_source-closed_example = open_source-closed socket_of takes 0 (1 ∷ []) 2 12 (refl, tt) refl refl
