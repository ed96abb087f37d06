-- ===== src/AddrInfo/Owners.antt =====
-- `AddrInfoResultRef` of include/dg_cat/addrinfo.hpp: who owns a result of `getaddrinfo`.
use dg_cat.Common.{
  ℕ, zero, suc, Bool, List, [], ◌∷◌, ◌++◌, Option, none, some, length, ltb, ◌==◌, ◌&&◌, not, get_or,
  set, if◌then◌else◌,
}

-- The objects that are alive, each with its `_addrinfo`, and what was given to `freeaddrinfo` so far.
pub record Owners : Type 0 where
  pub objects : List (Option ℕ)
  pub freed : List ℕ

-- `freeaddrinfo` unless the pointer is null
abbrev pub freeaddrinfo : List ℕ → Option ℕ → List ℕ
freeaddrinfo freed none = freed
freeaddrinfo freed (some p) = freed ++ (p ∷ [])

abbrev pub remove_at : List (Option ℕ) → ℕ → List (Option ℕ)
remove_at [] i = []
remove_at (o ∷ os) zero = os
remove_at (o ∷ os) (suc i) = o ∷ remove_at os i

abbrev pub is_alive : Owners → ℕ → Bool
is_alive r i = ltb i (length r.objects)

-- The constructors; the default one has a null pointer.
abbrev pub construct : Option ℕ → Owners → Owners
construct addrinfo r = record r { objects = r.objects ++ (addrinfo ∷ []) }

-- the move constructor, from the object at an index
unfoldable pub construct_from : ℕ → Owners → Owners
construct_from other r =
    if is_alive r other
    then record r { objects = set r.objects other none ++ (get_or r.objects other none ∷ []) }
    else r

-- `operator=` from another object
unfoldable pub assign : ℕ → ℕ → Owners → Owners
assign this other r =
    if is_alive r this && (is_alive r other && not (this == other))
    then record {
      objects = set (set r.objects this (get_or r.objects other none)) other none;
      freed = freeaddrinfo r.freed (get_or r.objects this none);
    }
    else r

unfoldable pub swap : ℕ → ℕ → Owners → Owners
swap this other r =
    if is_alive r this && is_alive r other
    then record r {
      objects =
          set (set r.objects this (get_or r.objects other none)) other (get_or r.objects this none);
    }
    else r

-- the destructor
unfoldable pub destroy : ℕ → Owners → Owners
destroy this r =
    if is_alive r this
    then record {
      objects = remove_at r.objects this;
      freed = freeaddrinfo r.freed (get_or r.objects this none);
    }
    else r

-- An operation on objects that are named by their indices.
pub data Operation : Type 0 where
  constructs : Option ℕ → Operation
  moves : ℕ → Operation
  assigns : ℕ → ℕ → Operation
  swaps : ℕ → ℕ → Operation
  destroys : ℕ → Operation

abbrev pub operate : Operation → Owners → Owners
operate (constructs o) = construct o
operate (moves i) = construct_from i
operate (assigns i j) = assign i j
operate (swaps i j) = swap i j
operate (destroys i) = destroy i

-- a sequence of operations, from no object on
abbrev pub operate_all : List Operation → Owners → Owners
operate_all [] r = r
operate_all (o ∷ os) r = operate_all os (operate o r)

abbrev pub no_owners : Owners
no_owners = record { objects = []; freed = [] }
