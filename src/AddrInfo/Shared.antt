-- ===== src/AddrInfo/Shared.antt =====
-- `AddrInfoList` and its `Entry` of include/dg_cat/addrinfo.hpp: objects that share the results of
-- `getaddrinfo` by `std::shared_ptr`, whose use counts are written out. A result is named by its
-- index; at a count of zero the `AddrInfoResultRef` is destroyed.
use dg_cat.Common.{
  ℕ, zero, suc, ◌+◌, ◌-◌, Bool, true, false, List, [], ◌∷◌, ◌++◌, Option, none, some, length, ltb,
  ◌==◌, ◌&&◌, not, get_or, set, if◌then◌else◌,
}

-- `_addrinfo_result_ref` and `_addrinfo`
pub record Entry : Type 0 where
  pub addrinfo_result_ref : Option ℕ
  pub addrinfo : Option ℕ

-- An entry by itself, or a list with `_addrinfo` and `_results`.
pub data Object : Type 0 where
  entry : Entry → Object
  list : Option ℕ → List Entry → Object

-- The objects that are alive, the use count of every result, and the results destroyed so far.
pub record Heap : Type 0 where
  pub objects : List Object
  pub counts : List ℕ
  pub destroyed : List ℕ

abbrev pub empty_entry : Entry
empty_entry = record { addrinfo_result_ref = none; addrinfo = none }

abbrev pub results_of : List Entry → List (Option ℕ)
results_of [] = []
results_of (e ∷ es) = e.addrinfo_result_ref ∷ results_of es

-- the shared pointers that are parts of an object
abbrev pub pointers : Object → List (Option ℕ)
pointers (entry e) = e.addrinfo_result_ref ∷ []
pointers (list p es) = p ∷ results_of es

-- A shared pointer is copied.
abbrev pub share : Option ℕ → List ℕ → List ℕ
share none counts = counts
share (some b) counts = set counts b (get_or counts b 0 + 1)

abbrev pub share_all : List (Option ℕ) → List ℕ → List ℕ
share_all [] counts = counts
share_all (p ∷ ps) counts = share_all ps (share p counts)

-- A shared pointer is destroyed or overwritten.
abbrev pub release : Option ℕ → Heap → Heap
release none h = h
release (some b) h =
    let left = get_or h.counts b 0 - 1 in
    record h {
      counts = set h.counts b left;
      destroyed = if left == 0 then h.destroyed ++ (b ∷ []) else h.destroyed;
    }

abbrev pub release_all : List (Option ℕ) → Heap → Heap
release_all [] h = h
release_all (p ∷ ps) h = release_all ps (release p h)

abbrev pub nth_object : Heap → ℕ → Object
nth_object h i = get_or h.objects i (entry empty_entry)

abbrev pub is_alive : Heap → ℕ → Bool
is_alive h i = ltb i (length h.objects)

-- A new object that is a copy of another one, or of one of a list's entries.
abbrev pub push_copy : Object → Heap → Heap
push_copy o h = record h {
  objects = h.objects ++ (o ∷ []);
  counts = share_all (pointers o) h.counts;
}

-- A copy over an object that is there: what it had is released.
abbrev pub put_copy : ℕ → Object → Heap → Heap
put_copy this o h =
    let old = nth_object h this in
    release_all (pointers old)
      (record h { objects = set h.objects this o; counts = share_all (pointers o) h.counts })

-- What a move leaves behind.
abbrev pub moved_from : Object → Object
moved_from (entry e) = entry empty_entry
moved_from (list p es) = list none []

abbrev pub is_list : Object → Bool
is_list (entry e) = false
is_list (list p es) = true

abbrev pub same_kind : Object → Object → Bool
same_kind (entry e) o = not (is_list o)
same_kind (list p es) o = is_list o

-- `operator[]` of a list
abbrev pub element : Object → ℕ → Option Entry
element (entry e) k = none
element (list p es) k = if ltb k (length es) then some (get_or es k empty_entry) else none

-- The constructor of a list from a result: `make_shared`, then `updateResults`, which makes an entry
-- of every address.
abbrev pub entries_of : ℕ → List ℕ → List Entry
entries_of b [] = []
entries_of b (a ∷ addresses) =
    record { addrinfo_result_ref = some b; addrinfo = some a } ∷ entries_of b addresses

unfoldable pub construct_list : List ℕ → Heap → Heap
construct_list addresses h =
    let b = length h.counts in
    let es = entries_of b addresses in
    record h {
      objects = h.objects ++ (list (some b) es ∷ []);
      counts = share_all (results_of es) (h.counts ++ (1 ∷ []));
    }

-- the default constructor of `Entry`
abbrev pub construct_entry : Heap → Heap
construct_entry h = record h { objects = h.objects ++ (entry empty_entry ∷ []) }

-- The copy constructors.
unfoldable pub copy_construct : ℕ → Heap → Heap
copy_construct other h = if is_alive h other then push_copy (nth_object h other) h else h

-- The copy assignments.
unfoldable pub copy_assign : ℕ → ℕ → Heap → Heap
copy_assign this other h =
    if is_alive h this && (is_alive h other && same_kind (nth_object h this) (nth_object h other))
    then put_copy this (nth_object h other) h
    else h

-- An entry of a list is assigned to an entry, as `matching_entry = entry` in the constructors of the
-- UDP source and destination.
abbrev pub assign_found : ℕ → Option Entry → Heap → Heap
assign_found this none h = h
assign_found this (some e) h = put_copy this (entry e) h

unfoldable pub assign_element : ℕ → ℕ → ℕ → Heap → Heap
assign_element this other k h =
    if is_alive h this && (is_alive h other && not (is_list (nth_object h this)))
    then assign_found this (element (nth_object h other) k) h
    else h

-- The move constructors.
unfoldable pub move_construct : ℕ → Heap → Heap
move_construct other h =
    if is_alive h other
    then record h {
      objects = set h.objects other (moved_from (nth_object h other)) ++ (nth_object h other ∷ []);
    }
    else h

-- The move assignments, from another object.
unfoldable pub move_assign : ℕ → ℕ → Heap → Heap
move_assign this other h =
    if is_alive h this
      && (is_alive h other
          && (not (this == other) && same_kind (nth_object h this) (nth_object h other)))
    then release_all (pointers (nth_object h this)) (record h {
      objects =
          set (set h.objects this (nth_object h other)) other (moved_from (nth_object h other));
    })
    else h

-- The destructors.
abbrev pub remove_at {ℓ} : {A : Type ℓ} → List A → ℕ → List A
remove_at [] i = []
remove_at (o ∷ os) zero = os
remove_at (o ∷ os) (suc i) = o ∷ remove_at os i

unfoldable pub destruct : ℕ → Heap → Heap
destruct this h =
    if is_alive h this
    then release_all (pointers (nth_object h this))
        (record h { objects = remove_at h.objects this })
    else h

-- An operation on objects that are named by their indices.
pub data Operation : Type 0 where
  makes_list : List ℕ → Operation
  makes_entry : Operation
  copies : ℕ → Operation
  assigns : ℕ → ℕ → Operation
  assigns_element : ℕ → ℕ → ℕ → Operation
  moves : ℕ → Operation
  moves_to : ℕ → ℕ → Operation
  destructs : ℕ → Operation

abbrev pub operate : Operation → Heap → Heap
operate (makes_list addresses) = construct_list addresses
operate makes_entry = construct_entry
operate (copies i) = copy_construct i
operate (assigns i j) = copy_assign i j
operate (assigns_element i j k) = assign_element i j k
operate (moves i) = move_construct i
operate (moves_to i j) = move_assign i j
operate (destructs i) = destruct i

-- a sequence of operations
abbrev pub operate_all : List Operation → Heap → Heap
operate_all [] h = h
operate_all (o ∷ os) h = operate_all os (operate o h)

abbrev pub no_objects : Heap
no_objects = record { objects = []; counts = []; destroyed = [] }
