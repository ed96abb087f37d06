-- ===== src/AddrInfo/Alive.antt =====
-- A result of `getaddrinfo` is destroyed once, when the last list or entry that shares it is gone.
use dg_cat.Common.{
  ℕ, zero, suc, ◌+◌, ◌≤◌, ◌<◌, ◌≡◌, refl, ap, List, [], ◌∷◌, ◌++◌, Option, none, some, length, ltb,
  ◌==◌, ◌&&◌, not, get_or, set, if◌then◌else◌, if_cases, arith, length-set, get_or-set,
  length-append, subst,
}
use native.Mathlib.Decide.{ℕ_discrete}
use dg_cat.AddrInfo.Ownership.{owns, held, times}
use dg_cat.AddrInfo.Counts.{Sound, share_all-Sound}
use dg_cat.AddrInfo.Shared.{
  Entry, Object, entry, list, Heap, empty_entry, results_of, pointers, share_all, nth_object,
  is_alive, push_copy, put_copy, moved_from, is_list, same_kind, element, entries_of,
  construct_list, copy_construct, copy_assign, assign_found, assign_element, move_construct,
  move_assign, remove_at, destruct, Operation, makes_list, makes_entry, copies, assigns,
  assigns_element, moves, moves_to, destructs, operate, operate_all, no_objects,
}
use dg_cat.AddrInfo.Holders.{
  holders, holders-append, holders-set, holders-remove_at, holders-nth, Counted,
  release_all-Counted,
}

module _ (b : ℕ) where
  push_copy-Counted :
      (i : ℕ) (h : Heap)
      → i < length h.objects
      → Counted b h
      → Counted b (push_copy (nth_object h i) h)
  push_copy-Counted i h alive s =
      let o = nth_object h i in
      subst (Sound b (share_all (pointers o) h.counts) h.destroyed)
        (omega (arith, holders-append b h.objects (o ∷ [])))
        (share_all-Sound b (pointers o) h.counts h.destroyed (holders b h.objects) s
          (λ pos. omega (arith, holders-nth b h.objects i (entry empty_entry) alive)))

  put_copy-Counted :
      (i : ℕ) (o : Object) (h : Heap)
      → i < length h.objects
      → held b (pointers o) ≤ holders b h.objects
      → Counted b h
      → Counted b (put_copy i o h)
  put_copy-Counted i o h alive shared s =
      let h' : Heap = record h {
        objects = set h.objects i o;
        counts = share_all (pointers o) h.counts;
      } in
      release_all-Counted b (pointers (nth_object h i)) h' _
        (share_all-Sound b (pointers o) h.counts h.destroyed (holders b h.objects) s
          (λ pos. omega arith))
        (omega (arith, holders-set b h.objects i o (entry empty_entry) alive))

  moved_from-held : (o : Object) → held b (pointers (moved_from o)) ≡ 0
  moved_from-held (entry e) = refl
  moved_from-held (list p es) = refl

  entries_of-held :
      (k : ℕ) (addresses : List ℕ)
      → 0 < held b (results_of (entries_of k addresses))
      → 0 < owns b (some k)
  entries_of-held k [] h = absurd (omega arith)
  entries_of-held k (a ∷ addresses) h = elim (ℕ_discrete b k) [
    | yes same ↦ ground arith
    | no other ↦
        let rest : 0 < held b (results_of (entries_of k addresses)) = ground arith in
        entries_of-held k addresses rest
  ]

  get_or-new :
      (c : List ℕ) (i : ℕ) → get_or (c ++ (1 ∷ [])) i 0 ≡ get_or c i 0 + owns i (some (length c))
  get_or-new [] zero = ground arith
  get_or-new [] (suc i) = ground arith
  get_or-new (x ∷ c) zero = ground arith
  get_or-new (x ∷ c) (suc i) = ground (arith, get_or-new c i)

  get_or-outside : (c : List ℕ) (i : ℕ) → length c ≤ i → get_or c i 0 ≡ 0
  get_or-outside [] i h = refl
  get_or-outside (x ∷ c) zero h = absurd (omega arith)
  get_or-outside (x ∷ c) (suc i) h = get_or-outside c i (omega arith)

  new_count-Sound :
      (c d : List ℕ) (n : ℕ)
      → Sound b c d n
      → Sound b (c ++ (1 ∷ [])) d (n + owns b (some (length c)))
  new_count-Sound c d n (used, gone) = (
    omega (arith, get_or-new c b),
    ground (arith, length-append c (1 ∷ []), λ (p : length c ≤ b). get_or-outside c b p),
  )

  construct_list-Counted :
      (addresses : List ℕ) (h : Heap) → Counted b h → Counted b (construct_list addresses h)
  unfolding construct_list
  construct_list-Counted addresses h s =
      let k = length h.counts in
      let es = entries_of k addresses in
      subst (Sound b (share_all (results_of es) (h.counts ++ (1 ∷ []))) h.destroyed)
        (omega (arith, holders-append b h.objects (list (some k) es ∷ [])))
        (share_all-Sound b (results_of es) (h.counts ++ (1 ∷ [])) h.destroyed _
          (new_count-Sound h.counts h.destroyed (holders b h.objects) s)
          (λ pos. omega (arith, entries_of-held k addresses pos)))

  results_of-held :
      (es : List Entry) (k : ℕ)
      → k < length es
      → owns b (get_or es k empty_entry).addrinfo_result_ref ≤ held b (results_of es)
  results_of-held [] k h = absurd (omega arith)
  results_of-held (e ∷ es) zero h = omega arith
  results_of-held (e ∷ es) (suc k) h = omega (arith, results_of-held es k (omega arith))

  element-held :
      (o : Object) (k : ℕ) (e : Entry)
      → element o k ≡ some e
      → held b (pointers (entry e)) ≤ held b (pointers o)
  element-held (entry x) k e h = cc
  element-held (list p es) k e h =
      if_cases (λ o. o ≡ some e → held b (pointers (entry e)) ≤ held b (pointers (list p es)))
        (ltb k (length es)) _ _
        (λ inside same.
          let found : get_or es k empty_entry ≡ e = cc in
          omega (
            arith,
            results_of-held es k (ground arith),
            ap (λ (x : Entry). owns b x.addrinfo_result_ref) found,
          ))
        (λ outside same. cc) h

  move_construct-Counted : (i : ℕ) (h : Heap) → Counted b h → Counted b (move_construct i h)
  unfolding move_construct
  move_construct-Counted i h s =
      if_cases (Counted b) (is_alive h i) _ _
        (λ alive.
          let o = nth_object h i in
          subst (Sound b h.counts h.destroyed)
            (omega (
              arith,
              holders-append b (set h.objects i (moved_from o)) (o ∷ []),
              holders-set b h.objects i (moved_from o) (entry empty_entry) (ground arith),
              moved_from-held o,
            ))
            s)
        (λ gone. s)

  move_assign-Counted : (i j : ℕ) (h : Heap) → Counted b h → Counted b (move_assign i j h)
  unfolding move_assign
  move_assign-Counted i j h s =
      if_cases (Counted b)
        (is_alive h i
          && (is_alive h j && (not (i == j) && same_kind (nth_object h i) (nth_object h j))))
        _ _
        (λ alive.
          let o = nth_object h j in
          let middle = set h.objects i o in
          let inside : i < length h.objects = ground arith in
          let inside' : j < length middle = ground (arith, length-set h.objects i o) in
          let same : get_or middle j (entry empty_entry) ≡ o =
            ground (arith, get_or-set h.objects i j o (entry empty_entry)) in
          release_all-Counted b (pointers (nth_object h i))
            (record h { objects = set middle j (moved_from o) }) (holders b h.objects) s
            (omega (
              arith,
              holders-set b h.objects i o (entry empty_entry) inside,
              holders-set b middle j (moved_from o) (entry empty_entry) inside',
              ap (λ x. held b (pointers x)) same,
              moved_from-held o,
            )))
        (λ gone. s)

  copy_construct-Counted : (i : ℕ) (h : Heap) → Counted b h → Counted b (copy_construct i h)
  unfolding copy_construct
  copy_construct-Counted i h s =
      if_cases (Counted b) (is_alive h i) _ _ (λ alive. push_copy-Counted i h (ground arith) s)
        (λ gone. s)

  copy_assign-Counted : (i j : ℕ) (h : Heap) → Counted b h → Counted b (copy_assign i j h)
  unfolding copy_assign
  copy_assign-Counted i j h s =
      if_cases (Counted b)
        (is_alive h i && (is_alive h j && same_kind (nth_object h i) (nth_object h j))) _ _
        (λ alive.
          put_copy-Counted i (nth_object h j) h (ground arith)
            (holders-nth b h.objects j (entry empty_entry) (ground arith)) s)
        (λ gone. s)

  destruct-Counted : (i : ℕ) (h : Heap) → Counted b h → Counted b (destruct i h)
  unfolding destruct
  destruct-Counted i h s =
      if_cases (Counted b) (is_alive h i) _ _
        (λ alive.
          release_all-Counted b (pointers (nth_object h i))
            (record h { objects = remove_at h.objects i }) (holders b h.objects) s
            (omega (arith, holders-remove_at b h.objects i (entry empty_entry) (ground arith))))
        (λ gone. s)

  assign_element-Counted : (i j k : ℕ) (h : Heap) → Counted b h → Counted b (assign_element i j k h)
  unfolding assign_element
  assign_element-Counted i j k h s =
      if_cases (Counted b) (is_alive h i && (is_alive h j && not (is_list (nth_object h i)))) _ _
        (λ alive. found (ground arith) (ground arith) (element (nth_object h j) k) refl) (λ gone. s)
    where
      found :
          i < length h.objects
          → j < length h.objects
          → (o : Option Entry) → element (nth_object h j) k ≡ o
          → Counted b (assign_found i o h)
      found inside inside' none same = s
      found inside inside' (some e) same =
          put_copy-Counted i (entry e) h inside
            (omega (
              arith,
              element-held (nth_object h j) k e same,
              holders-nth b h.objects j (entry empty_entry) inside',
            ))
            s

  operate-Counted : (o : Operation) (h : Heap) → Counted b h → Counted b (operate o h)
  operate-Counted (makes_list addresses) h s = construct_list-Counted addresses h s
  operate-Counted makes_entry h s =
      subst (Sound b h.counts h.destroyed)
        (omega (arith, holders-append b h.objects (entry empty_entry ∷ []))) s
  operate-Counted (copies i) h s = copy_construct-Counted i h s
  operate-Counted (assigns i j) h s = copy_assign-Counted i j h s
  operate-Counted (assigns_element i j k) h s = assign_element-Counted i j k h s
  operate-Counted (moves i) h s = move_construct-Counted i h s
  operate-Counted (moves_to i j) h s = move_assign-Counted i j h s
  operate-Counted (destructs i) h s = destruct-Counted i h s

  operate_all-Counted :
      (os : List Operation) (h : Heap) → Counted b h → Counted b (operate_all os h)
  operate_all-Counted [] h s = s
  operate_all-Counted (o ∷ os) h s = operate_all-Counted os (operate o h) (operate-Counted o h s)

-- Whatever lists and entries are constructed, copied, moved, assigned and destroyed: the use count of
-- a result is the number of shared pointers to it in the objects that are alive, and a result that
-- was made has been destroyed once if there is none, and not at all as long as there is one.
pub operate_all-alive :
    (b : ℕ) (os : List Operation)
    → let h = operate_all os no_objects in
      (get_or h.counts b 0 ≡ holders b h.objects)
      × (times b h.destroyed
          ≡ (if ltb b (length h.counts) && holders b h.objects == 0 then 1 else 0))
operate_all-alive b os = operate_all-Counted b os no_objects (refl, ground arith)
