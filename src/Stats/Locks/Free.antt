-- ===== src/Stats/Locks/Free.antt =====
-- Threads that run operations of `LockableStats` never wait for each other in a circle.
use dg_cat.Common.{
  ℕ, ◌≡◌, ◌≢◌, refl, sym, ap, ◌∙◌, subst, List, [], ◌∷◌, ◌++◌, All, All-append, All-split, ◌⊎◌, inl,
  inr, append_assoc,
}
use dg_cat.Stats.Locks.{
  Act, locks, unlocks, copies_from, copies_to, Operation, constructs, assigns, gets, gets_all,
  assigns_plain, constructs_all, assigns_all_plain, acts_of, acts_of_all, Thread, start_all, IsFree,
  Does, Step, Reach, here, next,
}

-- Each mutex is given back before the next one is taken, the ones at hand among them.
abbrev pub IsSingle : List ℕ → List Act → Type 0
IsSingle [] [] = Unit
IsSingle [] (locks m ∷ rest) = IsSingle (m ∷ []) rest
IsSingle [] (unlocks m ∷ rest) = ⊥
IsSingle [] (copies_from m ∷ rest) = IsSingle [] rest
IsSingle [] (copies_to m ∷ rest) = IsSingle [] rest
IsSingle (k ∷ []) [] = ⊥
IsSingle (k ∷ []) (locks m ∷ rest) = ⊥
IsSingle (k ∷ []) (unlocks m ∷ rest) = (k ≡ m) × IsSingle [] rest
IsSingle (k ∷ []) (copies_from m ∷ rest) = IsSingle (k ∷ []) rest
IsSingle (k ∷ []) (copies_to m ∷ rest) = IsSingle (k ∷ []) rest
IsSingle (k ∷ l ∷ ks) rest = ⊥

abbrev pub IsDisciplined : Thread → Type 0
IsDisciplined t = IsSingle t.held t.rest

-- Acts that leave no mutex taken, before others.
IsSingle-append :
    (held : List ℕ) (xs ys : List Act)
    → IsSingle held xs
    → IsSingle [] ys
    → IsSingle held (xs ++ ys)
IsSingle-append [] [] ys h k = k
IsSingle-append [] (locks m ∷ xs) ys h k = IsSingle-append (m ∷ []) xs ys h k
IsSingle-append [] (unlocks m ∷ xs) ys h k = absurd h
IsSingle-append [] (copies_from m ∷ xs) ys h k = IsSingle-append [] xs ys h k
IsSingle-append [] (copies_to m ∷ xs) ys h k = IsSingle-append [] xs ys h k
IsSingle-append (l ∷ []) [] ys h k = absurd h
IsSingle-append (l ∷ []) (locks m ∷ xs) ys h k = absurd h
IsSingle-append (l ∷ []) (unlocks m ∷ xs) ys h k = (h.0, IsSingle-append [] xs ys h.1 k)
IsSingle-append (l ∷ []) (copies_from m ∷ xs) ys h k = IsSingle-append (l ∷ []) xs ys h k
IsSingle-append (l ∷ []) (copies_to m ∷ xs) ys h k = IsSingle-append (l ∷ []) xs ys h k
IsSingle-append (l ∷ l' ∷ ls) xs ys h k = absurd h

acts_of-IsSingle : (o : Operation) → IsSingle [] (acts_of o)
acts_of-IsSingle (constructs other) = (refl, tt)
acts_of-IsSingle (assigns this other) = (refl, (refl, tt))
acts_of-IsSingle (gets this) = (refl, tt)
acts_of-IsSingle (gets_all a b c) = (refl, (refl, (refl, tt)))
acts_of-IsSingle (assigns_plain this) = tt
acts_of-IsSingle (constructs_all a b c) = (refl, (refl, (refl, tt)))
acts_of-IsSingle (assigns_all_plain a b c) = tt

acts_of_all-IsSingle : (os : List Operation) → IsSingle [] (acts_of_all os)
acts_of_all-IsSingle [] = tt
acts_of_all-IsSingle (o ∷ os) =
    IsSingle-append [] (acts_of o) (acts_of_all os) (acts_of-IsSingle o) (acts_of_all-IsSingle os)

start_all-IsDisciplined : (oss : List (List Operation)) → All IsDisciplined (start_all oss)
start_all-IsDisciplined [] = tt
start_all-IsDisciplined (os ∷ oss) = (acts_of_all-IsSingle os, start_all-IsDisciplined oss)

IsSingle-lock :
    (held : List ℕ) (m : ℕ) (rest : List Act)
    → IsSingle held (locks m ∷ rest)
    → IsSingle (m ∷ held) rest
IsSingle-lock [] m rest h = h
IsSingle-lock (k ∷ []) m rest h = absurd h
IsSingle-lock (k ∷ l ∷ ks) m rest h = absurd h

IsSingle-unlock :
    (held : List ℕ) (m k : ℕ) (rest : List Act)
    → IsSingle (k ∷ held) (unlocks m ∷ rest)
    → IsSingle held rest
IsSingle-unlock [] m k rest h = h.1
IsSingle-unlock (l ∷ held) m k rest h = absurd h

IsSingle-copy_from :
    (held : List ℕ) (m : ℕ) (rest : List Act)
    → IsSingle held (copies_from m ∷ rest)
    → IsSingle held rest
IsSingle-copy_from [] m rest h = h
IsSingle-copy_from (k ∷ []) m rest h = h
IsSingle-copy_from (k ∷ l ∷ ks) m rest h = absurd h

IsSingle-copy_to :
    (held : List ℕ) (m : ℕ) (rest : List Act)
    → IsSingle held (copies_to m ∷ rest)
    → IsSingle held rest
IsSingle-copy_to [] m rest h = h
IsSingle-copy_to (k ∷ []) m rest h = h
IsSingle-copy_to (k ∷ l ∷ ks) m rest h = absurd h

Does-IsDisciplined :
    {ts : List Thread} {t u : Thread} → IsDisciplined t → Does ts t u → IsDisciplined u
Does-IsDisciplined {t = t} i (Does.lock m rest at_ free_) =
    IsSingle-lock t.held m rest (subst (IsSingle t.held) at_ i)
Does-IsDisciplined {t = t} i (Does.unlock m held rest at_ has) =
    IsSingle-unlock held m m rest
      (subst (λ h. IsSingle h (unlocks m ∷ rest)) has (subst (IsSingle t.held) at_ i))
Does-IsDisciplined {t = t} i (Does.copy_from m rest at_) =
    IsSingle-copy_from t.held m rest (subst (IsSingle t.held) at_ i)
Does-IsDisciplined {t = t} i (Does.copy_to m rest at_) =
    IsSingle-copy_to t.held m rest (subst (IsSingle t.held) at_ i)

Step-IsDisciplined :
    {ts us : List Thread} → All IsDisciplined ts → Step ts us → All IsDisciplined us
Step-IsDisciplined i (Step.step before after t u eq does) =
    let (first, (at_, last)) =
      All-split IsDisciplined before (t ∷ after) (subst (All IsDisciplined) eq i) in
    All-append IsDisciplined before (u ∷ after) first (Does-IsDisciplined at_ does, last)

Reach-IsDisciplined :
    {ts us : List Thread} → All IsDisciplined ts → Reach ts us → All IsDisciplined us
Reach-IsDisciplined i here = i
Reach-IsDisciplined i (next r st) = Step-IsDisciplined (Reach-IsDisciplined i r) st

abbrev pub IsDone : Thread → Type 0
IsDone t = t.rest ≡ []

-- A thread that holds a mutex does not wait.
holder-goes :
    (ts : List Thread) (t : Thread) (held : List ℕ) (rest : List Act)
    → t.held ≡ held
    → t.rest ≡ rest
    → IsSingle held rest
    → (t.held ≡ []) ⊎ ((u : Thread) × Does ts t u)
holder-goes ts t [] rest has at_ i = inl has
holder-goes ts t (k ∷ []) [] has at_ i = absurd i
holder-goes ts t (k ∷ []) (locks m ∷ rest) has at_ i = absurd i
holder-goes ts t (k ∷ []) (unlocks m ∷ rest) has at_ i =
    inr (_, Does.unlock m [] rest at_ (has ∙ ap (λ l. l ∷ []) i.0))
holder-goes ts t (k ∷ []) (copies_from m ∷ rest) has at_ i = inr (_, Does.copy_from m rest at_)
holder-goes ts t (k ∷ []) (copies_to m ∷ rest) has at_ i = inr (_, Does.copy_to m rest at_)
holder-goes ts t (k ∷ l ∷ ks) rest has at_ i = absurd i

-- Where no mutex is taken, a thread is done or does not wait.
free-goes :
    (ts : List Thread) (t : Thread) (rest : List Act)
    → ((m : ℕ) → IsFree m ts)
    → t.held ≡ []
    → t.rest ≡ rest
    → IsSingle [] rest
    → IsDone t ⊎ ((u : Thread) × Does ts t u)
free-goes ts t [] free_ has at_ i = inl at_
free-goes ts t (locks m ∷ rest) free_ has at_ i = inr (_, Does.lock m rest at_ (free_ m))
free-goes ts t (unlocks m ∷ rest) free_ has at_ i = absurd i
free-goes ts t (copies_from m ∷ rest) free_ has at_ i = inr (_, Does.copy_from m rest at_)
free-goes ts t (copies_to m ∷ rest) free_ has at_ i = inr (_, Does.copy_to m rest at_)

-- Each of some threads has a property, or one of all threads can go on.
each-or-goes :
    (P : Thread → Type 0) (all before ts : List Thread)
    → all ≡ before ++ ts
    → All (λ t. P t ⊎ ((u : Thread) × Does all t u)) ts
    → All P ts ⊎ ((us : List Thread) × Step all us)
each-or-goes P all before [] eq h = inl tt
each-or-goes P all before (t ∷ ts) eq (inr (u, does), later) =
    inr (_, Step.step before ts t u eq does)
each-or-goes P all before (t ∷ ts) eq (inl p, later) =
    elim (each-or-goes P all (before ++ (t ∷ [])) ts (eq ∙ sym (append_assoc before (t ∷ []) ts))
      later) [ inl ps ↦ inl (p, ps) | inr goes ↦ inr goes ]

All-each {ℓ κ} :
    {A : Type ℓ} (P Q : A → Type κ) → ((x : A) → P x → Q x) → (xs : List A) → All P xs → All Q xs
All-each P Q f [] h = tt
All-each P Q f (x ∷ xs) h = (f x h.0, All-each P Q f xs h.1)

All-both {ℓ κ} :
    {A : Type ℓ} (P Q : A → Type κ) (xs : List A) → All P xs → All Q xs → All (λ x. P x × Q x) xs
All-both P Q [] h k = tt
All-both P Q (x ∷ xs) h k = ((h.0, k.0), All-both P Q xs h.1 k.1)

-- Whatever copies, assignments and readings of statistics any threads do on any objects, one object
-- to itself and two to each other included, and whatever the order of their steps: as long as some
-- thread is not done, some thread can go on.
pub Reach-goes :
    (oss : List (List Operation)) {ts : List Thread}
    → Reach (start_all oss) ts
    → All IsDone ts ⊎ ((us : List Thread) × Step ts us)
Reach-goes oss {ts} r =
    let i = Reach-IsDisciplined (start_all-IsDisciplined oss) r in
    elim (each-or-goes (λ t. t.held ≡ []) ts [] ts refl
      (All-each IsDisciplined (λ t. (t.held ≡ []) ⊎ ((u : Thread) × Does ts t u))
        (λ t d. holder-goes ts t t.held t.rest refl refl d) ts i)) [
          | inr goes ↦ inr goes
          | inl none_held ↦
              let free_ : (m : ℕ) → IsFree m ts = λ m.
                All-each (λ t. t.held ≡ []) (λ t. All (λ k. k ≢ m) t.held)
                  (λ t h. subst (All (λ k. k ≢ m)) (sym h) tt) ts none_held in
              each-or-goes IsDone ts [] ts refl (
                All-each (λ t. IsDisciplined t × (t.held ≡ []))
                  (λ t. IsDone t ⊎ ((u : Thread) × Does ts t u))
                  (λ t d.
                    free-goes ts t t.rest free_ d.1 refl (subst (λ h. IsSingle h t.rest) d.1 d.0))
                  ts (All-both IsDisciplined (λ t. t.held ≡ []) ts i none_held))
        ]
