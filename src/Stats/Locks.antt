-- ===== src/Stats/Locks.antt =====
-- `LockableStats` and `LockableDgCatStats` of include/dg_cat/stats.hpp: which mutexes their operations
-- take, in which order, and threads that run such operations on the same objects. An object is named
-- by a number, as is its mutex.
pub mod Free
use dg_cat.Common.{ℕ, ◌≡◌, ◌≢◌, List, [], ◌∷◌, ◌++◌, Option, none, some, All}

-- `lock_guard` and its end, and the copy of the members to or from an object.
pub data Act : Type 0 where
  locks unlocks copies_from copies_to : ℕ → Act

-- the copy constructor, which takes the other's mutex
abbrev pub construct_copy : ℕ → List Act
construct_copy other = locks other ∷ copies_from other ∷ unlocks other ∷ []

-- `operator=`, by way of a temporary object
abbrev pub assign : ℕ → ℕ → List Act
assign this other = construct_copy other ++ (locks this ∷ copies_to this ∷ unlocks this ∷ [])

-- `operator=` from plain statistics, which takes no mutex
abbrev pub assign_plain : ℕ → List Act
assign_plain this = copies_to this ∷ []

abbrev pub get : ℕ → List Act
get this = locks this ∷ copies_from this ∷ unlocks this ∷ []

-- `get` of `LockableDgCatStats`, which `get_stats` of the copier calls
abbrev pub get_all : ℕ → ℕ → ℕ → List Act
get_all source_stats destination_stats buffer_stats =
    get source_stats ++ (get destination_stats ++ get buffer_stats)

-- The constructor of `LockableDgCatStats` from three lockable objects, and its `operator=` from plain
-- statistics.
abbrev pub construct_all : ℕ → ℕ → ℕ → List Act
construct_all source_stats destination_stats buffer_stats =
    construct_copy source_stats ++ (construct_copy destination_stats ++ construct_copy buffer_stats)

abbrev pub assign_all_plain : ℕ → ℕ → ℕ → List Act
assign_all_plain source_stats destination_stats buffer_stats =
    assign_plain source_stats ++ (assign_plain destination_stats ++ assign_plain buffer_stats)

pub data Operation : Type 0 where
  constructs : ℕ → Operation
  assigns : ℕ → ℕ → Operation
  gets : ℕ → Operation
  gets_all : ℕ → ℕ → ℕ → Operation
  assigns_plain : ℕ → Operation
  constructs_all : ℕ → ℕ → ℕ → Operation
  assigns_all_plain : ℕ → ℕ → ℕ → Operation

abbrev pub acts_of : Operation → List Act
acts_of (constructs other) = construct_copy other
acts_of (assigns this other) = assign this other
acts_of (gets this) = get this
acts_of (gets_all a b c) = get_all a b c
acts_of (assigns_plain this) = assign_plain this
acts_of (constructs_all a b c) = construct_all a b c
acts_of (assigns_all_plain a b c) = assign_all_plain a b c

-- the operations of a thread, one after the other
abbrev pub acts_of_all : List Operation → List Act
acts_of_all [] = []
acts_of_all (o ∷ os) = acts_of o ++ acts_of_all os

-- The mutexes that a thread holds, and what it has still to do.
pub record Thread : Type 0 where
  pub held : List ℕ
  pub rest : List Act

abbrev pub started : List Operation → Thread
started os = record { held = []; rest = acts_of_all os }

abbrev pub start_all : List (List Operation) → List Thread
start_all [] = []
start_all (os ∷ oss) = started os ∷ start_all oss

-- No thread holds the mutex.
abbrev pub IsFree : ℕ → List Thread → Type 0
IsFree m ts = All (λ t. All (λ k. k ≢ m) t.held) ts

-- What a thread does next, among all threads; a mutex that is taken makes it wait.
pub data Does (ts : List Thread) (t : Thread) : Thread → Type 0 where
  lock :
      (m : ℕ) (rest : List Act)
      → t.rest ≡ locks m ∷ rest
      → IsFree m ts
      → Does ts t (record { held = m ∷ t.held; rest = rest })
  unlock :
      (m : ℕ) (held : List ℕ) (rest : List Act)
      → t.rest ≡ unlocks m ∷ rest
      → t.held ≡ m ∷ held
      → Does ts t (record { held = held; rest = rest })
  copy_from :
      (m : ℕ) (rest : List Act)
      → t.rest ≡ copies_from m ∷ rest
      → Does ts t (record t { rest = rest })
  copy_to :
      (m : ℕ) (rest : List Act) → t.rest ≡ copies_to m ∷ rest → Does ts t (record t { rest = rest })

-- A step of one of the threads.
pub data Step (ts : List Thread) : List Thread → Type 0 where
  step :
      (before after : List Thread) (t u : Thread)
      → ts ≡ before ++ (t ∷ after)
      → Does ts t u
      → Step ts (before ++ (u ∷ after))

pub data Reach (ts : List Thread) : List Thread → Type 0 where
  here : Reach ts ts
  next : {us vs : List Thread} → Reach ts us → Step us vs → Reach ts vs
