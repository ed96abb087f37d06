-- ===== src/Queue/Window.antt =====
-- The bytes that the ring of buffer_queue.hpp holds, oldest first, and its invariant.
use dg_cat.Common.{
  ℕ, ◌+◌, ◌-◌, ◌%◌, ◌^◌, ◌≤◌, ◌<◌, ◌≡◌, refl, ◌∙◌, List, [], arith, length, get_or, ltb,
  if◌then◌else◌, tabulate, length-tabulate, get_or-tabulate, length-replicate, list_ext,
}
use native.Mathlib.Nat.{mod-eq_of_lt, mod-eq-sub-mod}
use dg_cat.Stats.{DgBufferStats}
use dg_cat.Queue.{BufferQueue, new_queue, producer_set_eof}

-- An index up to twice the capacity, brought back into the ring.
abbrev pub wrap : ℕ → ℕ → ℕ
wrap cap k = if ltb k cap then k else k - cap

abbrev pub cell_at : BufferQueue → ℕ → ℕ
cell_at q i = get_or q.cells (wrap q.max_n (q.consumer_index + i)) 0

abbrev pub contents : BufferQueue → List ℕ
contents q = tabulate q.n (cell_at q)

pub record IsValid (q : BufferQueue) : Type 0 where
  pub positive : 0 < q.max_n
  pub small : q.max_n < 2 ^ 63
  pub storage : length q.cells ≡ q.max_n
  pub consumer_in : q.consumer_index < q.max_n
  pub fill : q.n ≤ q.max_n
  pub producer_at : q.producer_index ≡ wrap q.max_n (q.consumer_index + q.n)

pub length-contents : (q : BufferQueue) → length (contents q) ≡ q.n
length-contents q = length-tabulate q.n (cell_at q)

pub get_or-contents : (q : BufferQueue) (i : ℕ) → i < q.n → get_or (contents q) i 0 ≡ cell_at q i
get_or-contents q i h = get_or-tabulate q.n (cell_at q) i h

pub mod-eq-wrap : (cap k : ℕ) → k < cap + cap → k % cap ≡ wrap cap k
mod-eq-wrap cap k h = ground (
  arith,
  λ (p : k < cap). mod-eq_of_lt p,
  λ (p : cap ≤ k). mod-eq-sub-mod {n = k} {m = cap} p,
  λ (p : k - cap < cap). mod-eq_of_lt p,
)

-- A queue's contents are known by their length and their bytes.
pub contents-eq :
    (q : BufferQueue) (bs : List ℕ)
    → q.n ≡ length bs
    → ((i : ℕ) → i < q.n → cell_at q i ≡ get_or bs i 0)
    → contents q ≡ bs
contents-eq q bs e h = list_ext 0 _ _ (length-contents q ∙ e) λ i p.
    (get_or-contents q i (omega (arith, length-contents q)))
    ∙ h i (omega (arith, length-contents q))

-- A new queue with room for at least one byte, and for fewer than 2^63, is valid and empty.
pub new_queue-IsValid :
    (max_backlog : ℕ) (shared : DgBufferStats)
    → 0 < max_backlog
    → max_backlog < 2 ^ 63
    → IsValid (new_queue max_backlog shared) × (contents (new_queue max_backlog shared) ≡ [])
unfolding new_queue
new_queue-IsValid max_backlog shared h k = (
  record {
    positive = h;
    small = k;
    storage = length-replicate max_backlog 0;
    consumer_in = h;
    fill = omega arith;
    producer_at = ground arith;
  },
  refl,
)

pub IsValid-eof : {q : BufferQueue} → IsValid q → IsValid (producer_set_eof q)
unfolding producer_set_eof
IsValid-eof v = record {
  positive = v.positive;
  small = v.small;
  storage = v.storage;
  consumer_in = v.consumer_in;
  fill = v.fill;
  producer_at = v.producer_at;
}
