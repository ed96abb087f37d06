-- ===== src/Batch/Laws.antt =====
-- Well-formed batches of `BufferQueue::ConsumerBatch`, and the bytes that they stand for.
use dg_cat.Common.{
  ℕ, zero, suc, ◌+◌, ◌-◌, ◌^◌, ◌≤◌, ◌<◌, ◌≡◌, refl, List, [], ◌∷◌, ◌++◌, ap, sym, arith, length,
  take, drop, slice, ◌==◌, if◌then◌else◌, length-take, length-slice, get_or-slice, get_or-take,
  get_or-drop, length-drop, length-append, list_ext, Option, none, some,
}
use dg_cat.Batch.{ConsumerBatch, gather, read_at, advance}

-- A segment lies inside the memory; a null one is empty.
abbrev pub Fits : List ℕ → Option ℕ → ℕ → Type 0
Fits mem none len = len ≡ 0
Fits mem (some a) len = a + len ≤ length mem

-- How many of two segments are not empty, the first being empty only if both are.
abbrev pub segments : ℕ → ℕ → ℕ
segments len0 len1 = if len0 == 0 then 0 else if len1 == 0 then 1 else 2

pub record IsBatch (mem : List ℕ) (b : ConsumerBatch) : Type 0 where
  pub first : Fits mem b.iov0.iov_base b.iov0.iov_len
  pub second : Fits mem b.iov1.iov_base b.iov1.iov_len
  pub total : b.n ≡ b.iov0.iov_len + b.iov1.iov_len
  pub packed : b.iov0.iov_len ≡ 0 → b.iov1.iov_len ≡ 0
  pub count : b.n_iov ≡ segments b.iov0.iov_len b.iov1.iov_len
  pub small : b.n < 2 ^ 63

module _ (mem : List ℕ) where
  pub length-read_at : (p : Option ℕ) (len : ℕ) → Fits mem p len → length (read_at mem p len) ≡ len
  length-read_at none len f = sym f
  length-read_at (some a) len f = length-slice mem a len f

  pub take-read_at :
      (p : Option ℕ) (len k : ℕ)
      → Fits mem p len
      → k ≤ len
      → read_at mem p k ≡ take k (read_at mem p len)
  take-read_at none len zero f h = refl
  take-read_at none len (suc k) f h = absurd (omega arith)
  take-read_at (some a) len k f h =
      list_ext 0 _ _
        (omega
          (arith, length-slice mem a k, length-slice mem a len, length-take k (slice mem a len)))
        λ i p. ground (
          arith,
          length-slice mem a k,
          get_or-slice mem a k i,
          get_or-slice mem a len i,
          get_or-take k (slice mem a len) i 0,
        )

  pub drop-read_at :
      (p : Option ℕ) (len k : ℕ)
      → Fits mem p len
      → k ≤ len
      → Fits mem (advance p k) (len - k)
        × (read_at mem (advance p k) (len - k) ≡ drop k (read_at mem p len))
  drop-read_at none len zero f h = (omega arith, refl)
  drop-read_at none len (suc k) f h = absurd (omega arith)
  drop-read_at (some a) len k f h = (
    omega arith,
    list_ext 0 _ _
        (omega (
          arith,
          length-slice mem (a + k) (len - k),
          length-slice mem a len,
          length-drop k (slice mem a len),
        ))
        λ i p. ground (
          arith,
          length-slice mem (a + k) (len - k),
          get_or-slice mem (a + k) (len - k) i,
          get_or-slice mem a len (k + i),
          get_or-drop k (slice mem a len) i 0,
        ),
  )

pub take-append_le {ℓ} :
    {A : Type ℓ} (k : ℕ) (xs ys : List A) → k ≤ length xs → take k (xs ++ ys) ≡ take k xs
take-append_le zero xs ys h = refl
take-append_le (suc k) [] ys h = absurd (omega arith)
take-append_le (suc k) (x ∷ xs) ys h = ap (λ r. x ∷ r) (take-append_le k xs ys (omega arith))

pub take-append_ge {ℓ} :
    {A : Type ℓ} (k : ℕ) (xs ys : List A)
    → length xs ≤ k
    → take k (xs ++ ys) ≡ xs ++ take (k - length xs) ys
take-append_ge k [] ys h = ap (λ n. take n ys) (omega arith)
take-append_ge zero (x ∷ xs) ys h = absurd (omega arith)
take-append_ge (suc k) (x ∷ xs) ys h = ground (arith, take-append_ge k xs ys)

pub drop-append_le {ℓ} :
    {A : Type ℓ} (k : ℕ) (xs ys : List A) → k ≤ length xs → drop k (xs ++ ys) ≡ drop k xs ++ ys
drop-append_le zero xs ys h = refl
drop-append_le (suc k) [] ys h = absurd (omega arith)
drop-append_le (suc k) (x ∷ xs) ys h = drop-append_le k xs ys (omega arith)

module _ (mem : List ℕ) (b : ConsumerBatch) (v : IsBatch mem b) where
  pub length-gather : length (gather mem b) ≡ b.n
  length-gather = omega (
    arith,
    length-append (read_at mem b.iov0.iov_base b.iov0.iov_len)
        (read_at mem b.iov1.iov_base b.iov1.iov_len),
    length-read_at mem b.iov0.iov_base b.iov0.iov_len v.first,
    length-read_at mem b.iov1.iov_base b.iov1.iov_len v.second,
  )
