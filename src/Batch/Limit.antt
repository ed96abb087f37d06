-- ===== src/Batch/Limit.antt =====
-- `ConsumerBatch::limit_size` and `ConsumerBatch::copy_and_remove_bytes` on well-formed batches.
use dg_cat.Common.{
  ℕ, zero, suc, ◌-◌, ◌≤◌, ◌<◌, ◌≡◌, ◌≢◌, refl, List, [], ◌∷◌, ◌++◌, arith, take, drop, min,
  append-nil, Option, none, some, sub_size, take-all, drop-all,
}
use native.Mathlib.Decide.{dec_lt}
use dg_cat.Wire.{total_iovec_len}
use dg_cat.Wire.RoundTrip.{total_iovec_len_lem}
use dg_cat.Batch.{
  ConsumerBatch, limit_size, copy_and_remove_bytes, gather, read_at, advance, compact,
}
use dg_cat.Batch.Laws.{
  Fits, IsBatch, length-read_at, take-read_at, drop-read_at, take-append_le, take-append_ge,
  drop-append_le, length-gather,
}

Fits-le : (mem : List ℕ) (p : Option ℕ) (len k : ℕ) → Fits mem p len → k ≤ len → Fits mem p k
Fits-le mem none len k f h = omega arith
Fits-le mem (some a) len k f h = omega arith

module _ (mem : List ℕ) (b : ConsumerBatch) (nb : ℕ) (v : IsBatch mem b) where
  limit_size-IsBatch : IsBatch mem (limit_size b nb)
  unfolding limit_size
  limit_size-IsBatch = ground (
    arith,
    Fits-le mem b.iov0.iov_base b.iov0.iov_len nb v.first,
    Fits-le mem b.iov1.iov_base b.iov1.iov_len (nb - b.iov0.iov_len) v.second,
  )

  limit_size-gather : gather mem (limit_size b nb) ≡ take nb (gather mem b)
  unfolding limit_size
  limit_size-gather =
      let first = read_at mem b.iov0.iov_base b.iov0.iov_len in
      let second = read_at mem b.iov1.iov_base b.iov1.iov_len in
      elim (dec_lt nb b.n) [
        | no all ↦ ground (arith, take-all nb (gather mem b), length-gather mem b v)
        | yes fewer ↦ elim (dec_lt nb b.iov0.iov_len) [
          | yes one ↦ ground (
            arith,
            take-read_at mem b.iov0.iov_base b.iov0.iov_len nb v.first,
            take-append_le nb first second,
            length-read_at mem b.iov0.iov_base b.iov0.iov_len v.first,
            append-nil (take nb first),
          )
          | no both ↦ ground (
            arith,
            take-read_at mem b.iov1.iov_base b.iov1.iov_len (nb - b.iov0.iov_len) v.second,
            take-append_ge nb first second,
            length-read_at mem b.iov0.iov_base b.iov0.iov_len v.first,
            append-nil first,
          )
        ]
      ]

-- `limit_size` keeps a batch well formed and cuts the bytes that it stands for to the first `nb`.
pub limit_size_lem :
    (mem : List ℕ) (b : ConsumerBatch) (nb : ℕ)
    → IsBatch mem b
    → IsBatch mem (limit_size b nb)
      × (gather mem (limit_size b nb) ≡ take nb (gather mem b))
      × ((limit_size b nb).n ≡ min nb b.n)
unfolding limit_size
limit_size_lem mem b nb v =
    (limit_size-IsBatch mem b nb v, limit_size-gather mem b nb v, ground arith)

module _ (mem : List ℕ) (b : ConsumerBatch) (nb : ℕ) (v : IsBatch mem b)
    (within : nb ≤ b.iov0.iov_len) (pos : 0 < nb) where
  -- the batch after a copy that its first segment satisfies
  abbrev rest : ConsumerBatch
  rest = compact (record b {
    iov0 = record { iov_base = advance b.iov0.iov_base nb; iov_len = b.iov0.iov_len - nb };
    n = b.n - nb;
  })

  copy_first : copy_and_remove_bytes mem b nb ≡ some (read_at mem b.iov0.iov_base nb, rest)
  unfolding copy_and_remove_bytes
  copy_first = ground arith

  rest-IsBatch : IsBatch mem rest
  unfolding compact
  rest-IsBatch = ground (arith, drop-read_at mem b.iov0.iov_base b.iov0.iov_len nb v.first within)

  rest-gather : gather mem rest ≡ drop nb (gather mem b)
  unfolding compact
  rest-gather =
      let first = read_at mem b.iov0.iov_base b.iov0.iov_len in
      let second = read_at mem b.iov1.iov_base b.iov1.iov_len in
      ground (
        arith,
        drop-read_at mem b.iov0.iov_base b.iov0.iov_len nb v.first within,
        drop-append_le nb first second,
        length-read_at mem b.iov0.iov_base b.iov0.iov_len v.first,
        drop-all nb first,
        append-nil second,
      )

-- `copy_and_remove_bytes` of at most the first segment copies the first `nb` bytes that the batch
-- stands for, and leaves a well-formed batch of the others.
pub copy_and_remove_bytes_lem :
    (mem : List ℕ) (b : ConsumerBatch) (nb : ℕ)
    → IsBatch mem b
    → nb ≤ b.iov0.iov_len
    → (b' : ConsumerBatch) × (copy_and_remove_bytes mem b nb ≡ some (take nb (gather mem b), b'))
      × IsBatch mem b'
      × (gather mem b' ≡ drop nb (gather mem b))
      × (b'.n ≡ b.n - nb)
unfolding copy_and_remove_bytes
copy_and_remove_bytes_lem mem b zero v within = (b, refl, v, refl, omega arith)
copy_and_remove_bytes_lem mem b (suc k) v within = (
  rest mem b (suc k) v within (omega arith),
  copied,
  rest-IsBatch mem b (suc k) v within (omega arith),
  rest-gather mem b (suc k) v within (omega arith),
  ground arith,
)
  where
    copied :
        copy_and_remove_bytes mem b (suc k)
        ≡ some (take (suc k) (gather mem b), rest mem b (suc k) v within (omega arith))
    copied =
        let first = read_at mem b.iov0.iov_base b.iov0.iov_len in
        let second = read_at mem b.iov1.iov_base b.iov1.iov_len in
        ground (
          arith,
          copy_first mem b (suc k) v within (omega arith),
          take-read_at mem b.iov0.iov_base b.iov0.iov_len (suc k) v.first,
          take-append_le (suc k) first second,
          length-read_at mem b.iov0.iov_base b.iov0.iov_len v.first,
        )

-- Where the bytes asked for reach into the second segment, `copy_and_remove_bytes` writes the whole
-- first segment and then up to `nb` bytes more instead of the missing ones, and takes `nb` off the
-- rest: the count of bytes left is `n - iov_len - nb` modulo 2^64, which is never `n - nb`.
pub copy_and_remove_bytes-straddle :
    (mem : List ℕ) (b : ConsumerBatch) (nb : ℕ)
    → IsBatch mem b
    → b.iov0.iov_len < nb
    → nb ≤ b.n
    → (b' : ConsumerBatch) × (copy_and_remove_bytes mem b nb
        ≡ some (read_at mem b.iov0.iov_base b.iov0.iov_len ++ read_at mem b.iov1.iov_base nb, b'))
      × (b'.n ≡ sub_size (b.n - b.iov0.iov_len) nb)
      × (b'.n ≢ b.n - nb)
unfolding copy_and_remove_bytes compact
copy_and_remove_bytes-straddle mem b nb v over within =
    (after, ground arith, ground arith, ground arith)
  where
    after : ConsumerBatch
    after = compact (record b {
      iov0 = record {
        iov_base = advance b.iov0.iov_base b.iov0.iov_len;
        iov_len = b.iov0.iov_len - b.iov0.iov_len;
      };
      iov1 = record { iov_base = advance b.iov1.iov_base nb; iov_len = sub_size b.iov1.iov_len nb };
      n = sub_size (b.n - b.iov0.iov_len) nb;
    })

-- The segments' lengths add up to `n`, by `total_iovec_len` too.
pub total_iovec_len-batch :
    (mem : List ℕ) (b : ConsumerBatch)
    → IsBatch mem b
    → total_iovec_len (b.iov0 ∷ b.iov1 ∷ []) ≡ b.n
total_iovec_len-batch mem b v = omega (arith, total_iovec_len_lem (b.iov0 ∷ b.iov1 ∷ []))
