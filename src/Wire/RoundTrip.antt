-- ===== src/Wire/RoundTrip.antt =====
-- util.hpp: length prefixes written and read, and sums of iovec lengths.
use dg_cat.Common.{
  ℕ, ◌+◌, ◌%◌, ◌^◌, ◌≤◌, ◌<◌, ◌≡◌, refl, ◌∙◌, List, [], ◌∷◌, ◌++◌, none, some, arith, length,
  le→ltb, lt→ltb,
}
use dg_cat.Wire.{
  Endian, Iovec, be_bytes, be_value, write_length_prefix, read_length_prefix, total_iovec_len,
  sum_iovec_len,
}

pub be_value-be_bytes : (x : ℕ) (bs : List ℕ) → x < 2 ^ 32 → be_value (be_bytes x ++ bs) ≡ x
be_value-be_bytes x bs h = omega arith

module _ (e : Endian) where
  -- A length of at most 32 bits is written as four bytes, and is read back from any buffer that
  -- begins with them.
  pub read-write_length_prefix :
      (len : ℕ) (rest : List ℕ)
      → len < 2 ^ 32
      → (bs : List ℕ) × (write_length_prefix e len ≡ some bs)
        × (length bs ≡ 4)
        × (read_length_prefix e (bs ++ rest) ≡ len)
  unfolding write_length_prefix read_length_prefix
  read-write_length_prefix len rest h = (be_bytes len, written, refl, read)
    where
      written : write_length_prefix e len ≡ some (be_bytes len)
      written =
          let m : len % 2 ^ 32 ≡ len = omega arith in
          rw (le→ltb 0xffff_ffff len (omega arith), m, e.store_big len h)

      read : read_length_prefix e (be_bytes len ++ rest) ≡ len
      read = e.load_big _ refl ∙ be_value-be_bytes len [] h

  -- A length of more than 32 bits is refused.
  pub write_length_prefix-none : (len : ℕ) → 2 ^ 32 ≤ len → write_length_prefix e len ≡ none
  unfolding write_length_prefix
  write_length_prefix-none len h = rw (lt→ltb 0xffff_ffff len (omega arith))

-- The plain sum of the lengths.
abbrev pub sum_len : List Iovec → ℕ
sum_len [] = 0
sum_len (v ∷ iov) = v.iov_len + sum_len iov

sum_iovec_len-eq :
    (iov : List Iovec) (len : ℕ) → sum_iovec_len iov (len % 2 ^ 64) ≡ (len + sum_len iov) % 2 ^ 64
unfolding sum_iovec_len
sum_iovec_len-eq [] len = omega arith
sum_iovec_len-eq (v ∷ iov) len =
    let s : (len % 2 ^ 64 + v.iov_len) % 2 ^ 64 ≡ (len + v.iov_len) % 2 ^ 64 = omega arith in
    rw s (sum_iovec_len-eq iov (len + v.iov_len) ∙ omega arith)

-- `total_iovec_len` is the sum of the segments' lengths, reduced modulo 2^64.
pub total_iovec_len_lem : (iov : List Iovec) → total_iovec_len iov ≡ sum_len iov % 2 ^ 64
unfolding total_iovec_len
total_iovec_len_lem iov = sum_iovec_len-eq iov 0 ∙ omega arith
