-- ===== src/Wire.antt =====
-- Length prefixes and iovec lengths: include/dg_cat/util.hpp, and PREFIX_LEN of
-- include/dg_cat/constants.hpp. The byte-order functions of Boost and libc, and the layout of a
-- `uint32_t` in memory, are the parameter `Endian`.
pub mod RoundTrip
pub mod Splits
use dg_cat.Common.{
  ℕ, zero, suc, ◌+◌, ◌-◌, ◌*◌, ◌/◌, ◌%◌, ◌^◌, ◌<◌, ◌≡◌, List, [], ◌∷◌, ◌++◌, Option, none, some,
  length, take, ltb, if◌then◌else◌, add_size,
}

abbrev pub prefix_len : ℕ
prefix_len = 4

-- The four bytes of a 32-bit number, most significant first.
abbrev pub be_bytes : ℕ → List ℕ
be_bytes x = (x / 2 ^ 24 % 256) ∷ (x / 2 ^ 16 % 256) ∷ (x / 2 ^ 8 % 256) ∷ (x % 256) ∷ []

-- The number that four memory cells denote, read most significant first.
abbrev pub be_value : List ℕ → ℕ
be_value (a ∷ b ∷ c ∷ d ∷ _) = a % 256 * 2 ^ 24 + b % 256 * 2 ^ 16 + c % 256 * 2 ^ 8 + d % 256
be_value _ = 0

-- What the code takes from the machine and the libraries: `load` is the `uint32_t` that four bytes
-- of memory hold, `store` is its inverse `memcpy`, the rest are the functions of those names.
pub record Endian : Type 0 where
  pub load : List ℕ → ℕ
  pub store : ℕ → List ℕ
  pub native_to_big : ℕ → ℕ
  pub big_to_native : ℕ → ℕ
  pub ntohl : ℕ → ℕ
  pub store_big : (x : ℕ) → x < 2 ^ 32 → store (native_to_big x) ≡ be_bytes x
  pub load_big : (bs : List ℕ) → length bs ≡ 4 → big_to_native (load bs) ≡ be_value bs
  pub load_ntohl : (bs : List ℕ) → length bs ≡ 4 → ntohl (load bs) ≡ be_value bs

module _ (e : Endian) where
  -- `none` is the exception; the bytes are those written to `buffer`.
  unfoldable pub write_length_prefix : ℕ → Option (List ℕ)
  write_length_prefix len =
      if ltb 0xffff_ffff len then none else some (e.store (e.native_to_big (len % 2 ^ 32)))

  pub read_length_prefix : List ℕ → ℕ
  read_length_prefix buffer = e.big_to_native (e.load (take 4 buffer))

-- `struct iovec`: a null pointer, or an address in the memory at hand, and a length.
pub record Iovec : Type 0 where
  pub iov_base : Option ℕ
  pub iov_len : ℕ

-- the loop over `iov[i .. n_iovecs)` with the sum so far
sum_iovec_len : List Iovec → ℕ → ℕ
sum_iovec_len [] len = len
sum_iovec_len (v ∷ iov) len = sum_iovec_len iov (add_size len v.iov_len)

pub total_iovec_len : List Iovec → ℕ
unfolding sum_iovec_len
total_iovec_len iov = sum_iovec_len iov 0
