-- ===== src/Batch.antt =====
-- `BufferQueue::ConsumerBatch` of include/dg_cat/buffer_queue.hpp: at most two segments of the
-- ring's storage, handed to a consumer. An address is an index of the storage.
pub mod Laws
pub mod Limit
use dg_cat.Common.{
  ℕ, ◌+◌, List, [], ◌++◌, Option, none, some, min, slice, ltb, ◌==◌, if◌then◌else◌, add_size,
  sub_size,
}
use dg_cat.Wire.{Iovec}

-- `iov[0]` and `iov[1]`, `n_iov`, `n`.
pub record ConsumerBatch : Type 0 where
  pub iov0 : Iovec
  pub iov1 : Iovec
  pub n_iov : ℕ
  pub n : ℕ

abbrev pub null_iovec : Iovec
null_iovec = record { iov_base = none; iov_len = 0 }

-- a segment, whose pointer is null where its length is 0
segment : Option ℕ → ℕ → Iovec
segment b len = record { iov_base = if len == 0 then none else b; iov_len = len }

-- the constructor's body after an empty first segment was replaced by the second
of_segments : Option ℕ → ℕ → Option ℕ → ℕ → ConsumerBatch
unfolding segment
of_segments b1 n1 b2 n2 = record {
  iov0 = segment b1 n1;
  iov1 = segment b2 n2;
  n_iov = if n2 == 0 then (if n1 == 0 then 0 else 1) else 2;
  n = add_size n1 n2;
}

unfoldable pub make_batch : Option ℕ → ℕ → Option ℕ → ℕ → ConsumerBatch
unfolding of_segments
make_batch b1 n1 b2 n2 = if n1 == 0 then of_segments b2 n2 b2 0 else of_segments b1 n1 b2 n2

unfoldable pub limit_size : ConsumerBatch → ℕ → ConsumerBatch
limit_size b nb =
    if ltb nb b.n
    then (if ltb nb b.iov0.iov_len
        then record b {
          iov0 = record { iov_base = b.iov0.iov_base; iov_len = nb };
          iov1 = null_iovec;
          n_iov = if nb == 0 then 0 else 1;
          n = nb;
        }
        else (let len1 = sub_size nb b.iov0.iov_len in
            if len1 == 0
            then record b { iov1 = record { iov_base = none; iov_len = len1 }; n_iov = 1; n = nb }
            else record b { iov1 = record { iov_base = b.iov1.iov_base; iov_len = len1 }; n = nb }))
    else b

-- `memcpy` from a segment's address; a null pointer gives no byte
abbrev pub read_at : List ℕ → Option ℕ → ℕ → List ℕ
read_at mem none len = []
read_at mem (some a) len = slice mem a len

-- pointer arithmetic `base + k`
abbrev pub advance : Option ℕ → ℕ → Option ℕ
advance none k = none
advance (some a) k = some (a + k)

-- `iov_base += k; iov_len -= k`
abbrev pub shift_iovec : Iovec → ℕ → Iovec
shift_iovec v k = record { iov_base = advance v.iov_base k; iov_len = sub_size v.iov_len k }

-- an empty first segment is replaced by the second
unfoldable pub compact : ConsumerBatch → ConsumerBatch
compact b =
    if b.iov0.iov_len == 0
    then (if b.iov1.iov_len == 0
        then record b { iov0 = null_iovec; iov1 = null_iovec; n_iov = 0 }
        else record b { iov0 = b.iov1; iov1 = null_iovec; n_iov = 1 })
    else b

-- `none` is the exception; else the bytes that are written to `buffer`, and the batch. The second
-- copy takes `nb` bytes, as the source has it, not the bytes that are still missing.
unfoldable pub copy_and_remove_bytes : List ℕ → ConsumerBatch → ℕ → Option (List ℕ × ConsumerBatch)
unfolding compact
copy_and_remove_bytes mem b nb =
    if nb == 0
    then some ([], b)
    else if ltb b.n nb
    then none
    else (let n1 = min nb b.iov0.iov_len in
        let first = read_at mem b.iov0.iov_base n1 in
        let b1 : ConsumerBatch = record b { iov0 = shift_iovec b.iov0 n1; n = sub_size b.n n1 } in
        if ltb n1 nb
        then some (
          first ++ read_at mem b.iov1.iov_base nb,
          compact (record b1 { iov1 = shift_iovec b1.iov1 nb; n = sub_size b1.n nb }),
        )
        else some (first, compact b1))

-- The bytes that a batch stands for, in order: what `writev` or `sendmsg` is given.
abbrev pub gather : List ℕ → ConsumerBatch → List ℕ
gather mem b =
    read_at mem b.iov0.iov_base b.iov0.iov_len ++ read_at mem b.iov1.iov_base b.iov1.iov_len
