-- ===== src/Queue/Commit/Counts.antt =====
-- The statistics that `producer_commit_batch` of buffer_queue.hpp keeps, against its messages.
use dg_cat.Common.{
  ℕ, suc, ◌+◌, ◌%◌, ◌≡◌, refl, Bool, true, false, List, [], ◌∷◌, arith, if◌then◌else◌, ◌⊎◌,
  if_cases, size_mod, ◌≢◌,
}
use dg_cat.Wire.{Endian}
use dg_cat.Queue.{BufferQueue}
use dg_cat.Queue.Commit.{
  Mmsghdr, is_discarded, CommitResult, classify, discard, store_datagram, commit_loop,
  producer_commit_batch, Verdict,
}
use dg_cat.Queue.Commit.Append.{result_queue, unsent}
use dg_cat.Queue.Commit.Progress.{store_datagram-fixed}

abbrev pub kept : List Mmsghdr → ℕ
kept [] = 0
kept (m ∷ ms) = if is_discarded m.msg_flags then kept ms else suc (kept ms)

abbrev pub kept_bytes : List Mmsghdr → ℕ
kept_bytes [] = 0
kept_bytes (m ∷ ms) = if is_discarded m.msg_flags then kept_bytes ms else m.msg_len + kept_bytes ms

abbrev pub dropped : List Mmsghdr → ℕ
dropped [] = 0
dropped (m ∷ ms) = if is_discarded m.msg_flags then suc (dropped ms) else dropped ms

-- What is counted and what is still to come add up to what there was, modulo 2^64.
pub record Accounts (q : BufferQueue) (ms : List Mmsghdr) (r : CommitResult) : Type 0 where
  pub datagrams :
      ((result_queue r).stats.n_datagrams + kept (unsent r)) % size_mod
      ≡ (q.stats.n_datagrams + kept ms) % size_mod
  pub bytes :
      ((result_queue r).stats.n_datagram_bytes + kept_bytes (unsent r)) % size_mod
      ≡ (q.stats.n_datagram_bytes + kept_bytes ms) % size_mod
  pub discarded :
      ((result_queue r).stats.n_datagrams_discarded + dropped (unsent r)) % size_mod
      ≡ (q.stats.n_datagrams_discarded + dropped ms) % size_mod

classify-discarded :
    (q : BufferQueue) (m : Mmsghdr)
    → ((classify q m ≡ Verdict.discards) × (is_discarded m.msg_flags ≡ true))
      ⊎ ((classify q m ≢ Verdict.discards) × (is_discarded m.msg_flags ≡ false))
unfolding classify
classify-discarded q m = ground arith

module _ (e : Endian) where
  commit_loop-Accounts :
      (ms : List Mmsghdr) (q : BufferQueue) (nn nu : Bool)
      → Accounts q ms (commit_loop e q nn nu ms)
  unfolding commit_loop discard
  commit_loop-Accounts [] q nn nu = record { datagrams = refl; bytes = refl; discarded = refl }
  commit_loop-Accounts (m ∷ ms) q nn nu = ground (
    arith,
    commit_loop-Accounts ms (discard q) nn true,
    commit_loop-Accounts ms (store_datagram e q m) true true,
    store_datagram-fixed e q m,
    classify-discarded q m,
  )

-- However a call of `producer_commit_batch` ends or comes to wait, the datagrams, payload bytes and
-- discarded messages that it has counted and those among the messages not dealt with add up to the
-- old counts and those among all messages, modulo 2^64.
pub producer_commit_batch-Accounts :
    (e : Endian) (q : BufferQueue) (ms : List Mmsghdr)
    → Accounts q ms (producer_commit_batch e q ms)
unfolding producer_commit_batch
producer_commit_batch-Accounts e q [] = record { datagrams = refl; bytes = refl; discarded = refl }
producer_commit_batch-Accounts e q (m ∷ ms) =
    if_cases (Accounts q (m ∷ ms)) q.is_eof _ _
      (λ h. record { datagrams = refl; bytes = refl; discarded = refl })
      (λ h. commit_loop-Accounts e (m ∷ ms) q false false)
