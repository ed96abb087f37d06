-- ===== src/Queue/Commit/Notices.antt =====
-- `producer_commit_batch` of buffer_queue.hpp: whom it tells.
use dg_cat.Common.{
  ℕ, ◌≤◌, ◌<◌, ◌≡◌, refl, Bool, true, false, List, [], ◌∷◌, arith, if_cases, ◌⊎◌, inl, inr,
}
use dg_cat.Wire.{Endian}
use dg_cat.Queue.{BufferQueue}
use dg_cat.Queue.Commit.{
  Mmsghdr, CommitResult, done, waiting, failed, discard, has_room, store_datagram, commit_loop,
  producer_commit_batch, commit_wake,
}
use dg_cat.Queue.Commit.Progress.{store_datagram-fixed}

-- No notification is taken back, and if there are more or fewer bytes than `n0` there are more
-- notifications than `k0`, unless an exception ends the call.
abbrev pub Tells : ℕ → ℕ → CommitResult → Type 0
Tells n0 k0 (done q) = (k0 ≤ q.notified) × ((q.n ≡ n0) ⊎ (k0 < q.notified))
Tells n0 k0 (waiting q m ms) = (k0 ≤ q.notified) × ((q.n ≡ n0) ⊎ (k0 < q.notified))
Tells n0 k0 (failed x q ms) = k0 ≤ q.notified

commit_loop-Tells :
    (e : Endian) (n0 k0 : ℕ) (ms : List Mmsghdr) (q : BufferQueue) (nn nu : Bool)
    → (nn ≡ false → q.n ≡ n0)
    → k0 ≤ q.notified
    → Tells n0 k0 (commit_loop e q nn nu ms)
unfolding commit_loop discard
commit_loop-Tells e n0 k0 [] q true nu h k = (omega arith, inr (omega arith))
commit_loop-Tells e n0 k0 [] q false nu h k = (k, inl (h refl))
commit_loop-Tells e n0 k0 (m ∷ ms) q nn nu h k = ground (
  arith,
  commit_loop-Tells e n0 k0 ms (discard q) nn true h k,
  commit_loop-Tells e n0 k0 ms (store_datagram e q m) true true (λ p. cc)
      (omega (arith, store_datagram-fixed e q m)),
  h,
)

pub producer_commit_batch-Tells :
    (e : Endian) (q : BufferQueue) (ms : List Mmsghdr)
    → Tells q.n q.notified (producer_commit_batch e q ms)
unfolding producer_commit_batch
producer_commit_batch-Tells e q [] = (omega arith, inl refl)
producer_commit_batch-Tells e q (m ∷ ms) =
    if_cases (Tells q.n q.notified) q.is_eof _ _ (λ _. omega arith)
      (λ _. commit_loop-Tells e q.n q.notified (m ∷ ms) q false false (λ _. refl) (omega arith))

pub commit_wake-Tells :
    (e : Endian) (q : BufferQueue) (m : Mmsghdr) (ms : List Mmsghdr)
    → Tells q.n q.notified (commit_wake e q m ms)
unfolding commit_wake
commit_wake-Tells e q m ms =
    if_cases (Tells q.n q.notified) (has_room q m) _ _
      (λ _.
        commit_loop-Tells e q.n q.notified ms (store_datagram e q m) true true (λ p. cc)
          (omega (arith, store_datagram-fixed e q m)))
      (λ _. (omega arith, inl refl))
