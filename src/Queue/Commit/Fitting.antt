-- ===== src/Queue/Commit/Fitting.antt =====
-- `producer_commit_batch` of buffer_queue.hpp on messages whose frames fit into the queue.
use dg_cat.Common.{
  All, ℕ, ◌+◌, ◌≤◌, ◌<◌, ◌≡◌, ◌∙◌, Bool, true, false, List, [], ◌∷◌, arith, inl, inr, ◌⊎◌, if_cases,
}
use dg_cat.Wire.{Endian, prefix_len}
use dg_cat.Queue.{BufferQueue}
use dg_cat.Queue.Window.{IsValid}
use dg_cat.Queue.Commit.{
  Mmsghdr, is_discarded, CommitResult, done, waiting, failed, has_room, discard, store_datagram,
  commit_loop, producer_commit_batch, commit_wake,
}
use dg_cat.Queue.Commit.Append.{IsMessage, IsValid-record, Verdict-cases, store_datagram-Appends}

-- A message that is discarded, or whose frame fits into an empty queue of the capacity.
abbrev pub IsFitting : ℕ → Mmsghdr → Type 0
IsFitting cap m = (is_discarded m.msg_flags ≡ true) ⊎ (m.msg_len + prefix_len ≤ cap)

-- No exception, and fitting messages left.
abbrev pub Accepts : ℕ → CommitResult → Type 0
Accepts cap (done q) = Unit
Accepts cap (waiting q m ms) = All (IsFitting cap) (m ∷ ms)
Accepts cap (failed x q ms) = ⊥

module _ (e : Endian) (cap : ℕ) where
  commit_loop-Accepts :
      (ms : List Mmsghdr) (q : BufferQueue) (nn nu : Bool)
      → IsValid q
      → All IsMessage ms
      → q.max_n ≡ cap
      → All (IsFitting cap) ms
      → Accepts cap (commit_loop e q nn nu ms)
  unfolding commit_loop discard
  commit_loop-Accepts [] q nn nu v w same fits = tt
  commit_loop-Accepts (m ∷ ms) q nn nu v w same fits = elim (Verdict-cases q m v w.0) [
    | inl (h, d) ↦
        rw (h, commit_loop)
          (commit_loop-Accepts ms (discard q) nn true (IsValid-record _ _ _ v) w.1 same fits.1)
    | inr (inl (h, d, big)) ↦ absurd (refused d big fits.0)
    | inr (inr (inl (h, d, full, small))) ↦ rw (h, commit_loop) fits
    | inr (inr (inr (h, d, room))) ↦
        let stored = store_datagram-Appends e q m v w.0 room in
        rw (h, commit_loop)
          (commit_loop-Accepts ms (store_datagram e q m) true true stored.0 w.1 (stored.2 ∙ same)
            fits.1)
  ]
    where
      refused :
          is_discarded m.msg_flags ≡ false → q.max_n < m.msg_len + prefix_len → IsFitting cap m → ⊥
      refused d big (inl d') = cc (d, d')
      refused d big (inr small) = omega arith

  pub producer_commit_batch-Accepts :
      (q : BufferQueue) (ms : List Mmsghdr)
      → IsValid q
      → All IsMessage ms
      → q.max_n ≡ cap
      → q.is_eof ≡ false
      → All (IsFitting cap) ms
      → Accepts cap (producer_commit_batch e q ms)
  unfolding producer_commit_batch
  producer_commit_batch-Accepts q [] v w same open_ fits = tt
  producer_commit_batch-Accepts q (m ∷ ms) v w same open_ fits =
      if_cases (Accepts cap) q.is_eof _ _ (λ h. absurd (cc (h, open_)))
        (λ h. commit_loop-Accepts (m ∷ ms) q false false v w same fits)

  pub commit_wake-Accepts :
      (q : BufferQueue) (m : Mmsghdr) (ms : List Mmsghdr)
      → IsValid q
      → All IsMessage (m ∷ ms)
      → q.max_n ≡ cap
      → All (IsFitting cap) (m ∷ ms)
      → Accepts cap (commit_wake e q m ms)
  unfolding commit_wake
  commit_wake-Accepts q m ms v w same fits =
      if_cases (Accepts cap) (has_room q m) _ _
        (λ h.
          let stored = store_datagram-Appends e q m v w.0 (ground (arith, v, w.0)) in
          commit_loop-Accepts ms (store_datagram e q m) true true stored.0 w.1 (stored.2 ∙ same)
            fits.1)
        (λ h. fits)
