-- ===== src/UdpCopier/Held.antt =====
-- What the sender of a copy to a UDP socket has in its hands (udp_datagram_destination.hpp).
use dg_cat.Common.{
  ℕ, ◌+◌, ◌≤◌, ◌<◌, ◌≡◌, refl, sym, ap, ◌∙◌, subst, true, List, [], ◌∷◌, ◌++◌, length, arith, min,
  length-append, inl, inr, ◌⊎◌, append-nil, take,
}
use dg_cat.Wire.{Endian, prefix_len, be_bytes}
use dg_cat.Wire.Splits.{encode, All32}
use dg_cat.Batch.{ConsumerBatch}
use dg_cat.Queue.{BufferQueue, ready, get_data_locked}
use dg_cat.Queue.Window.{contents, IsValid, length-contents}
use dg_cat.Queue.Take.{batch_at, gather-batch_at, get_data_locked-eq}
use dg_cat.Queue.Waits.{Handed}
use dg_cat.Queue.Commit.{Mmsghdr}
use dg_cat.Queue.Commit.Whole.{delivered, encode-append}
use dg_cat.Copier.Invariant.{pending}
use dg_cat.UdpDestination.{leaves, sends, size_max, send_batch}
use dg_cat.UdpDestination.Runs.{IsStraight}
use dg_cat.UdpDestination.Frames.{take_front}
use dg_cat.UdpCopier.{holding, System}
use dg_cat.UdpCopier.Sends.{send_batch-whole, batch_at-IsBatch, batch_at-first, send_batch-empty}
use dg_cat.UdpCopier.Invariant.{SenderOk, Inv}

-- What `consumer_start_batch` hands out.
pub started-SenderOk :
    (ps : List (List ℕ)) (q : BufferQueue) (n_min : ℕ) (b : ConsumerBatch)
    → IsValid q
    → contents q ≡ encode ps
    → 0 < n_min
    → Handed q n_min size_max (ready b)
    → b ≡ get_data_locked q size_max
    → SenderOk ps q (holding b)
started-SenderOk [] q n_min b v bytes pos (batch, same, count, enough) eq =
    let none_ : q.n ≡ 0 = omega (arith, length-contents q, ap length bytes) in
    inl (omega (arith, v), closed none_ enough, refl)
  where
    closed : q.n ≡ 0 → (q.is_eof ≡ true) ⊎ (n_min ≤ q.n) → q.is_eof ≡ true
    closed none_ (inl eof) = eof
    closed none_ (inr more) = absurd (omega arith)
started-SenderOk (p ∷ ps) q n_min b v bytes pos (batch, same, count, enough) eq =
    let size : q.n ≡ length (encode (p ∷ ps)) = sym (length-contents q) ∙ ap length bytes in
    let some_ : 0 < min q.n size_max =
      omega (arith, size, v, length-append (be_bytes (length p)) (p ++ encode ps)) in
    let all : min q.n size_max ≡ length (encode (p ∷ ps)) = omega (arith, v) in
    inr (
      p,
      ps,
      [],
      ap (λ x. p ∷ x) (sym (append-nil ps)),
      eq ∙ get_data_locked-eq q size_max v some_ ∙ ap (batch_at q.max_n q.consumer_index) all,
    )

pub sends-data : {bs bs' : List ℕ} {k k' : ℕ} → sends bs k ≡ sends bs' k' → (bs ≡ bs') × (k ≡ k')
sends-data h = (cc, cc)

module _ (e : Endian) (cap : ℕ) (all : List Mmsghdr) (s : System) (i : Inv cap all s) where
  -- A batch of frames begins with the datagram that is sent.
  took-sends :
      (b : ConsumerBatch) (p : List ℕ) (qs rest : List (List ℕ))
      → i.frames ≡ p ∷ (qs ++ rest)
      → b ≡ batch_at s.queue.max_n s.queue.consumer_index (length (encode (p ∷ qs)))
      → send_batch e s.queue.cells s.n_min b ≡ sends p (length p + prefix_len)
  took-sends b p qs rest eq at_ =
      let q = s.queue in
      let k = length (encode (p ∷ qs)) in
      let size = length-append (be_bytes (length p)) (p ++ encode qs) in
      let front : contents q ≡ encode (p ∷ qs) ++ encode rest =
        i.held ∙ ap encode eq ∙ encode-append (p ∷ qs) rest in
      let within : k ≤ q.n = omega (
        arith,
        length-contents q,
        ap length front,
        length-append (encode (p ∷ qs)) (encode rest),
      ) in
      let g = gather-batch_at q k i.valid within in
      let first : q.consumer_index + prefix_len ≤ q.max_n = omega (
        arith,
        (subst (λ x. IsStraight cap q.consumer_index (x ++ delivered (pending s.producer))) eq
            i.straight).0,
        i.capacity,
      ) in
      subst (λ x. send_batch e q.cells s.n_min x ≡ sends p (length p + prefix_len)) (sym at_)
        (send_batch-whole e q.cells s.n_min (batch_at q.max_n q.consumer_index k) p (encode qs)
          (batch_at-IsBatch q k i.valid (omega (arith, size)) within)
          (g.0 ∙ ap (take k) front ∙ take_front k (encode (p ∷ qs)) (encode rest) refl)
          (subst All32 eq i.small).0
          (batch_at-first q.max_n q.consumer_index k first (omega (arith, size)))
          (omega (arith, g.1, size, i.asked)))

  -- Whatever the sender holds, it leaves the loop behind the end of file or sends the first frame.
  pub held-cases :
      (b : ConsumerBatch)
      → s.sender ≡ holding b
      → ((send_batch e s.queue.cells s.n_min b ≡ leaves)
          × (s.queue.is_eof ≡ true)
          × (i.frames ≡ []))
        ⊎ ((p : List ℕ) × (rest : List (List ℕ)) × (i.frames ≡ p ∷ rest)
            × (send_batch e s.queue.cells s.n_min b ≡ sends p (length p + prefix_len)))
  held-cases b at_ = elim (subst (SenderOk i.frames s.queue) at_ i.sender_ok) [
    | inl (none_, eof, empty) ↦
        inl (send_batch-empty e s.queue.cells s.n_min b (omega (arith, i.asked)), eof, empty)
    | inr (p, qs, rest, eq, batch) ↦ inr (p, qs ++ rest, eq, took-sends b p qs rest eq batch)
  ]
