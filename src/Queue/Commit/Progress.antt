-- ===== src/Queue/Commit/Progress.antt =====
-- `producer_commit_batch` of buffer_queue.hpp: when it returns or waits, and what it announces.
use dg_cat.Common.{
  All, ℕ, ◌+◌, ◌≤◌, ◌<◌, ◌≡◌, refl, sym, ◌∙◌, Bool, true, false, List, [], ◌∷◌, ◌++◌, arith, length,
  if◌then◌else◌, append-nil, Bool-cases, inl, inr, ◌⊎◌, if_cases, length-append, length-take,
  add_size,
}
use dg_cat.Wire.{Endian, prefix_len, be_bytes}
use dg_cat.Queue.{BufferQueue, put_data_locked_no_notify}
use dg_cat.Queue.Window.{contents, IsValid}
use dg_cat.Queue.Commit.{
  Mmsghdr, is_discarded, CommitResult, done, waiting, failed, discard, count_datagram, flush,
  has_room, put_frame, store_datagram, commit_loop, producer_commit_batch, commit_wake,
}
use dg_cat.Queue.Commit.Append.{
  IsMessage, payload, stream, Appends, unsent, store_datagram-Appends, Verdict-cases,
  commit_loop-Appends, IsValid-record, put_frame_lem,
}

-- The published statistics are the queue's own, unless the call threw.
abbrev pub Published : CommitResult → Type 0
Published (done q) = q.shared_stats ≡ q.stats
Published (waiting q m ms) = q.shared_stats ≡ q.stats
Published (failed x q ms) = Unit

-- Bytes that were added after there were `n0`, with `k0` notifications so far, were notified.
abbrev pub Announced : ℕ → ℕ → CommitResult → Type 0
Announced n0 k0 (done q) = (q.n ≡ n0) ⊎ (k0 < q.notified)
Announced n0 k0 (waiting q m ms) = (q.n ≡ n0) ⊎ (k0 < q.notified)
Announced n0 k0 (failed x q ms) = Unit

module _ (e : Endian) where
  commit_loop-Published :
      (ms : List Mmsghdr) (q : BufferQueue) (nn nu : Bool)
      → (nu ≡ false → q.shared_stats ≡ q.stats)
      → Published (commit_loop e q nn nu ms)
  unfolding commit_loop
  commit_loop-Published [] q nn true h = refl
  commit_loop-Published [] q nn false h = h refl
  commit_loop-Published (m ∷ ms) q nn nu h = ground (
    arith,
    commit_loop-Published ms (discard q) nn true (λ p. cc),
    commit_loop-Published ms (store_datagram e q m) true true (λ p. cc),
    h,
  )

  pub store_datagram-fixed :
      (q : BufferQueue) (m : Mmsghdr)
      → ((store_datagram e q m).notified ≡ q.notified)
        × ((store_datagram e q m).shared_stats ≡ q.shared_stats)
        × ((store_datagram e q m).stats.n_datagrams_discarded ≡ q.stats.n_datagrams_discarded)
        × ((store_datagram e q m).stats.n_datagrams ≡ add_size q.stats.n_datagrams 1)
        × ((store_datagram e q m).stats.n_datagram_bytes
            ≡ add_size q.stats.n_datagram_bytes m.msg_len)
  unfolding store_datagram put_frame put_data_locked_no_notify count_datagram
  store_datagram-fixed q m = ground arith

  commit_loop-Announced :
      (n0 k0 : ℕ) (ms : List Mmsghdr) (q : BufferQueue) (nn nu : Bool)
      → (nn ≡ false → q.n ≡ n0)
      → k0 ≤ q.notified
      → Announced n0 k0 (commit_loop e q nn nu ms)
  unfolding commit_loop discard
  commit_loop-Announced n0 k0 [] q true nu h k = inr (omega arith)
  commit_loop-Announced n0 k0 [] q false nu h k = inl (h refl)
  commit_loop-Announced n0 k0 (m ∷ ms) q nn nu h k = ground (
    arith,
    commit_loop-Announced n0 k0 ms (discard q) nn true h k,
    commit_loop-Announced n0 k0 ms (store_datagram e q m) true true (λ p. cc)
        (omega (arith, store_datagram-fixed q m)),
    h,
  )

  commit_loop-shrinks :
      (ms : List Mmsghdr) (q : BufferQueue) (nn nu : Bool)
      → length (unsent (commit_loop e q nn nu ms)) ≤ length ms
  unfolding commit_loop
  commit_loop-shrinks [] q nn nu = omega arith
  commit_loop-shrinks (m ∷ ms) q nn nu = ground (
    arith,
    commit_loop-shrinks ms (discard q) nn true,
    commit_loop-shrinks ms (store_datagram e q m) true true,
  )

-- A waiting call lacks room at the ring as it is, and would have it in an empty ring.
abbrev pub Blocked : CommitResult → Type 0
Blocked (done q) = Unit
Blocked (waiting q m ms) =
    (q.max_n < q.n + m.msg_len + prefix_len)
    × (m.msg_len + prefix_len ≤ q.max_n)
    × (is_discarded m.msg_flags ≡ false)
Blocked (failed x q ms) = Unit

module _ (e : Endian) where
  commit_loop-Blocked :
      (ms : List Mmsghdr) (q : BufferQueue) (nn nu : Bool)
      → IsValid q
      → All IsMessage ms
      → Blocked (commit_loop e q nn nu ms)
  unfolding commit_loop discard
  commit_loop-Blocked [] q nn nu v w = tt
  commit_loop-Blocked (m ∷ ms) q nn nu v w = elim (Verdict-cases q m v w.0) [
    | inl (h, d) ↦
        rw (h, commit_loop)
          (commit_loop-Blocked ms (discard q) nn true (IsValid-record _ _ _ v) w.1)
    | inr (inl (h, d, big)) ↦ rw (h, commit_loop) tt
    | inr (inr (inl (h, d, full, fits))) ↦ rw (h, commit_loop) (full, fits, d)
    | inr (inr (inr (h, d, room))) ↦
        rw (h, commit_loop)
          (commit_loop-Blocked ms (store_datagram e q m) true true
            (store_datagram-Appends e q m v w.0 room).0 w.1)
  ]

pub length-payload : (m : Mmsghdr) → IsMessage m → length (payload m) ≡ m.msg_len
length-payload m w = omega (arith, length-take m.msg_len m.iov_base, w.backed)

pub length-stream :
    (m : Mmsghdr) (ms : List Mmsghdr)
    → IsMessage m
    → length (stream (m ∷ ms)) ≡ (
        if is_discarded m.msg_flags
        then length (stream ms)
        else m.msg_len + prefix_len + length (stream ms))
length-stream m ms w = elim (Bool-cases (is_discarded m.msg_flags)) [
  | inl d ↦ rw d
  | inr d ↦ rw d (
      omega (
        arith,
        length-append (be_bytes m.msg_len ++ payload m) (stream ms),
        length-append (be_bytes m.msg_len) (payload m),
        length-payload m w,
      ))
]

module _ (e : Endian) where
  n-store_datagram :
      (q : BufferQueue) (m : Mmsghdr)
      → IsValid q
      → IsMessage m
      → q.n + m.msg_len + prefix_len ≤ q.max_n
      → (store_datagram e q m).n ≡ q.n + m.msg_len + prefix_len
  unfolding store_datagram
  n-store_datagram q m v w room = (put_frame_lem e q m v w room).2

  commit_loop-done :
      (ms : List Mmsghdr) (q : BufferQueue) (nn nu : Bool)
      → IsValid q
      → All IsMessage ms
      → q.n + length (stream ms) ≤ q.max_n
      → (q' : BufferQueue) × (commit_loop e q nn nu ms ≡ done q')
  unfolding commit_loop discard
  commit_loop-done [] q nn nu v w room = (flush q nn nu, refl)
  commit_loop-done (m ∷ ms) q nn nu v w room =
      let len = length-stream m ms w.0 in
      elim (Verdict-cases q m v w.0) [
        | inl (h, d) ↦
            rw (h, commit_loop)
              (commit_loop-done ms (discard q) nn true (IsValid-record _ _ _ v) w.1
                (ground (arith, len)))
        | inr (inl (h, d, big)) ↦ absurd (ground (arith, len))
        | inr (inr (inl (h, d, full, fits))) ↦ absurd (ground (arith, len))
        | inr (inr (inr (h, d, fits))) ↦
            rw (h, commit_loop)
              (commit_loop-done ms (store_datagram e q m) true true
                (store_datagram-Appends e q m v w.0 fits).0 w.1
                (ground (
                  arith,
                  len,
                  n-store_datagram q m v w.0 fits,
                  store_datagram-Appends e q m v w.0 fits,
                )))
      ]

-- With room for the frames of all messages that are not discarded, a call before the end of file
-- returns without waiting, and has appended exactly these frames.
pub producer_commit_batch-done :
    (e : Endian) (q : BufferQueue) (ms : List Mmsghdr)
    → IsValid q
    → All IsMessage ms
    → q.is_eof ≡ false
    → q.n + length (stream ms) ≤ q.max_n
    → (q' : BufferQueue) × (producer_commit_batch e q ms ≡ done q')
      × IsValid q'
      × (contents q' ≡ contents q ++ stream ms)
unfolding producer_commit_batch
producer_commit_batch-done e q [] v w open_ room = (q, refl, v, sym (append-nil (contents q)))
producer_commit_batch-done e q (m ∷ ms) v w open_ room =
    let (q', ran) = commit_loop-done e (m ∷ ms) q false false v w room in
    let a : Appends q (m ∷ ms) (done q') =
      rw (← ran) (commit_loop-Appends e (m ∷ ms) q false false v w) in
    (q', ground (arith, ran), a.valid, sym (append-nil (contents q')) ∙ a.bytes)

abbrev Settles : BufferQueue → CommitResult → Type 0
Settles q r = Blocked r × Published r × Announced q.n q.notified r

producer_commit_batch-Settles :
    (e : Endian) (q : BufferQueue) (ms : List Mmsghdr)
    → IsValid q
    → All IsMessage ms
    → q.shared_stats ≡ q.stats
    → Settles q (producer_commit_batch e q ms)
unfolding producer_commit_batch
producer_commit_batch-Settles e q [] v w sync = (tt, sync, inl refl)
producer_commit_batch-Settles e q (m ∷ ms) v w sync =
    if_cases (Settles q) q.is_eof _ _ (λ h. (tt, tt, tt))
      (λ h. (
        commit_loop-Blocked e (m ∷ ms) q false false v w,
        commit_loop-Published e (m ∷ ms) q false false (λ _. sync),
        commit_loop-Announced e q.n q.notified (m ∷ ms) q false false (λ _. refl) (omega arith),
      ))

-- A call that comes to wait lacks room in the ring as it is, and would have it in an empty one; the
-- statistics are published, and if it changed the number of bytes it has notified the waiting
-- threads. It started with published statistics.
pub producer_commit_batch-waiting :
    (e : Endian) (q : BufferQueue) (ms : List Mmsghdr) {q' : BufferQueue} {m : Mmsghdr}
    {ms' : List Mmsghdr}
    → IsValid q
    → All IsMessage ms
    → q.shared_stats ≡ q.stats
    → producer_commit_batch e q ms ≡ waiting q' m ms'
    → (q'.max_n < q'.n + m.msg_len + prefix_len)
      × (m.msg_len + prefix_len ≤ q'.max_n)
      × (q'.shared_stats ≡ q'.stats)
      × ((q'.n ≡ q.n) ⊎ (q.notified < q'.notified))
producer_commit_batch-waiting e q ms v w sync ran =
    let s = rw ran at (producer_commit_batch-Settles e q ms v w sync) in (s.0.0, s.0.1, s.1, s.2)

-- A call that returns has published its statistics, and if it changed the number of bytes it has
-- notified the waiting threads. It started with published statistics.
pub producer_commit_batch-returned :
    (e : Endian) (q : BufferQueue) (ms : List Mmsghdr) {q' : BufferQueue}
    → IsValid q
    → All IsMessage ms
    → q.shared_stats ≡ q.stats
    → producer_commit_batch e q ms ≡ done q'
    → (q'.shared_stats ≡ q'.stats) × ((q'.n ≡ q.n) ⊎ (q.notified < q'.notified))
producer_commit_batch-returned e q ms v w sync ran =
    let s = rw ran at (producer_commit_batch-Settles e q ms v w sync) in (s.1, s.2)

-- A wake-up with room for the datagram that the call waits with stores it: fewer datagrams are left
-- than before.
pub commit_wake-shrinks :
    (e : Endian) (q : BufferQueue) (m : Mmsghdr) (ms : List Mmsghdr)
    → IsValid q
    → IsMessage m
    → q.n + m.msg_len + prefix_len ≤ q.max_n
    → length (unsent (commit_wake e q m ms)) < length (m ∷ ms)
unfolding commit_wake
commit_wake-shrinks e q m ms v w h =
    ground (arith, commit_loop-shrinks e ms (store_datagram e q m) true true)

pub producer_commit_batch-shrinks :
    (e : Endian) (q : BufferQueue) (ms : List Mmsghdr)
    → length (unsent (producer_commit_batch e q ms)) ≤ length ms
unfolding producer_commit_batch
producer_commit_batch-shrinks e q [] = omega arith
producer_commit_batch-shrinks e q (m ∷ ms) =
    if_cases (λ r. length (unsent r) ≤ length (m ∷ ms)) q.is_eof _ _ (λ h. omega arith)
      (λ h. commit_loop-shrinks e (m ∷ ms) q false false)

-- A wake-up without room for it changes nothing.
pub commit_wake-waits :
    (e : Endian) (q : BufferQueue) (m : Mmsghdr) (ms : List Mmsghdr)
    → IsValid q
    → IsMessage m
    → q.max_n < q.n + m.msg_len + prefix_len
    → commit_wake e q m ms ≡ waiting q m ms
unfolding commit_wake
commit_wake-waits e q m ms v w h = ground arith

-- A message that a call waits with is not a discarded one.
pub producer_commit_batch-Blocked :
    (e : Endian) (q : BufferQueue) (ms : List Mmsghdr)
    → IsValid q
    → All IsMessage ms
    → Blocked (producer_commit_batch e q ms)
unfolding producer_commit_batch
producer_commit_batch-Blocked e q [] v w = tt
producer_commit_batch-Blocked e q (m ∷ ms) v w =
    if_cases Blocked q.is_eof _ _ (λ _. tt) (λ _. commit_loop-Blocked e (m ∷ ms) q false false v w)

pub commit_wake-Blocked :
    (e : Endian) (q : BufferQueue) (m : Mmsghdr) (ms : List Mmsghdr)
    → IsValid q
    → All IsMessage (m ∷ ms)
    → is_discarded m.msg_flags ≡ false
    → m.msg_len + prefix_len ≤ q.max_n
    → Blocked (commit_wake e q m ms)
unfolding commit_wake
commit_wake-Blocked e q m ms v w d small =
    if_cases Blocked (has_room q m) _ _
      (λ h.
        commit_loop-Blocked e ms (store_datagram e q m) true true
          (store_datagram-Appends e q m v w.0 (ground (arith, h))).0 w.1)
      (λ h. (ground (arith, h), small, d))
