-- ===== src/Queue/Commit/Append.antt =====
-- `producer_commit_batch` of buffer_queue.hpp against the ring's contents.
use dg_cat.Common.{
  All, ℕ, ◌+◌, ◌%◌, ◌^◌, ◌≤◌, ◌<◌, ◌≡◌, refl, ap, ◌∙◌, Bool, true, false, List, [], ◌∷◌, ◌++◌,
  arith, take, length, if◌then◌else◌, append_assoc, inl, inr, ◌⊎◌, if_cases,
}
use dg_cat.Wire.{Endian, prefix_len, be_bytes}
use dg_cat.Stats.{DgBufferStats}
use dg_cat.Queue.{BufferQueue, put_data_locked_no_notify}
use dg_cat.Queue.Window.{contents, IsValid}
use dg_cat.Queue.Put.{put_data_locked_no_notify_lem}
use dg_cat.Queue.Commit.{
  Mmsghdr, is_discarded, CommitResult, done, waiting, failed, discards, refuses, blocks, stores,
  classify, discard, has_room, put_frame, store_datagram, commit_loop, producer_commit_batch,
  commit_wake,
}

-- A message is as long as a 32-bit field says, and its memory holds as many bytes.
pub record IsMessage (m : Mmsghdr) : Type 0 where
  pub short : m.msg_len < 2 ^ 32
  pub backed : m.msg_len ≤ length m.iov_base

-- A datagram behind its length, as it goes into the ring.
abbrev pub frame : List ℕ → List ℕ
frame bs = be_bytes (length bs) ++ bs

abbrev pub payload : Mmsghdr → List ℕ
payload m = take m.msg_len m.iov_base

-- The frames of the messages that are not discarded.
abbrev pub stream : List Mmsghdr → List ℕ
stream [] = []
stream (m ∷ ms) =
    if is_discarded m.msg_flags then stream ms else (be_bytes m.msg_len ++ payload m) ++ stream ms

module _ (e : Endian) (q : BufferQueue) (m : Mmsghdr) (v : IsValid q) (w : IsMessage m)
    (room : q.n + m.msg_len + prefix_len ≤ q.max_n) where
  pub put_frame_lem :
      let q' = put_frame e q m in
      IsValid q'
      × (contents q' ≡ contents q ++ (be_bytes m.msg_len ++ payload m))
      × (q'.n ≡ q.n + m.msg_len + prefix_len)
      × (q'.max_n ≡ q.max_n)
      × (q'.consumer_index ≡ q.consumer_index)
      × (q'.is_eof ≡ q.is_eof)
      × (q'.stats ≡ q.stats)
      × (q'.shared_stats ≡ q.shared_stats)
      × (q'.notified ≡ q.notified)
  unfolding put_frame
  put_frame_lem =
      let whole : m.msg_len % 2 ^ 32 ≡ m.msg_len = omega (arith, w.short) in
      let prefix = be_bytes m.msg_len in
      let first = put_data_locked_no_notify_lem q prefix prefix_len v (omega arith) (omega arith) in
      let q1 = put_data_locked_no_notify q prefix prefix_len in
      let second =
        put_data_locked_no_notify_lem q1 m.iov_base m.msg_len first.0 w.backed
          (omega (arith, first)) in
      rw (whole, e.store_big m.msg_len w.short)
        (
          second.0,
          second.1
              ∙ ap (λ bs. bs ++ payload m) first.1
              ∙ append_assoc (contents q) prefix (payload m),
          omega (arith, first, second),
          second.3 ∙ first.3,
          second.4 ∙ first.4,
          second.5 ∙ first.5,
          second.6 ∙ first.6,
          second.7 ∙ first.7,
          second.8 ∙ first.8,
        )

-- Statistics and notifications are no part of what a ring holds.
pub IsValid-record :
    {q : BufferQueue} (s t : DgBufferStats) (k : ℕ)
    → IsValid q
    → IsValid (record q { stats = s; shared_stats = t; notified = k })
IsValid-record s t k v = record {
  positive = v.positive;
  small = v.small;
  storage = v.storage;
  consumer_in = v.consumer_in;
  fill = v.fill;
  producer_at = v.producer_at;
}

abbrev pub result_queue : CommitResult → BufferQueue
result_queue (done q) = q
result_queue (waiting q m ms) = q
result_queue (failed x q ms) = q

-- The messages that a call has not dealt with.
abbrev pub unsent : CommitResult → List Mmsghdr
unsent (done q) = []
unsent (waiting q m ms) = m ∷ ms
unsent (failed x q ms) = ms

-- What a call of `producer_commit_batch` on `ms` does to the ring `q`, whatever way it ends.
pub record Appends (q : BufferQueue) (ms : List Mmsghdr) (r : CommitResult) : Type 0 where
  pub valid : IsValid (result_queue r)
  pub bytes : contents (result_queue r) ++ stream (unsent r) ≡ contents q ++ stream ms
  pub capacity : (result_queue r).max_n ≡ q.max_n
  pub consumer : (result_queue r).consumer_index ≡ q.consumer_index
  pub eof : (result_queue r).is_eof ≡ q.is_eof
  pub grown : q.n ≤ (result_queue r).n
  pub left : All IsMessage (unsent r)

pub Verdict-cases :
    (q : BufferQueue) (m : Mmsghdr)
    → IsValid q
    → IsMessage m
    → ((classify q m ≡ discards) × (is_discarded m.msg_flags ≡ true))
      ⊎ ((classify q m ≡ refuses)
          × (is_discarded m.msg_flags ≡ false)
          × (q.max_n < m.msg_len + prefix_len))
      ⊎ ((classify q m ≡ blocks)
          × (is_discarded m.msg_flags ≡ false)
          × (q.max_n < q.n + m.msg_len + prefix_len)
          × (m.msg_len + prefix_len ≤ q.max_n))
      ⊎ ((classify q m ≡ stores)
          × (is_discarded m.msg_flags ≡ false)
          × (q.n + m.msg_len + prefix_len ≤ q.max_n))
unfolding classify
Verdict-cases q m v w = ground arith

-- A call that first moves on to the ring `q'`, with the messages `ms` left.
pub Appends-after :
    (q q' : BufferQueue) (ms' ms : List Mmsghdr) (r : CommitResult)
    → Appends q' ms r
    → contents q' ++ stream ms ≡ contents q ++ stream ms'
    → q'.max_n ≡ q.max_n
    → q'.consumer_index ≡ q.consumer_index
    → q'.is_eof ≡ q.is_eof
    → q.n ≤ q'.n
    → Appends q ms' r
Appends-after q q' ms' ms r a bytes cap con eof grown = record {
  valid = a.valid;
  bytes = a.bytes ∙ bytes;
  capacity = a.capacity ∙ cap;
  consumer = a.consumer ∙ con;
  eof = a.eof ∙ eof;
  grown = omega (arith, a.grown, grown);
  left = a.left;
}

module _ (e : Endian) where
  pub store_datagram-Appends :
      (q : BufferQueue) (m : Mmsghdr)
      → IsValid q
      → IsMessage m
      → q.n + m.msg_len + prefix_len ≤ q.max_n
      → IsValid (store_datagram e q m)
        × (contents (store_datagram e q m) ≡ contents q ++ (be_bytes m.msg_len ++ payload m))
        × ((store_datagram e q m).max_n ≡ q.max_n)
        × ((store_datagram e q m).consumer_index ≡ q.consumer_index)
        × ((store_datagram e q m).is_eof ≡ q.is_eof)
        × (q.n ≤ (store_datagram e q m).n)
  unfolding store_datagram
  store_datagram-Appends q m v w room =
      let f = put_frame_lem e q m v w room in
      (IsValid-record _ _ _ f.0, f.1, f.3, f.4, f.5, omega (arith, f.2))

  pub commit_loop-Appends :
      (ms : List Mmsghdr) (q : BufferQueue) (need_notify need_update : Bool)
      → IsValid q
      → All IsMessage ms
      → Appends q ms (commit_loop e q need_notify need_update ms)
  unfolding commit_loop discard
  commit_loop-Appends [] q need_notify need_update v w = record {
    valid = IsValid-record _ _ _ v;
    bytes = refl;
    capacity = refl;
    consumer = refl;
    eof = refl;
    grown = omega arith;
    left = tt;
  }
  commit_loop-Appends (m ∷ ms) q need_notify need_update v w = elim (Verdict-cases q m v w.0) [
    | inl (h, d) ↦
        rw (h, commit_loop)
          (Appends-after q (discard q) (m ∷ ms) ms _
            (commit_loop-Appends ms (discard q) need_notify true (IsValid-record _ _ _ v) w.1)
            (rw d refl) refl refl refl (omega arith))
    | inr (inl (h, d, big)) ↦
        rw (h, commit_loop)
          (record {
            valid = v;
            bytes = refl;
            capacity = refl;
            consumer = refl;
            eof = refl;
            grown = omega arith;
            left = w;
          })
    | inr (inr (inl (h, d, full, fits))) ↦
        rw (h, commit_loop)
          (record {
            valid = IsValid-record _ _ _ v;
            bytes = refl;
            capacity = refl;
            consumer = refl;
            eof = refl;
            grown = omega arith;
            left = w;
          })
    | inr (inr (inr (h, d, room))) ↦
        rw (h, commit_loop)
          (let (valid, bytes, cap, con, eof, grown) = store_datagram-Appends q m v w.0 room in
            Appends-after q (store_datagram e q m) (m ∷ ms) ms _
              (commit_loop-Appends ms (store_datagram e q m) true true valid w.1)
              (rw (d, bytes) (append_assoc (contents q) _ (stream ms))) cap con eof grown)
  ]

-- However a call of `producer_commit_batch` ends or comes to wait, the ring is valid, its contents
-- followed by the frames of the messages not dealt with are the old contents followed by the frames
-- of all messages that are not discarded, and the consumer's index, the capacity and the end-of-file
-- flag are untouched.
pub producer_commit_batch_lem :
    (e : Endian) (q : BufferQueue) (ms : List Mmsghdr)
    → IsValid q
    → All IsMessage ms
    → Appends q ms (producer_commit_batch e q ms)
unfolding producer_commit_batch
producer_commit_batch_lem e q [] v w = record {
  valid = v;
  bytes = refl;
  capacity = refl;
  consumer = refl;
  eof = refl;
  grown = omega arith;
  left = w;
}
producer_commit_batch_lem e q (m ∷ ms) v w =
    if_cases (Appends q (m ∷ ms)) q.is_eof _ _
      (λ h. record {
        valid = v;
        bytes = refl;
        capacity = refl;
        consumer = refl;
        eof = refl;
        grown = omega arith;
        left = w;
      })
      (λ h. commit_loop-Appends e (m ∷ ms) q false false v w)

-- The same of a waiting call that is woken, whatever the ring has become by then.
pub commit_wake_lem :
    (e : Endian) (q : BufferQueue) (m : Mmsghdr) (ms : List Mmsghdr)
    → IsValid q
    → All IsMessage (m ∷ ms)
    → is_discarded m.msg_flags ≡ false
    → Appends q (m ∷ ms) (commit_wake e q m ms)
unfolding commit_wake
commit_wake_lem e q m ms v w d =
    if_cases (Appends q (m ∷ ms)) (has_room q m) _ _
      (λ h.
        let (valid, bytes, cap, con, eof, grown) = store_datagram-Appends e q m v w.0 (room h) in
        Appends-after q (store_datagram e q m) (m ∷ ms) ms _
          (commit_loop-Appends e ms (store_datagram e q m) true true valid w.1)
          (rw (d, bytes) (append_assoc (contents q) _ (stream ms))) cap con eof grown)
      (λ h. record {
        valid = v;
        bytes = refl;
        capacity = refl;
        consumer = refl;
        eof = refl;
        grown = omega arith;
        left = w;
      })
  where
    room : has_room q m ≡ true → q.n + m.msg_len + prefix_len ≤ q.max_n
    room h = ground (arith, v, w.0)
