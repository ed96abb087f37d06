-- ===== src/Queue/Commit/Until.antt =====
-- The overload of `producer_commit_batch` with a time limit: what it adds, and what it returns.
use dg_cat.Common.{
  All, ℕ, ◌+◌, ◌≤◌, ◌<◌, ◌≡◌, refl, Bool, true, false, List, [], ◌∷◌, ◌++◌, arith, length,
  if◌then◌else◌, inl, inr, if_cases, size_mod, append_assoc, Bool-cases, ltb, ◌&&◌, not, ◌⊎◌,
  add_size,
}
use dg_cat.Wire.{Endian, prefix_len, be_bytes}
use dg_cat.Queue.{BufferQueue}
use dg_cat.Queue.Window.{contents, IsValid}
use dg_cat.Queue.Commit.{
  Mmsghdr, is_discarded, CommitResult, done, waiting, discard, store_datagram_until,
  commit_loop_until, producer_commit_batch_until, commit_wake_until, has_room,
}
use dg_cat.Queue.Commit.Append.{
  IsMessage, payload, stream, Appends, Appends-after, unsent, Verdict-cases, IsValid-record,
  put_frame_lem,
}

module _ (e : Endian) where
  store_until :
      (q : BufferQueue) (m : Mmsghdr)
      → IsValid q
      → IsMessage m
      → q.n + m.msg_len + prefix_len ≤ q.max_n
      → IsValid (store_datagram_until e q m)
        × (contents (store_datagram_until e q m) ≡ contents q ++ (be_bytes m.msg_len ++ payload m))
        × ((store_datagram_until e q m).max_n ≡ q.max_n)
        × ((store_datagram_until e q m).consumer_index ≡ q.consumer_index)
        × ((store_datagram_until e q m).is_eof ≡ q.is_eof)
        × (q.n ≤ (store_datagram_until e q m).n)
  unfolding store_datagram_until
  store_until q m v w room =
      let f = put_frame_lem e q m v w room in
      (IsValid-record _ _ _ f.0, f.1, f.3, f.4, f.5, omega (arith, f.2))

  loop_until-Appends :
      (ms : List Mmsghdr) (q : BufferQueue) (nn nu : Bool) (k : ℕ)
      → IsValid q
      → All IsMessage ms
      → Appends q ms (commit_loop_until e q nn nu k ms).0
  unfolding commit_loop_until discard
  loop_until-Appends [] q nn nu k v w = record {
    valid = IsValid-record _ _ _ v;
    bytes = refl;
    capacity = refl;
    consumer = refl;
    eof = refl;
    grown = omega arith;
    left = tt;
  }
  loop_until-Appends (m ∷ ms) q nn nu k v w = elim (Verdict-cases q m v w.0) [
    | inl (h, d) ↦
        rw (h, commit_loop_until)
          (Appends-after q (discard q) (m ∷ ms) ms _
            (loop_until-Appends ms (discard q) nn true _ (IsValid-record _ _ _ v) w.1) (rw d refl)
            refl refl refl (omega arith))
    | inr (inl (h, d, big)) ↦
        rw (h, commit_loop_until)
          (record {
            valid = v;
            bytes = refl;
            capacity = refl;
            consumer = refl;
            eof = refl;
            grown = omega arith;
            left = w;
          })
    | inr (inr (inl (h, d, full, fits))) ↦
        rw (h, commit_loop_until)
          (record {
            valid = IsValid-record _ _ _ v;
            bytes = refl;
            capacity = refl;
            consumer = refl;
            eof = refl;
            grown = omega arith;
            left = w;
          })
    | inr (inr (inr (h, d, room))) ↦
        rw (h, commit_loop_until)
          (let (valid, bytes, cap, con, eof, grown) = store_until q m v w.0 room in
            Appends-after q (store_datagram_until e q m) (m ∷ ms) ms _
              (loop_until-Appends ms (store_datagram_until e q m) true true _ valid w.1)
              (rw (d, bytes) (append_assoc (contents q) _ (stream ms))) cap con eof grown)
  ]

  loop_until-count :
      (ms : List Mmsghdr) (q : BufferQueue) (nn nu : Bool) (k : ℕ)
      → k + length ms < size_mod
      → let (r, committed) = commit_loop_until e q nn nu k ms in
        committed + length (unsent r) ≡ k + length ms
  unfolding commit_loop_until
  loop_until-count [] q nn nu k h = refl
  loop_until-count (m ∷ ms) q nn nu k h = ground (
    arith,
    loop_until-count ms (discard q) nn true (k + 1),
    loop_until-count ms (store_datagram_until e q m) true true (k + 1),
  )

-- However the call with a time limit ends or comes to wait, the ring holds its old contents and the
-- frames of the messages dealt with, and these are counted: the count returned and the number of
-- messages not dealt with make up the length of the batch. The batch has fewer than 2^64 messages.
commit_until-Appends :
    (e : Endian) (q : BufferQueue) (ms : List Mmsghdr)
    → IsValid q
    → All IsMessage ms
    → length ms < size_mod
    → let (r, committed) = producer_commit_batch_until e q ms in
      Appends q ms r × (committed + length (unsent r) ≡ length ms)
unfolding producer_commit_batch_until
commit_until-Appends e q [] v w h = (
  record {
    valid = v;
    bytes = refl;
    capacity = refl;
    consumer = refl;
    eof = refl;
    grown = omega arith;
    left = w;
  },
  refl,
)
commit_until-Appends e q (m ∷ ms) v w h =
    if_cases
      (λ (p : CommitResult × ℕ).
        Appends q (m ∷ ms) p.0 × (p.1 + length (unsent p.0) ≡ length (m ∷ ms)))
      q.is_eof _ _
      (λ _. (
        record {
          valid = v;
          bytes = refl;
          capacity = refl;
          consumer = refl;
          eof = refl;
          grown = omega arith;
          left = w;
        },
        omega arith,
      ))
      (λ _. (
        loop_until-Appends e (m ∷ ms) q false false 0 v w,
        omega (arith, loop_until-count e (m ∷ ms) q false false 0 (omega arith)),
      ))

-- A wake of the call with a time limit that finds room stores the message at hand and goes on with
-- the batch, whether the limit was met or not.
commit_wake_until-room :
    (e : Endian) (expired : Bool) (q : BufferQueue) (committed : ℕ) (m : Mmsghdr)
    (ms : List Mmsghdr)
    → IsValid q
    → All IsMessage (m ∷ ms)
    → is_discarded m.msg_flags ≡ false
    → q.n + m.msg_len + prefix_len ≤ q.max_n
    → committed + length (m ∷ ms) < size_mod
    → let (r, committed') = commit_wake_until e expired q committed m ms in
      Appends q (m ∷ ms) r × (committed' + length (unsent r) ≡ committed + length (m ∷ ms))
unfolding commit_wake_until
commit_wake_until-room e expired q committed m ms v w d room few =
    let (valid, bytes, cap, con, eof, grown) = store_until e q m v w.0 room in
    let open_ : has_room q m ≡ true = ground (arith, v, w.0) in
    let one : add_size committed 1 ≡ committed + 1 = omega (arith, few) in
    rw open_ (
      Appends-after q (store_datagram_until e q m) (m ∷ ms) ms _
          (loop_until-Appends e ms (store_datagram_until e q m) true true _ valid w.1)
          (rw (d, bytes) (append_assoc (contents q) _ (stream ms))) cap con eof grown,
      omega (
        arith,
        one,
        few,
        loop_until-count e ms (store_datagram_until e q m) true true (add_size committed 1)
            (omega (arith, one, few)),
      ),
    )

-- A wake of the call with a time limit that finds no room returns what was committed if the limit
-- was met, and waits on otherwise; the ring is as it was.
commit_wake_until-full :
    (e : Endian) (expired : Bool) (q : BufferQueue) (committed : ℕ) (m : Mmsghdr)
    (ms : List Mmsghdr)
    → IsValid q
    → IsMessage m
    → q.max_n < q.n + m.msg_len + prefix_len
    → commit_wake_until e expired q committed m ms
      ≡ (if expired then (done q, committed) else (waiting q m ms, committed))
unfolding commit_wake_until
commit_wake_until-full e expired q committed m ms v w full =
    let shut : has_room q m ≡ false = ground (arith, v, w) in rw shut refl

-- What runs in one piece: a call, or a wake of a call that has come to wait, with what was committed
-- before it and the ring that it finds; `expired` says that the limit has passed.
pub data Stage : Type 0 where
  calls : (q : BufferQueue) (ms : List Mmsghdr) → Stage
  wakes :
      (expired : Bool) (q : BufferQueue) (committed : ℕ) (m : Mmsghdr) (ms : List Mmsghdr) → Stage

abbrev pub stage_queue : Stage → BufferQueue
stage_queue (calls q ms) = q
stage_queue (wakes expired q committed m ms) = q

abbrev pub stage_messages : Stage → List Mmsghdr
stage_messages (calls q ms) = ms
stage_messages (wakes expired q committed m ms) = m ∷ ms

abbrev pub stage_committed : Stage → ℕ
stage_committed (calls q ms) = 0
stage_committed (wakes expired q committed m ms) = committed

-- The limit has passed and the message at hand does not fit with its prefix.
abbrev pub times_out : Stage → Bool
times_out (calls q ms) = false
times_out (wakes expired q committed m ms) = expired && ltb q.max_n (q.n + m.msg_len + prefix_len)

-- A call waits for a message that it does not discard.
abbrev pub is_kept : Stage → Bool
is_kept (calls q ms) = true
is_kept (wakes expired q committed m ms) = not (is_discarded m.msg_flags)

abbrev pub run_stage : Endian → Stage → CommitResult × ℕ
run_stage e (calls q ms) = producer_commit_batch_until e q ms
run_stage e (wakes expired q committed m ms) = commit_wake_until e expired q committed m ms

-- The call with a time limit and each of its wakes, however they end or come to wait: where the limit
-- has passed and the message at hand does not fit, the call returns what was committed before, with
-- the ring as it was; otherwise the ring holds its old contents and the frames of the messages dealt
-- with, and these are counted: the count and the number of messages not dealt with make up the count
-- before and the number of messages at hand. The ring is valid and messages are well formed, a wake
-- is for a message that is not discarded, and all counts are below 2^64.
pub producer_commit_batch_until_lem :
    (e : Endian) (s : Stage)
    → IsValid (stage_queue s)
    → All IsMessage (stage_messages s)
    → is_kept s ≡ true
    → stage_committed s + length (stage_messages s) < size_mod
    → let (r, committed) = run_stage e s in
      ((times_out s ≡ true) × (r ≡ done (stage_queue s)) × (committed ≡ stage_committed s))
      ⊎ ((times_out s ≡ false)
          × Appends (stage_queue s) (stage_messages s) r
          × (committed + length (unsent r) ≡ stage_committed s + length (stage_messages s)))
producer_commit_batch_until_lem e (calls q ms) v w kept few =
    let c = commit_until-Appends e q ms v w (omega arith) in inr (refl, c.0, omega (arith, c.1))
producer_commit_batch_until_lem e (wakes expired q committed m ms) v w kept few =
    elim (Bool-cases (ltb q.max_n (q.n + m.msg_len + prefix_len))) [
      | inl full ↦
          let over = commit_wake_until-full e expired q committed m ms v w.0 (ground arith) in
          elim (Bool-cases expired) [
            | inl late ↦ rw (over, late, full) (inl (refl, refl, refl))
            | inr early ↦
                let waits : Appends q (m ∷ ms) (waiting q m ms) = record {
                  valid = v;
                  bytes = refl;
                  capacity = refl;
                  consumer = refl;
                  eof = refl;
                  grown = omega arith;
                  left = w;
                } in
                rw (over, early) (inr (refl, waits, refl))
          ]
      | inr fits ↦
          let room =
            commit_wake_until-room e expired q committed m ms v w (ground arith) (ground arith)
              few in
          inr (ground (arith, fits), room.0, room.1)
    ]
