-- ===== src/Queue/Fifo/Commits.antt =====
-- `producer_commit_batch` of buffer_queue.hpp against the bounded list of bytes.
use dg_cat.Common.{
  All, ◌+◌, ◌≤◌, ◌<◌, ◌≡◌, refl, sym, ap, ◌∙◌, Bool, true, false, List, [], ◌∷◌, ◌++◌, arith, inl,
  inr, length, ltb, if◌then◌else◌, subst,
}
use native.Mathlib.Decide.{dec_le}
use dg_cat.Wire.{Endian, prefix_len, be_bytes}
use dg_cat.Queue.{BufferQueue, Error}
use dg_cat.Queue.Window.{contents, IsValid, length-contents}
use dg_cat.Queue.Commit.{
  Mmsghdr, is_discarded, CommitResult, has_room, discard, store_datagram, commit_loop,
  producer_commit_batch, commit_wake,
}
use dg_cat.Queue.Commit.Append.{
  IsMessage, IsValid-record, Verdict-cases, store_datagram-Appends, payload, result_queue,
}
use dg_cat.Queue.Commit.Progress.{length-payload}
use dg_cat.Queue.Fifo.{
  commit, wake, Answer, stays, raised, of_commit, Fifo, add, fits, add_all, call_fifo,
}

-- What a ring stands for.
abbrev pub view : BufferQueue → Fifo
view q = record { bytes = contents q; closed = q.is_eof; capacity = q.max_n }

-- The ring stays valid, and gives the answer that the list gives.
abbrev pub Agrees : BufferQueue × Answer → Fifo × Answer → Type 0
Agrees (q, a) (f, b) = IsValid q × (view q ≡ f) × (a ≡ b)

pub view-eq :
    (q : BufferQueue) (f : Fifo)
    → contents q ≡ f.bytes
    → q.is_eof ≡ f.closed
    → q.max_n ≡ f.capacity
    → view q ≡ f
view-eq q f p r s = λ i. record { bytes = p i; closed = r i; capacity = s i }

-- The cases of `add_all`.
add_all-discards :
    (f : Fifo) (m : Mmsghdr) (ms : List Mmsghdr)
    → is_discarded m.msg_flags ≡ true
    → add_all f (m ∷ ms) ≡ add_all f ms
unfolding add_all
add_all-discards f m ms d = rw (d, add_all) refl

add_all-refuses :
    (f : Fifo) (m : Mmsghdr) (ms : List Mmsghdr)
    → is_discarded m.msg_flags ≡ false
    → f.capacity < m.msg_len + prefix_len
    → add_all f (m ∷ ms) ≡ (f, raised Error.datagram_too_large)
unfolding add_all
add_all-refuses f m ms d big =
    let large : ltb f.capacity (m.msg_len + prefix_len) ≡ true = ground arith in
    rw (d, large, add_all) refl

add_all-blocks :
    (f : Fifo) (m : Mmsghdr) (ms : List Mmsghdr)
    → is_discarded m.msg_flags ≡ false
    → m.msg_len + prefix_len ≤ f.capacity
    → f.capacity < length f.bytes + m.msg_len + prefix_len
    → add_all f (m ∷ ms) ≡ (f, stays (m ∷ ms))
unfolding add_all
add_all-blocks f m ms d small full =
    let large : ltb f.capacity (m.msg_len + prefix_len) ≡ false = ground arith in
    let none_ : fits f m ≡ false = ground arith in rw (d, large, none_, add_all) refl

add_all-stores :
    (f : Fifo) (m : Mmsghdr) (ms : List Mmsghdr)
    → is_discarded m.msg_flags ≡ false
    → length f.bytes + m.msg_len + prefix_len ≤ f.capacity
    → add_all f (m ∷ ms) ≡ add_all (add f m) ms
unfolding add_all
add_all-stores f m ms d room =
    let large : ltb f.capacity (m.msg_len + prefix_len) ≡ false = ground arith in
    let some_ : fits f m ≡ true = ground arith in rw (d, large, some_, add_all) refl

module _ (e : Endian) where
  store_datagram-view :
      (q : BufferQueue) (m : Mmsghdr)
      → IsValid q
      → IsMessage m
      → q.n + m.msg_len + prefix_len ≤ q.max_n
      → view (store_datagram e q m) ≡ add (view q) m
  store_datagram-view q m v w room =
      let (valid, bytes, cap, con, eof, grown) = store_datagram-Appends e q m v w room in
      view-eq (store_datagram e q m) (add (view q) m)
        (bytes ∙ ap (λ n. contents q ++ (be_bytes n ++ payload m)) (sym (length-payload m w))) eof
        cap

  abbrev Committed : CommitResult → Fifo × Answer → Type 0
  Committed r o = Agrees (result_queue r, of_commit r) o

  commit_loop-Agrees :
      (ms : List Mmsghdr) (q : BufferQueue) (need_notify need_update : Bool)
      → IsValid q
      → All IsMessage ms
      → Committed (commit_loop e q need_notify need_update ms) (add_all (view q) ms)
  unfolding commit_loop discard add_all
  commit_loop-Agrees [] q nn nu v w = (IsValid-record _ _ _ v, refl, refl)
  commit_loop-Agrees (m ∷ ms) q nn nu v w = elim (Verdict-cases q m v w.0) [
    | inl (h, d) ↦
        rw (h, commit_loop)
          (subst (Committed (commit_loop e (discard q) nn true ms))
            (sym (add_all-discards (view q) m ms d))
            (commit_loop-Agrees ms (discard q) nn true (IsValid-record _ _ _ v) w.1))
    | inr (inl (h, d, big)) ↦
        rw (h, commit_loop)
          (
            v,
            sym (ap (λ o. o.0) (add_all-refuses (view q) m ms d big)),
            sym (ap (λ o. o.1) (add_all-refuses (view q) m ms d big)),
          )
    | inr (inr (inl (h, d, full, small))) ↦
        let blocks = add_all-blocks (view q) m ms d small (omega (arith, length-contents q)) in
        rw (h, commit_loop)
          (IsValid-record _ _ _ v, sym (ap (λ o. o.0) blocks), sym (ap (λ o. o.1) blocks))
    | inr (inr (inr (h, d, room))) ↦
        let stored = (store_datagram-Appends e q m v w.0 room).0 in
        rw (h, commit_loop)
          (subst (Committed (commit_loop e (store_datagram e q m) true true ms))
            (ap (λ f. add_all f ms) (store_datagram-view q m v w.0 room)
              ∙ sym (add_all-stores (view q) m ms d (omega (arith, length-contents q))))
            (commit_loop-Agrees ms (store_datagram e q m) true true stored w.1))
  ]

  -- one test, made by both
  both :
      (b : Bool) (r r' : CommitResult) (o o' : Fifo × Answer)
      → (b ≡ true → Committed r o)
      → (b ≡ false → Committed r' o')
      → Committed (if b then r else r') (if b then o else o')
  both true r r' o o' h k = h refl
  both false r r' o o' h k = k refl

  pub commit-Agrees :
      (q : BufferQueue) (ms : List Mmsghdr)
      → IsValid q
      → All IsMessage ms
      → Committed (producer_commit_batch e q ms) (call_fifo (view q) (commit ms))
  unfolding producer_commit_batch call_fifo
  commit-Agrees q [] v w = (v, refl, refl)
  commit-Agrees q (m ∷ ms) v w =
      both q.is_eof _ _ _ _ (λ eof. (v, refl, refl))
        (λ open_. commit_loop-Agrees (m ∷ ms) q false false v w)

  pub wake-Agrees :
      (q : BufferQueue) (m : Mmsghdr) (ms : List Mmsghdr)
      → IsValid q
      → All IsMessage (m ∷ ms)
      → Committed (commit_wake e q m ms) (call_fifo (view q) (wake m ms))
  unfolding commit_wake call_fifo
  wake-Agrees q m ms v w = elim (dec_le (q.n + m.msg_len + prefix_len) q.max_n) [
    | yes room ↦
        let here_ : has_room q m ≡ true = ground (arith, v, w.0) in
        let there : fits (view q) m ≡ true = ground (arith, length-contents q) in
        let stored = (store_datagram-Appends e q m v w.0 room).0 in
        rw (here_, there)
          (subst (λ f. Committed (commit_loop e (store_datagram e q m) true true ms) (add_all f ms))
            (store_datagram-view q m v w.0 room)
            (commit_loop-Agrees ms (store_datagram e q m) true true stored w.1))
    | no full ↦
        let here_ : has_room q m ≡ false = ground (arith, v, w.0) in
        let there : fits (view q) m ≡ false = ground (arith, length-contents q) in
        rw (here_, there) (v, refl, refl)
  ]
