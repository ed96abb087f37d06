-- ===== src/Queue/Commit/Whole.antt =====
-- `producer_commit_batch` of buffer_queue.hpp adds whole frames only.
use dg_cat.Common.{
  All, All-split, ℕ, ◌≡◌, refl, sym, ap, ap₂, ◌∙◌, subst, Bool, true, false, List, [], ◌∷◌, ◌++◌,
  arith, inl, inr, if_cases, append_assoc, length, take, take-all, length-append, Bool-cases,
  if◌then◌else◌,
}
use dg_cat.Batch.Laws.{take-append_le}
use dg_cat.Wire.{Endian, be_bytes}
use dg_cat.Wire.Splits.{encode, All32}
use dg_cat.Queue.{BufferQueue}
use dg_cat.Queue.Window.{contents, IsValid}
use dg_cat.Queue.Commit.{
  Mmsghdr, is_discarded, CommitResult, has_room, discard, store_datagram, commit_loop,
  producer_commit_batch, commit_wake,
}
use dg_cat.Queue.Commit.Append.{
  IsMessage, IsValid-record, Verdict-cases, store_datagram-Appends, payload, stream, Appends,
  result_queue, unsent,
}
use dg_cat.Queue.Commit.Progress.{length-payload}

-- The datagrams of the messages that are not discarded.
abbrev pub delivered : List Mmsghdr → List (List ℕ)
delivered [] = []
delivered (m ∷ ms) = if is_discarded m.msg_flags then delivered ms else payload m ∷ delivered ms

pub delivered-append : (ms ns : List Mmsghdr) → delivered (ms ++ ns) ≡ delivered ms ++ delivered ns
delivered-append [] ns = refl
delivered-append (m ∷ ms) ns = elim (Bool-cases (is_discarded m.msg_flags)) [
  | inl d ↦ rw d (delivered-append ms ns)
  | inr d ↦ rw d (ap (λ ps. payload m ∷ ps) (delivered-append ms ns))
]

pub stream-append : (ms ns : List Mmsghdr) → stream (ms ++ ns) ≡ stream ms ++ stream ns
stream-append [] ns = refl
stream-append (m ∷ ms) ns = elim (Bool-cases (is_discarded m.msg_flags)) [
  | inl d ↦ rw d (stream-append ms ns)
  | inr d ↦
      rw (d, stream-append ms ns)
        (sym (append_assoc (be_bytes m.msg_len ++ payload m) (stream ms) (stream ns)))
]

pub stream-delivered : (ms : List Mmsghdr) → All IsMessage ms → stream ms ≡ encode (delivered ms)
stream-delivered [] w = refl
stream-delivered (m ∷ ms) w = elim (Bool-cases (is_discarded m.msg_flags)) [
  | inl d ↦ rw d (stream-delivered ms w.1)
  | inr d ↦ rw d (
      append_assoc (be_bytes m.msg_len) (payload m) (stream ms)
      ∙ ap₂ (λ n r. be_bytes n ++ (payload m ++ r)) (sym (length-payload m w.0))
          (stream-delivered ms w.1))
]

pub encode-append : (ps qs : List (List ℕ)) → encode (ps ++ qs) ≡ encode ps ++ encode qs
encode-append [] qs = refl
encode-append (p ∷ ps) qs =
    ap (λ x. be_bytes (length p) ++ (p ++ x)) (encode-append ps qs)
    ∙ ap (λ x. be_bytes (length p) ++ x) (sym (append_assoc p (encode ps) (encode qs)))
    ∙ sym (append_assoc (be_bytes (length p)) (p ++ encode ps) (encode qs))

pub delivered-All32 : (ms : List Mmsghdr) → All IsMessage ms → All32 (delivered ms)
delivered-All32 [] w = tt
delivered-All32 (m ∷ ms) w =
    if_cases All32 (is_discarded m.msg_flags) _ _ (λ d. delivered-All32 ms w.1)
      (λ d. (omega (arith, length-payload m w.0, w.0), delivered-All32 ms w.1))

-- The messages that a call has dealt with are the first ones.
abbrev pub Dealt : List Mmsghdr → CommitResult → Type 0
Dealt ms r = (ns : List Mmsghdr) × (ms ≡ ns ++ unsent r)

Dealt-cons : (m : Mmsghdr) (ms : List Mmsghdr) (r : CommitResult) → Dealt ms r → Dealt (m ∷ ms) r
Dealt-cons m ms r (ns, eq) = (m ∷ ns, ap (λ x. m ∷ x) eq)

module _ (e : Endian) where
  commit_loop-Dealt :
      (ms : List Mmsghdr) (q : BufferQueue) (nn nu : Bool)
      → IsValid q
      → All IsMessage ms
      → Dealt ms (commit_loop e q nn nu ms)
  unfolding commit_loop discard
  commit_loop-Dealt [] q nn nu v w = ([], refl)
  commit_loop-Dealt (m ∷ ms) q nn nu v w = elim (Verdict-cases q m v w.0) [
    | inl (h, d) ↦
        rw (h, commit_loop)
          (Dealt-cons m ms (commit_loop e (discard q) nn true ms)
            (commit_loop-Dealt ms (discard q) nn true (IsValid-record _ _ _ v) w.1))
    | inr (inl (h, d, big)) ↦ rw (h, commit_loop) ([], refl)
    | inr (inr (inl (h, d, full, small))) ↦ rw (h, commit_loop) ([], refl)
    | inr (inr (inr (h, d, room))) ↦
        let stored = store_datagram-Appends e q m v w.0 room in
        rw (h, commit_loop)
          (Dealt-cons m ms (commit_loop e (store_datagram e q m) true true ms)
            (commit_loop-Dealt ms (store_datagram e q m) true true stored.0 w.1))
  ]

  pub producer_commit_batch-Dealt :
      (q : BufferQueue) (ms : List Mmsghdr)
      → IsValid q
      → All IsMessage ms
      → Dealt ms (producer_commit_batch e q ms)
  unfolding producer_commit_batch
  producer_commit_batch-Dealt q [] v w = ([], refl)
  producer_commit_batch-Dealt q (m ∷ ms) v w =
      if_cases (Dealt (m ∷ ms)) q.is_eof _ _ (λ h. ([], refl))
        (λ h. commit_loop-Dealt (m ∷ ms) q false false v w)

  pub commit_wake-Dealt :
      (q : BufferQueue) (m : Mmsghdr) (ms : List Mmsghdr)
      → IsValid q
      → All IsMessage (m ∷ ms)
      → Dealt (m ∷ ms) (commit_wake e q m ms)
  unfolding commit_wake
  commit_wake-Dealt q m ms v w =
      if_cases (Dealt (m ∷ ms)) (has_room q m) _ _
        (λ h.
          let stored = store_datagram-Appends e q m v w.0 (ground (arith, v, w.0)) in
          Dealt-cons m ms (commit_loop e (store_datagram e q m) true true ms)
            (commit_loop-Dealt ms (store_datagram e q m) true true stored.0 w.1))
        (λ h. ([], refl))

append-cancel : (xs ys zs : List ℕ) → xs ++ zs ≡ ys ++ zs → xs ≡ ys
append-cancel xs ys zs h =
    let same : length xs ≡ length ys =
      omega (arith, ap length h, length-append xs zs, length-append ys zs) in
    sym (take-append_le (length xs) xs zs (omega arith) ∙ take-all (length xs) xs (omega arith))
    ∙ ap (take (length xs)) h
    ∙ take-append_le (length xs) ys zs (omega arith)
    ∙ take-all (length xs) ys (omega arith)

-- What the contents gain is the frames of the messages dealt with.
pub Appends-delivered :
    (q : BufferQueue) (ms : List Mmsghdr) (r : CommitResult)
    → All IsMessage ms
    → Appends q ms r
    → Dealt ms r
    → (ns : List Mmsghdr) × (ms ≡ ns ++ unsent r)
      × All IsMessage ns
      × (contents (result_queue r) ≡ contents q ++ encode (delivered ns))
Appends-delivered q ms r w a (ns, eq) =
    let mine = (All-split IsMessage ns (unsent r) (subst (All IsMessage) eq w)).0 in
    (
      ns,
      eq,
      mine,
      append-cancel (contents (result_queue r)) (contents q ++ encode (delivered ns))
          (stream (unsent r))
          (a.bytes
            ∙ ap (λ x. contents q ++ stream x) eq
            ∙ ap (λ x. contents q ++ x)
                (stream-append ns (unsent r)
                  ∙ ap (λ x. x ++ stream (unsent r)) (stream-delivered ns mine))
            ∙ sym (append_assoc (contents q) (encode (delivered ns)) (stream (unsent r)))),
    )
