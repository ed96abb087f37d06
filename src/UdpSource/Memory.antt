-- ===== src/UdpSource/Memory.antt =====
-- What udp_datagram_source.hpp finds in its buffers: each message has its own, and holds a datagram
-- that was received, whole unless it is longer than the buffer.
use dg_cat.Common.{
  All, ℕ, zero, suc, ◌+◌, ◌^◌, ◌≤◌, ◌<◌, ◌≡◌, refl, sym, ap, ap₂, ◌∙◌, subst, List, [], ◌∷◌, ◌++◌,
  none, some, length, take, ltb, ◌==◌, ◌&&◌, get_or, set, replicate, if◌then◌else◌, if_cases, arith,
  length-set, get_or-set, length-replicate, take-all, inl, inr, Bool-cases,
}
use dg_cat.Queue.Commit.{is_discarded}
use dg_cat.Queue.Commit.Append.{IsMessage, payload}
use dg_cat.Queue.Commit.Whole.{delivered}
use dg_cat.UdpSource.Buffers.{
  Buffers, null_iovec, new_buffers, allocate_one, allocate, Recvmmsg, iovec_at, iovec_of,
  write_buffer, receive_clump,
}

-- The first `i` of `n` messages have a buffer of their own, of `bufsize` bytes.
pub record IsReady (n bufsize i : ℕ) (b : Buffers) : Type 0 where
  pub buffer_count : length b.buffers ≡ n
  pub iovec_count : length b.iovs ≡ n
  pub msg_count : length b.msgs ≡ n
  pub msg_at : (j : ℕ) → j < i → get_or b.msgs j none ≡ some j
  pub base_at : (j : ℕ) → j < i → (get_or b.iovs j null_iovec).iov_base ≡ some j
  pub len_at : (j : ℕ) → j < i → (get_or b.iovs j null_iovec).iov_len ≡ bufsize
  pub room_at : (j : ℕ) → j < i → length (get_or b.buffers j []) ≡ bufsize

-- A write at `i` to a vector whose first `i` entries are as they should be.
extended {ℓ} :
    {A : Type ℓ} (P : ℕ → A → Type 0) (xs : List A) (i : ℕ) (v d : A)
    → i < length xs
    → P i v
    → ((j : ℕ) → j < i → P j (get_or xs j d))
    → (j : ℕ) → j < i + 1
    → P j (get_or (set xs i v) j d)
extended P xs i v d within here_ before j below = elim (Bool-cases (i == j)) [
  | inl same ↦
      let eq : i ≡ j = ground arith in
      subst (P j) (sym (get_or-set xs i j v d ∙ ground arith)) (subst (λ x. P x v) eq here_)
  | inr other ↦ subst (P j) (sym (get_or-set xs i j v d ∙ ground arith)) (before j (ground arith))
]

allocate_one-IsReady :
    (n bufsize i : ℕ) (b : Buffers)
    → i < n
    → IsReady n bufsize i b
    → IsReady n bufsize (i + 1) (allocate_one bufsize i b)
allocate_one-IsReady n bufsize i b within r = record {
  buffer_count = length-set b.buffers i (replicate bufsize 0) ∙ r.buffer_count;
  iovec_count = length-set b.iovs i _ ∙ r.iovec_count;
  msg_count = length-set b.msgs i (some i) ∙ r.msg_count;
  msg_at =
      extended (λ j m. m ≡ some j) b.msgs i (some i) none (omega (arith, r.msg_count)) refl
        r.msg_at;
  base_at =
      extended (λ j v. v.iov_base ≡ some j) b.iovs i
        (record { iov_base = some i; iov_len = bufsize }) null_iovec (omega (arith, r.iovec_count))
        refl r.base_at;
  len_at =
      extended (λ j v. v.iov_len ≡ bufsize) b.iovs i
        (record { iov_base = some i; iov_len = bufsize }) null_iovec (omega (arith, r.iovec_count))
        refl r.len_at;
  room_at =
      extended (λ j x. length x ≡ bufsize) b.buffers i (replicate bufsize 0) []
        (omega (arith, r.buffer_count)) (length-replicate bufsize 0) r.room_at;
}

allocate-IsReady :
    (rounds n bufsize i : ℕ) (b : Buffers)
    → i + rounds ≡ n
    → IsReady n bufsize i b
    → IsReady n bufsize n (allocate rounds bufsize i b)
unfolding allocate
allocate-IsReady zero n bufsize i b sum r =
    let same : i ≡ n = omega arith in subst (λ x. IsReady n bufsize x b) same r
allocate-IsReady (suc rounds) n bufsize i b sum r =
    allocate-IsReady rounds n bufsize (i + 1) (allocate_one bufsize i b) (omega arith)
      (allocate_one-IsReady n bufsize i b (omega arith) r)

-- The constructor's loop gives every message an `iovec` for a buffer of its own, of `bufsize` bytes.
pub new_buffers-IsReady :
    (max_iovecs bufsize : ℕ)
    → IsReady max_iovecs bufsize max_iovecs (allocate max_iovecs bufsize 0 (new_buffers max_iovecs))
new_buffers-IsReady n bufsize =
    allocate-IsReady n n bufsize 0 (new_buffers n) (omega arith) (record {
      buffer_count = length-replicate n [];
      iovec_count = length-replicate n null_iovec;
      msg_count = length-replicate n none;
      msg_at = λ j h. absurd (omega arith);
      base_at = λ j h. absurd (omega arith);
      len_at = λ j h. absurd (omega arith);
      room_at = λ j h. absurd (omega arith);
    })

-- the datagrams that fit into a buffer
abbrev pub fitting : ℕ → List (List ℕ) → List (List ℕ)
fitting bufsize [] = []
fitting bufsize (d ∷ ds) =
    if ltb bufsize (length d) then fitting bufsize ds else d ∷ fitting bufsize ds

pub fitting-append :
    (bufsize : ℕ) (ds es : List (List ℕ))
    → fitting bufsize (ds ++ es) ≡ fitting bufsize ds ++ fitting bufsize es
fitting-append bufsize [] es = refl
fitting-append bufsize (d ∷ ds) es = elim (Bool-cases (ltb bufsize (length d))) [
  | inl long ↦ rw long (fitting-append bufsize ds es)
  | inr short ↦ rw short (ap (λ x. d ∷ x) (fitting-append bufsize ds es))
]

iovec_of-ready :
    (n bufsize : ℕ) (b : Buffers) (i : ℕ)
    → IsReady n bufsize n b
    → i < n
    → iovec_of b i ≡ record { iov_base = some i; iov_len = bufsize }
iovec_of-ready n bufsize b i r within =
    ap (iovec_at b) (r.msg_at i within)
    ∙ (λ p. record { iov_base = r.base_at i within p; iov_len = r.len_at i within p })

write_buffer-IsReady :
    (n bufsize : ℕ) (b : Buffers) (i : ℕ) (bytes : List ℕ)
    → IsReady n bufsize n b
    → length bytes ≡ bufsize
    → IsReady n bufsize n (write_buffer b (some i) bytes)
write_buffer-IsReady n bufsize b i bytes r size = record {
  buffer_count = length-set b.buffers i bytes ∙ r.buffer_count;
  iovec_count = r.iovec_count;
  msg_count = r.msg_count;
  msg_at = r.msg_at;
  base_at = r.base_at;
  len_at = r.len_at;
  room_at = λ j h.
      ap length (get_or-set b.buffers i j bytes [])
      ∙ if_cases (λ x. length x ≡ bufsize) (i == j && ltb i (length b.buffers)) _ _ (λ _. size)
          (λ _. r.room_at j h);
}

module _ (k : Recvmmsg) where
  -- One datagram: a message with its bytes, that is kept if the datagram fits.
  received_message :
      (bufsize : ℕ) (d buffer : List ℕ)
      → length buffer ≡ bufsize
      → bufsize < 2 ^ 32
      → let m = k.receive_into d buffer bufsize in
        IsMessage m
        × (m.msg_len ≤ bufsize)
        × (is_discarded m.msg_flags ≡ ltb bufsize (length d))
        × (length d ≤ bufsize → payload m ≡ d)
  received_message bufsize d buffer size small =
      let m = k.receive_into d buffer bufsize in
      let room : bufsize ≤ length buffer = omega arith in
      let len = k.len d buffer bufsize room in
      (
        record { short = omega arith; backed = omega (arith, k.same_length d buffer bufsize room) },
        omega arith,
        rw (k.in_band d buffer bufsize room, k.no_error d buffer bufsize room)
            (k.trunc d buffer bufsize room),
        (λ fits.
            ap (λ x. take x m.iov_base) len
            ∙ k.bytes d buffer bufsize room
            ∙ take-all bufsize d (omega arith)),
      )

  -- What a call of `recvmmsg` brings, with as many datagrams as there are messages at most: one
  -- message for each, and of those that are kept exactly the datagrams that fit.
  pub receive_clump_lem :
      (n bufsize i : ℕ) (ds : List (List ℕ)) (b : Buffers)
      → bufsize < 2 ^ 32
      → i + length ds ≤ n
      → IsReady n bufsize n b
      → let r = receive_clump k i ds b in
        All IsMessage r.0
        × All (λ m. m.msg_len ≤ bufsize) r.0
        × (delivered r.0 ≡ fitting bufsize ds)
        × IsReady n bufsize n r.1
  unfolding receive_clump
  receive_clump_lem n bufsize i [] b small within r = (tt, tt, refl, r)
  receive_clump_lem n bufsize i (d ∷ ds) b small within r =
      let at_ = iovec_of-ready n bufsize b i r (omega arith) in
      let buffer = get_or b.buffers i [] in
      let size = r.room_at i (omega arith) in
      let (message, short, kept, whole) = received_message bufsize d buffer size small in
      let m = k.receive_into d buffer bufsize in
      let b' = write_buffer b (some i) m.iov_base in
      let (messages, lens, bytes, ready) =
        receive_clump_lem n bufsize (i + 1) ds b' small (omega arith) (
          write_buffer-IsReady n bufsize b i m.iov_base r
            (k.same_length d buffer bufsize (omega arith) ∙ size)) in
      rw at_ (
        (message, messages),
        (short, lens),
        elim (Bool-cases (ltb bufsize (length d))) [
          | inl long ↦ rw (kept, long) bytes
          | inr fits ↦ rw (kept, fits) (ap₂ ◌∷◌ (whole (ground arith)) bytes)
        ],
        ready,
      )
