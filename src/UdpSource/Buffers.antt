-- ===== src/UdpSource/Buffers.antt =====
-- The buffers of `UdpDatagramSource` in include/dg_cat/udp_datagram_source.hpp: the loop of the
-- constructor that makes them, and `recvmmsg`, a parameter, which writes into them.
use dg_cat.Common.{
  ℕ, zero, suc, ◌+◌, ◌≤◌, ◌≡◌, false, List, [], ◌∷◌, Option, none, some, length, take, min, ltb,
  get_or, set, replicate,
}
use dg_cat.Timespec.{Timespec}
use dg_cat.Queue.Commit.{Mmsghdr}
use dg_cat.UdpSource.{Receive, received, interrupted}

-- `struct iovec`: which buffer, and how long it is.
pub record Iovec : Type 0 where
  pub iov_base : Option ℕ
  pub iov_len : ℕ

-- `_buffers`, `_iovs` and `_msgs`, each message with the index of its `iovec`.
pub record Buffers : Type 0 where
  pub buffers : List (List ℕ)
  pub iovs : List Iovec
  pub msgs : List (Option ℕ)

abbrev pub null_iovec : Iovec
null_iovec = record { iov_base = none; iov_len = 0 }

-- the three vectors as the constructor begins
abbrev pub new_buffers : ℕ → Buffers
new_buffers max_iovecs = record {
  buffers = replicate max_iovecs [];
  iovs = replicate max_iovecs null_iovec;
  msgs = replicate max_iovecs none;
}

-- the body of the loop over `i`
abbrev pub allocate_one : ℕ → ℕ → Buffers → Buffers
allocate_one bufsize i b = record {
  buffers = set b.buffers i (replicate bufsize 0);
  iovs = set b.iovs i (record { iov_base = some i; iov_len = bufsize });
  msgs = set b.msgs i (some i);
}

-- The loop, with `rounds` rounds to go.
unfoldable pub allocate : (rounds bufsize i : ℕ) → Buffers → Buffers
allocate zero bufsize i b = b
allocate (suc rounds) bufsize i b = allocate rounds bufsize (i + 1) (allocate_one bufsize i b)

-- What `recvmmsg` makes of a datagram, the buffer of a message and the length that the `iovec` has for
-- it, where the buffer is no shorter: as many bytes as that length has room for, marked as truncated
-- if those are not all; the buffer keeps its own length.
pub record Recvmmsg : Type 0 where
  pub receive_into : List ℕ → List ℕ → ℕ → Mmsghdr
  pub len :
      (d buffer : List ℕ) (iov_len : ℕ)
      → iov_len ≤ length buffer
      → (receive_into d buffer iov_len).msg_len ≡ min (length d) iov_len
  pub same_length :
      (d buffer : List ℕ) (iov_len : ℕ)
      → iov_len ≤ length buffer
      → length (receive_into d buffer iov_len).iov_base ≡ length buffer
  pub bytes :
      (d buffer : List ℕ) (iov_len : ℕ)
      → iov_len ≤ length buffer
      → take (min (length d) iov_len) (receive_into d buffer iov_len).iov_base ≡ take iov_len d
  pub trunc :
      (d buffer : List ℕ) (iov_len : ℕ)
      → iov_len ≤ length buffer
      → (receive_into d buffer iov_len).msg_flags.trunc ≡ ltb iov_len (length d)
  pub in_band :
      (d buffer : List ℕ) (iov_len : ℕ)
      → iov_len ≤ length buffer
      → (receive_into d buffer iov_len).msg_flags.oob ≡ false
  pub no_error :
      (d buffer : List ℕ) (iov_len : ℕ)
      → iov_len ≤ length buffer
      → (receive_into d buffer iov_len).msg_flags.errqueue ≡ false

-- What comes before a time limit: a clump of datagrams, with the clocks behind the call, or a signal.
pub data Arrival : Type 0 where
  came : (ds : List (List ℕ)) (now : Timespec) (clock : ℕ) → Arrival
  signalled : Arrival

-- The `iovec` of message `i`.
abbrev pub iovec_at : Buffers → Option ℕ → Iovec
iovec_at b none = null_iovec
iovec_at b (some j) = get_or b.iovs j null_iovec

abbrev pub iovec_of : Buffers → ℕ → Iovec
iovec_of b i = iovec_at b (get_or b.msgs i none)

abbrev pub read_buffer : Buffers → Option ℕ → List ℕ
read_buffer b none = []
read_buffer b (some j) = get_or b.buffers j []

abbrev pub write_buffer : Buffers → Option ℕ → List ℕ → Buffers
write_buffer b none bytes = b
write_buffer b (some j) bytes = record b { buffers = set b.buffers j bytes }

module _ (k : Recvmmsg) where
  -- A call of `recvmmsg` that gets these datagrams, from message `i` on.
  unfoldable pub receive_clump : ℕ → List (List ℕ) → Buffers → List Mmsghdr × Buffers
  receive_clump i [] b = ([], b)
  receive_clump i (d ∷ ds) b =
      let iov = iovec_of b i in
      let m = k.receive_into d (read_buffer b iov.iov_base) iov.iov_len in
      let rest = receive_clump (i + 1) ds (write_buffer b iov.iov_base m.iov_base) in
      (m ∷ rest.0, rest.1)

  -- What the calls return, one after the other.
  unfoldable pub events : List Arrival → Buffers → List Receive
  events [] b = []
  events (came ds now clock ∷ arrivals) b =
      let r = receive_clump 0 ds b in received r.0 now clock ∷ events arrivals r.1
  events (signalled ∷ arrivals) b = interrupted ∷ events arrivals b
