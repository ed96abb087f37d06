-- ===== src/UdpDestination/Runs.antt =====
-- A run of the loop of udp_datagram_destination.hpp over a ring of whole frames, behind the end of
-- file.
use dg_cat.Common.{
  ℕ, ◌+◌, ◌≤◌, ◌<◌, ◌≡◌, ◌≢◌, [], ◌∷◌, refl, sym, ap, ◌∙◌, true, List, ◌++◌, arith, length, All,
  ltb, append-nil, length-append, subst,
}
use dg_cat.Wire.{Endian, prefix_len, be_bytes, be_value}
use dg_cat.Wire.RoundTrip.{be_value-be_bytes}
use dg_cat.Wire.Splits.{encode, All32}
use dg_cat.Queue.{BufferQueue, ready, get_data_locked, consumer_start_batch, start_wake}
use dg_cat.Queue.Window.{wrap, contents, IsValid, length-contents}
use dg_cat.Queue.Take.{get_data_locked_lem}
use dg_cat.UdpDestination.{
  SendResult, send_failed, returns, size_max, send_batch, send_round, at_eof, after_round,
  send_loop,
}
use dg_cat.UdpDestination.Frames.{send_round-frame}

-- No prefix of the frames of `ps` runs round the end of a ring of `cap` bytes, where the first stands
-- at `index`.
abbrev pub IsStraight : ℕ → ℕ → List (List ℕ) → Type 0
IsStraight cap index [] = Unit
IsStraight cap index (p ∷ ps) =
    (index + prefix_len ≤ cap) × IsStraight cap (wrap cap (index + (length p + prefix_len))) ps

-- `sendmsg` sends, or its error is ignored.
abbrev pub IsHeard : SendResult → Type 0
IsHeard r = r ≢ send_failed

-- Behind the end of file a round with fewer bytes than `n_min` returns, whatever the bytes are.
pub send_round-returns :
    (e : Endian) (q : BufferQueue) (n_min : ℕ) (result : SendResult)
    → IsValid q
    → q.is_eof ≡ true
    → q.n < n_min
    → n_min ≤ q.max_n
    → send_round e q n_min result ≡ returns
unfolding send_round send_batch
send_round-returns e q n_min result v eof few within =
    let starts : consumer_start_batch q n_min size_max ≡ ready (get_data_locked q size_max) =
      unfold consumer_start_batch start_wake in ground arith in
    let g = get_data_locked_lem q size_max v in
    let cut : ltb (get_data_locked q size_max).n n_min ≡ true = ground (arith, g.2) in
    rw (starts, cut) refl

module _ (e : Endian) where
  -- A queue that is closed and holds the frames of datagrams, none of whose prefixes runs round the
  -- end of the ring: the loop sends exactly these datagrams, in order, empties the queue and
  -- returns. There is a result of `sendmsg` for every round, none a failure, and each datagram has a
  -- length of 32 bits.
  pub send_loop-encode :
      (ps : List (List ℕ)) (results : List SendResult) (q : BufferQueue)
      → IsValid q
      → q.is_eof ≡ true
      → prefix_len ≤ q.max_n
      → contents q ≡ encode ps
      → All32 ps
      → IsStraight q.max_n q.consumer_index ps
      → All IsHeard results
      → length ps < length results
      → let s = send_loop e results q prefix_len in
        (s.datagrams ≡ ps) × (s.stop ≡ at_eof) × (contents s.queue ≡ [])
  unfolding send_loop after_round
  send_loop-encode ps [] q v eof room bytes small straight heard more = absurd (omega arith)
  send_loop-encode [] (r ∷ results) q v eof room bytes small straight heard more =
      let none_ : q.n ≡ 0 = omega (arith, length-contents q, ap length bytes) in
      rw (send_round-returns e q prefix_len r v eof (omega arith) room) (refl, refl, bytes)
  send_loop-encode (p ∷ ps) (r ∷ results) q v eof room bytes small straight heard more =
      let value : be_value (be_bytes (length p)) ≡ length p =
        ap be_value (sym (append-nil (be_bytes (length p))))
        ∙ be_value-be_bytes (length p) [] small.0 in
      let (q', batch, ran, valid, left, eof', cap, index) =
        send_round-frame e q (be_bytes (length p)) (p ++ encode ps) v bytes refl straight.0 p
          (encode ps) prefix_len r refl value
          (omega (
            arith,
            length-contents q,
            ap length bytes,
            length-append (be_bytes (length p)) (p ++ encode ps),
          ))
          heard.0 in
      let (all, stop, empty) =
        send_loop-encode ps results q' valid (eof' ∙ eof) (omega arith) left small.1
          (subst (λ k. IsStraight q'.max_n k ps) (sym index)
            (subst
              (λ c. IsStraight c (wrap q.max_n (q.consumer_index + (length p + prefix_len))) ps)
              (sym cap) straight.1))
          heard.1 (omega arith) in
      rw ran (ap (λ ds. p ∷ ds) all, stop, empty)
