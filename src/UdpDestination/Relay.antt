-- ===== src/UdpDestination/Relay.antt =====
-- Messages that a source commits to a new queue, and the datagrams that udp_datagram_destination.hpp
-- sends.
use dg_cat.Common.{
  ℕ, ◌+◌, ◌^◌, ◌≤◌, ◌<◌, ◌≡◌, refl, ap, ◌∙◌, subst, true, List, [], ◌∷◌, ◌++◌, arith, length, All,
  map, length-append,
}
use dg_cat.Wire.{Endian, prefix_len, be_bytes}
use dg_cat.Wire.Splits.{encode, All32}
use dg_cat.Stats.{DgBufferStats}
use dg_cat.Queue.{BufferQueue, producer_set_eof, new_queue}
use dg_cat.Queue.Window.{wrap, contents, IsValid, new_queue-IsValid}
use dg_cat.Queue.Commit.{Mmsghdr, done, producer_commit_batch}
use dg_cat.Queue.Commit.Append.{IsMessage, payload, stream, Appends, producer_commit_batch_lem}
use dg_cat.Queue.Commit.Progress.{producer_commit_batch-done, length-payload}
use dg_cat.FileSource.Kept.{IsKept, stream-encode}
use dg_cat.UdpDestination.{SendResult, at_eof, send_loop}
use dg_cat.UdpDestination.Runs.{IsStraight, IsHeard, send_loop-encode}

-- Frames that end before the end of the ring have no prefix that runs round it.
IsStraight-encode :
    (cap : ℕ) (ps : List (List ℕ)) (index : ℕ)
    → index + length (encode ps) ≤ cap
    → IsStraight cap index ps
IsStraight-encode cap [] index h = tt
IsStraight-encode cap (p ∷ []) index h =
    (omega (arith, length-append (be_bytes (length p)) (p ++ [])), tt)
IsStraight-encode cap (p ∷ p' ∷ ps) index h =
    let first = length-append (be_bytes (length p)) (p ++ encode (p' ∷ ps)) in
    let rest = length-append p (encode (p' ∷ ps)) in
    let second = length-append (be_bytes (length p')) (p' ++ encode ps) in
    let inside : wrap cap (index + (length p + prefix_len)) ≡ index + (length p + prefix_len) =
      ground (arith, first, rest, second) in
    (
      omega (arith, first),
      IsStraight-encode cap (p' ∷ ps) (wrap cap (index + (length p + prefix_len)))
          (omega (arith, inside, first, rest)),
    )

All32-payload : (ms : List Mmsghdr) → All IsMessage ms → All32 (map payload ms)
All32-payload [] h = tt
All32-payload (m ∷ ms) h = (omega (arith, length-payload m h.0, h.0), All32-payload ms h.1)

length-map-payload : (ms : List Mmsghdr) → length (map payload ms) ≡ length ms
length-map-payload [] = refl
length-map-payload (m ∷ ms) = omega (arith, length-map-payload ms)

producer_set_eof-kept :
    (q : BufferQueue)
    → IsValid q
    → IsValid (producer_set_eof q)
      × ((producer_set_eof q).is_eof ≡ true)
      × ((producer_set_eof q).max_n ≡ q.max_n)
      × ((producer_set_eof q).consumer_index ≡ q.consumer_index)
      × (contents (producer_set_eof q) ≡ contents q)
unfolding producer_set_eof
producer_set_eof-kept q v = (
  record {
    positive = v.positive;
    small = v.small;
    storage = v.storage;
    consumer_in = v.consumer_in;
    fill = v.fill;
    producer_at = v.producer_at;
  },
  refl,
  refl,
  refl,
  refl,
)

-- Messages whose frames fit together into a new queue are committed in one call that does not wait,
-- and behind the end of file the UDP destination sends exactly their datagrams, in order, and
-- returns. No message is marked to be discarded, and there is a result of `sendmsg` for every round,
-- none a failure.
pub producer_commit_batch-send_loop :
    (e : Endian) (max_backlog : ℕ) (shared : DgBufferStats) (ms : List Mmsghdr)
    (results : List SendResult)
    → prefix_len ≤ max_backlog
    → max_backlog < 2 ^ 63
    → All IsMessage ms
    → All IsKept ms
    → length (stream ms) ≤ max_backlog
    → All IsHeard results
    → length ms < length results
    → (q : BufferQueue) × (producer_commit_batch e (new_queue max_backlog shared) ms ≡ done q)
      × ((send_loop e results (producer_set_eof q) prefix_len).datagrams ≡ map payload ms)
      × ((send_loop e results (producer_set_eof q) prefix_len).stop ≡ at_eof)
unfolding new_queue
producer_commit_batch-send_loop e cap shared ms results room small messages kept fit heard more =
    let fresh = new_queue cap shared in
    let (v, empty) = new_queue-IsValid cap shared (omega arith) small in
    let (q, ran, v', bytes) = producer_commit_batch-done e fresh ms v messages refl (omega arith) in
    let a : Appends fresh ms (done q) =
      subst (Appends fresh ms) ran (producer_commit_batch_lem e fresh ms v messages) in
    let (v'', eof, cap', index, same) = producer_set_eof-kept q v' in
    let frames = stream-encode ms messages kept in
    let cap_at : (producer_set_eof q).max_n ≡ cap = cap' ∙ a.capacity in
    let start : (producer_set_eof q).consumer_index ≡ 0 = index ∙ a.consumer in
    let (all, stop, left) =
      send_loop-encode e (map payload ms) results (producer_set_eof q) v'' eof
        (omega (arith, cap_at, room)) (same ∙ bytes ∙ ap (λ bs. bs ++ stream ms) empty ∙ frames)
        (All32-payload ms messages)
        (IsStraight-encode _ (map payload ms) _
          (omega (arith, cap_at, start, fit, ap length frames)))
        heard (omega (arith, length-map-payload ms, more)) in
    (q, ran, all, stop)
