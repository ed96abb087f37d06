-- ===== src/Queue/Fifo/Refines.antt =====
-- The ring of buffer_queue.hpp gives the answers of a bounded list of bytes.
use dg_cat.Common.{
  All, ℕ, zero, suc, ◌^◌, ◌≤◌, ◌<◌, ◌≡◌, refl, ap, ap₂, ◌∙◌, Bool, true, false, List, [], ◌∷◌,
  arith, length, leb, drop,
}
use native.Mathlib.Decide.{dec_le}
use dg_cat.Wire.{Endian}
use dg_cat.Stats.{DgBufferStats}
use dg_cat.Queue.{
  BufferQueue, Error, Waited, ready, waits, producer_set_eof, n_free, reserve_wake,
  reserve_wake_until, start_wake, start_wake_until, new_queue, producer_reserve_bytes,
  producer_reserve_bytes_until, consumer_start_batch, consumer_start_batch_until,
  consumer_copy_bytes, consumer_commit_batch, get_data_locked,
}
use dg_cat.Queue.Window.{contents, IsValid, length-contents, new_queue-IsValid, IsValid-eof}
use dg_cat.Queue.Take.{get_data_locked_lem, consumer_copy_bytes_lem, consumer_commit_batch_lem}
use dg_cat.Queue.Commit.Append.{IsMessage}
use dg_cat.Queue.Fifo.{
  Call, set_eof, free_bytes, reserve, reserve_until, commit, wake, start, start_until, copy, free,
  nothing, number, of_number, of_batch, of_copy, of_free, call_ring, call_fifo, calls,
}
use dg_cat.Queue.Fifo.Commits.{view, Agrees, view-eq, commit-Agrees, wake-Agrees}

-- The messages of a call have their bytes.
abbrev pub IsCall : Call → Type 0
IsCall set_eof = Unit
IsCall free_bytes = Unit
IsCall (reserve n) = Unit
IsCall (reserve_until expired n) = Unit
IsCall (commit ms) = All IsMessage ms
IsCall (wake m ms) = All IsMessage (m ∷ ms)
IsCall (start n_min n_max) = Unit
IsCall (start_until expired n_min n_max) = Unit
IsCall (copy k) = Unit
IsCall (free k) = Unit

module _ (q : BufferQueue) (v : IsValid q) where
  reserve-Agrees :
      (n : ℕ) → Agrees (q, of_number (producer_reserve_bytes q n)) (call_fifo (view q) (reserve n))
  unfolding producer_reserve_bytes reserve_wake call_fifo
  reserve-Agrees n = (v, refl, ground (arith, length-contents q))

  reserve_until-Agrees :
      (expired : Bool) (n : ℕ)
      → Agrees
          (q, of_number (producer_reserve_bytes_until expired q n))
          (call_fifo (view q) (reserve_until expired n))
  unfolding producer_reserve_bytes_until reserve_wake_until call_fifo
  reserve_until-Agrees expired n = (v, refl, ground (arith, length-contents q))

  start-Agrees :
      (n_min n_max : ℕ)
      → Agrees
          (q, of_batch q.cells (consumer_start_batch q n_min n_max))
          (call_fifo (view q) (start n_min n_max))
  unfolding consumer_start_batch start_wake call_fifo
  start-Agrees n_min n_max =
      let g = (get_data_locked_lem q n_max v).1 in (v, refl, ground (arith, length-contents q, g))

  start_until-Agrees :
      (expired : Bool) (n_min n_max : ℕ)
      → Agrees
          (q, of_batch q.cells (consumer_start_batch_until expired q n_min n_max))
          (call_fifo (view q) (start_until expired n_min n_max))
  unfolding consumer_start_batch_until start_wake_until call_fifo
  start_until-Agrees expired n_min n_max =
      let g = (get_data_locked_lem q n_max v).1 in (v, refl, ground (arith, length-contents q, g))

  copy-Agrees :
      (k : ℕ) → Agrees (q, of_copy (consumer_copy_bytes q k)) (call_fifo (view q) (copy k))
  unfolding call_fifo
  copy-Agrees k = elim (dec_le k q.n) [
    | yes held ↦
        let within : leb k (length (contents q)) ≡ true = ground (arith, length-contents q) in
        rw (consumer_copy_bytes_lem q k v held, within) (v, refl, refl)
    | no more ↦
        let within : leb k (length (contents q)) ≡ false = ground (arith, length-contents q) in
        let fails : consumer_copy_bytes q k ≡ dg_cat.Queue.err Error.copied_too_many =
          unfold consumer_copy_bytes in ground arith in
        rw (fails, within) (v, refl, refl)
  ]

  -- the bytes that are held can be freed
  frees-Agrees :
      (k : ℕ)
      → k ≤ q.n
      → Agrees
          (of_free q (consumer_commit_batch q k))
          (record (view q) { bytes = drop k (contents q) }, nothing)
  frees-Agrees zero held = unfold consumer_commit_batch in (v, refl, refl)
  frees-Agrees (suc k) held =
      let (q', ran, valid, bytes, count, cap, eof, told) =
        consumer_commit_batch_lem q (suc k) v held (omega arith) in
      rw ran (
        valid,
        view-eq q' (record (view q) { bytes = drop (suc k) (contents q) }) bytes eof cap,
        refl,
      )

  free-Agrees :
      (k : ℕ) → Agrees (of_free q (consumer_commit_batch q k)) (call_fifo (view q) (free k))
  unfolding call_fifo
  free-Agrees k = elim (dec_le k q.n) [
    | yes held ↦
        let within : leb k (length (contents q)) ≡ true = ground (arith, length-contents q) in
        rw within (frees-Agrees k held)
    | no more ↦
        let within : leb k (length (contents q)) ≡ false = ground (arith, length-contents q) in
        let fails : consumer_commit_batch q k ≡ dg_cat.Queue.err Error.freed_too_many =
          unfold consumer_commit_batch in ground arith in
        rw (fails, within) (v, refl, refl)
  ]

-- On a valid ring every call has the answer that the list has, on the list that the ring stands for.
call_ring-Agrees :
    (e : Endian) (q : BufferQueue) (c : Call)
    → IsValid q
    → IsCall c
    → Agrees (call_ring e q c) (call_fifo (view q) c)
unfolding call_fifo producer_set_eof n_free
call_ring-Agrees e q set_eof v w = (IsValid-eof v, refl, refl)
call_ring-Agrees e q free_bytes v w = (v, refl, ap number (ground (arith, length-contents q)))
call_ring-Agrees e q (reserve n) v w = reserve-Agrees q v n
call_ring-Agrees e q (reserve_until expired n) v w = reserve_until-Agrees q v expired n
call_ring-Agrees e q (commit ms) v w = commit-Agrees e q ms v w
call_ring-Agrees e q (wake m ms) v w = wake-Agrees e q m ms v w
call_ring-Agrees e q (start n_min n_max) v w = start-Agrees q v n_min n_max
call_ring-Agrees e q (start_until expired n_min n_max) v w =
    start_until-Agrees q v expired n_min n_max
call_ring-Agrees e q (copy k) v w = copy-Agrees q v k
call_ring-Agrees e q (free k) v w = free-Agrees q v k

calls-view :
    (e : Endian) (cs : List Call) (q : BufferQueue)
    → IsValid q
    → All IsCall cs
    → let r = calls (call_ring e) q cs in
      let f = calls call_fifo (view q) cs in IsValid r.0 × (view r.0 ≡ f.0) × (r.1 ≡ f.1)
calls-view e [] q v w = (v, refl, refl)
calls-view e (c ∷ cs) q v w =
    let (valid, same, answer) = call_ring-Agrees e q c v w.0 in
    let (valid', same', answers) = calls-view e cs (call_ring e q c).0 valid w.1 in
    (
      valid',
      same' ∙ ap (λ f. (calls call_fifo f cs).0) same,
      ap₂ (λ a as_. a ∷ as_) answer (answers ∙ ap (λ f. (calls call_fifo f cs).1) same),
    )

-- Any sequence of calls on a new queue, of every method but the `producer_commit_batch` with a time
-- limit, wakes of waiting calls among them, has the answers that the same calls have on an empty
-- bounded list of bytes: what is handed out, copied, refused or waited for, and every exception. The
-- ring is valid behind them and holds the bytes of the list.
-- The capacity is positive and below 2^63, and each message has its bytes and a length of 32 bits.
pub calls-refine :
    (e : Endian) (max_backlog : ℕ) (shared : DgBufferStats) (cs : List Call)
    → 0 < max_backlog
    → max_backlog < 2 ^ 63
    → All IsCall cs
    → let r = calls (call_ring e) (new_queue max_backlog shared) cs in
      let f = calls call_fifo (record { bytes = []; closed = false; capacity = max_backlog }) cs in
      IsValid r.0 × (contents r.0 ≡ f.0.bytes) × (r.1 ≡ f.1)
unfolding new_queue
calls-refine e max_backlog shared cs pos small w =
    let (v, empty) = new_queue-IsValid max_backlog shared pos small in
    let (valid, same, answers) = calls-view e cs (new_queue max_backlog shared) v w in
    (valid, ap (λ f. f.bytes) same, answers)
