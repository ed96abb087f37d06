-- ===== src/Tests/Scripts.antt =====
-- A script of calls on a small queue.
use dg_cat.Common.{All, ◌≡◌, true, List, [], ◌∷◌, arith}
use dg_cat.Stats.{new_buffer_stats}
use dg_cat.Queue.{Error, new_queue}
use dg_cat.Queue.Window.{contents, IsValid}
use dg_cat.Queue.Fifo.{
  Call, set_eof, reserve, commit, wake, start, start_until, copy, free, nothing, handed, stays,
  raised, call_ring, call_fifo, add_all, calls,
}
use dg_cat.Queue.Fifo.Refines.{IsCall, calls-refine}
use dg_cat.Tests.{little_endian}
use dg_cat.Tests.Copies.{read_message, read-IsMessage}

-- Two messages of three bytes into a queue of twelve: the second waits for the first to go.
abbrev script : List Call
script =
    commit (read_message ∷ read_message ∷ [])
    ∷ copy 4
    ∷ free 13
    ∷ start 4 5
    ∷ free 7
    ∷ wake read_message []
    ∷ reserve 6
    ∷ set_eof
    ∷ commit (read_message ∷ [])
    ∷ start_until true 12 99
    ∷ []

script-IsCall : All IsCall script
script-IsCall = (
  (read-IsMessage, (read-IsMessage, tt)),
  (tt, (tt, (tt, (tt, ((read-IsMessage, tt), (tt, (tt, ((read-IsMessage, tt), (tt, tt))))))))),
)

calls-refine_example :
    let r = calls (call_ring little_endian) (new_queue 12 new_buffer_stats) script in
    IsValid r.0
    × (contents r.0 ≡ 0 ∷ 0 ∷ 0 ∷ 3 ∷ 55 ∷ 56 ∷ 57 ∷ [])
    × (r.1
        ≡ stays (read_message ∷ [])
          ∷ handed (0 ∷ 0 ∷ 0 ∷ 3 ∷ [])
          ∷ raised Error.freed_too_many
          ∷ handed (0 ∷ 0 ∷ 0 ∷ 3 ∷ 55 ∷ [])
          ∷ nothing
          ∷ nothing
          ∷ stays []
          ∷ nothing
          ∷ raised Error.after_eof
          ∷ handed (0 ∷ 0 ∷ 0 ∷ 3 ∷ 55 ∷ 56 ∷ 57 ∷ [])
          ∷ [])
unfolding call_fifo add_all
calls-refine_example =
    calls-refine little_endian 12 new_buffer_stats script (omega arith) (omega arith) script-IsCall
