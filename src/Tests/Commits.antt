-- ===== src/Tests/Commits.antt =====
-- The theorems on the two overloads of `producer_commit_batch`, each at one input.
use dg_cat.Common.{◌⊎◌, true, false, ◌+◌, ◌≡◌, refl, [], ◌∷◌, ◌++◌, arith, length}
use dg_cat.Queue.{BufferQueue}
use dg_cat.Queue.Window.{contents, IsValid}
use dg_cat.Queue.Commit.{Mmsghdr, done, producer_commit_batch, commit_wake}
use dg_cat.Queue.Commit.Append.{stream, Appends, unsent, producer_commit_batch_lem, commit_wake_lem}
use dg_cat.Queue.Commit.Progress.{producer_commit_batch-done}
use dg_cat.Queue.Commit.Counts.{Accounts, producer_commit_batch-Accounts}
use dg_cat.Queue.Commit.Until.{Stage, wakes, run_stage, times_out, producer_commit_batch_until_lem}
use dg_cat.Tests.{
  little_endian, message, clear, ring, ring-IsValid, small_message, bad_message, large_message,
  small-IsMessage, bad-IsMessage, large-IsMessage, three_messages, three-IsMessage,
}

producer_commit_batch_example :
    Appends ring three_messages (producer_commit_batch little_endian ring three_messages)
producer_commit_batch_example =
    producer_commit_batch_lem little_endian ring three_messages ring-IsValid three-IsMessage

commit_wake_example :
    Appends ring
      (small_message ∷ bad_message ∷ [])
      (commit_wake little_endian ring small_message (bad_message ∷ []))
commit_wake_example =
    commit_wake_lem little_endian ring small_message (bad_message ∷ []) ring-IsValid
      (small-IsMessage, (bad-IsMessage, tt)) refl

producer_commit_batch-done_example :
    (q' : BufferQueue) × (producer_commit_batch little_endian ring
        (bad_message ∷ large_message ∷ [])
      ≡ done q')
    × IsValid q'
    × (contents q' ≡ contents ring ++ stream (bad_message ∷ large_message ∷ []))
producer_commit_batch-done_example =
    producer_commit_batch-done little_endian ring (bad_message ∷ large_message ∷ []) ring-IsValid
      (bad-IsMessage, (large-IsMessage, tt)) refl (omega arith)

producer_commit_batch-Accounts_example :
    Accounts ring three_messages (producer_commit_batch little_endian ring three_messages)
producer_commit_batch-Accounts_example =
    producer_commit_batch-Accounts little_endian ring three_messages

-- Eight bytes, which do not fit beside the six that are there; a wake behind the time limit.
abbrev eight_message : Mmsghdr
eight_message = message clear (1 ∷ 2 ∷ 3 ∷ 4 ∷ 5 ∷ 6 ∷ 7 ∷ 8 ∷ [])

abbrev late_wake : Stage
late_wake = wakes true ring 2 eight_message []

producer_commit_batch_until_example :
    let (r, committed) = run_stage little_endian late_wake in
    ((times_out late_wake ≡ true) × (r ≡ done ring) × (committed ≡ 2))
    ⊎ ((times_out late_wake ≡ false)
        × Appends ring (eight_message ∷ []) r
        × (committed + length (unsent r) ≡ 2 + 1))
producer_commit_batch_until_example =
    producer_commit_batch_until_lem little_endian late_wake ring-IsValid
      (record { short = omega arith; backed = omega arith }, tt) refl (omega arith)
