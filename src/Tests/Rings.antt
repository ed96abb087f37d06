-- ===== src/Tests/Rings.antt =====
-- The theorems on batches, on the ring without the commits, and on times, each at one input.
use dg_cat.Common.{ℕ, ◌≡◌, refl, false, List, [], ◌∷◌, ◌++◌, arith}
use dg_cat.Common.Int.{pos}
use dg_cat.Timespec.{Timespec, timespec_add, timespec_subtract}
use dg_cat.Timespec.Laws.{IsNormal, add-subtract}
use dg_cat.Stats.{new_buffer_stats}
use dg_cat.Queue.{BufferQueue, ok, put_data_locked_no_notify, consumer_commit_batch}
use dg_cat.Queue.Window.{contents, IsValid}
use dg_cat.Queue.Put.{put_data_locked_no_notify_lem}
use dg_cat.Queue.Take.{consumer_commit_batch_lem}
use dg_cat.Tests.{ring, ring-IsValid}

abbrev bytes : List ℕ
bytes = 1 ∷ 2 ∷ 3 ∷ 4 ∷ 5 ∷ []

put_data_locked_no_notify_example :
    let q' = put_data_locked_no_notify ring bytes 4 in
    IsValid q'
    × (contents q' ≡ contents ring ++ (1 ∷ 2 ∷ 3 ∷ 4 ∷ []))
    × (q'.n ≡ 10)
    × (q'.max_n ≡ 16)
    × (q'.consumer_index ≡ 12)
    × (q'.is_eof ≡ false)
    × (q'.stats ≡ new_buffer_stats)
    × (q'.shared_stats ≡ new_buffer_stats)
    × (q'.notified ≡ 0)
put_data_locked_no_notify_example =
    put_data_locked_no_notify_lem ring bytes 4 ring-IsValid (omega arith) (omega arith)

consumer_commit_batch_example :
    (q' : BufferQueue) × (consumer_commit_batch ring 5 ≡ ok q')
    × IsValid q'
    × (contents q' ≡ 26 ∷ [])
    × (q'.n ≡ 1)
    × (q'.max_n ≡ 16)
    × (q'.is_eof ≡ false)
    × (q'.notified ≡ 1)
consumer_commit_batch_example =
    consumer_commit_batch_lem ring 5 ring-IsValid (omega arith) (omega arith)

abbrev later : Timespec
later = record { tv_sec = pos 7; tv_nsec = pos 100 }

abbrev earlier : Timespec
earlier = record { tv_sec = pos 3; tv_nsec = pos 999_999_999 }

add-subtract_example :
    (timespec_add (timespec_subtract later earlier) earlier ≡ later)
    × IsNormal (timespec_subtract later earlier)
add-subtract_example = add-subtract later earlier (record { nonneg = refl; below = omega arith })
