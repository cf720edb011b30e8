-- ===== src/StreamSort/Tests.antt =====
-- Runs of the sorter, and its theorems at the sample sorter.
use mgw.Prelude.{◌+◌, ◌^◌, ◌<◌, ◌<◌, ◌≡◌, refl, some, [], ◌∷◌, arith}
use mgw.Prelude.Int.{pos, negsuc}
use mgw.StreamSort.{Sorter, insert_sort_middle, remove_frameaddr, move_frameaddr}
use mgw.StreamSort.Order.{times}
use mgw.StreamSort.Check.{adjust_sort_time, analyse, check_too_big}
use mgw.StreamSort.Check.Room.{check_too_big-analyse}
use mgw.StreamSort.Check.Analysis.{adjust_sort_time_underflows}
use mgw.StreamSort.Put.{returns, put_middle, put_frame_stream_sort}
use mgw.StreamSort.Put.Kept.{Delivers}
use mgw.StreamSort.Put.Whole.{put_frame_stream_sort-Delivers}
use mgw.StreamSort.Put.Samples.{node_100, node_200, frame_at, two_nodes, two_nodes-Sorted}
use mgw.StreamSort.Put.Forgets.{moved, put_middle_forgets}

middle :
    (insert_sort_middle 0 (node_100 ∷ node_200 ∷ []) (record node_100 { timestamp = 150 })).0 ≡ 100
unfolding insert_sort_middle
middle = refl

ring : move_frameaddr 9 2 (0 ∷ 2 ∷ 4 ∷ []) ≡ some (0 ∷ 4 ∷ 9 ∷ [])
unfolding move_frameaddr remove_frameaddr
ring = refl

put_frame_stream_sort-Delivers_example :
    Delivers 50 (put_frame_stream_sort (λ f. pos 0) 12 two_nodes (frame_at 300))
put_frame_stream_sort-Delivers_example =
    put_frame_stream_sort-Delivers (λ f. pos 0) 12 two_nodes (frame_at 300) two_nodes-Sorted

check_too_big-analyse_example : check_too_big 1000 (analyse 1000 two_nodes) ≡ analyse 1000 two_nodes
check_too_big-analyse_example = check_too_big-analyse 1000 two_nodes

adjust_sort_time_underflows_example :
    (adjust_sort_time (record two_nodes { sort_time = 260000; analy_time = 10000 }) + 300000
      ≡ 260000 + 2 ^ 32)
    × (4294000000 < adjust_sort_time (record two_nodes { sort_time = 260000; analy_time = 10000 }))
adjust_sort_time_underflows_example =
    adjust_sort_time_underflows (record two_nodes { sort_time = 260000; analy_time = 10000 })
      (omega arith) (omega arith) (omega arith) (omega arith)

put_middle_forgets_example :
    ((s1 : Sorter) × (put_middle 12 two_nodes (frame_at 40) ≡ some (returns (negsuc 0) s1)))
    × ((s2 : Sorter) × (put_middle 12 (moved 12 two_nodes 1572864) (frame_at 40)
          ≡ some (returns (pos 0) s2))
        × (times s2.phead ≡ 40 ∷ 100 ∷ 200 ∷ []))
put_middle_forgets_example =
    put_middle_forgets 12 two_nodes (frame_at 40) 1572864 (omega arith) (omega arith) (omega arith)
      (omega arith) (omega arith)
