-- ===== src/StreamSort/Put/Whole.antt =====
-- The whole of `PutFrameStreamSort`.
use mgw.Prelude.{ℕ, ◌/◌, ◌<◌, inl, inr, refl, List, [], ◌∷◌, length, ltb, leb, Bool-cases, arith}
use mgw.Prelude.Int.{ℤ}
use mgw.StreamSort.{Node, Frame, Sorter}
use mgw.StreamSort.Put.{put_checked, put_frame_stream_sort}
use mgw.StreamSort.Put.Kept.{Delivers, with_nodes, put_first-Delivers}
use mgw.StreamSort.Put.Front.{put_middle-Delivers}
use mgw.StreamSort.Put.Last.{put_end-Delivers}
use mgw.StreamSort.Order.{Ordered, times}
use mgw.StreamSort.Sorted.{Sorted}
use mgw.StreamSort.Check.Room.{check_streambuff-Goes}

put_checked-Delivers :
    (datacallback : Frame → ℤ) (low now : ℕ) (s : Sorter) (f : Frame) (ns : List Node)
    → Sorted (with_nodes s ns)
    → length f.frame < s.datasize / 2
    → Ordered low (times ns)
    → Delivers low (put_checked datacallback now (with_nodes s ns) f)
unfolding put_checked
put_checked-Delivers datacallback low now s f [] h l o = put_first-Delivers low s f h l
put_checked-Delivers datacallback low now s f (n ∷ ns) h l o =
    elim (Bool-cases (ltb f.timestamp s.maxtimestamp)) [
      | inl e ↦ rw e (put_middle-Delivers low now s f n ns h l (ground (arith, e)))
      | inr e ↦ rw e (put_end-Delivers datacallback low now s f n ns h l (ground (arith, e)) o)
    ]

-- Of a sorted buffer `PutFrameStreamSort` always returns, on every branch and whatever the callback answers, and leaves a sorted buffer. When it delivers frames, their times are in order and none is before the
-- last time delivered earlier, and the frames that then wait are no earlier than those. A ring of addresses that has lost its last one is taken to be
-- empty and to hold no address, where the code has a freed head.
pub put_frame_stream_sort-Delivers :
    (datacallback : Frame → ℤ) (now : ℕ) (s : Sorter) (f : Frame)
    → Sorted s
    → Delivers s.premintimestamp (put_frame_stream_sort datacallback now s f)
unfolding put_frame_stream_sort
put_frame_stream_sort-Delivers datacallback now s f h =
    elim (Bool-cases (leb (s.datasize / 2) (length f.frame))) [
      | inl e ↦ rw e (record { outcome = _; some_outcome = refl; sorted = h; order = inl refl })
      | inr e ↦
          let g = check_streambuff-Goes now s (length f.frame) h in
          rw (e, g.some_buff, put_frame_stream_sort)
            (put_checked-Delivers datacallback s.premintimestamp now g.buff f g.buff.phead g.sorted
              (ground (arith, e, g.grown)) (g.kept s.premintimestamp h.order))
    ]
