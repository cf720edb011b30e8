-- ===== src/StreamSort/Put/Samples.antt =====
-- A sorter of two frames, at the times 100 and 200, after one at 50 was delivered.
use mgw.Prelude.{ℕ, ◌≡◌, refl, some, [], ◌∷◌, write_at, arith}
use mgw.Prelude.Int.{ℤ, pos}
use mgw.StreamSort.{Node, Frame, Sorter, remove_frameaddr, move_frameaddr, memcpy_to_sort_buff}
use mgw.StreamSort.Sorted.{Sorted}
use mgw.StreamSort.Check.{check_streambuff, check_earliest, note_freesize}
use mgw.StreamSort.Put.{
  Outcome, drop_head, pop_frame_stream_sort, put_due, put_stored, put_end, put_checked,
  put_frame_stream_sort,
}

abbrev pub node_100 : Node
node_100 = record { position = 0; len = 2; timestamp = 100; frametype = 0; priority = 0 }

abbrev pub node_200 : Node
node_200 = record { position = 2; len = 2; timestamp = 200; frametype = 1; priority = 0 }

abbrev pub frame_at : ℕ → Frame
frame_at t = record { frame = 7 ∷ 8 ∷ []; timestamp = t; frametype = 1; priority = 0 }

abbrev pub two_nodes : Sorter
two_nodes = record {
  phead = node_100 ∷ node_200 ∷ [];
  frameaddr = 0 ∷ 2 ∷ [];
  datasize = 1048576;
  pdata = 1 ∷ 2 ∷ 3 ∷ 4 ∷ 0 ∷ 0 ∷ 0 ∷ 0 ∷ [];
  position = 4;
  put_frame_count = 3;
  valid_len = 4;
  sort_time = 120;
  sort_time_bak = 100;
  max_sort_time = 1000000;
  analy_time = 0;
  maxtimestamp = 200;
  mintimestamp = 100;
  premintimestamp = 50;
  pop_frame_count = 1;
  late_frame_count = 0;
  early_frame_count = 0;
  early_frame_drop = 0;
  late_frame_drop = 0;
  freesize = 1048576;
  analytime = 10;
}

pub two_nodes-Sorted : Sorted two_nodes
two_nodes-Sorted = record {
  order = (omega arith, (omega arith, tt));
  ends = (refl, refl);
  count = refl;
  large = omega arith;
  size_word = omega arith;
  position_word = omega arith;
  put_word = omega arith;
  pop_word = omega arith;
}

-- A frame at 300, which makes the one at 100 due.
abbrev pub third : Frame
third = record { frame = 7 ∷ 8 ∷ []; timestamp = 300; frametype = 2; priority = 1 }

abbrev pub after_third : Outcome
after_third = record {
  code = pos 0;
  delivered = record { frame = 1 ∷ 2 ∷ []; timestamp = 100; frametype = 0; priority = 0 } ∷ [];
  buff = record two_nodes {
    phead =
        node_200
        ∷ record { position = 4; len = 2; timestamp = 300; frametype = 2; priority = 1 }
        ∷ [];
    frameaddr = 2 ∷ 4 ∷ [];
    pdata = 1 ∷ 2 ∷ 3 ∷ 4 ∷ 7 ∷ 8 ∷ 0 ∷ 0 ∷ [];
    position = 6;
    put_frame_count = 4;
    maxtimestamp = 300;
    mintimestamp = 200;
    premintimestamp = 100;
    pop_frame_count = 2;
    freesize = 1048570;
  };
}

pub put_third :
    (datacallback : Frame → ℤ)
    → put_frame_stream_sort datacallback 12 two_nodes third ≡ some after_third
unfolding put_frame_stream_sort put_checked put_end put_stored put_due drop_head
    pop_frame_stream_sort remove_frameaddr move_frameaddr memcpy_to_sort_buff check_streambuff
    check_earliest note_freesize write_at
put_third datacallback = refl
