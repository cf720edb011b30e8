-- ===== src/StreamBuff/Reader/Tests.antt =====
-- Runs of GetOneFrameFromBuff, and its theorems at the sample block.
use mgw.Prelude.{◌≤◌, ◌≡◌, refl, inl, true, [], ◌∷◌, arith}
use mgw.StreamBuff.Samples.{
  frame0, frame1, frame2, three, turned, reader_at, three-IsReady, three-IsInside, held0, held1,
  held2,
}
use mgw.StreamBuff.Reader.{
  got, consume_fast, again, newest_loop, jump_to_oldest, jump_to_newest, take_iframe, get_one_frame,
  check_buff_duration,
}
use mgw.StreamBuff.Reader.Get.{read_all, read_all-Window}
use mgw.StreamBuff.Reader.Jump.{
  IsFull, Oldest, jump_to_oldest-Oldest, Newest, jump_to_newest-Newest,
}
use mgw.StreamBuff.Reader.Behind.{get_one_frame_behind}
use mgw.StreamBuff.Reader.Fits.{IsWhole, get_one_frame-IsWhole}

read_fast : get_one_frame three (reader_at 3) 100 0 ≡ (consume_fast, reader_at 3)
unfolding get_one_frame
read_fast = refl

-- A new reader waits for a key frame: frame 0 is one, but the walk does not look at it.
new_reader_waits :
    (get_one_frame three
      (record { rd_frame_count = 0; re_iframe = true; read_by_time = true })
      100
      0).0
    ≡ again
unfolding get_one_frame take_iframe jump_to_newest newest_loop
new_reader_waits = refl

duration : check_buff_duration three (reader_at 0) ≡ 20
unfolding check_buff_duration
duration = refl

read_all-Window_example :
    read_all 3 three (reader_at 0) 100 0 ≡ (got frame0 ∷ got frame1 ∷ got frame2 ∷ [], reader_at 3)
read_all-Window_example =
    read_all-Window three (reader_at 0) (frame0 ∷ frame1 ∷ frame2 ∷ []) 0 100 0 three-IsReady
      (held0, (held1, (held2, (refl, refl)))) refl (omega arith) (omega arith)
      (omega arith, inl refl, (omega arith, inl refl, (omega arith, inl refl, tt)))

turned-IsFull : IsFull turned
turned-IsFull = omega arith

-- It finds frame 4.
jump_to_oldest-Oldest_example : Oldest turned 0 1 (jump_to_oldest turned 0)
jump_to_oldest-Oldest_example = jump_to_oldest-Oldest turned 0 1 turned-IsFull (omega arith)

jump_to_newest-Newest_example : Newest turned 0 5 (jump_to_newest turned 0)
jump_to_newest-Newest_example = jump_to_newest-Newest turned 0 (omega arith) (omega arith)

get_one_frame_behind_example : (get_one_frame turned (reader_at 0) 100 0).1.rd_frame_count ≤ 5
get_one_frame_behind_example =
    get_one_frame_behind turned (reader_at 0) 100 0 (omega arith) (omega arith)

get_one_frame-IsWhole_example : IsWhole three 100 (get_one_frame three (reader_at 1) 100 0)
get_one_frame-IsWhole_example = get_one_frame-IsWhole three (reader_at 1) 100 0 three-IsInside
