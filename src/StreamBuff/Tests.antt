-- ===== src/StreamBuff/Tests.antt =====
-- Runs of PutOneFrameToBuff, and its theorems at concrete blocks.
use mgw.Prelude.{
  ℕ, zero, suc, ◌+◌, ◌-◌, ◌<◌, ◌≤◌, ◌≡◌, refl, false, List, [], ◌∷◌, Option, none, some, get_or,
  write_at, arith,
}
use mgw.Prelude.Int.{pos, negsuc}
use mgw.StreamBuff.{
  Memory, Frame, zero_frame, entry, covers, load32, place, check_cover_loop, check_buff_data_cover,
  init_memory_param, put_one_frame, put_one_frame_to_buff,
}
use mgw.StreamBuff.Samples.{
  frame0, frame1, frame2, frame3, empty_frame, long_frame, two, three, stored0, stored1,
  three-IsReady, held1, held2, three-IsInside, three_stops,
}
use mgw.StreamBuff.Window.{IsReady, Window}
use mgw.StreamBuff.Put.{put_one_frame-Window}
use mgw.StreamBuff.Inside.{IsInside, put_one_frame-IsInside}
use mgw.StreamBuff.Faults.{put_one_frame_empty, put_one_frame_strikes}

put_frames : List Frame → Memory → Option Memory
unfolding put_one_frame check_buff_data_cover check_cover_loop place covers write_at load32
put_frames [] m = some m
put_frames (f ∷ fs) m = elim (put_one_frame m f) [ none ↦ none | some (c, m') ↦ put_frames fs m' ]

three_puts : put_frames (frame0 ∷ frame1 ∷ frame2 ∷ []) (init_memory_param 4 20) ≡ some three
unfolding put_frames init_memory_param
three_puts = refl

put_null : put_one_frame_to_buff (some three) none ≡ some (negsuc 0, some three)
unfolding put_one_frame_to_buff
put_null = refl

-- Frame 3 goes round the end, and frames 1 and 2 stay.
put_one_frame-Window_example :
    (m' : Memory) × (put_one_frame three frame3 ≡ some (pos 0, m'))
    × IsReady m'
    × Window m' 1 6 (frame1 ∷ frame2 ∷ frame3 ∷ [])
unfolding place covers
put_one_frame-Window_example =
    put_one_frame-Window three frame3 (frame1 ∷ frame2 ∷ []) 1 6 three-IsReady
      (held1, (held2, (refl, refl))) (omega arith) (omega arith) (omega arith) (omega arith)
      (omega arith) three_stops

two_positions : (j : ℕ) → (entry two j).position < 20
two_positions zero = omega arith
two_positions (suc zero) = omega arith
two_positions (suc (suc zero)) = omega arith
two_positions (suc (suc (suc zero))) = omega arith
two_positions (suc (suc (suc (suc j)))) = omega arith

two_lens : (j : ℕ) → (entry two j).len < 20
two_lens zero = omega arith
two_lens (suc zero) = omega arith
two_lens (suc (suc zero)) = omega arith
two_lens (suc (suc (suc zero))) = omega arith
two_lens (suc (suc (suc (suc j)))) = omega arith

two-IsInside : IsInside two
two-IsInside = record {
  block = refl;
  small = omega arith;
  some_data = omega arith;
  positions = two_positions;
  lens = two_lens;
}

abbrev struck_two : Memory
struck_two = record {
  datasize = 20;
  writ_frame_count = 3;
  max_valid_frames = 4;
  writer_count = 0;
  reader_count = 0;
  frames =
      stored0
      ∷ stored1
      ∷ record stored1 { position = 12; len = 9; timestamp = 60 }
      ∷ record zero_frame { position = 1 }
      ∷ [];
  bytes =
      0 ∷ 0 ∷ 1 ∷ 5 ∷ 9 ∷ 9 ∷ 0 ∷ 0 ∷ 1 ∷ 1 ∷ 8 ∷ 8 ∷ 31 ∷ 32 ∷ 33 ∷ 34 ∷ 35 ∷ 36 ∷ 37 ∷ 38 ∷ [];
}

two_puts : put_one_frame two long_frame ≡ some (pos 0, struck_two)
unfolding put_frames
two_puts = refl

put_one_frame-IsInside_example : IsInside struck_two
put_one_frame-IsInside_example =
    put_one_frame-IsInside two long_frame (pos 0) struck_two two-IsInside two_puts

put_one_frame_empty_example :
    (m' : Memory) × (put_one_frame three empty_frame ≡ some (pos 0, m'))
    × ((j : ℕ) → 0 ≤ j → j < 0 + (4 - 2) → (entry m' j).valid ≡ false)
put_one_frame_empty_example =
    put_one_frame_empty three empty_frame three-IsInside (omega arith) refl (omega arith)
      (omega arith) (omega arith)

-- The byte written there was 39.
put_one_frame_strikes_example : get_or struck_two.bytes 0 0 ≡ 0
unfolding place covers load32 write_at
put_one_frame_strikes_example =
    put_one_frame_strikes two long_frame struck_two (omega arith) (omega arith) (omega arith)
      (omega arith) refl refl refl two_puts
