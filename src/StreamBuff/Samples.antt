-- ===== src/StreamBuff/Samples.antt =====
-- Sample frames, and a block of four entries and twenty bytes that has taken three of them.
use mgw.Prelude.{ℕ, zero, suc, ◌<◌, refl, inl, true, false, [], ◌∷◌, ring_read, arith}
use mgw.StreamBuff.{
  frame_i, frame_p, frame_aac, zero_frame, Memory, MemReader, Frame, MemoryFrame, entry, place,
  covers,
}
use mgw.StreamBuff.Window.{IsReady, Holds, StopsInTable}
use mgw.StreamBuff.Inside.{IsInside}

abbrev pub frame0 : Frame
frame0 = record {
  payload = 0 ∷ 0 ∷ 1 ∷ 5 ∷ 9 ∷ 9 ∷ [];
  timestamp = 10;
  frametype = frame_i;
  priority = 2;
}

abbrev pub frame1 : Frame
frame1 = record {
  payload = 0 ∷ 0 ∷ 1 ∷ 1 ∷ 8 ∷ 8 ∷ [];
  timestamp = 20;
  frametype = frame_p;
  priority = 1;
}

abbrev pub frame2 : Frame
frame2 = record {
  payload = 21 ∷ 22 ∷ 23 ∷ 24 ∷ 25 ∷ 26 ∷ [];
  timestamp = 30;
  frametype = frame_aac;
  priority = 1;
}

abbrev pub frame3 : Frame
frame3 = record {
  payload = 0 ∷ 0 ∷ 1 ∷ 5 ∷ 7 ∷ 7 ∷ [];
  timestamp = 40;
  frametype = frame_i;
  priority = 2;
}

abbrev pub empty_frame : Frame
empty_frame = record { payload = []; timestamp = 50; frametype = frame_p; priority = 1 }

abbrev pub stored0 : MemoryFrame
stored0 = record {
  valid = true;
  position = 0;
  len = 6;
  timestamp = 10;
  frametype = frame_i;
  priority = 2;
}

abbrev pub stored1 : MemoryFrame
stored1 = record {
  valid = true;
  position = 6;
  len = 6;
  timestamp = 20;
  frametype = frame_p;
  priority = 1;
}

abbrev pub stored2 : MemoryFrame
stored2 = record {
  valid = true;
  position = 12;
  len = 6;
  timestamp = 30;
  frametype = frame_aac;
  priority = 1;
}

abbrev pub open_slot : MemoryFrame
open_slot = record {
  valid = false;
  position = 18;
  len = 0;
  timestamp = 0;
  frametype = frame_i;
  priority = 0;
}

-- After frames 0, 1 and 2; the next one goes round the end of the data.
abbrev pub three : Memory
three = record {
  datasize = 20;
  writ_frame_count = 3;
  max_valid_frames = 4;
  writer_count = 0;
  reader_count = 0;
  frames = stored0 ∷ stored1 ∷ stored2 ∷ open_slot ∷ [];
  bytes = 0 ∷ 0 ∷ 1 ∷ 5 ∷ 9 ∷ 9 ∷ 0 ∷ 0 ∷ 1 ∷ 1 ∷ 8 ∷ 8 ∷ 21 ∷ 22 ∷ 23 ∷ 24 ∷ 25 ∷ 26 ∷ 0 ∷ 0 ∷ [];
}

-- A reader that has read `n` frames.
abbrev pub reader_at : ℕ → MemReader
reader_at n = record { rd_frame_count = n; re_iframe = false; read_by_time = false }

-- After frames 0 and 1: the entry of the last slot was never used.
abbrev pub two : Memory
two = record {
  datasize = 20;
  writ_frame_count = 2;
  max_valid_frames = 4;
  writer_count = 0;
  reader_count = 0;
  frames = stored0 ∷ stored1 ∷ record zero_frame { position = 12 } ∷ zero_frame ∷ [];
  bytes = 0 ∷ 0 ∷ 1 ∷ 5 ∷ 9 ∷ 9 ∷ 0 ∷ 0 ∷ 1 ∷ 1 ∷ 8 ∷ 8 ∷ 0 ∷ 0 ∷ 0 ∷ 0 ∷ 0 ∷ 0 ∷ 0 ∷ 0 ∷ [];
}

-- A frame whose last byte comes to stand at the start of the data.
abbrev pub long_frame : Frame
long_frame = record {
  payload = 31 ∷ 32 ∷ 33 ∷ 34 ∷ 35 ∷ 36 ∷ 37 ∷ 38 ∷ 39 ∷ [];
  timestamp = 60;
  frametype = frame_p;
  priority = 1;
}

pub three-IsReady : IsReady three
three-IsReady = omega arith

pub held1 : Holds three 1 6 frame1
unfolding ring_read
held1 = record {
  some_bytes = omega arith;
  valid = refl;
  position = refl;
  len = refl;
  timestamp = refl;
  frametype = refl;
  priority = refl;
  bytes = refl;
}

pub held2 : Holds three 2 12 frame2
unfolding ring_read
held2 = record {
  some_bytes = omega arith;
  valid = refl;
  position = refl;
  len = refl;
  timestamp = refl;
  frametype = refl;
  priority = refl;
  bytes = refl;
}

pub held0 : Holds three 0 0 frame0
unfolding ring_read
held0 = record {
  some_bytes = omega arith;
  valid = refl;
  position = refl;
  len = refl;
  timestamp = refl;
  frametype = refl;
  priority = refl;
  bytes = refl;
}

three_positions : (j : ℕ) → (entry three j).position < 20
three_positions zero = omega arith
three_positions (suc zero) = omega arith
three_positions (suc (suc zero)) = omega arith
three_positions (suc (suc (suc zero))) = omega arith
three_positions (suc (suc (suc (suc j)))) = omega arith

three_lens : (j : ℕ) → (entry three j).len < 20
three_lens zero = omega arith
three_lens (suc zero) = omega arith
three_lens (suc (suc zero)) = omega arith
three_lens (suc (suc (suc zero))) = omega arith
three_lens (suc (suc (suc (suc j)))) = omega arith

pub three-IsInside : IsInside three
three-IsInside = record {
  block = refl;
  small = omega arith;
  some_data = omega arith;
  positions = three_positions;
  lens = three_lens;
}

-- Five frames were put: the table is full, and frame 4 stands in entry 0.
abbrev pub turned : Memory
turned = record three { writ_frame_count = 5; frames = stored0 ∷ stored1 ∷ stored2 ∷ stored1 ∷ [] }

-- Frame 3 does not cover frame 1.
pub three_stops : StopsInTable three frame3
unfolding place covers
three_stops = inl (1, omega arith, omega arith, refl)
