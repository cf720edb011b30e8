-- ===== src/StreamBuff/Put.antt =====
-- PutOneFrameToBuff as a whole.
use mgw.Prelude.{
  ℕ, ◌+◌, ◌/◌, ◌%◌, ◌^◌, ◌≤◌, ◌<◌, ◌≡◌, refl, inl, inr, false, some, List, [], ◌∷◌, ◌++◌, length,
  leb, lt→ltb, leb_of_ltb, sub32, arith,
}
use mgw.Prelude.Int.{pos, negsuc}
use mgw.StreamBuff.{Memory, Frame, entry, put_one_frame}
use mgw.StreamBuff.Cover.{Stops, check_buff_data_cover-Kept}
use mgw.StreamBuff.Window.{
  IsReady, Window, Window-count, Window-position, total, slot, next_slot, placed, StopsInTable,
}
use mgw.StreamBuff.After.{mid, position-mid, after, IsReady-after, Window-after}

-- A frame of half the data or more is refused with -2, and nothing changes.
pub put_one_frame_too_big :
    (m : Memory) (f : Frame)
    → m.datasize / 2 ≤ length f.payload
    → put_one_frame m f ≡ some (negsuc 1, m)
unfolding put_one_frame
put_one_frame_too_big m f h = ground arith

module _ (m : Memory) (f : Frame) (fs : List Frame) (i u : ℕ) (ok : IsReady m)
    (win : Window m i u fs) (some_bytes : 0 < length f.payload)
    (half : length f.payload < m.datasize / 2) (room : total fs + length f.payload < m.datasize)
    (slots : length fs + 2 ≤ m.max_valid_frames) (count : m.writ_frame_count + 1 < 2 ^ 31)
    (stops : StopsInTable m f) where
  at : (entry m (slot m)).position ≡ (u + total fs) % m.datasize
  at = Window-position m fs i u (u + total fs) win refl

  abbrev filled_memory : Memory
  filled_memory = mid m f (u + total fs) ok at some_bytes (omega arith)

  Stops-mid :
      StopsInTable m f
      → Stops
          (entry m (slot m)).position
          (placed m f).pos_e
          (sub32 m.max_valid_frames 2)
          (next_slot m)
          filled_memory
  Stops-mid (inl (j, a, b, c)) =
      inl (j, a, b, rw (position-mid m f (u + total fs) ok at some_bytes (omega arith) j) c)
  Stops-mid (inr h) = inr h

  put_one_frame_grows :
      (m' : Memory) × (put_one_frame m f ≡ some (pos 0, m'))
      × IsReady m'
      × Window m' i u (fs ++ f ∷ [])
  unfolding put_one_frame
  put_one_frame_grows =
      let (m2, e, kept) = check_buff_data_cover-Kept _ _ _ filled_memory (Stops-mid stops) in
      let fits : leb (m.datasize / 2) (length f.payload) ≡ false =
        leb_of_ltb _ _ (lt→ltb _ _ half) in
      (
        after m f (u + total fs) ok at some_bytes (omega arith) m2 kept,
        rw (fits, e),
        IsReady-after m f (u + total fs) ok at some_bytes (omega arith) m2 kept count,
        Window-after m f (u + total fs) ok at some_bytes (omega arith) m2 kept fs i u win refl
            (Window-count m fs i u win) room slots,
      )

-- PutOneFrameToBuff takes a frame that is not empty and less than half the data, keeps every
-- frame of the window, byte for byte, and adds the new one behind them.
-- Conditions: with the frame the window leaves a byte of data and two entries of the table free,
-- the walk of CheckBuffDataCover ends inside the table, and the count fits an `int`.
pub put_one_frame-Window :
    (m : Memory) (f : Frame) (fs : List Frame) (i u : ℕ)
    → IsReady m
    → Window m i u fs
    → 0 < length f.payload
    → length f.payload < m.datasize / 2
    → total fs + length f.payload < m.datasize
    → length fs + 2 ≤ m.max_valid_frames
    → m.writ_frame_count + 1 < 2 ^ 31
    → StopsInTable m f
    → (m' : Memory) × (put_one_frame m f ≡ some (pos 0, m'))
      × IsReady m'
      × Window m' i u (fs ++ f ∷ [])
put_one_frame-Window = put_one_frame_grows
