-- ===== src/StreamBuff/Reader/Behind.antt =====
-- What holds of every read: the reader never passes the writer.
use mgw.Prelude.{
  ℕ, zero, suc, ◌+◌, ◌-◌, ◌%◌, ◌^◌, ◌≤◌, ◌<◌, ◌≡◌, inl, inr, false, Bool-cases, Option-cases, some,
  leb, sub32, if◌then◌else◌, arith,
}
use mgw.StreamBuff.{Memory, MemReader, entry}
use mgw.StreamBuff.Reader.{
  oldest_loop, jump_to_oldest, newest_loop, jump_to_newest, take_frame, take_valid, take_iframe,
  get_one_frame,
}

-- The counts stay below what an `int` holds.
abbrev pub SmallCounts : Memory → Type 0
SmallCounts m = m.writ_frame_count + m.max_valid_frames < 2 ^ 31

oldest_loop-lt :
    (m : Memory) (r rounds i k : ℕ)
    → SmallCounts m
    → 0 < m.writ_frame_count
    → i + rounds ≤ m.max_valid_frames
    → oldest_loop m r rounds i ≡ some k
    → k < m.writ_frame_count
unfolding oldest_loop
oldest_loop-lt m r zero i k small pos_count n e = cc
oldest_loop-lt m r (suc rounds) i k small pos_count n e =
    ground (arith, oldest_loop-lt m r rounds (i + 1) k small pos_count)

jump_to_oldest-lt :
    (m : Memory) (r k : ℕ)
    → SmallCounts m
    → 0 < m.writ_frame_count
    → jump_to_oldest m r ≡ some k
    → k < m.writ_frame_count
unfolding jump_to_oldest
jump_to_oldest-lt m r k small pos_count e =
    ground (arith, oldest_loop-lt m r m.max_valid_frames 0 k small pos_count)

newest_loop-lt : (m : Memory) (r min n k : ℕ) → newest_loop m r min n ≡ some k → k < n
unfolding newest_loop
newest_loop-lt m r min zero k e = cc
newest_loop-lt m r min (suc n) k e = ground (arith, newest_loop-lt m r min n k)

jump_to_newest-lt :
    (m : Memory) (r k : ℕ)
    → 0 < m.writ_frame_count
    → jump_to_newest m r ≡ some k
    → k < m.writ_frame_count
unfolding jump_to_newest
jump_to_newest-lt m r k pos_count e = ground (
  arith,
  newest_loop-lt m r r m.writ_frame_count k,
  newest_loop-lt m r (sub32 m.writ_frame_count m.max_valid_frames) m.writ_frame_count k,
)

module _ (m : Memory) (maxframelen gtime : ℕ) (small : SmallCounts m) where
  take_frame_behind :
      (rd : MemReader)
      → rd.rd_frame_count < m.writ_frame_count
      → (take_frame m rd maxframelen gtime).1.rd_frame_count ≤ m.writ_frame_count
  unfolding take_frame
  take_frame_behind rd h = ground arith

  take_valid_behind :
      (rd : MemReader)
      → rd.rd_frame_count < m.writ_frame_count
      → (take_valid m rd maxframelen gtime).1.rd_frame_count ≤ m.writ_frame_count
  unfolding take_valid
  take_valid_behind rd h =
      elim (Bool-cases (entry m (rd.rd_frame_count % m.max_valid_frames)).valid) [
        | inl v ↦ ground (arith, take_frame_behind rd h)
        | inr v ↦ elim (Option-cases (jump_to_oldest m rd.rd_frame_count)) [
          | inl e ↦ ground arith
          | inr (k, e) ↦ ground (
            arith,
            take_frame_behind (record rd { rd_frame_count = k })
                (jump_to_oldest-lt m rd.rd_frame_count k small (omega arith) e),
          )
        ]
      ]

  take_iframe_behind :
      (rd : MemReader)
      → rd.rd_frame_count < m.writ_frame_count
      → (take_iframe m rd maxframelen gtime).1.rd_frame_count ≤ m.writ_frame_count
  unfolding take_iframe
  take_iframe_behind rd h =
      let r0 : ℕ = if leb 5 m.writ_frame_count then m.writ_frame_count - 5 else rd.rd_frame_count in
      elim (Option-cases (jump_to_newest m r0)) [
        | inl e ↦ ground (arith, take_valid_behind rd h)
        | inr (k, e) ↦ ground (
          arith,
          take_valid_behind rd h,
          take_valid_behind (record rd { rd_frame_count = k; re_iframe = false })
              (jump_to_newest-lt m r0 k (omega arith) e),
        )
      ]

-- A reader that is not ahead of the writer is not ahead of it after a read either, whatever the
-- read answers and whichever jumps it made.
pub get_one_frame_behind :
    (m : Memory) (rd : MemReader) (maxframelen gtime : ℕ)
    → SmallCounts m
    → rd.rd_frame_count ≤ m.writ_frame_count
    → (get_one_frame m rd maxframelen gtime).1.rd_frame_count ≤ m.writ_frame_count
unfolding get_one_frame
get_one_frame_behind m rd maxframelen gtime small h =
    elim (Option-cases (jump_to_oldest m rd.rd_frame_count)) [
      | inl e ↦ ground (arith, take_iframe_behind m maxframelen gtime small rd)
      | inr (k, e) ↦ ground (
        arith,
        take_iframe_behind m maxframelen gtime small rd,
        take_iframe_behind m maxframelen gtime small (record rd { rd_frame_count = k }),
        jump_to_oldest-lt m rd.rd_frame_count k small,
      )
    ]
