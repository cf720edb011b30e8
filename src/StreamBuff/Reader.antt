-- ===== src/StreamBuff/Reader.antt =====
-- The reader's half of stream_buff.c: the two jumps, CheckBuffDuration and the two reads.
pub mod Get
pub mod Jump
pub mod Behind
pub mod Fits
mod Tests
use mgw.Prelude.{
  ℕ, zero, suc, ◌+◌, ◌-◌, ◌%◌, ◌^◌, Bool, false, ◌&&◌, ◌||◌, not, Option, none, some, List, ◌++◌,
  ltb, leb, ◌==◌, if◌then◌else◌, length, add32, sub32, sub64, read_at,
}
use mgw.Prelude.Int.{ℤ, pos, negsuc}
use mgw.StreamBuff.{is_frame_i, MemoryFrame, Memory, MemReader, Frame, entry}

abbrev pub is_key : Memory → ℕ → Bool
is_key m k = (entry m k).valid && is_frame_i (entry m k).frametype

-- The loop of `JumpToOldestIFrame` at round `i`: the new read count, or none. `iNewPos` is an
-- `int`, and 0 where it is negative.
pub oldest_loop : Memory → ℕ → ℕ → ℕ → Option ℕ
oldest_loop m r zero i = none
oldest_loop m r (suc rounds) i =
    let rest = oldest_loop m r rounds (i + 1) in
    let w = m.writ_frame_count in
    let diff = sub32 (add32 w i) m.max_valid_frames in
    let new_pos = if leb (2 ^ 31) diff then 0 else diff in
    if is_key m (add32 w i % m.max_valid_frames)
    then (if ltb new_pos r && ltb r w then rest else some new_pos)
    else rest

-- `JumpToOldestIFrame`: the read count that it sets, `none` where it returns -1.
pub jump_to_oldest : Memory → ℕ → Option ℕ
unfolding oldest_loop
jump_to_oldest m r =
    if m.writ_frame_count == 0 then some 0 else oldest_loop m r m.max_valid_frames 0

-- `i > min` of `JumpTonewestIFrame`, where `min` is the pattern of an `int`.
abbrev above : ℕ → ℕ → Bool
above i min = leb (2 ^ 31) min || ltb min i

-- Its loop, downwards from `i = count - 1`.
pub newest_loop : Memory → ℕ → ℕ → ℕ → Option ℕ
newest_loop m r min zero = none
newest_loop m r min (suc i) =
    let rest = newest_loop m r min i in
    if above i min
    then (if is_key m (i % m.max_valid_frames) then (if leb r i then some i else none) else rest)
    else none

-- `JumpTonewestIFrame`. The count is compared as an `int`, so from 2 ^ 31 on the loop is not
-- entered.
pub jump_to_newest : Memory → ℕ → Option ℕ
unfolding newest_loop
jump_to_newest m r =
    let w = m.writ_frame_count in
    let diff = sub32 w r in
    let min = if ltb 0 diff && ltb diff (2 ^ 31) then r else sub32 w m.max_valid_frames in
    if w == 0 then some 0 else if leb (2 ^ 31) w then none else newest_loop m r min w

-- `CheckBuffDuration` of a reader; the comparison is of `unsigned int`s.
pub check_buff_duration : Memory → MemReader → ℕ
check_buff_duration m rd =
    let wcount = sub32 m.writ_frame_count 1 in
    if leb wcount rd.rd_frame_count
    then 0
    else sub64 (entry m (wcount % m.max_valid_frames)).timestamp
        (entry m (rd.rd_frame_count % m.max_valid_frames)).timestamp

-- What `GetOneFrameFromBuff` answers. `slow_at` is FRAME_CONSUME_SLOW with the frame's time in
-- `*timestamp`, `again` and `too_big` are the returns of 0 with nothing copied.
pub data Got : Type 0 where
  consume_fast consume_slow again too_big : Got
  slow_at : ℕ → Got
  got : Frame → Got

-- The `int` that it returns.
abbrev pub return_code : Got → ℤ
return_code consume_fast = negsuc 1
return_code consume_slow = negsuc 0
return_code again = pos 0
return_code too_big = pos 0
return_code (slow_at ts) = negsuc 0
return_code (got f) = pos (length f.payload)

-- The copy out of the data: in one piece, or round the end in two.
pub fetch : Memory → MemoryFrame → List ℕ
fetch m e =
    let left = sub32 m.datasize e.position in
    if leb (add32 e.position e.len) m.datasize
    then read_at e.position e.len m.bytes
    else read_at e.position left m.bytes ++ read_at 0 (sub32 e.len left) m.bytes

-- From `rp` on in `GetOneFrameFromBuff`: the size, the time, then the copy.
pub take_frame : Memory → MemReader → ℕ → ℕ → Got × MemReader
take_frame m rd maxframelen gtime =
    let e = entry m (rd.rd_frame_count % m.max_valid_frames) in
    let ntime = e.timestamp in
    let late = rd.read_by_time && not (gtime == 0) && ltb gtime ntime && ltb 2000 (ntime - gtime) in
    if ltb maxframelen e.len then (too_big, rd) else if late then (slow_at ntime, rd) else (
      got (record {
        payload = fetch m e;
        timestamp = ntime;
        frametype = e.frametype;
        priority = e.priority;
      }),
      record rd { rd_frame_count = add32 rd.rd_frame_count 1 },
    )

-- `if (pstuFrames[rp].ucValidFlag == 0)`: an overwritten frame sends the reader to the oldest
-- key frame.
pub take_valid : Memory → MemReader → ℕ → ℕ → Got × MemReader
take_valid m rd maxframelen gtime =
    if (entry m (rd.rd_frame_count % m.max_valid_frames)).valid
    then take_frame m rd maxframelen gtime
    else elim (jump_to_oldest m rd.rd_frame_count) [
      | none ↦ (consume_slow, rd)
      | some r ↦ take_frame m (record rd { rd_frame_count = r }) maxframelen gtime
    ]

-- `if (pRead->breIframe)`: a new reader starts at the newest key frame of the last five.
pub take_iframe : Memory → MemReader → ℕ → ℕ → Got × MemReader
take_iframe m rd maxframelen gtime =
    let w = m.writ_frame_count in
    let r0 = if leb 5 w then w - 5 else rd.rd_frame_count in
    if rd.re_iframe
    then elim (jump_to_newest m r0) [
      | none ↦ (again, record rd { rd_frame_count = r0 })
      | some r ↦
          take_valid m (record rd { rd_frame_count = r; re_iframe = false }) maxframelen gtime
    ]
    else take_valid m rd maxframelen gtime

-- `GetOneFrameFromBuff` of a reader: the answer, and the reader afterwards.
pub get_one_frame : Memory → MemReader → ℕ → ℕ → Got × MemReader
get_one_frame m rd maxframelen gtime =
    let w = m.writ_frame_count in
    let r = rd.rd_frame_count in
    if w == r
    then (consume_fast, rd)
    else if ltb w r
    then (
      consume_fast,
      elim (jump_to_oldest m r) [ none ↦ rd | some r' ↦ record rd { rd_frame_count = r' } ],
    )
    else if ltb m.max_valid_frames (sub32 w r)
    then elim (jump_to_oldest m r) [
      | none ↦ (consume_slow, rd)
      | some r' ↦ take_iframe m (record rd { rd_frame_count = r' }) maxframelen gtime
    ]
    else take_iframe m rd maxframelen gtime
