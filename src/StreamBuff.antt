-- ===== src/StreamBuff.antt =====
-- mgw-core/buffer/stream_buff.c: a ring of frames in one block of memory, with one writer and
-- readers that each keep a count of their own.
pub mod Cover
pub mod Place
pub mod Window
pub mod After
pub mod Put
pub mod Inside
pub mod Faults
pub mod Reader
mod Tests
pub mod Samples
use mgw.Prelude.{
  ℕ, zero, suc, ◌+◌, ◌-◌, ◌*◌, ◌/◌, ◌%◌, ◌^◌, Bool, true, false, ◌&&◌, ◌||◌, not, Option, none,
  some, List, [], ◌∷◌, ◌++◌, ltb, leb, ◌==◌, if◌then◌else◌, length, get_or, set, take, drop,
  replicate, add32, sub32, sub64, write_at, read_at,
}
use mgw.Prelude.Int.{ℤ, pos, negsuc}

-- `frame_t` of util/codec-def.h.
pub data FrameType : Type 0 where
  frame_unknown frame_i frame_b frame_p frame_idr frame_sei frame_sps frame_pps : FrameType
  frame_aac frame_vps : FrameType

abbrev pub is_frame_i : FrameType → Bool
is_frame_i frame_i = true
is_frame_i _ = false

-- `SmemoryFrame` with its `SMemFrameInfo`.
pub record MemoryFrame : Type 0 where
  pub valid : Bool
  pub position : ℕ
  pub len : ℕ
  pub timestamp : ℕ
  pub frametype : FrameType
  pub priority : ℕ

-- What `memset` to 0 leaves: type 0 is FRAME_I.
abbrev pub zero_frame : MemoryFrame
zero_frame = record {
  valid = false;
  position = 0;
  len = 0;
  timestamp = 0;
  frametype = frame_i;
  priority = 0;
}

-- The block: `SmemoryHead`, the table `pstuFrames` and the bytes `pstuData`, which follow one
-- another in memory.
pub record Memory : Type 0 where
  pub datasize : ℕ
  pub writ_frame_count : ℕ
  pub max_valid_frames : ℕ
  pub writer_count : ℕ
  pub reader_count : ℕ
  pub frames : List MemoryFrame
  pub bytes : List ℕ

-- `MemReader_t`.
pub record MemReader : Type 0 where
  pub rd_frame_count : ℕ
  pub re_iframe : Bool
  pub read_by_time : Bool

-- One frame as a caller hands it over and gets it back.
pub record Frame : Type 0 where
  pub payload : List ℕ
  pub timestamp : ℕ
  pub frametype : FrameType
  pub priority : ℕ

-- `InitMemoryParam` on a block of zero bytes.
unfoldable pub init_memory_param : ℕ → ℕ → Memory
init_memory_param frames size = record {
  datasize = size;
  writ_frame_count = 0;
  max_valid_frames = frames;
  writer_count = 0;
  reader_count = 0;
  frames = replicate frames zero_frame;
  bytes = replicate size 0;
}

abbrev pub entry : Memory → ℕ → MemoryFrame
entry m i = get_or m.frames i zero_frame

-- The test of `CheckBuffDataCover`: does `npos` lie in what was written from `pos_s` to `pos_e`?
pub covers : ℕ → ℕ → ℕ → Bool
covers pos_s pos_e npos =
    if ltb pos_s pos_e then leb pos_s npos && leb npos pos_e else leb pos_s npos || leb npos pos_e

-- `sizeof(SmemoryFrame)` in the LP64 layout: the flag is byte 0, the position bytes 4 to 7.
abbrev pub frame_size : ℕ
frame_size = 40

-- A little-endian `unsigned int` of the bytes.
pub load32 : List ℕ → ℕ → ℕ
load32 d p =
    get_or d p 0
    + get_or d (p + 1) 0 * 2 ^ 8
    + get_or d (p + 2) 0 * 2 ^ 16
    + get_or d (p + 3) 0 * 2 ^ 24

abbrev clear_valid : List MemoryFrame → ℕ → List MemoryFrame
clear_valid fs k = set fs k (let e = get_or fs k zero_frame in record e { valid = false })

-- The loop of `CheckBuffDataCover`, at the table index `k = next + i`, with `rounds` to go. The
-- index does not go round at the table's end: from there on an entry's fields are the payload
-- bytes that stand at its address, and `none` is an access behind the whole block.
pub check_cover_loop : ℕ → ℕ → ℕ → ℕ → Memory → Option Memory
check_cover_loop pos_s pos_e zero k m = some m
check_cover_loop pos_s pos_e (suc rounds) k m =
    let in_table =
      (let rest =
          check_cover_loop pos_s pos_e rounds (k + 1)
            (record m { frames = clear_valid m.frames k }) in
        if covers pos_s pos_e (entry m k).position then rest else some m) in
    let at = (k - m.max_valid_frames) * frame_size in
    let behind =
      (let rest =
          check_cover_loop pos_s pos_e rounds (k + 1) (record m { bytes = set m.bytes at 0 }) in
        if leb (at + 8) m.datasize
        then (if covers pos_s pos_e (load32 m.bytes (at + 4)) then rest else some m)
        else none) in
    if ltb k m.max_valid_frames then in_table else behind

-- `CheckBuffDataCover`: the count of rounds is an `unsigned int`.
pub check_buff_data_cover : ℕ → ℕ → ℕ → Memory → Option Memory
unfolding check_cover_loop
check_buff_data_cover pos_s pos_e next m =
    check_cover_loop pos_s pos_e (sub32 m.max_valid_frames 2) next m

-- Where a frame's bytes went: the data, `pos_e`, and the position for the next frame.
pub record Placed : Type 0 where
  pub bytes : List ℕ
  pub pos_e : ℕ
  pub next : ℕ

-- The copy in `PutOneFrameToBuff`: in one piece, or round the end of the data in two.
pub place : ℕ → ℕ → List ℕ → List ℕ → Placed
place datasize position frame d =
    let framelen = length frame in
    let left = sub32 datasize position in
    if leb (add32 position framelen) datasize
    then record {
      bytes = write_at position frame d;
      pos_e = add32 position framelen;
      next = if add32 position framelen == datasize then 0 else add32 position framelen;
    }
    else record {
      bytes = write_at 0 (drop left frame) (write_at position (take left frame) d);
      pos_e = sub32 framelen left;
      next = sub32 framelen left;
    }

-- The entry that a frame fills; its position was set when the frame before was put.
abbrev pub fill : MemoryFrame → Frame → MemoryFrame
fill e f = record {
  valid = true;
  position = e.position;
  len = length f.payload;
  timestamp = f.timestamp;
  frametype = f.frametype;
  priority = f.priority;
}

abbrev pub set_position : List MemoryFrame → ℕ → ℕ → List MemoryFrame
set_position fs k p = set fs k (let e = get_or fs k zero_frame in record e { position = p })

-- What follows `CheckBuffDataCover` in `PutOneFrameToBuff`.
abbrev pub advance : ℕ → ℕ → Memory → Memory
advance wnext next m = record m {
  frames = set_position m.frames wnext next;
  writ_frame_count = add32 m.writ_frame_count 1;
}

-- The block when `CheckBuffDataCover` is called.
abbrev pub filled : Memory → Placed → Frame → Memory
filled m p f =
    let w = m.writ_frame_count % m.max_valid_frames in
    record m { bytes = p.bytes; frames = set m.frames w (fill (entry m w) f) }

-- `PutOneFrameToBuff`: the return code with the block, or `none` for the access out of the block.
pub put_one_frame : Memory → Frame → Option (ℤ × Memory)
unfolding place check_buff_data_cover
put_one_frame m f =
    let w = m.writ_frame_count % m.max_valid_frames in
    let wnext = (w + 1) % m.max_valid_frames in
    let position = (entry m w).position in
    let p = place m.datasize position f.payload m.bytes in
    if leb (m.datasize / 2) (length f.payload)
    then some (negsuc 1, m)
    else elim (check_buff_data_cover position p.pos_e wnext (filled m p f)) [
      | none ↦ none
      | some m' ↦ some (pos 0, advance wnext p.next m')
    ]

-- The null checks at the head of `PutOneFrameToBuff`.
pub put_one_frame_to_buff : Option Memory → Option Frame → Option (ℤ × Option Memory)
unfolding put_one_frame
put_one_frame_to_buff none f = some (negsuc 0, none)
put_one_frame_to_buff (some m) none = some (negsuc 0, some m)
put_one_frame_to_buff (some m) (some f) = elim (put_one_frame m f) [
  | none ↦ none
  | some (c, m') ↦ some (c, some m')
]
