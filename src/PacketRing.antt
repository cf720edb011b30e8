-- ===== src/PacketRing.antt =====
-- mgw-core/buffer/ring-buffer.c: packets go through a sorter, or straight, into the frames of a
-- block, and come out of it as packets.
pub mod Kinds
pub mod Written
mod Tests
use mgw.Prelude.{
  ℕ, zero, suc, ◌+◌, ◌-◌, ◌*◌, ◌/◌, ◌^◌, Bool, true, false, ◌||◌, Option, none, some, List, [], ◌∷◌,
  length, get_or, leb, if◌then◌else◌,
}
use mgw.Prelude.Int.{ℤ, pos, negsuc}
use mgw.StreamBuff.{
  FrameType, frame_unknown, frame_i, frame_b, frame_p, frame_idr, frame_sei, frame_sps, frame_pps,
  frame_aac, frame_vps, Memory, MemReader, put_one_frame,
}
use mgw.StreamBuff.Reader.{Got, return_code, got, slow_at, get_one_frame}
use mgw.Flv.{EncoderType, encoder_audio, encoder_video}
use mgw.StreamSort.{Sorter}
use mgw.StreamSort.Put.{put_frame_stream_sort}
use mgw.StreamBuff
use mgw.StreamSort

-- `struct encoder_packet`, the fields that the ring reads and sets. A packet to write has as many
-- bytes as `size` says.
pub record Packet : Type 0 where
  pub packet_data : List ℕ
  pub size : ℕ
  pub pts : ℕ
  pub encoder : EncoderType
  pub keyframe : Bool
  pub priority : ℕ

-- `struct ring_buffer` of one user, with the reader of its `bc`: in IO_MODE_WRITE there is none. The
-- block that the users share is apart.
pub record RingBuffer : Type 0 where
  pub sort : Bool
  pub reader : Option MemReader
  pub sort_list : Option Sorter

abbrev pub max_frame_size : ℕ
max_frame_size = 500 * 1024

-- The frame type of a packet that is written.
pub frame_type : EncoderType → Bool → FrameType
frame_type encoder_video true = frame_i
frame_type encoder_video false = frame_p
frame_type encoder_audio keyframe = frame_aac

-- The numbers of `frame_t`, as the sorter's `char` holds them, and back.
pub type_code : FrameType → ℕ
type_code frame_unknown = 255
type_code frame_i = 0
type_code frame_b = 1
type_code frame_p = 2
type_code frame_idr = 3
type_code frame_sei = 4
type_code frame_sps = 5
type_code frame_pps = 6
type_code frame_aac = 7
type_code frame_vps = 8

pub code_type : ℕ → FrameType
code_type n =
    get_or
      (frame_i ∷ frame_b ∷ frame_p ∷ frame_idr ∷ frame_sei ∷ frame_sps ∷ frame_pps ∷ frame_aac
        ∷ frame_vps ∷ [])
      n frame_unknown

-- A packet as a frame of the block, and as a frame for the sorter.
pub buff_frame : Packet → StreamBuff.Frame
unfolding frame_type
buff_frame p = record {
  payload = p.packet_data;
  timestamp = p.pts;
  frametype = frame_type p.encoder p.keyframe;
  priority = p.priority;
}

pub sort_frame : Packet → StreamSort.Frame
unfolding frame_type type_code
sort_frame p = record {
  frame = p.packet_data;
  timestamp = p.pts;
  frametype = type_code (frame_type p.encoder p.keyframe);
  priority = p.priority;
}

-- The frame that `datacallback` puts.
pub sorted_frame : StreamSort.Frame → StreamBuff.Frame
unfolding code_type
sorted_frame f = record {
  payload = f.frame;
  timestamp = f.timestamp;
  frametype = code_type f.frametype;
  priority = f.priority;
}

-- What `datacallback` answers, on a block with so much data.
pub callback_answer : ℕ → StreamSort.Frame → ℤ
callback_answer datasize f = if leb (datasize / 2) (length f.frame) then negsuc 1 else pos 0

-- `datacallback` on one frame after the other; none is an access out of the block.
pub deliver : Memory → List StreamSort.Frame → Option Memory
unfolding sorted_frame
deliver m [] = some m
deliver m (f ∷ fs) = elim (put_one_frame m (sorted_frame f)) [
  | none ↦ none
  | some (c, m') ↦ deliver m' fs
]

-- An `int` as a `size_t`.
abbrev pub size_of : ℤ → ℕ
size_of (pos n) = n
size_of (negsuc n) = 2 ^ 64 - (n + 1)

-- `mgw_rb_write_packet` at the time `now`; none is an access out of the block or through a
-- `sort_list` that is NULL.
pub write_packet : ℕ → RingBuffer → Memory → Packet → Option (ℕ × (RingBuffer × Memory))
unfolding callback_answer sort_frame deliver buff_frame
write_packet now rb m p =
    if rb.sort
    then elim rb.sort_list [
      | none ↦ none
      | some s ↦ elim (put_frame_stream_sort (callback_answer m.datasize) now s (sort_frame p)) [
        | none ↦ none
        | some o ↦ elim (deliver m o.delivered) [
          | none ↦ none
          | some m' ↦ some (size_of o.code, (record rb { sort_list = some o.buff }, m'))
        ]
      ]
    ]
    else elim (put_one_frame m (buff_frame p)) [
      | none ↦ none
      | some (c, m') ↦ some (size_of c, (rb, m'))
    ]

-- The null checks at its head.
pub mgw_rb_write_packet :
    ℕ → Option RingBuffer → Memory → Option Packet → Option (ℕ × (Option RingBuffer × Memory))
unfolding write_packet
mgw_rb_write_packet now none m p = some (2 ^ 64 - 1, (none, m))
mgw_rb_write_packet now (some rb) m none = some (2 ^ 64 - 1, (some rb, m))
mgw_rb_write_packet now (some rb) m (some p) = elim (write_packet now rb m p) [
  | none ↦ none
  | some (n, (rb', m')) ↦ some (n, (some rb', m'))
]

-- FRAME_CONSUME_PERR.
abbrev pub consume_perr : ℤ
consume_perr = negsuc 2

-- `ENCODER_AUDIO` for FRAME_AAC, and the key frames.
pub encoder_of : FrameType → EncoderType
encoder_of frame_aac = encoder_audio
encoder_of _ = encoder_video

pub is_key_type : FrameType → Bool
is_key_type frame_i = true
is_key_type frame_idr = true
is_key_type _ = false

-- The caller's packet after an answer of `GetOneFrameFromBuff`.
pub received : Got → Packet → Packet
unfolding encoder_of is_key_type
received (got f) p = record {
  packet_data = f.payload;
  size = length f.payload;
  pts = f.timestamp;
  encoder = encoder_of f.frametype;
  keyframe = is_key_type f.frametype;
  priority = f.priority;
}
received (slow_at ts) p = record p {
  size = size_of (return_code (slow_at ts));
  pts = ts;
  encoder = encoder_video;
  keyframe = false;
}
received g p = record p {
  size = size_of (return_code g);
  encoder = encoder_video;
  keyframe = false;
}

-- `mgw_rb_read_packet`: the code, the packet and the ring's user.
pub mgw_rb_read_packet :
    Option RingBuffer → Memory → Option Packet → ℤ × (Option Packet × Option RingBuffer)
unfolding received
mgw_rb_read_packet none m p = (consume_perr, (p, none))
mgw_rb_read_packet (some rb) m none = (consume_perr, (none, some rb))
mgw_rb_read_packet (some rb) m (some p) = elim rb.reader [
  | none ↦ (consume_perr, (some p, some rb))
  | some rd ↦
      let (g, rd') = get_one_frame m rd max_frame_size p.pts in
      (return_code g, (some (received g p), some record rb { reader = some rd' }))
]
