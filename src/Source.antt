-- ===== src/Source.antt =====
-- mgw-core/core-api/mgw-source.c: packets written to a source, and the headers that it hands out.
pub mod Headers
pub mod Written
mod Tests
use mgw.Prelude.{
  ℕ, Bool, true, false, ◌&&◌, not, Option, none, some, List, length, ltb, if◌then◌else◌,
}
use mgw.Prelude.Int.{ℤ, pos, negsuc}
use mgw.Codec.Startcode.{Bytes, get_startcode_len}
use mgw.Codec.Nals.{bytes_at, parse_avc_header}
use mgw.Codec.Aac.{get_aaclc_flv_header}
use mgw.Flv.{EncoderType, encoder_audio, encoder_video}
use mgw.StreamBuff.{Memory}
use mgw.PacketRing.{RingBuffer, Packet, write_packet}
use mgw.RtmpStream.{frame_priority_low}

-- `struct mgw_source`, the fields that writing packets and the headers use: whether `info_impl` is there,
-- and whether `video_payload` is ENCID_H264.
pub record Source : Type 0 where
  pub is_private : Bool
  pub info_impl : Bool
  pub is_h264 : Bool
  pub audio_header : List ℕ
  pub video_header : List ℕ
  pub buffer : Option RingBuffer

-- `mgw_source_set_video_extra_data`.
pub mgw_source_set_video_extra_data : List ℕ → Source → Source
mgw_source_set_video_extra_data extra_data s =
    if s.is_private then record s { video_header = extra_data } else s

-- `mgw_source_set_audio_extra_data`.
pub mgw_source_set_audio_extra_data : ℕ → ℕ → ℕ → Source → Source
mgw_source_set_audio_extra_data channels samplesize samplerate s =
    if s.is_private
    then record s { audio_header = get_aaclc_flv_header channels samplesize samplerate }
    else s

-- `get_header_internal`: what `params` gets; none is that it is left as it is. `get_extra_data` is the
-- plugin's answer.
pub get_header_internal : (EncoderType → List ℕ) → Source → EncoderType → Option (List ℕ)
get_header_internal get_extra_data s kind =
    let stored : List ℕ = elim kind [
      | encoder_video ↦ s.video_header
      | encoder_audio ↦ s.audio_header
    ] in
    if s.info_impl && not s.is_private
    then some (get_extra_data kind)
    else if s.is_private
    then some stored
    else none

-- The packet at an address as `struct encoder_packet`, with its bytes.
pub record SourcePacket : Type 0 where
  pub address : ℕ
  pub size : ℕ
  pub pts : ℕ
  pub kind : EncoderType
  pub keyframe : Bool
  pub priority : ℕ

pub ring_packet : Bytes → SourcePacket → Packet
ring_packet m p = record {
  packet_data = bytes_at m p.address p.size;
  size = p.size;
  pts = p.pts;
  encoder = p.kind;
  keyframe = p.keyframe;
  priority = p.priority;
}

-- The part of `mgw_source_write_packet` before the ring; `fuel` bounds the loop of `mgw_parse_avc_header`.
pub take_header : Bytes → ℕ → SourcePacket → Source → Option (Source × SourcePacket)
unfolding mgw_source_set_video_extra_data
take_header m fuel p s =
    let coded : Bool = elim (get_startcode_len m p.address) [
      | negsuc n ↦ false
      | pos n ↦ ltb 0 n
    ] in
    let is_video : Bool = elim p.kind [ encoder_video ↦ true | encoder_audio ↦ false ] in
    let parsed : Option (Source × SourcePacket) = elim (parse_avc_header m fuel p.address p.size) [
      | none ↦ none
      | some o ↦ some (elim o [
        | none ↦ (s, p)
        | some header ↦
            let taken : Source × SourcePacket = (
              mgw_source_set_video_extra_data header s,
              record p { priority = frame_priority_low },
            ) in
            if ltb 4 (length header) then taken else (s, p)
      ])
    ] in
    if s.is_private && (not s.info_impl && (coded && (is_video && (p.keyframe && s.is_h264))))
    then parsed
    else some (s, p)

-- The end of it: the packet goes into the ring, whose answer is not looked at.
pub store_packet :
    ℕ → Bytes → SourcePacket → RingBuffer → Memory → Source → Option (Source × Memory)
unfolding ring_packet
store_packet now m p rb block s = elim (write_packet now rb block (ring_packet m p)) [
  | none ↦ none
  | some (n, (rb', block')) ↦ some (record s { buffer = some rb' }, block')
]

-- `mgw_source_write_packet` at the time `now`, on the source and the block of its ring; none is an access out of the block,
-- or fuel that is not enough.
pub mgw_source_write_packet :
    ℕ → ℕ → Bytes → SourcePacket → Source → Memory → Option (Source × Memory)
unfolding take_header store_packet
mgw_source_write_packet now fuel m p s block = elim s.buffer [
  | none ↦ some (s, block)
  | some rb ↦ elim (take_header m fuel p s) [
    | none ↦ none
    | some (s', p') ↦ store_packet now m p' rb block s'
  ]
]
