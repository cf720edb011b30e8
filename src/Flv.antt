-- ===== src/Flv.antt =====
-- plugins/formats/flv-mux.c: packets and meta data as FLV tags.
pub mod Tag
mod Tests
use mgw.Prelude.{
  ℕ, ◌+◌, ◌-◌, ◌/◌, ◌%◌, ◌^◌, Bool, true, false, Option, none, some, List, [], ◌∷◌, ◌++◌, length,
  if◌then◌else◌, add32, sub32,
}
use mgw.Serializer.{s_write, serializer_get_pos, s_w8, s_wb24, s_wb32}

pub data EncoderType : Type 0 where
  encoder_audio : EncoderType
  encoder_video : EncoderType

-- `struct encoder_packet`, with its data, which is NULL or as long as `size` says, and `pts` in two's
-- complement. What the muxer does not read is left out.
pub record EncoderPacket : Type 0 where
  pub payload : Option (List ℕ)
  pub pts : ℕ
  pub kind : EncoderType
  pub keyframe : Bool

-- The eleven bytes before the body of a tag: the kind, the size, the time, and the stream 0.
abbrev pub tag_start : ℕ → ℕ → ℕ → List ℕ → List ℕ
tag_start kind size time_ms s =
    s_wb24 (s_w8 (s_wb24 (s_wb24 (s_w8 s kind) size) time_ms) (time_ms / 2 ^ 24 % 2 ^ 7)) 0

-- The size behind a tag.
abbrev pub tag_end : List ℕ → List ℕ
tag_end s = s_wb32 s (sub32 (serializer_get_pos s % 2 ^ 32) 1)

-- `flv_video` of data that is neither NULL nor empty.
pub flv_video : EncoderPacket → Bool → List ℕ → List ℕ → List ℕ
flv_video packet is_header bytes s =
    let s1 = tag_start 9 (add32 (length bytes % 2 ^ 32) 5) (packet.pts % 2 ^ 32) s in
    let s2 = s_w8 s1 (if packet.keyframe then 23 else 39) in
    let s3 = s_wb24 (s_w8 s2 (if is_header then 0 else 1)) 0 in tag_end (s_write s3 bytes)

-- `flv_audio` of such data.
pub flv_audio : EncoderPacket → Bool → List ℕ → List ℕ → List ℕ
flv_audio packet is_header bytes s =
    let extra_byte = if is_header then 0 else 2 in
    let s1 = tag_start 8 (add32 (length bytes % 2 ^ 32) extra_byte) (packet.pts % 2 ^ 32) s in
    let s2 = if is_header then s1 else s_w8 (s_w8 s1 175) 1 in tag_end (s_write s2 bytes)

-- `flv_packet_mux`, with the early returns of `flv_video` and `flv_audio`.
pub flv_packet_mux : EncoderPacket → Bool → List ℕ
flv_packet_mux packet is_header = elim packet.payload [
  | none ↦ []
  | some [] ↦ []
  | some (b ∷ bs) ↦ elim packet.kind [
    | encoder_video ↦ flv_video packet is_header (b ∷ bs) []
    | encoder_audio ↦ flv_audio packet is_header (b ∷ bs) []
  ]
]

-- `flv_meta_data`, with the bytes that `build_flv_meta_data` encodes.
pub flv_meta_data : List ℕ → Bool → List ℕ
flv_meta_data meta_data write_header =
    let header = s_wb32 (s_wb32 (s_w8 (s_w8 (s_write [] (70 ∷ 76 ∷ 86 ∷ [])) 1) 5) 9) 0 in
    let s = if write_header then header else [] in
    let start_pos = serializer_get_pos s % 2 ^ 32 in
    let s1 = s_wb24 (s_wb32 (s_wb24 (s_w8 s 18) (length meta_data % 2 ^ 32)) 0) 0 in
    let s2 = s_write s1 meta_data in
    s_wb32 s2 (sub32 (sub32 (serializer_get_pos s2 % 2 ^ 32) start_pos) 1)
