-- ===== src/PacketRing/Kinds.antt =====
-- What a packet keeps on its way through a frame.
use mgw.Prelude.{◌≡◌, refl, true, false, length, Bool}
use mgw.StreamBuff.{
  FrameType, frame_unknown, frame_i, frame_b, frame_p, frame_idr, frame_sei, frame_sps, frame_pps,
  frame_aac, frame_vps,
}
use mgw.StreamBuff.Reader.{got}
use mgw.Flv.{EncoderType, encoder_audio, encoder_video}
use mgw.PacketRing.{
  Packet, frame_type, type_code, code_type, buff_frame, sort_frame, sorted_frame, encoder_of,
  is_key_type, received,
}

-- The packet that a reader of it gets: no audio packet is a key frame, and the size is set.
abbrev pub as_read : Packet → Packet
as_read p = record p {
  size = length p.packet_data;
  keyframe = elim p.encoder [ encoder_audio ↦ false | encoder_video ↦ p.keyframe ];
}

encoder_of-frame_type : (e : EncoderType) (k : Bool) → encoder_of (frame_type e k) ≡ e
unfolding encoder_of frame_type
encoder_of-frame_type encoder_audio k = refl
encoder_of-frame_type encoder_video true = refl
encoder_of-frame_type encoder_video false = refl

is_key_type-frame_type :
    (e : EncoderType) (k : Bool)
    → is_key_type (frame_type e k) ≡ elim e [ encoder_audio ↦ false | encoder_video ↦ k ]
unfolding is_key_type frame_type
is_key_type-frame_type encoder_audio k = refl
is_key_type-frame_type encoder_video true = refl
is_key_type-frame_type encoder_video false = refl

code_type-type_code : (t : FrameType) → code_type (type_code t) ≡ t
unfolding code_type type_code
code_type-type_code frame_unknown = refl
code_type-type_code frame_i = refl
code_type-type_code frame_b = refl
code_type-type_code frame_p = refl
code_type-type_code frame_idr = refl
code_type-type_code frame_sei = refl
code_type-type_code frame_sps = refl
code_type-type_code frame_pps = refl
code_type-type_code frame_aac = refl
code_type-type_code frame_vps = refl

pub received-got : (p q : Packet) → received (got (buff_frame p)) q ≡ as_read p
unfolding received buff_frame
received-got p q =
    rw (encoder_of-frame_type p.encoder p.keyframe, is_key_type-frame_type p.encoder p.keyframe)
      refl

-- The sorter hands on the frame that it was given.
pub sorted-sort_frame : (p : Packet) → sorted_frame (sort_frame p) ≡ buff_frame p
unfolding sorted_frame sort_frame buff_frame
sorted-sort_frame p = rw (code_type-type_code (frame_type p.encoder p.keyframe)) refl
