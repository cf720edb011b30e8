-- ===== src/Flv/Tests.antt =====
-- A key frame of three bytes at the time 1000, and meta data of two bytes.
use mgw.Prelude.{◌≡◌, refl, true, false, some, none, [], ◌∷◌, arith}
use mgw.Flv.{EncoderPacket, encoder_video, flv_packet_mux}
use mgw.Flv.Tag.{read_tag, flv_packet_mux-read_tag}

abbrev key_frame : EncoderPacket
key_frame = record {
  payload = some (101 ∷ 136 ∷ 132 ∷ []);
  pts = 1000;
  kind = encoder_video;
  keyframe = true;
}

empty_frame : flv_packet_mux (record key_frame { payload = some [] }) false ≡ []
unfolding flv_packet_mux
empty_frame = refl

no_data : flv_packet_mux (record key_frame { payload = none }) false ≡ []
unfolding flv_packet_mux
no_data = refl

flv_packet_mux-read_tag_example :
    read_tag (flv_packet_mux key_frame false)
    ≡ some record {
      kind = 9;
      timestamp = 1000;
      stream_id = 0;
      body = 23 ∷ 1 ∷ 0 ∷ 0 ∷ 0 ∷ 101 ∷ 136 ∷ 132 ∷ [];
      tag_size = 18;
    }
flv_packet_mux-read_tag_example =
    flv_packet_mux-read_tag key_frame false 101 (136 ∷ 132 ∷ []) refl (omega arith) (omega arith)
