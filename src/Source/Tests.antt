-- ===== src/Source/Tests.antt =====
-- A key frame written to a private source.
use mgw.Prelude.{ℕ, ◌≡◌, refl, true, false, Option, none, some, List, [], ◌∷◌, arith}
use mgw.Codec.Nals.{bytes_at}
use mgw.Codec.Nals.Samples.{stream, stream_bytes, stream-Stream}
use mgw.Codec.Nals.Header.{read_avc_config}
use mgw.Flv.{EncoderType, encoder_audio, encoder_video}
use mgw.StreamBuff.Samples.{three}
use mgw.PacketRing.{RingBuffer}
use mgw.RtmpStream.{frame_priority_low}
use mgw.Source.{
  Source, SourcePacket, get_header_internal, mgw_source_set_audio_extra_data, store_packet,
  mgw_source_write_packet,
}
use mgw.Source.Written.{mgw_source_write_packet-Stream}

abbrev ring : RingBuffer
ring = record { sort = false; reader = none; sort_list = none }

abbrev private_source : Source
private_source = record {
  is_private = true;
  info_impl = false;
  is_h264 = true;
  audio_header = [];
  video_header = [];
  buffer = some ring;
}

abbrev key_packet : SourcePacket
key_packet = record {
  address = 100;
  size = 18;
  pts = 40;
  kind = encoder_video;
  keyframe = true;
  priority = 2;
}

no_ring :
    mgw_source_write_packet 12 4 stream key_packet (record private_source { buffer = none }) three
    ≡ some (record private_source { buffer = none }, three)
unfolding mgw_source_write_packet
no_ring = refl

-- A source of a plugin hands out what the plugin answers.
plugin_header :
    get_header_internal
      (λ k. 1 ∷ [])
      (record private_source { is_private = false; info_impl = true })
      encoder_audio
    ≡ some (1 ∷ [])
unfolding get_header_internal
plugin_header = refl

no_plugin :
    mgw_source_set_audio_extra_data 2 16 44100 (record private_source { is_private = false })
    ≡ record private_source { is_private = false }
unfolding mgw_source_set_audio_extra_data
no_plugin = refl

mgw_source_write_packet-Stream_example :
    (header : List ℕ) × (mgw_source_write_packet 12 4 stream key_packet private_source three
      ≡ store_packet 12 stream
          (record key_packet { priority = frame_priority_low })
          ring
          three
          (record private_source { video_header = header }))
    × ((get_extra_data : EncoderType → List ℕ) (buffer : Option RingBuffer)
        → get_header_internal get_extra_data
            (record private_source { video_header = header; buffer = buffer })
            encoder_video
          ≡ some header)
    × (read_avc_config header
        ≡ some (record {
          version = 1;
          profile = stream 105;
          compatibility = stream 106;
          level = stream 107;
          length_size = 4;
          sps = bytes_at stream 104 4;
          pps = bytes_at stream 111 2;
        }))
mgw_source_write_packet-Stream_example =
    mgw_source_write_packet-Stream 12 4 stream key_packet private_source ring three 104 108
      ((111, 113) ∷ (116, 118) ∷ []) 104 108 111 113 refl refl refl refl refl refl stream_bytes
      (omega arith) stream-Stream (omega arith) refl refl (omega arith) (omega arith) (omega arith)
