-- ===== src/RtmpStream/Tests.antt =====
-- Packets sent by a stream whose first packet was at 1 second.
use mgw.Prelude.{
  Bool, ◌<◌, ◌^◌, ◌≤◌, ◌-◌, ℕ, ◌≡◌, refl, inl, inr, true, false, none, some, List, [], ◌∷◌, get_or,
  ltb, if◌then◌else◌, ◌==◌, arith,
}
use mgw.Codec.Startcode.{Bytes, get_startcode_len}
use mgw.Codec.Nals.Stream.{Stream}
use mgw.Codec.Aac.{add_adts, get_samplerate_index, get_aac_lc_header}
use mgw.Flv.{encoder_audio, encoder_video}
use mgw.RtmpStream.{
  SendPacket, RtmpStream, SourceInfo, skip_adts, send_packet, send_key_frame, send_audio_header,
  send_one, leave_thread, send_packet_internal, write_tag, send_round,
}
use mgw.RtmpStream.Sends.{Sends, InStream}
use mgw.RtmpStream.Video.{
  SendsUnit, send_packet-SendsUnit, send_key_frame-SendsUnit, send_key_frame_dropped,
}
use mgw.RtmpStream.Audio.{object_type, send_audio_header-IsDoubled}
use mgw.Source.{Source, mgw_source_set_audio_extra_data, get_header_internal}
use mgw.RtmpStream.Counts.{total_length, IsCounted, Counts, send_round-Counts}
use mgw.RtmpStream.Times.{OnTime, Rounds, begin, round, Rounds-OnTime}
use mgw.RtmpStream.Adts.{send_packet-add_adts}

abbrev begun : RtmpStream
begun = record {
  sent_headers = true;
  total_bytes_sent = 0;
  start_dts_offset = 1000;
  sent_frames = 4;
  last_dts = 40;
  written = [];
}

abbrev fresh : RtmpStream
fresh = record {
  sent_headers = false;
  total_bytes_sent = 0;
  start_dts_offset = 0;
  sent_frames = 0;
  last_dts = 0;
  written = [];
}

begun-InStream : InStream begun 2000000
begun-InStream = record {
  begun = λ e. ground arith;
  after = omega arith;
  near = omega arith;
  word = omega arith;
}

-- The bytes of a slice from address 10 on.
abbrev slice : Bytes
slice p = get_or (0 ∷ 0 ∷ 0 ∷ 0 ∷ 0 ∷ 0 ∷ 0 ∷ 0 ∷ 0 ∷ 0 ∷ 0 ∷ 0 ∷ 1 ∷ 65 ∷ 7 ∷ 7 ∷ []) p 9

abbrev slice_packet : SendPacket
slice_packet = record {
  address = 10;
  size = 6;
  pts = 2000000;
  kind = encoder_video;
  keyframe = false;
  priority = 1;
}

send_packet-SendsUnit_example :
    SendsUnit begun false 2000000
      (65 ∷ 7 ∷ 7 ∷ [])
      (send_packet (λ b. true) true slice slice_packet begun)
send_packet-SendsUnit_example =
    send_packet-SendsUnit (λ b. true) begun slice slice_packet 13 refl (inl (refl, refl))
      (omega arith) (omega arith) (omega arith) begun-InStream

-- A set of parameters and a key frame, each behind four bytes, from address 4 up to 16.
abbrev key : Bytes
key q =
    if ltb q 7
    then 0
    else if q == 7
    then 1
    else if ltb q 10
    then 103
    else if ltb q 13
    then 0
    else if q == 13
    then 1
    else if q == 14
    then 101
    else 8

abbrev key_packet : SendPacket
key_packet = record {
  address = 4;
  size = 12;
  pts = 2000000;
  kind = encoder_video;
  keyframe = true;
  priority = 2;
}

key-Stream : Stream key 16 4 ((8, 10) ∷ (14, 16) ∷ [])
key-Stream = (
  inr (refl, refl, refl),
  omega arith,
  (λ h. omega arith),
  (λ h. omega arith),
  (λ q a b. ground arith),
  (
    inr (refl, refl, refl),
    omega arith,
    (λ h. omega arith),
    (λ h. omega arith),
    (λ q a b. ground arith),
    refl,
  ),
)

send_key_frame-SendsUnit_example :
    SendsUnit begun true 2000000
      (101 ∷ 8 ∷ [])
      (send_key_frame (λ b. true) true key key_packet begun)
send_key_frame-SendsUnit_example =
    send_key_frame-SendsUnit (λ b. true) begun key key_packet 8 10 14 ((14, 16) ∷ []) refl
      (omega arith) refl refl key-Stream refl (omega arith) (omega arith) begun-InStream

-- A key frame behind three bytes, from address 10 on.
abbrev short_code : Bytes
short_code q = if ltb q 12 then 0 else if q == 12 then 1 else 101

abbrev short_packet : SendPacket
short_packet = record {
  address = 10;
  size = 6;
  pts = 2000000;
  kind = encoder_video;
  keyframe = true;
  priority = 2;
}

send_key_frame_dropped_example :
    send_key_frame (λ b. true) true short_code short_packet begun ≡ (true, begun)
send_key_frame_dropped_example =
    send_key_frame_dropped (λ b. true) begun short_code short_packet refl refl λ q a b. ground arith

abbrev private_source : Source
private_source = record {
  is_private = true;
  info_impl = false;
  is_h264 = true;
  audio_header = [];
  video_header = [];
  buffer = none;
}

abbrev private_info : SourceInfo
private_info = record {
  settings = some (2, 16);
  audio_header =
      get_header_internal (λ k. []) (mgw_source_set_audio_extra_data 2 16 44100 private_source)
        encoder_audio;
  video_header = none;
}

send_audio_header-IsDoubled_example :
    Sends fresh encoder_audio false true 0
      (175 ∷ 0 ∷ 175 ∷ 0 ∷ get_aac_lc_header 2 16 44100)
      (send_audio_header (λ b. true) true private_info 0 fresh)
    × (object_type (175 ∷ 0 ∷ get_aac_lc_header 2 16 44100) ≡ 21)
    × (object_type (get_aac_lc_header 2 16 44100) ≡ 2)
unfolding get_samplerate_index
send_audio_header-IsDoubled_example =
    send_audio_header-IsDoubled (λ b. true) fresh private_info private_source (λ k. []) 2 16 44100
      refl (λ e. ground arith) refl refl refl

-- An ADTS frame of the data 33, 16, 4 from address 20 on.
abbrev adts : Bytes
adts p = get_or (255 ∷ 241 ∷ 80 ∷ 128 ∷ 1 ∷ 95 ∷ 252 ∷ 33 ∷ 16 ∷ 4 ∷ []) (p - 20) 0

abbrev adts_packet : SendPacket
adts_packet = record {
  address = 20;
  size = 10;
  pts = 2000000;
  kind = encoder_audio;
  keyframe = false;
  priority = 0;
}

send_packet-add_adts_example :
    Sends begun encoder_audio false false 1000
      (33 ∷ 16 ∷ 4 ∷ [])
      (send_packet (λ b. true) true adts adts_packet begun)
unfolding add_adts get_samplerate_index
send_packet-add_adts_example =
    send_packet-add_adts (λ b. true) begun adts adts_packet 44100 2 2 (33 ∷ 16 ∷ 4 ∷ []) refl refl
      (omega arith) (omega arith) begun-InStream

abbrev live_source : SourceInfo
live_source = record {
  settings = some (2, 16);
  audio_header = some (18 ∷ 16 ∷ []);
  video_header = some (1 ∷ 100 ∷ 0 ∷ 31 ∷ []);
}

-- The first round of a stream.
send_round-Counts_example :
    Counts fresh (send_round (λ b. true) true true live_source slice slice_packet fresh)
unfolding IsCounted total_length
send_round-Counts_example =
    send_round-Counts (λ b. true) true true live_source slice slice_packet fresh refl

begun-OnTime : OnTime 1100000 begun
begun-OnTime = record {
  headers = refl;
  begun = λ e. ground arith;
  after = omega arith;
  last = omega arith;
  word = omega arith;
}

abbrev headers_only : RtmpStream
headers_only = record fresh { sent_headers = true }

abbrev low_packet : SendPacket
low_packet = record key_packet { priority = 1 }

-- A round whose write fails, with the stop that follows it.
failed_round :
    (λ (r : Bool × RtmpStream).
        (r.0 ≡ false)
        × (r.1.sent_headers ≡ false)
        × (r.1.start_dts_offset ≡ 0)
        × (r.1.last_dts ≡ 0))
      (send_round (λ b. false) true true live_source adts adts_packet begun)
unfolding send_round send_one leave_thread send_packet skip_adts send_packet_internal write_tag
failed_round = (refl, refl, refl, refl)

-- Two rounds.
abbrev after_adts : RtmpStream
after_adts = (send_round (λ b. true) true true live_source adts adts_packet begun).1

abbrev after_both : RtmpStream
after_both = (send_round (λ b. true) true false live_source slice slice_packet after_adts).1

begun-Rounds : Rounds 1100000 begun 2000000 after_both
unfolding send_round send_one send_packet skip_adts send_packet_internal write_tag get_startcode_len
begun-Rounds =
    round
      (round begin (λ b. true) true true live_source adts adts_packet (omega arith) (omega arith)
        refl)
      (λ b. true) true false live_source slice slice_packet (omega arith) (omega arith) refl

Rounds-OnTime_example :
    OnTime 2000000 after_both
    × (40 ≤ after_both.last_dts)
    × ((rtmp_write : List ℕ → Bool) (drained : Bool) (info : SourceInfo) (m : Bytes)
          (p : SendPacket)
        → 2000000 ≤ p.pts
        → p.pts < 2 ^ 63
        → after_both.last_dts ≤ (send_one rtmp_write drained info m p after_both).1.last_dts)
Rounds-OnTime_example = Rounds-OnTime begun-OnTime begun-Rounds
