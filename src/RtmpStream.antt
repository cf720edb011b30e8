-- ===== src/RtmpStream.antt =====
-- plugins/outputs/rtmp-stream.c: packets read from the ring are sent as FLV tags, H.264 with lengths
-- in the place of start codes.
pub mod Sends
pub mod Video
pub mod Audio
pub mod Adts
pub mod Goes
pub mod Counts
pub mod Times
pub mod Back
mod Tests
use mgw.Prelude.{
  ℕ, ◌+◌, ◌-◌, ◌*◌, ◌/◌, ◌%◌, ◌^◌, Bool, true, false, ◌&&◌, ◌||◌, not, Option, none, some, List, [],
  ◌∷◌, ◌++◌, length, ltb, ◌==◌, if◌then◌else◌, sub64,
}
use mgw.Prelude.Int.{pos, negsuc}
use mgw.Codec.Startcode.{Bytes, get_startcode_len}
use mgw.Codec.Nals.{bytes_at}
use mgw.Codec.Nals.Get.{get_keyframe}
use mgw.Flv.{EncoderType, encoder_audio, encoder_video, EncoderPacket, flv_packet_mux}

-- `struct encoder_packet` as the sender uses it: `data` is an address, `pts` not negative.
pub record SendPacket : Type 0 where
  pub address : ℕ
  pub size : ℕ
  pub pts : ℕ
  pub kind : EncoderType
  pub keyframe : Bool
  pub priority : ℕ

-- `struct rtmp_stream`, the fields that sending uses, and what `RTMP_Write` was called with, in order.
pub record RtmpStream : Type 0 where
  pub sent_headers : Bool
  pub total_bytes_sent : ℕ
  pub start_dts_offset : ℕ
  pub sent_frames : ℕ
  pub last_dts : ℕ
  pub written : List (List ℕ)

-- `put_be32` at an address.
pub put_be32 : Bytes → ℕ → ℕ → Bytes
put_be32 m p n q =
    if q == p
    then n / 2 ^ 24 % 2 ^ 8
    else if q == p + 1
    then n / 2 ^ 16 % 2 ^ 8
    else if q == p + 2
    then n / 2 ^ 8 % 2 ^ 8
    else if q == p + 3
    then n % 2 ^ 8
    else m q

-- What the source's handlers "get_encoder_settings", "get_audio_header" and "get_video_header" answer:
-- none is an error. The settings are the channels and the sample size.
pub record SourceInfo : Type 0 where
  pub settings : Option (ℕ × ℕ)
  pub audio_header : Option (List ℕ)
  pub video_header : Option (List ℕ)

-- FRAME_PRIORITY_LOW.
abbrev pub frame_priority_low : ℕ
frame_priority_low = 1

-- `rtmp_write` says whether RTMP_Write of the bytes is positive, `drained` whether what the peer sent
-- could be read away.
module _ (rtmp_write : List ℕ → Bool) (drained : Bool) where
  -- The end of `send_packet_internal`, at the time `tick` in milliseconds.
  pub write_tag : List ℕ → EncoderType → Bool → Bool → ℕ → RtmpStream → Bool × RtmpStream
  write_tag payload kind keyframe is_header tick s =
      let dts = sub64 tick s.start_dts_offset in
      let bytes =
        flv_packet_mux
          (record { payload = some payload; pts = dts; kind = kind; keyframe = keyframe })
          is_header in
      if drained
      then (
        rtmp_write bytes,
        record s {
          last_dts = dts;
          total_bytes_sent = s.total_bytes_sent + length bytes;
          written = s.written ++ bytes ∷ [];
        },
      )
      else (false, s)

  -- `send_packet_internal` of the bytes `payload`.
  pub send_packet_internal : List ℕ → EncoderType → Bool → Bool → ℕ → RtmpStream → Bool × RtmpStream
  unfolding write_tag
  send_packet_internal payload kind keyframe is_header pts s =
      let tick = pts / 1000 in
      let begin =
        write_tag payload kind keyframe is_header tick (record s { start_dts_offset = tick }) in
      let go = write_tag payload kind keyframe is_header tick s in
      if (s.start_dts_offset == 0) && not is_header
      then elim kind [ encoder_video ↦ begin | encoder_audio ↦ (true, s) ]
      else go

  -- `send_key_frame`.
  pub send_key_frame : Bytes → SendPacket → RtmpStream → Bool × RtmpStream
  unfolding send_packet_internal put_be32
  send_key_frame m p s =
      let (nal, size) = get_keyframe m p.address p.size in
      elim nal [
        | none ↦ (true, s)
        | some start ↦
            let m' = put_be32 m (start - 4) (size % 2 ^ 32) in
            let payload = bytes_at m' (start - 4) (size + 4) in
            let sent = send_packet_internal payload p.kind p.keyframe false p.pts s in
            if size == 0 then (true, s) else sent
      ]

  -- The audio branch of `send_packet`: the address and the size without the ADTS header.
  pub skip_adts : Bytes → SendPacket → ℕ × ℕ
  skip_adts m p =
      let d = p.address in
      let packet_len = m (d + 3) % 4 * 2 ^ 11 + m (d + 4) * 2 ^ 3 + m (d + 5) / 2 ^ 5 in
      if m (d + 1) % 2 == 0
      then if p.size == packet_len then (d + 9, sub64 p.size 9) else (d, p.size)
      else (d + 7, sub64 p.size 7)

  -- `send_packet`.
  pub send_packet : Bytes → SendPacket → RtmpStream → Bool × RtmpStream
  unfolding send_packet_internal put_be32 skip_adts
  send_packet m p s =
      let (start, size) = skip_adts m p in
      let three =
        bytes_at (put_be32 m (p.address - 1) (sub64 p.size 3 % 2 ^ 32)) (p.address - 1)
          (p.size + 1) in
      let four = bytes_at (put_be32 m p.address (sub64 p.size 4 % 2 ^ 32)) p.address p.size in
      elim p.kind [
        | encoder_audio ↦
            send_packet_internal (bytes_at m start size) encoder_audio p.keyframe false p.pts s
        | encoder_video ↦ elim (get_startcode_len m p.address) [
          | negsuc n ↦ (true, s)
          | pos k ↦
              send_packet_internal (if k == 3 then three else four) encoder_video p.keyframe false
                p.pts s
        ]
      ]

  -- `send_audio_header`, for a header of at most six bytes: `header` has eight.
  pub send_audio_header : SourceInfo → ℕ → RtmpStream → Bool × RtmpStream
  unfolding send_packet_internal
  send_audio_header info ts s = elim info.settings [
    | none ↦ (false, s)
    | some (channels, samplesize) ↦
        let wide = if samplesize == 8 then 173 else 175 in
        let flags = if channels == 1 then wide - wide % 2 else wide in
        elim info.audio_header [
          | none ↦ (false, s)
          | some out ↦ send_packet_internal (flags ∷ 0 ∷ out) encoder_audio false true ts s
        ]
  ]

  -- `send_video_header`.
  pub send_video_header : SourceInfo → ℕ → RtmpStream → Bool × RtmpStream
  unfolding send_packet_internal
  send_video_header info ts s = elim info.video_header [
    | none ↦ (false, s)
    | some out ↦ send_packet_internal out encoder_video true true ts s
  ]

  -- `send_headers`.
  pub send_headers : SourceInfo → ℕ → RtmpStream → Bool × RtmpStream
  unfolding send_audio_header send_video_header
  send_headers info ts s =
      let (sent, s1) = send_audio_header info ts (record s { sent_headers = true }) in
      if sent then send_video_header info ts s1 else (false, s1)

  -- The body of the loop of `send_thread` for a packet that it got, up to its count of frames: false is the jump of
  -- SET_DISCONNECT to `error`.
  pub send_one : SourceInfo → Bytes → SendPacket → RtmpStream → Bool × RtmpStream
  unfolding send_headers send_key_frame send_packet
  send_one info m p s =
      let is_video : Bool = elim p.kind [ encoder_video ↦ true | encoder_audio ↦ false ] in
      let switched = (p.priority == frame_priority_low) && (p.keyframe && is_video) in
      let headers = send_headers info (if s.sent_headers then p.pts else 0) s in
      let (ready, s1) = if not s.sent_headers || switched then headers else (true, s) in
      let (sent, s2) =
        if p.keyframe && is_video then send_key_frame m p s1 else send_packet m p s1 in
      if not ready
      then (false, s1)
      else if sent
      then (true, record s2 { sent_frames = s2.sent_frames + 1 })
      else (false, s2)

  -- The end of `send_thread`, behind `error`. `stops` says whether "signal_stop" makes the output call `rtmp_stream_stop`, as it does
  -- to connect again, and as nothing does once the attempts are used up.
  pub leave_thread : Bool → RtmpStream → RtmpStream
  leave_thread stops s =
      let reset : RtmpStream = record s { last_dts = 0; start_dts_offset = 0 } in
      let stopped = if stops then reset else s in record stopped { sent_headers = false }

  -- A round of `send_thread` for a packet that it got, with the end of the thread where the round disconnects: then it is false.
  pub send_round : Bool → SourceInfo → Bytes → SendPacket → RtmpStream → Bool × RtmpStream
  unfolding send_one leave_thread
  send_round stops info m p s =
      let (going, s') = send_one info m p s in
      if going then (true, s') else (false, leave_thread stops s')
