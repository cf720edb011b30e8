-- ===== src/RtmpStream/Goes.antt =====
-- A relation that one tag keeps is kept by every call of the sender that writes tags.
use mgw.Prelude.{
  ℕ, ◌≡◌, sym, subst, Bool, true, false, Option, none, some, List, ◌==◌, if◌then◌else◌,
}
use mgw.Prelude.Int.{ℤ, pos, negsuc}
use mgw.Codec.Startcode.{Bytes, get_startcode_len}
use mgw.Codec.Nals.Get.{get_keyframe}
use mgw.Flv.{EncoderType, encoder_audio, encoder_video}
use mgw.RtmpStream.{
  SendPacket, RtmpStream, SourceInfo, send_packet_internal, send_packet, send_key_frame,
  send_audio_header, send_video_header, send_headers,
}

-- Whichever way a call goes.
module _ (Good : RtmpStream → Type 0) where
  pub good_if :
      (b : Bool) (r t : Bool × RtmpStream) → Good r.1 → Good t.1 → Good (if b then r else t).1
  good_if true r t h k = h
  good_if false r t h k = k

  pub good_kind :
      (kind : EncoderType) (r t : Bool × RtmpStream)
      → Good r.1
      → Good t.1
      → Good (elim kind as (λ k. Bool × RtmpStream) [ encoder_audio ↦ r | encoder_video ↦ t ]).1
  good_kind encoder_audio r t h k = h
  good_kind encoder_video r t h k = k

  good_option :
      {A : Type 0} (o : Option A) (r : Bool × RtmpStream) (t : A → Bool × RtmpStream)
      → Good r.1
      → ((x : A) → Good (t x).1)
      → Good (elim o as (λ k. Bool × RtmpStream) [ none ↦ r | some x ↦ t x ]).1
  good_option none r t h k = h
  good_option (some x) r t h k = k x

  good_code :
      (o : ℤ) (r t : ℕ → Bool × RtmpStream)
      → ((x : ℕ) → Good (r x).1)
      → ((x : ℕ) → Good (t x).1)
      → Good (elim o as (λ k. Bool × RtmpStream) [ negsuc x ↦ r x | pos x ↦ t x ]).1
  good_code (negsuc x) r t h k = h x
  good_code (pos x) r t h k = k x

-- `go` says that each call of `send_packet_internal` with the time `pts` keeps the relation.
module _ (rtmp_write : List ℕ → Bool) (drained : Bool) (pts : ℕ)
    (Goes : RtmpStream → RtmpStream → Type 0) (stays : (s : RtmpStream) → Goes s s)
    (goes_on : (s t u : RtmpStream) → Goes s t → Goes t u → Goes s u)
    (go : (payload : List ℕ) (kind : EncoderType) (keyframe is_header : Bool) (s : RtmpStream)
      → Goes s
          (send_packet_internal rtmp_write drained payload kind keyframe is_header pts s).1) where
  send_packet_internal-Goes :
      (payload : List ℕ) (kind : EncoderType) (keyframe is_header : Bool) (ts : ℕ) (s : RtmpStream)
      → ts ≡ pts
      → Goes s (send_packet_internal rtmp_write drained payload kind keyframe is_header ts s).1
  send_packet_internal-Goes payload kind keyframe is_header ts s e =
      subst
        (λ x.
          Goes s (send_packet_internal rtmp_write drained payload kind keyframe is_header x s).1)
        (sym e) (go payload kind keyframe is_header s)

  pub send_key_frame-Goes :
      (m : Bytes) (p : SendPacket) (s : RtmpStream)
      → p.pts ≡ pts
      → Goes s (send_key_frame rtmp_write drained m p s).1
  unfolding send_key_frame
  send_key_frame-Goes m p s e =
      let (nal, size) = get_keyframe m p.address p.size in
      good_option (Goes s) nal _ _ (stays s) (λ start.
        good_if (Goes s) (size == 0) _ _ (stays s)
          (send_packet_internal-Goes _ p.kind p.keyframe false p.pts s e))

  pub send_packet-Goes :
      (m : Bytes) (p : SendPacket) (s : RtmpStream)
      → p.pts ≡ pts
      → Goes s (send_packet rtmp_write drained m p s).1
  unfolding send_packet
  send_packet-Goes m p s e =
      good_kind (Goes s) p.kind _ _
        (send_packet_internal-Goes _ encoder_audio p.keyframe false p.pts s e)
        (good_code (Goes s) (get_startcode_len m p.address) _ _ (λ n. stays s)
          (λ k. send_packet_internal-Goes _ encoder_video p.keyframe false p.pts s e))

  send_audio_header-Goes :
      (info : SourceInfo) (s : RtmpStream)
      → Goes s (send_audio_header rtmp_write drained info pts s).1
  unfolding send_audio_header
  send_audio_header-Goes info s = good_option (Goes s) info.settings _ _ (stays s) (λ settings.
      good_option (Goes s) info.audio_header _ _ (stays s) (λ out. go _ encoder_audio false true s))

  send_video_header-Goes :
      (info : SourceInfo) (s : RtmpStream)
      → Goes s (send_video_header rtmp_write drained info pts s).1
  unfolding send_video_header
  send_video_header-Goes info s =
      good_option (Goes s) info.video_header _ _ (stays s) (λ out. go out encoder_video true true s)

  pub send_headers-Goes :
      (info : SourceInfo) (s : RtmpStream)
      → Goes (record s { sent_headers = true }) (send_headers rtmp_write drained info pts s).1
  unfolding send_headers
  send_headers-Goes info s =
      let s' : RtmpStream = record s { sent_headers = true } in
      let (sent, s1) = send_audio_header rtmp_write drained info pts s' in
      let audio = send_audio_header-Goes info s' in
      good_if (Goes s') sent _ _ (goes_on s' s1 _ audio (send_video_header-Goes info s1)) audio
