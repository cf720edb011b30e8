-- ===== src/RtmpStream/Adts.antt =====
-- AAC with an ADTS header, sent without it.
use mgw.Prelude.{
  ℕ, suc, ◌+◌, ◌^◌, ◌<◌, ◌≡◌, ◌∙◌, refl, sym, ap, subst, Bool, true, false, some, List, length,
  sub64, get_or, drop, arith,
}
use mgw.Codec.Startcode.{Bytes}
use mgw.Codec.Nals.{bytes_at}
use mgw.Codec.Aac.{add_adts}
use mgw.Codec.Aac.Leave.{length-add_adts, add_adts_second, add_adts_data}
use mgw.Flv.{encoder_audio}
use mgw.RtmpStream.{SendPacket, RtmpStream, skip_adts, send_packet}
use mgw.RtmpStream.Sends.{Sends, InStream, stream_time, send_packet_internal-Sends, length-bytes_at}

bytes_at-behind : (m : Bytes) (p n : ℕ) → drop 7 (bytes_at m p (n + 7)) ≡ bytes_at m (p + 7) n
bytes_at-behind m p n =
    let seven : n + 7 ≡ suc (suc (suc (suc (suc (suc (suc n)))))) = omega arith in
    let at : p + 1 + 1 + 1 + 1 + 1 + 1 + 1 ≡ p + 7 = omega arith in
    rw seven (ap (λ q. bytes_at m q n) at)

bytes_at_second : (m : Bytes) (p n : ℕ) → get_or (bytes_at m p (n + 7)) 1 0 ≡ m (p + 1)
bytes_at_second m p n =
    let seven : n + 7 ≡ suc (suc (suc (suc (suc (suc (suc n)))))) = omega arith in rw seven refl

-- An audio packet of the bytes that `mgw_aac_add_adts` writes before some data is sent as one audio tag at its time in the
-- stream, with the data alone. Conditions: the data are not empty and below 2^13 - 7 bytes, received data could be read away, and the stream has begun no later than the packet and at most 2^31 ms before it.
pub send_packet-add_adts :
    (rtmp_write : List ℕ → Bool) (s : RtmpStream) (m : Bytes) (p : SendPacket)
    (samplerate profile channels : ℕ) (xs : List ℕ)
    → p.kind ≡ encoder_audio
    → bytes_at m p.address p.size ≡ (add_adts samplerate profile channels (some xs)).1
    → 0 < length xs
    → 7 + length xs < 2 ^ 13
    → InStream s p.pts
    → Sends s encoder_audio p.keyframe false
        (stream_time s p.pts)
        xs
        (send_packet rtmp_write true m p s)
unfolding send_packet skip_adts
send_packet-add_adts rtmp_write s m p samplerate profile channels xs audio bytes h l t =
    let n = length xs in
    let size : p.size ≡ n + 7 =
      sym (length-bytes_at m p.address p.size)
      ∙ ap length bytes
      ∙ length-add_adts samplerate profile channels xs
      ∙ omega arith in
    let bytes' : bytes_at m p.address (n + 7) ≡ (add_adts samplerate profile channels (some xs)).1 =
      subst (λ z. bytes_at m p.address z ≡ (add_adts samplerate profile channels (some xs)).1) size
        bytes in
    let second : m (p.address + 1) ≡ 241 =
      sym (bytes_at_second m p.address n)
      ∙ ap (λ x. get_or x 1 0) bytes'
      ∙ add_adts_second samplerate profile channels xs in
    let body : bytes_at m (p.address + 7) n ≡ xs =
      sym (bytes_at-behind m p.address n)
      ∙ ap (drop 7) bytes'
      ∙ add_adts_data samplerate profile channels xs in
    let left : sub64 p.size 7 ≡ n = omega (arith, size) in
    rw (audio, second, left, body)
      (send_packet_internal-Sends rtmp_write s xs encoder_audio p.keyframe p.pts h (omega arith) t)
