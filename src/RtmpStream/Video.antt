-- ===== src/RtmpStream/Video.antt =====
-- H.264 packets with start codes, sent with lengths.
use mgw.Prelude.{
  ℕ, ◌+◌, ◌-◌, ◌%◌, ◌^◌, ◌≤◌, ◌<◌, ◌≡◌, ◌∙◌, refl, sym, ap, inl, inr, Bool, true, false, Option,
  some, List, [], ◌∷◌, ◌==◌, sub64, subst, Bool-cases, arith,
}
use mgw.Codec.Startcode.{Bytes}
use mgw.Codec.Startcode.Loops.{Clear, Starts}
use mgw.Codec.Nals.{bytes_at, nal_type}
use mgw.Codec.Nals.Stream.{Stream, Prefix, Stream-le}
use mgw.Codec.Nals.Get.{get_keyframe}
use mgw.Codec.Nals.Get.Keyframe.{Prefix-le, key_of, get_keyframe-Stream, get_keyframe_missed}
use mgw.Codec.Startcode.Search.{get_startcode_len_three, get_startcode_len_four}
use mgw.Flv.{encoder_video}
use mgw.RtmpStream.{
  SendPacket, RtmpStream, put_be32, send_packet_internal, send_packet, send_key_frame,
}
use mgw.RtmpStream.Sends.{
  read_unit, read_unit-put_be32, length-bytes_at, Sends, InStream, stream_time,
  send_packet_internal-Sends,
}

-- The call sends the unit in a video tag, behind its length.
abbrev pub SendsUnit : RtmpStream → Bool → ℕ → List ℕ → Bool × RtmpStream → Type 0
SendsUnit s keyframe pts nal r =
    (unit : List ℕ) × Sends s encoder_video keyframe false (stream_time s pts) unit r
    × (read_unit unit ≡ some nal)

-- The unit found is behind the start, at least by a start code, and before the end.
key_of-inside :
    (m : Bytes) (end p k : ℕ) (units : List (ℕ × ℕ))
    → Stream m end p units
    → key_of m units ≡ some k
    → (p + 3 ≤ k) × (k < end)
key_of-inside m end p k [] h f = ground (arith, f)
key_of-inside m end p k ((s, e) ∷ units) (pre, lt, h0, z, c, rest) f =
    elim (Bool-cases (5 == nal_type m s)) [
      | inl t ↦ ground (arith, t, f, Prefix-le m p s pre, Stream-le m end e units rest)
      | inr t ↦
          let later : key_of m units ≡ some k = ground (arith, t, f) in
          let (low, high) = key_of-inside m end e k units rest later in
          (omega (arith, Prefix-le m p s pre), high)
    ]

module _ (rtmp_write : List ℕ → Bool) (s : RtmpStream) where
  -- A unit of `n` bytes at `start + 4`, with its length written before it.
  sends_unit :
      (m : Bytes) (start n pts : ℕ) (keyframe : Bool)
      → 0 < n
      → n + 9 < 2 ^ 24
      → InStream s pts
      → SendsUnit s keyframe pts (bytes_at m (start + 4) n) (
          send_packet_internal rtmp_write true
            (bytes_at (put_be32 m start n) start (n + 4))
            encoder_video
            keyframe
            false
            pts
            s)
  sends_unit m start n pts keyframe h l t =
      let size = length-bytes_at (put_be32 m start n) start (n + 4) in
      (
        bytes_at (put_be32 m start n) start (n + 4),
        send_packet_internal-Sends rtmp_write s _ encoder_video keyframe pts (omega (arith, size))
            (omega (arith, size)) t,
        read_unit-put_be32 m start n (omega arith),
      )

  -- A call that does so on a unit of the size `size`, as the code computes it.
  sends_at :
      (m : Bytes) (start n size whole nal_start nal_size pts : ℕ) (keyframe : Bool)
      (r : Bool × RtmpStream)
      → r
        ≡ send_packet_internal rtmp_write true
            (bytes_at (put_be32 m start size) start whole)
            encoder_video
            keyframe
            false
            pts
            s
      → size ≡ n
      → whole ≡ n + 4
      → start + 4 ≡ nal_start
      → n ≡ nal_size
      → 0 < n
      → n + 9 < 2 ^ 24
      → InStream s pts
      → SendsUnit s keyframe pts (bytes_at m nal_start nal_size) r
  sends_at m start n size whole nal_start nal_size pts keyframe r e a b c d h l t =
      let same : bytes_at (put_be32 m start size) start whole
          ≡ bytes_at (put_be32 m start n) start (n + 4) =
        ap (λ x. bytes_at (put_be32 m start x) start whole) a
        ∙ ap (λ x. bytes_at (put_be32 m start n) start x) b in
      let sent =
        ap (λ x. send_packet_internal rtmp_write true x encoder_video keyframe false pts s) same in
      subst (λ x. SendsUnit s keyframe pts x r)
        (ap (λ x. bytes_at m x n) c ∙ ap (bytes_at m nal_start) d)
        (subst (SendsUnit s keyframe pts (bytes_at m (start + 4) n)) (sym (e ∙ sent))
          (sends_unit m start n pts keyframe h l t))

  -- A video packet that begins with a start code, of three or of four bytes, is sent as one video tag at its time in the stream,
  -- whose unit, behind its length, is byte for byte what stood behind the start code. Conditions: the packet is longer than the
  -- start code and shorter than 2^24 - 6 bytes, received data could be read away, and the stream has begun no later than the packet and at most 2^31 ms
  -- before it.
  pub send_packet-SendsUnit :
      (m : Bytes) (p : SendPacket) (start : ℕ)
      → p.kind ≡ encoder_video
      → Prefix m p.address start
      → start < p.address + p.size
      → p.size + 6 < 2 ^ 24
      → 0 < p.address
      → InStream s p.pts
      → SendsUnit s p.keyframe p.pts
          (bytes_at m start (p.address + p.size - start))
          (send_packet rtmp_write true m p s)
  unfolding send_packet
  send_packet-SendsUnit m p start video (inl (at, code)) lt l pos_address t =
      let three = get_startcode_len_three m p.address code in
      sends_at m (p.address - 1) (p.size - 3) (sub64 p.size 3 % 2 ^ 32) (p.size + 1) start
        (p.address + p.size - start) p.pts p.keyframe _ (ground (arith, video, three)) (omega arith)
        (omega arith) (omega arith) (omega arith) (omega arith) (omega arith) t
  send_packet-SendsUnit m p start video (inr (at, z, code)) lt l pos_address t =
      let four = get_startcode_len_four m p.address z code in
      sends_at m p.address (p.size - 4) (sub64 p.size 4 % 2 ^ 32) p.size start
        (p.address + p.size - start) p.pts p.keyframe _ (ground (arith, video, four)) (omega arith)
        (omega arith) (omega arith) (omega arith) (omega arith) (omega arith) t

  -- A key frame whose bytes are a byte stream of NAL units, the first behind a start code of four bytes, is sent as one video tag at
  -- its time in the stream, whose unit goes from the first unit of type 5 to the end of the stream. Conditions: there is
  -- such a unit, it is shorter than 2^24 - 9 bytes, received data could be read away, and the stream has begun no later than the packet and at
  -- most 2^31 ms before it.
  pub send_key_frame-SendsUnit :
      (m : Bytes) (p : SendPacket) (start e k : ℕ) (units : List (ℕ × ℕ))
      → p.kind ≡ encoder_video
      → p.address + p.size < 2 ^ 64
      → start ≡ p.address + 4
      → Starts m (p.address + 1)
      → Stream m (p.address + p.size) p.address ((start, e) ∷ units)
      → key_of m ((start, e) ∷ units) ≡ some k
      → p.address + p.size + 9 < k + 2 ^ 24
      → 0 < p.address
      → InStream s p.pts
      → SendsUnit s p.keyframe p.pts
          (bytes_at m k (p.address + p.size - k))
          (send_key_frame rtmp_write true m p s)
  unfolding send_key_frame
  send_key_frame-SendsUnit m p start e k units video word at code h f l pos_address t =
      let end : ℕ = p.address + p.size in
      let (low, high) = key_of-inside m end p.address k ((start, e) ∷ units) h f in
      let size : end - p.address ≡ p.size = omega arith in
      let found : get_keyframe m p.address p.size ≡ (some k, end - k) =
        subst (λ x. get_keyframe m p.address x ≡ (some k, end - k)) size
          (get_keyframe-Stream m p.address end start e k units word at code h f) in
      let some_size : (end - k == 0) ≡ false = ground (arith, high) in
      sends_at m (k - 4) (end - k) ((end - k) % 2 ^ 32) (end - k + 4) k (end - k) p.pts p.keyframe _
        (ground (
          arith,
          video,
          ap (λ (r : Option ℕ × ℕ). r.0) found,
          ap (λ (r : Option ℕ × ℕ). r.1) found,
          some_size,
        ))
        (omega arith) (omega arith) (omega arith) (omega arith) (omega arith) (omega arith) t

  -- A key frame with a single start code, of three bytes, is not sent, and the sender reports no error.
  pub send_key_frame_dropped :
      (m : Bytes) (p : SendPacket)
      → Starts m p.address
      → nal_type m (p.address + 3) ≡ 5
      → Clear m (p.address + 1) (p.address + p.size + 2)
      → send_key_frame rtmp_write true m p s ≡ (true, s)
  unfolding send_key_frame
  send_key_frame_dropped m p code type c =
      rw (get_keyframe_missed m p.address p.size c, send_key_frame) refl
