-- ===== src/RtmpStream/Sends.antt =====
-- What the sender writes, read back.
use mgw.Prelude.{
  ℕ, zero, suc, ◌+◌, ◌-◌, ◌/◌, ◌%◌, ◌^◌, ◌≤◌, ◌<◌, ◌≡◌, ◌≢◌, ◌∙◌, refl, ap, Bool, true, false,
  Option, none, some, List, [], ◌∷◌, ◌++◌, length, ◌==◌, if◌then◌else◌, sub64, subst, arith,
}
use mgw.Codec.Startcode.{Bytes}
use mgw.Codec.Nals.{bytes_at}
use mgw.Serializer.Decode.{big}
use mgw.Flv.{EncoderType, EncoderPacket, flv_packet_mux}
use mgw.Flv.Tag.{read_tag, flv_packet_mux-read_tag, body_of, kind_of}
use mgw.RtmpStream.{RtmpStream, put_be32, write_tag, send_packet_internal}

-- ISO/IEC 14496-15: a NAL unit behind its length in four bytes.
pub read_unit : List ℕ → Option (List ℕ)
read_unit (b3 ∷ b2 ∷ b1 ∷ b0 ∷ unit) =
    if big 0 (b3 ∷ b2 ∷ b1 ∷ b0 ∷ []) == length unit then some unit else none
read_unit _ = none

pub length-bytes_at : (m : Bytes) (p n : ℕ) → length (bytes_at m p n) ≡ n
length-bytes_at m p zero = refl
length-bytes_at m p (suc n) = ap suc (length-bytes_at m (p + 1) n)

-- The bytes behind the four.
bytes_at-put_be32_behind :
    (m : Bytes) (p n k q : ℕ) → p + 4 ≤ q → bytes_at (put_be32 m p n) q k ≡ bytes_at m q k
unfolding put_be32
bytes_at-put_be32_behind m p n zero q h = refl
bytes_at-put_be32_behind m p n (suc k) q h =
    ground (arith, bytes_at-put_be32_behind m p n k (q + 1) (omega arith))

abbrev be32 : ℕ → List ℕ
be32 n = n / 2 ^ 24 % 2 ^ 8 ∷ n / 2 ^ 16 % 2 ^ 8 ∷ n / 2 ^ 8 % 2 ^ 8 ∷ n % 2 ^ 8 ∷ []

bytes_at-put_be32 :
    (m : Bytes) (p n k : ℕ) → bytes_at (put_be32 m p n) p (k + 4) ≡ be32 n ++ bytes_at m (p + 4) k
unfolding put_be32
bytes_at-put_be32 m p n k =
    let four : k + 4 ≡ suc (suc (suc (suc k))) = omega arith in
    let at : p + 1 + 1 + 1 + 1 ≡ p + 4 = omega arith in
    let a0 : put_be32 m p n p ≡ n / 2 ^ 24 % 2 ^ 8 = ground arith in
    let a1 : put_be32 m p n (p + 1) ≡ n / 2 ^ 16 % 2 ^ 8 = ground arith in
    let a2 : put_be32 m p n (p + 1 + 1) ≡ n / 2 ^ 8 % 2 ^ 8 = ground arith in
    let a3 : put_be32 m p n (p + 1 + 1 + 1) ≡ n % 2 ^ 8 = ground arith in
    let tail : bytes_at (put_be32 m p n) (p + 1 + 1 + 1 + 1) k ≡ bytes_at m (p + 4) k =
      bytes_at-put_be32_behind m p n k (p + 1 + 1 + 1 + 1) (omega arith)
      ∙ ap (λ q. bytes_at m q k) at in
    rw four (cc (a0, a1, a2, a3, tail))

-- The length that the sender puts before a unit is read back.
read_unit-be32 :
    (unit : List ℕ) → length unit < 2 ^ 32 → read_unit (be32 (length unit) ++ unit) ≡ some unit
unfolding read_unit
read_unit-be32 unit w =
    let same : (big 0 (be32 (length unit)) == length unit) ≡ true = ground arith in rw same refl

pub read_unit-put_be32 :
    (m : Bytes) (p n : ℕ)
    → n < 2 ^ 32
    → read_unit (bytes_at (put_be32 m p n) p (n + 4)) ≡ some (bytes_at m (p + 4) n)
read_unit-put_be32 m p n w =
    let l = length-bytes_at m (p + 4) n in
    ap read_unit (bytes_at-put_be32 m p n n)
    ∙ subst (λ x. read_unit (be32 x ++ bytes_at m (p + 4) n) ≡ some (bytes_at m (p + 4) n)) l
        (read_unit-be32 (bytes_at m (p + 4) n) (omega (arith, l)))

-- The call wrote one tag more, in which a reader finds the payload at the time.
pub record Sends (s : RtmpStream) (kind : EncoderType) (keyframe is_header : Bool) (time : ℕ)
    (payload : List ℕ) (r : Bool × RtmpStream) : Type 0 where
  pub tag : List ℕ
  pub written : r.1.written ≡ s.written ++ tag ∷ []
  pub last : r.1.last_dts ≡ time
  pub read :
      read_tag tag
      ≡ some record {
        kind = kind_of kind;
        timestamp = time;
        stream_id = 0;
        body =
            body_of
              (record { payload = some payload; pts = time; kind = kind; keyframe = keyframe })
              is_header
              payload;
        tag_size =
            11
            + length (
                body_of
                  (record { payload = some payload; pts = time; kind = kind; keyframe = keyframe })
                  is_header
                  payload)
            - 1;
      }

-- The stream has begun, and the packet is at most 2^31 milliseconds behind its first one.
pub record InStream (s : RtmpStream) (pts : ℕ) : Type 0 where
  pub begun : s.start_dts_offset ≢ 0
  pub after : s.start_dts_offset ≤ pts / 1000
  pub near : pts / 1000 < s.start_dts_offset + 2 ^ 31
  pub word : pts < 2 ^ 63

-- The time of a packet in the stream, in milliseconds.
abbrev pub stream_time : RtmpStream → ℕ → ℕ
stream_time s pts = pts / 1000 - s.start_dts_offset

module _ (rtmp_write : List ℕ → Bool) (s : RtmpStream) where
  pub write_tag-Sends :
      (payload : List ℕ) (kind : EncoderType) (keyframe is_header : Bool) (tick : ℕ)
      → 0 < length payload
      → length payload + 5 < 2 ^ 24
      → s.start_dts_offset ≤ tick
      → tick < s.start_dts_offset + 2 ^ 31
      → tick < 2 ^ 64
      → Sends s kind keyframe is_header
          (tick - s.start_dts_offset)
          payload
          (write_tag rtmp_write true payload kind keyframe is_header tick s)
  unfolding write_tag
  write_tag-Sends [] kind keyframe is_header tick h l a b w = absurd (omega arith)
  write_tag-Sends (x ∷ xs) kind keyframe is_header tick h l a b w =
      let time : sub64 tick s.start_dts_offset ≡ tick - s.start_dts_offset = omega arith in
      let packet : EncoderPacket = record {
        payload = some (x ∷ xs);
        pts = tick - s.start_dts_offset;
        kind = kind;
        keyframe = keyframe;
      } in
      record {
        tag = flv_packet_mux packet is_header;
        written = rw time refl;
        last = time;
        read = flv_packet_mux-read_tag packet is_header x xs refl l (omega arith);
      }

  pub send_packet_internal-Sends :
      (payload : List ℕ) (kind : EncoderType) (keyframe : Bool) (pts : ℕ)
      → 0 < length payload
      → length payload + 5 < 2 ^ 24
      → InStream s pts
      → Sends s kind keyframe false
          (stream_time s pts)
          payload
          (send_packet_internal rtmp_write true payload kind keyframe false pts s)
  unfolding send_packet_internal
  send_packet_internal-Sends payload kind keyframe pts h l t =
      let begun : (s.start_dts_offset == 0) ≡ false = ground (arith, t.begun) in
      rw begun (
        write_tag-Sends payload kind keyframe false (pts / 1000) h l t.after t.near
          (omega (arith, t.word)))
