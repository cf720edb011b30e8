-- ===== src/Flv/Tag.antt =====
-- The tags read back.
use mgw.Prelude.{
  ℕ, ◌+◌, ◌-◌, ◌%◌, ◌^◌, ◌<◌, ◌≡◌, refl, ◌∙◌, ap, ◌⊎◌, inl, inr, Bool, true, false, Option, none,
  some, List, [], ◌∷◌, ◌++◌, length, length-append, if◌then◌else◌, ◌==◌, take, drop, take-append,
  drop-append, arith,
}
use mgw.Serializer.{s_wb16, s_wb24, s_wb32}
use mgw.Serializer.Decode.{big, s_wb32-Appends, s_wb32_zero, s_wb32_nine}
use mgw.Flv.{
  EncoderType, encoder_audio, encoder_video, EncoderPacket, flv_video, flv_audio, flv_packet_mux,
  flv_meta_data,
}

-- The FLV format, E.4.1, with the 32 bits behind the tag.
pub record FlvTag : Type 0 where
  pub kind : ℕ
  pub timestamp : ℕ
  pub stream_id : ℕ
  pub body : List ℕ
  pub tag_size : ℕ

-- A tag that is all of what is read.
pub read_tag : List ℕ → Option FlvTag
read_tag (k ∷ n2 ∷ n1 ∷ n0 ∷ t2 ∷ t1 ∷ t0 ∷ t3 ∷ i2 ∷ i1 ∷ i0 ∷ rest) =
    let size = big 0 (n2 ∷ n1 ∷ n0 ∷ []) in
    if length rest == size + 4
    then some record {
      kind = k;
      timestamp = big 0 (t3 ∷ t2 ∷ t1 ∷ t0 ∷ []);
      stream_id = big 0 (i2 ∷ i1 ∷ i0 ∷ []);
      body = take size rest;
      tag_size = big 0 (drop size rest);
    }
    else none
read_tag _ = none

-- Eleven bytes, a body of the size that they say, and four more bytes.
read_tag-append :
    (k n2 n1 n0 t2 t1 t0 t3 time size : ℕ) (body tail : List ℕ)
    → big 0 (n2 ∷ n1 ∷ n0 ∷ []) ≡ length body
    → big 0 (t3 ∷ t2 ∷ t1 ∷ t0 ∷ []) ≡ time
    → length tail ≡ 4
    → big 0 tail ≡ size
    → read_tag (k ∷ n2 ∷ n1 ∷ n0 ∷ t2 ∷ t1 ∷ t0 ∷ t3 ∷ 0 ∷ 0 ∷ 0 ∷ (body ++ tail))
      ≡ some record { kind = k; timestamp = time; stream_id = 0; body = body; tag_size = size }
unfolding read_tag
read_tag-append k n2 n1 n0 t2 t1 t0 t3 time size body tail hn ht hl hs =
    let e : (length (body ++ tail) == length body + 4) ≡ true =
      ground (arith, length-append body tail, hl) in
    rw (hn, read_tag) (rw (e, ht, take-append body tail, drop-append body tail, hs) refl)

-- The body of a tag.
abbrev pub body_of : EncoderPacket → Bool → List ℕ → List ℕ
body_of packet is_header bytes = elim packet.kind [
  | encoder_video ↦
      (if packet.keyframe then 23 else 39) ∷ (if is_header then 0 else 1) ∷ 0 ∷ 0 ∷ 0 ∷ bytes
  | encoder_audio ↦ if is_header then bytes else 175 ∷ 1 ∷ bytes
]

kind_cases : (k : EncoderType) → (k ≡ encoder_video) ⊎ (k ≡ encoder_audio)
kind_cases encoder_video = inl refl
kind_cases encoder_audio = inr refl

abbrev pub kind_of : EncoderType → ℕ
kind_of encoder_video = 9
kind_of encoder_audio = 8

module _ (packet : EncoderPacket) (bytes : List ℕ) (fits : length bytes + 5 < 2 ^ 24)
    (early : packet.pts < 2 ^ 31) where
  abbrev tag : ℕ → List ℕ → FlvTag
  tag k body = record {
    kind = k;
    timestamp = packet.pts;
    stream_id = 0;
    body = body;
    tag_size = length body + 10;
  }

  video :
      (is_header : Bool)
      → read_tag (flv_video packet is_header bytes [])
        ≡ some (
            tag 9 (
              (if packet.keyframe then 23 else 39)
              ∷ (if is_header then 0 else 1)
              ∷ 0
              ∷ 0
              ∷ 0
              ∷ bytes))
  unfolding flv_video s_wb24 s_wb16
  video is_header =
      let flag : (if packet.keyframe then 23 else 39) % 2 ^ 8
          ≡ (if packet.keyframe then 23 else 39) =
        ground arith in
      let flag' : (if is_header then 0 else 1) % 2 ^ 8 ≡ (if is_header then 0 else 1) =
        ground arith in
      let body =
        (if packet.keyframe then 23 else 39) ∷ (if is_header then 0 else 1) ∷ 0 ∷ 0 ∷ 0 ∷ bytes in
      rw (s_wb32-Appends.appended) (
        rw (flag, flag')
          (read_tag-append _ _ _ _ _ _ _ _ packet.pts (length body + 10) body (s_wb32 [] _)
            (omega arith) (omega arith) (s_wb32-Appends.size _)
            (s_wb32-Appends.read _ ∙ omega arith)))

  audio :
      (is_header : Bool)
      → read_tag (flv_audio packet is_header bytes [])
        ≡ some (tag 8 (if is_header then bytes else 175 ∷ 1 ∷ bytes))
  unfolding flv_audio s_wb24 s_wb16
  audio true = rw (s_wb32-Appends.appended) (
      read_tag-append _ _ _ _ _ _ _ _ packet.pts (length bytes + 10) bytes (s_wb32 [] _)
        (omega arith) (omega arith) (s_wb32-Appends.size _) (s_wb32-Appends.read _ ∙ omega arith))
  audio false =
      let two : List ℕ = 175 ∷ 1 ∷ bytes in
      rw (s_wb32-Appends.appended) (
        read_tag-append _ _ _ _ _ _ _ _ packet.pts (length two + 10) two (s_wb32 [] _) (omega arith)
          (omega arith) (s_wb32-Appends.size _) (s_wb32-Appends.read _ ∙ omega arith))

-- For a packet with data, of fewer than 2^24 - 5 bytes and with a time below 2^31, a
-- reader of what `flv_packet_mux` writes finds one tag: of the packet's kind and time, of stream 0, with the two or five bytes
-- of the codec's own header before the data (none for an audio header), and with a size behind it that is one less than the size of the tag.
pub flv_packet_mux-read_tag :
    (packet : EncoderPacket) (is_header : Bool) (b : ℕ) (bs : List ℕ)
    → packet.payload ≡ some (b ∷ bs)
    → length (b ∷ bs) + 5 < 2 ^ 24
    → packet.pts < 2 ^ 31
    → read_tag (flv_packet_mux packet is_header)
      ≡ some record {
        kind = kind_of packet.kind;
        timestamp = packet.pts;
        stream_id = 0;
        body = body_of packet is_header (b ∷ bs);
        tag_size = 11 + length (body_of packet is_header (b ∷ bs)) - 1;
      }
unfolding flv_packet_mux
flv_packet_mux-read_tag packet is_header b bs e fits early = elim (kind_cases packet.kind) [
  | inl k ↦
      let f : flv_packet_mux packet is_header ≡ flv_video packet is_header (b ∷ bs) [] =
        ground (arith, e, k) in
      ap read_tag f ∙ video packet (b ∷ bs) fits early is_header ∙ ground (arith, k)
  | inr k ↦
      let f : flv_packet_mux packet is_header ≡ flv_audio packet is_header (b ∷ bs) [] =
        ground (arith, e, k) in
      ap read_tag f ∙ audio packet (b ∷ bs) fits early is_header ∙ ground (arith, k)
]

-- For meta data of fewer than 2^24 bytes, `flv_meta_data` writes the 13 bytes of a file's header where it is asked to, and then
-- one tag that a reader finds to be of kind 18, of time and stream 0, with the meta data as its body.
flv_meta_data-read_tag :
    (meta_data : List ℕ) (write_header : Bool)
    → length meta_data < 2 ^ 24
    → read_tag (drop (if write_header then 13 else 0) (flv_meta_data meta_data write_header))
      ≡ some record {
        kind = 18;
        timestamp = 0;
        stream_id = 0;
        body = meta_data;
        tag_size = length meta_data + 10;
      }
unfolding flv_meta_data s_wb24 s_wb16
flv_meta_data-read_tag meta_data true h = rw s_wb32_nine (
    rw s_wb32_zero (
      rw s_wb32_zero (
        rw (s_wb32-Appends.appended) (
          read_tag-append _ _ _ _ _ _ _ _ 0 (length meta_data + 10) meta_data (s_wb32 [] _)
            (omega arith) (omega arith) (s_wb32-Appends.size _)
            (s_wb32-Appends.read _ ∙ omega arith)))))
flv_meta_data-read_tag meta_data false h = rw s_wb32_zero (
    rw (s_wb32-Appends.appended) (
      read_tag-append _ _ _ _ _ _ _ _ 0 (length meta_data + 10) meta_data (s_wb32 [] _)
        (omega arith) (omega arith) (s_wb32-Appends.size _) (s_wb32-Appends.read _ ∙ omega arith)))
