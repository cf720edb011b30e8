-- ===== src/RtmpStream/Audio.antt =====
-- The audio header of a private source, whose own header is that of an FLV tag.
use mgw.Prelude.{
  ℕ, ◌-◌, ◌/◌, ◌%◌, ◌≡◌, ◌≢◌, ◌∙◌, sym, subst, Bool, true, false, some, List, [], ◌∷◌,
  if◌then◌else◌, ◌==◌, arith,
}
use mgw.Codec.Aac.{get_samplerate_index, get_aac_lc_header, get_aaclc_flv_header}
use mgw.Codec.Aac.Config.{length-get_aaclc_flv_header}
use mgw.Flv.{EncoderType, encoder_audio}
use mgw.Source.{Source, mgw_source_set_audio_extra_data, get_header_internal}
use mgw.Source.Headers.{get_header_internal-mgw_source_set_audio_extra_data}
use mgw.RtmpStream.{RtmpStream, SourceInfo, write_tag, send_audio_header, send_packet_internal}
use mgw.RtmpStream.Sends.{Sends, write_tag-Sends}

-- The first byte of an FLV audio tag with AAC: 44 kHz, the sample size, and the channels.
abbrev pub tag_flags : ℕ → ℕ → ℕ
tag_flags channels samplesize =
    let wide = if samplesize == 8 then 173 else 175 in
    if channels == 1 then wide - wide % 2 else wide

-- ISO/IEC 14496-3: an AudioSpecificConfig begins with the object type in five bits. 2 is AAC LC.
abbrev pub object_type : List ℕ → ℕ
object_type [] = 0
object_type (b ∷ bytes) = b / 8

-- The call sends the bytes of an audio tag and of a header that begins with them itself. Behind the first two a reader finds another object
-- type than that of the configuration.
abbrev pub IsDoubled : RtmpStream → ℕ → List ℕ → Bool × RtmpStream → Type 0
IsDoubled s flags config r =
    Sends s encoder_audio false true 0 (flags ∷ 0 ∷ flags ∷ 0 ∷ config) r
    × (object_type (flags ∷ 0 ∷ config) ≡ 21)
    × (object_type config ≡ 2)

-- A private source hands out the audio header that `mgw_source_set_audio_extra_data` has set, and the sender puts the two bytes of an audio tag
-- before it, which it has already: the tag sent has these two bytes twice and then the configuration. A reader takes the second two for
-- the configuration, whose object type then is 21 and not 2, AAC LC, as that of the configuration itself. The stream has not begun, received
-- data could be read away, and the sample rate has an index (without one the header is longer than the array that it is copied to).
pub send_audio_header-IsDoubled :
    (rtmp_write : List ℕ → Bool) (s : RtmpStream) (info : SourceInfo) (source : Source)
    (get_extra_data : EncoderType → List ℕ) (channels samplesize samplerate : ℕ)
    → source.is_private ≡ true
    → get_samplerate_index samplerate ≢ 15
    → info.settings ≡ some (channels, samplesize)
    → info.audio_header
      ≡ get_header_internal get_extra_data
          (mgw_source_set_audio_extra_data channels samplesize samplerate source)
          encoder_audio
    → s.start_dts_offset ≡ 0
    → IsDoubled s
        (tag_flags channels samplesize)
        (get_aac_lc_header channels samplesize samplerate)
        (send_audio_header rtmp_write true info 0 s)
unfolding send_audio_header send_packet_internal get_aaclc_flv_header get_aac_lc_header
send_audio_header-IsDoubled rtmp_write s info source get_extra_data channels samplesize samplerate
      private listed e f z =
    let flags = tag_flags channels samplesize in
    let config = get_aac_lc_header channels samplesize samplerate in
    let payload = flags ∷ 0 ∷ flags ∷ 0 ∷ config in
    let few = length-get_aaclc_flv_header channels samplesize samplerate in
    let given : info.audio_header ≡ some (get_aaclc_flv_header channels samplesize samplerate) =
      f
      ∙ get_header_internal-mgw_source_set_audio_extra_data get_extra_data source channels
          samplesize samplerate private in
    let sent =
      write_tag-Sends rtmp_write s payload encoder_audio false true 0 (omega arith)
        (omega (arith, few)) (omega (arith, z)) (omega arith) (omega arith) in
    let same : send_audio_header rtmp_write true info 0 s
        ≡ write_tag rtmp_write true payload encoder_audio false true 0 s =
      ground (arith, e, given) in
    let start : 0 - s.start_dts_offset ≡ 0 = omega (arith, z) in
    (
      subst (Sends s encoder_audio false true 0 payload) (sym same) (
          subst
            (λ t.
              Sends s encoder_audio false true t payload
                (write_tag rtmp_write true payload encoder_audio false true 0 s))
            start sent),
      ground arith,
      ground arith,
    )
