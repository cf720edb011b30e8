-- ===== src/Source/Headers.antt =====
-- The headers that a private source keeps and hands out.
use mgw.Prelude.{ℕ, ◌≡◌, true, some, List, arith}
use mgw.Codec.Aac.{get_aaclc_flv_header}
use mgw.Flv.{EncoderType, encoder_audio}
use mgw.Source.{Source, mgw_source_set_audio_extra_data, get_header_internal}

-- The header that a private source hands out once `mgw_source_set_audio_extra_data` has set it.
pub get_header_internal-mgw_source_set_audio_extra_data :
    (get_extra_data : EncoderType → List ℕ) (source : Source) (channels samplesize samplerate : ℕ)
    → source.is_private ≡ true
    → get_header_internal get_extra_data
        (mgw_source_set_audio_extra_data channels samplesize samplerate source)
        encoder_audio
      ≡ some (get_aaclc_flv_header channels samplesize samplerate)
unfolding get_header_internal mgw_source_set_audio_extra_data
get_header_internal-mgw_source_set_audio_extra_data get_extra_data source channels samplesize
      samplerate private =
    ground (arith, private)
