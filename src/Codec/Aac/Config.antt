-- ===== src/Codec/Aac/Config.antt =====
-- An AudioSpecificConfig read back.
use mgw.Prelude.{
  Option, none, refl, ◌∙◌, ap, ℕ, ◌+◌, ◌*◌, ◌/◌, ◌%◌, ◌^◌, ◌<◌, ◌≤◌, ◌≡◌, inl, inr, some, List, [],
  ◌∷◌, length, ◌==◌, if◌then◌else◌, Bool-cases, arith,
}
use mgw.Codec.Aac.{get_samplerate_index, get_aac_lc_header, get_aaclc_flv_header}
use mgw.Codec.Aac.Rates.{rate_at, get_samplerate_index-le, get_samplerate_index-known}

-- ISO/IEC 14496-3, 1.6.2.1: the object type, the sample rate and the channels.
pub read_config : List ℕ → Option (ℕ × (ℕ × ℕ))
read_config (b0 ∷ b1 ∷ []) = elim (rate_at (b0 % 8 * 2 + b1 / 128)) [
  | none ↦ none
  | some rate ↦ some (b0 / 8, (rate, b1 / 8 % 16))
]
read_config (b0 ∷ b1 ∷ b2 ∷ b3 ∷ b4 ∷ []) =
    if b0 % 8 * 2 + b1 / 128 == 15
    then some (b0 / 8, (b1 % 128 * 2 ^ 17 + b2 * 2 ^ 9 + b3 * 2 + b4 / 128, b4 / 8 % 16))
    else none
read_config _ = none

read_config-two :
    (b0 b1 rate : ℕ)
    → rate_at (b0 % 8 * 2 + b1 / 128) ≡ some rate
    → read_config (b0 ∷ b1 ∷ []) ≡ some (b0 / 8, (rate, b1 / 8 % 16))
unfolding read_config
read_config-two b0 b1 rate h = rw (h, read_config) refl

-- For a sample rate below 2^24 and at most 15 channels, a reader of the
-- configuration that `mgw_get_aac_lc_header` writes gets back AAC-LC, the
-- rate and the channels: through the table of rates, and through the escape for every other rate.
pub get_aac_lc_header-read_config :
    (channels samplesize samplerate : ℕ)
    → channels < 16
    → samplerate < 2 ^ 24
    → read_config (get_aac_lc_header channels samplesize samplerate)
      ≡ some (2, (samplerate, channels))
unfolding get_aac_lc_header read_config
get_aac_lc_header-read_config channels samplesize samplerate hc hr =
    elim (Bool-cases (get_samplerate_index samplerate == 15)) [
      | inl e ↦ rw e (ground (arith, e))
      | inr e ↦
          let k : rate_at (get_samplerate_index samplerate) ≡ some samplerate =
            get_samplerate_index-known samplerate (ground (arith, e)) in
          let i = get_samplerate_index samplerate in
          let bound : i ≤ 15 = get_samplerate_index-le samplerate in
          let index : (2 * 8 + i / 2 % 8) % 8 * 2 + (i * 128 % 2 ^ 8 + channels * 8 % 128) / 128
              ≡ i =
            omega arith in
          let kind : (2 * 8 + i / 2 % 8) / 8 ≡ 2 = omega arith in
          let count : (i * 128 % 2 ^ 8 + channels * 8 % 128) / 8 % 16 ≡ channels = omega arith in
          rw e (read_config-two _ _ samplerate (ap rate_at index ∙ k) ∙ rw (kind, count) refl)
    ]

-- The FLV format, E.4.2.1: the codec, the rate, a bit for samples of 16 bits, a bit for stereo and the
-- kind of an AAC packet, before the configuration.
pub read_audio_tag : List ℕ → Option (ℕ × (ℕ × (ℕ × (ℕ × (ℕ × Option (ℕ × (ℕ × ℕ)))))))
read_audio_tag (b0 ∷ b1 ∷ rest) =
    some (b0 / 16, (b0 / 4 % 4, (b0 / 2 % 2, (b0 % 2, (b1, read_config rest)))))
read_audio_tag _ = none

-- For a sample rate below 2^24 and at most 15 channels, what `mgw_get_aaclc_flv_header` writes is an AAC
-- tag of kind 0 whose size bit is clear just for samples of eight bits and whose stereo bit is
-- clear just for one channel, and a reader of its configuration gets back the rate and the channels.
get_aaclc_flv_header-read_audio_tag :
    (channels samplesize samplerate : ℕ)
    → channels < 16
    → samplerate < 2 ^ 24
    → read_audio_tag (get_aaclc_flv_header channels samplesize samplerate)
      ≡ some (
        10,
        (
          3,
          (
            if samplesize == 8 then 0 else 1,
            (if channels == 1 then 0 else 1, (0, some (2, (samplerate, channels)))),
          ),
        ),
      )
unfolding read_audio_tag get_aaclc_flv_header
get_aaclc_flv_header-read_audio_tag channels samplesize samplerate hc hr =
    ground (arith, get_aac_lc_header-read_config channels samplesize samplerate hc hr)

pub length-get_aaclc_flv_header :
    (channels samplesize samplerate : ℕ)
    → length (get_aaclc_flv_header channels samplesize samplerate) ≤ 7
unfolding get_aaclc_flv_header get_aac_lc_header
length-get_aaclc_flv_header channels samplesize samplerate = ground arith
