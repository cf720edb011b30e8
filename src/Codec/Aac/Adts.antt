-- ===== src/Codec/Aac/Adts.antt =====
-- An ADTS header read back.
use mgw.Prelude.{
  Option, none, ℕ, ◌+◌, ◌*◌, ◌/◌, ◌%◌, ◌^◌, ◌<◌, ◌≤◌, ◌≡◌, some, List, ◌∷◌, length, arith,
}
use mgw.Codec.Aac.{get_samplerate_index, add_adts}
use mgw.Codec.Aac.Rates.{get_samplerate_index-le}

-- ISO/IEC 13818-7, 6.2: an ADTS frame without a checksum.
record AdtsHeader : Type 0 where
  syncword : ℕ
  protection_absent : ℕ
  object_type : ℕ
  rate_index : ℕ
  channels : ℕ
  frame_length : ℕ
  fullness : ℕ

parse_adts : List ℕ → Option (AdtsHeader × List ℕ)
parse_adts (b0 ∷ b1 ∷ b2 ∷ b3 ∷ b4 ∷ b5 ∷ b6 ∷ rest) = some (
  record {
    syncword = b0 * 16 + b1 / 16;
    protection_absent = b1 % 2;
    object_type = b2 / 64 + 1;
    rate_index = b2 / 4 % 16;
    channels = b2 % 2 * 4 + b3 / 64;
    frame_length = b3 % 4 * 2 ^ 11 + b4 * 8 + b5 / 32;
    fullness = b5 % 32 * 64 + b6 / 4;
  },
  rest,
)
parse_adts _ = none

-- For an object type from 1 to 4, fewer than eight channels and a frame below 8192 bytes, a
-- reader of the bytes that `mgw_aac_add_adts` writes gets back the type, the
-- index of the sample rate, the channels, the returned size as the length of the frame, and the data.
add_adts-parse_adts :
    (samplerate profile channels : ℕ) (xs : List ℕ)
    → 1 ≤ profile
    → profile ≤ 4
    → channels < 8
    → 7 + length xs < 2 ^ 13
    → parse_adts (add_adts samplerate profile channels (some xs)).1
      ≡ some (
        record {
          syncword = 4095;
          protection_absent = 1;
          object_type = profile;
          rate_index = get_samplerate_index samplerate;
          channels = channels;
          frame_length = (add_adts samplerate profile channels (some xs)).0;
          fullness = 2047;
        },
        xs,
      )
unfolding parse_adts add_adts
add_adts-parse_adts samplerate profile channels xs h1 h4 hc hs =
    ground (arith, get_samplerate_index-le samplerate)
