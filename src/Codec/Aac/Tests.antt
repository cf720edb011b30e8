-- ===== src/Codec/Aac/Tests.antt =====
-- Two bytes of AAC at 44100 Hz, and at a rate without an index.
use mgw.Prelude.{ℕ, ◌≡◌, refl, some, List, [], ◌∷◌}
use mgw.Codec.Aac.{get_samplerate_index, get_aac_lc_header, add_adts}

-- Two bytes of data.
abbrev two_bytes : List ℕ
two_bytes = 7 ∷ 8 ∷ []

header_44100 : get_aac_lc_header 2 16 44100 ≡ 18 ∷ 16 ∷ []
unfolding get_aac_lc_header get_samplerate_index
header_44100 = refl

header_20000 : get_aac_lc_header 2 16 20000 ≡ 23 ∷ 128 ∷ 39 ∷ 16 ∷ 16 ∷ []
unfolding get_aac_lc_header get_samplerate_index
header_20000 = refl

adts_44100 :
    (add_adts 44100 2 2 (some two_bytes)).1 ≡ 255 ∷ 241 ∷ 80 ∷ 128 ∷ 1 ∷ 63 ∷ 252 ∷ two_bytes
unfolding add_adts get_samplerate_index
adts_44100 = refl
