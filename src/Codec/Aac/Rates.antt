-- ===== src/Codec/Aac/Rates.antt =====
-- The index of a sample rate determines the rate.
use mgw.Prelude.{ℕ, ◌≤◌, ◌≡◌, ◌≢◌, Option, none, some, List, [], ◌∷◌, ◌==◌, if◌then◌else◌, arith}
use mgw.Codec.Aac.{rates, get_samplerate_index}

-- The rate that a list of cases gives an index.
abbrev pub rate_in : List (ℕ × ℕ) → ℕ → Option ℕ
rate_in [] i = none
rate_in ((a, r) ∷ cases) i = if r == i then some a else rate_in cases i

-- ISO/IEC 14496-3, table 1.18.
pub rate_at : ℕ → Option ℕ
rate_at = rate_in rates

pub get_samplerate_index-known :
    (rate : ℕ) → get_samplerate_index rate ≢ 15 → rate_at (get_samplerate_index rate) ≡ some rate
unfolding get_samplerate_index rate_at
get_samplerate_index-known rate h = ground arith

pub get_samplerate_index-le : (rate : ℕ) → get_samplerate_index rate ≤ 15
unfolding get_samplerate_index
get_samplerate_index-le rate = ground arith
