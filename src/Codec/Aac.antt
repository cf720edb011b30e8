-- ===== src/Codec/Aac.antt =====
-- mgw-core/util/source/codec-common.c: the headers of AAC.
pub mod Rates
pub mod Adts
pub mod Config
pub mod Leave
mod Tests
use mgw.Prelude.{
  ℕ, ◌+◌, ◌-◌, ◌*◌, ◌/◌, ◌%◌, ◌^◌, Bool, true, false, not, Option, none, some, List, [], ◌∷◌, ◌++◌,
  length, ◌==◌, if◌then◌else◌, add32, sub32,
}

-- The rates that have an index, by their indices.
abbrev pub rates : List (ℕ × ℕ)
rates =
    (96000, 0)
    ∷ (88200, 1)
    ∷ (64000, 2)
    ∷ (48000, 3)
    ∷ (44100, 4)
    ∷ (32000, 5)
    ∷ (24000, 6)
    ∷ (22050, 7)
    ∷ (16000, 8)
    ∷ (12000, 9)
    ∷ (11025, 10)
    ∷ (8000, 11)
    ∷ (7350, 12)
    ∷ []

-- A `switch` over such a list, with its default.
abbrev pub switch : List (ℕ × ℕ) → ℕ → ℕ → ℕ
switch [] default x = default
switch ((a, r) ∷ cases) default x = if x == a then r else switch cases default x

-- `get_samplerate_index`; 0 is no case of the switch and has its default too.
unfoldable pub get_samplerate_index : ℕ → ℕ
get_samplerate_index rate = switch rates 15 rate

-- The bytes that `mgw_get_aac_lc_header` copies; AUDIO_AAC_LC is 2.
unfoldable pub get_aac_lc_header : ℕ → ℕ → ℕ → List ℕ
get_aac_lc_header channels samplesize samplerate =
    let index = get_samplerate_index samplerate in
    let first = 2 * 8 + index / 2 % 8 in
    let second = index * 128 % 2 ^ 8 in
    let last = channels * 8 % 128 in
    if index == 15
    then first
      ∷ (second + samplerate / 2 ^ 17 % 128)
      ∷ samplerate / 2 ^ 9 % 2 ^ 8
      ∷ samplerate / 2 % 2 ^ 8
      ∷ (samplerate % 2 * 128 + last)
      ∷ []
    else first ∷ (second + last) ∷ []

-- The two bytes that `mgw_get_aaclc_flv_header` writes first: 0xAF less a bit each for samples of eight
-- bits and for one channel, and the kind of the packet.
unfoldable pub get_aaclc_flv_header : ℕ → ℕ → ℕ → List ℕ
get_aaclc_flv_header channels samplesize samplerate =
    let wide = if samplesize == 8 then 173 else 175 in
    let flags = if channels == 1 then wide - wide % 2 else wide in
    flags ∷ 0 ∷ get_aac_lc_header channels samplesize samplerate

-- `mgw_aac_add_adts`: the bytes that it writes to `out`, and what it returns; no data is NULL.
unfoldable pub add_adts : ℕ → ℕ → ℕ → Option (List ℕ) → ℕ × List ℕ
add_adts samplerate profile channels none = (2 ^ 64 - 1, [])
add_adts samplerate profile channels (some data_bytes) =
    let size = length data_bytes in
    let index = get_samplerate_index samplerate in
    let header =
      255
      ∷ 241
      ∷ ((profile + 2 ^ 32 - 1) % 2 ^ 32 * 64 + index * 4 + channels / 4) % 2 ^ 8
      ∷ (channels % 8 * 64 + (7 + size) / 2 ^ 11) % 2 ^ 8
      ∷ (7 + size) / 8 % 2 ^ 8
      ∷ ((7 + size) % 8 * 32 + 31) % 2 ^ 8
      ∷ 252
      ∷ [] in
    (size + 7, header ++ data_bytes)

-- What `mgw_aac_leave_adts` returns, from the second and the fourth to sixth byte. It moves only
-- its own copy of `dst`.
pub leave_adts : (ℕ → ℕ) → ℕ → ℕ → ℕ
leave_adts src src_size dst_size =
    let packet_len = src 3 % 4 * 2 ^ 11 + src 4 * 8 + src 5 / 32 in
    if src 1 % 2 == 0
    then if src_size == packet_len then (src_size + 2 ^ 64 - 9) % 2 ^ 64 else dst_size
    else (src_size + 2 ^ 64 - 7) % 2 ^ 64
