-- ===== src/Codec/Startcode/Tests.antt =====
-- A start code of four bytes behind five bytes of data, with the end at 124.
use mgw.Prelude.{ℕ, ◌<◌, ◌≡◌, refl, ◌==◌, ltb, if◌then◌else◌, arith}
use mgw.Prelude.Int.{pos}
use mgw.Codec.Startcode.{
  Bytes, find_startcode_internal, find_startcode, get_startcode_len, scan, scan_words, has_zero,
  check_word,
}
use mgw.Codec.Startcode.Search.{First, find_startcode_internal-First}

-- 65 at 100 to 104, then 0, 0, 0, 1 and the data of a slice.
abbrev stream : Bytes
stream q = if ltb q 105 then 65 else if ltb q 108 then 0 else if q == 108 then 1 else 101

stream_bytes : (q : ℕ) → stream q < 256
stream_bytes q = ground arith

find_internal : find_startcode_internal stream 100 124 ≡ 106
unfolding find_startcode_internal scan scan_words has_zero check_word
find_internal = refl

find_four : find_startcode stream 100 124 ≡ 105
unfolding find_startcode find_startcode_internal scan scan_words has_zero check_word
find_four = refl

find_none : find_startcode stream 109 124 ≡ 124
unfolding find_startcode find_startcode_internal scan scan_words has_zero check_word
find_none = refl

find_length : get_startcode_len stream 105 ≡ pos 4
unfolding get_startcode_len
find_length = refl

find_startcode_internal-First_example :
    First stream 100 124 (find_startcode_internal stream 100 124)
find_startcode_internal-First_example =
    find_startcode_internal-First stream 100 124 stream_bytes (omega arith)
