-- ===== src/Codec/Startcode.antt =====
-- mgw-core/util/source/codec-common.c: the search for a start code, four bytes at a time.
pub mod Loops
pub mod Search
mod Zero
mod Tests
use mgw.Prelude.{
  ℕ, zero, suc, ◌+◌, ◌-◌, ◌*◌, ◌/◌, ◌%◌, ◌^◌, min, Bool, true, false, ◌&&◌, ◌||◌, not, Option, none,
  some, ltb, ◌==◌, if◌then◌else◌, sub32,
}
use mgw.Prelude.Int.{ℤ, pos, negsuc}

-- The bytes in memory by their addresses.
abbrev pub Bytes : Type 0
Bytes = ℕ → ℕ

-- How a loop ends: with a `return`, or with the pointer when its condition fails.
pub data Scan : Type 0 where
  found : ℕ → Scan
  passed : ℕ → Scan

abbrev pub is_code : Bytes → ℕ → Bool
is_code m p = (m p == 0 && m (p + 1) == 0) && m (p + 2) == 1

-- The byte loops of `ff_avc_find_startcode_internal`, by the number of bytes before their bound.
pub scan : Bytes → ℕ → ℕ → Scan
scan m zero p = passed p
scan m (suc n) p = let rest = scan m n (p + 1) in if is_code m p then found p else rest

-- The four bytes as a `uint32_t` of a little-endian machine.
abbrev pub load32 : Bytes → ℕ → ℕ
load32 m p = m p + 2 ^ 8 * m (p + 1) + 2 ^ 16 * m (p + 2) + 2 ^ 24 * m (p + 3)

abbrev pub bit : ℕ → ℕ → Bool
bit n x = x / 2 ^ n % 2 == 1

-- `(x - 0x01010101) & (~x) & 0x80808080` as a condition.
pub has_zero : ℕ → Bool
has_zero x =
    let y = sub32 x 16843009 in
    let z = 2 ^ 32 - 1 - x in
    (bit 7 y && bit 7 z)
    || ((bit 15 y && bit 15 z) || ((bit 23 y && bit 23 z) || (bit 31 y && bit 31 z)))

-- The four comparisons inside a word, in their order.
pub check_word : Bytes → ℕ → Option ℕ
check_word m p =
    if m (p + 1) == 0 && (m p == 0 && m (p + 2) == 1)
    then some p
    else if m (p + 1) == 0 && (m (p + 2) == 0 && m (p + 3) == 1)
    then some (p + 1)
    else if m (p + 3) == 0 && (m (p + 2) == 0 && m (p + 4) == 1)
    then some (p + 2)
    else if m (p + 3) == 0 && (m (p + 4) == 0 && m (p + 5) == 1)
    then some (p + 3)
    else none

-- The loop over words, with fuel.
pub scan_words : Bytes → ℕ → ℕ → ℕ → Scan
scan_words m zero p end = passed p
scan_words m (suc n) p end =
    let rest = scan_words m n (p + 4) end in
    if ltb p end
    then if has_zero (load32 m p)
      then elim (check_word m p) [ some q ↦ found q | none ↦ rest ]
      else rest
    else passed p

-- `ff_avc_find_startcode_internal`, for addresses from 6 on.
pub find_startcode_internal : Bytes → ℕ → ℕ → ℕ
find_startcode_internal m p end =
    let a = p + 4 - p % 4 in
    elim (scan m (min a (end - 3) - p) p) [
      | found q ↦ q
      | passed p1 ↦ elim (scan_words m (end - 6 - p1) p1 (end - 6)) [
        | found q ↦ q
        | passed p2 ↦ elim (scan m (end - 6 + 3 - p2) p2) [
          | found q ↦ q
          | passed _ ↦ end - 6 + 3 + 3
        ]
      ]
    ]

-- `mgw_avc_find_startcode`.
unfoldable pub find_startcode : Bytes → ℕ → ℕ → ℕ
find_startcode m p end =
    let out = find_startcode_internal m p end in
    if ltb p out && (ltb out end && m (out - 1) == 0) then out - 1 else out

-- `mgw_avc_get_startcode_len` of a pointer that is not NULL.
unfoldable pub get_startcode_len : Bytes → ℕ → ℤ
get_startcode_len m p =
    if not (m p == 0) || not (m (p + 1) == 0)
    then negsuc 0
    else if m (p + 2) == 1
    then pos 3
    else if m (p + 2) == 0 && m (p + 3) == 1
    then pos 4
    else negsuc 0
