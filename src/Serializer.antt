-- ===== src/Serializer.antt =====
-- mgw-core/util/source/serializer.c with array-serializer.c as its output: the bytes written so far.
pub mod Decode
mod Tests
use mgw.Prelude.{ℕ, ◌/◌, ◌%◌, ◌^◌, List, [], ◌∷◌, ◌++◌, length}

-- `s_write` through `array_output_write`, which cannot fail.
abbrev pub s_write : List ℕ → List ℕ → List ℕ
s_write s bytes = s ++ bytes

-- `array_output_get_pos`.
abbrev pub serializer_get_pos : List ℕ → ℕ
serializer_get_pos s = length s

abbrev pub s_w8 : List ℕ → ℕ → List ℕ
s_w8 s u8 = s_write s (u8 % 2 ^ 8 ∷ [])

pub s_wl16 : List ℕ → ℕ → List ℕ
s_wl16 s u16 = s_w8 (s_w8 s u16) (u16 / 2 ^ 8)

pub s_wl24 : List ℕ → ℕ → List ℕ
s_wl24 s u24 = s_wl16 (s_w8 s u24) (u24 / 2 ^ 8 % 2 ^ 16)

pub s_wl32 : List ℕ → ℕ → List ℕ
s_wl32 s u32 = s_wl16 (s_wl16 s (u32 % 2 ^ 16)) (u32 / 2 ^ 16 % 2 ^ 16)

pub s_wl64 : List ℕ → ℕ → List ℕ
s_wl64 s u64 = s_wl32 (s_wl32 s (u64 % 2 ^ 32)) (u64 / 2 ^ 32 % 2 ^ 32)

unfoldable pub s_wb16 : List ℕ → ℕ → List ℕ
s_wb16 s u16 = s_w8 (s_w8 s (u16 / 2 ^ 8)) u16

unfoldable pub s_wb24 : List ℕ → ℕ → List ℕ
s_wb24 s u24 = s_w8 (s_wb16 s (u24 / 2 ^ 8 % 2 ^ 16)) u24

pub s_wb32 : List ℕ → ℕ → List ℕ
s_wb32 s u32 = s_wb16 (s_wb16 s (u32 / 2 ^ 16 % 2 ^ 16)) (u32 % 2 ^ 16)

pub s_wb64 : List ℕ → ℕ → List ℕ
s_wb64 s u64 = s_wb32 (s_wb32 s (u64 / 2 ^ 32 % 2 ^ 32)) (u64 % 2 ^ 32)
