-- ===== src/Codec/Nals/Get.antt =====
-- mgw_avc_get_nal of codec-common.c: the search for one NAL unit by its type, which steps over start codes
-- of either length.
pub mod Keyframe
use mgw.Prelude.{
  ℕ, zero, suc, ◌+◌, ◌-◌, ◌%◌, ◌^◌, Option, none, some, ltb, ◌==◌, ◌||◌, if◌then◌else◌, sub64,
}
use mgw.Prelude.Int.{pos, negsuc}
use mgw.Codec.Startcode.{Bytes, get_startcode_len}
use mgw.Codec.Nals.{nal_type}

-- The loop, with `rounds` to go: the address in `*nal`, and `nal_size`.
pub nal_loop : Bytes → ℕ → ℕ → ℕ → ℕ → ℕ → Option ℕ → Option ℕ × ℕ
nal_loop m data_start size get_type zero p nal = (nal, 0)
nal_loop m data_start size get_type (suc rounds) p nal = elim (get_startcode_len m (p + 1)) [
  | negsuc n ↦ nal_loop m data_start size get_type rounds (p + 1) nal
  | pos k ↦
      let q = p + 1 + k in
      let on = nal_loop m data_start size get_type rounds q in
      let found = if get_type == 5 then (some q, sub64 size (q - data_start)) else on (some q) in
      let other = on none in
      elim nal [
        | some start ↦ (some start, q - k - start)
        | none ↦ if get_type == nal_type m q then found else other
      ]
]

-- `mgw_avc_get_nal` of pointers that are not NULL.
pub get_nal : Bytes → ℕ → ℕ → ℕ → ℕ → Option ℕ × ℕ
unfolding nal_loop
get_nal m data_start size get_type max_check =
    let check_len = if ltb max_check size then max_check else size in
    if size == 0 then (none, 0) else nal_loop m data_start size get_type check_len data_start none

-- `mgw_avc_get_sps`, `mgw_avc_get_pps` and `mgw_avc_get_keyframe`.
abbrev pub get_sps : Bytes → ℕ → ℕ → Option ℕ × ℕ
get_sps m data_start size = get_nal m data_start size 7 64

abbrev pub get_pps : Bytes → ℕ → ℕ → Option ℕ × ℕ
get_pps m data_start size = get_nal m data_start size 8 32

abbrev pub get_keyframe : Bytes → ℕ → ℕ → Option ℕ × ℕ
get_keyframe m data_start size = get_nal m data_start size 5 size
