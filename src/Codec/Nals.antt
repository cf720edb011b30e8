-- ===== src/Codec/Nals.antt =====
-- mgw-core/util/source/codec-common.c: the walks over the NAL units of an H.264 byte stream.
pub mod Stream
pub mod Walk
pub mod Header
pub mod Total
pub mod Get
pub mod Samples
mod Tests
use mgw.Prelude.{
  ℕ, zero, suc, ◌+◌, ◌-◌, ◌%◌, ◌^◌, Bool, true, false, ◌||◌, Option, none, some, List, [], ◌∷◌, ltb,
  ◌==◌, if◌then◌else◌,
}
use mgw.Codec.Startcode.{Bytes, find_startcode}
use mgw.Serializer.{s_write, s_w8, s_wb16}

-- `while (nal_start < end && !*(nal_start++));`, by the number of bytes before `end`: it stops behind the first
-- byte that is not zero.
pub skip : Bytes → ℕ → ℕ → ℕ
skip m zero p = p
skip m (suc n) p = let rest = skip m n (p + 1) in if m p == 0 then rest else p + 1

abbrev pub nal_type : Bytes → ℕ → ℕ
nal_type m p = m p % 2 ^ 5

-- The loop of `mgw_avc_keyframe`, with fuel.
pub keyframe_loop : Bytes → ℕ → ℕ → ℕ → Option Bool
keyframe_loop m zero nal_start end = none
keyframe_loop m (suc fuel) nal_start end =
    let start = skip m (end - nal_start) nal_start in
    let rest = keyframe_loop m fuel (find_startcode m start end) end in
    let type = nal_type m start in
    if start == end then some false else if type == 5 || type == 1 then some (type == 5) else rest

-- `mgw_avc_keyframe`.
pub keyframe : Bytes → ℕ → ℕ → ℕ → Option Bool
keyframe m fuel data_start size =
    keyframe_loop m fuel (find_startcode m data_start (data_start + size)) (data_start + size)

-- The four results of `get_avc_sps_pps`, where NULL is 0.
pub record Params : Type 0 where
  pub sps : ℕ
  pub sps_size : ℕ
  pub pps : ℕ
  pub pps_size : ℕ

-- What it stores of the unit from `start` to `stop`.
abbrev pub store : Bytes → ℕ → ℕ → Params → Params
store m start stop r =
    if nal_type m start == 7
    then record r { sps = start; sps_size = stop - start }
    else if nal_type m start == 8
    then record r { pps = start; pps_size = stop - start }
    else r

-- The loop of `get_avc_sps_pps`, with fuel.
pub sps_pps_loop : Bytes → ℕ → ℕ → ℕ → Params → Option Params
sps_pps_loop m zero nal_start end r = none
sps_pps_loop m (suc fuel) nal_start end r =
    let start = skip m (end - nal_start) nal_start in
    let nal_end = find_startcode m start end in
    let rest = sps_pps_loop m fuel nal_end end (store m start nal_end r) in
    if start == end then some r else rest

pub get_avc_sps_pps : Bytes → ℕ → ℕ → ℕ → Params → Option Params
get_avc_sps_pps m fuel data_start size r =
    sps_pps_loop m fuel (find_startcode m data_start (data_start + size)) (data_start + size) r

-- The `n` bytes from the address `p`.
abbrev pub bytes_at : Bytes → ℕ → ℕ → List ℕ
bytes_at m p zero = []
bytes_at m p (suc n) = m p ∷ bytes_at m (p + 1) n

-- The bytes that `mgw_parse_avc_header` writes once it has both sets of parameters.
pub write_avc_header : Bytes → Params → List ℕ
write_avc_header m r =
    let s = s_w8 (s_w8 (s_write (s_w8 [] 1) (bytes_at m (r.sps + 1) 3)) 255) 225 in
    let s1 = s_w8 (s_write (s_wb16 s (r.sps_size % 2 ^ 16)) (bytes_at m r.sps r.sps_size)) 1 in
    s_write (s_wb16 s1 (r.pps_size % 2 ^ 16)) (bytes_at m r.pps r.pps_size)

-- `mgw_parse_avc_header`, with the header that it returns; none is its early return of 0.
pub parse_avc_header : Bytes → ℕ → ℕ → ℕ → Option (Option (List ℕ))
parse_avc_header m fuel data_start size =
    elim (get_avc_sps_pps m fuel data_start size
      (record { sps = 0; sps_size = 0; pps = 0; pps_size = 0 })) [
        | none ↦ none
        | some r ↦ some (
            if r.sps == 0 || (r.pps == 0 || ltb r.sps_size 4)
            then none
            else some (write_avc_header m r))
      ]
