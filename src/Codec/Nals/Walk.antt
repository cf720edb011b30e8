-- ===== src/Codec/Nals/Walk.antt =====
-- The walks visit the units of a byte stream.
use mgw.Prelude.{
  ℕ, zero, suc, ◌+◌, ◌-◌, ◌≤◌, ◌<◌, ◌≡◌, sym, subst, ap, ◌∙◌, Bool, true, false, Option, none, some,
  List, [], ◌∷◌, length, ◌==◌, if◌then◌else◌, Option-cases, inl, inr, arith,
}
use mgw.Codec.Startcode.{Bytes}
use mgw.Codec.Nals.{nal_type, keyframe_loop, keyframe, Params, store, sps_pps_loop, get_avc_sps_pps}
use mgw.Codec.Nals.Stream.{Stream, Stream-le, find-next, find-first, skip-Prefix, skip_end}

-- Whether the first coded slice is one of a key frame.
abbrev pub first_slice_is_key : Bytes → List (ℕ × ℕ) → Bool
first_slice_is_key m [] = false
first_slice_is_key m ((s, e) ∷ units) =
    if nal_type m s == 5
    then true
    else if nal_type m s == 1
    then false
    else first_slice_is_key m units

-- The last unit of a type.
abbrev pub last_unit : Bytes → ℕ → List (ℕ × ℕ) → Option (ℕ × ℕ)
last_unit m t [] = none
last_unit m t ((s, e) ∷ units) = elim (last_unit m t units) [
  | some u ↦ some u
  | none ↦ if nal_type m s == t then some (s, e) else none
]

-- The address and the size of a unit, or what stood there before.
abbrev pub start_or : Option (ℕ × ℕ) → ℕ → ℕ
start_or none r = r
start_or (some (s, e)) r = s

abbrev pub size_or : Option (ℕ × ℕ) → ℕ → ℕ
size_or none r = r
size_or (some (s, e)) r = e - s

abbrev pub last_params : Bytes → List (ℕ × ℕ) → Params → Params
last_params m units r = record {
  sps = start_or (last_unit m 7 units) r.sps;
  sps_size = size_or (last_unit m 7 units) r.sps_size;
  pps = start_or (last_unit m 8 units) r.pps;
  pps_size = size_or (last_unit m 8 units) r.pps_size;
}

last_params-cons :
    (m : Bytes) (s e : ℕ) (units : List (ℕ × ℕ)) (r : Params)
    → last_params m units (store m s e r) ≡ last_params m ((s, e) ∷ units) r
last_params-cons m s e units r = elim (Option-cases (last_unit m 7 units)) [
  | inl a ↦ elim (Option-cases (last_unit m 8 units)) [
    | inl b ↦ ground (arith, a, b)
    | inr (v, b) ↦ ground (arith, a, b)
  ]
  | inr (u, a) ↦ elim (Option-cases (last_unit m 8 units)) [
    | inl b ↦ ground (arith, a, b)
    | inr (v, b) ↦ ground (arith, a, b)
  ]
]

module _ (m : Bytes) (end : ℕ) (bytes : (q : ℕ) → m q < 256) (high : 6 ≤ end) where
  keyframe_loop-Stream :
      (units : List (ℕ × ℕ)) (p fuel : ℕ)
      → length units < fuel
      → Stream m end p units
      → keyframe_loop m fuel p end ≡ some (first_slice_is_key m units)
  unfolding keyframe_loop
  keyframe_loop-Stream units p zero f h = absurd (omega arith)
  keyframe_loop-Stream [] p (suc fuel) f h =
      subst (λ x. keyframe_loop m (suc fuel) x end ≡ some false) (sym h)
        (rw (skip_end m end) (ground arith))
  keyframe_loop-Stream ((s, e) ∷ units) p (suc fuel) f (pre, lt, z, z', c, rest) =
      let le : e ≤ end = Stream-le m end e units rest in
      let later = keyframe_loop-Stream units e fuel (omega arith) rest in
      rw (skip-Prefix m p s end (omega arith) pre)
        (rw (find-next m end bytes high s e units lt z' c rest) (ground (arith, later)))

  sps_pps_loop-Stream :
      (units : List (ℕ × ℕ)) (p fuel : ℕ) (r : Params)
      → length units < fuel
      → Stream m end p units
      → sps_pps_loop m fuel p end r ≡ some (last_params m units r)
  unfolding sps_pps_loop
  sps_pps_loop-Stream units p zero r f h = absurd (omega arith)
  sps_pps_loop-Stream [] p (suc fuel) r f h =
      subst (λ x. sps_pps_loop m (suc fuel) x end r ≡ some r) (sym h)
        (rw (skip_end m end) (ground arith))
  sps_pps_loop-Stream ((s, e) ∷ units) p (suc fuel) r f (pre, lt, z, z', c, rest) =
      let le : e ≤ end = Stream-le m end e units rest in
      let later =
        sps_pps_loop-Stream units e fuel (store m s e r) (omega arith) rest
        ∙ ap some (last_params-cons m s e units r) in
      let off : (s == end) ≡ false = ground arith in
      rw (skip-Prefix m p s end (omega arith) pre)
        (rw (find-next m end bytes high s e units lt z' c rest) (rw off later))

-- In a byte stream of NAL units `mgw_avc_keyframe` says whether the first slice is one of a key frame (type 5 and
-- not 1), and there is none then says no; more rounds of its loop than there are units are enough.
keyframe-Stream :
    (m : Bytes) (data_start size fuel : ℕ) (units : List (ℕ × ℕ))
    → ((q : ℕ) → m q < 256)
    → 6 ≤ data_start + size
    → Stream m (data_start + size) data_start units
    → length units < fuel
    → keyframe m fuel data_start size ≡ some (first_slice_is_key m units)
unfolding keyframe
keyframe-Stream m data_start size fuel units bytes high h f =
    rw (find-first m (data_start + size) bytes high data_start units h)
      (keyframe_loop-Stream m (data_start + size) bytes high units data_start fuel f h)

-- In a byte stream of NAL units `get_avc_sps_pps` returns the address and the size, without the start code, of the last unit of type 7 and of the
-- last one of type 8, and leaves what it was given where there is none; more rounds of its loop than there are units are enough.
pub get_avc_sps_pps-Stream :
    (m : Bytes) (data_start size fuel : ℕ) (units : List (ℕ × ℕ)) (r : Params)
    → ((q : ℕ) → m q < 256)
    → 6 ≤ data_start + size
    → Stream m (data_start + size) data_start units
    → length units < fuel
    → get_avc_sps_pps m fuel data_start size r ≡ some (last_params m units r)
unfolding get_avc_sps_pps
get_avc_sps_pps-Stream m data_start size fuel units r bytes high h f =
    rw (find-first m (data_start + size) bytes high data_start units h)
      (sps_pps_loop-Stream m (data_start + size) bytes high units data_start fuel r f h)
