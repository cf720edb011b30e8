-- ===== src/Codec/Nals/Total.antt =====
-- The walks end on every input.
use mgw.Prelude.{
  ℕ, zero, suc, ◌+◌, ◌-◌, ◌≤◌, ◌<◌, ◌≡◌, refl, Bool, false, ◌||◌, some, ◌==◌, Bool-cases, le_or_lt,
  ◌⊎◌, inl, inr, arith,
}
use mgw.Codec.Startcode.{Bytes, find_startcode}
use mgw.Codec.Startcode.Search.{find_startcode-Code}
use mgw.Codec.Nals.{
  skip, nal_type, keyframe_loop, keyframe, Params, store, sps_pps_loop, get_avc_sps_pps,
}

skip-le : (m : Bytes) (n p : ℕ) → skip m n p ≤ p + n
unfolding skip
skip-le m zero p = omega arith
skip-le m (suc n) p = elim (Bool-cases (m p == 0)) [
  | inl e ↦ rw e (omega (arith, skip-le m n (p + 1)))
  | inr e ↦ rw e (omega arith)
]

skip-ge : (m : Bytes) (n p : ℕ) → p ≤ skip m n p
unfolding skip
skip-ge m zero p = omega arith
skip-ge m (suc n) p = elim (Bool-cases (m p == 0)) [
  | inl e ↦ rw e (omega (arith, skip-ge m n (p + 1)))
  | inr e ↦ rw e (omega arith)
]

skip-lt : (m : Bytes) (n p : ℕ) → 0 < n → p < skip m n p
unfolding skip
skip-lt m zero p h = absurd (omega arith)
skip-lt m (suc n) p h = elim (Bool-cases (m p == 0)) [
  | inl e ↦ rw e (omega (arith, skip-ge m n (p + 1)))
  | inr e ↦ rw e (omega arith)
]

module _ (m : Bytes) (end : ℕ) (bytes : (q : ℕ) → m q < 256) (high : 6 ≤ end) where
  find-between : (p : ℕ) → p ≤ end → (p ≤ find_startcode m p end) × (find_startcode m p end ≤ end)
  find-between p h = elim (find_startcode-Code m p end bytes high) [
    | inl (e, _) ↦ (omega arith, omega arith)
    | inr (k, c) ↦ (c.after, omega (arith, c.before))
  ]

  -- A round ends at the end, or leads behind where it began.
  round :
      (p : ℕ)
      → p ≤ end
      → (skip m (end - p) p ≡ end) ⊎ ((p < skip m (end - p) p) × (skip m (end - p) p ≤ end))
  round p h = elim (le_or_lt end p) [
    | inl l ↦ inl (omega (arith, skip-le m (end - p) p, skip-ge m (end - p) p))
    | inr l ↦ inr (skip-lt m (end - p) p (omega arith), omega (arith, skip-le m (end - p) p))
  ]

  keyframe_loop-total :
      (fuel p : ℕ) → p ≤ end → end - p < fuel → (b : Bool) × (keyframe_loop m fuel p end ≡ some b)
  unfolding keyframe_loop
  keyframe_loop-total zero p h f = absurd (omega arith)
  keyframe_loop-total (suc fuel) p h f = elim (round p h) [
    | inl e ↦ (false, ground (arith, e))
    | inr (lt, le) ↦
        let start = skip m (end - p) p in
        let (ge, le') = find-between start le in
        let (b, later) = keyframe_loop-total fuel (find_startcode m start end) le' (omega arith) in
        elim (Bool-cases (start == end)) [
          | inl e ↦ (false, rw e refl)
          | inr e ↦ elim (Bool-cases (nal_type m start == 5 || nal_type m start == 1)) [
            | inl t ↦ (nal_type m start == 5, rw (e, t) refl)
            | inr t ↦ (b, rw (e, t) later)
          ]
        ]
  ]

  sps_pps_loop-total :
      (fuel p : ℕ) (r : Params)
      → p ≤ end
      → end - p < fuel
      → (r' : Params) × (sps_pps_loop m fuel p end r ≡ some r')
  unfolding sps_pps_loop
  sps_pps_loop-total zero p r h f = absurd (omega arith)
  sps_pps_loop-total (suc fuel) p r h f = elim (round p h) [
    | inl e ↦ (r, ground (arith, e))
    | inr (lt, le) ↦
        let start = skip m (end - p) p in
        let (ge, le') = find-between start le in
        let (r', later) =
          sps_pps_loop-total fuel (find_startcode m start end)
            (store m start (find_startcode m start end) r) le' (omega arith) in
        elim (Bool-cases (start == end)) [ inl e ↦ (r, rw e refl) | inr e ↦ (r', rw e later) ]
  ]

-- On any bytes, well formed or not, `mgw_avc_keyframe` and `get_avc_sps_pps` return: one round of their
-- loops for each byte and one more are enough.
pub walks_total :
    (m : Bytes) (data_start size : ℕ) (r : Params)
    → ((q : ℕ) → m q < 256)
    → 6 ≤ data_start + size
    → ((b : Bool) × (keyframe m (size + 1) data_start size ≡ some b))
      × ((r' : Params) × (get_avc_sps_pps m (size + 1) data_start size r ≡ some r'))
unfolding keyframe get_avc_sps_pps
walks_total m data_start size r bytes high =
    let end = data_start + size in
    let (ge, le) = find-between m end bytes high data_start (omega arith) in
    (
      keyframe_loop-total m end bytes high (size + 1) (find_startcode m data_start end) le
          (omega arith),
      sps_pps_loop-total m end bytes high (size + 1) (find_startcode m data_start end) r le
          (omega arith),
    )
