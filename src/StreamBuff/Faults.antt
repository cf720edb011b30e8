-- ===== src/StreamBuff/Faults.antt =====
-- Two inputs at which CheckBuffDataCover does not do what it is for.
use mgw.Prelude.{
  ℕ, zero, suc, ◌+◌, ◌-◌, ◌/◌, ◌^◌, ◌≤◌, ◌<◌, ◌≡◌, refl, sym, ◌∙◌, ap, subst, inl, inr, true, false,
  Bool-cases, Option-cases, Option, some, some_inj, List, [], ◌∷◌, length, get_or, set, length-set,
  get_or-set_self, get_or-set_ne, get_or_outside, ltb, leb, lt→ltb, leb_of_ltb, sub32, mod_small,
  mod_wrap, arith,
}
use mgw.Prelude.Int.{ℤ, pos}
use native.Mathlib.Decide.{dec_lt, ℕ_discrete}
use native.Mathlib.Nat.{mod-lt}
use mgw.StreamBuff.{
  MemoryFrame, zero_frame, Memory, Frame, entry, covers, load32, place, filled, advance,
  set_position, check_cover_loop, check_buff_data_cover, put_one_frame,
}
use mgw.StreamBuff.Cover.{cleared, invalid, entry-cleared_self, check_cover_loop-Kept}
use mgw.StreamBuff.Inside.{IsInside, behind, struck}
use mgw.StreamBuff.Window.{slot, next_slot, placed}

-- Where nothing was written the test covers every position.
covers_nothing : (p n : ℕ) → covers p p n ≡ true
unfolding covers
covers_nothing p n = ground arith

cleared_valid : (m : Memory) (k : ℕ) → (entry (cleared m k) k).valid ≡ false
unfolding invalid
cleared_valid m k = ap (λ (e : MemoryFrame). e.valid) (entry-cleared_self m k)

check_cover_loop_all :
    (p rounds k : ℕ) (m : Memory)
    → k + rounds ≤ m.max_valid_frames
    → (m' : Memory) × (check_cover_loop p p rounds k m ≡ some m')
      × ((j : ℕ) → k ≤ j → j < k + rounds → (entry m' j).valid ≡ false)
unfolding check_cover_loop
check_cover_loop_all p zero k m h = (m, refl, λ j a b. absurd (omega arith))
check_cover_loop_all p (suc rounds) k m h =
    let (m', e, all) = check_cover_loop_all p rounds (k + 1) (cleared m k) (omega arith) in
    let (m2, e2, kept) =
      check_cover_loop-Kept p p rounds (k + 1) (cleared m k) (inr (omega arith)) in
    let inside : ltb k m.max_valid_frames ≡ true = lt→ltb _ _ (omega arith) in
    let same : m2 ≡ m' = some_inj (sym e2 ∙ e) in
    (
      m',
      rw (inside, covers_nothing p (entry m k).position) e,
      λ j a b. elim (ℕ_discrete k j) [
        | yes at ↦
            subst (λ i. (entry m' i).valid ≡ false) at
              (ap (λ (x : Memory). (entry x k).valid) (sym same)
                ∙ ap (λ (g : MemoryFrame). g.valid) (kept.before k (omega arith))
                ∙ cleared_valid m k)
        | no off ↦ all j (omega arith) (omega arith)
      ],
    )

valid-set_position :
    (fs : List MemoryFrame) (k p j : ℕ)
    → (get_or (set_position fs k p) j zero_frame).valid ≡ (get_or fs j zero_frame).valid
valid-set_position fs k p j = elim (ℕ_discrete k j) [
  | yes e ↦
      subst
        (λ i. (get_or (set_position fs k p) i zero_frame).valid ≡ (get_or fs i zero_frame).valid) e
        (elim (dec_lt k (length fs)) [
          | yes h ↦ ap (λ (g : MemoryFrame). g.valid) (get_or-set_self fs k _ zero_frame h)
          | no h ↦
              ap (λ (g : MemoryFrame). g.valid)
                (get_or_outside (set_position fs k p) k zero_frame
                    (rw (length-set fs k) (omega arith))
                  ∙ sym (get_or_outside fs k zero_frame (omega arith)))
        ])
  | no h ↦ ap (λ (g : MemoryFrame). g.valid) (get_or-set_ne fs k j _ zero_frame h)
]

place_nothing :
    (m : Memory) (f : Frame)
    → IsInside m
    → length f.payload ≡ 0
    → (placed m f).pos_e ≡ (entry m (slot m)).position
unfolding place
place_nothing m f inside empty = ground (arith, inside.positions (slot m))

-- An empty frame is taken, and marks as overwritten all the entries that the walk goes over,
-- though it wrote nothing: with the next slot 0, 1 or 2 these are `max_valid_frames - 2` entries.
pub put_one_frame_empty :
    (m : Memory) (f : Frame)
    → IsInside m
    → 2 ≤ m.datasize
    → length f.payload ≡ 0
    → 2 ≤ m.max_valid_frames
    → m.max_valid_frames < 2 ^ 31
    → next_slot m ≤ 2
    → (m' : Memory) × (put_one_frame m f ≡ some (pos 0, m'))
      × ((j : ℕ)
          → next_slot m ≤ j
          → j < next_slot m + (m.max_valid_frames - 2)
          → (entry m' j).valid ≡ false)
unfolding put_one_frame check_buff_data_cover
put_one_frame_empty m f inside some_data empty two small low =
    let p : ℕ = (entry m (slot m)).position in
    let (m2, e, all) =
      check_cover_loop_all p (sub32 m.max_valid_frames 2) (next_slot m) (filled m (placed m f) f)
        (omega arith) in
    let fits : leb (m.datasize / 2) (length f.payload) ≡ false = ground arith in
    let nothing : (placed m f).pos_e ≡ p = place_nothing m f inside empty in
    (
      advance (next_slot m) (placed m f).next m2,
      rw (
        fits,
        subst
            (λ q.
              check_cover_loop p q (sub32 m.max_valid_frames 2) (next_slot m)
                (filled m (placed m f) f)
              ≡ some m2)
            (sym nothing) e,
      ),
      λ j a b.
          valid-set_position m2.frames (next_slot m) (placed m f).next j ∙ all j a (omega arith),
    )

zero-set : (d : List ℕ) (i : ℕ) → get_or d 0 0 ≡ 0 → get_or (set d i 0) 0 0 ≡ 0
zero-set [] i z = refl
zero-set (x ∷ d) zero z = refl
zero-set (x ∷ d) (suc i) z = z

byte0_stays :
    (pos_s pos_e rounds k : ℕ) (m m' : Memory)
    → get_or m.bytes 0 0 ≡ 0
    → check_cover_loop pos_s pos_e rounds k m ≡ some m'
    → get_or m'.bytes 0 0 ≡ 0
unfolding check_cover_loop
byte0_stays pos_s pos_e zero k m m' z e =
    subst (λ (x : Memory). get_or x.bytes 0 0 ≡ 0) (some_inj e) z
byte0_stays pos_s pos_e (suc rounds) k m m' z e = elim (Bool-cases (ltb k m.max_valid_frames)) [
  | inl t ↦ elim (Bool-cases (covers pos_s pos_e (entry m k).position)) [
    | inl c ↦ byte0_stays pos_s pos_e rounds (k + 1) (cleared m k) m' z (rw (t, c) at e)
    | inr c ↦ subst (λ (x : Memory). get_or x.bytes 0 0 ≡ 0) (some_inj (rw (t, c) at e)) z
  ]
  | inr t ↦ elim (Bool-cases (leb (behind m k + 8) m.datasize)) [
    | inl l ↦ elim (Bool-cases (covers pos_s pos_e (load32 m.bytes (behind m k + 4)))) [
      | inl c ↦
          byte0_stays pos_s pos_e rounds (k + 1) (struck m k) m' (zero-set m.bytes (behind m k) z)
            (rw (t, l, c) at e)
      | inr c ↦ subst (λ (x : Memory). get_or x.bytes 0 0 ≡ 0) (some_inj (rw (t, l, c) at e)) z
    ]
    | inr l ↦ cc (rw (t, l) at e)
  ]
]

zero-struck : (m : Memory) (k : ℕ) → behind m k ≡ 0 → get_or (struck m k).bytes 0 0 ≡ 0
zero-struck m k e = rw e (set_first m.bytes)
  where
    set_first : (d : List ℕ) → get_or (set d 0 0) 0 0 ≡ 0
    set_first [] = refl
    set_first (x ∷ d) = refl

strike_loop :
    (pos_s pos_e rounds k : ℕ) (m m' : Memory)
    → k + 1 ≡ m.max_valid_frames
    → 8 ≤ m.datasize
    → covers pos_s pos_e (entry m k).position ≡ true
    → covers pos_s pos_e (load32 m.bytes 4) ≡ true
    → check_cover_loop pos_s pos_e (suc (suc rounds)) k m ≡ some m'
    → get_or m'.bytes 0 0 ≡ 0
unfolding check_cover_loop
strike_loop pos_s pos_e rounds k m m' last eight hit beyond e =
    let first : behind m (k + 1) ≡ 0 = omega arith in
    let inside : ltb k m.max_valid_frames ≡ true = ground arith in
    let outside : ltb (k + 1) m.max_valid_frames ≡ false = ground arith in
    let room : leb (behind m (k + 1) + 8) m.datasize ≡ true = ground (arith, first) in
    let reads : covers pos_s pos_e (load32 m.bytes (behind m (k + 1) + 4)) ≡ true =
      subst (λ i. covers pos_s pos_e (load32 m.bytes i) ≡ true) (omega arith) beyond in
    byte0_stays pos_s pos_e rounds (k + 1 + 1) (struck (cleared m k) (k + 1)) m'
      (zero-struck (cleared m k) (k + 1) first) (rw (inside, hit, outside, room, reads) at e)

-- The block after the walk, or none where it leaves the block.
abbrev walk : Memory → Frame → Option Memory
walk m f =
    check_buff_data_cover (entry m (slot m)).position (placed m f).pos_e (next_slot m)
      (filled m (placed m f) f)

-- A frame is put into the table's last entry but one, and the walk, which begins at the last entry, covers that
-- entry and the position as which the payload bytes 4 to 7 then read. It does not stop at the table's end: where `PutOneFrameToBuff` answers, it has
-- written a 0 over the first byte of the data, whatever stood there. Conditions: the frame is
-- shorter than half the data, the data have 8 bytes or more and the table 4 to 2^31 - 1 entries.
pub put_one_frame_strikes :
    (m : Memory) (f : Frame) (m' : Memory)
    → length f.payload < m.datasize / 2
    → 8 ≤ m.datasize
    → 4 ≤ m.max_valid_frames
    → m.max_valid_frames < 2 ^ 31
    → next_slot m + 1 ≡ m.max_valid_frames
    → covers (entry m (slot m)).position (placed m f).pos_e (entry m (next_slot m)).position ≡ true
    → covers (entry m (slot m)).position (placed m f).pos_e (load32 (placed m f).bytes 4) ≡ true
    → put_one_frame m f ≡ some (pos 0, m')
    → get_or m'.bytes 0 0 ≡ 0
unfolding put_one_frame check_buff_data_cover
put_one_frame_strikes m f m' half eight four small last hit beyond e =
    let fits : leb (m.datasize / 2) (length f.payload) ≡ false = leb_of_ltb _ _ (lt→ltb _ _ half) in
    let rounds : sub32 m.max_valid_frames 2 ≡ suc (suc (m.max_valid_frames - 4)) = omega arith in
    elim (Option-cases (walk m f)) [
      | inl stuck ↦ cc (rw (fits, stuck) at e)
      | inr (m2, went) ↦
          ap (λ (r : ℤ × Memory). get_or r.1.bytes 0 0) (sym (some_inj (rw (fits, went) at e)))
          ∙ strike_loop _ _ (m.max_valid_frames - 4) (next_slot m) (filled m (placed m f) f) m2 last
              eight
              (subst (λ g. covers (entry m (slot m)).position (placed m f).pos_e g.position ≡ true)
                (sym other) hit)
              beyond
              (subst
                (λ n.
                  check_cover_loop (entry m (slot m)).position (placed m f).pos_e n (next_slot m)
                    (filled m (placed m f) f)
                  ≡ some m2)
                rounds went)
    ]
  where
    other : entry (filled m (placed m f) f) (next_slot m) ≡ entry m (next_slot m)
    other = get_or-set_ne m.frames (slot m) (next_slot m) _ zero_frame apart
      where
        apart : slot m ≡ next_slot m → ⊥
        apart h = elim (dec_lt (slot m + 1) m.max_valid_frames) [
          | yes i ↦ absurd (omega (arith, mod_small _ _ i))
          | no i ↦ absurd (
              omega (
                arith,
                mod-lt m.writ_frame_count {m = m.max_valid_frames} (omega arith),
                mod_wrap (slot m + 1) m.max_valid_frames (omega arith) (omega arith),
              ))
        ]
