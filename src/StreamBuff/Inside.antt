-- ===== src/StreamBuff/Inside.antt =====
-- No copy of stream_buff.c leaves the data: the entries' positions and lengths stay in range,
-- also where the walk of CheckBuffDataCover leaves the table.
use mgw.Prelude.{
  ℕ, zero, suc, ◌+◌, ◌-◌, ◌*◌, ◌/◌, ◌%◌, ◌^◌, ◌≤◌, ◌<◌, ◌≡◌, refl, sym, ◌∙◌, ap, subst, inl, inr,
  Bool-cases, Option-cases, Option, some, some_inj, ltb→lt, ltb_of_leb, length, take, drop, set,
  length-set, length-write_at, write_at, get_or-set_all, ltb, leb, sub32, if◌then◌else◌, arith,
}
use mgw.Prelude.Int.{ℤ, pos, negsuc}
use mgw.StreamBuff.{
  zero_frame, Memory, Frame, Placed, entry, covers, load32, frame_size, place, filled, advance,
  check_cover_loop, check_buff_data_cover, put_one_frame,
}
use mgw.StreamBuff.Cover.{cleared, places-cleared, lens-cleared}

-- Every entry names bytes of the data: it starts inside, and is less than half of it long.
pub record IsInside (m : Memory) : Type 0 where
  pub block : length m.bytes ≡ m.datasize
  pub small : m.datasize ≤ 2 ^ 31
  pub some_data : 0 < m.datasize
  pub positions : (j : ℕ) → (entry m j).position < m.datasize
  pub lens : (j : ℕ) → (entry m j).len < m.datasize

-- What the walk of CheckBuffDataCover never changes.
record Same (m m' : Memory) : Type 0 where
  datasize : m'.datasize ≡ m.datasize
  block : length m'.bytes ≡ length m.bytes
  places : (j : ℕ) → (entry m' j).position ≡ (entry m j).position
  lens : (j : ℕ) → (entry m' j).len ≡ (entry m j).len

Same-refl : (m : Memory) → Same m m
Same-refl m = record { datasize = refl; block = refl; places = λ j. refl; lens = λ j. refl }

Same-cleared : (m m' : Memory) (k : ℕ) → Same (cleared m k) m' → Same m m'
Same-cleared m m' k s = record {
  datasize = s.datasize;
  block = s.block;
  places = λ j. s.places j ∙ places-cleared m k j;
  lens = λ j. s.lens j ∙ lens-cleared m k j;
}

abbrev pub behind : Memory → ℕ → ℕ
behind m k = (k - m.max_valid_frames) * frame_size

abbrev pub struck : Memory → ℕ → Memory
struck m k = record m { bytes = set m.bytes (behind m k) 0 }

Same-struck : (m m' : Memory) (k : ℕ) → Same (struck m k) m' → Same m m'
Same-struck m m' k s = record {
  datasize = s.datasize;
  block = s.block ∙ length-set m.bytes _ 0;
  places = s.places;
  lens = s.lens;
}

check_cover_loop-Same :
    (pos_s pos_e rounds k : ℕ) (m m' : Memory)
    → check_cover_loop pos_s pos_e rounds k m ≡ some m'
    → Same m m'
unfolding check_cover_loop
check_cover_loop-Same pos_s pos_e zero k m m' e = subst (Same m) (some_inj e) (Same-refl m)
check_cover_loop-Same pos_s pos_e (suc rounds) k m m' e =
    elim (Bool-cases (ltb k m.max_valid_frames)) [
      | inl t ↦ elim (Bool-cases (covers pos_s pos_e (entry m k).position)) [
        | inl c ↦
            Same-cleared m m' k
              (check_cover_loop-Same pos_s pos_e rounds (k + 1) (cleared m k) m' (rw (t, c) at e))
        | inr c ↦ subst (Same m) (some_inj (rw (t, c) at e)) (Same-refl m)
      ]
      | inr t ↦ elim (Bool-cases (leb (behind m k + 8) m.datasize)) [
        | inl l ↦ elim (Bool-cases (covers pos_s pos_e (load32 m.bytes (behind m k + 4)))) [
          | inl c ↦
              Same-struck m m' k (
                check_cover_loop-Same pos_s pos_e rounds (k + 1) (struck m k) m'
                  (rw (t, l, c) at e))
          | inr c ↦ subst (Same m) (some_inj (rw (t, l, c) at e)) (Same-refl m)
        ]
        | inr l ↦ cc (rw (t, l) at e)
      ]
    ]

module _ (m : Memory) (f : Frame) (inside : IsInside m)
    (half : length f.payload < m.datasize / 2) where
  abbrev w : ℕ
  w = m.writ_frame_count % m.max_valid_frames

  abbrev put : Placed
  put = place m.datasize (entry m w).position f.payload m.bytes

  next-lt : put.next < m.datasize
  unfolding place
  next-lt = ground (arith, inside.positions w)

  length-put : length put.bytes ≡ m.datasize
  unfolding place
  length-put =
      let d = m.bytes in
      let p = (entry m w).position in
      let left : ℕ = sub32 m.datasize p in
      ground (
        arith,
        length-write_at p f.payload d,
        length-write_at p (take left f.payload) d,
        length-write_at 0 (drop left f.payload) (write_at p (take left f.payload) d),
      )

  positions-filled : (j : ℕ) → (entry (filled m put f) j).position < m.datasize
  positions-filled =
      get_or-set_all (λ e. e.position < m.datasize) m.frames w _ zero_frame inside.positions
        (inside.positions w)

  lens-filled : (j : ℕ) → (entry (filled m put f) j).len < m.datasize
  lens-filled =
      get_or-set_all (λ e. e.len < m.datasize) m.frames w _ zero_frame inside.lens (omega arith)

  IsInside-advance :
      (m2 : Memory)
      → Same (filled m put f) m2
      → IsInside (advance ((w + 1) % m.max_valid_frames) put.next m2)
  IsInside-advance m2 s = record {
    block = s.block ∙ length-put ∙ sym s.datasize;
    small = rw s.datasize inside.small;
    some_data = rw s.datasize inside.some_data;
    positions =
        get_or-set_all (λ e. e.position < m2.datasize) m2.frames _ _ zero_frame
          (λ j. rw (s.places j, s.datasize) (positions-filled j)) (rw s.datasize next-lt);
    lens =
        get_or-set_all (λ e. e.len < m2.datasize) m2.frames _ _ zero_frame inside2
          (inside2 ((w + 1) % m.max_valid_frames));
  }
    where
      inside2 : (j : ℕ) → (entry m2 j).len < m2.datasize
      inside2 j = rw (s.lens j, s.datasize) (lens-filled j)

-- The block after the walk of CheckBuffDataCover, or none where it leaves the block.
abbrev covered : Frame → Memory → Option Memory
covered f m =
    let w = m.writ_frame_count % m.max_valid_frames in
    let p = place m.datasize (entry m w).position f.payload m.bytes in
    check_buff_data_cover (entry m w).position p.pos_e ((w + 1) % m.max_valid_frames) (filled m p f)

-- Whatever PutOneFrameToBuff answers, where it answers, the entries still name bytes of the data.
pub put_one_frame-IsInside :
    (m : Memory) (f : Frame) (c : ℤ) (m' : Memory)
    → IsInside m
    → put_one_frame m f ≡ some (c, m')
    → IsInside m'
unfolding put_one_frame check_buff_data_cover
put_one_frame-IsInside m f c m' inside e =
    elim (Bool-cases (leb (m.datasize / 2) (length f.payload))) [
      | inl big ↦ subst IsInside (ap (λ (r : ℤ × Memory). r.1) (some_inj (rw big at e))) inside
      | inr fits ↦ elim (Option-cases (covered f m)) [
        | inl stuck ↦ cc (rw (fits, stuck) at e)
        | inr (m2, went) ↦
            subst IsInside (ap (λ (r : ℤ × Memory). r.1) (some_inj (rw (fits, went) at e))) (
              IsInside-advance m f inside (ltb→lt _ _ (ltb_of_leb _ _ fits)) m2
                (check_cover_loop-Same _ _ _ _ _ m2 went))
      ]
    ]

covered-Same :
    (m : Memory) (f : Frame) (m2 : Memory)
    → covered f m ≡ some m2
    → Same
        (filled m
          (place m.datasize
            (entry m (m.writ_frame_count % m.max_valid_frames)).position
            f.payload
            m.bytes)
          f)
        m2
unfolding check_buff_data_cover
covered-Same m f m2 went = check_cover_loop-Same _ _ _ _ _ m2 went

-- PutOneFrameToBuff answers by the size of the frame alone, and the data keep their size.
pub put_one_frame_answers :
    (m : Memory) (f : Frame) (c : ℤ) (m' : Memory)
    → put_one_frame m f ≡ some (c, m')
    → (c ≡ (if leb (m.datasize / 2) (length f.payload) then negsuc 1 else pos 0))
      × (m'.datasize ≡ m.datasize)
unfolding put_one_frame check_buff_data_cover
put_one_frame_answers m f c m' e = elim (Bool-cases (leb (m.datasize / 2) (length f.payload))) [
  | inl big ↦ ground (arith, big, e)
  | inr fits ↦ elim (Option-cases (covered f m)) [
    | inl stuck ↦ cc (rw (fits, stuck) at e)
    | inr (m2, went) ↦
        let s = covered-Same m f m2 went in
        let r = some_inj (rw (fits, went) at e) in
        (
          rw fits (sym (ap (λ (r : ℤ × Memory). r.0) r)),
          sym (ap (λ (r : ℤ × Memory). r.1.datasize) r) ∙ s.datasize,
        )
  ]
]
