-- ===== src/StreamBuff/Cover.antt =====
-- CheckBuffDataCover where it stops inside the frame table: what it marks and what it leaves.
use mgw.Prelude.{
  ℕ, zero, suc, ◌+◌, ◌≤◌, ◌<◌, ◌≡◌, refl, sym, ◌∙◌, ap, subst, ◌⊎◌, inl, inr, true, false, some,
  ltb, Bool-cases, length, sub32, get_or-set_self, get_or-set_ne, get_or_outside, length-set,
  lt→ltb, arith,
}
use native.Mathlib.Decide.{dec_lt, ℕ_discrete}
use mgw.StreamBuff.{
  MemoryFrame, zero_frame, Memory, entry, covers, clear_valid, check_cover_loop,
  check_buff_data_cover,
}

-- The loop meets an entry that is not covered, or ends, before the table does.
abbrev pub Stops : ℕ → ℕ → ℕ → ℕ → Memory → Type 0
Stops pos_s pos_e rounds k m =
    ((j : ℕ) × (k ≤ j)
      × (j < m.max_valid_frames)
      × (covers pos_s pos_e (entry m j).position ≡ false))
    ⊎ (k + rounds ≤ m.max_valid_frames)

-- What the loop from index `k` on leaves as it was.
pub record Kept (pos_s pos_e rounds k : ℕ) (m m' : Memory) : Type 0 where
  pub datasize : m'.datasize ≡ m.datasize
  pub count : m'.writ_frame_count ≡ m.writ_frame_count
  pub capacity : m'.max_valid_frames ≡ m.max_valid_frames
  pub table : length m'.frames ≡ length m.frames
  pub bytes : m'.bytes ≡ m.bytes
  pub places : (j : ℕ) → (entry m' j).position ≡ (entry m j).position
  pub lens : (j : ℕ) → (entry m' j).len ≡ (entry m j).len
  pub before : (j : ℕ) → j < k → entry m' j ≡ entry m j
  pub beyond : (j : ℕ) → k + rounds ≤ j → entry m' j ≡ entry m j
  pub apart : (j : ℕ) → covers pos_s pos_e (entry m j).position ≡ false → entry m' j ≡ entry m j

abbrev pub cleared : Memory → ℕ → Memory
cleared m k = record m { frames = clear_valid m.frames k }

unfoldable pub invalid : MemoryFrame → MemoryFrame
invalid e = record e { valid = false }

pub entry-cleared_self : (m : Memory) (k : ℕ) → entry (cleared m k) k ≡ invalid (entry m k)
unfolding invalid
entry-cleared_self m k = elim (dec_lt k (length m.frames)) [
  | yes h ↦ get_or-set_self m.frames k _ zero_frame h
  | no h ↦
      get_or_outside (clear_valid m.frames k) k zero_frame
        (rw (length-set m.frames k) (omega arith))
      ∙ sym (ap invalid (get_or_outside m.frames k zero_frame (omega arith)))
]

entry-cleared_ne : (m : Memory) (k j : ℕ) → (k ≡ j → ⊥) → entry (cleared m k) j ≡ entry m j
entry-cleared_ne m k j h = get_or-set_ne m.frames k j _ zero_frame h

pub places-cleared :
    (m : Memory) (k j : ℕ) → (entry (cleared m k) j).position ≡ (entry m j).position
unfolding invalid
places-cleared m k j = elim (ℕ_discrete k j) [
  | yes e ↦
      subst (λ i. (entry (cleared m k) i).position ≡ (entry m i).position) e
        (ap (λ (f : MemoryFrame). f.position) (entry-cleared_self m k))
  | no h ↦ ap (λ (f : MemoryFrame). f.position) (entry-cleared_ne m k j h)
]

pub lens-cleared : (m : Memory) (k j : ℕ) → (entry (cleared m k) j).len ≡ (entry m j).len
unfolding invalid
lens-cleared m k j = elim (ℕ_discrete k j) [
  | yes e ↦
      subst (λ i. (entry (cleared m k) i).len ≡ (entry m i).len) e
        (ap (λ (f : MemoryFrame). f.len) (entry-cleared_self m k))
  | no h ↦ ap (λ (f : MemoryFrame). f.len) (entry-cleared_ne m k j h)
]

Kept-refl : (pos_s pos_e rounds k : ℕ) (m : Memory) → Kept pos_s pos_e rounds k m m
Kept-refl pos_s pos_e rounds k m = record {
  datasize = refl;
  count = refl;
  capacity = refl;
  table = refl;
  bytes = refl;
  places = λ j. refl;
  lens = λ j. refl;
  before = λ j h. refl;
  beyond = λ j h. refl;
  apart = λ j h. refl;
}

-- One round that marks entry `k`, and the rounds after it.
Kept-step :
    (pos_s pos_e rounds k : ℕ) (m m' : Memory)
    → covers pos_s pos_e (entry m k).position ≡ true
    → Kept pos_s pos_e rounds (k + 1) (cleared m k) m'
    → Kept pos_s pos_e (suc rounds) k m m'
Kept-step pos_s pos_e rounds k m m' hit later = record {
  datasize = later.datasize;
  count = later.count;
  capacity = later.capacity;
  table = later.table ∙ length-set m.frames k _;
  bytes = later.bytes;
  places = λ j. later.places j ∙ places-cleared m k j;
  lens = λ j. later.lens j ∙ lens-cleared m k j;
  before = λ j h. later.before j (omega arith) ∙ entry-cleared_ne m k j (λ e. omega arith);
  beyond = λ j h. later.beyond j (omega arith) ∙ entry-cleared_ne m k j (λ e. omega arith);
  apart = λ j h.
      later.apart j (rw (places-cleared m k j) h)
      ∙ entry-cleared_ne m k j
          (λ e. cc (hit, h, ap (λ (i : ℕ). covers pos_s pos_e (entry m i).position) e));
}

Stops-lt :
    (pos_s pos_e rounds k : ℕ) (m : Memory)
    → Stops pos_s pos_e (suc rounds) k m
    → ltb k m.max_valid_frames ≡ true
Stops-lt pos_s pos_e rounds k m (inl (j, a, b, c)) = lt→ltb _ _ (omega arith)
Stops-lt pos_s pos_e rounds k m (inr h) = lt→ltb _ _ (omega arith)

Stops-step :
    (pos_s pos_e rounds k : ℕ) (m : Memory)
    → covers pos_s pos_e (entry m k).position ≡ true
    → Stops pos_s pos_e (suc rounds) k m
    → Stops pos_s pos_e rounds (k + 1) (cleared m k)
Stops-step pos_s pos_e rounds k m hit (inl (j, a, b, c)) = elim (ℕ_discrete k j) [
  | yes e ↦ cc (hit, c, ap (λ (i : ℕ). covers pos_s pos_e (entry m i).position) e)
  | no h ↦ inl (j, omega arith, b, rw (places-cleared m k j) c)
]
Stops-step pos_s pos_e rounds k m hit (inr h) = inr (omega arith)

pub check_cover_loop-Kept :
    (pos_s pos_e rounds k : ℕ) (m : Memory)
    → Stops pos_s pos_e rounds k m
    → (m' : Memory) × (check_cover_loop pos_s pos_e rounds k m ≡ some m')
      × Kept pos_s pos_e rounds k m m'
unfolding check_cover_loop
check_cover_loop-Kept pos_s pos_e zero k m st = (m, refl, Kept-refl pos_s pos_e zero k m)
check_cover_loop-Kept pos_s pos_e (suc rounds) k m st =
    let inside = Stops-lt pos_s pos_e rounds k m st in
    elim (Bool-cases (covers pos_s pos_e (entry m k).position)) [
      | inl hit ↦
          let later =
            check_cover_loop-Kept pos_s pos_e rounds (k + 1) (cleared m k)
              (Stops-step pos_s pos_e rounds k m hit st) in
          (later.0, rw (inside, hit) later.1, Kept-step pos_s pos_e rounds k m later.0 hit later.2)
      | inr miss ↦ (m, rw (inside, miss), Kept-refl pos_s pos_e (suc rounds) k m)
    ]

-- Where it stops inside the table, CheckBuffDataCover returns, and keeps the data and the entries
-- that it does not cover.
pub check_buff_data_cover-Kept :
    (pos_s pos_e next : ℕ) (m : Memory)
    → Stops pos_s pos_e (sub32 m.max_valid_frames 2) next m
    → (m' : Memory) × (check_buff_data_cover pos_s pos_e next m ≡ some m')
      × Kept pos_s pos_e (sub32 m.max_valid_frames 2) next m m'
unfolding check_buff_data_cover
check_buff_data_cover-Kept pos_s pos_e next m st =
    check_cover_loop-Kept pos_s pos_e (sub32 m.max_valid_frames 2) next m st
