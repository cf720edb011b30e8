-- ===== src/StreamBuff/Reader/Jump.antt =====
-- JumpToOldestIFrame and JumpTonewestIFrame: which frame a reader that lost its place goes to.
use mgw.Prelude.{
  ℕ, zero, suc, ◌+◌, ◌%◌, ◌^◌, ◌≤◌, ◌<◌, ◌≡◌, ◌∙◌, ap, ◌⊎◌, inl, inr, true, false, Bool, ◌&&◌, ◌||◌,
  ◌==◌, subst, Bool-cases, Option, none, some, ltb, leb, ltb→lt, if◌then◌else◌, add32, sub32, arith,
}
use native.Mathlib.Decide.{ℕ_discrete}
use native.Mathlib.Nat.{mod-eq-sub-mod}
use mgw.StreamBuff.{Memory}
use mgw.StreamBuff.Reader.{is_key, above, oldest_loop, jump_to_oldest, newest_loop, jump_to_newest}

-- The counts stay below what an `int` holds, and the table is full.
pub record IsFull (m : Memory) : Type 0 where
  pub some_frames : 0 < m.max_valid_frames
  pub full : m.max_valid_frames ≤ m.writ_frame_count
  pub count : m.writ_frame_count + m.max_valid_frames < 2 ^ 31

-- A reader at count `r` may go on to frame `k`: not backwards, unless it is not behind the writer.
abbrev pub MayGo : Memory → ℕ → ℕ → Type 0
MayGo m r k = (r ≤ k) ⊎ (m.writ_frame_count ≤ r)

abbrev pub key : Memory → ℕ → Bool
key m k = is_key m (k % m.max_valid_frames)

-- What the walk from frame `from` on may answer: the first key frame that the reader may go to.
abbrev pub Oldest : Memory → ℕ → ℕ → Option ℕ → Type 0
Oldest m r from none = (k : ℕ) → from ≤ k → k < m.writ_frame_count → MayGo m r k → key m k ≡ false
Oldest m r from (some k) =
    (from ≤ k)
    × (k < m.writ_frame_count)
    × (key m k ≡ true)
    × MayGo m r k
    × ((j : ℕ) → from ≤ j → j < k → MayGo m r j → key m j ≡ false)

-- The entry looked at in round `i`, and the count that stands for it.
round_entry :
    (m : Memory) (i k : ℕ)
    → IsFull m
    → k + m.max_valid_frames ≡ m.writ_frame_count + i
    → i < m.max_valid_frames
    → add32 m.writ_frame_count i % m.max_valid_frames ≡ k % m.max_valid_frames
round_entry m i k h e l =
    ap (λ t. t % m.max_valid_frames) (omega arith)
    ∙ mod-eq-sub-mod {n = k + m.max_valid_frames} {m = m.max_valid_frames} (omega arith)
    ∙ ap (λ t. t % m.max_valid_frames) (omega arith)

key_first :
    (m : Memory) (r from k : ℕ)
    → (MayGo m r from → key m from ≡ false)
    → ((j : ℕ) → from + 1 ≤ j → j < k → MayGo m r j → key m j ≡ false)
    → (j : ℕ) → from ≤ j
    → j < k
    → MayGo m r j
    → key m j ≡ false
key_first m r from k first later j a b c = elim (ℕ_discrete from j) [
  | yes e ↦ subst (λ t. MayGo m r t → key m t ≡ false) e first c
  | no h ↦ later j (omega arith) b c
]

Oldest-skip :
    (m : Memory) (r from : ℕ) (o : Option ℕ)
    → (MayGo m r from → key m from ≡ false)
    → Oldest m r (from + 1) o
    → Oldest m r from o
Oldest-skip m r from none first later = key_first m r from m.writ_frame_count first later
Oldest-skip m r from (some k) first (a, b, c, d, e) =
    (omega arith, b, c, d, key_first m r from k first e)

oldest_loop_round :
    (m : Memory) (r rounds i from : ℕ)
    → IsFull m
    → i + suc rounds ≡ m.max_valid_frames
    → from + m.max_valid_frames ≡ m.writ_frame_count + i
    → oldest_loop m r (suc rounds) i ≡ (
        if key m from && (leb r from || leb m.writ_frame_count r)
        then some from
        else oldest_loop m r rounds (i + 1))
unfolding oldest_loop
oldest_loop_round m r rounds i from full n e = ground (arith, round_entry m i from full e)

-- The frame that the round passes by is no key frame that the reader may go to.
passed :
    (m : Memory) (r from : ℕ)
    → (key m from && (leb r from || leb m.writ_frame_count r)) ≡ false
    → MayGo m r from
    → key m from ≡ false
passed m r from h may = ground arith

stopped :
    (m : Memory) (r from : ℕ)
    → (key m from && (leb r from || leb m.writ_frame_count r)) ≡ true
    → (key m from ≡ true) × MayGo m r from
stopped m r from h = ground arith

oldest_loop-Oldest :
    (m : Memory) (r rounds i from : ℕ)
    → IsFull m
    → i + rounds ≡ m.max_valid_frames
    → from + m.max_valid_frames ≡ m.writ_frame_count + i
    → Oldest m r from (oldest_loop m r rounds i)
oldest_loop-Oldest m r zero i from full n e = unfold oldest_loop in λ k a b c. absurd (omega arith)
oldest_loop-Oldest m r (suc rounds) i from full n e =
    let later = oldest_loop-Oldest m r rounds (i + 1) (from + 1) full (omega arith) (omega arith) in
    rw (oldest_loop_round m r rounds i from full n e)
      (elim (Bool-cases (key m from && (leb r from || leb m.writ_frame_count r))) [
        | inl hit ↦
            let (is, may) = stopped m r from hit in
            rw hit (omega arith, omega arith, is, may, λ j a b c. absurd (omega arith))
        | inr miss ↦ rw miss (Oldest-skip m r from _ (passed m r from miss) later)
      ])

-- With a full table, JumpToOldestIFrame finds the oldest key frame of the table that does not
-- take the reader backwards (any, for a reader not behind the writer), and returns -1 only where
-- the table holds none.
pub jump_to_oldest-Oldest :
    (m : Memory) (r from : ℕ)
    → IsFull m
    → from + m.max_valid_frames ≡ m.writ_frame_count
    → Oldest m r from (jump_to_oldest m r)
unfolding jump_to_oldest
jump_to_oldest-Oldest m r from full e =
    let some_put : (m.writ_frame_count == 0) ≡ false = ground arith in
    rw some_put (oldest_loop-Oldest m r m.max_valid_frames 0 from full (omega arith) (omega arith))

-- What the walk down from the count `n` may answer: the last key frame behind `r`.
abbrev pub Newest : Memory → ℕ → ℕ → Option ℕ → Type 0
Newest m r n none = (k : ℕ) → r < k → k < n → key m k ≡ false
Newest m r n (some k) =
    (r < k) × (k < n) × (key m k ≡ true) × ((j : ℕ) → k < j → j < n → key m j ≡ false)

key_last :
    (m : Memory) (from n : ℕ)
    → key m n ≡ false
    → ((j : ℕ) → from < j → j < n → key m j ≡ false)
    → (j : ℕ) → from < j
    → j < suc n
    → key m j ≡ false
key_last m from n last earlier j a b = elim (ℕ_discrete n j) [
  | yes e ↦ subst (λ t. key m t ≡ false) e last
  | no h ↦ earlier j a (omega arith)
]

Newest-skip :
    (m : Memory) (r n : ℕ) (o : Option ℕ) → key m n ≡ false → Newest m r n o → Newest m r (suc n) o
Newest-skip m r n none last earlier = key_last m r n last earlier
Newest-skip m r n (some k) last (a, b, c, d) = (a, omega arith, c, key_last m k n last d)

newest_loop-Newest : (m : Memory) (r n : ℕ) → r < 2 ^ 31 → Newest m r n (newest_loop m r r n)
unfolding newest_loop
newest_loop-Newest m r zero h = λ k a b. absurd (omega arith)
newest_loop-Newest m r (suc n) h = elim (Bool-cases (ltb r n)) [
  | inl in_range ↦
      let above' : above n r ≡ true = ground arith in
      let ge : leb r n ≡ true = ground arith in
      elim (Bool-cases (key m n)) [
        | inl hit ↦
            rw (above', hit, ge)
              (ltb→lt _ _ in_range, omega arith, hit, λ j a b. absurd (omega arith))
        | inr miss ↦ rw (above', miss) (Newest-skip m r n _ miss (newest_loop-Newest m r n h))
      ]
  | inr out ↦
      let above' : above n r ≡ false = ground arith in
      rw above' (λ k a b. absurd (ground (arith, out)))
]

-- For a reader behind the writer, JumpTonewestIFrame finds the newest key frame after the
-- reader's own place, and returns -1 only where there is none.
pub jump_to_newest-Newest :
    (m : Memory) (r : ℕ)
    → r < m.writ_frame_count
    → m.writ_frame_count < 2 ^ 31
    → Newest m r m.writ_frame_count (jump_to_newest m r)
unfolding jump_to_newest
jump_to_newest-Newest m r h l =
    let some_put : (m.writ_frame_count == 0) ≡ false = ground arith in
    let small : leb (2 ^ 31) m.writ_frame_count ≡ false = ground arith in
    let behind : (ltb 0 (sub32 m.writ_frame_count r) && ltb (sub32 m.writ_frame_count r) (2 ^ 31))
        ≡ true =
      ground arith in
    rw (some_put, small, behind) (newest_loop-Newest m r m.writ_frame_count (omega arith))
