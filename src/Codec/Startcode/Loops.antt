-- ===== src/Codec/Startcode/Loops.antt =====
-- What the loops over bytes and over words find.
use mgw.Prelude.{
  ℕ, zero, suc, ◌+◌, ◌≤◌, ◌<◌, ◌≡◌, inl, inr, subst, true, false, Option, some, none, ltb,
  if◌then◌else◌, Bool-cases, Option-cases, arith, le_or_lt, ltb→lt,
}
use mgw.Codec.Startcode.{
  Bytes, Scan, found, passed, is_code, scan, load32, has_zero, check_word, scan_words,
}
use mgw.Codec.Startcode.Zero.{has_zero-second, has_zero-last}

-- The bytes 0, 0, 1 stand at the address `p`.
abbrev pub Starts : Bytes → ℕ → Type 0
Starts m p = is_code m p ≡ true

-- They stand at no address from `a` up to `b`.
abbrev pub Clear : Bytes → ℕ → ℕ → Type 0
Clear m a b = (q : ℕ) → a ≤ q → q < b → is_code m q ≡ false

pub Clear-append : (m : Bytes) (a b c : ℕ) → Clear m a b → Clear m b c → Clear m a c
Clear-append m a b c f g q h k = elim (le_or_lt b q) [ inl l ↦ g q l k | inr l ↦ f q h l ]

-- What a loop from `p` has established that stops between `low` and `high`.
abbrev pub Scanned : Bytes → ℕ → ℕ → ℕ → Scan → Type 0
Scanned m p low high (found q) = (p ≤ q) × (q < high) × Starts m q × Clear m p q
Scanned m p low high (passed q) = (p ≤ q) × (low ≤ q) × Clear m p q

pub Clear-empty : (m : Bytes) (p q : ℕ) → q ≤ p → Clear m p q
Clear-empty m p q h r a b = absurd (omega arith)

pub Clear-one : (m : Bytes) (p : ℕ) → is_code m p ≡ false → Clear m p (p + 1)
Clear-one m p e r a b = let h : p ≡ r = omega arith in subst (λ i. is_code m i ≡ false) h e

Scanned-cons :
    (m : Bytes) (p r low high : ℕ) (s : Scan)
    → p ≤ r
    → Clear m p r
    → Scanned m r low high s
    → Scanned m p low high s
Scanned-cons m p r low high (found q) h f (a, b, c, d) =
    (omega arith, b, c, Clear-append m p r q f d)
Scanned-cons m p r low high (passed q) h f (a, b, d) = (omega arith, b, Clear-append m p r q f d)

pub scan-Scanned : (m : Bytes) (n p : ℕ) → Scanned m p (p + n) (p + n) (scan m n p)
unfolding scan
scan-Scanned m zero p = (omega arith, omega arith, Clear-empty m p p (omega arith))
scan-Scanned m (suc n) p = elim (Bool-cases (is_code m p)) [
  | inl e ↦ rw e (omega arith, omega arith, e, Clear-empty m p p (omega arith))
  | inr e ↦
      let h : p + 1 + n ≡ p + suc n = omega arith in
      rw e (
        subst (λ k. Scanned m p k k (scan m n (p + 1))) h
          (Scanned-cons m p (p + 1) _ _ (scan m n (p + 1)) (omega arith) (Clear-one m p e)
            (scan-Scanned m n (p + 1))))
]

-- Two addresses in a row, three, and four.
Clear-two :
    (m : Bytes) (p : ℕ) → is_code m p ≡ false → is_code m (p + 1) ≡ false → Clear m p (p + 2)
Clear-two m p e0 e1 q h k = elim (le_or_lt q p) [
  | inl l ↦ Clear-one m p e0 q h (omega arith)
  | inr l ↦ Clear-one m (p + 1) e1 q (omega arith) (omega arith)
]

Clear-three :
    (m : Bytes) (p : ℕ)
    → is_code m p ≡ false
    → is_code m (p + 1) ≡ false
    → is_code m (p + 2) ≡ false
    → Clear m p (p + 3)
Clear-three m p e0 e1 e2 q h k = elim (le_or_lt q p) [
  | inl l ↦ Clear-one m p e0 q h (omega arith)
  | inr l ↦ elim (le_or_lt q (p + 1)) [
    | inl l1 ↦ Clear-one m (p + 1) e1 q (omega arith) (omega arith)
    | inr l1 ↦ Clear-one m (p + 2) e2 q (omega arith) (omega arith)
  ]
]

Clear-four :
    (m : Bytes) (p : ℕ)
    → is_code m p ≡ false
    → is_code m (p + 1) ≡ false
    → is_code m (p + 2) ≡ false
    → is_code m (p + 3) ≡ false
    → Clear m p (p + 4)
Clear-four m p e0 e1 e2 e3 q h k = elim (le_or_lt q (p + 2)) [
  | inl l ↦ Clear-three m p e0 e1 e2 q h (omega arith)
  | inr l ↦ Clear-one m (p + 3) e3 q (omega arith) (omega arith)
]

module _ (m : Bytes) (bytes : (q : ℕ) → m q < 256) (p : ℕ) where
  -- A word without a zero byte.
  has_zero-Clear : has_zero (load32 m p) ≡ false → Clear m p (p + 4)
  has_zero-Clear e q h k =
      let n1 =
        has_zero-second (m p) (m (p + 1)) (m (p + 2)) (m (p + 3)) (bytes _) (bytes _) (bytes _)
          (bytes _) e in
      let n3 =
        has_zero-last (m p) (m (p + 1)) (m (p + 2)) (m (p + 3)) (bytes _) (bytes _) (bytes _)
          (bytes _) e in
      Clear-four m p (ground (arith, n1)) (ground (arith, n1)) (ground (arith, n3))
        (ground (arith, n3)) q h k

  abbrev pub Found : Option ℕ → Type 0
  Found none = Clear m p (p + 4)
  Found (some q) = (p ≤ q) × (q < p + 4) × Starts m q × Clear m p q

  check_word-eq : check_word m p ≡ (
      if is_code m p
      then some p
      else if is_code m (p + 1)
      then some (p + 1)
      else if is_code m (p + 2)
      then some (p + 2)
      else if is_code m (p + 3)
      then some (p + 3)
      else none)
  unfolding check_word
  check_word-eq = ground arith

  check_word-Found : Found (check_word m p)
  check_word-Found = rw check_word-eq (elim (Bool-cases (is_code m p)) [
    | inl e0 ↦ rw e0 (omega arith, omega arith, e0, Clear-empty m p p (omega arith))
    | inr e0 ↦ elim (Bool-cases (is_code m (p + 1))) [
      | inl e1 ↦ rw (e0, e1) (omega arith, omega arith, e1, Clear-one m p e0)
      | inr e1 ↦ elim (Bool-cases (is_code m (p + 2))) [
        | inl e2 ↦ rw (e0, e1, e2) (omega arith, omega arith, e2, Clear-two m p e0 e1)
        | inr e2 ↦ elim (Bool-cases (is_code m (p + 3))) [
          | inl e3 ↦ rw (e0, e1, e2, e3) (omega arith, omega arith, e3, Clear-three m p e0 e1 e2)
          | inr e3 ↦ rw (e0, e1, e2, e3) (Clear-four m p e0 e1 e2 e3)
        ]
      ]
    ]
  ])

pub scan_words-Scanned :
    (m : Bytes)
    → ((q : ℕ) → m q < 256)
    → (n p end : ℕ) → end ≤ p + n
    → Scanned m p end (end + 3) (scan_words m n p end)
unfolding scan_words
scan_words-Scanned m bytes zero p end h =
    (omega arith, omega arith, Clear-empty m p p (omega arith))
scan_words-Scanned m bytes (suc n) p end h =
    let later : Clear m p (p + 4) → Scanned m p end (end + 3) (scan_words m n (p + 4) end) = λ c.
      Scanned-cons m p (p + 4) _ _ (scan_words m n (p + 4) end) (omega arith) c
        (scan_words-Scanned m bytes n (p + 4) end (omega arith)) in
    elim (Bool-cases (ltb p end)) [
      | inr e ↦ rw e (omega arith, ground arith, Clear-empty m p p (omega arith))
      | inl e ↦ elim (Bool-cases (has_zero (load32 m p))) [
        | inr z ↦ rw (e, z) (later (has_zero-Clear m bytes p z))
        | inl z ↦ elim (Option-cases (check_word m p)) [
          | inl w ↦ rw (e, z, w) (later (subst (Found m bytes p) w (check_word-Found m bytes p)))
          | inr (q, w) ↦
              let (a, b, c, d) = subst (Found m bytes p) w (check_word-Found m bytes p) in
              let lt : q < end + 3 = omega (arith, ltb→lt p end e) in rw (e, z, w) (a, lt, c, d)
        ]
      ]
    ]
