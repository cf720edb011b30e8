-- ===== src/Codec/Startcode/Search.antt =====
-- The search over words finds the first start code.
use mgw.Prelude.{
  ℕ, ◌+◌, ◌-◌, ◌%◌, ◌≤◌, ◌<◌, ◌≡◌, ◌≢◌, ◌⊎◌, false, inl, inr, min, ◌&&◌, ltb, ◌==◌, Bool-cases,
  arith,
}
use mgw.Prelude.Int.{pos, negsuc}
use mgw.Codec.Startcode.{
  Bytes, is_code, Scan, found, passed, find_startcode_internal, find_startcode, get_startcode_len,
}
use mgw.Codec.Startcode.Loops.{
  Starts, Clear, Clear-append, Scanned, scan-Scanned, scan_words-Scanned,
}

-- `q` is the first address from `p` where a start code stands with a byte behind it, or the end.
abbrev pub First : Bytes → ℕ → ℕ → ℕ → Type 0
First m p end q =
    ((q ≡ end) × Clear m p (end - 3)) ⊎ ((p ≤ q) × (q < end - 3) × Starts m q × Clear m p q)

First-cons : (m : Bytes) (p r end q : ℕ) → p ≤ r → Clear m p r → First m r end q → First m p end q
First-cons m p r end q h f (inl (e, c)) = inl (e, Clear-append m p r (end - 3) f c)
First-cons m p r end q h f (inr (a, b, c, d)) = inr (omega arith, b, c, Clear-append m p r q f d)

-- A loop, and what runs when it ends without a `return`.
stage-First :
    (m : Bytes) (p end low high : ℕ) (k : ℕ → ℕ) (s : Scan)
    → Scanned m p low high s
    → ((q : ℕ) → p ≤ q → q < high → q < end - 3)
    → ((q : ℕ) → p ≤ q → low ≤ q → First m q end (k q))
    → First m p end (elim s [ found q ↦ q | passed q ↦ k q ])
stage-First m p end low high k (found q) (a, b, c, d) lt next = inr (a, lt q a b, c, d)
stage-First m p end low high k (passed q) (a, b, c) lt next =
    First-cons m p q end (k q) a c (next q a b)

-- From an address `p`, with the end at an address from 6 on, `ff_avc_find_startcode_internal` returns the first address where the bytes 0, 0, 1
-- stand and one more byte stands before the end, and the end if there is none: reading a
-- word at a time and skipping those without a zero byte misses no start code.
pub find_startcode_internal-First :
    (m : Bytes) (p end : ℕ)
    → ((q : ℕ) → m q < 256)
    → 6 ≤ end
    → First m p end (find_startcode_internal m p end)
unfolding find_startcode_internal
find_startcode_internal-First m p end bytes h =
    stage-First m p end _ _ _ _ (scan-Scanned m (min (p + 4 - p % 4) (end - 3) - p) p)
      (λ q a b. omega arith)
      λ p1 k1 l1.
        stage-First m p1 end _ _ _ _
          (scan_words-Scanned m bytes (end - 6 - p1) p1 (end - 6) (omega arith))
          (λ q a b. omega arith)
          λ p2 k2 l2.
            stage-First m p2 end _ _ (λ _. end - 6 + 3 + 3) _ (scan-Scanned m (end - 6 + 3 - p2) p2)
              (λ q a b. omega arith) λ p3 k3 l3. inl (omega arith, λ q a b. absurd (omega arith))

-- `k` is the length of the start code at `q`, the first from `p` on.
pub record Code (m : Bytes) (p end q k : ℕ) : Type 0 where
  pub after : p ≤ q
  pub before : q + k < end
  pub read : get_startcode_len m q ≡ pos k
  pub first : Clear m p (q + k - 3)

Code-three :
    (m : Bytes) (p end q : ℕ) → p ≤ q → q < end - 3 → Starts m q → Clear m p q → Code m p end q 3
unfolding get_startcode_len
Code-three m p end q a b c d = record {
  after = a;
  before = omega arith;
  read = ground (arith, c);
  first = λ r h k. d r h (omega arith);
}

Code-four :
    (m : Bytes) (p end q : ℕ)
    → p ≤ q
    → q + 1 < end - 3
    → m q ≡ 0
    → Starts m (q + 1)
    → Clear m p (q + 1)
    → Code m p end q 4
unfolding get_startcode_len
Code-four m p end q a b z c d = record {
  after = a;
  before = omega arith;
  read = ground (arith, c, z);
  first = λ r h k. d r h (omega arith);
}

-- From an address `p`, with the end at an address from 6 on, `mgw_avc_find_startcode` returns either the end, and then no start code stands from `p` on
-- with a byte between it and the end, or the address of the first start code, and then
-- `mgw_avc_get_startcode_len` reads its length, three or four bytes, there.
pub find_startcode-Code :
    (m : Bytes) (p end : ℕ)
    → ((q : ℕ) → m q < 256)
    → 6 ≤ end
    → ((find_startcode m p end ≡ end) × Clear m p (end - 3))
      ⊎ ((k : ℕ) × Code m p end (find_startcode m p end) k)
unfolding find_startcode
find_startcode-Code m p end bytes h =
    let out = find_startcode_internal m p end in
    elim (find_startcode_internal-First m p end bytes h) [
      | inl (e, c) ↦ inl (ground (arith, e), c)
      | inr (a, b, c, d) ↦ inr (elim (Bool-cases (ltb p out && (ltb out end && m (out - 1) == 0))) [
        | inl t ↦
            let s : out - 1 + 1 ≡ out = ground (arith, t) in
            rw t (
              4,
              Code-four m p end (out - 1) (ground (arith, t)) (omega arith) (ground (arith, t))
                  (rw s c) (rw s d),
            )
        | inr t ↦ rw t (3, Code-three m p end out a b c d)
      ])
    ]

-- `mgw_avc_get_startcode_len` at a start code of three bytes, of four bytes, and where there is none.
pub get_startcode_len_three : (m : Bytes) (q : ℕ) → Starts m q → get_startcode_len m q ≡ pos 3
unfolding get_startcode_len
get_startcode_len_three m q h = ground (arith, h)

pub get_startcode_len_four :
    (m : Bytes) (q : ℕ) → m q ≡ 0 → Starts m (q + 1) → get_startcode_len m q ≡ pos 4
unfolding get_startcode_len
get_startcode_len_four m q z h = ground (arith, z, h)

pub get_startcode_len_none :
    (m : Bytes) (q : ℕ)
    → is_code m q ≡ false
    → is_code m (q + 1) ≡ false
    → get_startcode_len m q ≡ negsuc 0
unfolding get_startcode_len
get_startcode_len_none m q a b = ground (arith, a, b)

pub get_startcode_len_nonzero : (m : Bytes) (q : ℕ) → m q ≢ 0 → get_startcode_len m q ≡ negsuc 0
unfolding get_startcode_len
get_startcode_len_nonzero m q h = ground (arith, h)
