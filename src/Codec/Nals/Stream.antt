-- ===== src/Codec/Nals/Stream.antt =====
-- A byte stream of NAL units, and what the searches do in it.
use mgw.Prelude.{
  ℕ, suc, ◌+◌, ◌-◌, ◌≤◌, ◌<◌, ◌≡◌, ◌≢◌, ◌⊎◌, inl, inr, refl, sym, subst, ◌∙◌, List, [], ◌∷◌,
  le_or_lt, arith,
}
use mgw.Codec.Startcode.{Bytes, find_startcode, find_startcode_internal}
use mgw.Codec.Startcode.Loops.{Clear, Starts}
use mgw.Codec.Startcode.Search.{First, find_startcode_internal-First}
use mgw.Codec.Nals.{skip}

-- A start code of three or four bytes from `p` up to `s`.
abbrev pub Prefix : Bytes → ℕ → ℕ → Type 0
Prefix m p s = ((s ≡ p + 3) × Starts m p) ⊎ ((s ≡ p + 4) × (m p ≡ 0) × Starts m (p + 1))

-- From `p` up to `end` stand the units, each with its first address and the address behind it: none is empty, none begins
-- or ends in a zero byte, and no start code begins in one.
abbrev pub Stream : Bytes → ℕ → ℕ → List (ℕ × ℕ) → Type 0
Stream m end p [] = p ≡ end
Stream m end p ((s, e) ∷ units) =
    Prefix m p s × (s < e) × (m s ≢ 0) × (m (e - 1) ≢ 0) × Clear m s e × Stream m end e units

pub Stream-le : (m : Bytes) (end p : ℕ) (units : List (ℕ × ℕ)) → Stream m end p units → p ≤ end
Stream-le m end p [] h = omega arith
Stream-le m end p ((s, e) ∷ units) (inl (a, _), lt, _, _, _, rest) =
    omega (arith, Stream-le m end e units rest)
Stream-le m end p ((s, e) ∷ units) (inr (a, _, _), lt, _, _, _, rest) =
    omega (arith, Stream-le m end e units rest)

First-eq :
    (m : Bytes) (p end q o : ℕ)
    → First m p end q
    → p ≤ o
    → o < end - 3
    → Starts m o
    → Clear m p o
    → q ≡ o
First-eq m p end q o (inl (e, c)) h k s d = ground (arith, c o h k)
First-eq m p end q o (inr (a, b, t, c)) h k s d = elim (le_or_lt q o) [
  | inl l ↦ elim (le_or_lt o q) [ inl l' ↦ omega arith | inr l' ↦ ground (arith, d q a l') ]
  | inr l ↦ ground (arith, c o h l)
]

module _ (m : Bytes) (end : ℕ) (bytes : (q : ℕ) → m q < 256) (high : 6 ≤ end) where
  -- The search from inside a unit that is followed by a start code.
  find-prefix :
      (s e s' : ℕ)
      → s < e
      → m (e - 1) ≢ 0
      → Clear m s e
      → Prefix m e s'
      → s' < end
      → find_startcode m s end ≡ e
  unfolding find_startcode
  find-prefix s e s' lt z c (inl (a, t)) h =
      let o : find_startcode_internal m s end ≡ e =
        First-eq m s end _ e (find_startcode_internal-First m s end bytes high) (omega arith)
          (omega arith) t c in
      ground (arith, o, z)
  find-prefix s e s' lt z c (inr (a, b, t)) h =
      let c' : Clear m s (e + 1) = λ q k l. elim (le_or_lt e q) [
        | inl g ↦ (let g' : q ≡ e = omega arith in rw g' (ground (arith, t)))
        | inr g ↦ c q k g
      ] in
      let o : find_startcode_internal m s end ≡ e + 1 =
        First-eq m s end _ (e + 1) (find_startcode_internal-First m s end bytes high) (omega arith)
          (omega arith) t c' in
      ground (arith, o, b)

  find-end : (s : ℕ) → Clear m s end → find_startcode m s end ≡ end
  unfolding find_startcode
  find-end s c = elim (find_startcode_internal-First m s end bytes high) [
    | inl (o, _) ↦ ground (arith, o)
    | inr (a, b, t, _) ↦ ground (arith, t, c (find_startcode_internal m s end) a (omega arith))
  ]

  -- From inside a unit the search leads to the end of the unit.
  pub find-next :
      (s e : ℕ) (units : List (ℕ × ℕ))
      → s < e
      → m (e - 1) ≢ 0
      → Clear m s e
      → Stream m end e units
      → find_startcode m s end ≡ e
  find-next s e [] lt z c h =
      subst (λ x. Clear m s x → find_startcode m s end ≡ x) (sym h) (find-end s) c
  find-next s e ((s', e') ∷ units) lt z c (pre, lt', _, _, _, rest) =
      find-prefix s e s' lt z c pre (omega (arith, Stream-le m end e' units rest))

  -- From the start of a stream it stays there.
  pub find-first :
      (p : ℕ) (units : List (ℕ × ℕ)) → Stream m end p units → find_startcode m p end ≡ p
  unfolding find_startcode
  find-first p [] h =
      subst (λ x. find_startcode m x end ≡ x) (sym h) (find-end end λ q a b. absurd (omega arith))
  find-first p ((s, e) ∷ units) (inl (a, t), lt, _, _, _, rest) =
      let le : e ≤ end = Stream-le m end e units rest in
      let o : find_startcode_internal m p end ≡ p =
        First-eq m p end _ p (find_startcode_internal-First m p end bytes high) (omega arith)
          (omega arith) t (λ q k l. absurd (omega arith)) in
      ground (arith, o)
  find-first p ((s, e) ∷ units) (inr (a, b, t), lt, _, _, _, rest) =
      let le : e ≤ end = Stream-le m end e units rest in
      let c : Clear m p (p + 1) =
        λ q k l. (let g : q ≡ p = omega arith in rw g (ground (arith, t))) in
      let o : find_startcode_internal m p end ≡ p + 1 =
        First-eq m p end _ (p + 1) (find_startcode_internal-First m p end bytes high) (omega arith)
          (omega arith) t c in
      ground (arith, o, b)

skip-zero :
    (m : Bytes) (p end : ℕ)
    → p < end
    → m p ≡ 0
    → skip m (end - p) p ≡ skip m (end - (p + 1)) (p + 1)
unfolding skip
skip-zero m p end h z =
    let n : end - p ≡ suc (end - (p + 1)) = omega arith in rw (n, skip) (rw z refl)

skip-stop : (m : Bytes) (p end : ℕ) → p < end → m p ≢ 0 → skip m (end - p) p ≡ p + 1
unfolding skip
skip-stop m p end h z =
    let n : end - p ≡ suc (end - (p + 1)) = omega arith in rw (n, skip) (ground (arith, z))

skip-Starts : (m : Bytes) (p end : ℕ) → p + 2 < end → Starts m p → skip m (end - p) p ≡ p + 3
skip-Starts m p end h t =
    skip-zero m p end (omega arith) (ground (arith, t))
    ∙ skip-zero m (p + 1) end (omega arith) (ground (arith, t))
    ∙ skip-stop m (p + 1 + 1) end (omega arith) (ground (arith, t))
    ∙ omega arith

-- The loop over zero bytes ends behind a start code.
pub skip-Prefix : (m : Bytes) (p s end : ℕ) → s < end → Prefix m p s → skip m (end - p) p ≡ s
skip-Prefix m p s end h (inl (a, t)) = skip-Starts m p end (omega arith) t ∙ sym a
skip-Prefix m p s end h (inr (a, z, t)) =
    skip-zero m p end (omega arith) z ∙ skip-Starts m (p + 1) end (omega arith) t ∙ omega arith

pub skip_end : (m : Bytes) (end : ℕ) → skip m (end - end) end ≡ end
unfolding skip
skip_end m end = let n : end - end ≡ 0 = omega arith in rw n refl
