-- ===== src/Codec/Nals/Get/Keyframe.antt =====
-- The search for a key frame in a byte stream of NAL units.
use mgw.Prelude.{
  ℕ, zero, suc, ◌+◌, ◌-◌, ◌^◌, ◌≤◌, ◌<◌, ◌≡◌, ◌≢◌, ◌∙◌, refl, inl, inr, false, Option, none, some,
  List, [], ◌∷◌, ◌==◌, if◌then◌else◌, Bool-cases, le_or_lt, sub64, subst, sym, ltb, arith,
}
use mgw.Prelude.Int.{pos, negsuc}
use mgw.Codec.Startcode.{Bytes, get_startcode_len}
use mgw.Codec.Startcode.Loops.{Clear, Starts}
use mgw.Codec.Startcode.Search.{
  get_startcode_len_three, get_startcode_len_four, get_startcode_len_none,
  get_startcode_len_nonzero,
}
use mgw.Codec.Nals.{nal_type}
use mgw.Codec.Nals.Stream.{Prefix, Stream, Stream-le}
use mgw.Codec.Nals.Get.{nal_loop, get_nal, get_keyframe}

pub Prefix-le : (m : Bytes) (p s : ℕ) → Prefix m p s → p + 3 ≤ s
Prefix-le m p s (inl (e, t)) = omega arith
Prefix-le m p s (inr (e, z, t)) = omega arith

-- The first unit of type 5.
abbrev pub key_of : Bytes → List (ℕ × ℕ) → Option ℕ
key_of m [] = none
key_of m ((s, e) ∷ units) = if 5 == nal_type m s then some s else key_of m units

module _ (m : Bytes) (data_start end : ℕ) where
  -- No start code follows at once.
  step_none :
      (n p : ℕ)
      → get_startcode_len m (p + 1) ≡ negsuc 0
      → nal_loop m data_start (end - data_start) 5 (suc n) p none
        ≡ nal_loop m data_start (end - data_start) 5 n (p + 1) none
  unfolding nal_loop
  step_none n p e = rw (e, nal_loop) refl

  -- A start code does, with a unit behind it.
  step_code :
      (n p j s : ℕ)
      → get_startcode_len m (p + 1) ≡ pos j
      → p + 1 + j ≡ s
      → nal_loop m data_start (end - data_start) 5 (suc n) p none ≡ (
          if 5 == nal_type m s
          then (some s, sub64 (end - data_start) (s - data_start))
          else nal_loop m data_start (end - data_start) 5 n s none)
  unfolding nal_loop
  step_code n p j s e at = rw (e, nal_loop) (rw at refl)

  enter :
      (n p s : ℕ)
      → Prefix m (p + 1) s
      → nal_loop m data_start (end - data_start) 5 (suc n) p none ≡ (
          if 5 == nal_type m s
          then (some s, sub64 (end - data_start) (s - data_start))
          else nal_loop m data_start (end - data_start) 5 n s none)
  enter n p s (inl (e, t)) = step_code n p 3 s (get_startcode_len_three m (p + 1) t) (omega arith)
  enter n p s (inr (e, z, t)) =
      step_code n p 4 s (get_startcode_len_four m (p + 1) z t) (omega arith)

module _ (m : Bytes) (data_start end k : ℕ) (word : end < 2 ^ 64) where
  no_code :
      (p s e : ℕ)
      → s ≤ p
      → p + 1 < e
      → m (e - 1) ≢ 0
      → Clear m s e
      → get_startcode_len m (p + 1) ≡ negsuc 0
  no_code p s e a b z c = elim (le_or_lt e (p + 2)) [
    | inl last ↦
        let at : e - 1 ≡ p + 1 = omega arith in
        get_startcode_len_nonzero m (p + 1) (subst (λ x. m x ≢ 0) at z)
    | inr before ↦
        get_startcode_len_none m (p + 1) (c (p + 1) (omega arith) b)
          (c (p + 1 + 1) (omega arith) (omega arith))
  ]

  -- The search from `p` inside the unit from `s` to `e`, which is not the one sought.
  walk :
      (n p s e : ℕ) (units : List (ℕ × ℕ))
      → s ≤ p
      → p < e
      → m (e - 1) ≢ 0
      → Clear m s e
      → Stream m end e units
      → key_of m units ≡ some k
      → end ≤ p + n
      → data_start ≤ p
      → nal_loop m data_start (end - data_start) 5 n p none ≡ (some k, end - k)
  walk zero p s e units a b z c h f l d = absurd (omega (arith, Stream-le m end e units h))
  walk (suc n) p s e [] a b z c h f l d = ground (arith, f)
  walk (suc n) p s e ((s', e') ∷ units) a b z c (pre, lt, h0, z', c', rest) f l d =
      elim (le_or_lt e (p + 1)) [
        | inr inside ↦
            step_none m data_start end n p (no_code p s e a inside z c)
            ∙ walk n (p + 1) s e ((s', e') ∷ units) (omega arith) inside z c
                (pre, lt, h0, z', c', rest) f (omega arith) (omega arith)
        | inl last ↦
            let at : e ≡ p + 1 = omega arith in
            let far = Prefix-le m e s' pre in
            let short = Stream-le m end e' units rest in
            enter m data_start end n p s' (subst (λ x. Prefix m x s') at pre)
            ∙ elim (Bool-cases (5 == nal_type m s')) [
              | inl t ↦
                  let found : s' ≡ k = ground (arith, t, f) in
                  ground (arith, t, found, short, lt, far, d, word)
              | inr t ↦
                  let later : key_of m units ≡ some k = ground (arith, t, f) in
                  rw t (
                    walk n s' s' e' units (omega arith) lt z' c' rest later (omega arith)
                      (omega arith))
            ]
      ]

  -- From the start code of four bytes at the start.
  start_walk :
      (n s e : ℕ) (units : List (ℕ × ℕ))
      → s ≡ data_start + 4
      → Starts m (data_start + 1)
      → Stream m end data_start ((s, e) ∷ units)
      → key_of m ((s, e) ∷ units) ≡ some k
      → end ≤ data_start + suc n
      → nal_loop m data_start (end - data_start) 5 (suc n) data_start none ≡ (some k, end - k)
  start_walk n s e units at code (pre, lt, h0, z, c, rest) f l =
      let short = Stream-le m end e units rest in
      enter m data_start end n data_start s (inl (omega arith, code))
      ∙ elim (Bool-cases (5 == nal_type m s)) [
        | inl t ↦
            let found : s ≡ k = ground (arith, t, f) in
            ground (arith, t, found, short, lt, at, word)
        | inr t ↦
            let later : key_of m units ≡ some k = ground (arith, t, f) in
            rw t (walk n s s e units (omega arith) lt z c rest later (omega arith) (omega arith))
      ]

-- In a byte stream of NAL units that begins with a start code of four bytes, `mgw_avc_get_keyframe` finds the first
-- unit of type 5, if there is one, and says that it goes to the end of the stream.
pub get_keyframe-Stream :
    (m : Bytes) (data_start end s e k : ℕ) (units : List (ℕ × ℕ))
    → end < 2 ^ 64
    → s ≡ data_start + 4
    → Starts m (data_start + 1)
    → Stream m end data_start ((s, e) ∷ units)
    → key_of m ((s, e) ∷ units) ≡ some k
    → get_keyframe m data_start (end - data_start) ≡ (some k, end - k)
unfolding get_nal
get_keyframe-Stream m data_start end s e k units word at code h f =
    let far = Stream-le m end data_start ((s, e) ∷ units) h in
    let n : ℕ = end - data_start - 1 in
    let rounds : end - data_start ≡ suc n = omega (arith, h.1, Stream-le m end e units h.5) in
    let found = start_walk m data_start end k word n s e units at code h f (omega arith) in
    let whole : nal_loop m data_start (end - data_start) 5 (end - data_start) data_start none
        ≡ (some k, end - k) =
      subst (λ x. nal_loop m data_start (end - data_start) 5 x data_start none ≡ (some k, end - k))
        (sym rounds) found in
    let some_size : (end - data_start == 0) ≡ false = ground (arith, rounds) in
    let checks : (if ltb (end - data_start) (end - data_start)
          then end - data_start
          else end - data_start)
        ≡ end - data_start =
      ground arith in
    rw (some_size, checks) whole

nal_loop-misses :
    (m : Bytes) (data_start end n p : ℕ)
    → Clear m (p + 1) (p + n + 2)
    → nal_loop m data_start (end - data_start) 5 n p none ≡ (none, 0)
unfolding nal_loop
nal_loop-misses m data_start end zero p c = refl
nal_loop-misses m data_start end (suc n) p c =
    step_none m data_start end n p (
      get_startcode_len_none m (p + 1) (c (p + 1) (omega arith) (omega arith))
        (c (p + 1 + 1) (omega arith) (omega arith)))
    ∙ nal_loop-misses m data_start end n (p + 1) λ q a b. c q (omega arith) (omega arith)

-- Where no start code of three bytes stands behind the first byte, it finds nothing: a start code of three bytes at the start
-- is passed over.
pub get_keyframe_missed :
    (m : Bytes) (data_start size : ℕ)
    → Clear m (data_start + 1) (data_start + size + 2)
    → get_keyframe m data_start size ≡ (none, 0)
unfolding get_nal
get_keyframe_missed m data_start size c =
    let at : data_start + size - data_start ≡ size = omega arith in
    let missed =
      subst (λ x. nal_loop m data_start x 5 size data_start none ≡ (none, 0)) at
        (nal_loop-misses m data_start (data_start + size) size data_start c) in
    let checks : (if ltb size size then size else size) ≡ size = ground arith in
    elim (Bool-cases (size == 0)) [ inl z ↦ rw z refl | inr z ↦ rw (z, checks) missed ]
