-- ===== src/StreamBuff/Place.antt =====
-- The copy of PutOneFrameToBuff, read round the end of the data.
use mgw.Prelude.{
  ℕ, ◌+◌, ◌-◌, ◌%◌, ◌^◌, ◌≤◌, ◌<◌, ◌≡◌, refl, ◌∙◌, ◌⊎◌, inl, inr, List, length, false, get_or, take,
  drop, length-take, length-drop, get_or-take, get_or-drop, write_at, length-write_at,
  get_or-write_at_in, get_or-write_at_out, mod_straight, mod_round, mod_before, add32, sub32, ltb,
  true, lt→ltb, leb_of_ltb, arith,
}
use native.Mathlib.Decide.{dec_lt}
use native.Mathlib.Nat.{mod-lt}
use mgw.StreamBuff.{place, covers}

-- Data of `s` bytes, the position `p` of the address `v`, and a frame that leaves a byte free.
pub record Ready (s v p : ℕ) (f d : List ℕ) : Type 0 where
  pub block : length d ≡ s
  pub small : s ≤ 2 ^ 31
  pub position : v % s ≡ p
  pub inside : p < s
  pub room : length f < s

module _ (s v p : ℕ) (f d : List ℕ) (r : Ready s v p f d) where
  pub length-place : length (place s p f d).bytes ≡ s
  unfolding place
  length-place = ground (
    arith,
    length-write_at p f d,
    length-write_at p (take (sub32 s p) f) d,
    length-write_at 0 (drop (sub32 s p) f) (write_at p (take (sub32 s p) f) d),
  )

  -- The next frame's position is that of the address behind this one.
  pub place_next : (place s p f d).next ≡ (v + length f) % s
  unfolding place
  place_next = elim (dec_lt (p + length f) s) [
    | yes h ↦ ground (arith, mod_straight v (length f) s (omega arith))
    | no h ↦ ground (arith, mod_round v (length f) s (omega arith) (omega arith))
  ]

  abbrev left : ℕ
  left = s - p

  abbrev two_pieces : List ℕ
  two_pieces = write_at 0 (drop left f) (write_at p (take left f) d)

  bytes_straight : p + length f ≤ s → (place s p f d).bytes ≡ write_at p f d
  unfolding place
  bytes_straight h = ground arith

  bytes_round : s < p + length f → (place s p f d).bytes ≡ two_pieces
  unfolding place
  bytes_round h =
      let e : sub32 s p ≡ s - p = omega arith in
      let t : ltb s (add32 p (length f)) ≡ true = lt→ltb _ _ (omega arith) in
      rw (e, leb_of_ltb s (add32 p (length f)) t)

  two_pieces_first :
      (k : ℕ) → s < p + length f → p + k < s → get_or two_pieces (p + k) 0 ≡ get_or f k 0
  two_pieces_first k l h =
      get_or-write_at_out 0 (drop left f) _ (p + k) 0 (inr (omega (arith, length-drop left f)))
      ∙ get_or-write_at_in p (take left f) d k (p + k) 0 refl (omega (arith, length-take left f))
          (omega (arith, length-take left f))
      ∙ get_or-take f left k 0 (omega arith)

  two_pieces_second :
      (k : ℕ) → k < length f → s ≤ p + k → get_or two_pieces (p + k - s) 0 ≡ get_or f k 0
  two_pieces_second k l h =
      get_or-write_at_in 0 (drop left f) _ (p + k - s) (p + k - s) 0 (omega arith)
        (omega (arith, length-drop left f))
        (omega (arith, length-drop left f, length-write_at p (take left f) d))
      ∙ get_or-drop f left (p + k - s) k 0 (omega arith)

  -- The frame's bytes stand at its addresses.
  pub place_holds :
      (k a : ℕ) → a ≡ v + k → k < length f → get_or (place s p f d).bytes (a % s) 0 ≡ get_or f k 0
  place_holds k a e h = elim (dec_lt (p + k) s) [
    | yes i ↦
        rw (e, at_straight i)
          (elim (dec_lt s (p + length f)) [
            | yes j ↦ rw (bytes_round j) (two_pieces_first k j i)
            | no j ↦
                rw (bytes_straight (omega arith))
                  (get_or-write_at_in p f d k (p + k) 0 refl h (omega arith))
          ])
    | no i ↦ rw (e, at_round i, bytes_round (omega arith)) (two_pieces_second k h (omega arith))
  ]
    where
      at_straight : p + k < s → (v + k) % s ≡ p + k
      at_straight i = mod_straight v k s (omega arith) ∙ omega arith

      at_round : ¬ (p + k < s) → (v + k) % s ≡ p + k - s
      at_round i = mod_round v k s (omega arith) (omega arith) ∙ omega arith

  -- The bytes at the other addresses are as they were.
  pub place_apart :
      (a b : ℕ)
      → v ≡ a + b
      → 0 < b
      → b + length f < s
      → get_or (place s p f d).bytes (a % s) 0 ≡ get_or d (a % s) 0
  place_apart a b e h k = elim (dec_lt s (p + length f)) [
    | yes j ↦ rw (bytes_round j) (
        get_or-write_at_out 0 (drop left f) _ (a % s) 0
          (inr (omega (arith, length-drop left f, where_a)))
        ∙ get_or-write_at_out p (take left f) d (a % s) 0 (inl (omega (arith, where_a))))
    | no j ↦
        rw (bytes_straight (omega arith))
          (get_or-write_at_out p f d (a % s) 0 (omega (arith, where_a)))
  ]
    where
      where_a : (a % s + b ≡ p) ⊎ (a % s + b ≡ p + s)
      where_a = mod_before a b v s p e r.position (mod-lt a (omega arith)) (omega arith)

  -- The cover test passes by the frames that stand before, if the new one is not empty.
  pub place-covers :
      (a b : ℕ)
      → v ≡ a + b
      → 0 < b
      → b + length f < s
      → 0 < length f
      → covers p (place s p f d).pos_e (a % s) ≡ false
  unfolding place covers
  place-covers a b e h k l =
      elim (mod_before a b v s p e r.position (mod-lt a (omega arith)) (omega arith)) [
        | inl i ↦ ground arith
        | inr i ↦ ground arith
      ]
