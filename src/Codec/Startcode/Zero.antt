-- ===== src/Codec/Startcode/Zero.antt =====
-- The word test sees every zero byte.
use mgw.Prelude.{
  ℕ, zero, suc, ◌+◌, ◌-◌, ◌*◌, ◌/◌, ◌%◌, ◌^◌, ◌<◌, ◌≡◌, ◌≢◌, ◌⊎◌, false, sub32, arith, inl, inr,
  refl,
}
use mgw.Codec.Startcode.{has_zero}

Nat-decide : (n : ℕ) → (n ≡ 0) ⊎ (n ≢ 0)
Nat-decide zero = inl refl
Nat-decide (suc n) = inr λ h. omega arith

abbrev pub word : ℕ → ℕ → ℕ → ℕ → ℕ
word b0 b1 b2 b3 = b0 + 2 ^ 8 * b1 + 2 ^ 16 * b2 + 2 ^ 24 * b3

module _ (b0 b1 b2 b3 : ℕ) (h0 : b0 < 256) (h1 : b1 < 256) (h2 : b2 < 256) (h3 : b3 < 256) where
  bit7 : b0 ≡ 0 → sub32 (word b0 b1 b2 b3) 16843009 / 2 ^ 7 % 2 ≡ 1
  bit7 z = omega (arith, h0, h1, h2, h3, z)

  bit7' : b0 ≡ 0 → (2 ^ 32 - 1 - word b0 b1 b2 b3) / 2 ^ 7 % 2 ≡ 1
  bit7' z = omega (arith, h0, h1, h2, h3, z)

  bit15 : b0 ≢ 0 → b1 ≡ 0 → sub32 (word b0 b1 b2 b3) 16843009 / 2 ^ 15 % 2 ≡ 1
  bit15 n z = omega (arith, h0, h1, h2, h3, z)

  bit15' : b1 ≡ 0 → (2 ^ 32 - 1 - word b0 b1 b2 b3) / 2 ^ 15 % 2 ≡ 1
  bit15' z = omega (arith, h0, h1, h2, h3, z)

  bit23 : b0 ≢ 0 → b1 ≢ 0 → b2 ≡ 0 → sub32 (word b0 b1 b2 b3) 16843009 / 2 ^ 23 % 2 ≡ 1
  bit23 n n1 z = omega (arith, h0, h1, h2, h3, z)

  bit23' : b2 ≡ 0 → (2 ^ 32 - 1 - word b0 b1 b2 b3) / 2 ^ 23 % 2 ≡ 1
  bit23' z = omega (arith, h0, h1, h2, h3, z)

  bit31 : b0 ≢ 0 → b1 ≢ 0 → b2 ≢ 0 → b3 ≡ 0 → sub32 (word b0 b1 b2 b3) 16843009 / 2 ^ 31 % 2 ≡ 1
  bit31 n n1 n2 z = omega (arith, h0, h1, h2, h3, z)

  bit31' : b3 ≡ 0 → (2 ^ 32 - 1 - word b0 b1 b2 b3) / 2 ^ 31 % 2 ≡ 1
  bit31' z = omega (arith, h0, h1, h2, h3, z)

  pub has_zero-second : has_zero (word b0 b1 b2 b3) ≡ false → b1 ≢ 0
  unfolding has_zero
  has_zero-second e z = elim (Nat-decide b0) [
    | inl z0 ↦ ground (arith, bit7 z0, bit7' z0)
    | inr n0 ↦ ground (arith, bit15 n0 z, bit15' z)
  ]

  pub has_zero-last : has_zero (word b0 b1 b2 b3) ≡ false → b3 ≢ 0
  unfolding has_zero
  has_zero-last e z = elim (Nat-decide b0) [
    | inl z0 ↦ ground (arith, bit7 z0, bit7' z0)
    | inr n0 ↦ elim (Nat-decide b1) [
      | inl z1 ↦ ground (arith, bit15 n0 z1, bit15' z1)
      | inr n1 ↦ elim (Nat-decide b2) [
        | inl z2 ↦ ground (arith, bit23 n0 n1 z2, bit23' z2)
        | inr n2 ↦ ground (arith, bit31 n0 n1 n2 z, bit31' z)
      ]
    ]
  ]
