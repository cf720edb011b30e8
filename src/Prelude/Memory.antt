-- ===== src/Prelude/Memory.antt =====
-- A block of memory as a list of bytes: `memcpy` into it and out of it.
use Prim.Native.Nat.{ℕ, zero, suc, ◌+◌, ◌≤◌, ◌<◌}
use mathlib.Core.Path.{◌≡◌, refl, ap}
use mathlib.Core.Logic.{◌⊎◌, inr}
use mathlib.Core.List.{List, [], ◌∷◌}
use native.Mathlib.Omega.{arith}
use mgw.Prelude.Lists.{length, get_or, take, drop}

module _ {ℓ} {A : Type ℓ} where
  -- `memcpy(memory + p, xs, length xs)`; what falls outside the block is not written.
  unfoldable pub write_at : ℕ → List A → List A → List A
  write_at zero [] d = d
  write_at zero (x ∷ xs) [] = []
  write_at zero (x ∷ xs) (y ∷ d) = x ∷ write_at zero xs d
  write_at (suc p) xs [] = []
  write_at (suc p) xs (y ∷ d) = y ∷ write_at p xs d

  -- `memcpy(to, memory + p, n)`.
  abbrev pub read_at : ℕ → ℕ → List A → List A
  read_at p n d = take n (drop p d)

  pub length-write_at : (p : ℕ) (xs d : List A) → length (write_at p xs d) ≡ length d
  unfolding write_at
  length-write_at zero [] d = refl
  length-write_at zero (x ∷ xs) [] = refl
  length-write_at zero (x ∷ xs) (y ∷ d) = ap suc (length-write_at zero xs d)
  length-write_at (suc p) xs [] = refl
  length-write_at (suc p) xs (y ∷ d) = ap suc (length-write_at p xs d)

  pub get_or-write_at_in :
      (p : ℕ) (xs d : List A) (k i : ℕ) (z : A)
      → i ≡ p + k
      → k < length xs
      → p + length xs ≤ length d
      → get_or (write_at p xs d) i z ≡ get_or xs k z
  unfolding write_at
  get_or-write_at_in zero [] d k i z e h l = absurd (omega arith)
  get_or-write_at_in zero (x ∷ xs) [] k i z e h l = absurd (omega arith)
  get_or-write_at_in zero (x ∷ xs) (y ∷ d) zero zero z e h l = refl
  get_or-write_at_in zero (x ∷ xs) (y ∷ d) zero (suc i) z e h l = absurd (omega arith)
  get_or-write_at_in zero (x ∷ xs) (y ∷ d) (suc k) zero z e h l = absurd (omega arith)
  get_or-write_at_in zero (x ∷ xs) (y ∷ d) (suc k) (suc i) z e h l =
      get_or-write_at_in zero xs d k i z (omega arith) (omega arith) (omega arith)
  get_or-write_at_in (suc p) xs [] k i z e h l = absurd (omega arith)
  get_or-write_at_in (suc p) xs (y ∷ d) k zero z e h l = absurd (omega arith)
  get_or-write_at_in (suc p) xs (y ∷ d) k (suc i) z e h l =
      get_or-write_at_in p xs d k i z (omega arith) (omega arith) (omega arith)

  pub get_or-write_at_out :
      (p : ℕ) (xs d : List A) (i : ℕ) (z : A)
      → (i < p) ⊎ (p + length xs ≤ i)
      → get_or (write_at p xs d) i z ≡ get_or d i z
  unfolding write_at
  get_or-write_at_out zero [] d i z h = refl
  get_or-write_at_out zero (x ∷ xs) [] i z h = refl
  get_or-write_at_out zero (x ∷ xs) (y ∷ d) zero z h = absurd (omega arith)
  get_or-write_at_out zero (x ∷ xs) (y ∷ d) (suc i) z h =
      get_or-write_at_out zero xs d i z (inr (omega arith))
  get_or-write_at_out (suc p) xs [] i z h = refl
  get_or-write_at_out (suc p) xs (y ∷ d) zero z h = refl
  get_or-write_at_out (suc p) xs (y ∷ d) (suc i) z h = get_or-write_at_out p xs d i z (omega arith)
