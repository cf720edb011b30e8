-- ===== src/Serializer/Decode.antt =====
-- What the integer writers append, read back.
use mgw.Prelude.{
  ℕ, ◌+◌, ◌*◌, ◌/◌, ◌%◌, ◌^◌, ◌≡◌, refl, sym, ◌∙◌, ap, List, [], ◌∷◌, ◌++◌, length, append_assoc,
  arith,
}
use mgw.Serializer.{s_w8, s_wl16, s_wl24, s_wl32, s_wl64, s_wb16, s_wb24, s_wb32, s_wb64}

-- The value of bytes, the lowest first, and the highest first behind `n`.
abbrev pub little : List ℕ → ℕ
little [] = 0
little (b ∷ bs) = b + 256 * little bs

abbrev pub big : ℕ → List ℕ → ℕ
big n [] = n
big n (b ∷ bs) = big (n * 256 + b) bs

-- `f` appends `n` bytes that hold its argument.
pub record Appends (value : List ℕ → ℕ) (n : ℕ) (f : List ℕ → ℕ → List ℕ) : Type 0 where
  pub appended : (s : List ℕ) (u : ℕ) → f s u ≡ s ++ f [] u
  pub size : (u : ℕ) → length (f [] u) ≡ n
  pub read : (u : ℕ) → value (f [] u) ≡ u % 256 ^ n

-- Two writes behind `s`.
append-two :
    (f g : List ℕ → ℕ → List ℕ)
    → ((s : List ℕ) (u : ℕ) → f s u ≡ s ++ f [] u)
    → ((s : List ℕ) (u : ℕ) → g s u ≡ s ++ g [] u)
    → (s : List ℕ) (a b : ℕ) → g (f s a) b ≡ s ++ g (f [] a) b
append-two f g hf hg s a b =
    hg (f s a) b
    ∙ ap (λ t. t ++ g [] b) (hf s a)
    ∙ append_assoc s (f [] a) (g [] b)
    ∙ ap (λ t. s ++ t) (sym (hg (f [] a) b))

append-one : (s : List ℕ) (u : ℕ) → s_w8 s u ≡ s ++ s_w8 [] u
append-one s u = refl

s_wl16-append : (s : List ℕ) (u : ℕ) → s_wl16 s u ≡ s ++ s_wl16 [] u
unfolding s_wl16
s_wl16-append s u = append-two s_w8 s_w8 append-one append-one s u (u / 2 ^ 8)

s_wl24-append : (s : List ℕ) (u : ℕ) → s_wl24 s u ≡ s ++ s_wl24 [] u
unfolding s_wl24
s_wl24-append s u = append-two s_w8 s_wl16 append-one s_wl16-append s u (u / 2 ^ 8 % 2 ^ 16)

s_wl32-append : (s : List ℕ) (u : ℕ) → s_wl32 s u ≡ s ++ s_wl32 [] u
unfolding s_wl32
s_wl32-append s u =
    append-two s_wl16 s_wl16 s_wl16-append s_wl16-append s (u % 2 ^ 16) (u / 2 ^ 16 % 2 ^ 16)

s_wl64-append : (s : List ℕ) (u : ℕ) → s_wl64 s u ≡ s ++ s_wl64 [] u
unfolding s_wl64
s_wl64-append s u =
    append-two s_wl32 s_wl32 s_wl32-append s_wl32-append s (u % 2 ^ 32) (u / 2 ^ 32 % 2 ^ 32)

s_wb16-append : (s : List ℕ) (u : ℕ) → s_wb16 s u ≡ s ++ s_wb16 [] u
unfolding s_wb16
s_wb16-append s u = append-two s_w8 s_w8 append-one append-one s (u / 2 ^ 8) u

s_wb24-append : (s : List ℕ) (u : ℕ) → s_wb24 s u ≡ s ++ s_wb24 [] u
unfolding s_wb24
s_wb24-append s u = append-two s_wb16 s_w8 s_wb16-append append-one s (u / 2 ^ 8 % 2 ^ 16) u

s_wb32-append : (s : List ℕ) (u : ℕ) → s_wb32 s u ≡ s ++ s_wb32 [] u
unfolding s_wb32
s_wb32-append s u =
    append-two s_wb16 s_wb16 s_wb16-append s_wb16-append s (u / 2 ^ 16 % 2 ^ 16) (u % 2 ^ 16)

s_wb64-append : (s : List ℕ) (u : ℕ) → s_wb64 s u ≡ s ++ s_wb64 [] u
unfolding s_wb64
s_wb64-append s u =
    append-two s_wb32 s_wb32 s_wb32-append s_wb32-append s (u / 2 ^ 32 % 2 ^ 32) (u % 2 ^ 32)

pub s_wb16-Appends : Appends (big 0) 2 s_wb16
unfolding s_wb16
s_wb16-Appends = record { appended = s_wb16-append; size = λ u. refl; read = λ u. omega arith }

pub s_wb24-Appends : Appends (big 0) 3 s_wb24
unfolding s_wb24 s_wb16
s_wb24-Appends = record { appended = s_wb24-append; size = λ u. refl; read = λ u. omega arith }

pub s_wb32-Appends : Appends (big 0) 4 s_wb32
unfolding s_wb32 s_wb16
s_wb32-Appends = record { appended = s_wb32-append; size = λ u. refl; read = λ u. omega arith }

-- The writers of 16, 24, 32 and 64 bits append two, three, four and eight bytes, whatever was written before, and
-- these hold the argument in the order that the name says, the lowest byte first for `l` and the highest first for `b`.
writers-Appends :
    (Appends little 2 s_wl16
      × Appends little 3 s_wl24
      × Appends little 4 s_wl32
      × Appends little 8 s_wl64)
    × (Appends (big 0) 2 s_wb16
        × Appends (big 0) 3 s_wb24
        × Appends (big 0) 4 s_wb32
        × Appends (big 0) 8 s_wb64)
unfolding s_wl16 s_wl24 s_wl32 s_wl64 s_wb16 s_wb32 s_wb64
writers-Appends = (
  (
    record { appended = s_wl16-append; size = λ u. refl; read = λ u. omega arith },
    record { appended = s_wl24-append; size = λ u. refl; read = λ u. omega arith },
    record { appended = s_wl32-append; size = λ u. refl; read = λ u. omega arith },
    record { appended = s_wl64-append; size = λ u. refl; read = λ u. omega arith },
  ),
  (
    s_wb16-Appends,
    s_wb24-Appends,
    s_wb32-Appends,
    record { appended = s_wb64-append; size = λ u. refl; read = λ u. omega arith },
  ),
)

-- Two constants that headers hold.
pub s_wb32_zero : (s : List ℕ) → s_wb32 s 0 ≡ s ++ (0 ∷ 0 ∷ 0 ∷ 0 ∷ [])
unfolding s_wb32 s_wb16
s_wb32_zero s = s_wb32-append s 0

pub s_wb32_nine : (s : List ℕ) → s_wb32 s 9 ≡ s ++ (0 ∷ 0 ∷ 0 ∷ 9 ∷ [])
unfolding s_wb32 s_wb16
s_wb32_nine s = s_wb32-append s 9
