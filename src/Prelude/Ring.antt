-- ===== src/Prelude/Ring.antt =====
-- Reading a block of `size` bytes round its end: address `v` stands for the byte `v % size`.
use Prim.Native.Nat.{ℕ, zero, suc, ◌+◌, ◌-◌, ◌%◌, ◌≤◌, ◌<◌}
use mathlib.Core.Path.{◌≡◌, refl, sym, ap, ap₂, ◌∙◌}
use mathlib.Core.Logic.{◌≢◌, ◌⊎◌, inl, inr}
use native.Mathlib.Decide.{dec_lt}
use mathlib.Core.List.{List, [], ◌∷◌, ◌++◌}
use native.Mathlib.Omega.{arith}
use native.Mathlib.Nat.{mod-eq_of_lt, mod-eq-sub-mod, div-add-mod, mod-add-mod, add-zero}
use mgw.Prelude.Lists.{length, get_or}
use mgw.Prelude.Memory.{read_at}

pub mod_small : (a s : ℕ) → a < s → a % s ≡ a
mod_small a s h = mod-eq_of_lt h

pub mod_wrap : (a s : ℕ) → s ≤ a → a < s + s → a % s ≡ a - s
mod_wrap a s h k = mod-eq-sub-mod h ∙ mod_small (a - s) s (omega arith)

-- Two addresses less than `s` apart are different bytes.
pub mod-ne : (a b s : ℕ) → a < b → b < a + s → a % s ≢ b % s
mod-ne a b s h k e = grind (arith, div-add-mod a s, div-add-mod b s)

-- The byte `k` places on, when the walk stays before the end, and when it goes round.
pub mod_straight : (v k s : ℕ) → v % s + k < s → (v + k) % s ≡ v % s + k
mod_straight v k s h = sym (mod-add-mod v s k) ∙ mod_small (v % s + k) s h

pub mod_round : (v k s : ℕ) → s ≤ v % s + k → v % s + k < s + s → (v + k) % s ≡ v % s + k - s
mod_round v k s h l = sym (mod-add-mod v s k) ∙ mod_wrap (v % s + k) s h l

-- The `n` bytes from address `v` on, over the bytes `d` of a block of `s` bytes.
unfoldable pub ring_read : List ℕ → ℕ → ℕ → ℕ → List ℕ
ring_read d s v zero = []
ring_read d s v (suc n) = get_or d (v % s) 0 ∷ ring_read d s (v + 1) n

pub length-ring_read : (d : List ℕ) (s v n : ℕ) → length (ring_read d s v n) ≡ n
unfolding ring_read
length-ring_read d s v zero = refl
length-ring_read d s v (suc n) = ap suc (length-ring_read d s (v + 1) n)

-- Two blocks that agree on the addresses read give the same bytes.
pub ring_read-congr :
    (d e : List ℕ) (s v n : ℕ)
    → ((a : ℕ) → v ≤ a → a < v + n → get_or d (a % s) 0 ≡ get_or e (a % s) 0)
    → ring_read d s v n ≡ ring_read e s v n
unfolding ring_read
ring_read-congr d e s v zero h = refl
ring_read-congr d e s v (suc n) h =
    ap₂ ◌∷◌ (h v (omega arith) (omega arith))
      (ring_read-congr d e s (v + 1) n (λ a p q. h a (omega arith) (omega arith)))

-- A block that holds `xs` from address `v` on gives `xs`.
pub ring_read_of_holds :
    (d xs : List ℕ) (s v : ℕ)
    → ((k a : ℕ) → a ≡ v + k → k < length xs → get_or d (a % s) 0 ≡ get_or xs k 0)
    → ring_read d s v (length xs) ≡ xs
unfolding ring_read
ring_read_of_holds d [] s v h = refl
ring_read_of_holds d (x ∷ xs) s v h =
    ap₂ ◌∷◌ (h 0 v (omega arith) (omega arith))
      (ring_read_of_holds d xs s (v + 1) (λ k a e l. h (suc k) a (omega arith) (omega arith)))

pub ring_read-add :
    (d : List ℕ) (s v m n : ℕ)
    → ring_read d s v (m + n) ≡ ring_read d s v m ++ ring_read d s (v + m) n
unfolding ring_read
ring_read-add d s v zero n = let e : zero + n ≡ n = omega arith in rw (e, add-zero)
ring_read-add d s v (suc m) n =
    let e : suc m + n ≡ suc (m + n) = omega arith in
    let f : v + suc m ≡ v + 1 + m = omega arith in
    rw (e, f) (ap (λ r. get_or d (v % s) 0 ∷ r) (ring_read-add d s (v + 1) m n))

take-drop_step :
    (p n : ℕ) (d : List ℕ) → p < length d → read_at p (suc n) d ≡ get_or d p 0 ∷ read_at (suc p) n d
take-drop_step zero n [] h = absurd (omega arith)
take-drop_step zero n (x ∷ d) h = refl
take-drop_step (suc p) n [] h = absurd (omega arith)
take-drop_step (suc p) n (x ∷ d) h = take-drop_step p n d (omega arith)

-- A read that does not go round is one `memcpy`.
pub ring_read_straight :
    (d : List ℕ) (s v p n : ℕ)
    → v % s ≡ p
    → p + n ≤ s
    → s ≤ length d
    → ring_read d s v n ≡ read_at p n d
unfolding ring_read
ring_read_straight d s v p zero e h l = refl
ring_read_straight d s v p (suc zero) e h l = rw (e, take-drop_step p 0 d (omega arith))
ring_read_straight d s v p (suc (suc n)) e h l =
    ap₂ ◌∷◌ (rw e) (
      ring_read_straight d s (v + 1) (suc p) (suc n)
        (mod_straight v 1 s (omega arith) ∙ omega arith) (omega arith) l)
    ∙ sym (take-drop_step p (suc n) d (omega arith))

-- A read that goes round is two.
pub ring_read_round :
    (d : List ℕ) (s v p m n : ℕ)
    → v % s ≡ p
    → p + m ≡ s
    → n ≤ s
    → s ≤ length d
    → 0 < m
    → ring_read d s v (m + n) ≡ read_at p m d ++ read_at 0 n d
ring_read_round d s v p m n e h k l pos =
    ring_read-add d s v m n
    ∙ ap₂ ◌++◌ (ring_read_straight d s v p m e (omega arith) l) (
        ring_read_straight d s (v + m) 0 n
          (mod_round v m s (omega arith) (omega arith) ∙ omega arith) (omega arith) l)

-- Where an address that lies `b` before `v` stands, seen from `v`.
pub mod_before :
    (a b v s p : ℕ)
    → v ≡ a + b
    → v % s ≡ p
    → a % s < s
    → b < s
    → (a % s + b ≡ p) ⊎ (a % s + b ≡ p + s)
mod_before a b v s p e h l k = elim (dec_lt (a % s + b) s) [
  | yes i ↦ inl (sym (mod_straight a b s i) ∙ ap (λ t. t % s) (sym e) ∙ h)
  | no i ↦ inr (
      omega
        (arith, sym (mod_round a b s (omega arith) (omega arith)) ∙ ap (λ t. t % s) (sym e) ∙ h))
]
