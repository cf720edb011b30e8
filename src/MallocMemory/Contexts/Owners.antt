-- ===== src/MallocMemory/Contexts/Owners.antt =====
-- The contexts that use a block.
use mgw.Prelude.{
  ℕ, zero, suc, ◌+◌, ◌≤◌, ◌≡◌, refl, some, List, [], ◌∷◌, length, get_elem?, ◌==◌, if◌then◌else◌,
  arith, subst, some_inj,
}
use mgw.MallocMemory.{io_mode_read, io_mode_write}
use mgw.MallocMemory.Contexts.{BuffContext}
use mgw.MallocMemory.Contexts.Steps.{drop_at}

-- Is the context a writer of the block at `a`, is it a reader of it?
abbrev pub writes : ℕ → BuffContext → ℕ
writes a c = elim c.mode [ io_mode_read ↦ 0 | io_mode_write ↦ if c.block == a then 1 else 0 ]

abbrev pub reads : ℕ → BuffContext → ℕ
reads a c = elim c.mode [ io_mode_read ↦ if c.block == a then 1 else 0 | io_mode_write ↦ 0 ]

abbrev pub writers : ℕ → List BuffContext → ℕ
writers a [] = 0
writers a (c ∷ cs) = writes a c + writers a cs

abbrev pub readers : ℕ → List BuffContext → ℕ
readers a [] = 0
readers a (c ∷ cs) = reads a c + readers a cs

abbrev pub AllOf : (BuffContext → Type 0) → List BuffContext → Type 0
AllOf P [] = Unit {0}
AllOf P (c ∷ cs) = P c × AllOf P cs

pub users-le-length : (a : ℕ) (cs : List BuffContext) → writers a cs + readers a cs ≤ length cs
users-le-length a [] = omega arith
users-le-length a (c ∷ cs) = ground (arith, users-le-length a cs)

-- A block that no context has, has no user.
pub users-eq-zero :
    (a : ℕ) (cs : List BuffContext)
    → AllOf (λ c. a ≡ c.block → ⊥) cs
    → writers a cs + readers a cs ≡ 0
users-eq-zero a [] h = refl
users-eq-zero a (c ∷ cs) (ne, h) = ground (arith, ne, users-eq-zero a cs h)

pub writers-drop_at :
    (a i : ℕ) (cs : List BuffContext) (c : BuffContext)
    → get_elem? cs i ≡ some c
    → writers a cs ≡ writes a c + writers a (drop_at i cs)
writers-drop_at a i [] c e = ground arith
writers-drop_at a zero (x ∷ cs) c e = ground (arith, e)
writers-drop_at a (suc i) (x ∷ cs) c e = omega (arith, writers-drop_at a i cs c e)

pub readers-drop_at :
    (a i : ℕ) (cs : List BuffContext) (c : BuffContext)
    → get_elem? cs i ≡ some c
    → readers a cs ≡ reads a c + readers a (drop_at i cs)
readers-drop_at a i [] c e = ground arith
readers-drop_at a zero (x ∷ cs) c e = ground (arith, e)
readers-drop_at a (suc i) (x ∷ cs) c e = omega (arith, readers-drop_at a i cs c e)

pub length-drop_at : (i : ℕ) (cs : List BuffContext) → length (drop_at i cs) ≤ length cs
length-drop_at i [] = omega arith
length-drop_at zero (x ∷ cs) = omega arith
length-drop_at (suc i) (x ∷ cs) = omega (arith, length-drop_at i cs)

module _ (P : BuffContext → Type 0) where
  pub AllOf-get :
      (i : ℕ) (cs : List BuffContext) (c : BuffContext) → get_elem? cs i ≡ some c → AllOf P cs → P c
  AllOf-get i [] c e h = ground arith
  AllOf-get zero (x ∷ cs) c e (p, h) = subst P (some_inj e) p
  AllOf-get (suc i) (x ∷ cs) c e (p, h) = AllOf-get i cs c e h

  pub AllOf-drop_at : (i : ℕ) (cs : List BuffContext) → AllOf P cs → AllOf P (drop_at i cs)
  AllOf-drop_at i [] h = tt
  AllOf-drop_at zero (x ∷ cs) (p, h) = h
  AllOf-drop_at (suc i) (x ∷ cs) (p, h) = (p, AllOf-drop_at i cs h)

  pub AllOf-map :
      (Q : BuffContext → Type 0) (cs : List BuffContext)
      → ((c : BuffContext) → P c → Q c)
      → AllOf P cs
      → AllOf Q cs
  AllOf-map Q [] f h = tt
  AllOf-map Q (x ∷ cs) f (p, h) = (f x p, AllOf-map Q cs f h)

  -- With no user of a block left, what holds of the users of the others holds of all.
  pub AllOf-others :
      (Q : BuffContext → Type 0) (a : ℕ) (cs : List BuffContext)
      → ((c : BuffContext) → (a ≡ c.block → ⊥) → P c → Q c)
      → writers a cs + readers a cs ≡ 0
      → AllOf P cs
      → AllOf Q cs
  AllOf-others Q a [] f z h = tt
  AllOf-others Q a (x ∷ cs) f z (p, h) =
      (f x (λ e. ground (arith, e, z)) p, AllOf-others Q a cs f (omega (arith, z)) h)
