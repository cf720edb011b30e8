-- ===== src/MallocMemory/Contexts/Lookup.antt =====
-- The nodes by name, and the blocks that they name.
use mgw.Prelude.{
  ℕ, zero, suc, ◌≡◌, refl, sym, ◌∙◌, ap, true, Option, none, some, List, [], ◌∷◌, ◌++◌, take, ◌==◌,
  Bool-cases, inl, inr, arith, some_inj, subst,
}
use native.Mathlib.Decide.{ℕ_discrete}
use mgw.StreamBuff.{Memory}
use mgw.MallocMemory.{Node, name_size, stored_name, strncmp_same, list_en, list_de, put_block}

pub strncmp_same_refl : (n : ℕ) (a : List ℕ) → strncmp_same n a a ≡ true
unfolding strncmp_same
strncmp_same_refl zero a = refl
strncmp_same_refl (suc n) [] = refl
strncmp_same_refl (suc n) (x ∷ xs) = ground (arith, strncmp_same_refl n xs)

take-take : (n : ℕ) (a : List ℕ) → take n (take n a) ≡ take n a
take-take zero a = refl
take-take (suc n) [] = refl
take-take (suc n) (x ∷ xs) = ap (λ ys. x ∷ ys) (take-take n xs)

-- A block that is allocated.
abbrev pub Live : (ℕ → Option Memory) → ℕ → Type 0
Live blocks a = (m : Memory) × (blocks a ≡ some m)

-- Every node names a block that is allocated.
abbrev pub AllLive : (ℕ → Option Memory) → List Node → Type 0
AllLive blocks [] = Unit {0}
AllLive blocks (nd ∷ ns) = ((a : ℕ) × (nd.pbuff ≡ some a) × Live blocks a) × AllLive blocks ns

abbrev pub NotIn : ℕ → List Node → Type 0
NotIn a [] = Unit {0}
NotIn a (nd ∷ ns) = (nd.pbuff ≡ some a → ⊥) × NotIn a ns

-- No two nodes name one block.
abbrev pub Distinct : List Node → Type 0
Distinct [] = Unit {0}
Distinct (nd ∷ ns) = ((a : ℕ) → nd.pbuff ≡ some a → NotIn a ns) × Distinct ns

-- The name leads to the block.
abbrev pub Finds : List Node → List ℕ → ℕ → Type 0
Finds ns name a = (nd : Node) × (list_de ns name ≡ some nd) × (nd.pbuff ≡ some a)

pub put_block_self : (a : ℕ) (o : Option Memory) (bs : ℕ → Option Memory) → put_block a o bs a ≡ o
put_block_self a o bs = ground arith

pub put_block_ne :
    (a b : ℕ) (o : Option Memory) (bs : ℕ → Option Memory) → (a ≡ b → ⊥) → put_block a o bs b ≡ bs b
put_block_ne a b o bs h = ground arith

-- The block at `b` is the one written, or another one.
pub in_block :
    (a : ℕ) (m : Memory) (bs : ℕ → Option Memory) (P : ℕ → Memory → Type 0)
    → P a m
    → ((b : ℕ) (k : Memory) → (a ≡ b → ⊥) → bs b ≡ some k → P b k)
    → (b : ℕ) (k : Memory) → put_block a (some m) bs b ≡ some k
    → P b k
in_block a m bs P here there b k e = elim (ℕ_discrete a b) [
  | yes same ↦
      subst (λ x. put_block a (some m) bs x ≡ some k → P x k) same
        (λ f. subst (P a) (some_inj (sym (put_block_self a (some m) bs) ∙ f)) here) e
  | no ne ↦ there b k ne (sym (put_block_ne a b _ bs ne) ∙ e)
]

pub put_block-Live :
    (a b : ℕ) (m : Memory) (bs : ℕ → Option Memory) → Live bs b → Live (put_block a (some m) bs) b
put_block-Live a b m bs (k, e) = elim (Bool-cases (a == b)) [
  | inl h ↦ (m, rw h refl)
  | inr h ↦ (k, rw h e)
]

pub put_block-AllLive :
    (a : ℕ) (m : Memory) (bs : ℕ → Option Memory) (ns : List Node)
    → AllLive bs ns
    → AllLive (put_block a (some m) bs) ns
put_block-AllLive a m bs [] h = tt
put_block-AllLive a m bs (nd ∷ ns) ((b, e, l), h) =
    ((b, e, put_block-Live a b m bs l), put_block-AllLive a m bs ns h)

-- A block that is not allocated is not that of a node.
pub Live-NotIn :
    (a : ℕ) (bs : ℕ → Option Memory) (ns : List Node) → bs a ≡ none → AllLive bs ns → NotIn a ns
Live-NotIn a bs [] n h = tt
Live-NotIn a bs (nd ∷ ns) n ((b, e, (m, l)), h) = (λ same. ground arith, Live-NotIn a bs ns n h)

pub free_block-AllLive :
    (a : ℕ) (bs : ℕ → Option Memory) (ns : List Node)
    → NotIn a ns
    → AllLive bs ns
    → AllLive (put_block a none bs) ns
free_block-AllLive a bs [] n h = tt
free_block-AllLive a bs (nd ∷ ns) (ne, n) ((b, e, (m, l)), h) = (
  (b, e, (m, put_block_ne a b none bs (λ same. ne (rw same e)) ∙ l)),
  free_block-AllLive a bs ns n h,
)

-- `list_de` behind `list_en`.
pub list_de-append :
    (ns xs : List Node) (name : List ℕ) (nd : Node)
    → list_de ns name ≡ some nd
    → list_de (ns ++ xs) name ≡ some nd
unfolding list_de
list_de-append [] xs name nd h = ground arith
list_de-append (n ∷ ns) xs name nd h = elim (Bool-cases (strncmp_same name_size n.name name)) [
  | inl e ↦ ground (arith, e, h)
  | inr e ↦ ground (arith, e, h, list_de-append ns xs name nd)
]

pub list_de-append_none :
    (ns xs : List Node) (name : List ℕ)
    → list_de ns name ≡ none
    → list_de (ns ++ xs) name ≡ list_de xs name
unfolding list_de
list_de-append_none [] xs name h = refl
list_de-append_none (n ∷ ns) xs name h = elim (Bool-cases (strncmp_same name_size n.name name)) [
  | inl e ↦ ground (arith, e, h)
  | inr e ↦ ground (arith, e, h, list_de-append_none ns xs name)
]

pub list_en-old :
    (ns : List Node) (a : ℕ) (name other : List ℕ) (nd : Node)
    → list_de ns other ≡ some nd
    → list_de (list_en ns a name) other ≡ some nd
unfolding list_en
list_en-old ns a name other nd h = list_de-append ns _ other nd h

-- A new node is found by its name.
pub list_de-list_en :
    (ns : List Node) (a : ℕ) (name : List ℕ)
    → list_de ns (stored_name name) ≡ none
    → Finds (list_en ns a (stored_name name)) (stored_name name) a
unfolding list_de list_en
list_de-list_en ns a name h =
    let same : strncmp_same name_size (stored_name (stored_name name)) (stored_name name) ≡ true =
      rw (take-take 63 name) (strncmp_same_refl name_size (stored_name name)) in
    (
      record { pbuff = some a; name = stored_name (stored_name name) },
      list_de-append_none ns _ (stored_name name) h ∙ rw same refl,
      refl,
    )

pub list_en-AllLive :
    (ns : List Node) (a : ℕ) (name : List ℕ) (bs : ℕ → Option Memory)
    → Live bs a
    → AllLive bs ns
    → AllLive bs (list_en ns a name)
unfolding list_en
list_en-AllLive [] a name bs l h = ((a, refl, l), tt)
list_en-AllLive (n ∷ ns) a name bs l (here, h) = (here, list_en-AllLive ns a name bs l h)

list_en-NotIn :
    (ns : List Node) (a b : ℕ) (name : List ℕ)
    → (a ≡ b → ⊥)
    → NotIn b ns
    → NotIn b (list_en ns a name)
unfolding list_en
list_en-NotIn [] a b name ne h = (λ e. ne (some_inj e), tt)
list_en-NotIn (n ∷ ns) a b name ne (here, h) = (here, list_en-NotIn ns a b name ne h)

pub list_en-Distinct :
    (ns : List Node) (a : ℕ) (name : List ℕ)
    → NotIn a ns
    → Distinct ns
    → Distinct (list_en ns a name)
unfolding list_en
list_en-Distinct [] a name n d = (λ b e. tt, tt)
list_en-Distinct (x ∷ ns) a name (ne, n) (here, d) = (
  λ b e. list_en-NotIn ns a b name (λ same. ne (rw same e)) (here b e),
  list_en-Distinct ns a name n d,
)
