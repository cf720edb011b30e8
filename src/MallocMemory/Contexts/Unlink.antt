-- ===== src/MallocMemory/Contexts/Unlink.antt =====
-- The nodes that are left after one is taken out.
use mgw.Prelude.{
  ℕ, ◌+◌, ◌≡◌, refl, sym, ◌∙◌, true, false, Option, none, some, List, [], ◌∷◌, length, Bool-cases,
  inl, inr, arith, some_inj, subst,
}
use mgw.StreamBuff.{Memory}
use mgw.MallocMemory.{Node, name_size, strncmp_same, list_de, unlink, put_block}
use mgw.MallocMemory.Contexts.Lookup.{
  Live, AllLive, NotIn, Distinct, Finds, free_block-AllLive, put_block_ne,
}

-- The search at a node of the name, and at another one.
Finds-match :
    (n : Node) (ns : List Node) (name : List ℕ) (a : ℕ)
    → strncmp_same name_size n.name name ≡ true
    → Finds (n ∷ ns) name a
    → n.pbuff ≡ some a
unfolding list_de
Finds-match n ns name a e (nd, f, p) = ground (arith, e, f, p)

Finds-behind :
    (n : Node) (ns : List Node) (name : List ℕ) (a : ℕ)
    → strncmp_same name_size n.name name ≡ false
    → Finds (n ∷ ns) name a
    → Finds ns name a
unfolding list_de
Finds-behind n ns name a e (nd, f, p) = (nd, ground (arith, e, f), p)

Finds-cons :
    (n : Node) (ns : List Node) (name : List ℕ) (a : ℕ)
    → strncmp_same name_size n.name name ≡ false
    → Finds ns name a
    → Finds (n ∷ ns) name a
unfolding list_de
Finds-cons n ns name a e (nd, f, p) = (nd, ground (arith, e, f), p)

NotIn-Finds : (ns : List Node) (name : List ℕ) (x a : ℕ) → NotIn x ns → Finds ns name a → x ≡ a → ⊥
unfolding list_de
NotIn-Finds [] name x a n (nd, f, p) e = ground arith
NotIn-Finds (m ∷ ns) name x a (ne, n) f e = elim (Bool-cases (strncmp_same name_size m.name name)) [
  | inl h ↦ ne (rw e (Finds-match m ns name a h f))
  | inr h ↦ NotIn-Finds ns name x a n (Finds-behind m ns name a h f) e
]

-- A name leads to a block that is allocated.
pub Finds-Live :
    (ns : List Node) (name : List ℕ) (a : ℕ) (bs : ℕ → Option Memory)
    → AllLive bs ns
    → Finds ns name a
    → Live bs a
unfolding list_de
Finds-Live [] name a bs h (nd, f, p) = ground arith
Finds-Live (m ∷ ns) name a bs ((b, e, l), h) f =
    elim (Bool-cases (strncmp_same name_size m.name name)) [
      | inl k ↦ subst (Live bs) (some_inj (sym e ∙ Finds-match m ns name a k f)) l
      | inr k ↦ Finds-Live ns name a bs h (Finds-behind m ns name a k f)
    ]

-- A node whose block is allocated has one.
pub found-pbuff :
    (ns : List Node) (name : List ℕ) (nd : Node) (bs : ℕ → Option Memory)
    → AllLive bs ns
    → list_de ns name ≡ some nd
    → (a : ℕ) × (nd.pbuff ≡ some a)
unfolding list_de
found-pbuff [] name nd bs h f = ground arith
found-pbuff (m ∷ ns) name nd bs ((b, e, l), h) f =
    elim (Bool-cases (strncmp_same name_size m.name name)) [
      | inl k ↦ (b, ground (arith, k, e, f))
      | inr k ↦ found-pbuff ns name nd bs h (ground (arith, k, f))
    ]

unlink-NotIn : (ns : List Node) (name : List ℕ) (a : ℕ) → NotIn a ns → NotIn a (unlink ns name)
unfolding unlink
unlink-NotIn [] name a n = tt
unlink-NotIn (m ∷ ns) name a (ne, n) = elim (Bool-cases (strncmp_same name_size m.name name)) [
  | inl h ↦ rw h n
  | inr h ↦ rw h (ne, unlink-NotIn ns name a n)
]

pub unlink-Distinct : (ns : List Node) (name : List ℕ) → Distinct ns → Distinct (unlink ns name)
unfolding unlink
unlink-Distinct [] name d = tt
unlink-Distinct (m ∷ ns) name (here, d) = elim (Bool-cases (strncmp_same name_size m.name name)) [
  | inl h ↦ rw h d
  | inr h ↦ rw h (λ a e. unlink-NotIn ns name a (here a e), unlink-Distinct ns name d)
]

-- The block of the node that is taken out is freed, and no other node names it.
pub unlink-AllLive :
    (ns : List Node) (name : List ℕ) (a : ℕ) (bs : ℕ → Option Memory)
    → Distinct ns
    → Finds ns name a
    → AllLive bs ns
    → AllLive (put_block a none bs) (unlink ns name)
unfolding unlink
unlink-AllLive [] name a bs d f l = tt
unlink-AllLive (m ∷ ns) name a bs (here, d) f ((b, e, (k, live)), l) =
    elim (Bool-cases (strncmp_same name_size m.name name)) [
      | inl h ↦ rw h (free_block-AllLive a bs ns (here a (Finds-match m ns name a h f)) l)
      | inr h ↦
          let f' = Finds-behind m ns name a h f in
          rw h (
            (
              b,
              e,
              (
                k,
                put_block_ne a b none bs (λ same. NotIn-Finds ns name b a (here b e) f' (sym same))
                    ∙ live,
              ),
            ),
            unlink-AllLive ns name a bs d f' l,
          )
    ]

-- A name that leads to another block still leads to it.
pub unlink-Finds :
    (ns : List Node) (name other : List ℕ) (a b : ℕ)
    → Finds ns name a
    → Finds ns other b
    → (a ≡ b → ⊥)
    → Finds (unlink ns name) other b
unfolding unlink list_de
unlink-Finds [] name other a b f (nd, g, p) ne = ground arith
unlink-Finds (m ∷ ns) name other a b f g ne =
    elim (Bool-cases (strncmp_same name_size m.name name)) [
      | inl h ↦ elim (Bool-cases (strncmp_same name_size m.name other)) [
        | inl k ↦
            absurd
              (ne (some_inj (sym (Finds-match m ns name a h f) ∙ Finds-match m ns other b k g)))
        | inr k ↦ rw h (Finds-behind m ns other b k g)
      ]
      | inr h ↦ elim (Bool-cases (strncmp_same name_size m.name other)) [
        | inl k ↦ rw h (m, rw k refl, Finds-match m ns other b k g)
        | inr k ↦ rw h (
            Finds-cons m (unlink ns name) other b k (
              unlink-Finds ns name other a b (Finds-behind m ns name a h f)
                (Finds-behind m ns other b k g) ne))
      ]
    ]

pub length-unlink :
    (ns : List Node) (name : List ℕ) (a : ℕ)
    → Finds ns name a
    → length (unlink ns name) + 1 ≡ length ns
unfolding unlink list_de
length-unlink [] name a (nd, f, p) = ground arith
length-unlink (m ∷ ns) name a f = elim (Bool-cases (strncmp_same name_size m.name name)) [
  | inl h ↦ rw h (omega arith)
  | inr h ↦ rw h (omega (arith, length-unlink ns name a (Finds-behind m ns name a h f)))
]
