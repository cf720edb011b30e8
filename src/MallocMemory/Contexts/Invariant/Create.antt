-- ===== src/MallocMemory/Contexts/Invariant/Create.antt =====
-- CreateMallocMemory on blocks that keep the invariant, and CreateStreamBuff over it.
use mgw.Prelude.{
  ℕ, ◌+◌, ◌<◌, ◌≡◌, refl, sym, ◌∙◌, Option, none, some, List, [], ◌∷◌, ◌++◌, length, ltb,
  Bool-cases, inl, inr, ◌⊎◌, arith, length-append,
}
use mgw.StreamBuff.{Memory, init_memory_param}
use mgw.MallocMemory.{
  Node, Globals, list_init, stored_name, list_en, list_de, put_block, IoMode, io_mode_read,
  io_mode_write, add_block, share_block,
}
use mgw.MallocMemory.Contexts.{BuffContext}
use mgw.MallocMemory.Contexts.Steps.{System, IsRequest}
use mgw.MallocMemory.Contexts.Lookup.{
  Finds, put_block-AllLive, put_block_self, put_block_ne, Live-NotIn, list_en-old, list_de-list_en,
  list_en-AllLive, list_en-Distinct,
}
use mgw.MallocMemory.Contexts.Unlink.{Finds-Live}
use mgw.MallocMemory.Contexts.Owners.{writers, readers, users-eq-zero, AllOf-map}
use mgw.MallocMemory.Contexts.Invariant.{HeadOf, Listed, Linked, Tally}
use mgw.MallocMemory.Contexts.Invariant.Open.{Free}

-- The block at `a` that CreateMallocMemory answers with, before the caller counts itself in.
pub record Shared (name : List ℕ) (mode : IoMode) (cs : List BuffContext) (g : Globals) (a : ℕ)
    : Type 0 where
  pub behind : List Node
  pub block : Memory
  pub linked : Linked g behind cs
  pub found : Finds behind (stored_name name) a
  pub at : g.blocks a ≡ some block
  pub here : Tally cs a block
  pub free : Free mode block.writer_count
  pub rest : (b : ℕ) (k : Memory) → (a ≡ b → ⊥) → g.blocks b ≡ some k → Tally cs b k
  pub used :
      (b : ℕ) (k : Memory) → (a ≡ b → ⊥) → g.blocks b ≡ some k → 0 < writers b cs + readers b cs

new-Free :
    (frames size : ℕ) (mode : IoMode) → Free mode (init_memory_param frames size).writer_count
unfolding init_memory_param
new-Free frames size io_mode_read = tt
new-Free frames size io_mode_write = refl

module _ (s : System) (name : List ℕ) (ns : List Node) (linked : Linked s.globals ns s.contexts)
    (tally : (a : ℕ) (m : Memory) → s.globals.blocks a ≡ some m → Tally s.contexts a m)
    (used : (a : ℕ) (m : Memory)
      → s.globals.blocks a ≡ some m
      → 0 < writers a s.contexts + readers a s.contexts) where
  head-list_en :
      (xs : List Node) (a size frames nu : ℕ)
      → nu ≡ length xs + 1
      → HeadOf
          (list_en xs a (stored_name name))
          (add_block (some a) (stored_name name) size frames (list_init ∷ xs) nu s.globals).1
  unfolding list_en add_block
  head-list_en [] a size frames nu e = (refl, omega arith)
  head-list_en (x ∷ xs) a size frames nu e =
      let n : length (xs ++ record { pbuff = some a; name = stored_name (stored_name name) } ∷ [])
          ≡ length xs + 1 =
        length-append xs _ in
      (refl, omega arith)

  no_user : (a : ℕ) → s.globals.blocks a ≡ none → writers a s.contexts + readers a s.contexts ≡ 0
  no_user a e = users-eq-zero a s.contexts (
      AllOf-map (Listed ns) (λ c. a ≡ c.block → ⊥) s.contexts
        (λ c (f, other) same.
          let (m, l) = Finds-Live ns c.name c.block s.globals.blocks linked.live f in
          ground (arith, e, l, same))
        linked.listed)

  new-Shared :
      (a size frames nu : ℕ) (mode : IoMode)
      → s.globals.blocks a ≡ none
      → nu ≡ length ns + 1
      → list_de ns (stored_name name) ≡ none
      → Shared name mode s.contexts
          (add_block (some a) (stored_name name) size frames (list_init ∷ ns) nu s.globals).1
          a
  unfolding add_block init_memory_param
  new-Shared a size frames nu mode fresh count missing =
      let m = init_memory_param frames size in
      let z = no_user a fresh in
      let at : put_block a (some m) s.globals.blocks a ≡ some m =
        put_block_self a (some m) s.globals.blocks in
      record {
        behind = list_en ns a (stored_name name);
        block = m;
        linked = record {
          head = head-list_en ns a size frames nu count;
          distinct =
              list_en-Distinct ns a _ (Live-NotIn a s.globals.blocks ns fresh linked.live)
                linked.distinct;
          live =
              list_en-AllLive ns a _ _ (m, at)
                (put_block-AllLive a m s.globals.blocks ns linked.live);
          listed =
              AllOf-map (Listed ns) (Listed (list_en ns a (stored_name name))) s.contexts
                (λ c ((nd, f, p), other).
                  ((nd, list_en-old ns a (stored_name name) c.name nd f, p), other))
                linked.listed;
        };
        found = list_de-list_en ns a name missing;
        at = at;
        here = record {
          writer = omega (arith, z);
          reader = omega (arith, z);
          single = omega (arith, z);
        };
        free = new-Free frames size mode;
        rest = λ b k ne e. tally b k (sym (put_block_ne a b _ s.globals.blocks ne) ∙ e);
        used = λ b k ne e. used b k (sym (put_block_ne a b _ s.globals.blocks ne) ∙ e);
      }

  -- What CreateMallocMemory answers: NULL with nothing changed, or a block.
  abbrev pub Answers : IoMode → Option (Option ℕ × Globals) → Type 0
  Answers mode o =
      (o ≡ some (none, s.globals))
      ⊎ ((a : ℕ) × (g : Globals) × (o ≡ some (some a, g)) × Shared name mode s.contexts g a)

  pub added :
      (calloc : Option ℕ) (size frames nu : ℕ) (mode : IoMode)
      → IsRequest s calloc name
      → nu ≡ length ns + 1
      → list_de ns (stored_name name) ≡ none
      → Answers mode
          (some (add_block calloc (stored_name name) size frames (list_init ∷ ns) nu s.globals))
  unfolding add_block
  added none size frames nu mode r count missing = inl refl
  added (some a) size frames nu mode r count missing =
      inr (a, _, refl, new-Shared a size frames nu mode (r.unallocated a refl) count missing)

  old-Shared :
      (a : ℕ) (m : Memory) (mode : IoMode)
      → s.globals.blocks a ≡ some m
      → Finds ns (stored_name name) a
      → Free mode m.writer_count
      → Shared name mode s.contexts s.globals a
  old-Shared a m mode e found free = record {
    behind = ns;
    block = m;
    linked = linked;
    found = found;
    at = e;
    here = tally a m e;
    free = free;
    rest = λ b k ne. tally b k;
    used = λ b k ne. used b k;
  }

  pub shared :
      (nd : Node) (mode : IoMode)
      → list_de ns (stored_name name) ≡ some nd
      → (a : ℕ) → nd.pbuff ≡ some a
      → Answers mode (share_block nd.pbuff mode s.globals)
  unfolding share_block
  shared nd io_mode_read e a p =
      let f : Finds ns (stored_name name) a = (nd, e, p) in
      let (m, l) = Finds-Live ns (stored_name name) a s.globals.blocks linked.live f in
      inr (a, s.globals, rw p refl, old-Shared a m io_mode_read l f tt)
  shared nd io_mode_write e a p =
      let f : Finds ns (stored_name name) a = (nd, e, p) in
      let (m, l) = Finds-Live ns (stored_name name) a s.globals.blocks linked.live f in
      elim (Bool-cases (ltb 0 m.writer_count)) [
        | inl w ↦ inl (rw (p, l, w, share_block) refl)
        | inr w ↦ inr (
          a,
          s.globals,
          rw (p, l, w, share_block) refl,
          old-Shared a m io_mode_write l f (ground (arith, w)),
        )
      ]
