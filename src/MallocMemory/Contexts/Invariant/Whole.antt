-- ===== src/MallocMemory/Contexts/Invariant/Whole.antt =====
-- CreateStreamBuff as a whole.
use mgw.Prelude.{
  ℕ, ◌+◌, ◌<◌, ◌≡◌, refl, sym, subst, Bool, Option, none, some, List, [], ◌∷◌, ◌==◌, Bool-cases,
  Option-cases, inl, inr, arith,
}
use mgw.StreamBuff.{Memory}
use mgw.MallocMemory.{
  Node, Globals, stored_name, list_de, list_init, IoMode, create_malloc_memory, add_block,
  share_block,
}
use mgw.MallocMemory.Contexts.{BuffContext, create_stream_buff}
use mgw.MallocMemory.Contexts.Steps.{System, IsRequest}
use mgw.MallocMemory.Contexts.Unlink.{found-pbuff}
use mgw.MallocMemory.Contexts.Owners.{writers, readers}
use mgw.MallocMemory.Contexts.Invariant.{Linked, Tally, Inv}
use mgw.MallocMemory.Contexts.Invariant.Open.{joined, attach-Inv}
use mgw.MallocMemory.Contexts.Invariant.Create.{Answers, added, shared}

create_malloc_memory-Answers :
    (s : System) (name : List ℕ) (ns : List Node) (linked : Linked s.globals ns s.contexts)
    (tally : (a : ℕ) (m : Memory) → s.globals.blocks a ≡ some m → Tally s.contexts a m)
    (used : (a : ℕ) (m : Memory)
      → s.globals.blocks a ≡ some m
      → 0 < writers a s.contexts + readers a s.contexts)
    (calloc : Option ℕ) (size frames : ℕ) (mode : IoMode)
    → IsRequest s calloc name
    → Answers s name ns linked tally used mode
        (create_malloc_memory calloc (stored_name name) size frames mode s.globals)
unfolding create_malloc_memory list_de
create_malloc_memory-Answers s name [] linked tally used calloc size frames mode r =
    let e : create_malloc_memory calloc (stored_name name) size frames mode s.globals
        ≡ some (add_block calloc (stored_name name) size frames (list_init ∷ []) 1 s.globals) =
      rw linked.head refl in
    subst (Answers s name [] linked tally used mode) (sym e)
      (added s name [] linked tally used calloc size frames 1 mode r (omega arith) refl)
create_malloc_memory-Answers s name (n ∷ ns) linked tally used calloc size frames mode r =
    let (head, count) = linked.head in
    let nu = s.globals.g_memory_nu in
    elim (Option-cases (list_de (n ∷ ns) (stored_name name))) [
      | inl e ↦
          let f : create_malloc_memory calloc (stored_name name) size frames mode s.globals
              ≡ some (
                  add_block calloc (stored_name name) size frames (list_init ∷ n ∷ ns) nu
                    s.globals) =
            ground (arith, head, r.other, e) in
          subst (Answers s name (n ∷ ns) linked tally used mode) (sym f) (
            added s name (n ∷ ns) linked tally used calloc size frames nu mode r
              (omega (arith, count)) e)
      | inr (nd, e) ↦
          let f : create_malloc_memory calloc (stored_name name) size frames mode s.globals
              ≡ share_block nd.pbuff mode s.globals =
            ground (arith, head, r.other, e) in
          let (a, p) = found-pbuff (n ∷ ns) (stored_name name) nd s.globals.blocks linked.live e in
          subst (Answers s name (n ∷ ns) linked tally used mode) (sym f)
            (shared s name (n ∷ ns) linked tally used nd mode e a p)
    ]

-- CreateStreamBuff returns, and keeps the invariant.
pub create_stream_buff-Inv :
    (s : System) (calloc : Option ℕ) (size : ℕ) (name : List ℕ) (frames : ℕ) (mode : IoMode)
    (rbt : Bool)
    → IsRequest s calloc name
    → Inv s
    → (o : Option BuffContext) × (g : Globals) × (create_stream_buff calloc size name frames mode
          rbt s.globals
        ≡ some (o, g))
      × Inv (record { globals = g; contexts = joined o s.contexts })
unfolding create_stream_buff
create_stream_buff-Inv s calloc size name frames mode rbt r v = elim (Bool-cases (size == 0)) [
  | inl z ↦ (none, s.globals, rw z refl, v)
  | inr z ↦
      elim (create_malloc_memory-Answers s name v.behind v.linked v.tally v.used calloc size frames
        mode r) [
          | inl e ↦ (none, s.globals, rw (z, e, create_stream_buff) refl, v)
          | inr (a, g, e, sh) ↦
              let (o, g', f, inv) =
                attach-Inv g sh.behind s.contexts name a sh.block sh.linked sh.found r.other sh.here
                  sh.rest sh.used r.few mode rbt sh.free in
              (o, g', rw (z, e, sh.at, f, create_stream_buff) refl, inv)
        ]
]
