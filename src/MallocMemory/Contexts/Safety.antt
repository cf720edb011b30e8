-- ===== src/MallocMemory/Contexts/Safety.antt =====
-- What holds of the named blocks after any sequence of calls.
use mgw.Prelude.{
  ℕ, ◌≤◌, ◌<◌, ◌≡◌, refl, sym, ◌∙◌, Bool, Option, none, some, List, [], ◌∷◌, get_elem?,
  Option-cases, inl, inr, false, arith, some_inj, subst,
}
use mgw.StreamBuff.{Memory}
use mgw.MallocMemory.{
  Node, Globals, null, list_head, name_size, strncmp_same, stored_name, list_de, IoMode,
  io_mode_read, io_mode_write, share_block, put_block, create_malloc_memory,
}
use mgw.MallocMemory.Contexts.{
  BuffContext, context, count_in, attach, create_stream_buff, delete_stream_buff,
}
use mgw.MallocMemory.Contexts.Steps.{
  System, start, drop_at, Step, opens, refused, closes, Reach, here, onward,
}
use mgw.MallocMemory.Contexts.Lookup.{Finds, AllLive}
use mgw.MallocMemory.Contexts.Unlink.{Finds-Live}
use mgw.MallocMemory.Contexts.Owners.{writers, readers, AllOf-get, writers-drop_at}
use mgw.MallocMemory.Contexts.Invariant.{Listed, HeadOf, Inv}
use mgw.MallocMemory.Contexts.Invariant.Open.{joined}
use mgw.MallocMemory.Contexts.Invariant.Whole.{create_stream_buff-Inv}
use mgw.MallocMemory.Contexts.Invariant.Close.{delete_stream_buff-Inv}

start-Inv : Inv start
start-Inv = record {
  behind = [];
  linked = record { head = refl; distinct = tt; live = tt; listed = tt };
  tally = λ a m e. ground arith;
  used = λ a m e. ground arith;
  few = omega arith;
}

-- What a call is known to lead to is what it led to.
opened-Inv :
    (s : System) (o o' : Option BuffContext) (g g' : Globals)
    (r : Option (Option BuffContext × Globals))
    → r ≡ some (o, g)
    → r ≡ some (o', g')
    → Inv (record { globals = g; contexts = joined o s.contexts })
    → Inv (record { globals = g'; contexts = joined o' s.contexts })
opened-Inv s o o' g g' r e f =
    subst
      (λ (x : Option BuffContext × Globals).
        Inv (record { globals = x.1; contexts = joined x.0 s.contexts }))
      (some_inj (sym e ∙ f))

Step-Inv : {s t : System} → Step s t → Inv s → Inv t
Step-Inv {s} (opens calloc size name frames mode rbt {c} {g} r e) v =
    let (o, g', f, inv) = create_stream_buff-Inv s calloc size name frames mode rbt r v in
    opened-Inv s o (some c) g' g _ f e inv
Step-Inv {s} (refused calloc size name frames mode rbt {g} r e) v =
    let (o, g', f, inv) = create_stream_buff-Inv s calloc size name frames mode rbt r v in
    opened-Inv s o none g' g _ f e inv
Step-Inv {s} (closes i {c} {g} at e) v =
    let (g', f, inv) = delete_stream_buff-Inv s i c at v in
    subst (λ (x : Globals). Inv (record { globals = x; contexts = drop_at i s.contexts }))
      (some_inj (sym f ∙ e)) inv

pub Reach-Inv : {s : System} → Reach s → Inv s
Reach-Inv here = start-Inv
Reach-Inv (onward r step) = Step-Inv step (Reach-Inv r)

-- The context leads to its block.
open-Listed :
    {s : System} {c : BuffContext} (i : ℕ) (v : Inv s)
    → get_elem? s.contexts i ≡ some c
    → Listed v.behind c
open-Listed {s} {c} i v at = AllOf-get (Listed v.behind) i s.contexts c at v.linked.listed

-- After any sequence of openings, refusals and closings, in which an opening is tried only with fewer than 255 contexts open, of a
-- name that does not read as that of the first node, list_head, and with an address from calloc that is not in use, the block of an open context is
-- allocated, its counts are the numbers of the open contexts that write and read it, at most one
-- of them writes, and the context can be closed without an access to memory that is not allocated.
pub open_context-Live :
    {s : System} {c : BuffContext}
    → Reach s
    → (i : ℕ) → get_elem? s.contexts i ≡ some c
    → (m : Memory) × (s.globals.blocks c.block ≡ some m)
      × (m.writer_count ≡ writers c.block s.contexts)
      × (m.reader_count ≡ readers c.block s.contexts)
      × (writers c.block s.contexts ≤ 1)
      × ((g : Globals) × (delete_stream_buff c s.globals ≡ some g))
open_context-Live {s} {c} r i at =
    let v = Reach-Inv r in
    let (m, live) =
      Finds-Live v.behind c.name c.block s.globals.blocks v.linked.live (open-Listed i v at).0 in
    let t = v.tally c.block m live in
    let (g, d, inv) = delete_stream_buff-Inv s i c at v in
    (m, live, t.writer, t.reader, t.single, (g, d))

unlisted :
    (ns : List Node) (g : Globals)
    → HeadOf ns g
    → AllLive g.blocks ns
    → ((a : ℕ) → g.blocks a ≡ none)
    → g.g_memory_head ≡ null
unlisted [] g h l e = h
unlisted (n ∷ ns) g h ((a, p, (m, k)), l) e = ground (arith, k, e a)

-- After any sequence of openings, refusals and closings that leaves no context open, no block is
-- allocated and there is no list. Conditions, for each opening tried: fewer than 255 contexts are open, the name does not read
-- as list_head, and the address from calloc is not in use.
pub no_leak :
    {s : System}
    → Reach s
    → s.contexts ≡ []
    → ((a : ℕ) → s.globals.blocks a ≡ none) × (s.globals.g_memory_head ≡ null)
no_leak {s} r e =
    let v = Reach-Inv r in
    let free : (a : ℕ) → s.globals.blocks a ≡ none = λ a. elim (Option-cases (s.globals.blocks a)) [
      | inl n ↦ n
      | inr (m, l) ↦ ground (arith, v.used a m l, e)
    ] in
    (free, unlisted v.behind s.globals v.linked.head v.linked.live free)

-- CreateMallocMemory of a name that there is.
found-share :
    (ns : List Node) (g : Globals) (calloc : Option ℕ) (k : List ℕ) (size frames a : ℕ)
    (mode : IoMode)
    → HeadOf ns g
    → Finds ns k a
    → strncmp_same name_size list_head k ≡ false
    → create_malloc_memory calloc k size frames mode g ≡ share_block (some a) mode g
unfolding create_malloc_memory list_de
found-share [] g calloc k size frames a mode h (nd, f, p) other = ground arith
found-share (n ∷ ns) g calloc k size frames a mode (head, count) (nd, f, p) other =
    ground (arith, head, other, f, p)

-- While a writer of a name is open, a reader of it is given the writer's block, and a second
-- writer is refused and changes nothing, whatever sequence of calls came before.
beside_writer :
    {s : System} {d : BuffContext}
    → Reach s
    → (i : ℕ) → get_elem? s.contexts i ≡ some d
    → d.mode ≡ io_mode_write
    → (name : List ℕ) → d.name ≡ stored_name name
    → (calloc : Option ℕ) (size frames : ℕ) (rbt : Bool) → 0 < size
    → ((c : BuffContext) × (g : Globals) × (create_stream_buff calloc size name frames io_mode_read
            rbt s.globals
          ≡ some (some c, g))
        × (c.block ≡ d.block))
      × (create_stream_buff calloc size name frames io_mode_write rbt s.globals
          ≡ some (none, s.globals))
unfolding create_stream_buff share_block attach
beside_writer {s} {d} r i at mode name same calloc size frames rbt some_size =
    let v = Reach-Inv r in
    let (found, other) = open-Listed i v at in
    let k = stored_name name in
    let found' : Finds v.behind k d.block = subst (λ x. Finds v.behind x d.block) same found in
    let other' : strncmp_same name_size list_head k ≡ false = rw⁻¹ same other in
    let (m, live) = Finds-Live v.behind d.name d.block s.globals.blocks v.linked.live found in
    let w : 0 < m.writer_count =
      ground
        (arith, (v.tally d.block m live).writer, writers-drop_at d.block i s.contexts d at, mode) in
    let joined_globals : Globals = record s.globals {
      blocks = put_block d.block (some (count_in io_mode_read m)) s.globals.blocks;
    } in
    let share = λ (mode' : IoMode).
      found-share v.behind s.globals calloc k size frames d.block mode' v.linked.head found'
        other' in
    (
      (
        context d.block name io_mode_read rbt,
        joined_globals,
        ground (arith, share io_mode_read, live),
        refl,
      ),
      ground (arith, share io_mode_write, live, w),
    )
