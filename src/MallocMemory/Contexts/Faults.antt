-- ===== src/MallocMemory/Contexts/Faults.antt =====
-- What two inputs at the edge do to the named blocks.
use mgw.Prelude.{
  ℕ, ◌-◌, ◌<◌, ◌≡◌, refl, ap, ◌∙◌, Bool-cases, inl, inr, Bool, true, false, ◌==◌, Option, none,
  some, List, [], ◌∷◌, arith,
}
use mgw.StreamBuff.{Memory, init_memory_param}
use mgw.MallocMemory.{
  Node, Globals, null, nodes, list_init, list_head, name_size, stored_name, strncmp_same, list_en,
  list_de, list_free, unlink, put_block, IoMode, io_mode_read, io_mode_write, add_block,
  share_block, create_malloc_memory, free_block, drop_count, delete_malloc_memory,
}
use mgw.MallocMemory.Contexts.{
  BuffContext, context, count_in, count_out, attach, create_stream_buff, delete_stream_buff,
}
use mgw.MallocMemory.Contexts.Lookup.{Finds, put_block_self}

self : (a : ℕ) → (a == a) ≡ true
self a = ground arith

-- The first block of all, with its first user.
abbrev made : Globals → ℕ → ℕ → ℕ → Globals
made g a size frames = (add_block (some a) list_head size frames (list_init ∷ []) 1 g).1

abbrev counted : Globals → ℕ → ℕ → ℕ → IoMode → Globals
counted g a size frames mode =
    let g' = made g a size frames in
    record g' {
      blocks = put_block a (some (count_in mode (init_memory_param frames size))) g'.blocks;
    }

-- Where there is no list, a buffer with the name of the first node, "list_head", is made, and
-- closing it frees the first node twice. The buffer's size is not 0.
pub list_head_freed_twice :
    (g : Globals) (a size frames : ℕ) (mode : IoMode) (rbt : Bool)
    → g.g_memory_head ≡ null
    → 0 < size
    → (c : BuffContext) × (g' : Globals) × (create_stream_buff
          (some a)
          size
          list_head
          frames
          mode
          rbt
          g
        ≡ some (some c, g'))
      × (delete_stream_buff c g' ≡ none)
unfolding create_stream_buff create_malloc_memory add_block attach count_in count_out list_en
    list_de strncmp_same init_memory_param delete_stream_buff delete_malloc_memory free_block
    list_free drop_count
list_head_freed_twice g a size frames io_mode_read rbt h l = (
  context a list_head io_mode_read rbt,
  counted g a size frames io_mode_read,
  ground (arith, h),
  ground (arith, self a),
)
list_head_freed_twice g a size frames io_mode_write rbt h l = (
  context a list_head io_mode_write rbt,
  counted g a size frames io_mode_write,
  ground (arith, h),
  ground (arith, self a),
)

drop_count-blocks :
    (g : Globals) (ns : List Node)
    → g.g_memory_head ≡ nodes ns
    → (g' : Globals) × (drop_count g ≡ some g') × (g'.blocks ≡ g.blocks)
unfolding drop_count
drop_count-blocks g ns h = elim (Bool-cases (g.g_memory_nu - 1 == 1)) [
  | inl e ↦ (record g { g_memory_nu = 0; g_memory_head = null }, ground (arith, e, h), refl)
  | inr e ↦ (record g { g_memory_nu = g.g_memory_nu - 1 }, ground (arith, e), refl)
]

-- A block with a writer and 255 readers takes one reader more, and when then the writer closes, the
-- block is freed, though all 256 readers have it.
pub reader_count_wraps :
    (g : Globals) (ns : List Node) (a : ℕ) (m : Memory) (name : List ℕ)
    → g.g_memory_head ≡ nodes (list_init ∷ ns)
    → Finds ns (stored_name name) a
    → strncmp_same name_size list_head (stored_name name) ≡ false
    → g.blocks a ≡ some m
    → m.reader_count ≡ 255
    → m.writer_count ≡ 1
    → (calloc : Option ℕ) (size frames : ℕ) (rbt : Bool) → 0 < size
    → (c : BuffContext) × (g1 : Globals) × (g2 : Globals) × (create_stream_buff calloc size name
          frames io_mode_read rbt g
        ≡ some (some c, g1))
      × (c.block ≡ a)
      × (delete_stream_buff (context a name io_mode_write rbt) g1 ≡ some g2)
      × (g2.blocks a ≡ none)
unfolding create_stream_buff create_malloc_memory share_block attach count_in count_out list_de
    delete_stream_buff delete_malloc_memory free_block list_free
reader_count_wraps g ns a m name head (nd, f, p) other live full one calloc size frames rbt l =
    let counted_in = put_block a (some (count_in io_mode_read m)) g.blocks in
    let g1 : Globals = record g { blocks = counted_in } in
    let counted_out =
      put_block a (some (count_out io_mode_write (count_in io_mode_read m))) counted_in in
    let freed_block = put_block a none counted_out in
    let left : Globals = record g {
      g_memory_head = nodes (list_init ∷ unlink ns (stored_name name));
      blocks = freed_block;
    } in
    let (g2, d, b) = drop_count-blocks left _ refl in
    (
      context a name io_mode_read rbt,
      g1,
      g2,
      ground (arith, head, other, f, p, live),
      refl,
      ground (arith, self a, head, other, f, p, full, one, d),
      ap (λ (bs : ℕ → Option Memory). bs a) b ∙ put_block_self a none counted_out,
    )
