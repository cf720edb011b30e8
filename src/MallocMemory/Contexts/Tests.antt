-- ===== src/MallocMemory/Contexts/Tests.antt =====
-- Runs of the named blocks, and the theorems on them at concrete blocks.
use mgw.Prelude.{ℕ, ◌≤◌, ◌≡◌, refl, true, false, none, some, List, [], ◌∷◌, arith}
use mgw.StreamBuff.{Memory, init_memory_param}
use mgw.MallocMemory.{
  Node, Globals, null, nodes, list_init, list_head, strncmp_same, list_en, list_de, put_block,
  io_mode_read, io_mode_write, add_block, create_malloc_memory, delete_malloc_memory, unlink,
  list_free, free_block, drop_count,
}
use mgw.MallocMemory.Contexts.{
  BuffContext, context, count_in, count_out, attach, create_stream_buff, delete_stream_buff,
}
use mgw.MallocMemory.Contexts.Steps.{System, start, IsRequest, opens, closes, Reach, here, onward}
use mgw.MallocMemory.Contexts.Owners.{writers, readers}
use mgw.MallocMemory.Contexts.Safety.{open_context-Live, no_leak}
use mgw.MallocMemory.Contexts.Faults.{list_head_freed_twice, reader_count_wraps}

-- The name "a".
abbrev name_a : List ℕ
name_a = 97 ∷ []

abbrev writer_a : BuffContext
writer_a = context 7 name_a io_mode_write false

abbrev node_a : Node
node_a = record { pbuff = some 7; name = name_a }

-- A writer of the name has the block at 7.
abbrev written : Globals
written = record {
  g_memory_head = nodes (list_init ∷ node_a ∷ []);
  g_memory_nu = 2;
  blocks =
      put_block 7 (some (count_in io_mode_write (init_memory_param 2 4)))
        (put_block 7 (some (init_memory_param 2 4)) start.globals.blocks);
}

abbrev one_writer : System
one_writer = record { globals = written; contexts = writer_a ∷ [] }

name_a-IsRequest : IsRequest start (some 7) name_a
unfolding strncmp_same
name_a-IsRequest = record { unallocated = λ a e. refl; other = refl; few = omega arith }

open_a :
    create_stream_buff (some 7) 4 name_a 2 io_mode_write false start.globals
    ≡ some (some writer_a, written)
unfolding create_stream_buff create_malloc_memory add_block attach list_en count_in
    init_memory_param
open_a = refl

one_writer-Reach : Reach one_writer
one_writer-Reach =
    onward here (opens (some 7) 4 name_a 2 io_mode_write false name_a-IsRequest open_a)

open_context-Live_example :
    (m : Memory) × (written.blocks 7 ≡ some m)
    × (m.writer_count ≡ writers 7 one_writer.contexts)
    × (m.reader_count ≡ readers 7 one_writer.contexts)
    × (writers 7 one_writer.contexts ≤ 1)
    × ((g : Globals) × (delete_stream_buff writer_a written ≡ some g))
open_context-Live_example = open_context-Live one_writer-Reach 0 refl

-- The writer has closed again.
abbrev closed : System
closed = record {
  globals = record {
    g_memory_head = null;
    g_memory_nu = 0;
    blocks = put_block 7 none (
        put_block 7
          (some (count_out io_mode_write (count_in io_mode_write (init_memory_param 2 4))))
          written.blocks);
  };
  contexts = [];
}

close_a : delete_stream_buff writer_a written ≡ some closed.globals
unfolding delete_stream_buff delete_malloc_memory list_de strncmp_same list_free unlink free_block
    drop_count count_in count_out init_memory_param
close_a = refl

closed-Reach : Reach closed
closed-Reach = onward one_writer-Reach (closes 0 {c = writer_a} refl close_a)

no_leak_example : ((a : ℕ) → closed.globals.blocks a ≡ none) × (closed.globals.g_memory_head ≡ null)
no_leak_example = no_leak closed-Reach refl

list_head_freed_twice_example :
    (c : BuffContext) × (g' : Globals) × (create_stream_buff
        (some 7)
        4
        list_head
        2
        io_mode_write
        false
        start.globals
      ≡ some (some c, g'))
    × (delete_stream_buff c g' ≡ none)
list_head_freed_twice_example =
    list_head_freed_twice start.globals 7 4 2 io_mode_write false refl (omega arith)

-- As many readers as the count can hold.
abbrev crowded : Memory
crowded = let m = init_memory_param 2 4 in record m { writer_count = 1; reader_count = 255 }

abbrev crowd : Globals
crowd = record {
  g_memory_head = nodes (list_init ∷ node_a ∷ []);
  g_memory_nu = 2;
  blocks = put_block 7 (some crowded) start.globals.blocks;
}

found_a : list_de (node_a ∷ []) name_a ≡ some node_a
unfolding list_de strncmp_same
found_a = refl

other_a : strncmp_same 64 list_head name_a ≡ false
unfolding strncmp_same
other_a = refl

reader_count_wraps_example :
    (c : BuffContext) × (g1 : Globals) × (g2 : Globals) × (create_stream_buff none 4 name_a 2
        io_mode_read true crowd
      ≡ some (some c, g1))
    × (c.block ≡ 7)
    × (delete_stream_buff (context 7 name_a io_mode_write true) g1 ≡ some g2)
    × (g2.blocks 7 ≡ none)
reader_count_wraps_example =
    reader_count_wraps crowd (node_a ∷ []) 7 crowded name_a refl (node_a, found_a, refl) other_a
      refl refl refl none 4 2 true (omega arith)
