-- ===== src/MallocMemory/Contexts.antt =====
-- mgw-core/buffer/stream_buff.c, CreateStreamBuff and DeleteStreamBuff on memory of the process
-- (`type` not 0): the contexts through which writers and readers use a block.
pub mod Steps
pub mod Lookup
pub mod Unlink
pub mod Owners
pub mod Invariant
pub mod Safety
pub mod Faults
mod Tests
use mgw.Prelude.{
  ℕ, ◌+◌, ◌%◌, Bool, true, false, ◌&&◌, Option, none, some, List, ltb, ◌==◌, if◌then◌else◌,
}
use mgw.StreamBuff.{Memory, MemReader}
use mgw.MallocMemory.{
  Globals, IoMode, io_mode_read, io_mode_write, put_block, stored_name, create_malloc_memory,
  delete_malloc_memory,
}

-- `BuffContext`: the block at `position`, and `pReadpara` of a reader.
pub record BuffContext : Type 0 where
  pub block : ℕ
  pub name : List ℕ
  pub mode : IoMode
  pub reader : Option MemReader

abbrev new_reader : Bool → MemReader
new_reader read_bytime = record { rd_frame_count = 0; re_iframe = true; read_by_time = read_bytime }

-- The counts are `unsigned char`.
abbrev pub inc8 : ℕ → ℕ
inc8 n = (n + 1) % 256

abbrev pub dec8 : ℕ → ℕ
dec8 n = (n + 255) % 256

-- A user more in the counts of a block, or one fewer.
pub count_in : IoMode → Memory → Memory
count_in io_mode_read m = record m { reader_count = inc8 m.reader_count }
count_in io_mode_write m = record m { writer_count = inc8 m.writer_count }

pub count_out : IoMode → Memory → Memory
count_out io_mode_read m = record m { reader_count = dec8 m.reader_count }
count_out io_mode_write m = record m { writer_count = dec8 m.writer_count }

abbrev pub context : ℕ → List ℕ → IoMode → Bool → BuffContext
context a name mode read_bytime = record {
  block = a;
  name = stored_name name;
  mode = mode;
  reader = elim mode [ io_mode_read ↦ some (new_reader read_bytime) | io_mode_write ↦ none ];
}

-- The second half of `CreateStreamBuff`, on the block `m` at `a`.
pub attach : ℕ → Memory → List ℕ → IoMode → Bool → Globals → Option BuffContext × Globals
unfolding count_in
attach a m name mode read_bytime g =
    let joined : Option BuffContext × Globals = (
      some (context a name mode read_bytime),
      record g { blocks = put_block a (some (count_in mode m)) g.blocks },
    ) in
    elim mode [
      | io_mode_read ↦ joined
      | io_mode_write ↦ if ltb 0 m.writer_count then (none, g) else joined
    ]

-- `CreateStreamBuff`: none is an access to memory that is not allocated.
pub create_stream_buff :
    Option ℕ → ℕ → List ℕ → ℕ → IoMode → Bool → Globals → Option (Option BuffContext × Globals)
unfolding create_malloc_memory attach
create_stream_buff calloc size name frames mode read_bytime g =
    if size == 0
    then some (none, g)
    else elim (create_malloc_memory calloc (stored_name name) size frames mode g) [
      | none ↦ none
      | some (none, g') ↦ some (none, g')
      | some (some a, g') ↦ elim (g'.blocks a) [
        | none ↦ none
        | some m ↦ some (attach a m name mode read_bytime g')
      ]
    ]

abbrev pub unused : Memory → Bool
unused m = (m.reader_count == 0) && (m.writer_count == 0)

-- `DeleteStreamBuff`, its answer left out, which is 0.
pub delete_stream_buff : BuffContext → Globals → Option Globals
unfolding count_out delete_malloc_memory
delete_stream_buff c g = elim (g.blocks c.block) [
  | none ↦ none
  | some m ↦
      let g' = record g { blocks = put_block c.block (some (count_out c.mode m)) g.blocks } in
      if unused (count_out c.mode m) then delete_malloc_memory c.name g' else some g'
]
