-- ===== src/MallocMemory/Contexts/Invariant.antt =====
-- The invariant of the named blocks, and that opening and closing a context keep it and never
-- fail.
pub mod Open
pub mod Create
pub mod Whole
pub mod Close
use mgw.Prelude.{ℕ, Option, ◌+◌, ◌≤◌, ◌<◌, ◌≡◌, false, some, List, [], ◌∷◌, length}
use mgw.StreamBuff.{Memory}
use mgw.MallocMemory.{Node, Globals, null, nodes, list_init, list_head, name_size, strncmp_same}
use mgw.MallocMemory.Contexts.{BuffContext}
use mgw.MallocMemory.Contexts.Steps.{System}
use mgw.MallocMemory.Contexts.Lookup.{AllLive, Distinct, Finds}
use mgw.MallocMemory.Contexts.Owners.{writers, readers, AllOf}

-- There is a list while it has a node behind the first one.
abbrev pub HeadOf : List Node → Globals → Type 0
HeadOf [] g = g.g_memory_head ≡ null
HeadOf (n ∷ ns) g = (g.g_memory_head ≡ nodes (list_init ∷ n ∷ ns)) × (g.g_memory_nu ≡ length ns + 2)

-- The name of a context leads to its block, and not to the first node.
abbrev pub Listed : List Node → BuffContext → Type 0
Listed ns c = Finds ns c.name c.block × (strncmp_same name_size list_head c.name ≡ false)

-- The nodes behind the first one.
pub record Linked (g : Globals) (ns : List Node) (cs : List BuffContext) : Type 0 where
  pub head : HeadOf ns g
  pub distinct : Distinct ns
  pub live : AllLive g.blocks ns
  pub listed : AllOf (Listed ns) cs

-- The counts of a block are the numbers of its users; one of them at most is a writer.
pub record Tally (cs : List BuffContext) (a : ℕ) (m : Memory) : Type 0 where
  pub writer : m.writer_count ≡ writers a cs
  pub reader : m.reader_count ≡ readers a cs
  pub single : writers a cs ≤ 1

pub record Inv (s : System) : Type 0 where
  pub behind : List Node
  pub linked : Linked s.globals behind s.contexts
  pub tally : (a : ℕ) (m : Memory) → s.globals.blocks a ≡ some m → Tally s.contexts a m
  pub used :
      (a : ℕ) (m : Memory)
      → s.globals.blocks a ≡ some m
      → 0 < writers a s.contexts + readers a s.contexts
  pub few : length s.contexts ≤ 255

-- Blocks do not matter to the head.
pub HeadOf-blocks :
    (ns : List Node) (g : Globals) (bs : ℕ → Option Memory)
    → HeadOf ns g
    → HeadOf ns (record g { blocks = bs })
HeadOf-blocks [] g bs h = h
HeadOf-blocks (n ∷ ns) g bs h = h
