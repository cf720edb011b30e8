-- ===== src/MallocMemory.antt =====
-- mgw-core/buffer/malloc_memory.c with the named nodes of mgw-core/buffer/list_function.c: the
-- blocks that writers and readers of one name share.
pub mod Contexts
use mgw.Prelude.{
  ℕ, zero, suc, ◌+◌, ◌-◌, Bool, true, false, Option, none, some, List, [], ◌∷◌, ◌++◌, ltb, ◌==◌,
  if◌then◌else◌, take,
}
use mgw.StreamBuff.{Memory, init_memory_param}

-- `SC_node`, less `buflen` and `uid`, which the named lists do not read. A block is its address,
-- and none is NULL. The order of a list of nodes is that of the links.
pub record Node : Type 0 where
  pub pbuff : Option ℕ
  pub name : List ℕ

-- `sizeof(name)`.
abbrev pub name_size : ℕ
name_size = 64

-- What `snprintf` leaves of a string of bytes that are not 0.
abbrev pub stored_name : List ℕ → List ℕ
stored_name name = take 63 name

-- Is `strncmp` 0 on two such strings?
pub strncmp_same : ℕ → List ℕ → List ℕ → Bool
strncmp_same zero a b = true
strncmp_same (suc n) [] [] = true
strncmp_same (suc n) [] (y ∷ ys) = false
strncmp_same (suc n) (x ∷ xs) [] = false
strncmp_same (suc n) (x ∷ xs) (y ∷ ys) =
    let rest = strncmp_same n xs ys in if x == y then rest else false

-- The bytes of "list_head".
abbrev pub list_head : List ℕ
list_head = 108 ∷ 105 ∷ 115 ∷ 116 ∷ 95 ∷ 104 ∷ 101 ∷ 97 ∷ 100 ∷ []

-- `list_init`: the one node that it makes.
abbrev pub list_init : Node
list_init = record { pbuff = none; name = list_head }

-- `list_en`.
pub list_en : List Node → ℕ → List ℕ → List Node
list_en ns pbuff name = ns ++ record { pbuff = some pbuff; name = stored_name name } ∷ []

-- `list_de`: the first node of the name.
pub list_de : List Node → List ℕ → Option Node
unfolding strncmp_same
list_de [] name = none
list_de (nd ∷ ns) name =
    let rest = list_de ns name in if strncmp_same name_size nd.name name then some nd else rest

-- The nodes behind the first one after `list_free`.
pub unlink : List Node → List ℕ → List Node
unfolding strncmp_same
unlink [] name = []
unlink (nd ∷ ns) name =
    let rest = unlink ns name in if strncmp_same name_size nd.name name then ns else nd ∷ rest

-- `g_memory_head`: NULL, the list that it points to, or a node that was freed.
pub data Head : Type 0 where
  null : Head
  nodes : List Node → Head
  freed : Head

-- `list_free`, less its answer, which nobody reads: it frees the first node as well, and cannot
-- change its caller's pointer.
pub list_free : List Node → List ℕ → Head
unfolding unlink strncmp_same
list_free [] name = nodes []
list_free (nd ∷ ns) name =
    if strncmp_same name_size nd.name name then freed else nodes (nd ∷ unlink ns name)

-- The two globals, and the blocks that are allocated, by address. `g_memory_nu` is at least 2
-- while there is a list.
pub record Globals : Type 0 where
  pub g_memory_head : Head
  pub g_memory_nu : ℕ
  pub blocks : ℕ → Option Memory

abbrev pub put_block : ℕ → Option Memory → (ℕ → Option Memory) → ℕ → Option Memory
put_block a o blocks b = if a == b then o else blocks b

-- `io_mode_t`.
pub data IoMode : Type 0 where
  io_mode_read : IoMode
  io_mode_write : IoMode

-- The end of `CreateMallocMemory`, with the list that it adds the block to and its count. `calloc`
-- is the answer to its request for memory.
pub add_block : Option ℕ → List ℕ → ℕ → ℕ → List Node → ℕ → Globals → Option ℕ × Globals
unfolding list_en init_memory_param
add_block none name size frames ns nu g = (none, g)
add_block (some a) name size frames ns nu g = (
  some a,
  record {
    g_memory_head = nodes (list_en ns a name);
    g_memory_nu = nu + 1;
    blocks = put_block a (some (init_memory_param frames size)) g.blocks;
  },
)

-- What `CreateMallocMemory` answers where there is a node of the name: none is an access through
-- NULL or to a block that was freed.
pub share_block : Option ℕ → IoMode → Globals → Option (Option ℕ × Globals)
share_block none io_mode_write g = none
share_block none io_mode_read g = some (none, g)
share_block (some a) io_mode_read g = some (some a, g)
share_block (some a) io_mode_write g = elim (g.blocks a) [
  | none ↦ none
  | some m ↦ some (if ltb 0 m.writer_count then none else some a, g)
]

-- `CreateMallocMemory`. The sum that it requests fits an `unsigned int`.
pub create_malloc_memory :
    Option ℕ → List ℕ → ℕ → ℕ → IoMode → Globals → Option (Option ℕ × Globals)
unfolding add_block share_block list_de
create_malloc_memory calloc name size frames mode g = elim g.g_memory_head [
  | freed ↦ none
  | null ↦ some (add_block calloc name size frames (list_init ∷ []) 1 g)
  | nodes ns ↦ elim (list_de ns name) [
    | none ↦ some (add_block calloc name size frames ns g.g_memory_nu g)
    | some nd ↦ share_block nd.pbuff mode g
  ]
]

-- `free(pbuff)`: none frees a block again.
pub free_block : Option ℕ → Globals → Option Globals
free_block none g = some g
free_block (some a) g = elim (g.blocks a) [
  | none ↦ none
  | some m ↦ some record g { blocks = put_block a none g.blocks }
]

-- The end of `DeleteMallocMemory`: none frees the first node again.
pub drop_count : Globals → Option Globals
drop_count g =
    if g.g_memory_nu - 1 == 1
    then elim g.g_memory_head [
      | freed ↦ none
      | null ↦ some record g { g_memory_nu = 0 }
      | nodes ns ↦ some record g { g_memory_nu = 0; g_memory_head = null }
    ]
    else some record g { g_memory_nu = g.g_memory_nu - 1 }

-- `DeleteMallocMemory`.
pub delete_malloc_memory : List ℕ → Globals → Option Globals
unfolding list_de list_free free_block drop_count
delete_malloc_memory name g = elim g.g_memory_head [
  | null ↦ some g
  | freed ↦ none
  | nodes ns ↦ elim (list_de ns name) [
    | none ↦ drop_count g
    | some nd ↦ elim (free_block nd.pbuff g) [
      | none ↦ none
      | some g' ↦ drop_count (record g' { g_memory_head = list_free ns name })
    ]
  ]
]
