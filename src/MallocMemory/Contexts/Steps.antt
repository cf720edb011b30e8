-- ===== src/MallocMemory/Contexts/Steps.antt =====
-- The contexts that are open, and what opens and closes them.
use mgw.Prelude.{
  ℕ, zero, suc, ◌<◌, ◌≡◌, Bool, false, Option, none, some, List, [], ◌∷◌, length, get_elem?,
}
use mgw.MallocMemory.{Globals, null, IoMode, name_size, stored_name, strncmp_same, list_head}
use mgw.MallocMemory.Contexts.{BuffContext, create_stream_buff, delete_stream_buff}

pub record System : Type 0 where
  pub globals : Globals
  pub contexts : List BuffContext

-- Before the first call.
abbrev pub start : System
start = record {
  globals = record { g_memory_head = null; g_memory_nu = 0; blocks = λ a. none };
  contexts = [];
}

abbrev pub drop_at : ℕ → List BuffContext → List BuffContext
drop_at i [] = []
drop_at zero (c ∷ cs) = cs
drop_at (suc i) (c ∷ cs) = c ∷ drop_at i cs

-- What a caller asks for. The memory that `calloc` gives is not in use, the name is not that of the
-- first node, and fewer than 255 contexts are open.
pub record IsRequest (s : System) (calloc : Option ℕ) (name : List ℕ) : Type 0 where
  pub unallocated : (a : ℕ) → calloc ≡ some a → s.globals.blocks a ≡ none
  pub other : strncmp_same name_size list_head (stored_name name) ≡ false
  pub few : length s.contexts < 255

pub data Step (s : System) : System → Type 0 where
  opens :
      (calloc : Option ℕ) (size : ℕ) (name : List ℕ) (frames : ℕ) (mode : IoMode)
      (read_bytime : Bool) {c : BuffContext} {g : Globals}
      → IsRequest s calloc name
      → create_stream_buff calloc size name frames mode read_bytime s.globals ≡ some (some c, g)
      → Step s (record { globals = g; contexts = c ∷ s.contexts })
  refused :
      (calloc : Option ℕ) (size : ℕ) (name : List ℕ) (frames : ℕ) (mode : IoMode)
      (read_bytime : Bool) {g : Globals}
      → IsRequest s calloc name
      → create_stream_buff calloc size name frames mode read_bytime s.globals ≡ some (none, g)
      → Step s (record { globals = g; contexts = s.contexts })
  closes :
      (i : ℕ) {c : BuffContext} {g : Globals}
      → get_elem? s.contexts i ≡ some c
      → delete_stream_buff c s.globals ≡ some g
      → Step s (record { globals = g; contexts = drop_at i s.contexts })

pub data Reach : System → Type 0 where
  here : Reach start
  onward : {s t : System} → Reach s → Step s t → Reach t
