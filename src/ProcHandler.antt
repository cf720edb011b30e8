-- ===== src/ProcHandler.antt =====
-- mgw-core/util/source/callback-handle.c: a table of functions that are called by name.
pub mod Table
mod Tests
use mgw.Prelude.{
  ℕ, zero, suc, ◌+◌, Bool, true, false, ◌||◌, Option, none, some, List, [], ◌∷◌, ◌++◌, ◌==◌, ◌&&◌,
  if◌then◌else◌,
}
use mgw.Prelude.Int.{ℤ, pos, negsuc}

-- `struct call_data`; a function is its address, and 0 is NULL.
pub record CallData : Type 0 where
  pub name : List ℕ
  pub cb_proc_func : ℕ

-- `proc_handler_create`: the functions of a new handler.
abbrev pub proc_handler_create : List CallData
proc_handler_create = []

-- `!strncmp(stored, name, strlen(name))`.
pub begins_with : List ℕ → List ℕ → Bool
begins_with stored [] = true
begins_with [] (c ∷ name) = false
begins_with (b ∷ stored) (c ∷ name) = (b == c) && begins_with stored name

-- The test of both searches.
abbrev pub is_found : List ℕ → ℕ → CallData → Bool
is_found name func d = begins_with d.name name || (d.cb_proc_func == func)

-- `get_proc_data`, on the functions of a handler.
pub get_proc_data : List CallData → List ℕ → ℕ → Option CallData
unfolding begins_with
get_proc_data [] name func = none
get_proc_data (d ∷ procs) name func =
    if is_found name func d then some d else get_proc_data procs name func

-- `get_proc_data_idx`, for the functions from `i` on.
pub get_proc_data_idx : List CallData → List ℕ → ℕ → ℕ → ℤ
unfolding begins_with
get_proc_data_idx [] name func i = negsuc 0
get_proc_data_idx (d ∷ procs) name func i =
    if is_found name func d then pos i else get_proc_data_idx procs name func (i + 1)

-- `da_erase`.
pub erase : List CallData → ℕ → List CallData
erase [] i = []
erase (d ∷ procs) zero = procs
erase (d ∷ procs) (suc i) = d ∷ erase procs i

-- `proc_handler_add`, of a handler and a name that may be NULL.
pub proc_handler_add : Option (List CallData) → Option (List ℕ) → ℕ → Bool × Option (List CallData)
unfolding get_proc_data
proc_handler_add none name func = (false, none)
proc_handler_add (some procs) none func = (false, some procs)
proc_handler_add (some procs) (some name) func =
    let added : Option (List CallData) = elim (get_proc_data procs name func) [
      | none ↦ some (procs ++ record { name = name; cb_proc_func = func } ∷ [])
      | some d ↦ some procs
    ] in
    if func == 0 then (false, some procs) else (true, added)

-- `proc_handler_remove`.
pub proc_handler_remove : Option (List CallData) → Option (List ℕ) → Option (List CallData)
unfolding get_proc_data_idx erase
proc_handler_remove none name = none
proc_handler_remove (some procs) none = some procs
proc_handler_remove (some procs) (some name) = elim (get_proc_data_idx procs name 0 0) [
  | negsuc n ↦ some procs
  | pos i ↦ some (erase procs i)
]

-- `proc_handler_do`: `call` is what the function at an address answers to the parameters.
pub proc_handler_do : (ℕ → ℤ) → Option (List CallData) → Option (List ℕ) → ℤ
unfolding get_proc_data
proc_handler_do call none name = negsuc 0
proc_handler_do call (some procs) none = negsuc 0
proc_handler_do call (some procs) (some name) = elim (get_proc_data procs name 0) [
  | none ↦ negsuc 0
  | some d ↦ call d.cb_proc_func
]
