-- ===== src/ProcHandler/Tests.antt =====
-- A handler of two functions, whose names begin alike.
use mgw.Prelude.{ℕ, ◌≡◌, refl, true, false, some, List, [], ◌∷◌, arith}
use mgw.Prelude.Int.{ℤ, pos, negsuc}
use mgw.ProcHandler.{
  CallData, begins_with, get_proc_data, proc_handler_create, proc_handler_add, proc_handler_remove,
  proc_handler_do,
}
use mgw.ProcHandler.Table.{
  has_null, NoneBegins, proc_handler_add-proc_handler_do, proc_handler_add_shadowed,
}

-- "stop" and "start".
abbrev stop : List ℕ
stop = 115 ∷ 116 ∷ 111 ∷ 112 ∷ []

abbrev start : List ℕ
start = 115 ∷ 116 ∷ 97 ∷ 114 ∷ 116 ∷ []

abbrev stop_data : CallData
stop_data = record { name = stop; cb_proc_func = 4096 }

-- Each function answers its address.
abbrev answers : ℕ → ℤ
answers func = pos func

first_add :
    proc_handler_add (some proc_handler_create) (some stop) 4096 ≡ (true, some (stop_data ∷ []))
unfolding proc_handler_add get_proc_data
first_add = refl

unknown_name : proc_handler_do answers (some (stop_data ∷ [])) (some start) ≡ negsuc 0
unfolding proc_handler_do get_proc_data begins_with
unknown_name = refl

proc_handler_add-proc_handler_do_example :
    (procs' : List CallData) × (proc_handler_add (some (stop_data ∷ [])) (some start) 8192
      ≡ (true, some procs'))
    × (has_null procs' ≡ false)
    × (proc_handler_do answers (some procs') (some start) ≡ pos 8192)
    × ((other : List ℕ)
        → begins_with start other ≡ false
        → proc_handler_do answers (some procs') (some other)
          ≡ proc_handler_do answers (some (stop_data ∷ [])) (some other))
    × (proc_handler_remove (some procs') (some start) ≡ some (stop_data ∷ []))
unfolding has_null get_proc_data begins_with
proc_handler_add-proc_handler_do_example =
    proc_handler_add-proc_handler_do answers (stop_data ∷ []) start 8192 refl
      (λ e. omega (arith, e)) refl

abbrev start_data : CallData
start_data = record { name = start; cb_proc_func = 8192 }

-- "sta", with "stop" before "start".
proc_handler_add_shadowed_example :
    (proc_handler_add (some (stop_data ∷ start_data ∷ [])) (some (115 ∷ 116 ∷ 97 ∷ [])) 12288
      ≡ (true, some (stop_data ∷ start_data ∷ [])))
    × (proc_handler_do answers (some (stop_data ∷ start_data ∷ [])) (some (115 ∷ 116 ∷ 97 ∷ []))
        ≡ pos 8192)
unfolding begins_with has_null NoneBegins
proc_handler_add_shadowed_example =
    proc_handler_add_shadowed answers (stop_data ∷ []) [] start_data (115 ∷ 116 ∷ 97 ∷ []) 12288
      (λ e. omega (arith, e)) refl (refl, tt) refl
