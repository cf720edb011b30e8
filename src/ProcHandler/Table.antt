-- ===== src/ProcHandler/Table.antt =====
-- What a handler promises: a partial map from names to functions.
use mgw.Prelude.{
  ℕ, suc, ◌+◌, ◌≡◌, ◌≢◌, ◌∙◌, refl, ap, Bool, true, false, ◌||◌, Option, none, some, List, [], ◌∷◌,
  ◌++◌, ◌==◌, if◌then◌else◌, Bool-cases, inl, inr, arith,
}
use mgw.Prelude.Int.{ℤ, pos}
use mgw.ProcHandler.{
  CallData, begins_with, is_found, get_proc_data, get_proc_data_idx, erase, proc_handler_add,
  proc_handler_remove, proc_handler_do,
}

begins_with_self : (name : List ℕ) → begins_with name name ≡ true
unfolding begins_with
begins_with_self [] = refl
begins_with_self (c ∷ name) = ground (arith, begins_with_self name)

-- A function behind those of a handler is found where none of them is.
get_proc_data-append :
    (procs : List CallData) (d : CallData) (name : List ℕ) (func : ℕ)
    → get_proc_data (procs ++ d ∷ []) name func
      ≡ elim (get_proc_data procs name func) as (λ k. Option CallData) [
        | some e ↦ some e
        | none ↦ if is_found name func d then some d else none
      ]
unfolding get_proc_data
get_proc_data-append [] d name func = refl
get_proc_data-append (e ∷ procs) d name func = elim (Bool-cases (is_found name func e)) [
  | inl t ↦ rw t refl
  | inr t ↦ rw t (get_proc_data-append procs d name func)
]

-- Whether a function of the handler is NULL.
unfoldable pub has_null : List CallData → Bool
has_null [] = false
has_null (d ∷ procs) = (d.cb_proc_func == 0) || has_null procs

-- A name that was not found with some function is not found alone.
get_proc_data_null :
    (procs : List CallData) (name : List ℕ) (func : ℕ)
    → has_null procs ≡ false
    → get_proc_data procs name func ≡ none
    → get_proc_data procs name 0 ≡ none
unfolding get_proc_data has_null
get_proc_data_null [] name func h e = refl
get_proc_data_null (d ∷ procs) name func h e = elim (Bool-cases (is_found name func d)) [
  | inl t ↦ absurd (ground (arith, t, e))
  | inr t ↦
      let no : is_found name 0 d ≡ false = ground (arith, t, h) in
      let rest : get_proc_data procs name func ≡ none = ground (arith, t, e) in
      let null : has_null procs ≡ false = ground (arith, h) in
      rw no (get_proc_data_null procs name func null rest)
]

-- The place of a function that is found behind all others.
get_proc_data_idx-append :
    (procs : List CallData) (d : CallData) (name : List ℕ) (i : ℕ)
    → get_proc_data procs name 0 ≡ none
    → is_found name 0 d ≡ true
    → (k : ℕ) × (get_proc_data_idx (procs ++ d ∷ []) name 0 i ≡ pos (i + k))
      × (erase (procs ++ d ∷ []) k ≡ procs)
unfolding get_proc_data get_proc_data_idx erase
get_proc_data_idx-append [] d name i e t = (0, rw t (ap pos (omega arith)), refl)
get_proc_data_idx-append (f ∷ procs) d name i e t = elim (Bool-cases (is_found name 0 f)) [
  | inl g ↦ absurd (ground (arith, g, e))
  | inr g ↦
      let rest : get_proc_data procs name 0 ≡ none = ground (arith, g, e) in
      let (k, at, gone) = get_proc_data_idx-append procs d name (i + 1) rest t in
      (suc k, rw g (at ∙ ap pos (omega arith)), ap (λ x. f ∷ x) gone)
]

has_null-append :
    (procs : List CallData) (d : CallData)
    → has_null procs ≡ false
    → (d.cb_proc_func == 0) ≡ false
    → has_null (procs ++ d ∷ []) ≡ false
unfolding has_null
has_null-append [] d h e = ground (arith, e)
has_null-append (f ∷ procs) d h e =
    let null : has_null procs ≡ false = ground (arith, h) in
    ground (arith, h, has_null-append procs d null e)

-- What a name finds that the function behind the others does not answer to.
get_proc_data_kept :
    (procs : List CallData) (d : CallData) (other : List ℕ) (func : ℕ)
    → is_found other func d ≡ false
    → get_proc_data (procs ++ d ∷ []) other func ≡ get_proc_data procs other func
unfolding get_proc_data
get_proc_data_kept [] d other func miss = rw miss refl
get_proc_data_kept (e ∷ procs) d other func miss = elim (Bool-cases (is_found other func e)) [
  | inl t ↦ rw t refl
  | inr t ↦ rw t (get_proc_data_kept procs d other func miss)
]

-- The answer, from what the search finds.
proc_handler_do-found :
    (call : ℕ → ℤ) (procs : List CallData) (name : List ℕ) (d : CallData)
    → get_proc_data procs name 0 ≡ some d
    → proc_handler_do call (some procs) (some name) ≡ call d.cb_proc_func
unfolding proc_handler_do
proc_handler_do-found call procs name d e = rw (proc_handler_do, e) refl

-- A handler without NULL functions in which the search finds neither the name nor the function: adding it
-- succeeds and again leaves no NULL function. The name then calls this function, every name that it does not
-- begin with calls what it called before, and removing the name gives the old handler back.
pub proc_handler_add-proc_handler_do :
    (call : ℕ → ℤ) (procs : List CallData) (name : List ℕ) (func : ℕ)
    → has_null procs ≡ false
    → func ≢ 0
    → get_proc_data procs name func ≡ none
    → (procs' : List CallData) × (proc_handler_add (some procs) (some name) func
        ≡ (true, some procs'))
      × (has_null procs' ≡ false)
      × (proc_handler_do call (some procs') (some name) ≡ call func)
      × ((other : List ℕ)
          → begins_with name other ≡ false
          → proc_handler_do call (some procs') (some other)
            ≡ proc_handler_do call (some procs) (some other))
      × (proc_handler_remove (some procs') (some name) ≡ some procs)
unfolding proc_handler_add proc_handler_do proc_handler_remove
proc_handler_add-proc_handler_do call procs name func h nonnull e =
    let d : CallData = record { name = name; cb_proc_func = func } in
    let no : (func == 0) ≡ false = ground (arith, nonnull) in
    let alone = get_proc_data_null procs name func h e in
    let self : is_found name 0 d ≡ true = ground (arith, begins_with_self name) in
    let (k, at, gone) = get_proc_data_idx-append procs d name 0 alone self in
    let at' : get_proc_data_idx (procs ++ d ∷ []) name 0 0 ≡ pos k = at ∙ ap pos (omega arith) in
    let first : get_proc_data (procs ++ d ∷ []) name 0 ≡ some d =
      get_proc_data-append procs d name 0 ∙ rw (alone, self) refl in
    (
      procs ++ d ∷ [],
      rw (no, e) refl,
      has_null-append procs d h no,
      proc_handler_do-found call (procs ++ d ∷ []) name d first,
      (λ other f.
          let miss : is_found other 0 d ≡ false = ground (arith, f, no) in
          rw (proc_handler_do, get_proc_data_kept procs d other 0 miss) refl),
      rw (proc_handler_remove, at') (ap some gone),
    )

-- No name of the functions begins with this one.
unfoldable pub NoneBegins : List ℕ → List CallData → Type 0
NoneBegins name [] = Unit
NoneBegins name (d ∷ procs) = (begins_with d.name name ≡ false) × NoneBegins name procs

first_begins :
    (front back : List CallData) (older : CallData) (name : List ℕ)
    → has_null front ≡ false
    → NoneBegins name front
    → begins_with older.name name ≡ true
    → get_proc_data (front ++ older ∷ back) name 0 ≡ some older
unfolding get_proc_data has_null NoneBegins
first_begins [] back older name h none_begins begins = rw begins refl
first_begins (d ∷ front) back older name h (other, none_begins) begins =
    let miss : is_found name 0 d ≡ false = ground (arith, h, other) in
    let null : has_null front ≡ false = ground (arith, h) in
    rw miss (first_begins front back older name null none_begins begins)

-- A search for a function too ends at that one, or before it at the function.
some_begins :
    (front back : List CallData) (older : CallData) (name : List ℕ) (func : ℕ)
    → begins_with older.name name ≡ true
    → (d : CallData) × (get_proc_data (front ++ older ∷ back) name func ≡ some d)
unfolding get_proc_data
some_begins [] back older name func begins = (older, rw begins refl)
some_begins (e ∷ front) back older name func begins = elim (Bool-cases (is_found name func e)) [
  | inl t ↦ (e, rw t refl)
  | inr t ↦ let (d, found) = some_begins front back older name func begins in (d, rw t found)
]

-- A name with which one in the table begins, wherever that stands: adding it with a function that is not NULL answers true, but the handler is
-- as it was, and the name calls the function of the first one that begins with it. No function before that one is NULL.
pub proc_handler_add_shadowed :
    (call : ℕ → ℤ) (front back : List CallData) (older : CallData) (name : List ℕ) (func : ℕ)
    → func ≢ 0
    → has_null front ≡ false
    → NoneBegins name front
    → begins_with older.name name ≡ true
    → (proc_handler_add (some (front ++ older ∷ back)) (some name) func
        ≡ (true, some (front ++ older ∷ back)))
      × (proc_handler_do call (some (front ++ older ∷ back)) (some name) ≡ call older.cb_proc_func)
unfolding proc_handler_add
proc_handler_add_shadowed call front back older name func nonnull h none_begins begins =
    let no : (func == 0) ≡ false = ground (arith, nonnull) in
    let (d, found) = some_begins front back older name func begins in
    (
      rw (no, found) refl,
      proc_handler_do-found call (front ++ older ∷ back) name older
          (first_begins front back older name h none_begins begins),
    )
