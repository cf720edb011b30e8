-- ===== src/StreamSort.antt =====
-- mgw-core/buffer/stream_sort.c: frames held back for a while and delivered in the order of their times.
pub mod Order
pub mod Check
pub mod Put
pub mod Sorted
mod Tests
use mgw.Prelude.{
  ℕ, ◌+◌, ◌-◌, ◌%◌, ◌^◌, Bool, true, false, Option, none, some, List, [], ◌∷◌, ◌++◌, length, ltb,
  leb, ◌==◌, if◌then◌else◌, add32, sub32, sub64, write_at,
}

-- `SC_ssnode`, its position as the offset from `pdata`. The links are the order of the list of nodes.
pub record Node : Type 0 where
  pub position : ℕ
  pub len : ℕ
  pub timestamp : ℕ
  pub frametype : ℕ
  pub priority : ℕ

-- `sc_sortframe`.
pub record Frame : Type 0 where
  pub frame : List ℕ
  pub timestamp : ℕ
  pub frametype : ℕ
  pub priority : ℕ

-- `SC_ssbuff`, less its names, the magic number and `freetime`, which nothing reads. The ring of addresses is a list from its head.
pub record Sorter : Type 0 where
  pub phead : List Node
  pub frameaddr : List ℕ
  pub datasize : ℕ
  pub pdata : List ℕ
  pub position : ℕ
  pub put_frame_count : ℕ
  pub valid_len : ℕ
  pub sort_time : ℕ
  pub sort_time_bak : ℕ
  pub max_sort_time : ℕ
  pub analy_time : ℕ
  pub maxtimestamp : ℕ
  pub mintimestamp : ℕ
  pub premintimestamp : ℕ
  pub pop_frame_count : ℕ
  pub late_frame_count : ℕ
  pub early_frame_count : ℕ
  pub early_frame_drop : ℕ
  pub late_frame_drop : ℕ
  pub freesize : ℕ
  pub analytime : ℕ

abbrev pub default_sort_time : ℕ
default_sort_time = 1000000

abbrev pub max_sort_buff_len : ℕ
max_sort_buff_len = 8388608

abbrev pub mim_sort_buff_len : ℕ
mim_sort_buff_len = 1048576

-- `InsertSortMiddle`: the time before the new node, and the nodes; `before` is the time of the node that `prev` leads
-- to. It inserts nothing where every node is as early.
pub insert_sort_middle : ℕ → List Node → Node → ℕ × List Node
insert_sort_middle before [] nd = (0, [])
insert_sort_middle before (p ∷ ps) nd =
    let rest = insert_sort_middle p.timestamp ps nd in
    if leb p.timestamp nd.timestamp then (rest.0, p ∷ rest.1) else (before, nd ∷ p ∷ ps)

-- `InsertSortEnd`.
abbrev pub insert_sort_end : List Node → Node → List Node
insert_sort_end head nd = head ++ nd ∷ []

-- `MemcpyToSortBuff`: where it wrote; none is the failed assertion.
pub memcpy_to_sort_buff : Sorter → List ℕ → Option (ℕ × Sorter)
memcpy_to_sort_buff s frame =
    let frame_len = length frame in
    let end = add32 s.position frame_len in
    let ahead = record s {
      pdata = write_at s.position frame s.pdata;
      position = if end == s.datasize then 0 else end;
    } in
    let back = record s { pdata = write_at 0 frame s.pdata; position = frame_len } in
    if leb end s.datasize
    then some (s.position, ahead)
    else if ltb s.position frame_len
    then none
    else some (0, back)

-- `CleanSortBuff` at the time `now`.
pub clean_sort_buff : ℕ → Sorter → Sorter
clean_sort_buff now s = record s {
  phead = [];
  frameaddr = [];
  position = 0;
  valid_len = 0;
  put_frame_count = 0;
  maxtimestamp = 0;
  mintimestamp = 0;
  premintimestamp = 0;
  pop_frame_count = 0;
  late_frame_count = 0;
  early_frame_count = 0;
  analy_time = 0;
  freesize = s.datasize;
  analytime = now;
  sort_time = s.sort_time_bak;
}

-- `CFrameaddrList` of type 2, and of type 1, on a ring of addresses: none is its return of -2. The code takes the ring not to be
-- empty, and leaves a freed head when its only address is removed: such a ring is the empty list here, in which no address is found.
pub remove_frameaddr : ℕ → List ℕ → Option (List ℕ)
remove_frameaddr oposition [] = none
remove_frameaddr oposition (a ∷ rest) =
    let later = remove_frameaddr oposition rest in
    if a == oposition then some rest else elim later [ none ↦ none | some l ↦ some (a ∷ l) ]

pub move_frameaddr : ℕ → ℕ → List ℕ → Option (List ℕ)
move_frameaddr iposition oposition l = elim (remove_frameaddr oposition l) [
  | none ↦ none
  | some rest ↦ some (rest ++ iposition ∷ [])
]

abbrev pub add_frameaddr : ℕ → List ℕ → List ℕ
add_frameaddr iposition l = l ++ iposition ∷ []
