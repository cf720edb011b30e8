-- ===== src/StreamSort/Check.antt =====
-- mgw-core/buffer/stream_sort.c: the check of the room before a frame is stored.
pub mod Room
pub mod Analysis
use mgw.Prelude.{
  ℕ, zero, suc, ◌+◌, ◌-◌, ◌*◌, ◌/◌, ◌%◌, ◌^◌, Bool, true, false, ◌&&◌, ◌||◌, not, Option, none,
  some, List, [], ◌∷◌, ◌++◌, length, set, replicate, ltb, leb, ◌==◌, if◌then◌else◌, add32, sub32,
  sub64, write_at, read_at,
}
use mgw.StreamSort.{
  Node, Sorter, default_sort_time, max_sort_buff_len, mim_sort_buff_len, clean_sort_buff,
}

-- `DefaultStreamSortBuff` of memory from `calloc`.
unfoldable pub default_stream_sort_buff : ℕ → ℕ → ℕ → ℕ → Sorter
default_stream_sort_buff now size sort_time max_sort_time = record {
  phead = [];
  frameaddr = [];
  datasize = size;
  pdata = replicate size 0;
  position = 0;
  put_frame_count = 0;
  valid_len = 0;
  sort_time = sort_time;
  sort_time_bak = sort_time;
  max_sort_time = if ltb max_sort_time default_sort_time then default_sort_time else max_sort_time;
  analy_time = 0;
  maxtimestamp = 0;
  mintimestamp = 0;
  premintimestamp = 0;
  pop_frame_count = 0;
  late_frame_count = 0;
  early_frame_count = 0;
  early_frame_drop = 0;
  late_frame_drop = 0;
  freesize = size;
  analytime = now;
}

-- `pCreateStreamSort`, for a callback that is not NULL and memory that is given.
pub create_stream_sort : ℕ → ℕ → ℕ → ℕ → Option Sorter
create_stream_sort now size sort_time max_sort_time =
    if ltb size mim_sort_buff_len
    then none
    else some (default_stream_sort_buff now size sort_time max_sort_time)

-- The bytes of a node, round the end where they go past it.
abbrev pub node_bytes : Sorter → Node → List ℕ
node_bytes s n =
    let left = s.datasize - n.position in
    if ltb s.datasize (n.position + n.len)
    then read_at n.position left s.pdata ++ read_at 0 (n.len - left) s.pdata
    else read_at n.position n.len s.pdata

-- The loop of `RemallocSortBuff` from the `i`-th node on: the new data and addresses, the nodes, and the position.
pub relocate : Sorter → ℕ → ℕ → List Node → List ℕ → List ℕ → (List ℕ × List ℕ) × (List Node × ℕ)
relocate s i position [] pdata addrs = ((pdata, addrs), ([], position))
relocate s i position (n ∷ ns) pdata addrs =
    let rest =
      relocate s (i + 1) (add32 position n.len) ns (write_at position (node_bytes s n) pdata)
        (set addrs (i % length addrs) position) in
    (rest.0, (record n { position = position } ∷ rest.1.0, rest.1.1))

-- What `RemallocSortBuff` moves from `s` into the new buffer. The rest is as `pCreateStreamSort` leaves it.
unfoldable pub move_sort_buff : Sorter → Sorter → ℕ → Sorter
move_sort_buff new s size =
    let moved = relocate s 0 0 s.phead new.pdata s.frameaddr in
    record new {
      phead = moved.1.0;
      frameaddr = moved.0.1;
      pdata = moved.0.0;
      position = moved.1.1;
      put_frame_count = s.put_frame_count;
      valid_len = s.valid_len;
      maxtimestamp = s.maxtimestamp;
      mintimestamp = s.mintimestamp;
      early_frame_count = s.early_frame_count;
      late_frame_count = s.late_frame_count;
      pop_frame_count = s.pop_frame_count;
      analy_time = s.analy_time;
      freesize = sub32 size moved.1.1;
      sort_time_bak = s.sort_time_bak;
    }

-- `RemallocSortBuff`.
pub remalloc_sort_buff : ℕ → Sorter → ℕ → Option Sorter
remalloc_sort_buff now s size = elim (create_stream_sort now size s.sort_time s.max_sort_time) [
  | none ↦ none
  | some new ↦ some (move_sort_buff new s size)
]

-- The new `uiSortTime` of `CheckStreambuff`'s analysis.
pub adjust_sort_time : Sorter → ℕ
adjust_sort_time s =
    let def_time = sub32 s.sort_time s.analy_time in
    let first = if ltb 200000 def_time then sub32 s.sort_time 200000 else s.sort_time in
    let second = if ltb 100000 def_time then sub32 first 100000 else s.analy_time in
    if ltb s.analy_time s.sort_time && ltb 0 s.analy_time
    then if ltb second s.sort_time_bak then s.sort_time_bak else second
    else s.sort_time

-- The analysis, each five minutes.
pub analyse : ℕ → Sorter → Sorter
analyse now s =
    if leb 300 (sub64 now s.analytime)
    then record s { sort_time = adjust_sort_time s; analy_time = 0; analytime = now }
    else s

-- The branch for a buffer that is too big.
pub check_too_big : ℕ → Sorter → Sorter
check_too_big now s =
    let size = s.datasize / 2 in
    if leb 900 (sub64 now s.analytime) && (ltb mim_sort_buff_len size && ltb size s.freesize)
    then elim (remalloc_sort_buff now s size) [ none ↦ s | some new ↦ new ]
    else s

-- The branch for a buffer that is too small; none is the NULL that it stores.
pub check_too_small : ℕ → Sorter → Option Sorter
check_too_small now s =
    if ltb max_sort_buff_len s.datasize
    then some (clean_sort_buff now s)
    else remalloc_sort_buff now s (s.datasize * 3 % 2 ^ 32 / 2)

-- The free size of the last branch.
unfoldable pub note_freesize : ℕ → ℕ → Sorter → Sorter
note_freesize earliest willposi_e s =
    let freesize =
      if ltb earliest willposi_e
      then add32 (sub32 s.datasize willposi_e) earliest
      else if ltb willposi_e earliest
      then earliest - willposi_e
      else s.freesize in
    record s { freesize = if ltb freesize s.freesize then freesize else s.freesize }

-- `CheckStreambuff` with the first address of the ring: the buffer to go on with.
unfoldable pub check_earliest : ℕ → Sorter → ℕ → ℕ → Option Sorter
check_earliest now s frame_len earliest =
    let end = add32 s.position frame_len in
    let ahead = leb s.position earliest && leb earliest end in
    let back = leb s.position earliest || leb earliest frame_len in
    let s1 = analyse now s in
    if leb s.put_frame_count 2
    then some s
    else if leb end s.datasize
    then if ahead then check_too_small now s else some (note_freesize earliest end s)
    else if back
    then check_too_small now s1
    else some (note_freesize earliest frame_len (check_too_big now s1))

-- `CheckStreambuff`.
unfoldable pub check_streambuff : ℕ → Sorter → ℕ → Option Sorter
check_streambuff now s frame_len = elim s.frameaddr [
  | [] ↦ some s
  | earliest ∷ _ ↦ check_earliest now s frame_len earliest
]
