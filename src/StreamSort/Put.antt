-- ===== src/StreamSort/Put.antt =====
-- mgw-core/buffer/stream_sort.c: a frame is stored, and the frames that are due are delivered. Memory for a node is always given.
pub mod Kept
pub mod Front
pub mod Pop
pub mod Last
pub mod Whole
pub mod Forgets
pub mod Samples
use mgw.Prelude.{
  ℕ, zero, suc, ◌+◌, ◌-◌, ◌*◌, ◌/◌, ◌%◌, ◌^◌, Bool, true, false, ◌&&◌, ◌||◌, not, Option, none,
  some, List, [], ◌∷◌, ◌++◌, length, ltb, leb, ◌==◌, if◌then◌else◌, add32, sub32, sub64, read_at,
}
use mgw.Prelude.Int.{ℤ, pos, negsuc}
use mgw.StreamSort.{
  Node, Frame, Sorter, clean_sort_buff, insert_sort_middle, insert_sort_end, memcpy_to_sort_buff,
  remove_frameaddr, move_frameaddr, add_frameaddr,
}
use mgw.StreamSort.Check.{check_streambuff}

-- What a call returns, the frames that it gave to the callback, and the buffer.
pub record Outcome : Type 0 where
  pub code : ℤ
  pub delivered : List Frame
  pub buff : Sorter

abbrev pub returns : ℤ → Sorter → Outcome
returns c s = record { code = c; delivered = []; buff = s }

-- `FillTheNode`.
abbrev pub fill_the_node : ℕ → Frame → Node
fill_the_node position f = record {
  position = position;
  len = length f.frame;
  timestamp = f.timestamp;
  frametype = f.frametype;
  priority = f.priority;
}

-- The frame that the callback gets: what its node's place in the data holds at the time.
abbrev pub oframe : Sorter → Node → Frame
oframe s nd = record {
  frame = read_at nd.position nd.len s.pdata;
  timestamp = nd.timestamp;
  frametype = nd.frametype;
  priority = nd.priority;
}

-- `if(!ssbuf->phead)`: the first frame.
pub put_first : Sorter → Frame → Option Outcome
put_first s f = elim (memcpy_to_sort_buff s f.frame) [
  | none ↦ none
  | some (_, s1) ↦ some (
      returns (pos 0) (record s1 {
        put_frame_count = 1;
        valid_len = length f.frame;
        maxtimestamp = f.timestamp;
        mintimestamp = f.timestamp;
        premintimestamp = f.timestamp;
        phead = fill_the_node 0 f ∷ [];
        frameaddr = add_frameaddr 0 s1.frameaddr;
      }))
]

-- The longer delay after a frame from before `mintimestamp`.
pub delay_increase : ℕ → Sorter → ℕ → Sorter
delay_increase now s timestamp =
    let timedef = sub64 s.mintimestamp timestamp % 2 ^ 32 in
    let step = if ltb 60000 timedef then 20000 else timedef in
    if ltb timestamp s.mintimestamp && ltb (add32 s.sort_time timedef) s.max_sort_time
    then record s { sort_time = add32 s.sort_time step; analytime = now; analy_time = 0 }
    else s

-- A frame too far behind the latest one.
pub drop_late : ℕ → Sorter → Sorter
drop_late now s =
    let s1 = record s {
      late_frame_count = add32 s.late_frame_count 1;
      late_frame_drop = add32 s.late_frame_drop 1;
    } in
    if ltb 60 s1.late_frame_drop then clean_sort_buff now s1 else s1

-- A frame from before the last one delivered.
pub drop_reversed : ℕ → Sorter → ℕ → Sorter
drop_reversed now s timestamp =
    delay_increase now
      (record s {
        late_frame_count = add32 s.late_frame_count 1;
        late_frame_drop = add32 s.late_frame_drop 1;
      })
      timestamp

-- The place of a stored frame among the nodes that wait, before the first or between two.
pub insert_waiting : ℕ → Sorter → Node → Sorter
insert_waiting now s nd =
    let s1 = delay_increase now s nd.timestamp in
    let middle = insert_sort_middle 0 s.phead nd in
    let timedef = sub64 s.maxtimestamp middle.0 % 2 ^ 32 in
    let front = record s1 { phead = nd ∷ s1.phead; mintimestamp = nd.timestamp } in
    let between = record s {
      phead = middle.1;
      analy_time =
          if not (middle.0 == 0) && ltb s.analy_time timedef then timedef else s.analy_time;
    } in
    if ltb nd.timestamp s.mintimestamp then front else between

-- The branch for a frame before the latest one.
pub put_middle : ℕ → Sorter → Frame → Option Outcome
put_middle now s f =
    let s1 = record s { late_frame_drop = 0 } in
    if ltb s.max_sort_time (sub64 s.maxtimestamp f.timestamp % 2 ^ 32)
    then some (returns (negsuc 0) (drop_late now s))
    else if ltb f.timestamp s.premintimestamp
    then some (returns (negsuc 0) (drop_reversed now s1 f.timestamp))
    else elim (memcpy_to_sort_buff s1 f.frame) [
      | none ↦ none
      | some (position, s2) ↦
          let s3 = record s2 {
            frameaddr = add_frameaddr position s2.frameaddr;
            valid_len = add32 s2.valid_len (length f.frame);
            put_frame_count = add32 s2.put_frame_count 1;
          } in
          some (returns (pos 0) (insert_waiting now s3 (fill_the_node position f)))
    ]

-- The buffer without its first node, which was delivered; none is the read of `phead->timestamp` with no node left.
pub drop_head : Sorter → Node → List Node → Option Sorter
drop_head s nd rest = elim rest [
  | [] ↦ none
  | next ∷ more ↦ some record s {
    valid_len = sub32 s.valid_len nd.len;
    phead = next ∷ more;
    pop_frame_count = add32 s.pop_frame_count 1;
    mintimestamp = next.timestamp;
  }
]

abbrev pub is_negative : ℤ → Bool
is_negative (pos n) = false
is_negative (negsuc n) = true

module _ (datacallback : Frame → ℤ) where
  -- `PopFrameStreamSort`, by the rounds left.
  pub pop_frame_stream_sort : ℕ → Sorter → List Frame → Option Outcome
  pop_frame_stream_sort zero s out = some (record { code = pos 0; delivered = out; buff = s })
  pop_frame_stream_sort (suc rounds) s out =
      let stop = some (record { code = pos 0; delivered = out; buff = s }) in
      if leb (sub32 s.put_frame_count s.pop_frame_count) 3
      then stop
      else if leb (sub64 s.maxtimestamp s.mintimestamp % 2 ^ 32) s.sort_time
      then stop
      else elim s.phead [
        | [] ↦ none
        | nd ∷ rest ↦ elim (remove_frameaddr nd.position s.frameaddr) [
          | none ↦ stop
          | some addrs ↦
              let s1 = record s { frameaddr = addrs; premintimestamp = nd.timestamp } in
              let out1 = out ++ oframe s1 nd ∷ [] in
              elim (is_negative (datacallback (oframe s1 nd))) [
                | true ↦
                    some
                      (record { code = datacallback (oframe s1 nd); delivered = out1; buff = s1 })
                | false ↦ elim (drop_head s1 nd rest) [
                  | none ↦ none
                  | some s2 ↦ pop_frame_stream_sort rounds s2 out1
                ]
              ]
        ]
      ]

  -- A frame stored at `position` behind all others.
  abbrev pub append_frame : Sorter → ℕ → Frame → Sorter
  append_frame s position f = record s {
    valid_len = add32 s.valid_len (length f.frame);
    phead = insert_sort_end s.phead (fill_the_node position f);
    put_frame_count = add32 s.put_frame_count 1;
    maxtimestamp = f.timestamp;
  }

  -- A frame stored at `position` while the first node is due: the node is delivered, whatever the callback answers.
  pub put_due : Sorter → ℕ → Frame → Node → List Node → Option Outcome
  put_due s position f nd rest = elim (move_frameaddr position nd.position s.frameaddr) [
    | none ↦ some (returns (negsuc 0) s)
    | some addrs ↦
        let s1 = record s { frameaddr = addrs; premintimestamp = nd.timestamp } in
        elim (drop_head s1 nd rest) [
          | none ↦ none
          | some s2 ↦ pop_frame_stream_sort 2 (append_frame s2 position f) (oframe s1 nd ∷ [])
        ]
  ]

  -- A frame stored at `position` that is not before the latest one, with the nodes `nd` and `rest`.
  pub put_stored : Sorter → ℕ → Frame → Node → List Node → Option Outcome
  put_stored s position f nd rest =
      let due =
        ltb s.sort_time (sub64 f.timestamp s.mintimestamp % 2 ^ 32) && ltb 0 (length rest) in
      let added = record s { frameaddr = add_frameaddr position s.frameaddr } in
      if due
      then put_due s position f nd rest
      else some (returns (pos 0) (append_frame added position f))

  -- The branch for such a frame.
  pub put_end : ℕ → Sorter → Frame → Node → List Node → Option Outcome
  put_end now s f nd rest =
      let ahead = sub64 f.timestamp s.maxtimestamp % 2 ^ 32 in
      let early = leb s.max_sort_time ahead in
      let s1 = record s {
        early_frame_count = if early then add32 s.early_frame_count 1 else s.early_frame_count;
        early_frame_drop = if early then add32 s.early_frame_drop 1 else 0;
      } in
      if early && (ltb 60 s1.early_frame_drop || ltb 10000000 ahead)
      then some (returns (negsuc 0) (record (clean_sort_buff now s1) { early_frame_drop = 0 }))
      else elim (memcpy_to_sort_buff s1 f.frame) [
        | none ↦ none
        | some (position, s2) ↦ put_stored s2 position f nd rest
      ]

  -- `PutFrameStreamSort` of a buffer that has passed `CheckStreambuff`.
  pub put_checked : ℕ → Sorter → Frame → Option Outcome
  put_checked now s f = elim s.phead [
    | [] ↦ put_first s f
    | nd ∷ rest ↦
        if ltb f.timestamp s.maxtimestamp then put_middle now s f else put_end now s f nd rest
  ]

  -- `PutFrameStreamSort`.
  pub put_frame_stream_sort : ℕ → Sorter → Frame → Option Outcome
  put_frame_stream_sort now s f =
      if leb (s.datasize / 2) (length f.frame)
      then some (returns (negsuc 0) s)
      else elim (check_streambuff now s (length f.frame)) [
        | none ↦ none
        | some s1 ↦ put_checked now s1 f
      ]
