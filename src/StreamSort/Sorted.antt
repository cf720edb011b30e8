-- ===== src/StreamSort/Sorted.antt =====
-- The invariant of the sorter, and that storing a frame keeps it.
use mgw.Prelude.{ℕ, ◌%◌, ◌^◌, ◌≤◌, ◌<◌, ◌≡◌, List, [], ◌∷◌, length, sub32}
use mgw.StreamSort.{Sorter}
use mgw.StreamSort.Order.{Ordered, last_of, times}

-- The earliest and the latest time are those of the first and the last node. Nothing was delivered from a buffer without nodes.
abbrev pub Ends : ℕ → ℕ → ℕ → List ℕ → Type 0
Ends earliest latest popped [] = popped ≡ 0
Ends earliest latest popped (t ∷ ts) = (earliest ≡ t) × (latest ≡ last_of t ts)

-- The nodes are in the order of their times and none is before the last one delivered; the counts agree with
-- their number; the buffer is as large as `pCreateStreamSort` demands, and its numbers are words.
pub record Sorted (s : Sorter) : Type 0 where
  pub order : Ordered s.premintimestamp (times s.phead)
  pub ends : Ends s.mintimestamp s.maxtimestamp s.pop_frame_count (times s.phead)
  pub count : sub32 s.put_frame_count s.pop_frame_count ≡ length (times s.phead) % 2 ^ 32
  pub large : 2 ^ 20 ≤ s.datasize
  pub size_word : s.datasize < 2 ^ 32
  pub position_word : s.position < 2 ^ 32
  pub put_word : s.put_frame_count < 2 ^ 32
  pub pop_word : s.pop_frame_count < 2 ^ 32
