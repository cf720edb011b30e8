-- ===== src/StreamBuff/Window.antt =====
-- The last frames put, as the block holds them: the window of numbered frames at addresses that
-- run on round the end of the data.
use mgw.Prelude.{
  ℕ, ◌+◌, ◌%◌, ◌^◌, ◌≤◌, ◌<◌, ◌≡◌, ◌∙◌, sym, ap, true, List, [], ◌∷◌, length, sub32, ring_read,
  arith,
}
use mgw.StreamBuff.{Memory, Frame, Placed, entry, place}
use mgw.StreamBuff.Cover.{Stops}

-- A block whose table and data have the sizes of its head, and whose counts fit an `int`.
pub record IsReady (m : Memory) : Type 0 where
  pub table : length m.frames ≡ m.max_valid_frames
  pub block : length m.bytes ≡ m.datasize
  pub small : m.datasize ≤ 2 ^ 31
  pub some_frames : 2 ≤ m.max_valid_frames
  pub capacity : m.max_valid_frames < 2 ^ 31
  pub count : m.writ_frame_count < 2 ^ 31

-- Frame number `i` stands in the block from the address `v` on.
pub record Holds (m : Memory) (i v : ℕ) (f : Frame) : Type 0 where
  pub some_bytes : 0 < length f.payload
  pub valid : (entry m (i % m.max_valid_frames)).valid ≡ true
  pub position : (entry m (i % m.max_valid_frames)).position ≡ v % m.datasize
  pub len : (entry m (i % m.max_valid_frames)).len ≡ length f.payload
  pub timestamp : (entry m (i % m.max_valid_frames)).timestamp ≡ f.timestamp
  pub frametype : (entry m (i % m.max_valid_frames)).frametype ≡ f.frametype
  pub priority : (entry m (i % m.max_valid_frames)).priority ≡ f.priority
  pub bytes : ring_read m.bytes m.datasize v (length f.payload) ≡ f.payload

-- The frames from number `i` up to the last one put, one behind the other from address `v` on.
abbrev pub Window : Memory → ℕ → ℕ → List Frame → Type 0
Window m i v [] =
    (i ≡ m.writ_frame_count) × ((entry m (i % m.max_valid_frames)).position ≡ v % m.datasize)
Window m i v (f ∷ fs) = Holds m i v f × Window m (i + 1) (v + length f.payload) fs

abbrev pub total : List Frame → ℕ
total [] = 0
total (f ∷ fs) = length f.payload + total fs

abbrev pub slot : Memory → ℕ
slot m = m.writ_frame_count % m.max_valid_frames

abbrev pub next_slot : Memory → ℕ
next_slot m = (slot m + 1) % m.max_valid_frames

abbrev pub placed : Memory → Frame → Placed
placed m f = place m.datasize (entry m (slot m)).position f.payload m.bytes

-- The walk of CheckBuffDataCover behind the slot of `f` ends in the table: at an entry that `f`
-- does not cover, or because there are rounds for no more entries.
abbrev pub StopsInTable : Memory → Frame → Type 0
StopsInTable m f =
    Stops (entry m (slot m)).position (placed m f).pos_e (sub32 m.max_valid_frames 2) (next_slot m)
      m

pub Window-count :
    (m : Memory) (fs : List Frame) (i u : ℕ) → Window m i u fs → i + length fs ≡ m.writ_frame_count
Window-count m [] i u (e, p) = omega arith
Window-count m (f ∷ fs) i u (h, win) =
    omega (arith, Window-count m fs (i + 1) (u + length f.payload) win)

-- The next frame's position is set to the address behind the window.
pub Window-position :
    (m : Memory) (fs : List Frame) (i u v : ℕ)
    → Window m i u fs
    → v ≡ u + total fs
    → (entry m (slot m)).position ≡ v % m.datasize
Window-position m [] i u v (e, p) h =
    ap (λ t. (entry m (t % m.max_valid_frames)).position) (sym e)
    ∙ p
    ∙ ap (λ t. t % m.datasize) (omega arith)
Window-position m (f ∷ fs) i u v (h, win) e =
    Window-position m fs (i + 1) (u + length f.payload) v win (omega arith)
