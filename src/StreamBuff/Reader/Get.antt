-- ===== src/StreamBuff/Reader/Get.antt =====
-- GetOneFrameFromBuff of a reader that the writer has not overtaken.
use mgw.Prelude.{
  ℕ, zero, suc, ◌+◌, ◌-◌, ◌%◌, ◌≤◌, ◌<◌, ◌≡◌, ◌∙◌, ap, ◌⊎◌, false, Bool, List, [], ◌∷◌, map, length,
  add32, ring_read, ring_read_straight, ring_read_round, arith,
}
use native.Mathlib.Decide.{dec_lt}
use native.Mathlib.Nat.{mod-lt}
use mgw.StreamBuff.{Memory, MemoryFrame, MemReader, Frame, entry}
use mgw.StreamBuff.Reader.{Got, got, fetch, take_frame, take_valid, take_iframe, get_one_frame}
use mgw.StreamBuff.Window.{IsReady, Holds, Window, Window-count, total}

-- The copy out of the data gives the bytes at the frame's addresses.
fetch-ring_read :
    (m : Memory) (e : MemoryFrame) (v n : ℕ)
    → IsReady m
    → e.position ≡ v % m.datasize
    → e.len ≡ n
    → n ≤ m.datasize
    → 0 < m.datasize
    → fetch m e ≡ ring_read m.bytes m.datasize v n
unfolding fetch
fetch-ring_read m e v n ok p l h some_data = elim (dec_lt m.datasize (e.position + n)) [
  | yes r ↦
      let left : ℕ = m.datasize - e.position in
      ground (
        arith,
        mod-lt v some_data,
        ring_read_round m.bytes m.datasize v e.position left (n - left),
        ap (ring_read m.bytes m.datasize v) (whole r),
      )
  | no r ↦ ground (arith, mod-lt v some_data, ring_read_straight m.bytes m.datasize v e.position n)
]
  where
    whole :
        m.datasize < e.position + n
        → (m.datasize - e.position) + (n - (m.datasize - e.position)) ≡ n
    whole r = omega (arith, mod-lt v some_data)

-- The time does not make the reader answer FRAME_CONSUME_SLOW.
abbrev pub InTime : Bool → ℕ → Frame → Type 0
InTime by_time gtime f = (by_time ≡ false) ⊎ (gtime ≡ 0) ⊎ (f.timestamp ≤ gtime + 2000)

module _ (m : Memory) (rd : MemReader) (f : Frame) (v maxframelen gtime : ℕ) (ok : IsReady m)
    (h : Holds m rd.rd_frame_count v f) (len : length f.payload ≤ m.datasize)
    (size : length f.payload ≤ maxframelen) (time : InTime rd.read_by_time gtime f) where
  abbrev here : MemoryFrame
  here = entry m (rd.rd_frame_count % m.max_valid_frames)

  fetch-payload : fetch m here ≡ f.payload
  fetch-payload =
      fetch-ring_read m here v (length f.payload) ok h.position h.len len
        (omega (arith, h.some_bytes))
      ∙ h.bytes

  abbrev taken : Got × MemReader
  taken = (got f, record rd { rd_frame_count = add32 rd.rd_frame_count 1 })

  take_frame-got : take_frame m rd maxframelen gtime ≡ taken
  unfolding take_frame
  take_frame-got = ground (arith, fetch-payload)

  take_iframe-got : rd.re_iframe ≡ false → take_iframe m rd maxframelen gtime ≡ taken
  unfolding take_iframe take_valid
  take_iframe-got key = ground (arith, take_frame-got)

  get_one_frame-got :
      rd.re_iframe ≡ false
      → rd.rd_frame_count < m.writ_frame_count
      → m.writ_frame_count ≤ rd.rd_frame_count + m.max_valid_frames
      → get_one_frame m rd maxframelen gtime
        ≡ (got f, record rd { rd_frame_count = rd.rd_frame_count + 1 })
  unfolding get_one_frame
  get_one_frame-got key behind near = ground (arith, take_iframe-got key)

-- A reader that waits for no key frame and is at the first frame of the window gets exactly that
-- frame, and its count goes on by one. Conditions: the frame fits the reader's buffer, and its
-- time is not more than 2000 ahead of the caller's where the reader reads by time.
pub get_one_frame-Window :
    (m : Memory) (rd : MemReader) (f : Frame) (fs : List Frame) (v maxframelen gtime : ℕ)
    → IsReady m
    → Window m rd.rd_frame_count v (f ∷ fs)
    → rd.re_iframe ≡ false
    → length (f ∷ fs) ≤ m.max_valid_frames
    → length f.payload ≤ m.datasize
    → length f.payload ≤ maxframelen
    → InTime rd.read_by_time gtime f
    → get_one_frame m rd maxframelen gtime
      ≡ (got f, record rd { rd_frame_count = rd.rd_frame_count + 1 })
get_one_frame-Window m rd f fs v maxframelen gtime ok (h, win) key slots len size time =
    let n = Window-count m fs (rd.rd_frame_count + 1) (v + length f.payload) win in
    get_one_frame-got m rd f v maxframelen gtime ok h len size time key (omega arith) (omega arith)

-- Reads in a row, as a caller makes them, up to `n` frames.
pub read_all : ℕ → Memory → MemReader → ℕ → ℕ → List Got × MemReader
read_all zero m rd maxframelen gtime = ([], rd)
read_all (suc n) m rd maxframelen gtime =
    let (g, rd') = get_one_frame m rd maxframelen gtime in
    let (gs, rd'') = read_all n m rd' maxframelen gtime in (g ∷ gs, rd'')

abbrev pub AllFit : ℕ → Bool → ℕ → List Frame → Type 0
AllFit maxframelen by_time gtime [] = Unit {0}
AllFit maxframelen by_time gtime (f ∷ fs) =
    (length f.payload ≤ maxframelen) × InTime by_time gtime f × AllFit maxframelen by_time gtime fs

-- A reader at the start of the window reads every frame of it, in the order put and byte for
-- byte, and is then level with the writer. Conditions: the reader does not wait for a key frame (as a new one does until it
-- has got one), the window has at most as many frames as the table has entries and at most as many bytes as the data, and
-- each frame fits the reader's buffer and, where the reader reads by time, is at most 2000 ahead of the caller's time.
pub read_all-Window :
    (m : Memory) (rd : MemReader) (fs : List Frame) (v maxframelen gtime : ℕ)
    → IsReady m
    → Window m rd.rd_frame_count v fs
    → rd.re_iframe ≡ false
    → length fs ≤ m.max_valid_frames
    → total fs ≤ m.datasize
    → AllFit maxframelen rd.read_by_time gtime fs
    → read_all (length fs) m rd maxframelen gtime
      ≡ (map got fs, record rd { rd_frame_count = m.writ_frame_count })
unfolding read_all
read_all-Window m rd [] v maxframelen gtime ok (e, p) key slots room fit =
    let at : ℕ → List Got × MemReader = λ n. ([], record rd { rd_frame_count = n }) in ap at e
read_all-Window m rd (f ∷ fs) v maxframelen gtime ok (h, win) key slots room fit =
    let (size, time, rest) = fit in
    ground (
      arith,
      get_one_frame-Window m rd f fs v maxframelen gtime ok (h, win) key slots (omega arith) size
          time,
      read_all-Window m (record rd { rd_frame_count = rd.rd_frame_count + 1 }) fs
          (v + length f.payload) maxframelen gtime ok win key (omega arith) (omega arith) rest,
    )
