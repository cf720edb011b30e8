-- ===== src/PacketRing/Written.antt =====
-- Packets written to a ring, and read from it.
use mgw.Prelude.{
  ℕ, ◌+◌, ◌/◌, ◌^◌, ◌≤◌, ◌<◌, ◌≡◌, refl, sym, ◌∙◌, subst, some_inj, ◌⊎◌, true, false, none, some,
  List, [], ◌∷◌, ◌++◌, append-nil, append_assoc, map, length, arith,
}
use mgw.Prelude.Int.{ℤ, pos}
use mgw.StreamBuff.{Memory, MemReader, Frame, put_one_frame}
use mgw.StreamBuff.Inside.{put_one_frame_answers}
use mgw.StreamBuff.Window.{IsReady, Window, Window-count, total, StopsInTable}
use mgw.StreamBuff.Put.{put_one_frame-Window}
use mgw.StreamBuff.Reader.Get.{InTime, get_one_frame-Window}
use mgw.StreamSort.{Sorter}
use mgw.StreamSort.Order.{Ordered, times, frame_times}
use mgw.StreamSort.Sorted.{Sorted}
use mgw.StreamSort.Put.{Outcome, put_frame_stream_sort}
use mgw.StreamSort.Put.Whole.{put_frame_stream_sort-Delivers}
use mgw.PacketRing.{
  Packet, RingBuffer, max_frame_size, buff_frame, sort_frame, sorted_frame, callback_answer,
  deliver, size_of, write_packet, mgw_rb_read_packet,
}
use mgw.PacketRing.Kinds.{as_read, received-got}
use mgw.StreamSort

-- The block takes the frame behind the frames `fs` of the window.
pub record Takes (m : Memory) (fs : List Frame) (f : Frame) : Type 0 where
  pub some_bytes : 0 < length f.payload
  pub half : length f.payload < m.datasize / 2
  pub room : total fs + length f.payload < m.datasize
  pub slots : length fs + 2 ≤ m.max_valid_frames
  pub count : m.writ_frame_count + 1 < 2 ^ 31
  pub stops : StopsInTable m f

-- The block after a frame was put.
abbrev pub next : Memory → Frame → Memory
next m f = elim (put_one_frame m f) [ none ↦ m | some (c, m') ↦ m' ]

-- It takes one frame after the other.
abbrev pub TakesAll : Memory → List Frame → List StreamSort.Frame → Type 0
TakesAll m fs [] = Unit {0}
TakesAll m fs (d ∷ ds) =
    Takes m fs (sorted_frame d) × TakesAll (next m (sorted_frame d)) (fs ++ sorted_frame d ∷ []) ds

-- `datacallback` answers what the sorter takes for its answer.
pub datacallback-answer :
    (m m' : Memory) (d : StreamSort.Frame) (c : ℤ)
    → put_one_frame m (sorted_frame d) ≡ some (c, m')
    → (c ≡ callback_answer m.datasize d) × (m'.datasize ≡ m.datasize)
unfolding callback_answer sorted_frame
datacallback-answer m m' d c e = put_one_frame_answers m (sorted_frame d) c m' e

deliver-cons :
    (m m' : Memory) (d : StreamSort.Frame) (ds : List StreamSort.Frame) (c : ℤ)
    → put_one_frame m (sorted_frame d) ≡ some (c, m')
    → deliver m (d ∷ ds) ≡ deliver m' ds
unfolding deliver
deliver-cons m m' d ds c e = rw (e, deliver) refl

deliver-Window :
    (m : Memory) (ds : List StreamSort.Frame) (fs : List Frame) (i u : ℕ)
    → IsReady m
    → Window m i u fs
    → TakesAll m fs ds
    → (m' : Memory) × (deliver m ds ≡ some m')
      × IsReady m'
      × Window m' i u (fs ++ map sorted_frame ds)
unfolding deliver
deliver-Window m [] fs i u ok win t = (m, refl, ok, rw (append-nil fs) win)
deliver-Window m (d ∷ ds) fs i u ok win (t, ts) =
    let f = sorted_frame d in
    let (m1, e, ok1, win1) =
      put_one_frame-Window m f fs i u ok win t.some_bytes t.half t.room t.slots t.count t.stops in
    let same : next m f ≡ m1 = rw (e, next) refl in
    let (m2, e2, ok2, win2) =
      deliver-Window m1 ds (fs ++ f ∷ []) i u ok1 win1
        (subst (λ x. TakesAll x (fs ++ f ∷ []) ds) same ts) in
    (
      m2,
      deliver-cons m m1 d ds (pos 0) e ∙ e2,
      ok2,
      subst (Window m2 i u) (append_assoc fs (f ∷ []) (map sorted_frame ds)) win2,
    )

-- `mgw_rb_write_packet` of a ring with a sorted buffer returns what the sorter returns, and puts the
-- frames that the sorter delivers, byte for byte, behind the frames of the window, their times in
-- order and none before the last time delivered earlier; the sorter is sorted again. Condition: the
-- block takes the frames that the sorter delivers.
pub write_packet-Window :
    (now : ℕ) (rb : RingBuffer) (s : Sorter) (o : Outcome) (m : Memory) (p : Packet)
    (fs : List Frame) (i u : ℕ)
    → rb.sort ≡ true
    → rb.sort_list ≡ some s
    → Sorted s
    → put_frame_stream_sort (callback_answer m.datasize) now s (sort_frame p) ≡ some o
    → IsReady m
    → Window m i u fs
    → TakesAll m fs o.delivered
    → (m' : Memory) × (write_packet now rb m p
        ≡ some (size_of o.code, (record rb { sort_list = some o.buff }, m')))
      × IsReady m'
      × Window m' i u (fs ++ map sorted_frame o.delivered)
      × Sorted o.buff
      × ((o.delivered ≡ [])
          ⊎ Ordered s.premintimestamp (frame_times o.delivered ++ times o.buff.phead))
unfolding write_packet
write_packet-Window now rb s o m p fs i u sorts list h put ok win t =
    let (m', e, ok', win') = deliver-Window m o.delivered fs i u ok win t in
    let d = put_frame_stream_sort-Delivers (callback_answer m.datasize) now s (sort_frame p) h in
    let same : d.outcome ≡ o = some_inj (sym d.some_outcome ∙ put) in
    (
      m',
      ground (arith, sorts, list, put, e),
      ok',
      win',
      subst (λ x. Sorted x.buff) same d.sorted,
      subst
          (λ x.
            (x.delivered ≡ [])
            ⊎ Ordered s.premintimestamp (frame_times x.delivered ++ times x.buff.phead))
          same d.order,
    )

Window-at :
    (m : Memory) (fs : List Frame) (i j u v : ℕ) → i ≡ j → u ≡ v → Window m i u fs → Window m j v fs
Window-at m fs i j u v a b win = subst (λ x. Window m j x fs) b (subst (λ x. Window m x u fs) a win)

-- The frames behind the first ones of a window.
Window-drop :
    (m : Memory) (fs gs : List Frame) (i u : ℕ)
    → Window m i u (fs ++ gs)
    → Window m (i + length fs) (u + total fs) gs
Window-drop m [] gs i u win = Window-at m gs i (i + 0) u (u + 0) (omega arith) (omega arith) win
Window-drop m (f ∷ fs) gs i u (h, win) =
    Window-at m gs (i + 1 + length fs) _ (u + length f.payload + total fs) _ (omega arith)
      (omega arith) (Window-drop m fs gs (i + 1) (u + length f.payload) win)

-- A packet written straight is read again: a reader that was level with the writer gets its bytes,
-- time, kind and priority, with the size set; only a mark as a key frame is lost on an audio packet.
-- Conditions: the block takes the packet's frame, the packet is at most 500 KiB, the reader waits
-- for no key frame, and its time is in time.
pub write_packet-read_packet :
    (now : ℕ) (rb rr : RingBuffer) (rd : MemReader) (m : Memory) (p q : Packet) (fs : List Frame)
    (i u : ℕ)
    → rb.sort ≡ false
    → rr.reader ≡ some rd
    → IsReady m
    → Window m i u fs
    → Takes m fs (buff_frame p)
    → rd.rd_frame_count ≡ m.writ_frame_count
    → rd.re_iframe ≡ false
    → length p.packet_data ≤ max_frame_size
    → InTime rd.read_by_time q.pts (buff_frame p)
    → (m' : Memory) × (write_packet now rb m p ≡ some (0, (rb, m')))
      × (mgw_rb_read_packet (some rr) m' (some q) ≡ (
        pos (length p.packet_data),
        (
          some (as_read p),
          some record rr { reader = some record rd { rd_frame_count = rd.rd_frame_count + 1 } },
        ),
      ))
unfolding write_packet mgw_rb_read_packet buff_frame
write_packet-read_packet now rb rr rd m p q fs i u straight reads ok win t level key size time =
    let f = buff_frame p in
    let (m1, e, ok1, win1) =
      put_one_frame-Window m f fs i u ok win t.some_bytes t.half t.room t.slots t.count t.stops in
    let (c, kept) = put_one_frame_answers m f (pos 0) m1 e in
    let at : i + length fs ≡ rd.rd_frame_count = Window-count m fs i u win ∙ sym level in
    let win2 =
      Window-at m1 (f ∷ []) _ rd.rd_frame_count _ (u + total fs) at refl
        (Window-drop m1 fs (f ∷ []) i u win1) in
    let g =
      get_one_frame-Window m1 rd f [] (u + total fs) max_frame_size q.pts ok1 win2 key
        (omega (arith, ok1.some_frames)) (omega (arith, t.half, kept)) size time in
    (m1, ground (arith, straight, e), ground (arith, reads, g, received-got p q))
