-- ===== src/StreamSort/Put/Forgets.antt =====
-- What is lost with the old buffer.
use mgw.Prelude.{
  ℕ, ◌/◌, ◌%◌, ◌^◌, ◌≤◌, ◌<◌, ◌≡◌, inl, inr, refl, ap, ◌∙◌, true, false, ◌&&◌, some, List, ◌∷◌,
  length, ltb, sub64, add32, Bool-cases, arith,
}
use mgw.Prelude.Int.{pos, negsuc}
use mgw.StreamSort.{Node, Frame, Sorter, add_frameaddr}
use mgw.StreamSort.Check.{default_stream_sort_buff, move_sort_buff}
use mgw.StreamSort.Check.Room.{relocate-times, relocate-lt}
use mgw.StreamSort.Put.{
  returns, fill_the_node, delay_increase, drop_reversed, insert_waiting, put_middle,
}
use mgw.StreamSort.Put.Kept.{memcpy-Copied}
use mgw.StreamSort.Order.{times}

delay_increase-phead : (now : ℕ) (s : Sorter) (t : ℕ) → (delay_increase now s t).phead ≡ s.phead
unfolding delay_increase
delay_increase-phead now s t =
    elim (Bool-cases (
      ltb t s.mintimestamp
      && ltb (add32 s.sort_time (sub64 s.mintimestamp t % 2 ^ 32)) s.max_sort_time)) [
        | inl e ↦ rw e refl
        | inr e ↦ rw e refl
      ]

insert_waiting-phead :
    (now : ℕ) (s : Sorter) (nd : Node)
    → nd.timestamp < s.mintimestamp
    → (insert_waiting now s nd).phead ≡ nd ∷ s.phead
unfolding insert_waiting
insert_waiting-phead now s nd h =
    let e : ltb nd.timestamp s.mintimestamp ≡ true = ground arith in
    rw e (ap (λ ns. nd ∷ ns) (delay_increase-phead now s nd.timestamp))

-- The buffer after `RemallocSortBuff`.
abbrev pub moved : ℕ → Sorter → ℕ → Sorter
moved now s size =
    move_sort_buff (default_stream_sort_buff now size s.sort_time s.max_sort_time) s size

-- The buffer with a frame stored, before its node has a place.
abbrev pub stored : Sorter → ℕ → List ℕ → ℕ → Frame → Sorter
stored s place d next f = record s {
  late_frame_drop = 0;
  pdata = d;
  position = next;
  frameaddr = add_frameaddr place s.frameaddr;
  valid_len = add32 s.valid_len (length f.frame);
  put_frame_count = add32 s.put_frame_count 1;
}

-- A frame from before the last time delivered, and not too late, is refused by the buffer, but the buffer that `RemallocSortBuff` puts in its
-- place accepts it and holds it as the next frame to deliver.
pub put_middle_forgets :
    (now : ℕ) (s : Sorter) (f : Frame) (size : ℕ)
    → f.timestamp < s.premintimestamp
    → s.premintimestamp ≤ s.mintimestamp
    → sub64 s.maxtimestamp f.timestamp % 2 ^ 32 ≤ s.max_sort_time
    → size < 2 ^ 32
    → length f.frame < size / 2
    → ((s1 : Sorter) × (put_middle now s f ≡ some (returns (negsuc 0) s1)))
      × ((s2 : Sorter) × (put_middle now (moved now s size) f ≡ some (returns (pos 0) s2))
          × (times s2.phead ≡ f.timestamp ∷ times s.phead))
unfolding put_middle move_sort_buff default_stream_sort_buff
put_middle_forgets now s f size early behind within w l =
    let a : ltb s.max_sort_time (sub64 s.maxtimestamp f.timestamp % 2 ^ 32) ≡ false =
      ground arith in
    let b : ltb f.timestamp s.premintimestamp ≡ true = ground arith in
    let a' : ltb (moved now s size).max_sort_time (sub64 s.maxtimestamp f.timestamp % 2 ^ 32)
        ≡ false =
      ground arith in
    let b' : ltb f.timestamp (moved now s size).premintimestamp ≡ false = ground arith in
    let c =
      memcpy-Copied (record (moved now s size) { late_frame_drop = 0 }) f.frame
        (relocate-lt s 0 0 s.phead _ s.frameaddr (omega arith)) w l in
    let s1 = drop_reversed now (record s { late_frame_drop = 0 }) f.timestamp in
    let s2 =
      insert_waiting now (stored (moved now s size) c.place c.data_bytes c.next f)
        (fill_the_node c.place f) in
    let refused : put_middle now s f ≡ some (returns (negsuc 0) s1) = rw (a, b, put_middle) refl in
    let accepted : put_middle now (moved now s size) f ≡ some (returns (pos 0) s2) =
      rw (a', b', c.some_place, put_middle) refl in
    let waits : times s2.phead ≡ f.timestamp ∷ times s.phead =
      ap times (
        insert_waiting-phead now (stored (moved now s size) c.place c.data_bytes c.next f)
          (fill_the_node c.place f) (omega arith))
      ∙ ap (λ ts. f.timestamp ∷ ts) (relocate-times s 0 0 s.phead _ s.frameaddr) in
    ((s1, refused), (s2, accepted, waits))
