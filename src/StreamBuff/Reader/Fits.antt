-- ===== src/StreamBuff/Reader/Fits.antt =====
-- What GetOneFrameFromBuff copies out.
use native.Mathlib.Decide.{dec_lt}
use mgw.Prelude.{
  ◌+◌, refl, ap, not, ◌&&◌, add32, mod_small, ring_read, ring_read_round, ring_read_straight, ℕ,
  ◌-◌, ◌%◌, ◌≤◌, ◌≡◌, Option-cases, Bool-cases, inl, inr, false, ltb, leb, ◌==◌, sub32,
  if◌then◌else◌, arith,
}
use mgw.StreamBuff.{Memory, MemReader, entry}
use mgw.StreamBuff.Inside.{IsInside}
use mgw.StreamBuff.Reader.{
  Got, consume_fast, consume_slow, again, too_big, slow_at, got, fetch, jump_to_oldest,
  jump_to_newest, take_frame, take_valid, take_iframe, get_one_frame,
}

-- The copy out of the data is every byte of the frame, from its position on and round at the end.
fetch-inside :
    (m : Memory) (j : ℕ)
    → IsInside m
    → fetch m (entry m j) ≡ ring_read m.bytes m.datasize (entry m j).position (entry m j).len
unfolding fetch
fetch-inside m j inside =
    let e = entry m j in
    let at : e.position % m.datasize ≡ e.position = mod_small _ _ (inside.positions j) in
    elim (dec_lt m.datasize (e.position + e.len)) [
      | yes r ↦
          let left : ℕ = m.datasize - e.position in
          let whole : left + (e.len - left) ≡ e.len = omega (arith, inside.positions j) in
          ground (
            arith,
            inside.positions j,
            inside.lens j,
            inside.small,
            inside.block,
            ring_read_round m.bytes m.datasize e.position e.position left (e.len - left),
            ap (ring_read m.bytes m.datasize e.position) whole,
          )
      | no r ↦ ground (
        arith,
        inside.positions j,
        inside.lens j,
        inside.small,
        inside.block,
        ring_read_straight m.bytes m.datasize e.position e.position e.len,
      )
    ]

-- The reader's count is behind a frame, which it got whole: all the bytes that its entry counts, read round the data from the
-- entry's position, with the entry's time, type and priority. They are at most `n`. The other answers copy nothing.
abbrev pub IsWhole : Memory → ℕ → Got × MemReader → Type 0
IsWhole m n (got f, rd) =
    (k : ℕ) × (rd.rd_frame_count ≡ add32 k 1)
    × (f.payload
        ≡ ring_read m.bytes m.datasize (entry m (k % m.max_valid_frames)).position
            (entry m (k % m.max_valid_frames)).len)
    × (f.timestamp ≡ (entry m (k % m.max_valid_frames)).timestamp)
    × (f.frametype ≡ (entry m (k % m.max_valid_frames)).frametype)
    × (f.priority ≡ (entry m (k % m.max_valid_frames)).priority)
    × ((entry m (k % m.max_valid_frames)).len ≤ n)
IsWhole m n (consume_fast, rd) = Unit {0}
IsWhole m n (consume_slow, rd) = Unit {0}
IsWhole m n (again, rd) = Unit {0}
IsWhole m n (too_big, rd) = Unit {0}
IsWhole m n (slow_at t, rd) = Unit {0}

module _ (m : Memory) (maxframelen gtime : ℕ) (inside : IsInside m) where
  take_frame-IsWhole : (rd : MemReader) → IsWhole m maxframelen (take_frame m rd maxframelen gtime)
  unfolding take_frame
  take_frame-IsWhole rd =
      let e = entry m (rd.rd_frame_count % m.max_valid_frames) in
      let late =
        rd.read_by_time
        && not (gtime == 0)
        && ltb gtime e.timestamp
        && ltb 2000 (e.timestamp - gtime) in
      elim (Bool-cases (ltb maxframelen e.len)) [
        | inl big ↦ rw big tt
        | inr fits ↦ elim (Bool-cases late) [
          | inl t ↦ rw (fits, t) tt
          | inr t ↦
              rw (fits, t)
                (
                  rd.rd_frame_count,
                  refl,
                  fetch-inside m (rd.rd_frame_count % m.max_valid_frames) inside,
                  refl,
                  refl,
                  refl,
                  ground (arith, fits),
                )
        ]
      ]

  take_valid-IsWhole : (rd : MemReader) → IsWhole m maxframelen (take_valid m rd maxframelen gtime)
  unfolding take_valid
  take_valid-IsWhole rd =
      elim (Bool-cases (entry m (rd.rd_frame_count % m.max_valid_frames)).valid) [
        | inl v ↦ rw v (take_frame-IsWhole rd)
        | inr v ↦ elim (Option-cases (jump_to_oldest m rd.rd_frame_count)) [
          | inl e ↦ rw (v, e) tt
          | inr (k, e) ↦ rw (v, e) (take_frame-IsWhole (record rd { rd_frame_count = k }))
        ]
      ]

  take_iframe-IsWhole :
      (rd : MemReader) → IsWhole m maxframelen (take_iframe m rd maxframelen gtime)
  unfolding take_iframe
  take_iframe-IsWhole rd =
      let r0 : ℕ = if leb 5 m.writ_frame_count then m.writ_frame_count - 5 else rd.rd_frame_count in
      elim (Bool-cases rd.re_iframe) [
        | inl waits ↦ elim (Option-cases (jump_to_newest m r0)) [
          | inl e ↦ simp (waits, e) tt
          | inr (k, e) ↦
              simp (waits, e)
                (take_valid-IsWhole (record rd { rd_frame_count = k; re_iframe = false }))
        ]
        | inr goes ↦ simp goes (take_valid-IsWhole rd)
      ]

-- A frame that GetOneFrameFromBuff copies out is whole, whichever way the reader came to it: it has every byte of its entry of the table, those that
-- go round the end of the data included, and the entry's time, type and priority; it is never longer than the
-- caller's buffer, and the reader's count then is the one behind it. The positions and lengths of the table are inside the data.
pub get_one_frame-IsWhole :
    (m : Memory) (rd : MemReader) (maxframelen gtime : ℕ)
    → IsInside m
    → IsWhole m maxframelen (get_one_frame m rd maxframelen gtime)
unfolding get_one_frame
get_one_frame-IsWhole m rd maxframelen gtime inside =
    elim (Bool-cases (m.writ_frame_count == rd.rd_frame_count)) [
      | inl level ↦ rw level tt
      | inr e ↦ elim (Bool-cases (ltb m.writ_frame_count rd.rd_frame_count)) [
        | inl ahead ↦ rw (e, ahead) tt
        | inr b ↦
            elim (Bool-cases
              (ltb m.max_valid_frames (sub32 m.writ_frame_count rd.rd_frame_count))) [
                | inl far ↦ elim (Option-cases (jump_to_oldest m rd.rd_frame_count)) [
                  | inl j ↦ rw (e, b, far, j) tt
                  | inr (k, j) ↦
                      rw (e, b, far, j)
                        (take_iframe-IsWhole m maxframelen gtime inside
                          (record rd { rd_frame_count = k }))
                ]
                | inr near ↦ rw (e, b, near) (take_iframe-IsWhole m maxframelen gtime inside rd)
              ]
      ]
    ]
