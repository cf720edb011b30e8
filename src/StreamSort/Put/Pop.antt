-- ===== src/StreamSort/Put/Pop.antt =====
-- The frames that are due are delivered.
use mgw.Prelude.{
  ℕ, zero, suc, ◌%◌, ◌^◌, ◌≤◌, ◌≡◌, inl, inr, refl, true, List, [], ◌∷◌, ◌++◌, length, leb, add32,
  sub32, sub64, Bool-cases, Option-cases, arith,
}
use mgw.Prelude.Int.{ℤ}
use mgw.StreamSort.{Node, Frame, Sorter, remove_frameaddr}
use mgw.StreamSort.Put.{is_negative, oframe, drop_head, pop_frame_stream_sort}
use mgw.StreamSort.Put.Kept.{Delivers, with_nodes}
use mgw.StreamSort.Order.{
  Ordered, Ordered-repeat, Ordered-move, times, frame_times, frame_times-append,
}
use mgw.StreamSort.Sorted.{Sorted}

module _ (datacallback : Frame → ℤ) where
  -- The first node was delivered and stays, since the callback failed, or goes.
  abbrev given : Sorter → List ℕ → Node → Sorter
  given s addrs n = record s { frameaddr = addrs; premintimestamp = n.timestamp }

  abbrev pub gone : Sorter → List ℕ → ℕ → Node → Node → Sorter
  gone s addrs v n m = record s {
    frameaddr = addrs;
    premintimestamp = n.timestamp;
    valid_len = v;
    pop_frame_count = add32 s.pop_frame_count 1;
    mintimestamp = m.timestamp;
  }

  given-Sorted :
      (s : Sorter) (addrs : List ℕ) (n : Node) (ns : List Node)
      → Sorted (with_nodes s (n ∷ ns))
      → Sorted (given (with_nodes s (n ∷ ns)) addrs n)
  given-Sorted s addrs n ns h =
      let (_, o) = h.order in
      record {
        order = (omega arith, o);
        ends = h.ends;
        count = h.count;
        large = h.large;
        size_word = h.size_word;
        position_word = h.position_word;
        put_word = h.put_word;
        pop_word = h.pop_word;
      }

  pub gone-Sorted :
      (s : Sorter) (addrs : List ℕ) (v : ℕ) (n m : Node) (ns : List Node)
      → Sorted (with_nodes s (n ∷ m ∷ ns))
      → Sorted (with_nodes (gone s addrs v n m) (m ∷ ns))
  gone-Sorted s addrs v n m ns h =
      let (_, o) = h.order in
      let (_, latest) = h.ends in
      record {
        order = o;
        ends = (refl, latest);
        count = omega (arith, h.count, h.put_word, h.pop_word);
        large = h.large;
        size_word = h.size_word;
        position_word = h.position_word;
        put_word = h.put_word;
        pop_word = omega arith;
      }

  few :
      (s : Sorter) (ns : List Node)
      → Sorted (with_nodes s ns)
      → length (times ns) ≤ 3
      → leb (sub32 s.put_frame_count s.pop_frame_count) 3 ≡ true
  few s ns h l = ground (arith, h.count)

  pub pop-Delivers :
      (rounds low : ℕ) (s : Sorter) (ns : List Node) (out : List Frame)
      → Sorted (with_nodes s ns)
      → Ordered low (frame_times out ++ times ns)
      → Delivers low (pop_frame_stream_sort datacallback rounds (with_nodes s ns) out)
  unfolding pop_frame_stream_sort drop_head
  pop-Delivers zero low s ns out h o = record {
    outcome = _;
    some_outcome = refl;
    sorted = h;
    order = inr o;
  }
  pop-Delivers (suc rounds) low s [] out h o =
      rw (few s [] h (omega arith))
        (record { outcome = _; some_outcome = refl; sorted = h; order = inr o })
  pop-Delivers (suc rounds) low s (n ∷ []) out h o =
      rw (few s (n ∷ []) h (omega arith))
        (record { outcome = _; some_outcome = refl; sorted = h; order = inr o })
  pop-Delivers (suc rounds) low s (n ∷ m ∷ ns) out h o =
      let stay : Ordered low
          (frame_times (out ++ oframe (with_nodes s (n ∷ m ∷ ns)) n ∷ []) ++ times (n ∷ m ∷ ns)) =
        rw (frame_times-append out (oframe s n ∷ []))
          (Ordered-repeat low n.timestamp (frame_times out) (times (m ∷ ns)) o) in
      let go : Ordered low
          (frame_times (out ++ oframe (with_nodes s (n ∷ m ∷ ns)) n ∷ []) ++ times (m ∷ ns)) =
        rw (frame_times-append out (oframe s n ∷ []))
          (Ordered-move low n.timestamp (frame_times out) (times (m ∷ ns)) o) in
      elim (Bool-cases (leb (sub32 s.put_frame_count s.pop_frame_count) 3)) [
        | inl a ↦ rw a (record { outcome = _; some_outcome = refl; sorted = h; order = inr o })
        | inr a ↦
            elim (Bool-cases (leb (sub64 s.maxtimestamp s.mintimestamp % 2 ^ 32) s.sort_time)) [
              | inl b ↦
                  rw (a, b) (record { outcome = _; some_outcome = refl; sorted = h; order = inr o })
              | inr b ↦ elim (Option-cases (remove_frameaddr n.position s.frameaddr)) [
                | inl c ↦
                    rw (a, b, c)
                      (record { outcome = _; some_outcome = refl; sorted = h; order = inr o })
                | inr (addrs, c) ↦ elim (Bool-cases (is_negative (datacallback (oframe s n)))) [
                  | inl d ↦
                      rw (a, b, c, d)
                        (record {
                          outcome = _;
                          some_outcome = refl;
                          sorted = given-Sorted s addrs n (m ∷ ns) h;
                          order = inr stay;
                        })
                  | inr d ↦
                      rw (a, b, c, d)
                        (pop-Delivers rounds low (gone s addrs (sub32 s.valid_len n.len) n m)
                          (m ∷ ns) _ (gone-Sorted s addrs _ n m ns h) go)
                ]
              ]
            ]
      ]
