-- ===== src/StreamSort/Put/Last.antt =====
-- A frame that is not before the latest one.
use mgw.Prelude.{
  ℕ, ◌+◌, ◌/◌, ◌%◌, ◌^◌, ◌≤◌, ◌<◌, ◌≡◌, inl, inr, refl, sym, true, ◌&&◌, ◌||◌, List, [], ◌∷◌, ◌++◌,
  length, length-append, ltb, leb, if◌then◌else◌, add32, sub32, sub64, Bool-cases, Option-cases,
  arith,
}
use mgw.Prelude.Int.{ℤ}
use mgw.StreamSort.{Node, Frame, Sorter, move_frameaddr, add_frameaddr}
use mgw.StreamSort.Put.{
  fill_the_node, oframe, drop_head, append_frame, put_due, put_stored, put_end,
}
use mgw.StreamSort.Put.Kept.{Delivers, memcpy-Copied, clean-Sorted, with_nodes}
use mgw.StreamSort.Order.{Ordered, Ordered-append, last_of, last_of-append, times, times-append}
use mgw.StreamSort.Sorted.{Sorted}
use mgw.StreamSort.Put.Pop.{gone, gone-Sorted, pop-Delivers}

-- Changes that the invariant does not mention.
readdressed :
    (s : Sorter) (ns : List Node) (addrs : List ℕ)
    → Sorted (with_nodes s ns)
    → Sorted (with_nodes (record s { frameaddr = addrs }) ns)
readdressed s ns addrs h = record {
  order = h.order;
  ends = h.ends;
  count = h.count;
  large = h.large;
  size_word = h.size_word;
  position_word = h.position_word;
  put_word = h.put_word;
  pop_word = h.pop_word;
}

undropped : (s : Sorter) (d : ℕ) → Sorted s → Sorted (record s { early_frame_drop = d })
undropped s d h = record {
  order = h.order;
  ends = h.ends;
  count = h.count;
  large = h.large;
  size_word = h.size_word;
  position_word = h.position_word;
  put_word = h.put_word;
  pop_word = h.pop_word;
}

moved :
    (s : Sorter) (d : List ℕ) (p count drop : ℕ) (ns : List Node)
    → p < 2 ^ 32
    → Sorted (with_nodes s ns)
    → Sorted (
        with_nodes
          (record s { early_frame_count = count; early_frame_drop = drop; pdata = d; position = p })
          ns)
moved s d p count drop ns w h = record {
  order = h.order;
  ends = h.ends;
  count = h.count;
  large = h.large;
  size_word = h.size_word;
  position_word = w;
  put_word = h.put_word;
  pop_word = h.pop_word;
}

module _ (datacallback : Frame → ℤ) where
  append_frame-Sorted :
      (s : Sorter) (position : ℕ) (f : Frame) (n : Node) (ns : List Node)
      → Sorted (with_nodes s (n ∷ ns))
      → s.maxtimestamp ≤ f.timestamp
      → Sorted (append_frame datacallback (with_nodes s (n ∷ ns)) position f)
  append_frame-Sorted s position f n ns h le =
      let nd = fill_the_node position f in
      let (low, o) = h.order in
      let (first, latest) = h.ends in
      let t : times (ns ++ nd ∷ []) ≡ times ns ++ f.timestamp ∷ [] = times-append ns (nd ∷ []) in
      let after : last_of n.timestamp (times ns) ≤ f.timestamp = omega arith in
      let o' : Ordered n.timestamp (times ns ++ f.timestamp ∷ []) =
        Ordered-append n.timestamp f.timestamp (times ns) o after in
      let size : length (times ns ++ f.timestamp ∷ []) ≡ length (times ns) + 1 =
        length-append (times ns) (f.timestamp ∷ []) in
      record {
        order = (low, rw t o');
        ends = (first, rw t (sym (last_of-append n.timestamp f.timestamp (times ns))));
        count = rw t (omega (arith, size, h.count, h.put_word, h.pop_word));
        large = h.large;
        size_word = h.size_word;
        position_word = h.position_word;
        put_word = omega arith;
        pop_word = h.pop_word;
      }

  -- The first node is delivered and the frame stored, or the address of the node is missing.
  put_due-Delivers :
      (low position : ℕ) (s : Sorter) (f : Frame) (n m : Node) (ns : List Node)
      → Sorted (with_nodes s (n ∷ m ∷ ns))
      → s.maxtimestamp ≤ f.timestamp
      → Ordered low (times (n ∷ m ∷ ns))
      → Delivers low (put_due datacallback (with_nodes s (n ∷ m ∷ ns)) position f n (m ∷ ns))
  unfolding put_due drop_head
  put_due-Delivers low position s f n m ns h le o =
      elim (Option-cases (move_frameaddr position n.position s.frameaddr)) [
        | inl c ↦
            rw (c, put_due)
              (record { outcome = _; some_outcome = refl; sorted = h; order = inl refl })
        | inr (addrs, c) ↦
            let g = gone datacallback s addrs (sub32 s.valid_len n.len) n m in
            let a =
              append_frame-Sorted g position f m ns
                (gone-Sorted datacallback s addrs (sub32 s.valid_len n.len) n m ns h) le in
            let (first, rest) = o in
            let (second, _) = rest in
            let o' : Ordered low (n.timestamp ∷ times ((m ∷ ns) ++ fill_the_node position f ∷ [])) =
              (first, (second, a.order.1)) in
            rw (c, put_due)
              (pop-Delivers datacallback 2 low (append_frame datacallback g position f)
                ((m ∷ ns) ++ fill_the_node position f ∷ [])
                (oframe (with_nodes s (n ∷ m ∷ ns)) n ∷ []) a o')
      ]

  put_stored-Delivers :
      (low position : ℕ) (s : Sorter) (f : Frame) (n : Node) (ns : List Node)
      → Sorted (with_nodes s (n ∷ ns))
      → s.maxtimestamp ≤ f.timestamp
      → Ordered low (times (n ∷ ns))
      → Delivers low (put_stored datacallback (with_nodes s (n ∷ ns)) position f n ns)
  unfolding put_stored
  put_stored-Delivers low position s f n [] h le o =
      elim (Bool-cases (ltb s.sort_time (sub64 f.timestamp s.mintimestamp % 2 ^ 32))) [
        | inl e ↦ rw e (record {
          outcome = _;
          some_outcome = refl;
          sorted =
              append_frame-Sorted (record s { frameaddr = add_frameaddr position s.frameaddr })
                position f n [] (readdressed s _ _ h) le;
          order = inl refl;
        })
        | inr e ↦ rw e (record {
          outcome = _;
          some_outcome = refl;
          sorted =
              append_frame-Sorted (record s { frameaddr = add_frameaddr position s.frameaddr })
                position f n [] (readdressed s _ _ h) le;
          order = inl refl;
        })
      ]
  put_stored-Delivers low position s f n (m ∷ ns) h le o =
      let e0 : ltb 0 (length (m ∷ ns)) ≡ true = ground arith in
      elim (Bool-cases (ltb s.sort_time (sub64 f.timestamp s.mintimestamp % 2 ^ 32))) [
        | inl e ↦ rw (e, e0) (put_due-Delivers low position s f n m ns h le o)
        | inr e ↦ rw e (record {
          outcome = _;
          some_outcome = refl;
          sorted =
              append_frame-Sorted (record s { frameaddr = add_frameaddr position s.frameaddr })
                position f n (m ∷ ns) (readdressed s _ _ h) le;
          order = inl refl;
        })
      ]

  pub put_end-Delivers :
      (low now : ℕ) (s : Sorter) (f : Frame) (n : Node) (ns : List Node)
      → Sorted (with_nodes s (n ∷ ns))
      → length f.frame < s.datasize / 2
      → s.maxtimestamp ≤ f.timestamp
      → Ordered low (times (n ∷ ns))
      → Delivers low (put_end datacallback now (with_nodes s (n ∷ ns)) f n ns)
  unfolding put_end
  put_end-Delivers low now s f n ns h l le o =
      let ahead = sub64 f.timestamp s.maxtimestamp % 2 ^ 32 in
      let early = leb s.max_sort_time ahead in
      let count = if early then add32 s.early_frame_count 1 else s.early_frame_count in
      let drop = if early then add32 s.early_frame_drop 1 else 0 in
      let c =
        memcpy-Copied
          (record s { phead = n ∷ ns; early_frame_count = count; early_frame_drop = drop }) f.frame
          h.position_word h.size_word l in
      elim (Bool-cases (early && (ltb 60 drop || ltb 10000000 ahead))) [
        | inl e ↦ rw e (record {
          outcome = _;
          some_outcome = refl;
          sorted = undropped _ 0 (clean-Sorted now _ h.large h.size_word);
          order = inl refl;
        })
        | inr e ↦
            rw (e, c.some_place, put_end)
              (put_stored-Delivers low c.place
                (record s {
                  early_frame_count = count;
                  early_frame_drop = drop;
                  pdata = c.data_bytes;
                  position = c.next;
                })
                f n ns (moved s c.data_bytes c.next count drop (n ∷ ns) c.next_word h) le o)
      ]
