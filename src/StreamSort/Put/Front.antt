-- ===== src/StreamSort/Put/Front.antt =====
-- A frame that takes its place among those that wait.
use mgw.Prelude.{
  ℕ, ◌/◌, ◌%◌, ◌^◌, ◌≤◌, ◌<◌, ◌≡◌, inl, inr, refl, sym, ◌∙◌, true, false, List, ◌∷◌, length, ltb,
  leb, add32, sub64, Bool-cases, arith,
}
use mgw.StreamSort.{Node, Frame, Sorter, insert_sort_middle}
use mgw.StreamSort.Put.{fill_the_node, delay_increase, insert_waiting, put_middle}
use mgw.StreamSort.Order.{insert-Inserted}
use mgw.StreamSort.Sorted.{Sorted}
use mgw.StreamSort.Put.Kept.{
  memcpy-Copied, Delivers, with_nodes, drop_late-Sorted, drop_reversed-Sorted,
}

-- A node before the first one.
front-Sorted :
    (now : ℕ) (s : Sorter) (nd n : Node) (ns : List Node)
    → Sorted (with_nodes s (n ∷ ns))
    → nd.timestamp < s.mintimestamp
    → s.premintimestamp ≤ nd.timestamp
    → (d a : List ℕ) (p v : ℕ) → p < 2 ^ 32
    → Sorted (
        insert_waiting now
          (record s {
            phead = n ∷ ns;
            pdata = d;
            frameaddr = a;
            position = p;
            valid_len = v;
            put_frame_count = add32 s.put_frame_count 1;
            late_frame_drop = 0;
          })
          nd)
unfolding insert_waiting delay_increase
front-Sorted now s nd n ns h lt le d a p v w =
    let b : ltb nd.timestamp s.mintimestamp ≡ true = ground arith in
    let (first, latest) = h.ends in
    let (_, o) = h.order in
    let after : nd.timestamp ≤ n.timestamp = omega arith in
    rw b
      (elim (Bool-cases
        (ltb (add32 s.sort_time (sub64 s.mintimestamp nd.timestamp % 2 ^ 32)) s.max_sort_time)) [
          | inl e ↦ rw e (record {
            order = (le, (after, o));
            ends = (refl, latest);
            count = omega (arith, h.count, h.put_word, h.pop_word);
            large = h.large;
            size_word = h.size_word;
            position_word = w;
            put_word = omega arith;
            pop_word = h.pop_word;
          })
          | inr e ↦ rw e (record {
            order = (le, (after, o));
            ends = (refl, latest);
            count = omega (arith, h.count, h.put_word, h.pop_word);
            large = h.large;
            size_word = h.size_word;
            position_word = w;
            put_word = omega arith;
            pop_word = h.pop_word;
          })
        ])

-- A node between two.
between-Sorted :
    (now : ℕ) (s : Sorter) (nd n : Node) (ns : List Node)
    → Sorted (with_nodes s (n ∷ ns))
    → ltb nd.timestamp s.mintimestamp ≡ false
    → nd.timestamp < s.maxtimestamp
    → (d a : List ℕ) (p v : ℕ) → p < 2 ^ 32
    → Sorted (
        insert_waiting now
          (record s {
            phead = n ∷ ns;
            pdata = d;
            frameaddr = a;
            position = p;
            valid_len = v;
            put_frame_count = add32 s.put_frame_count 1;
            late_frame_drop = 0;
          })
          nd)
unfolding insert_waiting insert_sort_middle
between-Sorted now s nd n ns h ge lt d a p v w =
    let (first, latest) = h.ends in
    let (low, o) = h.order in
    let b : leb n.timestamp nd.timestamp ≡ true = ground (arith, ge) in
    let i =
      insert-Inserted n.timestamp n.timestamp n.timestamp ns nd o (ground (arith, b)) (omega arith)
        (ground (arith, b)) in
    rw ge (
      rw b (record {
        order = (low, i.order);
        ends = (first, latest ∙ sym i.last);
        count = omega (arith, h.count, i.size, h.put_word, h.pop_word);
        large = h.large;
        size_word = h.size_word;
        position_word = w;
        put_word = omega arith;
        pop_word = h.pop_word;
      }))

-- A frame that is before the latest one is dropped or takes its place among those that wait.
pub put_middle-Delivers :
    (low now : ℕ) (s : Sorter) (f : Frame) (n : Node) (ns : List Node)
    → Sorted (with_nodes s (n ∷ ns))
    → length f.frame < s.datasize / 2
    → f.timestamp < s.maxtimestamp
    → Delivers low (put_middle now (with_nodes s (n ∷ ns)) f)
unfolding put_middle
put_middle-Delivers low now s f n ns h l lt =
    elim (Bool-cases (ltb s.max_sort_time (sub64 s.maxtimestamp f.timestamp % 2 ^ 32))) [
      | inl a ↦ rw a (record {
        outcome = _;
        some_outcome = refl;
        sorted = drop_late-Sorted now _ h;
        order = inl refl;
      })
      | inr a ↦ elim (Bool-cases (ltb f.timestamp s.premintimestamp)) [
        | inl b ↦
            rw (a, b)
              (record {
                outcome = _;
                some_outcome = refl;
                sorted = drop_reversed-Sorted now _ f.timestamp (record {
                  order = h.order;
                  ends = h.ends;
                  count = h.count;
                  large = h.large;
                  size_word = h.size_word;
                  position_word = h.position_word;
                  put_word = h.put_word;
                  pop_word = h.pop_word;
                });
                order = inl refl;
              })
        | inr b ↦
            let le : s.premintimestamp ≤ f.timestamp = ground (arith, b) in
            let c =
              memcpy-Copied (record s { phead = n ∷ ns; late_frame_drop = 0 }) f.frame
                h.position_word h.size_word l in
            rw (a, b, c.some_place, put_middle)
              (record {
                outcome = _;
                some_outcome = refl;
                sorted = elim (Bool-cases (ltb f.timestamp s.mintimestamp)) [
                  | inl e ↦
                      front-Sorted now s (fill_the_node c.place f) n ns h (ground (arith, e)) le
                        c.data_bytes _ c.next _ c.next_word
                  | inr e ↦
                      between-Sorted now s (fill_the_node c.place f) n ns h e lt c.data_bytes _
                        c.next _ c.next_word
                ];
                order = inl refl;
              })
      ]
    ]
