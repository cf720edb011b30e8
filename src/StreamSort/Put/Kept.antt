-- ===== src/StreamSort/Put/Kept.antt =====
-- The branches that keep the nodes or begin anew.
use mgw.Prelude.{
  ℕ, ◌/◌, ◌%◌, ◌^◌, ◌≤◌, ◌<◌, ◌≡◌, ◌⊎◌, inl, inr, refl, false, ◌&&◌, Option, some, List, [], ◌++◌,
  length, ltb, leb, ◌==◌, if◌then◌else◌, add32, sub64, Bool-cases, arith,
}
use mgw.StreamSort.{Node, Frame, Sorter, clean_sort_buff, memcpy_to_sort_buff}
use mgw.StreamSort.Put.{Outcome, put_first, delay_increase, drop_late, drop_reversed}
use mgw.StreamSort.Order.{Ordered, times, frame_times}
use mgw.StreamSort.Sorted.{Sorted}

-- What `MemcpyToSortBuff` does not touch, and that it does not fail on a frame of less than half the size.
pub record Copied (s : Sorter) (o : Option (ℕ × Sorter)) : Type 0 where
  pub place : ℕ
  pub data_bytes : List ℕ
  pub next : ℕ
  pub some_place : o ≡ some (place, record s { pdata = data_bytes; position = next })
  pub next_word : next < 2 ^ 32

pub memcpy-Copied :
    (s : Sorter) (frame : List ℕ)
    → s.position < 2 ^ 32
    → s.datasize < 2 ^ 32
    → length frame < s.datasize / 2
    → Copied s (memcpy_to_sort_buff s frame)
unfolding memcpy_to_sort_buff
memcpy-Copied s frame hp hd hl =
    elim (Bool-cases (leb (add32 s.position (length frame)) s.datasize)) [
      | inl e ↦ rw e (record {
        place = s.position;
        data_bytes = _;
        next =
            if add32 s.position (length frame) == s.datasize
            then 0
            else add32 s.position (length frame);
        some_place = refl;
        next_word = ground arith;
      })
      | inr e ↦
          let f : ltb s.position (length frame) ≡ false = ground (arith, e) in
          rw (e, f)
            (record {
              place = 0;
              data_bytes = _;
              next = length frame;
              some_place = refl;
              next_word = omega arith;
            })
    ]

-- The call returns, its buffer is sorted, and the frames that it delivers, with those that wait behind them, are in order from `low` on.
pub record Delivers (low : ℕ) (o : Option Outcome) : Type 0 where
  pub outcome : Outcome
  pub some_outcome : o ≡ some outcome
  pub sorted : Sorted outcome.buff
  pub order :
      (outcome.delivered ≡ [])
      ⊎ Ordered low (frame_times outcome.delivered ++ times outcome.buff.phead)

pub clean-Sorted :
    (now : ℕ) (s : Sorter)
    → 2 ^ 20 ≤ s.datasize
    → s.datasize < 2 ^ 32
    → Sorted (clean_sort_buff now s)
unfolding clean_sort_buff
clean-Sorted now s l w = record {
  order = tt;
  ends = refl;
  count = omega arith;
  large = l;
  size_word = w;
  position_word = omega arith;
  put_word = omega arith;
  pop_word = omega arith;
}

-- The buffer with the given nodes.
abbrev pub with_nodes : Sorter → List Node → Sorter
with_nodes s ns = record s { phead = ns }

pub put_first-Delivers :
    (low : ℕ) (s : Sorter) (f : Frame)
    → Sorted (with_nodes s [])
    → length f.frame < s.datasize / 2
    → Delivers low (put_first (with_nodes s []) f)
unfolding put_first
put_first-Delivers low s f h l =
    let c = memcpy-Copied (with_nodes s []) f.frame h.position_word h.size_word l in
    rw (c.some_place, put_first)
      (record {
        outcome = _;
        some_outcome = refl;
        sorted = record {
          order = (omega arith, tt);
          ends = (refl, refl);
          count = ground (arith, h.ends);
          large = h.large;
          size_word = h.size_word;
          position_word = c.next_word;
          put_word = omega arith;
          pop_word = h.pop_word;
        };
        order = inl refl;
      })

-- The longer delay changes three numbers that the invariant does not mention.
delay_increase-Sorted : (now : ℕ) (s : Sorter) (t : ℕ) → Sorted s → Sorted (delay_increase now s t)
unfolding delay_increase
delay_increase-Sorted now s t h =
    elim (Bool-cases (
      ltb t s.mintimestamp
      && ltb (add32 s.sort_time (sub64 s.mintimestamp t % 2 ^ 32)) s.max_sort_time)) [
        | inl e ↦ rw e (record {
          order = h.order;
          ends = h.ends;
          count = h.count;
          large = h.large;
          size_word = h.size_word;
          position_word = h.position_word;
          put_word = h.put_word;
          pop_word = h.pop_word;
        })
        | inr e ↦ rw e h
      ]

pub drop_late-Sorted : (now : ℕ) (s : Sorter) → Sorted s → Sorted (drop_late now s)
unfolding drop_late
drop_late-Sorted now s h = elim (Bool-cases (ltb 60 (add32 s.late_frame_drop 1))) [
  | inl e ↦ rw e (clean-Sorted now _ h.large h.size_word)
  | inr e ↦ rw e (record {
    order = h.order;
    ends = h.ends;
    count = h.count;
    large = h.large;
    size_word = h.size_word;
    position_word = h.position_word;
    put_word = h.put_word;
    pop_word = h.pop_word;
  })
]

pub drop_reversed-Sorted :
    (now : ℕ) (s : Sorter) (t : ℕ) → Sorted s → Sorted (drop_reversed now s t)
unfolding drop_reversed
drop_reversed-Sorted now s t h = delay_increase-Sorted now _ t (record {
  order = h.order;
  ends = h.ends;
  count = h.count;
  large = h.large;
  size_word = h.size_word;
  position_word = h.position_word;
  put_word = h.put_word;
  pop_word = h.pop_word;
})
