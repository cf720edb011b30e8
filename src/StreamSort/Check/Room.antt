-- ===== src/StreamSort/Check/Room.antt =====
-- The check keeps the invariant, and what it can never do.
use mgw.Prelude.{
  ℕ, ◌+◌, ◌*◌, ◌/◌, ◌%◌, ◌^◌, ◌≤◌, ◌<◌, ◌≡◌, inl, inr, refl, sym, subst, ap, false, ◌&&◌, ◌||◌,
  Option, some, List, [], ◌∷◌, replicate, ltb, leb, add32, sub64, Bool-cases, arith,
}
use mgw.StreamSort.{Node, Sorter, max_sort_buff_len, mim_sort_buff_len, clean_sort_buff}
use mgw.StreamSort.Check.{
  default_stream_sort_buff, move_sort_buff, create_stream_sort, relocate, remalloc_sort_buff,
  analyse, check_too_big, check_too_small, note_freesize, check_earliest, check_streambuff,
}
use mgw.StreamSort.Order.{Ordered, Ordered-le, times}
use mgw.StreamSort.Sorted.{Sorted}

pub relocate-times :
    (s : Sorter) (i p : ℕ) (ns : List Node) (d a : List ℕ)
    → times (relocate s i p ns d a).1.0 ≡ times ns
unfolding relocate
relocate-times s i p [] d a = refl
relocate-times s i p (n ∷ ns) d a =
    ap (λ ts. n.timestamp ∷ ts) (relocate-times s (i + 1) (add32 p n.len) ns _ _)

pub relocate-lt :
    (s : Sorter) (i p : ℕ) (ns : List Node) (d a : List ℕ)
    → p < 2 ^ 32
    → (relocate s i p ns d a).1.1 < 2 ^ 32
unfolding relocate
relocate-lt s i p [] d a h = h
relocate-lt s i p (n ∷ ns) d a h = relocate-lt s (i + 1) (add32 p n.len) ns _ _ (omega arith)

-- The buffer that a client goes on with.
pub record Goes (s : Sorter) (o : Option Sorter) : Type 0 where
  pub buff : Sorter
  pub some_buff : o ≡ some buff
  pub sorted : Sorted buff
  pub grown : s.datasize ≤ buff.datasize
  pub kept : (low : ℕ) → Ordered low (times s.phead) → Ordered low (times buff.phead)

remalloc-Goes :
    (now : ℕ) (s : Sorter) (size : ℕ)
    → Sorted s
    → 2 ^ 20 ≤ size
    → s.datasize ≤ size
    → size < 2 ^ 32
    → Goes s (remalloc_sort_buff now s size)
unfolding remalloc_sort_buff create_stream_sort default_stream_sort_buff move_sort_buff
remalloc-Goes now s size h l g w =
    let e : ltb size mim_sort_buff_len ≡ false = ground arith in
    let t = relocate-times s 0 0 s.phead (replicate size 0) s.frameaddr in
    record {
      buff = move_sort_buff (default_stream_sort_buff now size s.sort_time s.max_sort_time) s size;
      some_buff = rw (e, remalloc_sort_buff) refl;
      sorted = record {
        order = rw t (Ordered-le 0 s.premintimestamp (times s.phead) (omega arith) h.order);
        ends = rw t h.ends;
        count = rw t h.count;
        large = l;
        size_word = w;
        position_word = relocate-lt s 0 0 s.phead (replicate size 0) s.frameaddr (omega arith);
        put_word = h.put_word;
        pop_word = h.pop_word;
      };
      grown = g;
      kept = λ low o. rw t o;
    }

clean-Goes : (now : ℕ) (s : Sorter) → Sorted s → Goes s (some (clean_sort_buff now s))
unfolding clean_sort_buff
clean-Goes now s h = record {
  buff = clean_sort_buff now s;
  some_buff = refl;
  sorted = record {
    order = tt;
    ends = refl;
    count = omega arith;
    large = h.large;
    size_word = h.size_word;
    position_word = omega arith;
    put_word = omega arith;
    pop_word = omega arith;
  };
  grown = omega arith;
  kept = λ low o. tt;
}

check_too_small-Goes : (now : ℕ) (s : Sorter) → Sorted s → Goes s (check_too_small now s)
unfolding check_too_small
check_too_small-Goes now s h = elim (Bool-cases (ltb max_sort_buff_len s.datasize)) [
  | inl e ↦ rw e (clean-Goes now s h)
  | inr e ↦
      let small : s.datasize ≤ 8388608 = ground (arith, e) in
      let large = h.large in
      rw e (
        remalloc-Goes now s (s.datasize * 3 % 2 ^ 32 / 2) h (omega arith) (omega arith)
          (omega arith))
]

analyse-Sorted : (now : ℕ) (s : Sorter) → Sorted s → Sorted (analyse now s)
unfolding analyse
analyse-Sorted now s h = elim (Bool-cases (leb 300 (sub64 now s.analytime))) [
  | inl e ↦ rw e (record {
    order = h.order;
    ends = h.ends;
    count = h.count;
    large = h.large;
    size_word = h.size_word;
    position_word = h.position_word;
    put_word = h.put_word;
    pop_word = h.pop_word;
  })
  | inr e ↦ rw e h
]

analyse-phead : (now : ℕ) (s : Sorter) → (analyse now s).phead ≡ s.phead
unfolding analyse
analyse-phead now s = elim (Bool-cases (leb 300 (sub64 now s.analytime))) [
  | inl e ↦ rw e refl
  | inr e ↦ rw e refl
]

analyse-datasize : (now : ℕ) (s : Sorter) → (analyse now s).datasize ≡ s.datasize
unfolding analyse
analyse-datasize now s = elim (Bool-cases (leb 300 (sub64 now s.analytime))) [
  | inl e ↦ rw e refl
  | inr e ↦ rw e refl
]

note_freesize-Goes : (a b : ℕ) (s : Sorter) → Sorted s → Goes s (some (note_freesize a b s))
unfolding note_freesize
note_freesize-Goes a b s h = record {
  buff = note_freesize a b s;
  some_buff = refl;
  sorted = record {
    order = h.order;
    ends = h.ends;
    count = h.count;
    large = h.large;
    size_word = h.size_word;
    position_word = h.position_word;
    put_word = h.put_word;
    pop_word = h.pop_word;
  };
  grown = omega arith;
  kept = λ low o. o;
}

-- After the analysis of `CheckStreambuff`, the branch for a buffer that is too big never does anything: what its test of
-- fifteen minutes reads was set to the present by the analysis after five.
pub check_too_big-analyse :
    (now : ℕ) (s : Sorter) → check_too_big now (analyse now s) ≡ analyse now s
unfolding check_too_big analyse
check_too_big-analyse now s = elim (Bool-cases (leb 300 (sub64 now s.analytime))) [
  | inl e ↦ rw e (let f : leb 900 (sub64 now now) ≡ false = ground arith in rw f refl)
  | inr e ↦ let f : leb 900 (sub64 now s.analytime) ≡ false = ground (arith, e) in rw e (rw f refl)
]

Goes-none : (s : Sorter) → Sorted s → Goes s (some s)
Goes-none s h = record {
  buff = s;
  some_buff = refl;
  sorted = h;
  grown = omega arith;
  kept = λ low o. o;
}

-- What goes on from the analysed buffer goes on from the buffer.
analysed-Goes : (now : ℕ) (s : Sorter) (o : Option Sorter) → Goes (analyse now s) o → Goes s o
analysed-Goes now s o g = record {
  buff = g.buff;
  some_buff = g.some_buff;
  sorted = g.sorted;
  grown = omega (arith, analyse-datasize now s, g.grown);
  kept = λ low q. g.kept low (subst (λ ns. Ordered low (times ns)) (sym (analyse-phead now s)) q);
}

check_earliest-Goes :
    (now : ℕ) (s : Sorter) (frame_len earliest : ℕ)
    → Sorted s
    → Goes s (check_earliest now s frame_len earliest)
unfolding check_earliest
check_earliest-Goes now s frame_len earliest h = elim (Bool-cases (leb s.put_frame_count 2)) [
  | inl a ↦ rw a (Goes-none s h)
  | inr a ↦ elim (Bool-cases (leb (add32 s.position frame_len) s.datasize)) [
    | inl b ↦
        elim (Bool-cases (leb s.position earliest && leb earliest (add32 s.position frame_len))) [
          | inl c ↦ rw (a, b, c) (check_too_small-Goes now s h)
          | inr c ↦ rw (a, b, c) (note_freesize-Goes _ _ s h)
        ]
    | inr b ↦ elim (Bool-cases (leb s.position earliest || leb earliest frame_len)) [
      | inl c ↦
          rw (a, b, c)
            (analysed-Goes now s _
              (check_too_small-Goes now (analyse now s) (analyse-Sorted now s h)))
      | inr c ↦
          rw (a, b, c)
            (rw (check_too_big-analyse now s) (
              analysed-Goes now s _
                (note_freesize-Goes _ _ (analyse now s) (analyse-Sorted now s h))))
    ]
  ]
]

-- Of a sorted buffer the check makes a sorted buffer, never NULL and never smaller, with no node before a time that none was before.
pub check_streambuff-Goes :
    (now : ℕ) (s : Sorter) (frame_len : ℕ) → Sorted s → Goes s (check_streambuff now s frame_len)
unfolding check_streambuff
check_streambuff-Goes now s frame_len h = go s.frameaddr
  where
    go :
        (addrs : List ℕ)
        → Goes s
            (elim addrs [ [] ↦ some s | earliest ∷ _ ↦ check_earliest now s frame_len earliest ])
    go [] = Goes-none s h
    go (earliest ∷ _) = check_earliest-Goes now s frame_len earliest h
