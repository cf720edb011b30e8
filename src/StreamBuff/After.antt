-- ===== src/StreamBuff/After.antt =====
-- What one accepted frame does to the window: the frames before it stand as they were, and it
-- stands behind them.
use mgw.Prelude.{
  ℕ, ◌+◌, ◌-◌, ◌%◌, ◌^◌, ◌≤◌, ◌<◌, ◌≡◌, ◌≢◌, sym, ◌∙◌, ap, subst, List, [], ◌∷◌, ◌++◌, length,
  get_or-set_self, get_or-set_ne, length-set, sub32, mod-ne, mod_small, mod_wrap, ring_read,
  ring_read-congr, ring_read_of_holds, arith,
}
use native.Mathlib.Decide.{ℕ_discrete, dec_lt}
use native.Mathlib.Nat.{mod-lt, mod-add-mod}
use mgw.StreamBuff.{MemoryFrame, zero_frame, Memory, Frame, entry, fill, filled, advance}
use mgw.StreamBuff.Cover.{Kept}
use mgw.StreamBuff.Place.{Ready, length-place, place_next, place_holds, place_apart, place-covers}
use mgw.StreamBuff.Window.{IsReady, Holds, Window, total, slot, next_slot, placed}

module _ (m : Memory) (f : Frame) (v : ℕ) (ok : IsReady m)
    (at : (entry m (slot m)).position ≡ v % m.datasize) (some_bytes : 0 < length f.payload)
    (room : length f.payload < m.datasize) where
  Ready-put : Ready m.datasize v (entry m (slot m)).position f.payload m.bytes
  Ready-put = record {
    block = ok.block;
    small = ok.small;
    position = sym at;
    inside = subst (λ p. p < m.datasize) (sym at) (mod-lt v (omega arith));
    room = room;
  }

  abbrev pub mid : Memory
  mid = filled m (placed m f) f

  slot-lt : slot m < length m.frames
  slot-lt = rw ok.table (mod-lt m.writ_frame_count (omega arith))

  entry-mid_self : entry mid (slot m) ≡ fill (entry m (slot m)) f
  entry-mid_self = get_or-set_self m.frames (slot m) _ zero_frame slot-lt

  entry-mid_ne : (j : ℕ) → (slot m ≡ j → ⊥) → entry mid j ≡ entry m j
  entry-mid_ne j h = get_or-set_ne m.frames (slot m) j _ zero_frame h

  pub position-mid : (j : ℕ) → (entry mid j).position ≡ (entry m j).position
  position-mid j = elim (ℕ_discrete (slot m) j) [
    | yes e ↦
        subst (λ i. (entry mid i).position ≡ (entry m i).position) e
          (ap (λ (g : MemoryFrame). g.position) entry-mid_self)
    | no h ↦ ap (λ (g : MemoryFrame). g.position) (entry-mid_ne j h)
  ]

  next_slot-ne : slot m ≢ next_slot m
  next_slot-ne e =
      mod-ne m.writ_frame_count (m.writ_frame_count + 1) m.max_valid_frames (omega arith)
        (omega arith) (e ∙ mod-add-mod m.writ_frame_count m.max_valid_frames 1)

  next_slot-lt : next_slot m < length m.frames
  next_slot-lt = rw ok.table (mod-lt (slot m + 1) (omega arith))

  module _ (m2 : Memory)
      (kept : Kept
        (entry m (slot m)).position
        (placed m f).pos_e
        (sub32 m.max_valid_frames 2)
        (next_slot m)
        mid
        m2) where
    abbrev pub after : Memory
    after = advance (next_slot m) (placed m f).next m2

    entry-after_next : (entry after (next_slot m)).position ≡ (v + length f.payload) % m.datasize
    entry-after_next =
        ap (λ (g : MemoryFrame). g.position)
          (get_or-set_self m2.frames (next_slot m) _ zero_frame
            (rw (kept.table, length-set m.frames (slot m)) next_slot-lt))
        ∙ place_next _ v _ _ _ Ready-put

    entry-after_ne : (j : ℕ) → (next_slot m ≡ j → ⊥) → entry after j ≡ entry m2 j
    entry-after_ne j h = get_or-set_ne m2.frames (next_slot m) j _ zero_frame h

    -- The slot just filled.
    entry-after-slot : entry after (slot m) ≡ fill (entry m (slot m)) f
    entry-after-slot =
        entry-after_ne (slot m) (λ e. next_slot-ne (sym e))
        ∙ elim (dec_lt (slot m) (next_slot m)) [
          | yes h ↦ kept.before (slot m) h
          | no h ↦ kept.beyond (slot m) (wrapped h)
        ]
        ∙ entry-mid_self
      where
        wrapped : ¬ (slot m < next_slot m) → next_slot m + sub32 m.max_valid_frames 2 ≤ slot m
        wrapped h = elim (dec_lt (slot m + 1) m.max_valid_frames) [
          | yes i ↦ absurd (h (omega (arith, mod_small _ _ i)))
          | no i ↦ omega (
            arith,
            mod-lt m.writ_frame_count {m = m.max_valid_frames} (omega arith),
            mod_wrap (slot m + 1) m.max_valid_frames (omega arith) (omega arith),
          )
        ]

    -- A slot that is neither, of a frame that stands before.
    entry-after_older :
        (j a b : ℕ)
        → (slot m ≡ j → ⊥)
        → (next_slot m ≡ j → ⊥)
        → (entry m j).position ≡ a % m.datasize
        → v ≡ a + b
        → 0 < b
        → b + length f.payload < m.datasize
        → entry after j ≡ entry m j
    entry-after_older j a b h k p e l r =
        entry-after_ne j k
        ∙ kept.apart j
            (rw (position-mid j, p) (place-covers _ v _ _ _ Ready-put a b e l r some_bytes))
        ∙ entry-mid_ne j h

    -- The bytes of the frames that stand before.
    bytes-after_older :
        (u n b : ℕ)
        → v ≡ u + b
        → n ≤ b
        → b + length f.payload < m.datasize
        → ring_read after.bytes after.datasize u n ≡ ring_read m.bytes m.datasize u n
    bytes-after_older u n b e h k =
        rw (kept.bytes, kept.datasize)
          (ring_read-congr (placed m f).bytes m.bytes m.datasize u n (λ a p q.
            place_apart _ v _ _ _ Ready-put a (v - a) (omega arith) (omega arith) (omega arith)))

    bytes-after_new : ring_read after.bytes after.datasize v (length f.payload) ≡ f.payload
    bytes-after_new =
        rw (kept.bytes, kept.datasize)
          (ring_read_of_holds (placed m f).bytes f.payload m.datasize v
            (λ k a e h. place_holds _ v _ _ _ Ready-put k a e h))

    count-after : after.writ_frame_count ≡ m.writ_frame_count + 1
    count-after = rw kept.count (omega arith)

    pub IsReady-after : m.writ_frame_count + 1 < 2 ^ 31 → IsReady after
    IsReady-after h = record {
      table =
          length-set m2.frames (next_slot m) _
          ∙ kept.table
          ∙ length-set m.frames (slot m) _
          ∙ ok.table
          ∙ sym kept.capacity;
      block = ap length kept.bytes ∙ length-place _ v _ _ _ Ready-put ∙ sym kept.datasize;
      small = rw kept.datasize ok.small;
      some_frames = rw kept.capacity ok.some_frames;
      capacity = rw kept.capacity ok.capacity;
      count = rw count-after h;
    }

    Holds-after_new : Holds after m.writ_frame_count v f
    Holds-after_new = record {
      some_bytes = some_bytes;
      valid = at_slot (λ g. g.valid);
      position = at_slot (λ g. g.position) ∙ at ∙ ap (λ t. v % t) (sym kept.datasize);
      len = at_slot (λ g. g.len);
      timestamp = at_slot (λ g. g.timestamp);
      frametype = at_slot (λ g. g.frametype);
      priority = at_slot (λ g. g.priority);
      bytes = bytes-after_new;
    }
      where
        at_slot :
            {B : Type 0} (field : MemoryFrame → B)
            → field (entry after (m.writ_frame_count % after.max_valid_frames))
              ≡ field (fill (entry m (slot m)) f)
        at_slot field = rw kept.capacity (ap field entry-after-slot)

    -- A frame that stands before still does.
    Holds-after_older :
        (g : Frame) (i u b : ℕ)
        → Holds m i u g
        → i < m.writ_frame_count
        → m.writ_frame_count + 1 < i + m.max_valid_frames
        → v ≡ u + b
        → length g.payload ≤ b
        → b + length f.payload < m.datasize
        → Holds after i u g
    Holds-after_older g i u b h p q e l r = record {
      some_bytes = h.some_bytes;
      valid = at_slot (λ x. x.valid) ∙ h.valid;
      position = at_slot (λ x. x.position) ∙ h.position ∙ ap (λ t. u % t) (sym kept.datasize);
      len = at_slot (λ x. x.len) ∙ h.len;
      timestamp = at_slot (λ x. x.timestamp) ∙ h.timestamp;
      frametype = at_slot (λ x. x.frametype) ∙ h.frametype;
      priority = at_slot (λ x. x.priority) ∙ h.priority;
      bytes = bytes-after_older u (length g.payload) b e l r ∙ h.bytes;
    }
      where
        off_slot : slot m ≡ i % m.max_valid_frames → ⊥
        off_slot eq = mod-ne i m.writ_frame_count m.max_valid_frames p (omega arith) (sym eq)

        off_next : next_slot m ≡ i % m.max_valid_frames → ⊥
        off_next eq =
            mod-ne i (m.writ_frame_count + 1) m.max_valid_frames (omega arith) (omega arith)
              (sym (sym (mod-add-mod m.writ_frame_count m.max_valid_frames 1) ∙ eq))

        same : entry after (i % m.max_valid_frames) ≡ entry m (i % m.max_valid_frames)
        same =
            entry-after_older (i % m.max_valid_frames) u b off_slot off_next h.position e
              (omega (arith, h.some_bytes)) r

        at_slot :
            {B : Type 0} (field : MemoryFrame → B)
            → field (entry after (i % after.max_valid_frames))
              ≡ field (entry m (i % m.max_valid_frames))
        at_slot field = rw kept.capacity (ap field same)

    -- The window grows by the new frame at its end.
    pub Window-after :
        (fs : List Frame) (i u : ℕ)
        → Window m i u fs
        → u + total fs ≡ v
        → i + length fs ≡ m.writ_frame_count
        → total fs + length f.payload < m.datasize
        → length fs + 2 ≤ m.max_valid_frames
        → Window after i u (fs ++ f ∷ [])
    Window-after [] i u win e n room' slots =
        let e' : v ≡ u = omega arith in
        let n' : i ≡ m.writ_frame_count = omega arith in
        (
          subst (λ j. Holds after j u f) (sym n')
              (subst (λ a. Holds after m.writ_frame_count a f) e' Holds-after_new),
          (omega (arith, kept.count), at_next n' ∙ entry-after_next ∙ same_end e'),
        )
      where
        at_next :
            i ≡ m.writ_frame_count
            → (entry after ((i + 1) % after.max_valid_frames)).position
              ≡ (entry after (next_slot m)).position
        at_next n' =
            rw (kept.capacity, n')
              (ap (λ t. (entry after t).position)
                (sym (mod-add-mod m.writ_frame_count m.max_valid_frames 1)))

        same_end :
            v ≡ u → (v + length f.payload) % m.datasize ≡ (u + length f.payload) % after.datasize
        same_end e' = rw (kept.datasize, e')
    Window-after (g ∷ fs) i u (h, win) e n room' slots = (
      Holds-after_older g i u (length g.payload + total fs) h (omega arith) (omega arith)
          (omega arith) (omega arith) (omega arith),
      Window-after fs (i + 1) (u + length g.payload) win (omega arith) (omega arith) (omega arith)
          (omega arith),
    )
