-- ===== src/MallocMemory/Contexts/Invariant/Close.antt =====
-- DeleteStreamBuff keeps the invariant and does not fail.
use mgw.Prelude.{
  ℕ, ◌+◌, ◌-◌, ◌<◌, ◌≡◌, refl, sym, ◌∙◌, ap, true, false, Option, none, some, List, [], ◌∷◌, length,
  get_elem?, ◌==◌, Bool-cases, inl, inr, arith, subst,
}
use mgw.StreamBuff.{Memory}
use mgw.MallocMemory.{
  Node, Globals, null, nodes, list_init, list_de, unlink, list_free, put_block, free_block,
  drop_count, delete_malloc_memory,
}
use mgw.MallocMemory.Contexts.{BuffContext, count_out, unused, delete_stream_buff}
use mgw.MallocMemory.Contexts.Steps.{System, drop_at}
use mgw.MallocMemory.Contexts.Lookup.{AllLive, Finds, put_block-AllLive, put_block_self, in_block}
use mgw.MallocMemory.Contexts.Unlink.{
  Finds-Live, unlink-Distinct, unlink-AllLive, unlink-Finds, length-unlink,
}
use mgw.MallocMemory.Contexts.Owners.{
  writers, readers, users-le-length, writers-drop_at, readers-drop_at, length-drop_at, AllOf-get,
  AllOf-drop_at, AllOf-others,
}
use mgw.MallocMemory.Contexts.Invariant.{HeadOf, Listed, Linked, Tally, Inv, HeadOf-blocks}

-- The end of DeleteMallocMemory frees the first node where it is the last one.
drop_count-HeadOf :
    (us : List Node) (g : Globals)
    → g.g_memory_head ≡ nodes (list_init ∷ us)
    → g.g_memory_nu ≡ length us + 2
    → (g' : Globals) × (drop_count g ≡ some g') × HeadOf us g' × (g'.blocks ≡ g.blocks)
unfolding drop_count
drop_count-HeadOf [] g h n =
    (record g { g_memory_nu = 0; g_memory_head = null }, ground (arith, h, n), refl, refl)
drop_count-HeadOf (u ∷ us) g h n =
    (record g { g_memory_nu = g.g_memory_nu - 1 }, ground (arith, n), (h, omega (arith, n)), refl)

module _ (s : System) (i : ℕ) (c : BuffContext) (m : Memory) (at : get_elem? s.contexts i ≡ some c)
    (live : s.globals.blocks c.block ≡ some m) (v : Inv s) where
  abbrev left : List BuffContext
  left = drop_at i s.contexts

  -- The counts without the context.
  count_out-Tally : Tally left c.block (count_out c.mode m)
  unfolding count_out
  count_out-Tally = record {
    writer = ground (
      arith,
      (v.tally c.block m live).writer,
      (v.tally c.block m live).single,
      writers-drop_at c.block i s.contexts c at,
      v.few,
    );
    reader = ground (
      arith,
      (v.tally c.block m live).reader,
      readers-drop_at c.block i s.contexts c at,
      users-le-length c.block s.contexts,
      v.few,
    );
    single =
        ground (arith, (v.tally c.block m live).single, writers-drop_at c.block i s.contexts c at);
  }

  apart-Tally :
      (b : ℕ) (k : Memory) → (c.block ≡ b → ⊥) → s.globals.blocks b ≡ some k → Tally left b k
  apart-Tally b k ne e = record {
    writer = ground (arith, (v.tally b k e).writer, writers-drop_at b i s.contexts c at, ne);
    reader = ground (arith, (v.tally b k e).reader, readers-drop_at b i s.contexts c at, ne);
    single = ground (arith, (v.tally b k e).single, writers-drop_at b i s.contexts c at, ne);
  }

  apart_used :
      (b : ℕ) (k : Memory)
      → (c.block ≡ b → ⊥)
      → s.globals.blocks b ≡ some k
      → 0 < writers b left + readers b left
  apart_used b k ne e = ground (
    arith,
    v.used b k e,
    writers-drop_at b i s.contexts c at,
    readers-drop_at b i s.contexts c at,
    ne,
  )

  abbrev without : ℕ → Option Memory
  without = put_block c.block (some (count_out c.mode m)) s.globals.blocks

  abbrev counted : Globals
  counted = record s.globals { blocks = without }

  -- Others still use the block.
  kept-Inv :
      unused (count_out c.mode m) ≡ false → Inv (record { globals = counted; contexts = left })
  kept-Inv e = record {
    behind = v.behind;
    linked = record {
      head = HeadOf-blocks v.behind s.globals _ v.linked.head;
      distinct = v.linked.distinct;
      live = put_block-AllLive c.block _ s.globals.blocks v.behind v.linked.live;
      listed = AllOf-drop_at (Listed v.behind) i s.contexts v.linked.listed;
    };
    tally =
        in_block c.block (count_out c.mode m) s.globals.blocks (Tally left) count_out-Tally
          apart-Tally;
    used =
        in_block c.block (count_out c.mode m) s.globals.blocks
          (λ b k. 0 < writers b left + readers b left)
          (ground (arith, e, count_out-Tally.writer, count_out-Tally.reader)) apart_used;
    few = omega (arith, v.few, length-drop_at i s.contexts);
  }

  own : Listed v.behind c
  own = AllOf-get (Listed v.behind) i s.contexts c at v.linked.listed

  abbrev gone : ℕ → Option Memory
  gone = put_block c.block none without

  gone_elsewhere :
      (b : ℕ) (k : Memory) → gone b ≡ some k → (c.block ≡ b → ⊥) × (s.globals.blocks b ≡ some k)
  gone_elsewhere b k e = elim (Bool-cases (c.block == b)) [
    | inl h ↦ ground (arith, h, e)
    | inr h ↦ (λ same. ground (arith, h, same), ground (arith, h, e))
  ]

  -- No context is left that uses the block.
  gone-Inv :
      (ns : List Node) (g : Globals)
      → Linked s.globals ns s.contexts
      → Finds ns c.name c.block
      → unused (count_out c.mode m) ≡ true
      → HeadOf (unlink ns c.name) g
      → g.blocks ≡ gone
      → Inv (record { globals = g; contexts = left })
  gone-Inv ns g l found e h b =
      let us = unlink ns c.name in
      let z : writers c.block left + readers c.block left ≡ 0 =
        ground (arith, e, count_out-Tally.writer, count_out-Tally.reader) in
      let at_gone : (x : ℕ) (k : Memory) → g.blocks x ≡ some k → gone x ≡ some k =
        λ x k f. sym (ap (λ (bs : ℕ → Option Memory). bs x) b) ∙ f in
      record {
        behind = us;
        linked = record {
          head = h;
          distinct = unlink-Distinct ns c.name l.distinct;
          live =
              subst (λ bs. AllLive bs us) (sym b)
                (unlink-AllLive ns c.name c.block without l.distinct found
                  (put_block-AllLive c.block _ s.globals.blocks ns l.live));
          listed =
              AllOf-others (Listed ns) (Listed us) c.block left
                (λ d ne (f, other).
                  (unlink-Finds ns c.name d.name c.block d.block found f ne, other))
                z (AllOf-drop_at (Listed ns) i s.contexts l.listed);
        };
        tally =
            λ x k f. let (ne, old) = gone_elsewhere x k (at_gone x k f) in apart-Tally x k ne old;
        used = λ x k f. let (ne, old) = gone_elsewhere x k (at_gone x k f) in apart_used x k ne old;
        few = omega (arith, v.few, length-drop_at i s.contexts);
      }

  -- The last user of the block is gone, and the block with it.
  freed-Inv :
      (ns : List Node)
      → Linked s.globals ns s.contexts
      → Listed ns c
      → unused (count_out c.mode m) ≡ true
      → (g : Globals) × (delete_malloc_memory c.name counted ≡ some g)
        × Inv (record { globals = g; contexts = left })
  unfolding delete_malloc_memory list_de list_free free_block
  freed-Inv [] l ((nd, f, p), other) e = ground arith
  freed-Inv (n ∷ ns) l ((nd, f, p), other) e =
      let found : Finds (n ∷ ns) c.name c.block = (nd, f, p) in
      let us = unlink (n ∷ ns) c.name in
      let (g, d, h, b) =
        drop_count-HeadOf us
          (record {
            g_memory_head = nodes (list_init ∷ us);
            g_memory_nu = s.globals.g_memory_nu;
            blocks = gone;
          })
          refl (omega (arith, l.head.1, length-unlink (n ∷ ns) c.name c.block found)) in
      let own_block : without c.block ≡ some (count_out c.mode m) =
        put_block_self c.block _ s.globals.blocks in
      (g, ground (arith, l.head.0, other, f, p, own_block, d), gone-Inv (n ∷ ns) g l found e h b)

-- DeleteStreamBuff of an open context returns, and keeps the invariant.
pub delete_stream_buff-Inv :
    (s : System) (i : ℕ) (c : BuffContext)
    → get_elem? s.contexts i ≡ some c
    → Inv s
    → (g : Globals) × (delete_stream_buff c s.globals ≡ some g)
      × Inv (record { globals = g; contexts = drop_at i s.contexts })
unfolding delete_stream_buff
delete_stream_buff-Inv s i c at v =
    let own = AllOf-get (Listed v.behind) i s.contexts c at v.linked.listed in
    let (m, live) = Finds-Live v.behind c.name c.block s.globals.blocks v.linked.live own.0 in
    elim (Bool-cases (unused (count_out c.mode m))) [
      | inl e ↦
          let (g, d, inv) = freed-Inv s i c m at live v v.behind v.linked own e in
          (g, ground (arith, live, e, d), inv)
      | inr e ↦ (_, ground (arith, live, e), kept-Inv s i c m at live v e)
    ]
