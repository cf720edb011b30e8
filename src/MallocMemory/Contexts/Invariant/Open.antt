-- ===== src/MallocMemory/Contexts/Invariant/Open.antt =====
-- CreateStreamBuff keeps the invariant and does not fail.
use mgw.Prelude.{ℕ, ◌+◌, ◌<◌, ◌≡◌, refl, Bool, false, Option, none, some, List, ◌∷◌, length, arith}
use mgw.StreamBuff.{Memory}
use mgw.MallocMemory.{
  Node, Globals, list_head, name_size, strncmp_same, stored_name, put_block, IoMode, io_mode_read,
  io_mode_write,
}
use mgw.MallocMemory.Contexts.{BuffContext, context, count_in, attach}
use mgw.MallocMemory.Contexts.Lookup.{Finds, put_block-AllLive, in_block}
use mgw.MallocMemory.Contexts.Owners.{writers, readers, users-le-length}
use mgw.MallocMemory.Contexts.Invariant.{Linked, Tally, Inv, HeadOf-blocks}

-- The open contexts after a call.
abbrev pub joined : Option BuffContext → List BuffContext → List BuffContext
joined none cs = cs
joined (some c) cs = c ∷ cs

-- A mode in which the block can be opened.
abbrev pub Free : IoMode → ℕ → Type 0
Free io_mode_read w = Unit {0}
Free io_mode_write w = w ≡ 0

module _ (g : Globals) (ns : List Node) (cs : List BuffContext) (name : List ℕ) (a : ℕ) (m : Memory)
    (linked : Linked g ns cs) (found : Finds ns (stored_name name) a)
    (other : strncmp_same name_size list_head (stored_name name) ≡ false) (t : Tally cs a m)
    (rest : (b : ℕ) (k : Memory) → (a ≡ b → ⊥) → g.blocks b ≡ some k → Tally cs b k)
    (used : (b : ℕ) (k : Memory)
      → (a ≡ b → ⊥)
      → g.blocks b ≡ some k
      → 0 < writers b cs + readers b cs)
    (few : length cs < 255) where
  count_in-Tally :
      (mode : IoMode) (rbt : Bool)
      → Free mode m.writer_count
      → Tally (context a name mode rbt ∷ cs) a (count_in mode m)
  unfolding count_in
  count_in-Tally io_mode_read rbt free = record {
    writer = ground (arith, t.writer);
    reader = ground (arith, t.reader, users-le-length a cs);
    single = ground (arith, t.single);
  }
  count_in-Tally io_mode_write rbt free = record {
    writer = ground (arith, t.writer, free);
    reader = ground (arith, t.reader);
    single = ground (arith, t.writer, free);
  }

  apart-Tally :
      (mode : IoMode) (rbt : Bool) (b : ℕ) (k : Memory)
      → (a ≡ b → ⊥)
      → g.blocks b ≡ some k
      → Tally (context a name mode rbt ∷ cs) b k
  apart-Tally io_mode_read rbt b k ne e = record {
    writer = ground (arith, (rest b k ne e).writer);
    reader = ground (arith, (rest b k ne e).reader, ne);
    single = ground (arith, (rest b k ne e).single);
  }
  apart-Tally io_mode_write rbt b k ne e = record {
    writer = ground (arith, (rest b k ne e).writer, ne);
    reader = ground (arith, (rest b k ne e).reader);
    single = ground (arith, (rest b k ne e).single, ne);
  }

  new_used :
      (mode : IoMode) (rbt : Bool)
      → 0 < writers a (context a name mode rbt ∷ cs) + readers a (context a name mode rbt ∷ cs)
  new_used io_mode_read rbt = ground arith
  new_used io_mode_write rbt = ground arith

  apart_used :
      (mode : IoMode) (rbt : Bool) (b : ℕ) (k : Memory)
      → (a ≡ b → ⊥)
      → g.blocks b ≡ some k
      → 0 < writers b (context a name mode rbt ∷ cs) + readers b (context a name mode rbt ∷ cs)
  apart_used io_mode_read rbt b k ne e = ground (arith, used b k ne e)
  apart_used io_mode_write rbt b k ne e = ground (arith, used b k ne e)

  abbrev with_user : IoMode → Globals
  with_user mode = record g { blocks = put_block a (some (count_in mode m)) g.blocks }

  attached-Inv :
      (mode : IoMode) (rbt : Bool)
      → Free mode m.writer_count
      → Inv (record { globals = with_user mode; contexts = context a name mode rbt ∷ cs })
  attached-Inv mode rbt free =
      let cs' = context a name mode rbt ∷ cs in
      record {
        behind = ns;
        linked = record {
          head = HeadOf-blocks ns g _ linked.head;
          distinct = linked.distinct;
          live = put_block-AllLive a (count_in mode m) g.blocks ns linked.live;
          listed = ((found, other), linked.listed);
        };
        tally =
            in_block a (count_in mode m) g.blocks (Tally cs') (count_in-Tally mode rbt free)
              (apart-Tally mode rbt);
        used =
            in_block a (count_in mode m) g.blocks (λ b k. 0 < writers b cs' + readers b cs')
              (new_used mode rbt) (apart_used mode rbt);
        few = omega (arith, few);
      }

  pub attach-Inv :
      (mode : IoMode) (rbt : Bool)
      → Free mode m.writer_count
      → (o : Option BuffContext) × (g' : Globals) × (attach a m name mode rbt g ≡ (o, g'))
        × Inv (record { globals = g'; contexts = joined o cs })
  unfolding attach
  attach-Inv io_mode_read rbt free = (
    some (context a name io_mode_read rbt),
    with_user io_mode_read,
    refl,
    attached-Inv io_mode_read rbt free,
  )
  attach-Inv io_mode_write rbt free = (
    some (context a name io_mode_write rbt),
    with_user io_mode_write,
    rw free refl,
    attached-Inv io_mode_write rbt free,
  )
