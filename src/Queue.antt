-- ===== src/Queue.antt =====
-- mgw-core/util/source/queue.c: a linked queue behind a head node that holds no data.
pub mod Refine
pub mod Race
mod Tests
use mgw.Prelude.{
  ℕ, zero, suc, ◌+◌, ◌-◌, ◌%◌, ◌^◌, Bool, true, false, ◌&&◌, not, Option, none, some, ltb, ◌==◌,
  if◌then◌else◌, List, [], ◌∷◌,
}

-- The address of a `node_t`; NULL is 0.
abbrev pub Pointer : Type 0
Pointer = ℕ

abbrev pub null : Pointer
null = 0

-- `queue_t` with the `next` fields of the nodes that it leads to. What else a node holds is not
-- read by the queue.
pub record Queue : Type 0 where
  pub head : Pointer
  pub tail : Pointer
  pub length : ℕ
  pub next : Pointer → Pointer

abbrev pub link : (Pointer → Pointer) → Pointer → Pointer → Pointer → Pointer
link next p q r = if r == p then q else next r

-- `q_init`, with the address that `bzalloc` gives the head node.
pub q_init : Pointer → Queue
q_init h = record { head = h; tail = h; length = 0; next = λ p. null }

-- `q_enqueue` of a queue: the new length, 0 for a null node.
pub q_enqueue : Queue → Pointer → ℕ × Queue
q_enqueue q n =
    let grown = record q {
      tail = n;
      length = (q.length + 1) % 2 ^ 64;
      next = link q.next q.tail n;
    } in
    if n == null then (0, q) else (grown.length, grown)

-- The part of `q_dequeue` under the lock; `none` is the read of `n->next` through NULL.
pub q_unlink : Queue → Option (Pointer × Queue)
q_unlink q =
    let n = q.next q.head in
    let shrunk = record q {
      tail = if q.tail == n then q.head else q.tail;
      length = (q.length + 2 ^ 64 - 1) % 2 ^ 64;
      next = link q.next q.head (q.next n);
    } in
    if n == null then none else some (n, shrunk)

-- The test before the lock is taken.
abbrev pub has_nodes : Queue → Bool
has_nodes q = not (q.head == q.tail) && ltb 0 q.length

-- `q_dequeue`: the node, or null.
pub q_dequeue : Queue → Option (Pointer × Queue)
unfolding q_unlink
q_dequeue q = if has_nodes q then q_unlink q else some (null, q)

pub q_lenght : Option Queue → ℕ
q_lenght none = 0
q_lenght (some q) = q.length

pub q_empty : Queue → Bool
q_empty q = q.length == 0 && q.head == q.tail

-- `q_clear` with fuel, and the nodes that it frees in order.
pub q_clear : ℕ → Queue → Option (List Pointer × Queue)
q_clear zero q = none
q_clear (suc fuel) q = elim (q_empty q) [
  | true ↦ some ([], q)
  | false ↦ elim (q_dequeue q) [
    | none ↦ none
    | some (n, q') ↦ elim (q_clear fuel q') [ none ↦ none | some (ns, q'') ↦ some (n ∷ ns, q'') ]
  ]
]
