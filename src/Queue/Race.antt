-- ===== src/Queue/Race.antt =====
-- Two consumers of one queue: `q_dequeue` tests for nodes before it takes the lock.
use mgw.Prelude.{◌≡◌, refl, true, false, none, some, [], ◌∷◌, arith}
use mgw.Queue.{Pointer, null, Queue, q_unlink, has_nodes}
use mgw.Queue.Refine.{Holds}

-- Where a consumer stands in its call of `q_dequeue`.
pub data Consumer : Type 0 where
  calling : Consumer
  tested : Consumer
  returned : Pointer → Consumer
  crashed : Consumer

-- The queue, and the two consumers.
pub record State : Type 0 where
  pub queue : Queue
  pub first : Consumer
  pub second : Consumer

-- The unlocked test of `q_dequeue`.
abbrev pub test : Queue → Consumer
test q = elim (has_nodes q) [ true ↦ tested | false ↦ returned null ]

-- The part under the lock, as one step: the consumer's place, and the queue.
abbrev pub locked : Queue → Consumer × Queue
locked q = elim (q_unlink q) [ none ↦ (crashed, q) | some (n, q') ↦ (returned n, q') ]

pub data Step : State → State → Type 0 where
  test_first : (s : State) → s.first ≡ calling → Step s (record s { first = test s.queue })
  test_second : (s : State) → s.second ≡ calling → Step s (record s { second = test s.queue })
  take_first :
      (s : State)
      → s.first ≡ tested
      → Step s (record s { queue = (locked s.queue).1; first = (locked s.queue).0 })
  take_second :
      (s : State)
      → s.second ≡ tested
      → Step s (record s { queue = (locked s.queue).1; second = (locked s.queue).0 })

pub data Reach (s : State) : State → Type 0 where
  here : Reach s s
  next : {t u : State} → Reach s t → Step t u → Reach s u

abbrev pub start : Queue → State
start q = record { queue = q; first = calling; second = calling }

test_passes : (q : Queue) (x : Pointer) → Holds q (x ∷ []) → test q ≡ tested
test_passes q x h = ground arith

locked_first : (q : Queue) (x : Pointer) → Holds q (x ∷ []) → (locked q).0 ≡ returned x
unfolding q_unlink
locked_first q x h = ground (arith, h.chain)

locked_second : (q : Queue) (x : Pointer) → Holds q (x ∷ []) → (locked (locked q).1).0 ≡ crashed
unfolding q_unlink
locked_second q x h = ground (arith, h.chain)

-- With one node in the queue there is an order of steps in which both consumers pass the test,
-- the first takes the node, and the second reads through NULL under the lock.
pub q_dequeue_races :
    (q : Queue) (x : Pointer)
    → Holds q (x ∷ [])
    → (s : State) × Reach (start q) s × (s.first ≡ returned x) × (s.second ≡ crashed)
q_dequeue_races q x h =
    let s1 : State = record (start q) { first = test q } in
    let s2 : State = record s1 { second = test q } in
    let s3 : State = record s2 { queue = (locked q).1; first = (locked q).0 } in
    let s4 : State = record s3 {
      queue = (locked (locked q).1).1;
      second = (locked (locked q).1).0;
    } in
    let passes = test_passes q x h in
    (
      s4,
      next
          (next (next (next here (test_first (start q) refl)) (test_second s1 refl))
            (take_first s2 passes))
          (take_second s3 passes),
      locked_first q x h,
      locked_second q x h,
    )
