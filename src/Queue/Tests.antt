-- ===== src/Queue/Tests.antt =====
-- Runs of queue.c, and its theorems at a queue of two nodes.
use mgw.Prelude.{◌≡◌, refl, some, [], ◌∷◌, ◌==◌, if◌then◌else◌, arith}
use mgw.Queue.{Pointer, Queue, q_init, q_enqueue, q_dequeue, q_lenght}
use mgw.Queue.Refine.{Holds, q_enqueue-Holds, q_dequeue-Holds}
use mgw.Queue.Race.{State, Reach, start, returned, crashed, q_dequeue_races}

-- The head node at 10, then the nodes 20 and 30.
abbrev links : Pointer → Pointer
links p = if p == 10 then 20 else if p == 20 then 30 else 0

abbrev two_nodes : Queue
two_nodes = record { head = 10; tail = 30; length = 2; next = links }

abbrev one_node : Queue
one_node = record { head = 10; tail = 20; length = 1; next = λ p. if p == 10 then 20 else 0 }

two_nodes-Holds : Holds two_nodes (20 ∷ 30 ∷ [])
two_nodes-Holds = record {
  chain = (
    refl,
    (λ h. omega arith),
    ((λ h. omega arith), ((λ h. omega arith), tt)),
    (refl, (λ h. omega arith), ((λ h. omega arith), tt), refl),
  );
  tail = refl;
  count = refl;
  small = omega arith;
  some_head = λ h. omega arith;
}

one_node-Holds : Holds one_node (20 ∷ [])
one_node-Holds = record {
  chain = (refl, (λ h. omega arith), ((λ h. omega arith), tt), refl);
  tail = refl;
  count = refl;
  small = omega arith;
  some_head = λ h. omega arith;
}

enqueue_counts : (q_enqueue two_nodes 40).0 ≡ 3
unfolding q_enqueue
enqueue_counts = refl

length_of_new : q_lenght (some (q_init 10)) ≡ 0
unfolding q_lenght q_init
length_of_new = refl

q_enqueue-Holds_example :
    let (count, q) = q_enqueue two_nodes 40 in (count ≡ 3) × Holds q (20 ∷ 30 ∷ 40 ∷ [])
q_enqueue-Holds_example =
    q_enqueue-Holds two_nodes (20 ∷ 30 ∷ []) 40 two_nodes-Holds
      ((λ h. omega arith), (λ h. omega arith), ((λ h. omega arith), ((λ h. omega arith), tt)), refl)
      (omega arith)

q_dequeue-Holds_example : (q : Queue) × (q_dequeue two_nodes ≡ some (20, q)) × Holds q (30 ∷ [])
q_dequeue-Holds_example = q_dequeue-Holds two_nodes 20 (30 ∷ []) two_nodes-Holds

q_dequeue_races_example :
    (s : State) × Reach (start one_node) s × (s.first ≡ returned 20) × (s.second ≡ crashed)
q_dequeue_races_example = q_dequeue_races one_node 20 one_node-Holds
