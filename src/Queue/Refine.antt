-- ===== src/Queue/Refine.antt =====
-- The queue holds its nodes first in, first out.
use mgw.Prelude.{
  ℕ, zero, suc, ◌+◌, ◌-◌, ◌%◌, ◌^◌, ◌<◌, ◌≡◌, ◌≢◌, refl, sym, subst, true, false, some, List, [],
  ◌∷◌, ◌++◌, length, length-append, ◌==◌, if◌then◌else◌, arith,
}
use mgw.Queue.{
  Pointer, null, Queue, link, q_init, q_enqueue, q_unlink, has_nodes, q_dequeue, q_empty, q_clear,
}

-- `p` is none of the nodes.
abbrev pub Off : Pointer → List Pointer → Type 0
Off p [] = Unit {0}
Off p (x ∷ xs) = (p ≢ x) × Off p xs

-- From the node `p` the `next` fields lead through the distinct nodes `xs` to NULL.
abbrev pub Chain : (Pointer → Pointer) → Pointer → List Pointer → Type 0
Chain next p [] = next p ≡ null
Chain next p (x ∷ xs) = (next p ≡ x) × (x ≢ null) × Off p (x ∷ xs) × Chain next x xs

abbrev pub last : Pointer → List Pointer → Pointer
last p [] = p
last p (x ∷ xs) = last x xs

pub record Holds (q : Queue) (xs : List Pointer) : Type 0 where
  pub chain : Chain q.next q.head xs
  pub tail : q.tail ≡ last q.head xs
  pub count : q.length ≡ length xs
  pub small : length xs < 2 ^ 64
  pub some_head : q.head ≢ null

Off-append : (p n : Pointer) (xs : List Pointer) → Off p xs → p ≢ n → Off p (xs ++ n ∷ [])
Off-append p n [] h e = (e, tt)
Off-append p n (x ∷ xs) (a, h) e = (a, Off-append p n xs h e)

-- A change at a node that the chain does not pass.
Chain-link-Off :
    (next : Pointer → Pointer) (p q r : Pointer) (xs : List Pointer)
    → r ≢ p
    → Off r xs
    → Chain next p xs
    → Chain (link next r q) p xs
Chain-link-Off next p q r [] h off c = ground (arith, c)
Chain-link-Off next p q r (x ∷ xs) h (o, off) (e, ne, apart, c) =
    (ground (arith, e), ne, apart, Chain-link-Off next x q r xs o off c)

last-Off : (p r : Pointer) (xs : List Pointer) → r ≢ p → Off r xs → r ≢ last p xs
last-Off p r [] h off = h
last-Off p r (x ∷ xs) h (o, off) = last-Off x r xs o off

-- A node linked behind the last one.
Chain-append :
    (next : Pointer → Pointer) (p n : Pointer) (xs : List Pointer)
    → n ≢ null
    → n ≢ p
    → Off n xs
    → next n ≡ null
    → Chain next p xs
    → Chain (link next (last p xs) n) p (xs ++ n ∷ [])
Chain-append next p n [] ne np off e c =
    (ground arith, ne, ((λ h. np (sym h)), tt), ground (arith, e, np))
Chain-append next p n (x ∷ xs) ne np (o, off) e (f, nx, (apart, rest), c) = (
  ground (arith, f, last-Off x p xs apart rest),
  nx,
  (apart, Off-append p n xs rest (λ h. np (sym h))),
  Chain-append next x n xs ne o off e c,
)

last-append : (p n : Pointer) (xs : List Pointer) → last p (xs ++ n ∷ []) ≡ n
last-append p n [] = refl
last-append p n (x ∷ xs) = last-append x n xs

-- `q_init` gives a queue of no nodes.
q_init-Holds : (h : Pointer) → h ≢ null → Holds (q_init h) []
unfolding q_init
q_init-Holds h ne = record {
  chain = refl;
  tail = refl;
  count = refl;
  small = omega arith;
  some_head = ne;
}

-- A node that may be put: not null, not in the queue, and its own `next` is NULL.
abbrev pub Fresh : Queue → List Pointer → Pointer → Type 0
Fresh q xs n = (n ≢ null) × (n ≢ q.head) × Off n xs × (q.next n ≡ null)

-- `q_enqueue` puts a fresh node behind the others, and returns how many there are then.
pub q_enqueue-Holds :
    (q : Queue) (xs : List Pointer) (n : Pointer)
    → Holds q xs
    → Fresh q xs n
    → length xs + 1 < 2 ^ 64
    → let (count, q') = q_enqueue q n in (count ≡ length xs + 1) × Holds q' (xs ++ n ∷ [])
unfolding q_enqueue
q_enqueue-Holds q xs n h (ne, apart, off, end) room =
    let some_node : (n == null) ≡ false = ground arith in
    rw some_node (
      ground (arith, h.count),
      record {
        chain =
            subst (λ t. Chain (link q.next t n) q.head (xs ++ n ∷ [])) (sym h.tail)
              (Chain-append q.next q.head n xs ne apart off end h.chain);
        tail = sym (last-append q.head n xs);
        count = omega (arith, h.count, length-append xs (n ∷ []));
        small = omega (arith, length-append xs (n ∷ []));
        some_head = h.some_head;
      },
    )

last-ne-head : (p : Pointer) (x : Pointer) (xs : List Pointer) → Off p (x ∷ xs) → p ≢ last x xs
last-ne-head p x [] (a, off) = a
last-ne-head p x (y ∷ xs) (a, off) = last-ne-head p y xs off

-- The queue behind its first node `x`.
abbrev behind_first : Queue → Pointer → Queue
behind_first q x = record q {
  tail = if q.tail == x then q.head else q.tail;
  length = (q.length + 2 ^ 64 - 1) % 2 ^ 64;
  next = link q.next q.head (q.next x);
}

Chain-behind :
    (next : Pointer → Pointer) (h x : Pointer) (xs : List Pointer)
    → Off h (x ∷ xs)
    → Chain next x xs
    → Chain (link next h (next x)) h xs
Chain-behind next h x [] off c = ground (arith, c)
Chain-behind next h x (y ∷ ys) (a, (b, off)) (e, ne, apart, c) =
    (ground (arith, e), ne, (b, off), Chain-link-Off next y (next x) h ys b off c)

tail-behind :
    (q : Queue) (x : Pointer) (xs : List Pointer)
    → q.tail ≡ last x xs
    → Chain q.next x xs
    → (behind_first q x).tail ≡ last q.head xs
tail-behind q x [] e c = ground arith
tail-behind q x (y ∷ ys) e (f, ne, off, c) = ground (arith, last-ne-head x y ys off)

Holds-behind :
    (q : Queue) (x : Pointer) (xs : List Pointer) → Holds q (x ∷ xs) → Holds (behind_first q x) xs
Holds-behind q x xs h =
    let (e, ne, off, c) = h.chain in
    record {
      chain = Chain-behind q.next q.head x xs off c;
      tail = tail-behind q x xs h.tail c;
      count = omega (arith, h.count, h.small);
      small = omega (arith, h.small);
      some_head = h.some_head;
    }

-- `q_dequeue` of a queue that is not empty returns its first node, and never reads through NULL.
pub q_dequeue-Holds :
    (q : Queue) (x : Pointer) (xs : List Pointer)
    → Holds q (x ∷ xs)
    → (q' : Queue) × (q_dequeue q ≡ some (x, q')) × Holds q' xs
unfolding q_dequeue q_unlink
q_dequeue-Holds q x xs h =
    let (e, ne, (a, off), c) = h.chain in
    let some_nodes : has_nodes q ≡ true =
      ground (arith, h.tail, h.count, last-ne-head q.head x xs (a, off)) in
    let node : (x == null) ≡ false = ground arith in
    (behind_first q x, rw (some_nodes, e, node), Holds-behind q x xs h)

-- On the empty queue it returns null and changes nothing.
pub q_dequeue_empty : (q : Queue) → Holds q [] → q_dequeue q ≡ some (null, q)
unfolding q_dequeue
q_dequeue_empty q h = ground arith

q_empty-false : (q : Queue) (x : Pointer) (xs : List Pointer) → Holds q (x ∷ xs) → q_empty q ≡ false
unfolding q_empty
q_empty-false q x xs h = ground (arith, h.count)

q_empty-true : (q : Queue) → Holds q [] → q_empty q ≡ true
unfolding q_empty
q_empty-true q h = ground (arith, h.count, h.tail)

-- `q_clear` ends after as many rounds as there are nodes, has freed each of them once, in order,
-- and leaves the queue empty.
q_clear_lem :
    (xs : List Pointer) (q : Queue) (fuel : ℕ)
    → Holds q xs
    → length xs < fuel
    → (q' : Queue) × (q_clear fuel q ≡ some (xs, q')) × Holds q' []
unfolding q_clear
q_clear_lem [] q zero h l = absurd (omega arith)
q_clear_lem [] q (suc fuel) h l = (q, rw (q_empty-true q h, q_clear), h)
q_clear_lem (x ∷ xs) q zero h l = absurd (omega arith)
q_clear_lem (x ∷ xs) q (suc fuel) h l =
    let (q', e, h') = q_dequeue-Holds q x xs h in
    let (q'', f, h'') = q_clear_lem xs q' fuel h' (omega arith) in
    (q'', rw (q_empty-false q x xs h, q_clear) (rw e (rw f refl)), h'')
