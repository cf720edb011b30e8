-- ===== src/StreamSort/Order.antt =====
-- Lists of times in order.
use mgw.Prelude.{
  ℕ, suc, ◌≤◌, ◌<◌, ◌≡◌, refl, ap, List, [], ◌∷◌, ◌++◌, length, leb, Bool-cases, inl, inr, arith,
}
use mgw.StreamSort.{Node, Frame, insert_sort_middle}

-- No time is before the one in front of it, nor the first before `low`.
abbrev pub Ordered : ℕ → List ℕ → Type 0
Ordered low [] = Unit {0}
Ordered low (t ∷ ts) = (low ≤ t) × Ordered t ts

abbrev pub last_of : ℕ → List ℕ → ℕ
last_of t [] = t
last_of t (u ∷ us) = last_of u us

abbrev pub times : List Node → List ℕ
times [] = []
times (n ∷ ns) = n.timestamp ∷ times ns

abbrev pub frame_times : List Frame → List ℕ
frame_times [] = []
frame_times (f ∷ fs) = f.timestamp ∷ frame_times fs

pub Ordered-le : (a b : ℕ) (ts : List ℕ) → a ≤ b → Ordered b ts → Ordered a ts
Ordered-le a b [] h o = tt
Ordered-le a b (t ∷ ts) h (l, o) = (omega arith, o)

pub Ordered-append :
    (low t : ℕ) (ts : List ℕ) → Ordered low ts → last_of low ts ≤ t → Ordered low (ts ++ t ∷ [])
Ordered-append low t [] o l = (l, tt)
Ordered-append low t (u ∷ us) (a, o) l = (a, Ordered-append u t us o l)

pub frame_times-append :
    (fs gs : List Frame) → frame_times (fs ++ gs) ≡ frame_times fs ++ frame_times gs
frame_times-append [] gs = refl
frame_times-append (f ∷ fs) gs = ap (λ ts. f.timestamp ∷ ts) (frame_times-append fs gs)

pub times-append : (ms ns : List Node) → times (ms ++ ns) ≡ times ms ++ times ns
times-append [] ns = refl
times-append (m ∷ ms) ns = ap (λ ts. m.timestamp ∷ ts) (times-append ms ns)

-- The next time is repeated.
pub Ordered-repeat :
    (low t : ℕ) (ts us : List ℕ)
    → Ordered low (ts ++ t ∷ us)
    → Ordered low ((ts ++ t ∷ []) ++ t ∷ us)
Ordered-repeat low t [] us (a, o) = (a, (omega arith, o))
Ordered-repeat low t (x ∷ ts) us (a, o) = (a, Ordered-repeat x t ts us o)

pub Ordered-move :
    (low t : ℕ) (ts us : List ℕ) → Ordered low (ts ++ t ∷ us) → Ordered low ((ts ++ t ∷ []) ++ us)
Ordered-move low t [] us o = o
Ordered-move low t (x ∷ ts) us (a, o) = (a, Ordered-move x t ts us o)

pub last_of-append : (x t : ℕ) (ts : List ℕ) → last_of x (ts ++ t ∷ []) ≡ t
last_of-append x t [] = refl
last_of-append x t (u ∷ ts) = last_of-append u t ts

-- What an insertion between two nodes keeps.
pub record Inserted (low t head : ℕ) (ts us : List ℕ) : Type 0 where
  pub order : Ordered low us
  pub last : last_of head us ≡ last_of head ts
  pub size : length us ≡ suc (length ts)

pub insert-Inserted :
    (before low head : ℕ) (ns : List Node) (nd : Node)
    → Ordered low (times ns)
    → low ≤ nd.timestamp
    → nd.timestamp < last_of head (times ns)
    → head ≤ nd.timestamp
    → Inserted low nd.timestamp head (times ns) (times (insert_sort_middle before ns nd).1)
unfolding insert_sort_middle
insert-Inserted before low head [] nd o h l k = absurd (omega arith)
insert-Inserted before low head (p ∷ ps) nd (a, o) h l k =
    elim (Bool-cases (leb p.timestamp nd.timestamp)) [
      | inl e ↦
          let later =
            insert-Inserted p.timestamp p.timestamp p.timestamp ps nd o (ground (arith, e)) l
              (ground (arith, e)) in
          rw e (record { order = (a, later.order); last = later.last; size = ap suc later.size })
      | inr e ↦ rw e (record { order = (h, (ground (arith, e), o)); last = refl; size = refl })
    ]
