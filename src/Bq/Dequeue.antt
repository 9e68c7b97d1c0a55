-- ===== src/Bq/Dequeue.antt =====
-- `boc_bq_dequeue`, `boc_bq_dequeue_all`, `boc_bq_segment_take_one` and `boc_bq_is_empty` against a
-- list of nodes, oldest first.
use bocpy.Base.{ℕ, ◌≡◌, refl, ap, ◌↔◌, true, Option, none, some, List, [], ◌∷◌, arith}
use bocpy.Bq.{
  front_slot, next_in_queue, Links, Bq, Segment, empty_segment, dequeue, dequeue_all,
  segment_take_one, is_empty,
}
use bocpy.Bq.Chain.{Holds, Spans, Chain}

dequeue-none : (q : Bq) → q.front ≡ none → dequeue q ≡ (none, q)
unfolding dequeue
dequeue-none q e = ground arith

dequeue_last :
    (q : Bq) (x : ℕ)
    → q.front ≡ some x
    → q.links x ≡ none
    → q.back ≡ next_in_queue x
    → dequeue q ≡ (some x, record { links = q.links; front = none; back = front_slot })
unfolding dequeue
dequeue_last q x e l b = ground arith

dequeue_more :
    (q : Bq) (x y : ℕ)
    → q.front ≡ some x
    → q.links x ≡ some y
    → dequeue q ≡ (some x, record { links = q.links; front = some y; back = q.back })
unfolding dequeue
dequeue_more q x y e l = ground arith

abbrev pub oldest : List ℕ → Option ℕ
oldest [] = none
oldest (x ∷ xs) = some x

abbrev pub rest : List ℕ → List ℕ
rest [] = []
rest (x ∷ xs) = xs

-- `boc_bq_dequeue` returns the oldest node, or NULL at the empty queue only; it leaves the others in
-- order, and writes no link.
pub dequeue_refines :
    (q : Bq) (xs : List ℕ)
    → Holds q xs
    → ((dequeue q).0 ≡ oldest xs) × Holds (dequeue q).1 (rest xs) × ((dequeue q).1.links ≡ q.links)
dequeue_refines q [] h = rw (dequeue-none q h.chain) (refl, h, refl)
dequeue_refines q (x ∷ []) h =
    rw (dequeue_last q x h.chain.0 h.chain.1 h.at_back)
      (refl, record { chain = refl; at_back = refl; distinct = tt }, refl)
dequeue_refines q (x ∷ y ∷ ys) h = rw (dequeue_more q x y h.chain.0 h.chain.1.0) (
  refl,
  record { chain = (refl, h.chain.1.1); at_back = h.at_back; distinct = h.distinct.1 },
  refl,
)

-- `boc_bq_dequeue_all` empties the queue and hands out all its nodes, in order, as one segment.
pub dequeue_all-none : (q : Bq) → q.front ≡ none → dequeue_all q ≡ (empty_segment, q)
unfolding dequeue_all
dequeue_all-none q e = ground arith

pub dequeue_all-some :
    (q : Bq) (f : ℕ)
    → q.front ≡ some f
    → dequeue_all q ≡ (
      record { start = some f; end = some q.back },
      record { links = q.links; front = none; back = front_slot },
    )
unfolding dequeue_all
dequeue_all-some q f e = ground arith

pub dequeue_all_empty :
    (q : Bq) → Holds q [] → ((dequeue_all q).0 ≡ empty_segment) × Holds (dequeue_all q).1 []
dequeue_all_empty q h = rw (dequeue_all-none q h.chain) (refl, h)

-- At a queue that is not empty, `boc_bq_dequeue_all` hands out all its nodes, in order, as one
-- segment that ends in NULL, leaves the queue empty, and writes no link.
pub dequeue_all-Spans :
    (q : Bq) (x : ℕ) (xs : List ℕ)
    → Holds q (x ∷ xs)
    → Spans q.links (dequeue_all q).0 x xs
      × Holds (dequeue_all q).1 []
      × ((dequeue_all q).1.links ≡ q.links)
dequeue_all-Spans q x xs h = rw (dequeue_all-some q x h.chain.0) (
  record {
    tail = none;
    chain = (refl, h.chain.1);
    at_end = ap some h.at_back;
    distinct = h.distinct;
  },
  record { chain = refl; at_back = refl; distinct = tt },
  refl,
)

pub dequeue_all-Chain :
    (q : Bq) (x : ℕ) (xs : List ℕ)
    → Holds q (x ∷ xs)
    → Chain q.links (dequeue_all q).0.start (x ∷ xs) none
dequeue_all-Chain q x xs h = rw (dequeue_all-some q x h.chain.0) (refl, h.chain.1)

-- `boc_bq_is_empty` tells whether the queue holds no node.
pub is_empty_lem : (q : Bq) (xs : List ℕ) → Holds q xs → (is_empty q ≡ true) ↔ (xs ≡ [])
unfolding is_empty
is_empty_lem q [] h = ground arith
is_empty_lem q (x ∷ xs) h = ground arith

pub segment_take_one_more :
    (links : Links) (s : Segment) (x y : ℕ)
    → s.start ≡ some x
    → links x ≡ some y
    → segment_take_one links s ≡ (some x, record { start = some y; end = s.end })
unfolding segment_take_one
segment_take_one_more links s x y e l = ground arith

pub segment_take_one_end :
    (links : Links) (s : Segment) (x : ℕ)
    → s.start ≡ some x
    → links x ≡ none
    → segment_take_one links s ≡ (none, s)
unfolding segment_take_one
segment_take_one_end links s x e l = ground arith

-- `boc_bq_segment_take_one` takes the first node of a segment of two or more, and leaves a segment
-- of the others.
pub segment_take_one_first :
    (links : Links) (s : Segment) (x y : ℕ) (ys : List ℕ)
    → Spans links s x (y ∷ ys)
    → ((segment_take_one links s).0 ≡ some x) × Spans links (segment_take_one links s).1 y ys
segment_take_one_first links s x y ys g =
    rw (segment_take_one_more links s x y g.chain.0 g.chain.1.0) (
      refl,
      record {
        tail = g.tail;
        chain = (refl, g.chain.1.1);
        at_end = g.at_end;
        distinct = g.distinct.1;
      },
    )

-- The last node of a segment that ends in NULL is never taken.
pub segment_take_one_last :
    (links : Links) (s : Segment) (x : ℕ)
    → Chain links s.start (x ∷ []) none
    → segment_take_one links s ≡ (none, s)
segment_take_one_last links s x c = segment_take_one_end links s x c.0 c.1
