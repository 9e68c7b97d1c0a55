-- ===== src/Bq/Refine.antt =====
-- A queue of the scheduler behaves as the list of nodes that it holds, over any run of operations.
use bocpy.Base.{ℕ, ◌≡◌, refl, ap₂, Option, List, [], ◌∷◌, ◌++◌, NotIn}
use bocpy.Bq.{Bq, Links, init, enqueue, enqueue_front, dequeue}
use bocpy.Bq.Chain.{Holds}
use bocpy.Bq.Enqueue.{enqueue_appends, enqueue_front_prepends}
use bocpy.Bq.Dequeue.{oldest, rest, dequeue_refines}

pub data Op : Type 0 where
  push : ℕ → Op
  push_front : ℕ → Op
  pop : Op

-- What the pops of a run return.
unfoldable pub run : Bq → List Op → List (Option ℕ)
run q [] = []
run q (push n ∷ ops) = run (enqueue q n) ops
run q (push_front n ∷ ops) = run (enqueue_front q n) ops
run q (pop ∷ ops) = (dequeue q).0 ∷ run (dequeue q).1 ops

-- The same of a plain list, oldest first.
unfoldable pub run_list : List ℕ → List Op → List (Option ℕ)
run_list xs [] = []
run_list xs (push n ∷ ops) = run_list (xs ++ (n ∷ [])) ops
run_list xs (push_front n ∷ ops) = run_list (n ∷ xs) ops
run_list xs (pop ∷ ops) = oldest xs ∷ run_list (rest xs) ops

-- No node is put in while it is in the queue.
abbrev pub IsFresh : List ℕ → List Op → Type 0
IsFresh xs [] = Unit
IsFresh xs (push n ∷ ops) = NotIn n xs × IsFresh (xs ++ (n ∷ [])) ops
IsFresh xs (push_front n ∷ ops) = NotIn n xs × IsFresh (n ∷ xs) ops
IsFresh xs (pop ∷ ops) = IsFresh (rest xs) ops

pub init-Holds : (links : Links) → Holds (init links) []
unfolding init
init-Holds links = record { chain = refl; at_back = refl; distinct = tt }

-- Over any sequence of enqueues at either end and dequeues, in which no node is put in while it is
-- in the queue, a queue that holds the nodes `xs` returns what the list `xs` returns.
pub run_refines :
    (ops : List Op) (q : Bq) (xs : List ℕ)
    → Holds q xs
    → IsFresh xs ops
    → run q ops ≡ run_list xs ops
unfolding run run_list
run_refines [] q xs h f = refl
run_refines (push n ∷ ops) q xs h f =
    run_refines ops (enqueue q n) (xs ++ (n ∷ [])) (enqueue_appends q xs n h f.0) f.1
run_refines (push_front n ∷ ops) q xs h f =
    run_refines ops (enqueue_front q n) (n ∷ xs) (enqueue_front_prepends q xs n h f.0) f.1
run_refines (pop ∷ ops) q xs h f =
    let (e, h', _) = dequeue_refines q xs h in
    ap₂ ◌∷◌ e (run_refines ops (dequeue q).1 (rest xs) h' f)
