-- ===== src/Sched/Runs.antt =====
-- Runs of calls on the workers of boc_sched.c, and what holds in all of them.
use bocpy.Base.{ℕ, ◌≡◌, Bool, true, false, Option, some, arith}
use mathlib.Core.Path.{subst}
use bocpy.Sched.{Workers, pop_fast, try_steal, dispatch}
use bocpy.Sched.Setup.{sched_init, worker_register}
use bocpy.Sched.Cursors.{Bounded, OnSome}
use bocpy.Sched.Bounds.{
  BoundedAfter, try_steal-Bounded, pop_fast-Bounded, worker_register-Bounded, dispatch-Bounded,
}

-- The calls that a worker, or a thread that is none, makes.
pub data Step (s : Workers) : Workers → Type 0 where
  register : Step s (worker_register s).1
  pop : (w : ℕ) → Step s (pop_fast w s).1
  steal : (fuel w : ℕ) (r : Option ℕ) (t : Workers) → try_steal fuel w s ≡ some (r, t) → Step s t
  hand : (self : Option ℕ) (n : ℕ) (t : Workers) → dispatch self n s ≡ some t → Step s t

pub data Run (s : Workers) : Workers → Type 0 where
  start : Run s s
  then_step : (t u : Workers) → Run s t → Step t u → Run s u

from_some : {A : Type 0} → (P : A → Type 0) (o : Option A) (a : A) → OnSome P o → o ≡ some a → P a
from_some P o a h e = subst (λ x. OnSome P x) e h

Step-Bounded : (s t : Workers) → Step s t → Bounded s → Bounded t
Step-Bounded s _ register b = worker_register-Bounded s b
Step-Bounded s _ (pop w) b = pop_fast-Bounded w s b
Step-Bounded s t (steal fuel w r _ e) b =
    from_some BoundedAfter (try_steal fuel w s) (r, t) (try_steal-Bounded fuel w s b) e
Step-Bounded s t (hand self n _ e) b =
    from_some Bounded (dispatch self n s) t (dispatch-Bounded self n s b) e

init-Bounded : (running : Bool) (n : ℕ) → OnSome Bounded (sched_init running n)
unfolding sched_init
init-Bounded true n = tt
init-Bounded false n = record {
  enqueue_in = λ w. omega arith;
  dequeue_in = λ w. omega arith;
  steal_in = λ w. omega arith;
  batch_in = λ w. omega arith;
}

run-Bounded : (s t : Workers) → Run s t → Bounded s → Bounded t
run-Bounded s _ start b = b
run-Bounded s u (then_step t _ run step) b = Step-Bounded t u step (run-Bounded s t run b)

-- After `boc_sched_init`, whatever calls of register, pop, steal and dispatch follow, every cursor
-- of a worker is below `BOC_WSQ_N` and every batch is at most `BOC_BQ_BATCH_SIZE`.
pub sched_init-Bounded :
    (running : Bool) (n : ℕ) (s t : Workers) → sched_init running n ≡ some s → Run s t → Bounded t
sched_init-Bounded running n s t e run =
    run-Bounded s t run (from_some Bounded (sched_init running n) s (init-Bounded running n) e)
