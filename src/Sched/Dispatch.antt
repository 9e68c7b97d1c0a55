-- ===== src/Sched/Dispatch.antt =====
-- `boc_sched_worker_pop_fast` and `boc_sched_dispatch` of boc_sched.c: the pending node of a worker's
-- thread, and the batch that bounds how often it passes the queues.
use bocpy.Base.{
  ℕ, zero, suc, ◌+◌, ◌-◌, ◌*◌, ◌≡◌, ◌<◌, ◌⊎◌, inl, inr, true, false, Option, none, some, List, [],
  update, arith, refl, sym, ap, ◌∙◌, Bool-cases, Option-cases,
}
use native.Mathlib.Decide.{ℕ_discrete}
use bocpy.Bq
use bocpy.Sched.{
  Workers, queue, put, pre_inc, dequeue_rounds, wsq_dequeue, wsq_is_empty, clear_pending,
  batch_size, after_dequeue, pop_queued, pop_fast,
}
use bocpy.Sched.Queues.{Valid, same-Valid}
use bocpy.Sched.Wsq.{Owns, Got, Dequeued, wsq_dequeue_lem}

-- A dequeue leaves the pending nodes and the batches as they are.
dequeue_rounds_pending :
    (rounds w : ℕ) (s : Workers)
    → ((dequeue_rounds rounds w s).1.pending ≡ s.pending)
      × ((dequeue_rounds rounds w s).1.batch ≡ s.batch)
unfolding dequeue_rounds
dequeue_rounds_pending zero w s = (refl, refl)
dequeue_rounds_pending (suc rounds) w s =
    let k = 4 * w + pre_inc (s.dequeue_index w) in
    let q = (Bq.dequeue (queue s k)).1 in
    let later = dequeue_rounds_pending rounds w (record (put s k q) {
      dequeue_index = update s.dequeue_index w (pre_inc (s.dequeue_index w));
    }) in
    elim (Option-cases (Bq.dequeue (queue s k)).0) [
      | inl e ↦ rw (dequeue_rounds, e) later
      | inr (x, e) ↦ rw (dequeue_rounds, e) (refl, refl)
    ]

wsq_dequeue_pending :
    (w : ℕ) (s : Workers)
    → ((wsq_dequeue w s).1.pending ≡ s.pending) × ((wsq_dequeue w s).1.batch ≡ s.batch)
unfolding wsq_dequeue
wsq_dequeue_pending w s = dequeue_rounds_pending 4 w s

-- Worker `w` holds nothing in its queues.
abbrev pub AllEmpty : (ℕ → List ℕ) → ℕ → Type 0
AllEmpty contents w = (k : ℕ) → Owns w k → contents k ≡ []

-- The pending node may not pass the queues now, and no steal is due.
abbrev pub Past : Workers → ℕ → Type 0
Past s w = s.batch w ≡ 0 ⊎ s.pending w ≡ none

abbrev pub MayDequeue : Workers → ℕ → Type 0
MayDequeue s w = Past s w × (s.should_steal w ≡ false ⊎ wsq_is_empty w s ≡ true)

-- The outcomes of a pop of worker `w`: the pending node, which uses one up of the batch; nothing, since a
-- steal is due; the oldest node of a queue; the pending node, since the queues are empty; nothing.
pub data Popped (s : Workers) (contents : ℕ → List ℕ) (home : ℕ → Option ℕ) (w : ℕ)
    : Option ℕ × Workers → Type 0 where
  ready :
      (p : ℕ)
      → s.pending w ≡ some p
      → 0 < s.batch w
      → Valid (clear_pending w (s.batch w - 1) s) contents home
      → Popped s contents home w (some p, clear_pending w (s.batch w - 1) s)
  due :
      Past s w
      → s.should_steal w ≡ true
      → wsq_is_empty w s ≡ false
      → Popped s contents home w (none, s)
  queued :
      (x : ℕ) (t : Workers)
      → MayDequeue s w
      → Got t contents home w x
      → t.pending ≡ s.pending
      → t.batch ≡ update s.batch w batch_size
      → Popped s contents home w (some x, t)
  last :
      (p : ℕ) (t : Workers)
      → MayDequeue s w
      → AllEmpty contents w
      → s.pending w ≡ some p
      → t.pending ≡ update s.pending w none
      → t.batch ≡ update s.batch w batch_size
      → Valid t contents home
      → Popped s contents home w (some p, t)
  nothing :
      (t : Workers)
      → MayDequeue s w
      → AllEmpty contents w
      → s.pending w ≡ none
      → t.pending ≡ s.pending
      → t.batch ≡ s.batch
      → Valid t contents home
      → Popped s contents home w (none, t)

pub pop_pending :
    (w p : ℕ) (s : Workers)
    → s.pending w ≡ some p
    → 0 < s.batch w
    → pop_fast w s ≡ (some p, clear_pending w (s.batch w - 1) s)
unfolding pop_fast
pop_pending w p s e lt = ground arith

pop_steal :
    (w : ℕ) (s : Workers)
    → s.batch w ≡ 0 ⊎ s.pending w ≡ none
    → s.should_steal w ≡ true
    → wsq_is_empty w s ≡ false
    → pop_fast w s ≡ (none, s)
unfolding pop_fast
pop_steal w s past steal some_there = ground arith

pop_past :
    (w : ℕ) (s : Workers)
    → s.batch w ≡ 0 ⊎ s.pending w ≡ none
    → s.should_steal w ≡ false ⊎ wsq_is_empty w s ≡ true
    → pop_fast w s ≡ pop_queued w s
unfolding pop_fast
pop_past w s past keep = ground arith

after_dequeue-pending :
    (w p : ℕ) (t : Workers)
    → t.pending w ≡ some p
    → after_dequeue w (none, t) ≡ (some p, clear_pending w batch_size t)
unfolding after_dequeue
after_dequeue-pending w p t e = rw (after_dequeue, e) refl

after_dequeue-none :
    (w : ℕ) (t : Workers) → t.pending w ≡ none → after_dequeue w (none, t) ≡ (none, t)
unfolding after_dequeue
after_dequeue-none w t e = rw (after_dequeue, e) refl

after_dequeue-Popped :
    (w : ℕ) (s : Workers) (contents : ℕ → List ℕ) (home : ℕ → Option ℕ) (o : Option ℕ × Workers)
    → MayDequeue s w
    → Dequeued contents home w (Owns w) o
    → o.1.pending ≡ s.pending
    → o.1.batch ≡ s.batch
    → Popped s contents home w (after_dequeue w o)
unfolding after_dequeue
after_dequeue-Popped w s contents home (some x, t) may got e b =
    queued x _ may
      (record {
        k = got.k;
        owns = got.owns;
        oldest_is = got.oldest_is;
        valid = same-Valid t _ _ _ refl refl refl got.valid;
      })
      e (ap (λ f. update f w batch_size) b)
after_dequeue-Popped w s contents home (none, t) may (empty, v) e b =
    elim (Option-cases (t.pending w)) [
      | inl free ↦
          rw (after_dequeue-none w t free)
            (nothing t may empty (ap (λ f. f w) (sym e) ∙ free) e b v)
      | inr (p, there) ↦ rw (after_dequeue-pending w p t there) (
          last p _ may empty (ap (λ f. f w) (sym e) ∙ there) (ap (λ f. update f w none) e)
            (ap (λ f. update f w batch_size) b) (same-Valid t _ _ _ refl refl refl v))
    ]

pop_queued-Popped :
    (w : ℕ) (s : Workers) (contents : ℕ → List ℕ) (home : ℕ → Option ℕ)
    → Valid s contents home
    → MayDequeue s w
    → Popped s contents home w (pop_queued w s)
unfolding pop_queued
pop_queued-Popped w s contents home v may =
    after_dequeue-Popped w s contents home (wsq_dequeue w s) may
      (wsq_dequeue_lem w s contents home v) (wsq_dequeue_pending w s).0 (wsq_dequeue_pending w s).1

-- On a state in which the queues hold `contents`, `boc_sched_worker_pop_fast` returns the pending node
-- and takes one off the batch, if there is such a node and the batch is not used up. Otherwise it
-- returns NULL and changes nothing, if a steal is due and the worker's queues are not all empty. Otherwise it
-- returns the oldest node of one of the worker's queues, or, if they are empty, the pending node, and
-- starts a new batch; if there is neither, it returns NULL and keeps the batch. The pending nodes of all
-- threads and the batches are as before but for that, and the queues hold the same but for the node returned.
pub pop_fast-Popped :
    (w : ℕ) (s : Workers) (contents : ℕ → List ℕ) (home : ℕ → Option ℕ)
    → Valid s contents home
    → Popped s contents home w (pop_fast w s)
pop_fast-Popped w s contents home v = elim (Option-cases (s.pending w)) [
  | inl e ↦ passed (inr e)
  | inr (p, e) ↦ elim (ℕ_discrete (s.batch w) 0) [
    | yes z ↦ passed (inl z)
    | no nz ↦
        rw (pop_pending w p s e (omega arith))
          (ready p e (omega arith) (same-Valid s _ _ _ refl refl refl v))
  ]
]
  where
    passed : Past s w → Popped s contents home w (pop_fast w s)
    passed h = elim (Bool-cases (s.should_steal w)) [
      | inr keep ↦
          rw (pop_past w s h (inl keep)) (pop_queued-Popped w s contents home v (h, inl keep))
      | inl steal ↦ elim (Bool-cases (wsq_is_empty w s)) [
        | inl e ↦ rw (pop_past w s h (inr e)) (pop_queued-Popped w s contents home v (h, inr e))
        | inr e ↦ rw (pop_steal w s h steal e) (due h steal e)
      ]
    ]
