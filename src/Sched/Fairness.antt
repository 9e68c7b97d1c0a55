-- ===== src/Sched/Fairness.antt =====
-- What `batch` is for: work that schedules itself again and again, through `pending`, cannot keep a
-- worker from its queues for ever.
use bocpy.Base.{
  ℕ, ◌-◌, ◌≡◌, ◌≢◌, false, Option, none, some, List, [], ◌∷◌, ◌++◌, map, update, update_self,
  length, arith, refl, sym, ap, ◌∙◌,
}
use mathlib.Core.Bool.{true≢false}
use bocpy.Bq.Dequeue.{oldest}
use bocpy.Sched.{Workers, clear_pending, pop_fast, dispatch}
use bocpy.Sched.Queues.{Valid, same-Valid}
use bocpy.Sched.Wsq.{Owns}
use bocpy.Sched.Dispatch.{Popped, ready, due, queued, last, nothing, pop_pending, pop_fast-Popped}

-- The worker dispatches a node, as the behaviour it runs does, and pops the next, for each of a list.
abbrev pub busy : ℕ → List ℕ → Workers → List (Option ℕ)
busy w [] s = []
busy w (n ∷ ns) s = elim (dispatch (some w) n s) [
  | none ↦ []
  | some t ↦ (pop_fast w t).0 ∷ busy w ns (pop_fast w t).1
]

abbrev handed : ℕ → ℕ → Workers → Workers
handed w n s = record s { pending = update s.pending w (some n) }

dispatch_own :
    (w n : ℕ) (s : Workers) → s.pending w ≡ none → dispatch (some w) n s ≡ some (handed w n s)
unfolding dispatch
dispatch_own w n s e = rw (dispatch, e) refl

busy_next :
    (w n : ℕ) (ns : List ℕ) (s : Workers)
    → s.pending w ≡ none
    → busy w (n ∷ ns) s ≡ (pop_fast w (handed w n s)).0 ∷ busy w ns (pop_fast w (handed w n s)).1
busy_next w n ns s e = rw (busy, dispatch_own w n s e) refl

-- The queued node that comes next, and the queue it is the oldest of.
abbrev pub Queued : (ℕ → List ℕ) → ℕ → ℕ → Type 0
Queued contents w x = (k : ℕ) × (Owns w k × (oldest (contents k) ≡ some x))

pop_after_batch :
    (w n j : ℕ) (s : Workers) (contents : ℕ → List ℕ) (home : ℕ → Option ℕ)
    → Valid s contents home
    → s.should_steal w ≡ false
    → s.batch w ≡ 0
    → Owns w j
    → contents j ≢ []
    → (x : ℕ) × (((pop_fast w (handed w n s)).0 ≡ some x) × Queued contents w x)
pop_after_batch w n j s contents home v keep used own there =
    each (pop_fast w (handed w n s)) (
      pop_fast-Popped w (handed w n s) contents home
        (same-Valid s _ contents home refl refl refl v))
  where
    each :
        (o : Option ℕ × Workers)
        → Popped (handed w n s) contents home w o
        → (x : ℕ) × ((o.0 ≡ some x) × Queued contents w x)
    each _ (ready p e left v) = absurd (omega (arith, left, used))
    each _ (due past steal some_there) = absurd (true≢false (sym steal ∙ keep))
    each _ (queued x t may got e b) = (x, (refl, (got.k, (got.owns, got.oldest_is))))
    each _ (last p t may empty e f b v) = absurd (there (empty j own))
    each _ (nothing t may empty free e b v) = absurd (there (empty j own))

-- A worker with `b` of its batch left, whose behaviours each dispatch one node, runs at most `b` of
-- these before it takes a node that was in its queues, if there was one and no steal is due.
pub busy_lem :
    (w : ℕ) (ns : List ℕ) (n j : ℕ) (s : Workers) (contents : ℕ → List ℕ) (home : ℕ → Option ℕ)
    → Valid s contents home
    → s.pending w ≡ none
    → s.should_steal w ≡ false
    → length ns ≡ s.batch w
    → Owns w j
    → contents j ≢ []
    → (x : ℕ) × ((busy w (ns ++ (n ∷ [])) s ≡ map (λ m. some m) ns ++ (some x ∷ []))
        × Queued contents w x)
busy_lem w [] n j s contents home v free keep used own there =
    let (x, (e, q)) = pop_after_batch w n j s contents home v keep (sym used) own there in
    (x, (busy_next w n [] s free ∙ ap (λ o. o ∷ []) e, q))
busy_lem w (m ∷ ns) n j s contents home v free keep used own there =
    let popped = pop_pending w m (handed w m s) (update_self s.pending w (some m)) (omega arith) in
    let (x, (e, q)) =
      busy_lem w ns n j (clear_pending w (s.batch w - 1) (handed w m s)) contents home
        (same-Valid s _ contents home refl refl refl v) (update_self (handed w m s).pending w none)
        keep (rw (update_self s.batch w (s.batch w - 1)) (omega arith)) own there in
    (
      x,
      (
        busy_next w m (ns ++ (n ∷ [])) s free
            ∙ ap (λ o. o.0 ∷ busy w (ns ++ (n ∷ [])) o.1) popped
            ∙ ap (λ l. some m ∷ l) e,
        q,
      ),
    )
