-- ===== src/Sched/Wsq.antt =====
-- `boc_wsq_enqueue`, `boc_wsq_dequeue` and `boc_wsq_is_empty` of boc_sched.h on a worker's four queues.
use bocpy.Base.{
  ◌-◌, ℕ, zero, suc, ◌+◌, ◌*◌, ◌%◌, ◌≡◌, ◌≤◌, ◌<◌, ◌⊎◌, inl, inr, true, Option, none, some, List,
  [], ◌∷◌, ◌++◌, update, update_self, arith, refl, ap, ◌∙◌, Bool-cases, Option-cases, ◌↔◌,
}
use mathlib.Core.Path.{subst}
use native.Mathlib.Decide.{ℕ_discrete}
use bocpy.Bq
use bocpy.Bq.Dequeue.{oldest, rest, dequeue_refines, is_empty_lem}
use bocpy.Sched.{
  Workers, queue, put, pre_inc, wsq_enqueue, dequeue_rounds, wsq_dequeue, all_empty, wsq_is_empty,
}
use bocpy.Sched.Queues.{Valid, same-Valid, enqueue-Valid, dequeue-Valid, dequeue-Valid_empty, leave}

-- Queue `k` is one of the four of worker `w`.
abbrev pub Owns : ℕ → ℕ → Type 0
Owns w k = (4 * w ≤ k) × (k < 4 * w + 4)

-- A node that no queue holds goes behind all others of one of the worker's queues.
pub wsq_enqueue-Valid :
    (s : Workers) (contents : ℕ → List ℕ) (home : ℕ → Option ℕ) (w n : ℕ)
    → Valid s contents home
    → home n ≡ none
    → (k : ℕ) × (Owns w k
        × Valid
            (wsq_enqueue w n s)
            (update contents k (contents k ++ (n ∷ [])))
            (update home n (some k)))
unfolding wsq_enqueue pre_inc
wsq_enqueue-Valid s contents home w n v free =
    let k = 4 * w + (s.enqueue_index w + 1) % 4 in
    (
      k,
      (
        (omega arith, omega arith),
        same-Valid (put s k (Bq.enqueue (queue s k) n)) (wsq_enqueue w n s) _ _ refl refl refl
            (enqueue-Valid s contents home k n v free),
      ),
    )

-- What a dequeue on worker `w` gives: the oldest node `x` of one of its queues `k`, or none.
pub record Got (t : Workers) (contents : ℕ → List ℕ) (home : ℕ → Option ℕ) (w x : ℕ) : Type 0 where
  pub k : ℕ
  pub owns : Owns w k
  pub oldest_is : oldest (contents k) ≡ some x
  pub valid : Valid t (update contents k (rest (contents k))) (update home x none)

abbrev pub Dequeued : (ℕ → List ℕ) → (ℕ → Option ℕ) → ℕ → (ℕ → Type 0) → Option ℕ × Workers → Type 0
Dequeued contents home w Empty (none, t) =
    ((k : ℕ) → Empty k → contents k ≡ []) × Valid t contents home
Dequeued contents home w Empty (some x, t) = Got t contents home w x

-- The queue of the next round, and the state after it.
abbrev turn : ℕ → Workers → ℕ
turn w s = 4 * w + (s.dequeue_index w + 1) % 4

abbrev advance : ℕ → Workers → Workers
advance w s = record (put s (turn w s) (Bq.dequeue (queue s (turn w s))).1) {
  dequeue_index = update s.dequeue_index w ((s.dequeue_index w + 1) % 4);
}

round_found :
    (rounds w x : ℕ) (s : Workers)
    → (Bq.dequeue (queue s (turn w s))).0 ≡ some x
    → dequeue_rounds (suc rounds) w s ≡ (some x, advance w s)
unfolding dequeue_rounds pre_inc
round_found rounds w x s e = rw (dequeue_rounds, e) refl

round_next :
    (rounds w : ℕ) (s : Workers)
    → (Bq.dequeue (queue s (turn w s))).0 ≡ none
    → dequeue_rounds (suc rounds) w s ≡ dequeue_rounds rounds w (advance w s)
unfolding dequeue_rounds pre_inc
round_next rounds w s e = rw (dequeue_rounds, e) refl

advance-Valid :
    (s : Workers) (contents : ℕ → List ℕ) (home : ℕ → Option ℕ) (w : ℕ)
    → Valid s contents home
    → Valid
        (advance w s)
        (update contents (turn w s) (rest (contents (turn w s))))
        (leave (oldest (contents (turn w s))) home)
advance-Valid s contents home w v =
    same-Valid (put s (turn w s) (Bq.dequeue (queue s (turn w s))).1) (advance w s) _ _ refl refl
      refl (dequeue-Valid s contents home (turn w s) v)

-- The queues that the next `m` rounds look at.
abbrev Ahead : Workers → ℕ → ℕ → ℕ → Type 0
Ahead s w m k = (j : ℕ) × ((j < m) × (k ≡ 4 * w + (s.dequeue_index w + 1 + j) % 4))

Ahead-advance :
    (s : Workers) (w m k : ℕ) → Ahead s w (suc m) k → (k ≡ turn w s) ⊎ Ahead (advance w s) w m k
Ahead-advance s w m k (zero, (lt, e)) = inl (omega arith)
Ahead-advance s w m k (suc j, (lt, e)) =
    inr
      (j, (omega arith, omega (arith, update_self s.dequeue_index w ((s.dequeue_index w + 1) % 4))))

rounds-Dequeued :
    (rounds w : ℕ) (s : Workers) (contents : ℕ → List ℕ) (home : ℕ → Option ℕ)
    → Valid s contents home
    → Dequeued contents home w (Ahead s w rounds) (dequeue_rounds rounds w s)
unfolding dequeue_rounds
rounds-Dequeued zero w s contents home v = (λ k (j, (lt, e)). absurd (omega arith), v)
rounds-Dequeued (suc rounds) w s contents home v =
    elim (Option-cases (oldest (contents (turn w s)))) [
      | inr (x, e) ↦ rw (round_found rounds w x s (got ∙ e)) (record {
        k = turn w s;
        owns = (omega arith, omega arith);
        oldest_is = e;
        valid =
            subst
              (λ o.
                Valid (advance w s) (update contents (turn w s) (rest (contents (turn w s))))
                  (leave o home))
              e (advance-Valid s contents home w v);
      })
      | inl e ↦ rw (round_next rounds w s (got ∙ e)) (
          widen (dequeue_rounds rounds w (advance w s)) (oldest-none _ e)
            (rounds-Dequeued rounds w (advance w s) contents home (still_Valid (oldest-none _ e))))
    ]
  where
    got : (Bq.dequeue (queue s (turn w s))).0 ≡ oldest (contents (turn w s))
    got = (dequeue_refines (queue s (turn w s)) (contents (turn w s)) (v.holds (turn w s))).0

    oldest-none : (xs : List ℕ) → oldest xs ≡ none → xs ≡ []
    oldest-none [] e = refl
    oldest-none (x ∷ xs) e = ground arith

    still_Valid : contents (turn w s) ≡ [] → Valid (advance w s) contents home
    still_Valid none_there =
        same-Valid (put s (turn w s) (Bq.dequeue (queue s (turn w s))).1) (advance w s) _ _ refl
          refl refl (dequeue-Valid_empty s contents home (turn w s) v none_there)

    widen :
        (o : Option ℕ × Workers)
        → contents (turn w s) ≡ []
        → Dequeued contents home w (Ahead (advance w s) w rounds) o
        → Dequeued contents home w (Ahead s w (suc rounds)) o
    widen (none, t) e (f, v') = (
      λ k a. elim (Ahead-advance s w rounds k a) [
        | inl here ↦ ap contents here ∙ e
        | inr later ↦ f k later
      ],
      v',
    )
    widen (some x, t) e g = g

all_Ahead : (s : Workers) (w k : ℕ) → Owns w k → Ahead s w 4 k
all_Ahead s w k (lo, hi) = ((k - 4 * w + 3 + 3 * s.dequeue_index w) % 4, (omega arith, omega arith))

-- `boc_wsq_dequeue` returns NULL only if all four queues of the worker are empty, and then changes
-- nothing that they hold; else it returns the oldest node of one of the worker's queues, takes it out
-- of there, and leaves every other node where it is.
pub wsq_dequeue_lem :
    (w : ℕ) (s : Workers) (contents : ℕ → List ℕ) (home : ℕ → Option ℕ)
    → Valid s contents home
    → Dequeued contents home w (Owns w) (wsq_dequeue w s)
unfolding wsq_dequeue
wsq_dequeue_lem w s contents home v =
    all_owned (dequeue_rounds 4 w s) (rounds-Dequeued 4 w s contents home v)
  where
    all_owned :
        (o : Option ℕ × Workers)
        → Dequeued contents home w (Ahead s w 4) o
        → Dequeued contents home w (Owns w) o
    all_owned (none, t) (f, v') = (λ k own. f k (all_Ahead s w k own), v')
    all_owned (some x, t) g = g

all_empty_lem :
    (n k : ℕ) (s : Workers) (contents : ℕ → List ℕ) (home : ℕ → Option ℕ)
    → Valid s contents home
    → (all_empty n k s ≡ true) ↔ ((j : ℕ) → k ≤ j → j < k + n → contents j ≡ [])
unfolding all_empty
all_empty_lem zero k s contents home v = (λ _ j lo hi. absurd (omega arith), λ _. refl)
all_empty_lem (suc n) k s contents home v = elim (Bool-cases (Bq.is_empty (queue s k))) [
  | inl e ↦
      let (to, from) = all_empty_lem n (k + 1) s contents home v in
      let here = (is_empty_lem (queue s k) (contents k) (v.holds k)).0 e in
      rw (all_empty, e)
        (
          λ h j lo hi. elim (ℕ_discrete k j) [
            | yes same ↦ subst (λ i. contents i ≡ []) same here
            | no ne ↦ to h j (omega arith) (omega arith)
          ],
          λ f. from (λ j lo hi. f j (omega arith) (omega arith)),
        )
  | inr e ↦
      rw (all_empty, e)
        (
          λ h. ground arith,
          λ f. ground (
            arith,
            (is_empty_lem (queue s k) (contents k) (v.holds k)).1 (f k (omega arith) (omega arith)),
          ),
        )
]

-- `boc_wsq_is_empty` tells whether all four queues of the worker are empty.
pub wsq_is_empty_lem :
    (w : ℕ) (s : Workers) (contents : ℕ → List ℕ) (home : ℕ → Option ℕ)
    → Valid s contents home
    → (wsq_is_empty w s ≡ true) ↔ ((k : ℕ) → Owns w k → contents k ≡ [])
unfolding wsq_is_empty
wsq_is_empty_lem w s contents home v =
    let (to, from) = all_empty_lem 4 (4 * w) s contents home v in
    (λ h k (lo, hi). to h k lo hi, λ f. from (λ j lo hi. f j (lo, hi)))
