-- ===== src/Sched/Steal.antt =====
-- `boc_sched_try_steal` of boc_sched.c: one queue of a victim moves to the thief.
use bocpy.Base.{
  ℕ, ◌==◌, ◌≡◌, ◌≤◌, inl, inr, if◌then◌else◌, true, false, Option, none, some, List, [], ◌∷◌,
  update, contains, NotIn-contains, length, arith, refl, sym, ap, ◌∙◌, Bool-cases,
}
use mathlib.Core.Path.{subst}
use bocpy.Bq.Chain.{Holds}
use bocpy.Bq.Dequeue.{oldest, rest}
use bocpy.Sched.{Workers, queue, put, pre_inc, steal_from, try_steal, next_in_ring}
use bocpy.Sched.Queues.{Valid, same-Valid, put-Valid}
use bocpy.Sched.Wsq.{Owns}
use bocpy.Sched.Spread.{Loose, wsq_enqueue_spread_lem}
use bocpy.Sched.Robbed.{evict, robbed, emptied, emptied-Valid, steal_none, steal_one, steal_more}

-- The thief got the oldest of the nodes `xs` and has the others in its queues; all other nodes are
-- where they were.
pub record Stole (self : ℕ) (xs : List ℕ) (home : ℕ → Option ℕ) (t : Workers) : Type 0 where
  pub contents : ℕ → List ℕ
  pub home' : ℕ → Option ℕ
  pub valid : Valid t contents home'
  pub taken : (n : ℕ) → oldest xs ≡ some n → home' n ≡ none
  pub moved : (n : ℕ) → contains (rest xs) n ≡ true → (k : ℕ) × (Owns self k × (home' n ≡ some k))
  pub others : (n : ℕ) → contains xs n ≡ false → home' n ≡ home n

emptied_of :
    (s : Workers) (contents : ℕ → List ℕ) (home : ℕ → Option ℕ) (k : ℕ) (xs : List ℕ)
    → contents k ≡ xs
    → Valid s contents home
    → Valid (emptied k s) (update contents k []) (evict xs home)
emptied_of s contents home k xs e v =
    subst (λ ys. Valid (emptied k s) (update contents k []) (evict ys home)) e
      (emptied-Valid s contents home k v)

remaining-Loose :
    (s : Workers) (home : ℕ → Option ℕ) (k x y : ℕ) (ys : List ℕ)
    → Holds (queue s k) (x ∷ y ∷ ys)
    → Loose s.links
        (evict (x ∷ y ∷ ys) home)
        (record { start = some y; end = some (s.back k) })
        y
        ys
remaining-Loose s home k x y ys h = record {
  chain = (refl, h.chain.1.1);
  at_end = ap (λ b. some b) h.at_back;
  distinct = h.distinct.1;
  free = λ n there. ground arith;
}

steal-Stole :
    (fuel self victim : ℕ) (s : Workers) (contents : ℕ → List ℕ) (home : ℕ → Option ℕ) (xs : List ℕ)
    → length xs ≤ fuel
    → contents (robbed self victim s) ≡ xs
    → Valid s contents home
    → Holds (queue s (robbed self victim s)) xs
    → (t : Workers) × ((steal_from fuel self victim s ≡ some (oldest xs, t)) × Stole self xs home t)
steal-Stole fuel self victim s contents home [] enough e v h =
    let k = robbed self victim s in
    (
      put s k (queue s k),
      (
        steal_none fuel self victim s h.chain,
        record {
          contents = update contents k [];
          home' = home;
          valid =
              put-Valid s contents home home k (queue s k) [] v h (λ j ne m there. refl)
                (λ n. sym (ap (λ ys. contains ys n) e) ∙ v.homes k n) (λ j ne n. refl);
          taken = λ n none_there. ground arith;
          moved = λ n there. ground arith;
          others = λ n away. refl;
        },
      ),
    )
steal-Stole fuel self victim s contents home (x ∷ []) enough e v h =
    let k = robbed self victim s in
    (
      emptied k s,
      (
        steal_one fuel self victim s x h.chain.0 h.at_back h.chain.1,
        record {
          contents = update contents k [];
          home' = evict (x ∷ []) home;
          valid = emptied_of s contents home k (x ∷ []) e v;
          taken = λ n is_it. ground arith;
          moved = λ n there. ground arith;
          others = λ n away. ground arith;
        },
      ),
    )
steal-Stole fuel self victim s contents home (x ∷ y ∷ ys) enough e v h =
    let k = robbed self victim s in
    let (t, (spread, landed)) =
      wsq_enqueue_spread_lem fuel self (record { start = some y; end = some (s.back k) }) y ys
        (emptied k s) (update contents k []) (evict (x ∷ y ∷ ys) home) (omega arith)
        (emptied_of s contents home k (x ∷ y ∷ ys) e v) (remaining-Loose s home k x y ys h) in
    (
      t,
      (
        steal_more fuel self victim s x y t h.chain.0 h.chain.1.0 spread,
        record {
          contents = landed.contents;
          home' = landed.home';
          valid = landed.valid;
          taken = λ n is_it.
              landed.there n (ground (arith, NotIn-contains (y ∷ ys) x h.distinct.0))
              ∙ ground arith;
          moved = landed.here;
          others = λ n away. landed.there n (ground arith) ∙ ground arith;
        },
      ),
    )

-- With fuel for the nodes of the queue it robs, the steal ends; it returns that queue's oldest node,
-- which no queue holds then, puts the others on queues of the thief, and moves no other node.
pub steal_from_lem :
    (fuel self victim : ℕ) (s : Workers) (contents : ℕ → List ℕ) (home : ℕ → Option ℕ)
    → length (contents (robbed self victim s)) ≤ fuel
    → Valid s contents home
    → (t : Workers) × ((steal_from fuel self victim s
          ≡ some (oldest (contents (robbed self victim s)), t))
        × Stole self (contents (robbed self victim s)) home t)
steal_from_lem fuel self victim s contents home enough v =
    steal-Stole fuel self victim s contents home (contents (robbed self victim s)) enough refl v
      (v.holds (robbed self victim s))

-- The queue `self` tries at its next steal, which is its own if there is no other worker.
abbrev victim_of : ℕ → Workers → ℕ
victim_of self s = elim (s.steal_victim self) [ none ↦ next_in_ring s self | some v ↦ v ]

-- The nodes the next steal of `self` takes away from another worker.
abbrev pub loot : ℕ → Workers → (ℕ → List ℕ) → List ℕ
loot self s contents =
    if victim_of self s == self then [] else contents (robbed self (victim_of self s) s)

-- `boc_sched_try_steal` ends, with fuel for as many nodes as the longest queue has. It returns the
-- oldest node of the queue it robs, which no queue holds then, puts the others on queues of the
-- thief, and moves no other node; at its own turn it returns NULL and moves none.
pub try_steal_lem :
    (fuel self : ℕ) (s : Workers) (contents : ℕ → List ℕ) (home : ℕ → Option ℕ)
    → ((k : ℕ) → length (contents k) ≤ fuel)
    → Valid s contents home
    → (t : Workers) × ((try_steal fuel self s ≡ some (oldest (loot self s contents), t))
        × Stole self (loot self s contents) home t)
unfolding try_steal
try_steal_lem fuel self s contents home enough v = elim (Bool-cases (victim_of self s == self)) [
  | inl own ↦ rw (own) (
    record s {
      steal_victim = update s.steal_victim self (some (next_in_ring s (victim_of self s)));
      steal_index = update s.steal_index self (pre_inc (s.steal_index self));
    },
    (
      refl,
      record {
        contents = contents;
        home' = home;
        valid = same-Valid s _ contents home refl refl refl v;
        taken = λ n none_there. ground arith;
        moved = λ n there. ground arith;
        others = λ n away. refl;
      },
    ),
  )
  | inr other ↦
      let s' : Workers = record s {
        steal_victim = update s.steal_victim self (some (next_in_ring s (victim_of self s)));
      } in
      rw (other) (
        steal_from_lem fuel self (victim_of self s) s' contents home (enough _)
          (same-Valid s s' contents home refl refl refl v))
]
