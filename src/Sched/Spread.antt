-- ===== src/Sched/Spread.antt =====
-- `boc_wsq_enqueue_spread` of boc_sched.h ends, and spreads a segment over a worker's queues.
use bocpy.Base.{
  ℕ, zero, suc, ◌+◌, ◌*◌, ◌%◌, ◌≡◌, ◌≢◌, ◌<◌, inl, inr, true, false, Option, none, some, List, [],
  ◌∷◌, ◌++◌, update, update_ne, contains, contains-NotIn, NotIn-contains, IsDistinct, length, arith,
  refl, sym, ap, ap₂, ◌∙◌, Bool-cases,
}
use bocpy.Bq
use bocpy.Bq.{Links, Segment, next_in_queue, segment_take_one, enqueue_segment}
use bocpy.Bq.Chain.{Chain, Chain-agree, last_node}
use bocpy.Bq.Enqueue.{enqueue_links_ne}
use bocpy.Bq.Dequeue.{segment_take_one_more, segment_take_one_end}
use bocpy.Sched.{Workers, queue, put, pre_inc, wsq_enqueue, wsq_enqueue_spread}
use bocpy.Sched.Queues.{Valid, homeless}
use bocpy.Sched.Wsq.{Owns, wsq_enqueue-Valid}

-- The segment `ls` runs through the nodes `x ∷ xs`, its last link is NULL, and no queue holds them.
pub record Loose (links : Links) (home : ℕ → Option ℕ) (ls : Segment) (x : ℕ) (xs : List ℕ)
    : Type 0 where
  pub chain : Chain links ls.start (x ∷ xs) none
  pub at_end : ls.end ≡ some (next_in_queue (last_node x xs))
  pub distinct : IsDistinct (x ∷ xs)
  pub free : (n : ℕ) → contains (x ∷ xs) n ≡ true → home n ≡ none

-- The nodes `xs` are in the queues of worker `w`, and all others where they were.
pub record Landed (w : ℕ) (xs : List ℕ) (home : ℕ → Option ℕ) (t : Workers) : Type 0 where
  pub contents : ℕ → List ℕ
  pub home' : ℕ → Option ℕ
  pub valid : Valid t contents home'
  pub here : (n : ℕ) → contains xs n ≡ true → (k : ℕ) × (Owns w k × (home' n ≡ some k))
  pub there : (n : ℕ) → contains xs n ≡ false → home' n ≡ home n

-- The state after the segment goes onto one queue as it is.
abbrev spliced : ℕ → Segment → Workers → Workers
spliced w ls s =
    let k = 4 * w + (s.enqueue_index w + 1) % 4 in
    record (put s k (enqueue_segment (queue s k) ls)) {
      enqueue_index = update s.enqueue_index w ((s.enqueue_index w + 1) % 4);
    }

spread_none :
    (fuel w : ℕ) (ls left : Segment) (s : Workers)
    → segment_take_one s.links ls ≡ (none, left)
    → wsq_enqueue_spread (suc fuel) w ls s ≡ some (spliced w left s)
unfolding wsq_enqueue_spread pre_inc
spread_none fuel w ls left s e =
    rw (wsq_enqueue_spread, ap (λ o. o.0) e) (ap (λ o. some (spliced w o.1 s)) e)

spread_some :
    (fuel w x : ℕ) (ls left : Segment) (s : Workers)
    → segment_take_one s.links ls ≡ (some x, left)
    → wsq_enqueue_spread (suc fuel) w ls s ≡ wsq_enqueue_spread fuel w left (wsq_enqueue w x s)
unfolding wsq_enqueue_spread
spread_some fuel w x ls left s e =
    rw (wsq_enqueue_spread, ap (λ o. o.0) e)
      (ap (λ o. wsq_enqueue_spread fuel w o.1 (wsq_enqueue w x s)) e)

spliced_single :
    (w x : ℕ) (ls : Segment) (s : Workers)
    → ls.start ≡ some x
    → ls.end ≡ some (next_in_queue x)
    → spliced w ls s ≡ wsq_enqueue w x s
unfolding wsq_enqueue Bq.enqueue pre_inc
spliced_single w x ls s e f =
    let single : ls ≡ record { start = some x; end = some (next_in_queue x) } =
      ap₂ (λ a b. record { start = a; end = b }) e f in
    ap (λ l. spliced w l s) single

spread_last :
    (fuel w x : ℕ) (ls : Segment) (s : Workers)
    → ls.start ≡ some x
    → ls.end ≡ some (next_in_queue x)
    → s.links x ≡ none
    → wsq_enqueue_spread (suc fuel) w ls s ≡ some (wsq_enqueue w x s)
spread_last fuel w x ls s e f l =
    spread_none fuel w ls ls s (segment_take_one_end s.links ls x e l)
    ∙ ap (λ t. some t) (spliced_single w x ls s e f)

spread_more :
    (fuel w x y : ℕ) (ls : Segment) (s : Workers)
    → ls.start ≡ some x
    → s.links x ≡ some y
    → wsq_enqueue_spread (suc fuel) w ls s
      ≡ wsq_enqueue_spread fuel w (record { start = some y; end = ls.end }) (wsq_enqueue w x s)
spread_more fuel w x y ls s e l =
    spread_some fuel w x ls _ s (segment_take_one_more s.links ls x y e l)

-- The links of loose nodes survive the enqueue of another node.
enqueue_links :
    (s : Workers) (contents : ℕ → List ℕ) (home : ℕ → Option ℕ) (w n m : ℕ)
    → Valid s contents home
    → home m ≡ none
    → m ≢ n
    → (wsq_enqueue w n s).links m ≡ s.links m
unfolding wsq_enqueue
enqueue_links s contents home w n m v free ne =
    let k = 4 * w + pre_inc (s.enqueue_index w) in
    enqueue_links_ne (queue s k) (contents k) n m (v.holds k)
      (contains-NotIn (contents k) m (homeless s contents home m k v free)) ne

Loose-rest :
    (s : Workers) (contents : ℕ → List ℕ) (home : ℕ → Option ℕ) (w k : ℕ) (ls : Segment) (x y : ℕ)
    (xs : List ℕ)
    → Valid s contents home
    → Loose s.links home ls x (y ∷ xs)
    → Loose
        (wsq_enqueue w x s).links
        (update home x (some k))
        (record { start = some y; end = ls.end })
        y
        xs
Loose-rest s contents home w k ls x y xs v l = record {
  chain =
      Chain-agree s.links (wsq_enqueue w x s).links (y ∷ xs) (some y) none
        (λ m in_it.
          enqueue_links s contents home w x m v (l.free m (ground arith)) (differs m in_it))
        (refl, l.chain.1.1);
  at_end = l.at_end;
  distinct = l.distinct.1;
  free = λ m in_it.
      update_ne home x (some k) m (λ e. differs m in_it (sym e)) ∙ l.free m (ground arith);
}
  where
    differs : (m : ℕ) → contains (y ∷ xs) m ≡ true → m ≢ x
    differs m in_it e = ground (arith, e, NotIn-contains (y ∷ xs) x l.distinct.0)

-- With fuel for as many rounds as the segment has nodes, `boc_wsq_enqueue_spread` ends; then every
-- node of the segment is in one of the worker's queues, and all other nodes are where they were.
pub wsq_enqueue_spread_lem :
    (fuel w : ℕ) (ls : Segment) (x : ℕ) (xs : List ℕ) (s : Workers) (contents : ℕ → List ℕ)
    (home : ℕ → Option ℕ)
    → length xs < fuel
    → Valid s contents home
    → Loose s.links home ls x xs
    → (t : Workers) × ((wsq_enqueue_spread fuel w ls s ≡ some t) × Landed w (x ∷ xs) home t)
wsq_enqueue_spread_lem zero w ls x xs s contents home enough v l = absurd (omega arith)
wsq_enqueue_spread_lem (suc fuel) w ls x [] s contents home enough v l =
    let (k, (own, v')) = wsq_enqueue-Valid s contents home w x v (l.free x (ground arith)) in
    (
      wsq_enqueue w x s,
      (
        spread_last fuel w x ls s l.chain.0 l.at_end l.chain.1,
        record {
          contents = update contents k (contents k ++ (x ∷ []));
          home' = update home x (some k);
          valid = v';
          here = λ n h. (k, (own, ground arith));
          there = λ n h. ground arith;
        },
      ),
    )
wsq_enqueue_spread_lem (suc fuel) w ls x (y ∷ xs) s contents home enough v l =
    let (k, (own, v')) = wsq_enqueue-Valid s contents home w x v (l.free x (ground arith)) in
    let (t, (e, landed)) =
      wsq_enqueue_spread_lem fuel w (record { start = some y; end = ls.end }) y xs
        (wsq_enqueue w x s) (update contents k (contents k ++ (x ∷ []))) (update home x (some k))
        (omega arith) v' (Loose-rest s contents home w k ls x y xs v l) in
    (
      t,
      (
        spread_more fuel w x y ls s l.chain.0 l.chain.1.0 ∙ e,
        record {
          contents = landed.contents;
          home' = landed.home';
          valid = landed.valid;
          here = λ n h. elim (Bool-cases (contains (y ∷ xs) n)) [
            | inl later ↦ landed.here n later
            | inr not_later ↦ (k, (own, landed.there n not_later ∙ ground arith))
          ];
          there = λ n h. landed.there n (ground arith) ∙ ground arith;
        },
      ),
    )
