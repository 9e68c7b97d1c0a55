-- ===== src/Sched/Robbed.antt =====
-- The queue that `boc_sched_try_steal` of boc_sched.c empties, and the branches taken by its nodes.
use bocpy.Base.{
  ℕ, ◌+◌, ◌*◌, ◌≡◌, if◌then◌else◌, Option, none, some, List, [], update, contains, arith, refl, ap,
  ◌∙◌,
}
use bocpy.Bq.{Segment, front_slot, next_in_queue, Bq, segment_take_one, dequeue_all, empty_segment}
use bocpy.Bq.Dequeue.{
  segment_take_one_more, segment_take_one_end, dequeue_all-some, dequeue_all-none,
}
use bocpy.Sched.{Workers, queue, put, wsq_enqueue_spread, after_take, steal_from}
use bocpy.Sched.Queues.{Valid, put-Valid}

-- The homes after the nodes `xs` have left.
abbrev pub evict : List ℕ → (ℕ → Option ℕ) → ℕ → Option ℕ
evict xs home n = if contains xs n then none else home n

-- The queue that `self` robs, and the state after it is emptied.
abbrev pub robbed : ℕ → ℕ → Workers → ℕ
robbed self victim s = 4 * victim + s.steal_index self

abbrev pub emptied : ℕ → Workers → Workers
emptied k s = put s k (record { links = s.links; front = none; back = front_slot })

pub emptied-Valid :
    (s : Workers) (contents : ℕ → List ℕ) (home : ℕ → Option ℕ) (k : ℕ)
    → Valid s contents home
    → Valid (emptied k s) (update contents k []) (evict (contents k) home)
emptied-Valid s contents home k v =
    put-Valid s contents home (evict (contents k) home) k
      (record { links = s.links; front = none; back = front_slot }) [] v
      (record { chain = refl; at_back = refl; distinct = tt }) (λ j ne m there. refl)
      (λ n. ground (arith, v.homes k n)) (λ j ne n. ground (arith, v.homes k n))

module _ (fuel self victim : ℕ) (s : Workers) where
  steal_lem :
      (seg : Segment) (q : Bq) (o : Option ℕ × Segment)
      → dequeue_all (queue s (robbed self victim s)) ≡ (seg, q)
      → segment_take_one q.links seg ≡ o
      → steal_from fuel self victim s ≡ after_take fuel self (put s (robbed self victim s) q) o
  unfolding steal_from
  steal_lem seg q o d e =
      ap
        (λ z.
          after_take fuel self (put s (robbed self victim s) z.1) (segment_take_one z.1.links z.0))
        d
      ∙ ap (λ z. after_take fuel self (put s (robbed self victim s) q) z) e

  pub steal_none :
      s.front (robbed self victim s) ≡ none
      → steal_from fuel self victim s
        ≡ some (none, put s (robbed self victim s) (queue s (robbed self victim s)))
  unfolding after_take segment_take_one
  steal_none e =
      steal_lem empty_segment (queue s (robbed self victim s)) (none, empty_segment)
        (dequeue_all-none (queue s (robbed self victim s)) e) refl

  pub steal_one :
      (x : ℕ)
      → s.front (robbed self victim s) ≡ some x
      → s.back (robbed self victim s) ≡ next_in_queue x
      → s.links x ≡ none
      → steal_from fuel self victim s ≡ some (some x, emptied (robbed self victim s) s)
  unfolding after_take
  steal_one x e b l =
      let seg : Segment = record { start = some x; end = some (s.back (robbed self victim s)) } in
      steal_lem seg _ (none, seg) (dequeue_all-some (queue s (robbed self victim s)) x e)
        (segment_take_one_end s.links seg x refl l)
      ∙ rw (b) (ground arith)

  pub steal_more :
      (x y : ℕ) (t : Workers)
      → s.front (robbed self victim s) ≡ some x
      → s.links x ≡ some y
      → wsq_enqueue_spread fuel self
          (record { start = some y; end = some (s.back (robbed self victim s)) })
          (emptied (robbed self victim s) s)
        ≡ some t
      → steal_from fuel self victim s ≡ some (some x, t)
  unfolding after_take
  steal_more x y t e l spread =
      let seg : Segment = record { start = some x; end = some (s.back (robbed self victim s)) } in
      steal_lem seg _ _ (dequeue_all-some (queue s (robbed self victim s)) x e)
        (segment_take_one_more s.links seg x y refl l)
      ∙ rw (after_take, spread) refl
