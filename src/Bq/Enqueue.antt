-- ===== src/Bq/Enqueue.antt =====
-- `boc_bq_enqueue_segment`, `boc_bq_enqueue` and `boc_bq_enqueue_front` against a list of nodes.
use bocpy.Base.{
  ◌≢◌, ◌∙◌, update_ne, ℕ, ◌≡◌, refl, sym, ap, none, some, List, [], ◌∷◌, ◌++◌, arith, NotIn, update,
  update_self,
}
use bocpy.Bq.{
  front_slot, next_in_queue, Links, Bq, Segment, enqueue_segment, enqueue, enqueue_front,
}
use bocpy.Bq.Chain.{
  Holds, Spans, last_node, ne-last_node, Disjoint, Chain-append, Chain-update_ne, Chain-update_last,
  last_node-append, last_node-NotIn, NotIn-last_node, IsDistinct-append,
}

-- What `enqueue_segment` stores, by where `back` points.
enqueue_segment_at_front :
    (q : Bq) (s : Segment) (z : ℕ)
    → s.end ≡ some (next_in_queue z)
    → q.back ≡ front_slot
    → enqueue_segment q s
      ≡ record { links = update q.links z none; front = s.start; back = next_in_queue z }
unfolding enqueue_segment
enqueue_segment_at_front q s z e b = ground arith

enqueue_segment_at_link :
    (q : Bq) (s : Segment) (z b : ℕ)
    → s.end ≡ some (next_in_queue z)
    → q.back ≡ next_in_queue b
    → enqueue_segment q s ≡ record {
      links = update (update q.links z none) b s.start;
      front = q.front;
      back = next_in_queue z;
    }
unfolding enqueue_segment
enqueue_segment_at_link q s z b e k = ground arith

-- Appending a segment to a queue that shares no node with it puts its nodes behind the queue's.
pub enqueue_segment_appends :
    (q : Bq) (s : Segment) (xs : List ℕ) (y : ℕ) (ys : List ℕ)
    → Holds q xs
    → Spans q.links s y ys
    → Disjoint xs (y ∷ ys)
    → Holds (enqueue_segment q s) (xs ++ (y ∷ ys))
enqueue_segment_appends q s [] y ys h g d =
    rw (enqueue_segment_at_front q s (last_node y ys) g.at_end h.at_back) (record {
      chain = Chain-update_last q.links none y ys s.start g.tail g.distinct g.chain;
      at_back = refl;
      distinct = g.distinct;
    })
enqueue_segment_appends q s (x ∷ xs) y ys h g d =
    rw (enqueue_segment_at_link q s z b g.at_end h.at_back) (record {
      chain =
          Chain-append links' (x ∷ xs) (y ∷ ys) q.front s.start none
            (Chain-update_last cleared s.start x xs q.front none h.distinct (
              Chain-update_ne q.links z none (x ∷ xs) q.front none (NotIn-last_node (x ∷ xs) y ys d)
                h.chain))
            (Chain-update_ne cleared b s.start (y ∷ ys) s.start none
              (last_node-NotIn x xs (y ∷ ys) d)
              (Chain-update_last q.links none y ys s.start g.tail g.distinct g.chain));
      at_back = ap next_in_queue (sym (last_node-append x xs y ys));
      distinct = IsDistinct-append (x ∷ xs) (y ∷ ys) h.distinct g.distinct d;
    })
  where
    z : ℕ
    z = last_node y ys

    b : ℕ
    b = last_node x xs

    cleared : Links
    cleared = update q.links z none

    links' : Links
    links' = update cleared b s.start

NotIn→Disjoint : (xs : List ℕ) (n : ℕ) → NotIn n xs → Disjoint xs (n ∷ [])
NotIn→Disjoint [] n h = tt
NotIn→Disjoint (x ∷ xs) n h = ((λ e. h.0 (sym e), tt), NotIn→Disjoint xs n h.1)

-- `boc_bq_enqueue` puts a node that is not in the queue at its back.
pub enqueue_appends :
    (q : Bq) (xs : List ℕ) (n : ℕ) → Holds q xs → NotIn n xs → Holds (enqueue q n) (xs ++ (n ∷ []))
unfolding enqueue
enqueue_appends q xs n h d =
    enqueue_segment_appends q (record { start = some n; end = some (next_in_queue n) }) xs n [] h
      (record { tail = q.links n; chain = (refl, refl); at_end = refl; distinct = (tt, tt) })
      (NotIn→Disjoint xs n d)

-- An enqueue writes no link but those of the queue's nodes and of the new one.
pub enqueue_links_ne :
    (q : Bq) (xs : List ℕ) (n m : ℕ)
    → Holds q xs
    → NotIn m xs
    → m ≢ n
    → (enqueue q n).links m ≡ q.links m
unfolding enqueue
enqueue_links_ne q [] n m h out ne =
    rw
      (enqueue_segment_at_front q (record { start = some n; end = some (next_in_queue n) }) n refl
        h.at_back)
      (update_ne q.links n none m (λ e. ne (sym e)))
enqueue_links_ne q (x ∷ xs) n m h out ne =
    rw
      (enqueue_segment_at_link q (record { start = some n; end = some (next_in_queue n) }) n
        (last_node x xs) refl h.at_back)
      (update_ne (update q.links n none) (last_node x xs) (some n) m
          (λ e. ne-last_node m x xs out (sym e))
        ∙ update_ne q.links n none m (λ e. ne (sym e)))

enqueue_front-none : (q : Bq) (n : ℕ) → q.front ≡ none → enqueue_front q n ≡ enqueue q n
unfolding enqueue_front
enqueue_front-none q n e = ground arith

enqueue_front-some :
    (q : Bq) (n f : ℕ)
    → q.front ≡ some f
    → enqueue_front q n
      ≡ record { links = update q.links n (some f); front = some n; back = q.back }
unfolding enqueue_front
enqueue_front-some q n f e = ground arith

-- If a queue holds the nodes `xs` and `n` is none of them, then after `boc_bq_enqueue_front` it
-- holds `n` before all of `xs`, whether `xs` is empty or not.
pub enqueue_front_prepends :
    (q : Bq) (xs : List ℕ) (n : ℕ) → Holds q xs → NotIn n xs → Holds (enqueue_front q n) (n ∷ xs)
enqueue_front_prepends q [] n h d = rw (enqueue_front-none q n h.chain) (enqueue_appends q [] n h d)
enqueue_front_prepends q (x ∷ xs) n h d = rw (enqueue_front-some q n x h.chain.0) (record {
  chain = (
    refl,
    rw (update_self q.links n (some x))
        (refl, (Chain-update_ne q.links n (some x) (x ∷ xs) q.front none d h.chain).1),
  );
  at_back = h.at_back;
  distinct = (d, h.distinct);
})
