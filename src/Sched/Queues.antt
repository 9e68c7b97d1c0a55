-- ===== src/Sched/Queues.antt =====
-- All queues of the workers together, and how a call on one of them leaves the others.
use bocpy.Base.{
  IsDistinct, NotIn-contains, ℕ, ◌==◌, ◌≡◌, ◌≢◌, Bool, true, false, Option, none, some, List, [],
  ◌∷◌, ◌++◌, update, update_self, update_ne, contains, arith, refl, sym, ap, ◌∙◌, contains-NotIn,
  contains-snoc,
}
use mathlib.Core.Path.{subst}
use native.Mathlib.Decide.{ℕ_discrete}
use bocpy.Bq
use bocpy.Bq.{Bq, Links}
use bocpy.Bq.Chain.{Holds, Chain-agree}
use bocpy.Bq.Enqueue.{enqueue_appends, enqueue_links_ne}
use bocpy.Bq.Dequeue.{oldest, rest, dequeue_refines}
use bocpy.Sched.{Workers, queue, put}

abbrev pub is_home : Option ℕ → ℕ → Bool
is_home none k = false
is_home (some j) k = j == k

-- Queue `k` holds the nodes `contents k`, oldest first, and `home` tells for every node which queue
-- holds it, if any.
pub record Valid (s : Workers) (contents : ℕ → List ℕ) (home : ℕ → Option ℕ) : Type 0 where
  pub holds : (k : ℕ) → Holds (queue s k) (contents k)
  pub homes : (k n : ℕ) → contains (contents k) n ≡ is_home (home n) k

Holds-agree :
    (s : Workers) (links : Links) (k : ℕ) (xs : List ℕ)
    → ((m : ℕ) → contains xs m ≡ true → links m ≡ s.links m)
    → Holds (queue s k) xs
    → Holds (record (queue s k) { links = links }) xs
Holds-agree s links k xs same h = record {
  chain = Chain-agree s.links links xs (s.front k) none same h.chain;
  at_back = h.at_back;
  distinct = h.distinct;
}

-- A call that turns queue `k` into `q`, and writes no link of another queue's nodes.
pub put-Valid :
    (s : Workers) (contents : ℕ → List ℕ) (home home' : ℕ → Option ℕ) (k : ℕ) (q : Bq) (xs : List ℕ)
    → Valid s contents home
    → Holds q xs
    → ((j : ℕ) → k ≢ j → (m : ℕ) → contains (contents j) m ≡ true → q.links m ≡ s.links m)
    → ((n : ℕ) → contains xs n ≡ is_home (home' n) k)
    → ((j : ℕ) → k ≢ j → (n : ℕ) → is_home (home' n) j ≡ is_home (home n) j)
    → Valid (put s k q) (update contents k xs) home'
put-Valid s contents home home' k q xs v h same here there = record {
  holds = λ j. elim (ℕ_discrete k j) [
    | yes e ↦
        subst (λ i. Holds (queue (put s k q) i) (update contents k xs i)) e
          (rw
            (update_self s.front k q.front, update_self s.back k q.back, update_self contents k xs)
            h)
    | no ne ↦
        rw
          (
            update_ne s.front k q.front j ne,
            update_ne s.back k q.back j ne,
            update_ne contents k xs j ne,
          )
          (Holds-agree s q.links j (contents j) (same j ne) (v.holds j))
  ];
  homes = λ j n. elim (ℕ_discrete k j) [
    | yes e ↦
        subst (λ i. contains (update contents k xs i) n ≡ is_home (home' n) i) e
          (rw (update_self contents k xs) (here n))
    | no ne ↦ rw (update_ne contents k xs j ne) (v.homes j n ∙ sym (there j ne n))
  ];
}

-- Cursors and the other fields do not matter.
pub same-Valid :
    (s t : Workers) (contents : ℕ → List ℕ) (home : ℕ → Option ℕ)
    → t.links ≡ s.links
    → t.front ≡ s.front
    → t.back ≡ s.back
    → Valid s contents home
    → Valid t contents home
same-Valid s t contents home e f g v = record {
  holds = λ k. rw (e, f, g) (v.holds k);
  homes = v.homes;
}

pub homeless :
    (s : Workers) (contents : ℕ → List ℕ) (home : ℕ → Option ℕ) (n j : ℕ)
    → Valid s contents home
    → home n ≡ none
    → contains (contents j) n ≡ false
homeless s contents home n j v e = v.homes j n ∙ ap (λ h. is_home h j) e

pub elsewhere :
    (s : Workers) (contents : ℕ → List ℕ) (home : ℕ → Option ℕ) (k j n : ℕ)
    → Valid s contents home
    → k ≢ j
    → contains (contents j) n ≡ true
    → contains (contents k) n ≡ false
elsewhere s contents home k j n v ne there = ground (arith, v.homes j n, v.homes k n)

-- `boc_bq_enqueue` on queue `k` of a node that no queue holds.
pub enqueue-Valid :
    (s : Workers) (contents : ℕ → List ℕ) (home : ℕ → Option ℕ) (k n : ℕ)
    → Valid s contents home
    → home n ≡ none
    → Valid
        (put s k (Bq.enqueue (queue s k) n))
        (update contents k (contents k ++ (n ∷ [])))
        (update home n (some k))
enqueue-Valid s contents home k n v free =
    put-Valid s contents home (update home n (some k)) k (Bq.enqueue (queue s k) n)
      (contents k ++ (n ∷ [])) v
      (enqueue_appends (queue s k) (contents k) n (v.holds k)
        (contains-NotIn (contents k) n (homeless s contents home n k v free)))
      (λ j ne m there.
        enqueue_links_ne (queue s k) (contents k) n m (v.holds k)
          (contains-NotIn (contents k) m (elsewhere s contents home k j m v ne there))
          (λ e. ground (arith, e, homeless s contents home n j v free)))
      (λ m. ground (arith, contains-snoc (contents k) n m, v.homes k m)) (λ j ne m. ground arith)

-- The homes after the node that a dequeue returned has left.
abbrev pub leave : Option ℕ → (ℕ → Option ℕ) → ℕ → Option ℕ
leave none home = home
leave (some x) home = update home x none

rest-contains :
    (xs : List ℕ) (k : ℕ) (home : ℕ → Option ℕ)
    → IsDistinct xs
    → ((n : ℕ) → contains xs n ≡ is_home (home n) k)
    → (n : ℕ) → contains (rest xs) n ≡ is_home (leave (oldest xs) home n) k
rest-contains [] k home d h n = h n
rest-contains (x ∷ xs) k home d h n = ground (arith, h n, NotIn-contains xs x d.0)

leave-elsewhere :
    (xs : List ℕ) (k j : ℕ) (home : ℕ → Option ℕ)
    → k ≢ j
    → ((n : ℕ) → contains xs n ≡ is_home (home n) k)
    → (n : ℕ) → is_home (leave (oldest xs) home n) j ≡ is_home (home n) j
leave-elsewhere [] k j home ne h n = refl
leave-elsewhere (x ∷ xs) k j home ne h n = ground (arith, h n)

-- `boc_bq_dequeue` on queue `k`.
pub dequeue-Valid :
    (s : Workers) (contents : ℕ → List ℕ) (home : ℕ → Option ℕ) (k : ℕ)
    → Valid s contents home
    → Valid
        (put s k (Bq.dequeue (queue s k)).1)
        (update contents k (rest (contents k)))
        (leave (oldest (contents k)) home)
dequeue-Valid s contents home k v =
    let (_, h, links) = dequeue_refines (queue s k) (contents k) (v.holds k) in
    put-Valid s contents home (leave (oldest (contents k)) home) k (Bq.dequeue (queue s k)).1
      (rest (contents k)) v h (λ j ne m there. ap (λ f. f m) links)
      (rest-contains (contents k) k home (v.holds k).distinct (v.homes k))
      (λ j ne. leave-elsewhere (contents k) k j home ne (v.homes k))

-- A dequeue at an empty queue changes nothing.
pub dequeue-Valid_empty :
    (s : Workers) (contents : ℕ → List ℕ) (home : ℕ → Option ℕ) (k : ℕ)
    → Valid s contents home
    → contents k ≡ []
    → Valid (put s k (Bq.dequeue (queue s k)).1) contents home
dequeue-Valid_empty s contents home k v e =
    let w = dequeue-Valid s contents home k v in
    record {
      holds = λ j.
          subst (λ xs. Holds (queue (put s k (Bq.dequeue (queue s k)).1) j) xs) (same j)
            (w.holds j);
      homes = v.homes;
    }
  where
    same : (j : ℕ) → update contents k (rest (contents k)) j ≡ contents j
    same j = elim (ℕ_discrete k j) [
      | yes h ↦
          subst (λ i. update contents k (rest (contents k)) i ≡ contents i) h
            (update_self contents k (rest (contents k)) ∙ rw e refl)
      | no ne ↦ update_ne contents k (rest (contents k)) j ne
    ]
