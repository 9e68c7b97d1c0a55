-- ===== src/Sched/Cursors.antt =====
-- The cursors and batches of the workers of boc_sched.c and boc_sched.h stay in range in the operations
-- on the queues of a worker.
use bocpy.Base.{
  ℕ, zero, suc, ◌+◌, ◌*◌, ◌≡◌, ◌≤◌, ◌<◌, inl, inr, Option, none, some, update, arith, Option-cases,
}
use bocpy.Bq
use bocpy.Bq.{Segment, Bq, enqueue_segment, segment_take_one, dequeue_all}
use bocpy.Sched.{
  Workers, queue, put, pre_inc, sub_queues, batch_size, dequeue_rounds, wsq_enqueue,
  wsq_enqueue_spread,
}

-- Every cursor of every worker is an index of its array of queues, and no batch is over its size.
pub record Bounded (s : Workers) : Type 0 where
  pub enqueue_in : (w : ℕ) → s.enqueue_index w < sub_queues
  pub dequeue_in : (w : ℕ) → s.dequeue_index w < sub_queues
  pub steal_in : (w : ℕ) → s.steal_index w < sub_queues
  pub batch_in : (w : ℕ) → s.batch w ≤ batch_size

pub update-below :
    (f : ℕ → ℕ) (b k v : ℕ) → ((w : ℕ) → f w < b) → v < b → (w : ℕ) → update f k v w < b
update-below f b k v all new w = ground (arith, all w)

pub update-at_most :
    (f : ℕ → ℕ) (b k v : ℕ) → ((w : ℕ) → f w ≤ b) → v ≤ b → (w : ℕ) → update f k v w ≤ b
update-at_most f b k v all new w = ground (arith, all w)

pub pre_inc_in : (idx : ℕ) → pre_inc idx < sub_queues
unfolding pre_inc
pre_inc_in idx = omega arith

pub dequeue_rounds-Bounded :
    (rounds w : ℕ) (s : Workers) → Bounded s → Bounded (dequeue_rounds rounds w s).1
unfolding dequeue_rounds
dequeue_rounds-Bounded zero w s b = b
dequeue_rounds-Bounded (suc rounds) w s b =
    let k = 4 * w + pre_inc (s.dequeue_index w) in
    let t : Workers = record (put s k (Bq.dequeue (queue s k)).1) {
      dequeue_index = update s.dequeue_index w (pre_inc (s.dequeue_index w));
    } in
    let b' : Bounded t = record {
      enqueue_in = b.enqueue_in;
      dequeue_in =
          update-below s.dequeue_index 4 w (pre_inc (s.dequeue_index w)) b.dequeue_in
            (pre_inc_in (s.dequeue_index w));
      steal_in = b.steal_in;
      batch_in = b.batch_in;
    } in
    elim (Option-cases (Bq.dequeue (queue s k)).0) [
      | inl e ↦ rw (dequeue_rounds, e) (dequeue_rounds-Bounded rounds w t b')
      | inr (x, e) ↦ rw (dequeue_rounds, e) b'
    ]

-- What a call that may run out of fuel, or fail, gives.
abbrev pub OnSome : {A : Type 0} → (A → Type 0) → Option A → Type 0
OnSome P none = Unit
OnSome P (some a) = P a

pub same_cursors-Bounded :
    (s t : Workers)
    → t.enqueue_index ≡ s.enqueue_index
    → t.dequeue_index ≡ s.dequeue_index
    → t.steal_index ≡ s.steal_index
    → ((w : ℕ) → t.batch w ≤ batch_size)
    → Bounded s
    → Bounded t
same_cursors-Bounded s t e f g batches b = record {
  enqueue_in = rw (e) b.enqueue_in;
  dequeue_in = rw (f) b.dequeue_in;
  steal_in = rw (g) b.steal_in;
  batch_in = batches;
}

pub full_batch :
    (w : ℕ) (s : Workers) → Bounded s → (v : ℕ) → update s.batch w batch_size v ≤ batch_size
full_batch w s b = update-at_most s.batch batch_size w batch_size b.batch_in (omega arith)

cursor-Bounded :
    (w : ℕ) (s : Workers) (q : Bq)
    → Bounded s
    → Bounded (record (put s (4 * w + pre_inc (s.enqueue_index w)) q) {
      enqueue_index = update s.enqueue_index w (pre_inc (s.enqueue_index w));
    })
cursor-Bounded w s q b = record {
  enqueue_in =
      update-below s.enqueue_index 4 w (pre_inc (s.enqueue_index w)) b.enqueue_in
        (pre_inc_in (s.enqueue_index w));
  dequeue_in = b.dequeue_in;
  steal_in = b.steal_in;
  batch_in = b.batch_in;
}

pub wsq_enqueue-Bounded : (w n : ℕ) (s : Workers) → Bounded s → Bounded (wsq_enqueue w n s)
unfolding wsq_enqueue
wsq_enqueue-Bounded w n s b =
    cursor-Bounded w s (Bq.enqueue (queue s (4 * w + pre_inc (s.enqueue_index w))) n) b

pub spread-Bounded :
    (fuel w : ℕ) (ls : Segment) (s : Workers)
    → Bounded s
    → OnSome Bounded (wsq_enqueue_spread fuel w ls s)
unfolding wsq_enqueue_spread
spread-Bounded zero w ls s b = tt
spread-Bounded (suc fuel) w ls s b =
    let o = segment_take_one s.links ls in
    elim (Option-cases o.0) [
      | inl e ↦
          rw (wsq_enqueue_spread, e)
            (cursor-Bounded w s
              (enqueue_segment (queue s (4 * w + pre_inc (s.enqueue_index w))) o.1) b)
      | inr (x, e) ↦
          rw (wsq_enqueue_spread, e)
            (spread-Bounded fuel w o.1 (wsq_enqueue w x s) (wsq_enqueue-Bounded w x s b))
    ]
