-- ===== src/Sched/Bounds.antt =====
-- The cursors and batches of the workers stay in range in every call of boc_sched.c.
use bocpy.Base.{
  ℕ, ◌+◌, ◌-◌, ◌*◌, ◌==◌, inl, inr, not, leb, ltb, ◌&&◌, if◌then◌else◌, Option, none, some, update,
  arith, refl, Bool-cases, Option-cases,
}
use bocpy.Bq.{Segment, segment_take_one, dequeue_all}
use bocpy.Sched.{
  Workers, queue, put, pre_inc, batch_size, next_in_ring, is_end, is_null, wsq_enqueue, wsq_dequeue,
  wsq_enqueue_spread, after_take, steal_from, try_steal, clear_pending, after_dequeue, pop_queued,
  wsq_is_empty, pop_fast, dispatch,
}
use bocpy.Sched.Setup.{worker_register}
use bocpy.Sched.Cursors.{
  Bounded, update-below, update-at_most, pre_inc_in, dequeue_rounds-Bounded, OnSome,
  same_cursors-Bounded, full_batch, wsq_enqueue-Bounded, spread-Bounded,
}

abbrev pub BoundedAfter : Option ℕ × Workers → Type 0
BoundedAfter o = Bounded o.1

with_result :
    (r : Option ℕ) (o : Option Workers)
    → OnSome Bounded o
    → OnSome BoundedAfter
        (elim o as (λ _. Option (Option ℕ × Workers)) [ none ↦ none | some t ↦ some (r, t) ])
with_result r none b = tt
with_result r (some t) b = b

after_take-Bounded :
    (fuel w : ℕ) (s : Workers) (o : Option ℕ × Segment)
    → Bounded s
    → OnSome BoundedAfter (after_take fuel w s o)
unfolding after_take
after_take-Bounded fuel w s (some x, left) b =
    with_result (some x) (wsq_enqueue_spread fuel w left s) (spread-Bounded fuel w left s b)
after_take-Bounded fuel w s (none, left) b = elim (Bool-cases (is_null left.end)) [
  | inl e ↦ rw (e) b
  | inr e ↦ elim (Bool-cases (is_end left left.start)) [
    | inl f ↦ rw (e, f) b
    | inr f ↦
        rw (e, f)
          (with_result none (wsq_enqueue_spread fuel w left s) (spread-Bounded fuel w left s b))
  ]
]

pub try_steal-Bounded :
    (fuel w : ℕ) (s : Workers) → Bounded s → OnSome BoundedAfter (try_steal fuel w s)
unfolding try_steal steal_from
try_steal-Bounded fuel w s b = elim (Bool-cases (victim == w)) [
  | inl e ↦ rw (e) own_turn
  | inr e ↦
      let robbed = dequeue_all (queue s (4 * victim + s.steal_index w)) in
      rw (e) (
        after_take-Bounded fuel w (put s' (4 * victim + s.steal_index w) robbed.1)
          (segment_take_one robbed.1.links robbed.0)
          (same_cursors-Bounded s _ refl refl refl b.batch_in b))
]
  where
    victim : ℕ
    victim = elim (s.steal_victim w) [ none ↦ next_in_ring s w | some v ↦ v ]

    s' : Workers
    s' = record s { steal_victim = update s.steal_victim w (some (next_in_ring s victim)) }

    own_turn :
        Bounded (record s' { steal_index = update s'.steal_index w (pre_inc (s'.steal_index w)) })
    own_turn = record {
      enqueue_in = b.enqueue_in;
      dequeue_in = b.dequeue_in;
      steal_in =
          update-below s.steal_index 4 w (pre_inc (s.steal_index w)) b.steal_in
            (pre_inc_in (s.steal_index w));
      batch_in = b.batch_in;
    }

after_dequeue-Bounded :
    (w : ℕ) (o : Option ℕ × Workers) → Bounded o.1 → Bounded (after_dequeue w o).1
unfolding after_dequeue
after_dequeue-Bounded w (some x, t) b = same_cursors-Bounded t _ refl refl refl (full_batch w t b) b
after_dequeue-Bounded w (none, t) b = elim (Option-cases (t.pending w)) [
  | inl e ↦ rw (after_dequeue, e) b
  | inr (p, e) ↦
      rw (after_dequeue, e)
        (same_cursors-Bounded t (clear_pending w batch_size t) refl refl refl (full_batch w t b) b)
]

pub pop_fast-Bounded : (w : ℕ) (s : Workers) → Bounded s → Bounded (pop_fast w s).1
unfolding pop_fast pop_queued wsq_dequeue
pop_fast-Bounded w s b = elim (Option-cases (s.pending w)) [
  | inl e ↦ rw (pop_fast, e) rest
  | inr (p, e) ↦ elim (Bool-cases (ltb 0 (s.batch w))) [
    | inl f ↦
        rw (pop_fast, e, f)
          (same_cursors-Bounded s _ refl refl refl
            (update-at_most s.batch batch_size w (s.batch w - 1) b.batch_in
              (omega (arith, b.batch_in w)))
            b)
    | inr f ↦ rw (pop_fast, e, f) rest
  ]
]
  where
    queued : Bounded (pop_queued w s).1
    queued = after_dequeue-Bounded w (wsq_dequeue w s) (dequeue_rounds-Bounded 4 w s b)

    rest :
        Bounded (if s.should_steal w && not (wsq_is_empty w s) then (none, s) else pop_queued w s).1
    rest = elim (Bool-cases (s.should_steal w && not (wsq_is_empty w s))) [
      | inl e ↦ rw (e) b
      | inr e ↦ rw (e) queued
    ]

pub worker_register-Bounded : (s : Workers) → Bounded s → Bounded (worker_register s).1
unfolding worker_register
worker_register-Bounded s b = elim (Bool-cases (leb s.worker_count s.registered)) [
  | inl e ↦ rw (worker_register, e) (same_cursors-Bounded s _ refl refl refl b.batch_in b)
  | inr e ↦
      rw (worker_register, e)
        (same_cursors-Bounded s _ refl refl refl (full_batch s.registered s b) b)
]

pub dispatch-Bounded :
    (self : Option ℕ) (n : ℕ) (s : Workers) → Bounded s → OnSome Bounded (dispatch self n s)
unfolding dispatch
dispatch-Bounded (some w) n s b = elim (Option-cases (s.pending w)) [
  | inl e ↦ rw (dispatch, e) (same_cursors-Bounded s _ refl refl refl b.batch_in b)
  | inr (p, e) ↦
      let b' = wsq_enqueue-Bounded w p s b in
      rw (dispatch, e) (same_cursors-Bounded (wsq_enqueue w p s) _ refl refl refl b'.batch_in b')
]
dispatch-Bounded none n s b = elim (Bool-cases (s.worker_count == 0)) [
  | inl e ↦ rw (e) tt
  | inr e ↦
      let target : ℕ = elim s.rr_nonlocal [ none ↦ 0 | some w ↦ w ] in
      let b' = wsq_enqueue-Bounded target n s b in
      rw (e) (same_cursors-Bounded (wsq_enqueue target n s) _ refl refl refl b'.batch_in b')
]
