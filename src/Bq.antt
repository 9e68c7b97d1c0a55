-- ===== src/Bq.antt =====
-- src/bocpy/boc_sched.c and boc_sched.h: `boc_bq_t`, the intrusive queue of behaviour nodes that the
-- scheduler's workers own. Nodes are addresses; their `next_in_queue` links are a memory that the
-- operations read and write as the source does. Each operation runs without interference here.
pub mod Chain
pub mod Enqueue
pub mod Dequeue
pub mod Refine
mod Tests
use bocpy.Base.{ℕ, ◌==◌, if◌then◌else◌, Bool, true, false, Option, none, some, update}

-- Where a `boc_atomic_ptr_t *` can point: at the front of the queue, or at the link of a node.
pub data Slot : Type 0 where
  front_slot : Slot
  next_in_queue : ℕ → Slot

-- The `next_in_queue` field of every node; `none` is NULL.
abbrev pub Links : Type 0
Links = ℕ → Option ℕ

-- `boc_bq_t`, with the links of the nodes.
pub record Bq : Type 0 where
  pub links : Links
  pub front : Option ℕ
  pub back : Slot

-- `boc_bq_segment_t`; `end` is NULL (`none`) in the empty segment only.
pub record Segment : Type 0 where
  pub start : Option ℕ
  pub end : Option Slot

abbrev pub empty_segment : Segment
empty_segment = record { start = none; end = none }

-- `boc_atomic_store_ptr_explicit(slot, v)`
abbrev pub store : Bq → Slot → Option ℕ → Bq
store q front_slot v = record q { front = v }
store q (next_in_queue n) v = record q { links = update q.links n v }

unfoldable pub init : Links → Bq
init links = record { links = links; front = none; back = front_slot }

unfoldable pub acquire_front : Bq → Option ℕ × Bq
acquire_front q = elim q.front [ none ↦ (none, q) | some n ↦ (some n, record q { front = none }) ]

-- A segment's end is not NULL where this is called; a call with NULL changes nothing here.
unfoldable pub enqueue_segment : Bq → Segment → Bq
enqueue_segment q s = elim s.end [
  | none ↦ q
  | some e ↦
      let cleared = store q e none in store (record cleared { back = e }) cleared.back s.start
]

unfoldable pub enqueue : Bq → ℕ → Bq
unfolding enqueue_segment
enqueue q n = enqueue_segment q (record { start = some n; end = some (next_in_queue n) })

unfoldable pub enqueue_front : Bq → ℕ → Bq
unfolding enqueue acquire_front
enqueue_front q n =
    let (old_front, q') = acquire_front q in
    elim old_front [
      | none ↦ enqueue q' n
      | some f ↦ record q' { links = update q'.links n (some f); front = some n }
    ]

-- `expected == &old_front->next_in_queue`
abbrev pub is_link : Slot → ℕ → Bool
is_link front_slot n = false
is_link (next_in_queue m) n = m == n

-- The compare-exchange on `back` fails only when an enqueuer has moved `back` on.
unfoldable pub dequeue : Bq → Option ℕ × Bq
unfolding acquire_front
dequeue q =
    let (old_front, q') = acquire_front q in
    elim old_front [
      | none ↦ (none, q')
      | some f ↦ elim (q'.links f) [
        | some new_front ↦ (some f, record q' { front = some new_front })
        | none ↦
            if is_link q'.back f
            then (some f, record q' { back = front_slot })
            else (none, record q' { front = some f })
      ]
    ]

unfoldable pub dequeue_all : Bq → Segment × Bq
unfolding acquire_front
dequeue_all q =
    let (old_front, q') = acquire_front q in
    elim old_front [
      | none ↦ (empty_segment, q')
      | some f ↦ (record { start = some f; end = some q'.back }, record q' { back = front_slot })
    ]

-- The node taken and the segment that is left.
unfoldable pub segment_take_one : Links → Segment → Option ℕ × Segment
segment_take_one links s = elim s.start [
  | none ↦ (none, s)
  | some n ↦ elim (links n) [
    | none ↦ (none, s)
    | some next ↦ (some n, record s { start = some next })
  ]
]

unfoldable pub is_empty : Bq → Bool
is_empty q = elim q.back [ front_slot ↦ true | next_in_queue _ ↦ false ]
