-- ===== src/Sched.antt =====
-- src/bocpy/boc_sched.c and boc_sched.h: the workers, each with four queues of behaviour nodes, a
-- pending node of its thread, and cursors. Worker `w` has the queues 4 * w to 4 * w + 3, which share
-- one memory of links. One call runs at a time; statistics are left out.
mod Queues
mod Wsq
mod Spread
mod Cursors
mod Robbed
mod Steal
mod Dispatch
mod Fairness
mod Bounds
mod Runs
mod Setup
mod Park
mod Tests
use bocpy.Base.{
  ℕ, zero, suc, ◌+◌, ◌-◌, ◌*◌, ◌%◌, ◌==◌, if◌then◌else◌, ltb, leb, ◌^◌, ◌&&◌, not, Bool, true,
  false, Option, none, some, List, [], ◌∷◌, ◌++◌, update,
}
use bocpy.Bq
use bocpy.Bq.{
  Slot, front_slot, next_in_queue, Links, Bq, Segment, dequeue_all, segment_take_one,
  enqueue_segment, init,
}

-- `WORKERS` and `WORKER_COUNT`, with the thread-local variables of each worker's thread and of one
-- thread that is no worker (`rr_nonlocal`, and whether its incarnation is the present one).
pub record Workers : Type 0 where
  pub worker_count : ℕ
  pub links : Links
  pub front : ℕ → Option ℕ
  pub back : ℕ → Slot
  pub enqueue_index : ℕ → ℕ
  pub dequeue_index : ℕ → ℕ
  pub steal_index : ℕ → ℕ
  pub should_steal : ℕ → Bool
  pub token_work : ℕ → Option ℕ
  pub pending : ℕ → Option ℕ
  pub batch : ℕ → ℕ
  pub steal_victim : ℕ → Option ℕ
  pub rr_nonlocal : Option ℕ
  pub registered : ℕ  -- REGISTERED_COUNT, a 32-bit word

-- `BOC_WSQ_N` and `BOC_BQ_BATCH_SIZE`
abbrev pub sub_queues : ℕ
sub_queues = 4

abbrev pub batch_size : ℕ
batch_size = 100

abbrev pub queue : Workers → ℕ → Bq
queue s k = record { links = s.links; front = s.front k; back = s.back k }

abbrev pub put : Workers → ℕ → Bq → Workers
put s k q = record s {
  links = q.links;
  front = update s.front k q.front;
  back = update s.back k q.back;
}

abbrev pub next_in_ring : Workers → ℕ → ℕ
next_in_ring s w = elim s.worker_count [ zero ↦ 0 | suc n ↦ (w + 1) % suc n ]

-- The new index, which `boc_wsq_pre_inc` stores and returns.
unfoldable pub pre_inc : ℕ → ℕ
pre_inc idx = (idx + 1) % sub_queues

-- The old index that `boc_wsq_post_dec` returns, and the new one.
unfoldable pub post_dec : ℕ → ℕ × ℕ
post_dec idx = (idx, if idx == 0 then sub_queues - 1 else idx - 1)

unfoldable pub wsq_enqueue : ℕ → ℕ → Workers → Workers
unfolding pre_inc
wsq_enqueue w n s =
    let idx = pre_inc (s.enqueue_index w) in
    let s' = put s (4 * w + idx) (Bq.enqueue (queue s (4 * w + idx)) n) in
    record s' { enqueue_index = update s.enqueue_index w idx }

-- The rounds of the loop of `boc_wsq_dequeue` that are left.
unfoldable pub dequeue_rounds : ℕ → ℕ → Workers → Option ℕ × Workers
unfolding pre_inc
dequeue_rounds zero w s = (none, s)
dequeue_rounds (suc rounds) w s =
    let idx = pre_inc (s.dequeue_index w) in
    let (n, q) = Bq.dequeue (queue s (4 * w + idx)) in
    let s' = record (put s (4 * w + idx) q) { dequeue_index = update s.dequeue_index w idx } in
    let later = dequeue_rounds rounds w s' in elim n [ some x ↦ (some x, s') | none ↦ later ]

unfoldable pub wsq_dequeue : ℕ → Workers → Option ℕ × Workers
unfolding dequeue_rounds
wsq_dequeue w s = dequeue_rounds sub_queues w s

unfoldable pub all_empty : ℕ → ℕ → Workers → Bool
all_empty zero k s = true
all_empty (suc n) k s =
    let rest = all_empty n (k + 1) s in if not (Bq.is_empty (queue s k)) then false else rest

unfoldable pub wsq_is_empty : ℕ → Workers → Bool
unfolding all_empty
wsq_is_empty w s = all_empty sub_queues (4 * w) s

-- `boc_wsq_enqueue_spread`. Its loop has no bound: `none` if it is not done after `fuel` rounds.
unfoldable pub wsq_enqueue_spread : (fuel : ℕ) → ℕ → Segment → Workers → Option Workers
unfolding wsq_enqueue pre_inc
wsq_enqueue_spread zero w ls s = none
wsq_enqueue_spread (suc fuel) w ls s =
    let (n, left) = segment_take_one s.links ls in
    elim n [
      | some x ↦ wsq_enqueue_spread fuel w left (wsq_enqueue w x s)
      | none ↦
          let idx = pre_inc (s.enqueue_index w) in
          let s' = put s (4 * w + idx) (enqueue_segment (queue s (4 * w + idx)) left) in
          some (record s' { enqueue_index = update s.enqueue_index w idx })
    ]

abbrev pub is_end : Segment → Option ℕ → Bool
is_end ls none = false
is_end ls (some x) = elim ls.end [
  | none ↦ false
  | some e ↦ elim e [ front_slot ↦ false | next_in_queue m ↦ m == x ]
]

abbrev pub is_null : Option Slot → Bool
is_null none = true
is_null (some e) = false

-- What `boc_sched_try_steal` does after it takes one node off the segment it stole.
unfoldable pub after_take :
    (fuel : ℕ) → (self : ℕ) → Workers → Option ℕ × Segment → Option (Option ℕ × Workers)
unfolding wsq_enqueue_spread
after_take fuel self s (some x, left) = elim (wsq_enqueue_spread fuel self left s) [
  | none ↦ none
  | some t ↦ some (some x, t)
]
after_take fuel self s (none, left) =
    if is_null left.end
    then some (none, s)
    else if is_end left left.start
    then some (left.start, s)
    else elim (wsq_enqueue_spread fuel self left s) [ none ↦ none | some t ↦ some (none, t) ]

-- What follows the choice of a victim other than `self` in `boc_sched_try_steal`.
unfoldable pub steal_from : (fuel : ℕ) → (self victim : ℕ) → Workers → Option (Option ℕ × Workers)
unfolding after_take
steal_from fuel self victim s =
    let k = 4 * victim + s.steal_index self in
    let (seg, q) = dequeue_all (queue s k) in
    let s' = put s k q in after_take fuel self s' (segment_take_one s'.links seg)

unfoldable pub try_steal : (fuel : ℕ) → (self : ℕ) → Workers → Option (Option ℕ × Workers)
unfolding steal_from pre_inc
try_steal fuel self s =
    let victim : ℕ = elim (s.steal_victim self) [ none ↦ next_in_ring s self | some v ↦ v ] in
    let s' = record s {
      steal_victim = update s.steal_victim self (some (next_in_ring s victim));
    } in
    if victim == self
    then some
        (none, record s' { steal_index = update s.steal_index self (pre_inc (s.steal_index self)) })
    else steal_from fuel self victim s'

abbrev pub clear_pending : ℕ → ℕ → Workers → Workers
clear_pending w left s = record s {
  pending = update s.pending w none;
  batch = update s.batch w left;
}

-- What `boc_sched_worker_pop_fast` does after it dequeues.
unfoldable pub after_dequeue : ℕ → Option ℕ × Workers → Option ℕ × Workers
after_dequeue w (some x, t) = (some x, record t { batch = update t.batch w batch_size })
after_dequeue w (none, t) = elim (t.pending w) [
  | none ↦ (none, t)
  | some p ↦ (some p, clear_pending w batch_size t)
]

-- What follows the fast path of `pending` and the fairness test in `boc_sched_worker_pop_fast`.
unfoldable pub pop_queued : ℕ → Workers → Option ℕ × Workers
unfolding after_dequeue
pop_queued w s = after_dequeue w (wsq_dequeue w s)

-- `boc_sched_worker_pop_fast` for a worker; it returns NULL if the calling thread is none.
unfoldable pub pop_fast : ℕ → Workers → Option ℕ × Workers
unfolding pop_queued wsq_is_empty
pop_fast w s =
    let rest = if s.should_steal w && not (wsq_is_empty w s) then (none, s) else pop_queued w s in
    elim (s.pending w) [
      | none ↦ rest
      | some p ↦ if ltb 0 (s.batch w) then (some p, clear_pending w (s.batch w - 1) s) else rest
    ]

-- Where `boc_sched_dispatch` puts a node that is not pinned; `none` is its error, of a thread that is
-- no worker while there are none.
unfoldable pub dispatch : (self : Option ℕ) → ℕ → Workers → Option Workers
unfolding wsq_enqueue
dispatch (some w) n s =
    let s' : Workers = elim (s.pending w) [ none ↦ s | some p ↦ wsq_enqueue w p s ] in
    some (record s' { pending = update s'.pending w (some n) })
dispatch none n s =
    if s.worker_count == 0
    then none
    else let target : ℕ = elim s.rr_nonlocal [ none ↦ 0 | some w ↦ w ] in
      let s' = wsq_enqueue target n s in
      some (record s' { rr_nonlocal = some (next_in_ring s target) })
