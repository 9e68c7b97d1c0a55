-- ===== src/Sched/Tests.antt =====
-- The theorems on the workers at two workers, three nodes in the first queue of worker 0.
use bocpy.Base.{
  ℕ, ◌≡◌, ◌≢◌, ◌≤◌, true, false, weight, Option, none, some, List, [], ◌∷◌, ◌++◌, length, update,
  arith, refl, map,
}
use bocpy.Bq
use bocpy.Bq.{Segment, next_in_queue, front_slot}
use bocpy.Bq.Dequeue.{oldest}
use bocpy.Sched.{Workers, queue, put, wsq_enqueue_spread, try_steal, pop_fast}
use bocpy.Sched.Queues.{Valid, same-Valid, enqueue-Valid}
use bocpy.Sched.Spread.{Landed, Loose, wsq_enqueue_spread_lem}
use bocpy.Sched.Steal.{Stole, loot, try_steal_lem}
use bocpy.Sched.Dispatch.{Popped, pop_fast-Popped}
use bocpy.Sched.Park
use bocpy.Sched.Park.{Parking}
use bocpy.Sched.Park.Parked.{Tallied, asleep_seen}
use bocpy.Sched.Park.Lost.{all_awake, Stranded, lost_wake_up}
use bocpy.Sched.Fairness.{busy, busy_lem, Queued}
use bocpy.Sched.Cursors.{Bounded}
use bocpy.Sched.Runs.{start, then_step, register, pop, sched_init-Bounded}
use bocpy.Sched.Setup.{new_workers, sched_init, worker_register}

abbrev idle : Workers
idle = new_workers 2

idle-Valid : Valid idle (λ _. []) (λ _. none)
idle-Valid = record {
  holds = λ k. record { chain = refl; at_back = refl; distinct = tt };
  homes = λ k n. refl;
}

abbrev on_first : ℕ → Workers → Workers
on_first n s = put s 0 (Bq.enqueue (queue s 0) n)

abbrev loaded : Workers
loaded = on_first 7 (on_first 6 (on_first 5 idle))

abbrev contents : ℕ → List ℕ
contents = update (update (update (λ _. []) 0 (5 ∷ [])) 0 (5 ∷ 6 ∷ [])) 0 (5 ∷ 6 ∷ 7 ∷ [])

abbrev home : ℕ → Option ℕ
home = update (update (update (λ _. none) 5 (some 0)) 6 (some 0)) 7 (some 0)

loaded-Valid : Valid loaded contents home
loaded-Valid =
    enqueue-Valid _ _ _ 0 7
      (enqueue-Valid _ _ _ 0 6 (enqueue-Valid idle (λ _. []) (λ _. none) 0 5 idle-Valid refl) refl)
      refl

-- A worker that has not to steal, with two of its batch left.
abbrev calm : Workers
calm = record loaded { should_steal = λ _. false; batch = λ _. 2 }

calm-Valid : Valid calm contents home
calm-Valid = same-Valid loaded calm contents home refl refl refl loaded-Valid

-- Nodes 8 and 9, which no queue holds, as one segment.
abbrev linked : Workers
linked = record idle { links = update idle.links 8 (some 9) }

linked-Valid : Valid linked (λ _. []) (λ _. none)
linked-Valid = record {
  holds = λ k. record { chain = refl; at_back = refl; distinct = tt };
  homes = λ k n. refl;
}

abbrev segment : Segment
segment = record { start = some 8; end = some (next_in_queue 9) }

segment-Loose : Loose linked.links (λ _. none) segment 8 (9 ∷ [])
segment-Loose = record {
  chain = (refl, (refl, refl));
  at_end = refl;
  distinct = (omega arith, omega arith);
  free = λ n _. refl;
}

wsq_enqueue_spread_lem_example :
    (t : Workers) × ((wsq_enqueue_spread 2 1 segment linked ≡ some t)
      × Landed 1 (8 ∷ 9 ∷ []) (λ _. none) t)
wsq_enqueue_spread_lem_example =
    wsq_enqueue_spread_lem 2 1 segment 8 (9 ∷ []) linked (λ _. []) (λ _. none) (omega arith)
      linked-Valid segment-Loose

few : (k : ℕ) → length (contents k) ≤ 3
few k = ground arith

try_steal_lem_example :
    (t : Workers) × ((try_steal 3 1 loaded ≡ some (oldest (loot 1 loaded contents), t))
      × Stole 1 (loot 1 loaded contents) home t)
try_steal_lem_example = try_steal_lem 3 1 loaded contents home few loaded-Valid

pop_fast-Popped_example : Popped calm contents home 0 (pop_fast 0 calm)
pop_fast-Popped_example = pop_fast-Popped 0 calm contents home calm-Valid

busy_lem_example :
    (x : ℕ) × ((busy 0 ((10 ∷ 11 ∷ []) ++ (12 ∷ [])) calm
        ≡ map (λ m. some m) (10 ∷ 11 ∷ []) ++ (some x ∷ []))
      × Queued contents 0 x)
busy_lem_example =
    busy_lem 0 (10 ∷ 11 ∷ []) 12 0 calm contents home calm-Valid refl refl refl
      (omega arith, omega arith) (λ e. ground (arith, e))

started : sched_init false 2 ≡ some idle
unfolding sched_init
started = refl

sched_init-Bounded_example : Bounded (pop_fast 0 (worker_register idle).1).1
sched_init-Bounded_example =
    sched_init-Bounded false 2 idle (pop_fast 0 (worker_register idle).1).1 started
      (then_step _ _ (then_step _ _ start register) (pop 0))

lost_wake_up_example : (t : Parking) × (Park.Run (all_awake 7) t × Stranded t)
lost_wake_up_example = lost_wake_up 7 (omega arith)

-- Worker 0 goes to sleep.
abbrev to_sleep : (t : Parking) × Park.Run (all_awake 7) t
to_sleep =
    let r1 = Park.and_then _ _ Park.start (Park.snap 0 (omega arith) refl) in
    let r2 = Park.and_then _ _ r1 (Park.pause 0 7 refl) in
    let r3 = Park.and_then _ _ r2 (Park.scan_next 0 7 0 refl (omega arith) refl) in
    let r4 = Park.and_then _ _ r3 (Park.scan_end 0 7 refl) in
    let r5 = Park.and_then _ _ r4 (Park.lock 0 7 refl refl) in
    let r6 = Park.and_then _ _ r5 (Park.accept 0 7 refl refl refl) in
    let r7 = Park.and_then _ _ r6 (Park.mark 0 refl) in
    let r8 = Park.and_then _ _ r7 (Park.count 0 refl) in
    let r9 = Park.and_then _ _ r8 (Park.wait 0 refl) in (_, r9)

all_awake-Tallied : Tallied (all_awake 7)
unfolding weight
all_awake-Tallied = record { only_workers = λ w beyond. refl; total = refl; flags = λ w. refl }

asleep_seen_example : (to_sleep.0.parked_count ≢ 0) × (to_sleep.0.parked 0 ≡ true)
asleep_seen_example =
    asleep_seen (all_awake 7) to_sleep.0 0 all_awake-Tallied to_sleep.1 (omega arith) refl
