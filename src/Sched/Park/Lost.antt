-- ===== src/Sched/Park/Lost.antt =====
-- A wake-up that the parking of workers loses: UNPAUSE_EPOCH can go back to an older value.
use bocpy.Base.{ℕ, ◌+◌, ◌%◌, ◌^◌, ◌≡◌, ◌≢◌, ◌<◌, false, arith, refl}
use bocpy.Sched.Park.{
  awake, asleep, idle, Parking, take, snap, pause, scan_next, scan_end, lock, accept, mark, count,
  wait, enqueue, load_pause, load_unpause, exchange, none_parked, lock_target, signal,
  unlock_target, Run, start, and_then,
}

-- One worker, awake and without work, and threads that dispatch nothing, with both epochs at `e`.
abbrev pub all_awake : ℕ → Parking
all_awake e = record {
  worker_count = 1;
  pause_epoch = e;
  unpause_epoch = e;
  parked_count = 0;
  parked = λ _. false;
  stop_requested = λ _. false;
  locked = λ _. false;
  queued = λ _. 0;
  worker = λ _. awake;
  dispatcher = λ _. idle;
}

abbrev next : ℕ → ℕ
next e = (e + 1) % 2 ^ 64

-- The worker, number 0, sleeps though a node is in its queue, and the threads 0 and 1 are done dispatching.
pub record Stranded (t : Parking) : Type 0 where
  pub sleeps : t.worker 0 ≡ asleep
  pub has_work : t.queued 0 ≡ 1
  pub both_done : (t.dispatcher 0 ≡ idle) × (t.dispatcher 1 ≡ idle)

next_ne : (e : ℕ) → e < 2 ^ 64 → next e ≢ e
next_ne e fits h = omega (arith, h)

ne_next : (e : ℕ) → e < 2 ^ 64 → e ≢ next e
ne_next e fits h = omega (arith, h)

zero_lt_one : 0 < 1
zero_lt_one = omega arith

-- From any epoch at which the only worker is awake, its steps and those of two dispatching threads lead
-- to a state in which it sleeps with a node in its queue, and both dispatches are over: a late
-- exchange of UNPAUSE_EPOCH, by a thread that read PAUSE_EPOCH before, sets it back to the value that
-- the worker remembers.
pub lost_wake_up : (e : ℕ) → e < 2 ^ 64 → (t : Parking) × (Run (all_awake e) t × Stranded t)
lost_wake_up e fits =
    let r1 = and_then _ _ start (enqueue 1 0 refl zero_lt_one) in
    let r2 = and_then _ _ r1 (load_pause 1 0 refl) in
    let r3 = and_then _ _ r2 (take 0 0 refl zero_lt_one) in
    let r4 = and_then _ _ r3 (snap 0 zero_lt_one refl) in
    let r5 = and_then _ _ r4 (pause 0 e refl) in
    let r6 = and_then _ _ r5 (scan_next 0 e 0 refl zero_lt_one refl) in
    let r7 = and_then _ _ r6 (scan_end 0 e refl) in
    let r8 = and_then _ _ r7 (enqueue 0 0 refl zero_lt_one) in
    let r9 = and_then _ _ r8 (load_pause 0 0 refl) in
    let r10 = and_then _ _ r9 (load_unpause 0 0 (next e) refl) in
    let r11 = and_then _ _ r10 (exchange 0 0 (next e) e refl (next_ne e fits) refl) in
    let r12 = and_then _ _ r11 (none_parked 0 0 refl refl) in
    let r13 = and_then _ _ r12 (lock_target 0 0 refl refl) in
    let r14 = and_then _ _ r13 (signal 0 0 refl) in
    let r15 = and_then _ _ r14 (unlock_target 0 0 refl) in
    let r16 = and_then _ _ r15 (load_unpause 1 0 e refl) in
    let r17 = and_then _ _ r16 (exchange 1 0 e (next e) refl (ne_next e fits) refl) in
    let r18 = and_then _ _ r17 (none_parked 1 0 refl refl) in
    let r19 = and_then _ _ r18 (lock_target 1 0 refl refl) in
    let r20 = and_then _ _ r19 (signal 1 0 refl) in
    let r21 = and_then _ _ r20 (unlock_target 1 0 refl) in
    let r22 = and_then _ _ r21 (lock 0 e refl refl) in
    let r23 = and_then _ _ r22 (accept 0 e refl refl refl) in
    let r24 = and_then _ _ r23 (mark 0 refl) in
    let r25 = and_then _ _ r24 (count 0 refl) in
    let r26 = and_then _ _ r25 (wait 0 refl) in
    (_, (r26, record { sleeps = refl; has_work = refl; both_done = (refl, refl) }))
