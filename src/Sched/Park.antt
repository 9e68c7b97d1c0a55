-- ===== src/Sched/Park.antt =====
-- The parking of idle workers in boc_sched.c: the end of `boc_sched_worker_pop_slow`, the end
-- of `boc_sched_dispatch` for threads that are no worker, `boc_sched_unpause_all` and
-- `boc_sched_signal_one`. A step is one atomic access, or one lock, signal, wait or unlock; only the
-- store to `parked` and the unlock after it are one step. Any number of workers and of dispatching
-- threads take turns. A queue is the number of its nodes, and what workers do while they are awake,
-- but for taking nodes, is left out.
pub mod Parked
pub mod Lost
use bocpy.Base.{ℕ, zero, suc, ◌+◌, ◌-◌, ◌%◌, ◌^◌, ◌≡◌, ◌≢◌, ◌<◌, Bool, true, false, update}

-- Where a worker is; `epoch` is its `ue_snap`.
pub data WorkerPc : Type 0 where
  awake : WorkerPc
  snapped : (epoch : ℕ) → WorkerPc
  scanning : (epoch next : ℕ) → WorkerPc
  scanned : (epoch : ℕ) → WorkerPc
  holding : (epoch : ℕ) → WorkerPc  -- has locked cv_mu
  accepted : WorkerPc  -- has seen UNPAUSE_EPOCH unchanged
  marked : WorkerPc  -- has set `parked`
  counted : WorkerPc  -- has added to PARKED_COUNT
  asleep : WorkerPc  -- in `cnd_wait`, which has unlocked cv_mu
  woken : WorkerPc  -- signalled, without cv_mu yet
  waking : WorkerPc
  uncounted : WorkerPc

-- Where a thread is that dispatches to `target`; `pe` and `ue` are its variables.
pub data DispatcherPc : Type 0 where
  idle : DispatcherPc
  enqueued : (target : ℕ) → DispatcherPc
  read_pause : (target pe : ℕ) → DispatcherPc
  read_unpause : (target pe ue : ℕ) → DispatcherPc
  unpausing : (target : ℕ) → DispatcherPc
  walking : (target visited : ℕ) → DispatcherPc
  rousing : (target visited : ℕ) → DispatcherPc  -- has seen the next worker parked
  rouse_holding : (target visited : ℕ) → DispatcherPc  -- has locked that worker's cv_mu
  rouse_sent : (target visited : ℕ) → DispatcherPc
  signalling : (target : ℕ) → DispatcherPc
  signal_holding : (target : ℕ) → DispatcherPc  -- has locked the target's cv_mu
  signal_sent : (target : ℕ) → DispatcherPc

pub record Parking : Type 0 where
  pub worker_count : ℕ
  pub pause_epoch : ℕ
  pub unpause_epoch : ℕ
  pub parked_count : ℕ
  pub parked : ℕ → Bool
  pub stop_requested : ℕ → Bool
  pub locked : ℕ → Bool  -- cv_mu
  pub queued : ℕ → ℕ
  pub worker : ℕ → WorkerPc
  pub dispatcher : ℕ → DispatcherPc

abbrev pub worker_to : ℕ → WorkerPc → Parking → Parking
worker_to w pc s = record s { worker = update s.worker w pc }

-- With the lock of cv_mu taken or given back on the way.
abbrev pub locking_to : ℕ → Bool → WorkerPc → Parking → Parking
locking_to w held pc s = record s { locked = update s.locked w held; worker = update s.worker w pc }

abbrev pub dispatcher_to : ℕ → DispatcherPc → Parking → Parking
dispatcher_to d pc s = record s { dispatcher = update s.dispatcher d pc }

-- `cnd_signal` wakes the worker if it waits.
abbrev pub signalled : WorkerPc → WorkerPc
signalled asleep = woken
signalled pc = pc

-- The worker that `boc_sched_unpause_all` visits after `visited` others.
abbrev pub nth_in_ring : Parking → ℕ → ℕ → ℕ
nth_in_ring s target visited = elim s.worker_count [
  | zero ↦ 0
  | suc n ↦ (target + 1 + visited) % suc n
]

pub data Step (s : Parking) : Parking → Type 0 where
  take :
      (w k : ℕ)
      → s.worker w ≡ awake
      → 0 < s.queued k
      → Step s (record s { queued = update s.queued k (s.queued k - 1) })
  snap :
      (w : ℕ)
      → w < s.worker_count
      → s.worker w ≡ awake
      → Step s (worker_to w (snapped s.unpause_epoch) s)
  pause :
      (w epoch : ℕ)
      → s.worker w ≡ snapped epoch
      → Step s
          (record (worker_to w (scanning epoch 0) s) { pause_epoch = (s.pause_epoch + 1) % 2 ^ 64 })
  scan_found :
      (w epoch k : ℕ)
      → s.worker w ≡ scanning epoch k
      → k < s.worker_count
      → 0 < s.queued k
      → Step s (worker_to w awake s)
  scan_next :
      (w epoch k : ℕ)
      → s.worker w ≡ scanning epoch k
      → k < s.worker_count
      → s.queued k ≡ 0
      → Step s (worker_to w (scanning epoch (k + 1)) s)
  scan_end :
      (w epoch : ℕ)
      → s.worker w ≡ scanning epoch s.worker_count
      → Step s (worker_to w (scanned epoch) s)
  lock :
      (w epoch : ℕ)
      → s.worker w ≡ scanned epoch
      → s.locked w ≡ false
      → Step s (locking_to w true (holding epoch) s)
  stop :
      (w epoch : ℕ)
      → s.worker w ≡ holding epoch
      → s.stop_requested w ≡ true
      → Step s (locking_to w false awake s)
  refuse :
      (w epoch : ℕ)
      → s.worker w ≡ holding epoch
      → s.unpause_epoch ≢ epoch
      → Step s (locking_to w false awake s)
  accept :
      (w epoch : ℕ)
      → s.worker w ≡ holding epoch
      → s.stop_requested w ≡ false
      → s.unpause_epoch ≡ epoch
      → Step s (worker_to w accepted s)
  mark :
      (w : ℕ)
      → s.worker w ≡ accepted
      → Step s (record (worker_to w marked s) { parked = update s.parked w true })
  count :
      (w : ℕ)
      → s.worker w ≡ marked
      → Step s (record (worker_to w counted s) { parked_count = (s.parked_count + 1) % 2 ^ 32 })
  wait : (w : ℕ) → s.worker w ≡ counted → Step s (locking_to w false asleep s)
  relock : (w : ℕ) → s.worker w ≡ woken → s.locked w ≡ false → Step s (locking_to w true waking s)
  uncount :
      (w : ℕ)
      → s.worker w ≡ waking
      → Step s (record (worker_to w uncounted s) {
        parked_count = (s.parked_count + (2 ^ 32 - 1)) % 2 ^ 32;
      })
  unmark :
      (w : ℕ)
      → s.worker w ≡ uncounted
      → Step s (record (locking_to w false awake s) { parked = update s.parked w false })
  enqueue :
      (d target : ℕ)
      → s.dispatcher d ≡ idle
      → target < s.worker_count
      → Step s (record (dispatcher_to d (enqueued target) s) {
        queued = update s.queued target (s.queued target + 1);
      })
  load_pause :
      (d target : ℕ)
      → s.dispatcher d ≡ enqueued target
      → Step s (dispatcher_to d (read_pause target s.pause_epoch) s)
  load_unpause :
      (d target pe : ℕ)
      → s.dispatcher d ≡ read_pause target pe
      → Step s (dispatcher_to d (read_unpause target pe s.unpause_epoch) s)
  same_epoch :
      (d target pe ue : ℕ)
      → s.dispatcher d ≡ read_unpause target pe ue
      → pe ≡ ue
      → Step s (dispatcher_to d (signalling target) s)
  exchange :
      (d target pe ue : ℕ)
      → s.dispatcher d ≡ read_unpause target pe ue
      → pe ≢ ue
      → s.unpause_epoch ≡ ue
      → Step s (record (dispatcher_to d (unpausing target) s) { unpause_epoch = pe })
  lose_exchange :
      (d target pe ue : ℕ)
      → s.dispatcher d ≡ read_unpause target pe ue
      → pe ≢ ue
      → s.unpause_epoch ≢ ue
      → Step s (dispatcher_to d (signalling target) s)
  none_parked :
      (d target : ℕ)
      → s.dispatcher d ≡ unpausing target
      → s.parked_count ≡ 0
      → Step s (dispatcher_to d (signalling target) s)
  some_parked :
      (d target : ℕ)
      → s.dispatcher d ≡ unpausing target
      → s.parked_count ≢ 0
      → Step s (dispatcher_to d (walking target 0) s)
  pass :
      (d target visited : ℕ)
      → s.dispatcher d ≡ walking target visited
      → visited < s.worker_count
      → s.parked (nth_in_ring s target visited) ≡ false
      → Step s (dispatcher_to d (walking target (visited + 1)) s)
  see_parked :
      (d target visited : ℕ)
      → s.dispatcher d ≡ walking target visited
      → visited < s.worker_count
      → s.parked (nth_in_ring s target visited) ≡ true
      → Step s (dispatcher_to d (rousing target visited) s)
  lock_next :
      (d target visited : ℕ)
      → s.dispatcher d ≡ rousing target visited
      → s.locked (nth_in_ring s target visited) ≡ false
      → Step s (record (dispatcher_to d (rouse_holding target visited) s) {
        locked = update s.locked (nth_in_ring s target visited) true;
      })
  rouse :
      (d target visited : ℕ)
      → s.dispatcher d ≡ rouse_holding target visited
      → Step s (
          dispatcher_to d (rouse_sent target visited) (
            worker_to
              (nth_in_ring s target visited)
              (signalled (s.worker (nth_in_ring s target visited)))
              s))
  unlock_next :
      (d target visited : ℕ)
      → s.dispatcher d ≡ rouse_sent target visited
      → Step s (record (dispatcher_to d (walking target (visited + 1)) s) {
        locked = update s.locked (nth_in_ring s target visited) false;
      })
  walked :
      (d target : ℕ)
      → s.dispatcher d ≡ walking target s.worker_count
      → Step s (dispatcher_to d (signalling target) s)
  lock_target :
      (d target : ℕ)
      → s.dispatcher d ≡ signalling target
      → s.locked target ≡ false
      → Step s (record (dispatcher_to d (signal_holding target) s) {
        locked = update s.locked target true;
      })
  signal :
      (d target : ℕ)
      → s.dispatcher d ≡ signal_holding target
      → Step s
          (dispatcher_to d (signal_sent target) (worker_to target (signalled (s.worker target)) s))
  unlock_target :
      (d target : ℕ)
      → s.dispatcher d ≡ signal_sent target
      → Step s (record (dispatcher_to d idle s) { locked = update s.locked target false })

pub data Run (s : Parking) : Parking → Type 0 where
  start : Run s s
  and_then : (t u : Parking) → Run s t → Step t u → Run s u
