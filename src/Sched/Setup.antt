-- ===== src/Sched/Setup.antt =====
-- Setting up the workers, and what other threads set of them: `boc_sched_init`,
-- `boc_sched_worker_register` and the calls on tokens and steal flags of boc_sched.c.
use bocpy.Base.{
  ℕ, ◌+◌, ◌-◌, ◌%◌, ◌^◌, if◌then◌else◌, leb, Bool, true, false, Option, none, some, update,
}
use bocpy.Bq.{front_slot}
use bocpy.Sched.{Workers, batch_size}

-- The state that `boc_sched_init` sets up. The threads are new, so their variables have their first
-- values.
abbrev pub new_workers : ℕ → Workers
new_workers worker_count = record {
  worker_count = worker_count;
  links = λ _. none;
  front = λ _. none;
  back = λ _. front_slot;
  enqueue_index = λ _. 0;
  dequeue_index = λ _. 0;
  steal_index = λ _. 0;
  should_steal = λ _. true;
  token_work = λ _. none;
  pending = λ _. none;
  batch = λ _. 0;
  steal_victim = λ _. none;
  rr_nonlocal = none;
  registered = 0;
}

-- `none` is the error of a call without prior shutdown.
unfoldable pub sched_init : (running : Bool) → ℕ → Option Workers
sched_init true worker_count = none
sched_init false worker_count = some (new_workers worker_count)

-- The slot that `boc_sched_worker_register` gives the calling thread, `none` for -1.
unfoldable pub worker_register : Workers → Option ℕ × Workers
worker_register s =
    let up = (s.registered + 1) % 2 ^ 32 in
    if leb s.worker_count s.registered
    then (none, record s { registered = (up + (2 ^ 32 - 1)) % 2 ^ 32 })
    else (
      some s.registered,
      record s {
        registered = up;
        batch = update s.batch s.registered batch_size;
        steal_victim = update s.steal_victim s.registered none;
      },
    )

-- `boc_sched_set_token_node` and `boc_sched_get_token_node` at an index that is not negative.
unfoldable pub set_token_node : ℕ → Option ℕ → Workers → Option Workers
set_token_node w n s =
    if leb s.worker_count w then none else some (record s { token_work = update s.token_work w n })

unfoldable pub get_token_node : ℕ → Workers → Option ℕ
get_token_node w s = if leb s.worker_count w then none else s.token_work w

unfoldable pub set_steal_flag : ℕ → Bool → Workers → Workers
set_steal_flag w value s = record s { should_steal = update s.should_steal w value }
