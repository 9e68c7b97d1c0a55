-- ===== src/Request.antt =====
-- The two-phase locking of _core.c: each cown has a chain of requests, oldest first, and a behaviour
-- runs when its count reaches 0. Requests, cowns and behaviours are numbers; a request's target and
-- the behaviour that owns it never change. One call runs at a time.
mod Chain
mod Handover
mod Fifo
mod Release
mod Schedule
mod Steps
mod Tests
use bocpy.Base.{
  ℕ, ◌+◌, ◌-◌, ◌==◌, if◌then◌else◌, Bool, true, false, Option, none, some, List, [], ◌∷◌, ◌++◌,
  update,
}

-- The fields `last` of every cown, `next` and `scheduled` of every request and `count` of every
-- behaviour, and the behaviours handed to the scheduler.
pub record Chains : Type 0 where
  pub last : ℕ → Option ℕ
  pub next : ℕ → Option ℕ
  pub scheduled : ℕ → Bool
  pub count : ℕ → ℕ
  pub dispatched : List ℕ

-- 0; -1, from `boc_sched_dispatch`; or a loop that waits for another thread.
pub data Done : Type 0 where
  success failure spins : Done

abbrev pub is_request : Option ℕ → ℕ → Bool
is_request none r = false
is_request (some l) r = l == r

unfoldable pub finish_enqueue : ℕ → Chains → Chains
finish_enqueue r s = record s { scheduled = update s.scheduled r true }

-- `up` tells whether `boc_sched_dispatch` finds the runtime up.
module _ (target owner : ℕ → ℕ) (up : Bool) where
  unfoldable pub resolve_one : ℕ → Chains → Done × Chains
  resolve_one b s =
      let less = record s { count = update s.count b (s.count b - 1) } in
      if s.count b == 1
      then if up
        then (success, record less { dispatched = s.dispatched ++ (b ∷ []) })
        else (failure, less)
      else (success, less)

  unfoldable pub start_enqueue : ℕ → Chains → Done × Chains
  unfolding resolve_one
  start_enqueue r s =
      let swung = record s { last = update s.last (target r) (some r) } in
      elim (s.last (target r)) [
        | none ↦ resolve_one (owner r) swung
        | some prev ↦ (
          if s.scheduled prev then success else spins,
          record swung { next = update s.next prev (some (owner r)) },
        )
      ]

  unfoldable pub release : ℕ → Chains → Done × Chains
  unfolding resolve_one
  release r s = elim (s.next r) [
    | some b ↦ resolve_one b s
    | none ↦
        if is_request (s.last (target r)) r
        then (success, record s { last = update s.last (target r) none })
        else (spins, s)
  ]
