-- ===== src/Terminator.antt =====
-- src/bocpy/boc_terminator.c: the process-wide rundown counter of behaviours. The mutex and the
-- condition variable only carry wake-ups, so an operation tells whether it broadcasts.
pub mod Concurrent
pub mod Wait
pub mod Laws
mod Tests
use bocpy.Base.{ℕ, ◌==◌, if◌then◌else◌, Bool, true, false, not, inc64, dec64, minus_one}

-- The three counters of the file; `closed` and `seeded` hold 0 or 1.
pub record Terminator : Type 0 where
  pub count : ℕ  -- TERMINATOR_COUNT
  pub closed : ℕ  -- TERMINATOR_CLOSED
  pub seeded : ℕ  -- TERMINATOR_SEEDED

-- What a call returns, whether it broadcast `TERMINATOR_COND`, and the counters after it.
pub record Outcome (R : Type 0) : Type 0 where
  pub result : R
  pub broadcast : Bool
  pub after : Terminator

-- The three atomic accesses of `terminator_inc`: the first test, the increment, and the second test
-- with its undo. `raced` is what other threads do to the counters between the last two.
unfoldable pub inc_undo : Terminator → Outcome ℕ
inc_undo t =
    let down = dec64 t.count in
    record { result = minus_one; broadcast = down == 0; after = record t { count = down } }

unfoldable pub terminator_inc : (raced : Terminator → Terminator) → Terminator → Outcome ℕ
unfolding inc_undo
terminator_inc raced t =
    if not (t.closed == 0)
    then record { result = minus_one; broadcast = false; after = t }
    else let newval = inc64 t.count in
      let t' = raced (record t { count = newval }) in
      if not (t'.closed == 0)
      then inc_undo t'
      else record { result = newval; broadcast = false; after = t' }

unfoldable pub terminator_dec : Terminator → Outcome ℕ
terminator_dec t =
    let newval = dec64 t.count in
    record { result = newval; broadcast = newval == 0; after = record t { count = newval } }

unfoldable pub terminator_close : Terminator → Terminator
terminator_close t = record t { closed = 1 }

-- Each of the two calls on the seed has two atomic accesses, to `TERMINATOR_SEEDED` and then, if that
-- found it to change, to `TERMINATOR_COUNT`. `raced` is what other threads do between them.
unfoldable pub seed_drop : Terminator → Outcome Bool
seed_drop t =
    let newval = dec64 t.count in
    record { result = true; broadcast = newval == 0; after = record t { count = newval } }

unfoldable pub terminator_seed_dec : (raced : Terminator → Terminator) → Terminator → Outcome Bool
unfolding seed_drop
terminator_seed_dec raced t =
    let t' = record t { seeded = 0 } in
    if t.seeded == 1
    then seed_drop (raced t')
    else record { result = false; broadcast = false; after = t' }

unfoldable pub seed_add : Terminator → Outcome Bool
seed_add t = record { result = true; broadcast = false; after = record t { count = inc64 t.count } }

unfoldable pub terminator_seed_inc : (raced : Terminator → Terminator) → Terminator → Outcome Bool
unfolding seed_add
terminator_seed_inc raced t =
    if t.seeded == 0
    then seed_add (raced (record t { seeded = 1 }))
    else record { result = false; broadcast = false; after = t }

-- What `terminator_reset` writes through its two pointers.
pub record Prior : Type 0 where
  pub prior_count : ℕ
  pub prior_seeded : ℕ

unfoldable pub terminator_reset : Terminator → Outcome Prior
terminator_reset t = record {
  result = record { prior_count = t.count; prior_seeded = t.seeded };
  broadcast = true;
  after = record { count = 1; closed = 0; seeded = 1 };
}
