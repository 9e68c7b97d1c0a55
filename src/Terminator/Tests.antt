-- ===== src/Terminator/Tests.antt =====
-- Runs of the counter, and its properties at concrete states.
use bocpy.Base.{
  ℕ, ◌≡◌, refl, true, false, some, List, [], ◌∷◌, arith, leb, minus_one, weight, update,
}
use bocpy.Terminator.{Terminator, terminator_inc, terminator_close, seed_drop, terminator_reset}
use bocpy.Terminator.Concurrent.{
  start, Reach, check, seed_exchange, drop_seed, close, idle, checked, added, unseeded, System, add,
  here, next, in_flight, owed, Inv, Step-Inv, rundown,
}
use bocpy.Terminator.Wait.{Reading, terminator_wait}

abbrev fresh : Terminator
fresh = record { count = 1; closed = 0; seeded = 1 }

-- A close that comes between the increment and the second test makes `terminator_inc` fail.
inc_raced : (terminator_inc terminator_close fresh).result ≡ minus_one
unfolding terminator_inc terminator_close
inc_raced = refl

-- One held behaviour, and thread 0 past its first test.
abbrev busy : System
busy = record {
  term = record { count = 2; closed = 0; seeded = 1 };
  pc = update (λ _. idle) 0 checked;
  held = 1;
}

busy-Inv : Inv 1 busy
unfolding weight
busy-Inv = record { seed_bit = omega arith; counted = refl }

Step-Inv_example : Inv 1 (record busy {
  term = record { count = 3; closed = 0; seeded = 1 };
  pc = update busy.pc 0 added;
})
Step-Inv_example = Step-Inv {s = busy} (add 0 (omega arith) refl) busy-Inv

-- Closed and run down, and a late increment under way in thread 0.
abbrev done : System
done = record {
  term = record { count = 0; closed = 1; seeded = 0 };
  pc = update (update (update (λ _. idle) 0 unseeded) 0 idle) 0 checked;
  held = 0;
}

-- From a reset: thread 0 takes the seed away and off the count, then tests; the counter is closed.
to_done : Reach 1 (start fresh) done
unfolding terminator_reset seed_drop terminator_close
to_done =
    next
      (next
        (next (next here (seed_exchange 0 (omega arith) refl refl))
          (drop_seed 0 (omega arith) refl))
        (check 0 (omega arith) refl refl))
      close

none_owed : weight owed done.pc 1 ≡ 0
unfolding weight
none_owed = refl

rundown_example :
    (done.held ≡ 0) × (done.term.seeded ≡ 0) × (weight in_flight done.pc 1 ≡ 0) × ◌≡◌ {A = ℕ} 0 0
rundown_example =
    rundown fresh (omega arith) to_done (omega arith) none_owed refl refl
      (next here (add 0 (omega arith) refl))

abbrev readings : List (Reading {Time = ℕ} (λ now end. leb end now))
readings =
    record { count = 2; depth = 0; now = 3 }
    ∷ record { count = 1; depth = 4; now = 5 }
    ∷ record { count = 0; depth = 0; now = 9 }
    ∷ []

waits :
    (terminator_wait (λ now end. leb end now) false 7 readings ≡ some true)
    × (terminator_wait (λ now end. leb end now) false 5 readings ≡ some false)
unfolding terminator_wait
waits = (refl, refl)
