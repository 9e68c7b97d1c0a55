-- ===== src/Request/Steps/Tests.antt =====
-- Two behaviours, 0 and 1, that share the cown 5: while the first one runs, the second one stands
-- behind it.
use bocpy.Base.{ℕ, zero, suc, ◌≡◌, refl, ap, true, List, [], ◌∷◌, contains, IsDistinct, map, arith}
use bocpy.Request.{resolve_one}
use bocpy.Request.Steps.{
  Program, WellFormed, Step, running, waiting, System, Reach, here, later, start, swing_idle, swing,
  store, resolve_first, spin, linked, finish, finished, resolve_last, run,
}
use bocpy.Request.Steps.Order.Tickets.{Sorted}
use bocpy.Request.Steps.Order.Progress.{Active, under_way, under_way-Active}
use bocpy.Request.Steps.Order.Deadlock.{no_deadlock}
use bocpy.Request.Steps.Exclusion.{mutual_exclusion}

abbrev requests : ℕ → List ℕ
requests zero = 0 ∷ []
requests (suc zero) = 1 ∷ []
requests (suc (suc b)) = []

abbrev shared : Program
shared = record { requests = requests; target = λ r. 5; owner = λ r. r }

requests-owner : (b r : ℕ) → contains (requests b) r ≡ true → r ≡ b
requests-owner zero r h = ground arith
requests-owner (suc zero) r h = ground arith
requests-owner (suc (suc b)) r h = cc

requests-apart : (b : ℕ) → IsDistinct (map shared.target (requests b))
requests-apart zero = (tt, tt)
requests-apart (suc zero) = (tt, tt)
requests-apart (suc (suc b)) = tt

shared-WellFormed : WellFormed shared
shared-WellFormed = record { owned = requests-owner; distinct = requests-apart }

-- The behaviour 1 is linked between the steps of 0, and stands behind it when 0 runs.
race :
    (s : System) × Reach shared (start shared) s
    × (s.pc 0 ≡ running)
    × (s.pc 1 ≡ waiting)
    × (s.chains.count 1 ≡ 1)
unfolding resolve_one
race = (
  _,
  later 1
      (later 1
        (later 1
          (later 0
            (later 0
              (later 1
                (later 1
                  (later 0
                    (later 0
                      (later 0
                        (later 0
                          (later 1
                            (later 1 (later 0 (here) (swing_idle 0 [] refl refl))
                              (swing 0 1 [] refl refl))
                            (store 0 1 [] refl))
                          (resolve_first 0 [] refl))
                        (linked refl))
                      (finish 0 [] refl))
                    (finished refl))
                  (spin 0 1 [] refl refl))
                (linked refl))
              (resolve_last refl))
            (run refl refl))
          (finish 1 [] refl))
        (finished refl))
      (resolve_last refl),
  refl,
  refl,
  refl,
)

mutual_exclusion_example : ◌≡◌ {A = ℕ} 0 0
mutual_exclusion_example =
    mutual_exclusion shared race.0 0 0 0 0 shared-WellFormed race.1 race.2 race.2 refl refl refl

ascending : (b : ℕ) → Sorted shared.target (shared.requests b)
ascending zero = (tt, tt)
ascending (suc zero) = (tt, tt)
ascending (suc (suc b)) = tt

no_deadlock_example : (a : ℕ) × (t : System) × Active shared race.0 a × Step shared a race.0 t
no_deadlock_example =
    no_deadlock shared 6 race.0 1 shared-WellFormed (λ r. omega arith) ascending race.1
      (under_way-Active shared race.0 1 (ap under_way race.3))
