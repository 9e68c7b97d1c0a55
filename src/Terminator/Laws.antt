-- ===== src/Terminator/Laws.antt =====
-- What each call of boc_terminator.c returns, counts and announces.
use bocpy.Base.{
  ◌-◌, ◌<◌, ◌≡◌, refl, ◌≢◌, ◌⊎◌, ◌^◌, ◌↔◌, inl, inr, true, false, arith, inc64, dec64, minus_one,
}
use native.Mathlib.Decide.{ℕ_discrete}
use bocpy.Terminator.{
  Terminator, inc_undo, terminator_inc, terminator_dec, seed_drop, terminator_seed_dec, seed_add,
  terminator_seed_inc, terminator_reset,
}

-- `terminator_inc` succeeds exactly if the counter is open at both tests, and then returns the count
-- that its own increment made. A refused call returns -1 and leaves either the counters untouched or
-- those that the other threads left, less its own increment; it broadcasts in the second case only,
-- and exactly if that brings the count to 0.
pub terminator_inc_lem :
    (raced : Terminator → Terminator) (t : Terminator)
    → let r = terminator_inc raced t in
      let t' = raced (record t { count = inc64 t.count }) in
      ((t.closed ≡ 0) × (t'.closed ≡ 0) × (r.result ≡ inc64 t.count) × (r.after ≡ t'))
      ⊎ ((t.closed ≢ 0) × (r.result ≡ minus_one) × (r.after ≡ t) × (r.broadcast ≡ false))
      ⊎ ((t.closed ≡ 0)
          × (t'.closed ≢ 0)
          × (r.result ≡ minus_one)
          × (r.after ≡ record t' { count = dec64 t'.count })
          × ((r.broadcast ≡ true) ↔ (r.after.count ≡ 0)))
unfolding terminator_inc
terminator_inc_lem raced t = elim (ℕ_discrete t.closed 0) [
  | no shut ↦ inr (inl (shut, ground arith, ground arith, ground arith))
  | yes open1 ↦ elim (ℕ_discrete (raced (record t { count = inc64 t.count })).closed 0) [
    | yes open2 ↦ inl (open1, open2, ground arith, ground arith)
    | no shut ↦ inr (inr (open1, shut, ground arith, ground arith, ground arith))
  ]
]

-- A call that takes one off the count broadcasts exactly if that brings the count to 0, so no waiter
-- sleeps past it.
pub zero_broadcasts :
    (raced : Terminator → Terminator) (t : Terminator)
    → (((inc_undo t).broadcast ≡ true) ↔ ((inc_undo t).after.count ≡ 0))
      × (((terminator_dec t).broadcast ≡ true) ↔ ((terminator_dec t).after.count ≡ 0))
      × (((terminator_seed_dec raced t).broadcast ≡ true) ↔ (
          ((terminator_seed_dec raced t).result ≡ true)
          × ((terminator_seed_dec raced t).after.count ≡ 0)))
unfolding inc_undo terminator_dec terminator_seed_dec seed_drop
zero_broadcasts raced t = ground arith

-- The seed is taken away once: a second call returns false and leaves the count, if no thread sets the
-- seed in between.
pub seed_dec_once :
    (raced later : Terminator → Terminator) (t : Terminator)
    → ((u : Terminator) → u.seeded ≡ 0 → (raced u).seeded ≡ 0)
    → let t' = (terminator_seed_dec raced t).after in
      ((terminator_seed_dec later t').result ≡ false)
      × ((terminator_seed_dec later t').after.count ≡ t'.count)
unfolding terminator_seed_dec seed_drop
seed_dec_once raced later t calm = ground (arith, calm (record t { seeded = 0 }) refl)

-- Re-arming the seed undoes taking it away, if no other thread interferes.
pub seed_inc-seed_dec :
    (t : Terminator)
    → 0 < t.count
    → t.count < 2 ^ 64 - 1
    → t.seeded ≡ 1
    → (terminator_seed_inc (λ u. u) (terminator_seed_dec (λ u. u) t).after).after ≡ t
unfolding terminator_seed_dec terminator_seed_inc seed_drop seed_add
seed_inc-seed_dec t p q e = ground arith

-- `terminator_reset` reports the counters that it found and starts a fresh run: open, seeded, with
-- the seed as the only count, whatever the run before left.
pub terminator_reset_lem :
    (t : Terminator)
    → ((terminator_reset t).result.prior_count ≡ t.count)
      × ((terminator_reset t).result.prior_seeded ≡ t.seeded)
      × ((terminator_reset t).after ≡ record { count = 1; closed = 0; seeded = 1 })
unfolding terminator_reset
terminator_reset_lem t = (refl, refl, refl)
