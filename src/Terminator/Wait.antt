-- ===== src/Terminator/Wait.antt =====
-- `terminator_wait` and `terminator_wait_pumpable` of boc_terminator.c, as functions of what each
-- round of their loops reads. The clock gives a type of times, with the test `now >= end_time`.
use bocpy.Base.{
  ℕ, ◌==◌, if◌then◌else◌, ltb, ◌≡◌, refl, Bool-cases, ap, ◌⊎◌, inl, inr, ==_iff, ==_of_ne, ◌≢◌, ◌<◌,
  Bool, true, false, Option, none, some, List, [], ◌∷◌, ◌++◌, arith, All, ◌&&◌,
}
use native.Mathlib.Decide.{ℕ_discrete}

-- `boc_terminator_wake_reason_t`
pub data WakeReason : Type 0 where
  terminated pump_ready timed_out : WakeReason

module _ {Time : Type 0} (reached : (now end_time : Time) → Bool) where
  -- One round: the count, the number of pinned behaviours, and the clock.
  pub record Reading : Type 0 where
    pub count : ℕ
    pub depth : ℕ
    pub now : Time

  -- The loop of `terminator_wait`; `none` while it still sleeps after the last reading.
  unfoldable pub terminator_wait : (wait_forever : Bool) → Time → List Reading → Option Bool
  terminator_wait wait_forever end_time [] = none
  terminator_wait wait_forever end_time (r ∷ rs) =
      let later = terminator_wait wait_forever end_time rs in
      if r.count == 0
      then some true
      else if wait_forever
      then later
      else if reached r.now end_time
      then some false
      else later

  -- The loop of `terminator_wait_pumpable`; `pumps` tells whether `pinned_depth_fn` is not NULL.
  unfoldable pub terminator_wait_pumpable : (pumps : Bool) → Time → List Reading → Option WakeReason
  terminator_wait_pumpable pumps end_time [] = none
  terminator_wait_pumpable pumps end_time (r ∷ rs) =
      let later = terminator_wait_pumpable pumps end_time rs in
      if r.count == 0
      then some terminated
      else if pumps && ltb 0 r.depth
      then some pump_ready
      else if reached r.now end_time
      then some timed_out
      else later

  -- The rounds before the one that decides, and that one.
  pub record Decided (Asleep Decisive : Reading → Type 0) (rs : List Reading) : Type 0 where
    pub before : List Reading
    pub last : Reading
    pub after : List Reading
    pub split : rs ≡ before ++ (last ∷ after)
    pub slept : All Asleep before
    pub decisive : Decisive last

  later-Decided :
      (Asleep Decisive : Reading → Type 0) (r : Reading) (rs : List Reading)
      → Asleep r
      → Decided Asleep Decisive rs
      → Decided Asleep Decisive (r ∷ rs)
  later-Decided Asleep Decisive r rs a d = record {
    before = r ∷ d.before;
    last = d.last;
    after = d.after;
    split = ap (λ l. r ∷ l) d.split;
    slept = (a, d.slept);
    decisive = d.decisive;
  }

  now-Decided :
      (Asleep Decisive : Reading → Type 0) (r : Reading) (rs : List Reading)
      → Decisive r
      → Decided Asleep Decisive (r ∷ rs)
  now-Decided Asleep Decisive r rs d = record {
    before = [];
    last = r;
    after = rs;
    split = refl;
    slept = tt;
    decisive = d;
  }

  -- A round after which `terminator_wait` sleeps on.
  abbrev pub Sleeps : Bool → Time → Reading → Type 0
  Sleeps wait_forever end_time r =
      (r.count ≢ 0) × ((wait_forever ≡ true) ⊎ (reached r.now end_time ≡ false))

  abbrev pub WaitResult : Bool → Time → List Reading → Option Bool → Type 0
  WaitResult wait_forever end_time rs none = All (Sleeps wait_forever end_time) rs
  WaitResult wait_forever end_time rs (some true) =
      Decided (Sleeps wait_forever end_time) (λ r. r.count ≡ 0) rs
  WaitResult wait_forever end_time rs (some false) =
      Decided (Sleeps wait_forever end_time)
        (λ r. (r.count ≢ 0) × (wait_forever ≡ false) × (reached r.now end_time ≡ true)) rs

  wait_later :
      (wait_forever : Bool) (end_time : Time) (r : Reading) (rs : List Reading) (o : Option Bool)
      → Sleeps wait_forever end_time r
      → WaitResult wait_forever end_time rs o
      → WaitResult wait_forever end_time (r ∷ rs) o
  wait_later w e r rs none a d = (a, d)
  wait_later w e r rs (some true) a d = later-Decided _ _ r rs a d
  wait_later w e r rs (some false) a d = later-Decided _ _ r rs a d

  -- `terminator_wait` returns true at the first round that reads the count 0, and false, only with a
  -- timeout, at a round that reads another count at or past the end time, whichever round comes
  -- first; it sleeps after every round before that.
  pub terminator_wait_lem :
      (wait_forever : Bool) (end_time : Time) (rs : List Reading)
      → WaitResult wait_forever end_time rs (terminator_wait wait_forever end_time rs)
  unfolding terminator_wait
  terminator_wait_lem true e [] = tt
  terminator_wait_lem false e [] = tt
  terminator_wait_lem true e (r ∷ rs) = elim (ℕ_discrete r.count 0) [
    | yes z ↦ rw ((==_iff r.count 0).1 z) (now-Decided _ _ r rs z)
    | no nz ↦
        rw (==_of_ne r.count 0 nz)
          (wait_later true e r rs _ (nz, inl refl) (terminator_wait_lem true e rs))
  ]
  terminator_wait_lem false e (r ∷ rs) = elim (ℕ_discrete r.count 0) [
    | yes z ↦ rw ((==_iff r.count 0).1 z) (now-Decided _ _ r rs z)
    | no nz ↦ elim (Bool-cases (reached r.now e)) [
      | inl late ↦ rw (==_of_ne r.count 0 nz, late) (now-Decided _ _ r rs (nz, refl, late))
      | inr early ↦
          rw (==_of_ne r.count 0 nz, early)
            (wait_later false e r rs _ (nz, inr early) (terminator_wait_lem false e rs))
    ]
  ]

  -- A round after which `terminator_wait_pumpable` sleeps on.
  abbrev pub Idles : Bool → Time → Reading → Type 0
  Idles pumps end_time r =
      (r.count ≢ 0) × ((pumps && ltb 0 r.depth) ≡ false) × (reached r.now end_time ≡ false)

  abbrev pub Reason : Bool → Time → WakeReason → Reading → Type 0
  Reason pumps end_time terminated r = r.count ≡ 0
  Reason pumps end_time pump_ready r = (r.count ≢ 0) × (pumps ≡ true) × (0 < r.depth)
  Reason pumps end_time timed_out r =
      (r.count ≢ 0) × ((pumps && ltb 0 r.depth) ≡ false) × (reached r.now end_time ≡ true)

  abbrev pub PumpResult : Bool → Time → List Reading → Option WakeReason → Type 0
  PumpResult pumps end_time rs none = All (Idles pumps end_time) rs
  PumpResult pumps end_time rs (some why) =
      Decided (Idles pumps end_time) (Reason pumps end_time why) rs

  pump_later :
      (pumps : Bool) (end_time : Time) (r : Reading) (rs : List Reading) (o : Option WakeReason)
      → Idles pumps end_time r
      → PumpResult pumps end_time rs o
      → PumpResult pumps end_time (r ∷ rs) o
  pump_later p e r rs none a d = (a, d)
  pump_later p e r rs (some why) a d = later-Decided _ _ r rs a d

  -- `terminator_wait_pumpable` decides at the first round that gives a reason to wake: rundown before
  -- pinned work, and pinned work (only if there is a function that counts it) before the timeout.
  pub terminator_wait_pumpable_lem :
      (pumps : Bool) (end_time : Time) (rs : List Reading)
      → PumpResult pumps end_time rs (terminator_wait_pumpable pumps end_time rs)
  unfolding terminator_wait_pumpable
  terminator_wait_pumpable_lem p e [] = tt
  terminator_wait_pumpable_lem p e (r ∷ rs) = elim (ℕ_discrete r.count 0) [
    | yes z ↦ rw ((==_iff r.count 0).1 z) (now-Decided _ _ r rs z)
    | no nz ↦ elim (Bool-cases (p && ltb 0 r.depth)) [
      | inl work ↦
          rw (==_of_ne r.count 0 nz, work) (now-Decided _ _ r rs (nz, ground arith, ground arith))
      | inr quiet ↦ elim (Bool-cases (reached r.now e)) [
        | inl late ↦
            rw (==_of_ne r.count 0 nz, quiet, late) (now-Decided _ _ r rs (nz, quiet, late))
        | inr early ↦
            rw (==_of_ne r.count 0 nz, quiet, early)
              (pump_later p e r rs _ (nz, quiet, early) (terminator_wait_pumpable_lem p e rs))
      ]
    ]
  ]
