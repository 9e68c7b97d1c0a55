-- ===== src/Sched/Park/Parked.antt =====
-- What `parked` and PARKED_COUNT tell the threads that wake workers up.
use bocpy.Base.{
  ℕ, ◌+◌, ◌%◌, ◌^◌, ◌≡◌, ◌≢◌, ◌≤◌, ◌<◌, Bool, true, false, update, update_self, update_ne, weight,
  weight-update, weight-update_outside, weight-le, arith, refl, sym, ap, ◌∙◌,
}
use mathlib.Core.Path.{subst}
use mathlib.Core.Bool.{true≢false}
use native.Mathlib.Decide.{ℕ_discrete, dec_lt}
use bocpy.Sched.Park.{
  WorkerPc, awake, snapped, scanning, scanned, holding, accepted, marked, counted, asleep, woken,
  waking, uncounted, Parking, signalled, Step, take, snap, pause, scan_found, scan_next, scan_end,
  lock, stop, refuse, accept, mark, count, wait, relock, uncount, unmark, enqueue, load_pause,
  load_unpause, same_epoch, exchange, lose_exchange, none_parked, some_parked, pass, see_parked,
  lock_next, rouse, unlock_next, walked, lock_target, signal, unlock_target, Run, start, and_then,
  nth_in_ring,
}

abbrev is_away : WorkerPc → Bool
is_away awake = false
is_away _ = true

-- The stretches of a worker's code in which it is on PARKED_COUNT, and in which its flag is set.
abbrev pub on_count : WorkerPc → ℕ
on_count counted = 1
on_count asleep = 1
on_count woken = 1
on_count waking = 1
on_count _ = 0

abbrev pub flagged : WorkerPc → Bool
flagged marked = true
flagged counted = true
flagged asleep = true
flagged woken = true
flagged waking = true
flagged uncounted = true
flagged _ = false

-- PARKED_COUNT counts the workers that are on it, and the flags tell which workers have set theirs.
pub record Tally (worker_count parked_count : ℕ) (parked : ℕ → Bool) (worker : ℕ → WorkerPc)
    : Type 0 where
  pub only_workers : (w : ℕ) → worker_count ≤ w → worker w ≡ awake
  pub total : parked_count ≡ weight on_count worker worker_count % 2 ^ 32
  pub flags : (w : ℕ) → parked w ≡ flagged (worker w)

abbrev pub Tallied : Parking → Type 0
Tallied s = Tally s.worker_count s.parked_count s.parked s.worker

module _ (s : Parking) (v : Tallied s) (w : ℕ) (from : WorkerPc) (e : s.worker w ≡ from) where
  is_worker : is_away from ≡ true → w < s.worker_count
  is_worker away = elim (dec_lt w s.worker_count) [
    | yes lt ↦ lt
    | no beyond ↦
        absurd
          (true≢false (sym away ∙ ap is_away (sym e ∙ v.only_workers w (omega (arith, beyond)))))
  ]

  others_awake :
      (pc : WorkerPc)
      → w < s.worker_count
      → (u : ℕ) → s.worker_count ≤ u
      → update s.worker w pc u ≡ awake
  others_awake pc lt u beyond =
      update_ne s.worker w pc u (λ h. absurd (omega (arith, h))) ∙ v.only_workers u beyond

  new_total :
      (pc : WorkerPc)
      → w < s.worker_count
      → weight on_count s.worker s.worker_count + on_count pc
        ≡ weight on_count (update s.worker w pc) s.worker_count + on_count from
  new_total pc lt =
      weight-update on_count s.worker w pc s.worker_count lt
      ∙ ap (λ p. weight on_count (update s.worker w pc) s.worker_count + on_count p) e

  same_flags :
      (pc : WorkerPc)
      → flagged pc ≡ flagged from
      → (u : ℕ) → s.parked u ≡ flagged (update s.worker w pc u)
  same_flags pc same u = elim (ℕ_discrete w u) [
    | yes h ↦
        subst (λ i. s.parked i ≡ flagged (update s.worker w pc i)) h
          (v.flags w ∙ ap flagged e ∙ sym same ∙ ap flagged (sym (update_self s.worker w pc)))
    | no ne ↦ v.flags u ∙ ap flagged (sym (update_ne s.worker w pc u ne))
  ]

  new_flags :
      (pc : WorkerPc) (flag : Bool)
      → flag ≡ flagged pc
      → (u : ℕ) → update s.parked w flag u ≡ flagged (update s.worker w pc u)
  new_flags pc flag same u = elim (ℕ_discrete w u) [
    | yes h ↦
        subst (λ i. update s.parked w flag i ≡ flagged (update s.worker w pc i)) h
          (update_self s.parked w flag ∙ same ∙ ap flagged (sym (update_self s.worker w pc)))
    | no ne ↦
        update_ne s.parked w flag u ne ∙ v.flags u ∙ ap flagged (sym (update_ne s.worker w pc u ne))
  ]

  -- A step of a worker that changes neither.
  moved_in :
      (pc : WorkerPc)
      → w < s.worker_count
      → on_count pc ≡ on_count from
      → flagged pc ≡ flagged from
      → Tally s.worker_count s.parked_count s.parked (update s.worker w pc)
  moved_in pc lt same_count same_flag = record {
    only_workers = others_awake pc lt;
    total = v.total ∙ ap (λ k. k % 2 ^ 32) (omega (arith, new_total pc lt, same_count));
    flags = same_flags pc same_flag;
  }

  moved :
      (pc : WorkerPc)
      → is_away from ≡ true
      → on_count pc ≡ on_count from
      → flagged pc ≡ flagged from
      → Tally s.worker_count s.parked_count s.parked (update s.worker w pc)
  moved pc away = moved_in pc (is_worker away)

  flag_set :
      (pc : WorkerPc) (flag : Bool)
      → is_away from ≡ true
      → on_count pc ≡ on_count from
      → flag ≡ flagged pc
      → Tally s.worker_count s.parked_count (update s.parked w flag) (update s.worker w pc)
  flag_set pc flag away same_count new_flag =
      let lt = is_worker away in
      record {
        only_workers = others_awake pc lt;
        total = v.total ∙ ap (λ k. k % 2 ^ 32) (omega (arith, new_total pc lt, same_count));
        flags = new_flags pc flag new_flag;
      }

-- A signal wakes a worker only from its wait, which changes neither.
signal_sent_to :
    (s : Parking) (v : Tallied s) (w : ℕ)
    → Tally s.worker_count s.parked_count s.parked (update s.worker w (signalled (s.worker w)))
signal_sent_to s v w = by_pc (s.worker w) refl
  where
    unmoved :
        (pc : WorkerPc)
        → s.worker w ≡ pc
        → Tally s.worker_count s.parked_count s.parked (update s.worker w pc)
    unmoved pc e = record {
      only_workers = λ u beyond. elim (ℕ_discrete w u) [
        | yes h ↦
            subst (λ i. update s.worker w pc i ≡ awake) h
              (update_self s.worker w pc ∙ sym e ∙ v.only_workers w (omega (arith, h, beyond)))
        | no ne ↦ update_ne s.worker w pc u ne ∙ v.only_workers u beyond
      ];
      total = v.total ∙ ap (λ k. k % 2 ^ 32) (weight-same pc e s.worker_count);
      flags = same_flags s v w pc e pc refl;
    }
      where
        weight-same :
            (pc : WorkerPc)
            → s.worker w ≡ pc
            → (n : ℕ) → weight on_count s.worker n ≡ weight on_count (update s.worker w pc) n
        weight-same pc e n = elim (dec_lt w n) [
          | yes lt ↦ omega (arith, weight-update on_count s.worker w pc n lt, ap on_count e)
          | no beyond ↦ sym (weight-update_outside on_count s.worker w pc n (omega (arith, beyond)))
        ]

    by_pc :
        (pc : WorkerPc)
        → s.worker w ≡ pc
        → Tally s.worker_count s.parked_count s.parked (update s.worker w (signalled pc))
    by_pc asleep e = moved s v w asleep e woken refl refl refl
    by_pc awake e = unmoved awake e
    by_pc (snapped epoch) e = unmoved (snapped epoch) e
    by_pc (scanning epoch k) e = unmoved (scanning epoch k) e
    by_pc (scanned epoch) e = unmoved (scanned epoch) e
    by_pc (holding epoch) e = unmoved (holding epoch) e
    by_pc accepted e = unmoved accepted e
    by_pc marked e = unmoved marked e
    by_pc counted e = unmoved counted e
    by_pc woken e = unmoved woken e
    by_pc waking e = unmoved waking e
    by_pc uncounted e = unmoved uncounted e

Step-Tallied : (s t : Parking) → Step s t → Tallied s → Tallied t
Step-Tallied s _ (snap w lt e) v = moved_in s v w awake e (snapped s.unpause_epoch) lt refl refl
Step-Tallied s _ (pause w epoch e) v =
    moved s v w (snapped epoch) e (scanning epoch 0) refl refl refl
Step-Tallied s _ (scan_found w epoch k e lt some_there) v =
    moved s v w (scanning epoch k) e awake refl refl refl
Step-Tallied s _ (scan_next w epoch k e lt none_there) v =
    moved s v w (scanning epoch k) e (scanning epoch (k + 1)) refl refl refl
Step-Tallied s _ (scan_end w epoch e) v =
    moved s v w (scanning epoch s.worker_count) e (scanned epoch) refl refl refl
Step-Tallied s _ (lock w epoch e free) v =
    moved s v w (scanned epoch) e (holding epoch) refl refl refl
Step-Tallied s _ (stop w epoch e stopped) v = moved s v w (holding epoch) e awake refl refl refl
Step-Tallied s _ (refuse w epoch e other) v = moved s v w (holding epoch) e awake refl refl refl
Step-Tallied s _ (accept w epoch e go same) v =
    moved s v w (holding epoch) e accepted refl refl refl
Step-Tallied s _ (mark w e) v = flag_set s v w accepted e marked true refl refl refl
Step-Tallied s _ (count w e) v =
    let lt = is_worker s v w marked e refl in
    record {
      only_workers = others_awake s v w marked e counted lt;
      total = omega (arith, v.total, new_total s v w marked e counted lt);
      flags = same_flags s v w marked e counted refl;
    }
Step-Tallied s _ (wait w e) v = moved s v w counted e asleep refl refl refl
Step-Tallied s _ (relock w e free) v = moved s v w woken e waking refl refl refl
Step-Tallied s _ (uncount w e) v =
    let lt = is_worker s v w waking e refl in
    record {
      only_workers = others_awake s v w waking e uncounted lt;
      total = omega (arith, v.total, new_total s v w waking e uncounted lt);
      flags = same_flags s v w waking e uncounted refl;
    }
Step-Tallied s _ (unmark w e) v = flag_set s v w uncounted e awake false refl refl refl
Step-Tallied s _ (take w k e some_there) v = v
Step-Tallied s _ (enqueue d target e known) v = v
Step-Tallied s _ (load_pause d target e) v = v
Step-Tallied s _ (load_unpause d target pe e) v = v
Step-Tallied s _ (same_epoch d target pe ue e same) v = v
Step-Tallied s _ (exchange d target pe ue e ne same) v = v
Step-Tallied s _ (lose_exchange d target pe ue e ne other) v = v
Step-Tallied s _ (none_parked d target e none_there) v = v
Step-Tallied s _ (some_parked d target e some_there) v = v
Step-Tallied s _ (pass d target visited e lt up) v = v
Step-Tallied s _ (see_parked d target visited e lt parked) v = v
Step-Tallied s _ (lock_next d target visited e free) v = v
Step-Tallied s _ (rouse d target visited e) v = signal_sent_to s v (nth_in_ring s target visited)
Step-Tallied s _ (unlock_next d target visited e) v = v
Step-Tallied s _ (walked d target e) v = v
Step-Tallied s _ (lock_target d target e free) v = v
Step-Tallied s _ (signal d target e) v = signal_sent_to s v target
Step-Tallied s _ (unlock_target d target e) v = v

Run-Tallied : (s t : Parking) → Run s t → Tallied s → Tallied t
Run-Tallied s _ start v = v
Run-Tallied s u (and_then t _ run step) v = Step-Tallied t u step (Run-Tallied s t run v)

weight-member :
    (worker : ℕ → WorkerPc) (w n : ℕ) → w < n → worker w ≡ asleep → 0 < weight on_count worker n
weight-member worker w n lt e =
    omega (arith, weight-update on_count worker w awake n lt, ap on_count e)

-- From a state in which PARKED_COUNT and the flags fit where the fewer than 2^32 workers are, in every
-- order of the steps of workers and dispatching threads: a worker that sleeps is on PARKED_COUNT, which
-- is then not 0, and has its flag set; these are what `boc_sched_unpause_all` looks at.
pub asleep_seen :
    (s t : Parking) (w : ℕ)
    → Tallied s
    → Run s t
    → t.worker_count < 2 ^ 32
    → t.worker w ≡ asleep
    → (t.parked_count ≢ 0) × (t.parked w ≡ true)
asleep_seen s t w v run few e =
    let u = Run-Tallied s t run v in
    let some_there = weight-member t.worker w t.worker_count (is_worker t u w asleep e refl) e in
    (
      λ none_there. omega (
        arith,
        u.total,
        none_there,
        some_there,
        weight-le on_count t.worker t.worker_count on_count-le,
      ),
      u.flags w ∙ ap flagged e,
    )
  where
    on_count-le : (pc : WorkerPc) → on_count pc ≤ 1
    on_count-le pc = ground arith
