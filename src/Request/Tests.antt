-- ===== src/Request/Tests.antt =====
-- Two behaviours, 10 and 11, on the cowns 0 and 1, and the properties there.
use bocpy.Base.{
  ℕ, zero, suc, ◌+◌, ◌/◌, ◌%◌, ◌≡◌, refl, true, false, Option, none, some, List, [], ◌∷◌, update,
  IsDistinct, length, arith, All,
}
use bocpy.Request.{Chains, start_enqueue, release}
use bocpy.Request.Chain.{Holds}
use bocpy.Request.Handover.{Valid}
use bocpy.Request.Fifo.{Enqueued, enqueue_lem}
use bocpy.Request.Release.{Released, release_lem}
use bocpy.Request.Schedule.{schedule, release_all, create_requests, create_requests_lem}

abbrev target : ℕ → ℕ
target r = r % 2

abbrev owner : ℕ → ℕ
owner r = 10 + r / 2

abbrev idle : Chains
idle = record {
  last = λ c. none;
  next = λ r. none;
  scheduled = λ r. false;
  count = λ b. 3;
  dispatched = [];
}

runs_in_turn :
    (release_all target owner true
      (0 ∷ 1 ∷ [])
      (schedule target owner true 11
        (2 ∷ 3 ∷ [])
        (schedule target owner true 10 (0 ∷ 1 ∷ []) idle).1).1).1.dispatched
    ≡ 10 ∷ 11 ∷ []
unfolding release_all schedule
runs_in_turn = refl

waits_for_the_first :
    (schedule target owner true 11
      (2 ∷ 3 ∷ [])
      (schedule target owner true 10 (0 ∷ 1 ∷ []) idle).1).1.dispatched
    ≡ 10 ∷ []
unfolding schedule
waits_for_the_first = refl

abbrev lasts : ℕ → Option ℕ
lasts zero = some 0
lasts (suc zero) = some 1
lasts (suc (suc c)) = none

abbrev chains : ℕ → List ℕ
chains zero = 0 ∷ []
chains (suc zero) = 1 ∷ []
chains (suc (suc c)) = []

-- Behaviour 10 has both cowns.
abbrev taken : Chains
taken = record {
  last = lasts;
  next = λ r. none;
  scheduled = λ r. true;
  count = λ b. 3;
  dispatched = 10 ∷ [];
}

taken-Holds : (c : ℕ) → Holds target owner true taken c (chains c)
taken-Holds zero = record { linked = refl; last_is = refl; distinct = (tt, tt) }
taken-Holds (suc zero) = record { linked = refl; last_is = refl; distinct = (tt, tt) }
taken-Holds (suc (suc c)) = record { linked = tt; last_is = refl; distinct = tt }

taken-aimed : (c : ℕ) → All (λ r. target r ≡ c) (chains c)
taken-aimed zero = (refl, tt)
taken-aimed (suc zero) = (refl, tt)
taken-aimed (suc (suc c)) = tt

taken-Valid : Valid target owner true taken chains
taken-Valid = record { holds = taken-Holds; aimed = taken-aimed }

enqueue_lem_example :
    let o = start_enqueue target owner true 2 taken in
    Valid target owner true o.1 (update chains 0 (0 ∷ 2 ∷ []))
    × Enqueued target owner true 2 taken (0 ∷ []) o
enqueue_lem_example =
    enqueue_lem target owner true taken chains 2 taken-Valid (omega arith, tt) refl (refl, tt)

release_lem_example :
    let o = release target owner true 0 taken in
    Valid target owner true o.1 (update chains 0 []) × Released target owner true taken [] o
release_lem_example = release_lem target owner true taken chains 0 [] taken-Valid refl

create_requests_lem_example :
    let (requests, count) = create_requests (λ xs. xs) 9 (4 ∷ 5 ∷ 4 ∷ []) in
    (count ≡ length requests + 1) × IsDistinct requests
create_requests_lem_example =
    create_requests_lem (λ xs. xs) 9 (4 ∷ 5 ∷ 4 ∷ []) (λ xs. refl) (λ xs d. d)
      (omega arith, (omega arith, (omega arith, tt)))
