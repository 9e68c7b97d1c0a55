-- ===== src/Request/Steps.antt =====
-- The two-phase locking of _core.c by single atomic accesses: the exchange, the store and the spin of
-- `request_start_enqueue_inner`, `request_finish_enqueue_inner`, the loads, the compare-exchange and
-- the spin of `request_release_inner`, and the decrement of `behavior_resolve_one`, of any number of
-- behaviours in any order. A thread schedules each behaviour; a worker runs it once it is dispatched,
-- and then calls `behavior_release_all_impl`. Every dispatch finds the runtime up, and the counts
-- that keep requests in memory are left out.
pub mod Ghost
pub mod Frame
pub mod Linking
pub mod Resolving
pub mod Releasing
pub mod Preserved
pub mod Exclusion
pub mod Order
pub mod Tests
use bocpy.Base.{
  ℕ, ◌≡◌, ◌≢◌, Bool, true, false, Option, none, some, List, [], ◌∷◌, update, length, map, ◌+◌,
  contains, IsDistinct,
}
use bocpy.Request.{Chains, resolve_one}

-- The requests of every behaviour, in the order in which they are linked; each request's cown and the
-- behaviour that owns it.
pub record Program : Type 0 where
  pub requests : ℕ → List ℕ
  pub target : ℕ → ℕ
  pub owner : ℕ → ℕ

-- Where the thread stands that schedules, runs or releases a behaviour. A list has the requests that
-- are left, a request in front of it is the one at hand.
pub data Pc : Type 0 where
  linking : List ℕ → Pc
  first : ℕ → List ℕ → Pc
  storing : (prev : ℕ) → ℕ → List ℕ → Pc
  spinning : (prev : ℕ) → ℕ → List ℕ → Pc
  finishing : List ℕ → Pc
  last_hold waiting running : Pc
  releasing : List ℕ → Pc
  trying awaiting : ℕ → List ℕ → Pc
  handing : ℕ → (next : ℕ) → List ℕ → Pc

pub record System : Type 0 where
  pub chains : Chains
  pub pc : ℕ → Pc

-- `behavior_resolve_one`.
abbrev pub resolved : Program → ℕ → Chains → Chains
resolved p b c = (resolve_one p.target p.owner true b c).1

abbrev pub goes : ℕ → Pc → Chains → System → System
goes b to c s = record { chains = c; pc = update s.pc b to }

-- One access by the thread of the behaviour `b`.
pub data Step (p : Program) (b : ℕ) (s : System) : System → Type 0 where
  swing_idle :
      (r : ℕ) (rs : List ℕ)
      → s.pc b ≡ linking (r ∷ rs)
      → s.chains.last (p.target r) ≡ none
      → Step p b s (
          goes b
            (first r rs)
            (record (s.chains) { last = update s.chains.last (p.target r) (some r) })
            s)
  swing :
      (prev r : ℕ) (rs : List ℕ)
      → s.pc b ≡ linking (r ∷ rs)
      → s.chains.last (p.target r) ≡ some prev
      → Step p b s (
          goes b
            (storing prev r rs)
            (record (s.chains) { last = update s.chains.last (p.target r) (some r) })
            s)
  resolve_first :
      (r : ℕ) (rs : List ℕ)
      → s.pc b ≡ first r rs
      → Step p b s (goes b (linking rs) (resolved p b s.chains) s)
  store :
      (prev r : ℕ) (rs : List ℕ)
      → s.pc b ≡ storing prev r rs
      → Step p b s (
          goes b
            (spinning prev r rs)
            (record (s.chains) { next = update s.chains.next prev (some b) })
            s)
  spin :
      (prev r : ℕ) (rs : List ℕ)
      → s.pc b ≡ spinning prev r rs
      → s.chains.scheduled prev ≡ true
      → Step p b s (goes b (linking rs) s.chains s)
  linked : s.pc b ≡ linking [] → Step p b s (goes b (finishing (p.requests b)) s.chains s)
  finish :
      (r : ℕ) (rs : List ℕ)
      → s.pc b ≡ finishing (r ∷ rs)
      → Step p b s (
          goes b
            (finishing rs)
            (record (s.chains) { scheduled = update s.chains.scheduled r true })
            s)
  finished : s.pc b ≡ finishing [] → Step p b s (goes b last_hold s.chains s)
  resolve_last : s.pc b ≡ last_hold → Step p b s (goes b waiting (resolved p b s.chains) s)
  run :
      s.pc b ≡ waiting
      → contains s.chains.dispatched b ≡ true
      → Step p b s (goes b running s.chains s)
  return : s.pc b ≡ running → Step p b s (goes b (releasing (p.requests b)) s.chains s)
  load_none :
      (r : ℕ) (rs : List ℕ)
      → s.pc b ≡ releasing (r ∷ rs)
      → s.chains.next r ≡ none
      → Step p b s (goes b (trying r rs) s.chains s)
  load_next :
      (r next : ℕ) (rs : List ℕ)
      → s.pc b ≡ releasing (r ∷ rs)
      → s.chains.next r ≡ some next
      → Step p b s (goes b (handing r next rs) s.chains s)
  reset :
      (r : ℕ) (rs : List ℕ)
      → s.pc b ≡ trying r rs
      → s.chains.last (p.target r) ≡ some r
      → Step p b s (
          goes b
            (releasing rs)
            (record (s.chains) { last = update s.chains.last (p.target r) none })
            s)
  too_late :
      (r : ℕ) (rs : List ℕ)
      → s.pc b ≡ trying r rs
      → s.chains.last (p.target r) ≢ some r
      → Step p b s (goes b (awaiting r rs) s.chains s)
  await :
      (r next : ℕ) (rs : List ℕ)
      → s.pc b ≡ awaiting r rs
      → s.chains.next r ≡ some next
      → Step p b s (goes b (handing r next rs) s.chains s)
  hand :
      (r next : ℕ) (rs : List ℕ)
      → s.pc b ≡ handing r next rs
      → Step p b s (goes b (releasing rs) (resolved p next s.chains) s)

pub data Reach (p : Program) (s : System) : System → Type 0 where
  here : Reach p s s
  later : {t u : System} (b : ℕ) → Reach p s t → Step p b t u → Reach p s u

-- What `BehaviorCapsule_create_requests` gives: a behaviour's requests aim at different cowns.
pub record WellFormed (p : Program) : Type 0 where
  pub owned : (b r : ℕ) → contains (p.requests b) r ≡ true → p.owner r ≡ b
  pub distinct : (b : ℕ) → IsDistinct (map p.target (p.requests b))

-- No behaviour has been scheduled; each count has a hold for every request and one more.
abbrev pub start : Program → System
start p = record {
  chains = record {
    last = λ c. none;
    next = λ r. none;
    scheduled = λ r. false;
    count = λ b. length (p.requests b) + 1;
    dispatched = [];
  };
  pc = λ b. linking (p.requests b);
}
