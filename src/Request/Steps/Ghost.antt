-- ===== src/Request/Steps/Ghost.antt =====
-- What the requests of the two-phase locking are told of each other, kept beside the state for the
-- proofs only: no step reads it.
use bocpy.Base.{
  ℕ, suc, ◌+◌, ◌≡◌, ◌≢◌, Bool, true, false, Option, none, some, List, [], ◌∷◌, update, length, map,
  contains, IsDistinct, NotIn, All, arith, if◌then◌else◌, ◌==◌, Bool-cases, inl, inr, ==_iff, refl,
  sym, ap, ◌∙◌,
}
use mathlib.Core.Path.{subst}
use native.Mathlib.Decide.{ℕ_discrete}
use bocpy.Request.Steps.{
  Program, Pc, linking, first, storing, spinning, finishing, last_hold, waiting, running, releasing,
  trying, awaiting, handing, System,
}

-- The request that has a cown; the request a request was linked behind; the requests that a hold was
-- given up for, and those that were released.
pub record Ghost : Type 0 where
  pub holder : ℕ → Option ℕ
  pub before : ℕ → Option ℕ
  pub granted : ℕ → Bool
  pub gone : ℕ → Bool

-- The hold that a behaviour's count has for the end of its scheduling.
abbrev pub final : Pc → ℕ
final (linking rs) = 1
final (first r rs) = 1
final (storing prev r rs) = 1
final (spinning prev r rs) = 1
final (finishing rs) = 1
final last_hold = 1
final _ = 0

abbrev pub started : Pc → Bool
started running = true
started (releasing rs) = true
started (trying r rs) = true
started (awaiting r rs) = true
started (handing r next rs) = true
started _ = false

-- The holds that a count has for requests.
abbrev pub pending : (ℕ → Bool) → List ℕ → ℕ
pending granted [] = 0
pending granted (r ∷ rs) = (if granted r then 0 else 1) + pending granted rs

abbrev pub Fresh : Ghost → ℕ → Type 0
Fresh g r = (g.granted r ≡ false) × (g.before r ≡ none)

abbrev pub Live : Ghost → ℕ → Type 0
Live g r = (g.granted r ≡ true) × (g.gone r ≡ false)

-- The requests are some of the behaviour's, and aim at different cowns.
abbrev pub Mine : Program → ℕ → List ℕ → Type 0
Mine p b rs = IsDistinct (map p.target rs) × All (λ r. contains (p.requests b) r ≡ true) rs

-- The behaviour has a request behind `r`.
abbrev pub Successor : Program → Ghost → ℕ → ℕ → Type 0
Successor p g r b = (q : ℕ) × (g.before q ≡ some r) × (p.owner q ≡ b)

abbrev pub Place : Program → Ghost → ℕ → Pc → Type 0
Place p g b (linking rs) = Mine p b rs × All (Fresh g) rs
Place p g b (first r rs) =
    Mine p b (r ∷ rs) × All (Fresh g) (r ∷ rs) × (g.holder (p.target r) ≡ some r)
Place p g b (storing prev r rs) = Mine p b (r ∷ rs) × All (Fresh g) rs × (g.before r ≡ some prev)
Place p g b (spinning prev r rs) = Mine p b (r ∷ rs) × All (Fresh g) rs × (g.before r ≡ some prev)
Place p g b (finishing rs) = All (λ r. contains (p.requests b) r ≡ true) rs
Place p g b last_hold = Unit {0}
Place p g b waiting = Unit {0}
Place p g b running = All (Live g) (p.requests b)
Place p g b (releasing rs) = Mine p b rs × All (Live g) rs
Place p g b (trying r rs) = Mine p b (r ∷ rs) × All (Live g) (r ∷ rs)
Place p g b (awaiting r rs) = Mine p b (r ∷ rs) × All (Live g) (r ∷ rs)
Place p g b (handing r next rs) = Mine p b (r ∷ rs) × All (Live g) (r ∷ rs) × Successor p g r next

pub record Inv (p : Program) (s : System) (g : Ghost) : Type 0 where
  -- A count has the hold of the scheduling thread and one for each request that is not granted.
  pub counted : (b : ℕ) → s.chains.count b ≡ final (s.pc b) + pending g.granted (p.requests b)
  pub started_granted : (b : ℕ) → contains s.chains.dispatched b ≡ true → s.chains.count b ≡ 0
  -- A request that is granted and not released has its cown.
  pub held : (r : ℕ) → g.granted r ≡ true → g.gone r ≡ false → g.holder (p.target r) ≡ some r
  pub unheld : (c : ℕ) → s.chains.last c ≡ none → g.holder c ≡ none
  pub newest : (c r : ℕ) → s.chains.last c ≡ some r → p.target r ≡ c
  -- A request stands behind one of the same cown, and is granted only once that is released.
  pub behind : (q r : ℕ) → g.before q ≡ some r → p.target q ≡ p.target r
  pub listed : (q r : ℕ) → g.before q ≡ some r → contains (p.requests (p.owner q)) q ≡ true
  pub after : (q r : ℕ) → g.before q ≡ some r → g.granted q ≡ true → g.gone r ≡ true
  -- A request knows the behaviour of one that stands behind it.
  pub told : (r b : ℕ) → s.chains.next r ≡ some b → Successor p g r b
  pub released : (r : ℕ) → g.gone r ≡ true → started (s.pc (p.owner r)) ≡ true
  pub places : (b : ℕ) → Place p g b (s.pc b)

pub pending-update_out :
    (granted : ℕ → Bool) (q : ℕ) (rs : List ℕ)
    → contains rs q ≡ false
    → pending (update granted q true) rs ≡ pending granted rs
pending-update_out granted q [] h = refl
pending-update_out granted q (r ∷ rs) h = ground (arith, pending-update_out granted q rs)

-- Requests of different cowns differ.
pub other_target :
    (target : ℕ → ℕ) (r q : ℕ) (rs : List ℕ)
    → NotIn (target r) (map target rs)
    → contains rs q ≡ true
    → r ≢ q
other_target target r q [] out h = λ e. cc
other_target target r q (x ∷ rs) out h = λ e. elim (Bool-cases (x == q)) [
  | inl same ↦ out.0 (ap target (e ∙ sym ((==_iff x q).0 same)))
  | inr no_match ↦ other_target target r q rs out.1 (sym (rw no_match refl) ∙ h) e
]

pub not_among :
    (target : ℕ → ℕ) (r : ℕ) (rs : List ℕ)
    → NotIn (target r) (map target rs)
    → contains rs r ≡ false
not_among target r rs out = elim (Bool-cases (contains rs r)) [
  | inl h ↦ absurd (other_target target r r rs out h refl)
  | inr h ↦ h
]

-- A grant takes one hold.
pub pending-update :
    (target : ℕ → ℕ) (granted : ℕ → Bool) (q : ℕ) (rs : List ℕ)
    → IsDistinct (map target rs)
    → contains rs q ≡ true
    → granted q ≡ false
    → pending granted rs ≡ suc (pending (update granted q true) rs)
pending-update target granted q [] d h e = cc
pending-update target granted q (r ∷ rs) d h e = elim (ℕ_discrete r q) [
  | yes same ↦ ground (arith, pending-update_out granted r rs, not_among target r rs d.0)
  | no ne ↦ ground (arith, pending-update target granted q rs d.1)
]

-- Before every hold is granted, one is left.
pub pending-zero :
    (granted : ℕ → Bool) (rs : List ℕ) (r : ℕ)
    → pending granted rs ≡ 0
    → contains rs r ≡ true
    → granted r ≡ true
pending-zero granted [] r z h = cc
pending-zero granted (x ∷ rs) r z h = elim (Bool-cases (granted x)) [
  | inl g ↦ ground (arith, pending-zero granted rs r)
  | inr g ↦ absurd (ground arith)
]

pub pending-none : (rs : List ℕ) → pending (λ r. false) rs ≡ length rs
pending-none [] = refl
pending-none (r ∷ rs) = omega (arith, pending-none rs)

-- From each of some requests to each, knowing that it is one of them.
pub All-imp :
    (P Q : ℕ → Type 0) (rs : List ℕ)
    → ((r : ℕ) → contains rs r ≡ true → P r → Q r)
    → All P rs
    → All Q rs
All-imp P Q [] f h = tt
All-imp P Q (x ∷ rs) f h =
    (f x (ground arith) h.0, All-imp P Q rs (λ r m k. f r (ground arith) k) h.1)

pub All-lookup : (P : ℕ → Type 0) (rs : List ℕ) (r : ℕ) → contains rs r ≡ true → All P rs → P r
All-lookup P [] r m h = cc
All-lookup P (x ∷ rs) r m h = elim (ℕ_discrete x r) [
  | yes same ↦ subst P same h.0
  | no ne ↦ All-lookup P rs r (ground arith) h.1
]

pub All-contains : (rs : List ℕ) → All (λ r. contains rs r ≡ true) rs
All-contains [] = tt
All-contains (x ∷ rs) = (
  ground arith,
  All-imp (λ r. contains rs r ≡ true) (λ r. contains (x ∷ rs) r ≡ true) rs (λ r m k. ground arith)
      (All-contains rs),
)
