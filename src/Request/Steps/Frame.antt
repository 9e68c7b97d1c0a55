-- ===== src/Request/Steps/Frame.antt =====
-- What a step of one behaviour leaves alone of the others.
use bocpy.Base.{
  ℕ, ◌≡◌, ◌≢◌, Bool, true, false, Option, none, some, arith, sym, ap, ◌∙◌, List, ◌∷◌, update,
  update_self, update_ne, contains, All,
}
use mathlib.Core.Path.{subst}
use native.Mathlib.Decide.{ℕ_discrete}
use bocpy.Request.Steps.{
  Program, WellFormed, Pc, linking, first, storing, spinning, finishing, last_hold, waiting,
  running, releasing, trying, awaiting, handing,
}
use bocpy.Request.Steps.Ghost.{Ghost, final, started, Fresh, Live, Place, All-imp, All-lookup}

-- The ghost changes so that what the requests `rs` are told stays true.
pub record Kept (p : Program) (g g' : Ghost) (rs : List ℕ) : Type 0 where
  pub fresh : (r : ℕ) → contains rs r ≡ true → Fresh g r → Fresh g' r
  pub live : (r : ℕ) → contains rs r ≡ true → Live g r → Live g' r
  pub behind : (q r : ℕ) → g.before q ≡ some r → g'.before q ≡ some r
  pub holds :
      (r : ℕ)
      → contains rs r ≡ true
      → g.granted r ≡ false
      → g.holder (p.target r) ≡ some r
      → g'.holder (p.target r) ≡ some r

module _ (p : Program) (g g' : Ghost) (b : ℕ) (k : Kept p g g' (p.requests b)) where
  carried :
      (P Q : ℕ → Type 0)
      → ((r : ℕ) → contains (p.requests b) r ≡ true → P r → Q r)
      → (rs : List ℕ) → All (λ r. contains (p.requests b) r ≡ true) rs
      → All P rs
      → All Q rs
  carried P Q f rs mine =
      All-imp P Q rs (λ r m. f r (All-lookup (λ q. contains (p.requests b) q ≡ true) rs r m mine))

  unlinked_carried :
      (rs : List ℕ)
      → All (λ r. contains (p.requests b) r ≡ true) rs
      → All (Fresh g) rs
      → All (Fresh g') rs
  unlinked_carried = carried (Fresh g) (Fresh g') k.fresh

  owned_carried :
      (rs : List ℕ)
      → All (λ r. contains (p.requests b) r ≡ true) rs
      → All (Live g) rs
      → All (Live g') rs
  owned_carried = carried (Live g) (Live g') k.live

  pub Place-kept : (pc : Pc) → Place p g b pc → Place p g' b pc
  Place-kept (linking rs) h = (h.0, unlinked_carried rs h.0.1 h.1)
  Place-kept (first r rs) h =
      (h.0, unlinked_carried (r ∷ rs) h.0.1 h.1, k.holds r h.0.1.0 h.1.0.0 h.2)
  Place-kept (storing prev r rs) h = (h.0, unlinked_carried rs h.0.1.1 h.1, k.behind r prev h.2)
  Place-kept (spinning prev r rs) h = (h.0, unlinked_carried rs h.0.1.1 h.1, k.behind r prev h.2)
  Place-kept (finishing rs) h = h
  Place-kept last_hold h = h
  Place-kept waiting h = h
  Place-kept running h = All-imp (Live g) (Live g') (p.requests b) k.live h
  Place-kept (releasing rs) h = (h.0, owned_carried rs h.0.1 h.1)
  Place-kept (trying r rs) h = (h.0, owned_carried (r ∷ rs) h.0.1 h.1)
  Place-kept (awaiting r rs) h = (h.0, owned_carried (r ∷ rs) h.0.1 h.1)
  Place-kept (handing r next rs) h =
      (h.0, owned_carried (r ∷ rs) h.0.1 h.1, (h.2.0, k.behind h.2.0 r h.2.1, h.2.2))

-- After a step of `b`, where the others stand is unchanged.
pub places-step :
    (p : Program) (g g' : Ghost) (pc : ℕ → Pc) (b : ℕ) (to : Pc)
    → Place p g' b to
    → ((d : ℕ) → b ≢ d → Kept p g g' (p.requests d))
    → ((d : ℕ) → Place p g d (pc d))
    → (d : ℕ) → Place p g' d (update pc b to d)
places-step p g g' pc b to here others h d = elim (ℕ_discrete b d) [
  | yes same ↦ subst (λ e. Place p g' e (update pc b to e)) same (rw (update_self pc b to) here)
  | no ne ↦ rw (update_ne pc b to d ne) (Place-kept p g g' d (others d ne) (pc d) (h d))
]

pub started-update :
    (pc : ℕ → Pc) (b : ℕ) (to : Pc) (d : ℕ)
    → (started (pc b) ≡ true → started to ≡ true)
    → started (pc d) ≡ true
    → started (update pc b to d) ≡ true
started-update pc b to d h e = elim (ℕ_discrete b d) [
  | yes same ↦
      rw (← same, update_self pc b to) (h (subst (λ x. started (pc x) ≡ true) (sym same) e))
  | no ne ↦ rw (update_ne pc b to d ne) e
]

pub final-update :
    (pc : ℕ → Pc) (b : ℕ) (to : Pc) (d : ℕ)
    → final to ≡ final (pc b)
    → final (update pc b to d) ≡ final (pc d)
final-update pc b to d h = ground arith

pub not_started : {a : Bool} → a ≡ true → a ≡ false → ⊥
not_started h k = cc

-- A cown that nobody has is taken; the others keep theirs.
pub free_holder :
    (holder : ℕ → Option ℕ) (c d r q : ℕ)
    → holder c ≡ none
    → holder d ≡ some q
    → update holder c (some r) d ≡ some q
free_holder holder c d r q free h = elim (ℕ_discrete c d) [
  | yes same ↦ absurd (ground arith)
  | no ne ↦ update_ne holder c (some r) d ne ∙ h
]

-- The requests of different behaviours differ.
pub others_differ :
    (p : Program) (b d r q : ℕ)
    → WellFormed p
    → contains (p.requests b) r ≡ true
    → contains (p.requests d) q ≡ true
    → b ≢ d
    → r ≢ q
others_differ p b d r q wf m n ne e = ne (sym (wf.owned b r m) ∙ ap p.owner e ∙ wf.owned d q n)

-- Whoever has a cown has it alone.
pub one_holder : {o : Option ℕ} {r q : ℕ} → o ≡ some r → o ≡ some q → r ≡ q
one_holder {o} {r} {q} h k = cc
