-- ===== src/Request/Steps/Order.antt =====
-- What the two-phase locking keeps of the order of requests and behaviours: each cown's chain has no
-- gap and no fork, and behaviours that wait for each other finished linking in the same order.
pub mod Linked
pub mod Swinging
pub mod Passing
pub mod Chained
pub mod Ranks
pub mod Ranking
pub mod Tickets
pub mod Ticketing
pub mod Done
pub mod Progress
pub mod Waits
pub mod Deadlock
use bocpy.Base.{
  ℕ, ◌+◌, ◌<◌, ◌≡◌, ◌≢◌, ◌⊎◌, inl, inr, Bool, true, false, Option, none, some, List, [], ◌∷◌,
  update, update_self, update_ne, contains, arith, refl, sym, ap, ◌∙◌,
}
use mathlib.Core.Path.{subst}
use native.Mathlib.Decide.{ℕ_discrete}
use bocpy.Request.Steps.{
  Program, Pc, linking, first, storing, spinning, finishing, last_hold, waiting, running, releasing,
  trying, awaiting, handing, System,
}
use bocpy.Request.Steps.Ghost.{Ghost}

-- The requests whose link is not complete, and those not yet put into their cown's chain.
abbrev pub left : Pc → List ℕ
left (linking rs) = rs
left (first r rs) = r ∷ rs
left (storing prev r rs) = r ∷ rs
left (spinning prev r rs) = r ∷ rs
left _ = []

abbrev pub unswung : Pc → List ℕ
unswung (linking rs) = rs
unswung (first r rs) = rs
unswung (storing prev r rs) = rs
unswung (spinning prev r rs) = rs
unswung _ = []

-- Of the requests `all`, those whose `scheduled` is not set, and those that are not released.
abbrev pub unfinished : List ℕ → Pc → List ℕ
unfinished all (linking rs) = all
unfinished all (first r rs) = all
unfinished all (storing prev r rs) = all
unfinished all (spinning prev r rs) = all
unfinished all (finishing rs) = rs
unfinished all _ = []

abbrev pub kept : List ℕ → Pc → List ℕ
kept all (releasing rs) = rs
kept all (trying r rs) = r ∷ rs
kept all (awaiting r rs) = r ∷ rs
kept all (handing r next rs) = r ∷ rs
kept all _ = all

-- The thread has linked all its requests.
abbrev pub ranked : Pc → Bool
ranked (linking rs) = false
ranked (first r rs) = false
ranked (storing prev r rs) = false
ranked (spinning prev r rs) = false
ranked _ = true

pub ranked-left : (pc : Pc) → ranked pc ≡ true → left pc ≡ []
ranked-left (linking rs) h = cc
ranked-left (first r rs) h = cc
ranked-left (storing prev r rs) h = cc
ranked-left (spinning prev r rs) h = cc
ranked-left (finishing rs) h = refl
ranked-left last_hold h = refl
ranked-left waiting h = refl
ranked-left running h = refl
ranked-left (releasing rs) h = refl
ranked-left (trying r rs) h = refl
ranked-left (awaiting r rs) h = refl
ranked-left (handing r next rs) h = refl

-- A step that does not change `f` at its own place changes it nowhere.
pub same_at {ℓ} :
    {A : Type ℓ} (f : Pc → A) (pc : ℕ → Pc) (b : ℕ) (to : Pc)
    → f to ≡ f (pc b)
    → (d : ℕ) → f (update pc b to d) ≡ f (pc d)
same_at f pc b to e d = elim (ℕ_discrete b d) [
  | yes same ↦ subst (λ k. f (update pc b to k) ≡ f (pc k)) same (ap f (update_self pc b to) ∙ e)
  | no ne ↦ ap f (update_ne pc b to d ne)
]

abbrev pub Lacks : List ℕ → ℕ → Type 0
Lacks rs q = contains rs q ≡ false

-- A step that takes `r` off the list `f` at its own place adds only `r` to what the list lacks.
pub dropped :
    (f : Pc → List ℕ) (pc : ℕ → Pc) (b : ℕ) (to : Pc) (r : ℕ)
    → f (pc b) ≡ r ∷ f to
    → (d q : ℕ) → Lacks (f (update pc b to d)) q
    → ((b ≡ d) × (r ≡ q)) ⊎ Lacks (f (pc d)) q
dropped f pc b to r e d q h = elim (ℕ_discrete b d) [
  | yes same ↦ elim (ℕ_discrete r q) [
    | yes it ↦ inl (same, it)
    | no ne ↦ inr (
        subst (λ k. Lacks (f (pc k)) q) same
          (rw e (
            ground (
              arith,
              subst (λ k. Lacks (f (update pc b to k)) q) (sym same) h,
              update_self pc b to,
            ))))
  ]
  | no ne ↦ inr (sym (ap (λ k. contains (f k) q) (update_ne pc b to d ne)) ∙ h)
]

out_of_tail : (r q : ℕ) (rs : List ℕ) → Lacks (r ∷ rs) q → Lacks rs q
out_of_tail r q rs h = ground arith

pub still_out :
    (f : Pc → List ℕ) (pc : ℕ → Pc) (b : ℕ) (to : Pc) (r : ℕ)
    → f (pc b) ≡ r ∷ f to
    → (d q : ℕ) → Lacks (f (pc d)) q
    → Lacks (f (update pc b to d)) q
still_out f pc b to r e d q h = elim (ℕ_discrete b d) [
  | yes same ↦
      subst (λ k. Lacks (f (update pc b to k)) q) same
        (ap (λ k. contains (f k) q) (update_self pc b to)
          ∙ out_of_tail r q (f to)
              (ap (λ l. contains l q) (sym e) ∙ subst (λ k. Lacks (f (pc k)) q) (sym same) h))
  | no ne ↦ ap (λ k. contains (f k) q) (update_ne pc b to d ne) ∙ h
]
