-- ===== src/Request/Steps/Order/Tickets.antt =====
-- Requests of the two-phase locking are linked in the order of their cowns, and stand in a chain in
-- the order of their exchanges.
use bocpy.Base.{
  ℕ, ◌+◌, ◌<◌, ◌≡◌, ◌⊎◌, inl, inr, true, some, List, [], ◌∷◌, update, update_self, update_ne,
  contains, arith, sym, ap, ◌∙◌,
}
use mathlib.Core.Path.{subst}
use native.Mathlib.Decide.{ℕ_discrete}
use bocpy.Request.{Chains}
use bocpy.Request.Steps.{Program, WellFormed, Pc, linking, System, goes}
use bocpy.Request.Steps.Ghost.{Ghost, Inv, Place}
use bocpy.Request.Steps.Resolving.{none-ne-some}
use bocpy.Request.Steps.Order.{left, unswung, Lacks, same_at, dropped}
use bocpy.Request.Steps.Order.Linked.{Swung, Links}
use bocpy.Request.Steps.Order.Swinging.{not_swung, Swung-less}

-- The first of the requests, if any, has a later cown than `c`.
abbrev pub Below : (ℕ → ℕ) → ℕ → List ℕ → Type 0
Below target c [] = Unit
Below target c (r ∷ rs) = c < target r

abbrev pub Sorted : (ℕ → ℕ) → List ℕ → Type 0
Sorted target [] = Unit
Sorted target (r ∷ rs) = Below target (target r) rs × Sorted target rs

pub record Ticketed (p : Program) (s : System) (g : Ghost) (ticket : ℕ → ℕ) (clock : ℕ)
    : Type 0 where
  pub below :
      (b x : ℕ)
      → contains (p.requests b) x ≡ true
      → Lacks (left (s.pc b)) x
      → Below p.target (p.target x) (left (s.pc b))
  pub sorted : (b : ℕ) → Sorted p.target (left (s.pc b))
  pub earlier : (q r : ℕ) → g.before q ≡ some r → ticket r < ticket q
  pub issued : (r : ℕ) → Swung p s r → ticket r < clock

Below-trans :
    (target : ℕ → ℕ) (c r : ℕ) (rs : List ℕ)
    → c < target r
    → Below target (target r) rs
    → Below target c rs
Below-trans target c r [] h k = tt
Below-trans target c r (q ∷ rs) h k = omega arith

module _ (p : Program) (s : System) (b : ℕ) (g : Ghost) (ticket : ℕ → ℕ) (clock : ℕ)
    (k : Ticketed p s g ticket clock) where
  bound_same :
      (to : Pc)
      → left to ≡ left (s.pc b)
      → (d x : ℕ) → contains (p.requests d) x ≡ true
      → Lacks (left (update s.pc b to d)) x
      → Below p.target (p.target x) (left (update s.pc b to d))
  bound_same to l d x m h =
      let e : left (update s.pc b to d) ≡ left (s.pc d) = same_at left s.pc b to l d in
      subst (Below p.target (p.target x)) (sym e)
        (k.below d x m (ap (λ y. contains y x) (sym e) ∙ h))

  order_same :
      (to : Pc) → left to ≡ left (s.pc b) → (d : ℕ) → Sorted p.target (left (update s.pc b to d))
  order_same to l d = subst (Sorted p.target) (sym (same_at left s.pc b to l d)) (k.sorted d)

  still_issued :
      (to : Pc) (c : Chains)
      → unswung to ≡ unswung (s.pc b)
      → (r : ℕ) → Swung p (goes b to c s) r
      → ticket r < clock
  still_issued to c u r h =
      k.issued r (h.0, ap (λ l. contains l r) (sym (same_at unswung s.pc b to u (p.owner r))) ∙ h.1)

  -- A step that links nothing.
  pub Ticketed-calm :
      (to : Pc) (c : Chains) (g' : Ghost)
      → g'.before ≡ g.before
      → left to ≡ left (s.pc b)
      → unswung to ≡ unswung (s.pc b)
      → Ticketed p (goes b to c s) g' ticket clock
  Ticketed-calm to c g' befores l u = record {
    below = bound_same to l;
    sorted = order_same to l;
    earlier = λ q r e. k.earlier q r (ap (λ f. f q) (sym befores) ∙ e);
    issued = still_issued to c u;
  }

  -- A link is complete.
  pub Ticketed-drop :
      (r : ℕ) (to : Pc) (c : Chains) (g' : Ghost)
      → g'.before ≡ g.before
      → left (s.pc b) ≡ r ∷ left to
      → unswung to ≡ unswung (s.pc b)
      → Ticketed p (goes b to c s) g' ticket clock
  Ticketed-drop r to c g' befores l u =
      let order : Sorted p.target (r ∷ left to) = subst (Sorted p.target) l (k.sorted b) in
      record {
        below = λ d x m h. elim (ℕ_discrete b d) [
          | yes here ↦
              subst (λ y. Below p.target (p.target x) (left (update s.pc b to y))) here
                (subst (λ y. Below p.target (p.target x) (left y)) (sym (update_self s.pc b to))
                  (elim (dropped left s.pc b to r l d x h) [
                    | inl (_, same) ↦
                        subst (λ y. Below p.target (p.target y) (left to)) same order.0
                    | inr old ↦
                        Below-trans p.target (p.target x) r (left to)
                          (subst (Below p.target (p.target x)) l (
                            subst (λ y. Below p.target (p.target x) (left (s.pc y))) (sym here)
                              (k.below d x m old)))
                          order.0
                  ]))
          | no ne ↦
              subst (λ y. Below p.target (p.target x) (left y)) (sym (update_ne s.pc b to d ne))
                (k.below d x m (ap (λ y. contains (left y) x) (sym (update_ne s.pc b to d ne)) ∙ h))
        ];
        sorted = λ d. elim (ℕ_discrete b d) [
          | yes here ↦
              subst (λ y. Sorted p.target (left (update s.pc b to y))) here
                (subst (λ y. Sorted p.target (left y)) (sym (update_self s.pc b to)) order.1)
          | no ne ↦
              subst (λ y. Sorted p.target (left y)) (sym (update_ne s.pc b to d ne)) (k.sorted d)
        ];
        earlier = λ q x e. k.earlier q x (ap (λ f. f q) (sym befores) ∙ e);
        issued = still_issued to c u;
      }

module _ (p : Program) (wf : WellFormed p) (s : System) (b : ℕ) (g : Ghost) (v : Inv p s g)
    (links : Links p s g) (ticket : ℕ → ℕ) (clock : ℕ) (k : Ticketed p s g ticket clock) where
  -- An exchange takes the next ticket.
  pub Ticketed-swing :
      (r : ℕ) (rs : List ℕ) (to : Pc) (c : Chains) (g' : Ghost)
      → s.pc b ≡ linking (r ∷ rs)
      → left to ≡ r ∷ rs
      → unswung to ≡ rs
      → ((q x : ℕ) → g'.before q ≡ some x → ((r ≡ q) × Swung p s x) ⊎ (g.before q ≡ some x))
      → Ticketed p (goes b to c s) g' (update ticket r clock) (clock + 1)
  Ticketed-swing r rs to c g' at l u behind =
      let old_ticket : (x : ℕ) → Swung p s x → update ticket r clock x ≡ ticket x = λ x h.
        update_ne ticket r clock x
          (λ same. not_swung p wf s g v links b r rs at (subst (Swung p s) (sym same) h)) in
      record {
        below = bound_same p s b g ticket clock k to (l ∙ ap left (sym at));
        sorted = order_same p s b g ticket clock k to (l ∙ ap left (sym at));
        earlier = λ q x e. elim (behind q x e) [
          | inl (same, h) ↦ omega (
            arith,
            k.issued x h,
            old_ticket x h,
            ap (update ticket r clock) (sym same) ∙ update_self ticket r clock,
          )
          | inr e' ↦
              let place : Place p g b (linking (r ∷ rs)) = subst (Place p g b) at (v.places b) in
              omega (
                arith,
                k.earlier q x e',
                old_ticket x (links.swung q x e'),
                update_ne ticket r clock q
                    (λ same. none-ne-some (sym place.1.0.1 ∙ ap g.before same ∙ e')),
              )
        ];
        issued = λ x h. elim (Swung-less p wf s g v links b r rs at to c u x h) [
          | inl same ↦
              omega (arith, ap (update ticket r clock) (sym same) ∙ update_self ticket r clock)
          | inr h' ↦ omega (arith, k.issued x h', old_ticket x h')
        ];
      }
