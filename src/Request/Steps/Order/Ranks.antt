-- ===== src/Request/Steps/Order/Ranks.antt =====
-- The behaviours of the two-phase locking are ranked as they finish linking: whoever stands behind
-- another has the higher rank.
use bocpy.Base.{
  ℕ, ◌+◌, ◌<◌, ◌≡◌, ◌≢◌, inl, inr, Bool, true, false, some, List, [], ◌∷◌, update, update_self,
  update_ne, contains, arith, sym, ap, ◌∙◌,
}
use mathlib.Core.Path.{subst}
use native.Mathlib.Decide.{ℕ_discrete}
use bocpy.Request.{Chains}
use bocpy.Request.Steps.{Program, WellFormed, Pc, linking, storing, finishing, System, goes}
use bocpy.Request.Steps.Ghost.{Ghost, Inv, Place}
use bocpy.Request.Steps.Frame.{not_started}
use bocpy.Request.Steps.Order.{left, unfinished, ranked, ranked-left, Lacks, same_at, dropped}

pub record Ranked (p : Program) (s : System) (g : Ghost) (rank : ℕ → ℕ) (clock : ℕ) : Type 0 where
  -- `scheduled` is set only by a behaviour that has linked all its requests.
  pub set_by : (r : ℕ) → s.chains.scheduled r ≡ true → ranked (s.pc (p.owner r)) ≡ true
  pub waited_for :
      (q r : ℕ)
      → g.before q ≡ some r
      → Lacks (left (s.pc (p.owner q))) q
      → s.chains.scheduled r ≡ true
  pub in_order :
      (q r : ℕ)
      → g.before q ≡ some r
      → ranked (s.pc (p.owner q)) ≡ true
      → rank (p.owner r) < rank (p.owner q)
  pub past : (b : ℕ) → ranked (s.pc b) ≡ true → rank b < clock
  pub all_set :
      (b q : ℕ)
      → contains (p.requests b) q ≡ true
      → Lacks (unfinished (p.requests b) (s.pc b)) q
      → s.chains.scheduled q ≡ true

set_more : (f : ℕ → Bool) (r x : ℕ) → f x ≡ true → update f r true x ≡ true
set_more f r x e = ground arith

module _ (p : Program) (wf : WellFormed p) (s : System) (b : ℕ) (g : Ghost) (v : Inv p s g)
    (rank : ℕ → ℕ) (clock : ℕ) (k : Ranked p s g rank clock) where
  -- A step that sets no `scheduled` and finishes no linking.
  pub Ranked-calm :
      (to : Pc) (c : Chains) (g' : Ghost)
      → c.scheduled ≡ s.chains.scheduled
      → g'.before ≡ g.before
      → ranked to ≡ ranked (s.pc b)
      → ((all : List ℕ) → unfinished all to ≡ unfinished all (s.pc b))
      → ((q r : ℕ)
          → g.before q ≡ some r
          → Lacks (left (update s.pc b to (p.owner q))) q
          → s.chains.scheduled r ≡ true)
      → Ranked p (goes b to c s) g' rank clock
  Ranked-calm to c g' sets befores on un waits =
      let rk : (d : ℕ) → ranked (update s.pc b to d) ≡ ranked (s.pc d) =
        same_at ranked s.pc b to on in
      record {
        set_by = λ r e. rk (p.owner r) ∙ k.set_by r (ap (λ f. f r) (sym sets) ∙ e);
        waited_for = λ q r e h. ap (λ f. f r) sets ∙ waits q r (ap (λ f. f q) (sym befores) ∙ e) h;
        in_order =
            λ q r e h. k.in_order q r (ap (λ f. f q) (sym befores) ∙ e) (sym (rk (p.owner q)) ∙ h);
        past = λ d h. k.past d (sym (rk d) ∙ h);
        all_set = λ d q m h.
            ap (λ f. f q) sets
            ∙ k.all_set d q m (
                ap (λ l. contains l q)
                  (sym (same_at (unfinished (p.requests d)) s.pc b to (un (p.requests d)) d))
                ∙ h);
      }

  pub left_same :
      (to : Pc)
      → left to ≡ left (s.pc b)
      → (q r : ℕ) → g.before q ≡ some r
      → Lacks (left (update s.pc b to (p.owner q))) q
      → s.chains.scheduled r ≡ true
  left_same to l q r e h =
      k.waited_for q r e (ap (λ x. contains x q) (sym (same_at left s.pc b to l (p.owner q))) ∙ h)

  pub Ranked-swing :
      (prev r : ℕ) (rs : List ℕ) (c : Chains)
      → s.pc b ≡ linking (r ∷ rs)
      → c.scheduled ≡ s.chains.scheduled
      → Ranked p
          (goes b (storing prev r rs) c s)
          (record g { before = update g.before r (some prev) })
          rank
          clock
  Ranked-swing prev r rs c at sets =
      let to : Pc = storing prev r rs in
      let place : Place p g b (linking (r ∷ rs)) = subst (Place p g b) at (v.places b) in
      let own : p.owner r ≡ b = wf.owned b r place.0.1.0 in
      let rk : (d : ℕ) → ranked (update s.pc b to d) ≡ ranked (s.pc d) =
        same_at ranked s.pc b to (ap ranked (sym at)) in
      let as_before : (q x : ℕ)
          → r ≢ q
          → update g.before r (some prev) q ≡ some x
          → g.before q ≡ some x =
        λ q x ne e. sym (update_ne g.before r (some prev) q ne) ∙ e in
      record {
        set_by = λ x e. rk (p.owner x) ∙ k.set_by x (ap (λ f. f x) (sym sets) ∙ e);
        waited_for = λ q x e h. elim (ℕ_discrete r q) [
          | yes same ↦ absurd (
              not_started {a = contains (r ∷ rs) r} (ground arith) (
                ap (λ y. contains (left y) r) (sym (update_self s.pc b to))
                ∙ ap (λ d. contains (left (update s.pc b to d)) r) (sym own)
                ∙ subst (λ y. Lacks (left (update s.pc b to (p.owner y))) y) (sym same) h))
          | no ne ↦ ap (λ f. f x) sets ∙ left_same to (ap left (sym at)) q x (as_before q x ne e) h
        ];
        in_order = λ q x e h. elim (ℕ_discrete r q) [
          | yes same ↦ absurd (
              not_started h
                (rk (p.owner q) ∙ ap ranked (ap s.pc (ap p.owner (sym same) ∙ own) ∙ at)))
          | no ne ↦ k.in_order q x (as_before q x ne e) (sym (rk (p.owner q)) ∙ h)
        ];
        past = λ d h. k.past d (sym (rk d) ∙ h);
        all_set = λ d q m h.
            ap (λ f. f q) sets
            ∙ k.all_set d q m (
                ap (λ l. contains l q)
                  (sym (
                    same_at (unfinished (p.requests d)) s.pc b to
                      (ap (unfinished (p.requests d)) (sym at)) d))
                ∙ h);
      }

  pub Ranked-linked :
      s.pc b ≡ linking []
      → Ranked p (goes b (finishing (p.requests b)) s.chains s) g (update rank b clock) (clock + 1)
  Ranked-linked at =
      let to : Pc = finishing (p.requests b) in
      let others : (d : ℕ) → b ≢ d → ranked (update s.pc b to d) ≡ true → ranked (s.pc d) ≡ true =
        λ d ne h. sym (ap ranked (update_ne s.pc b to d ne)) ∙ h in
      let unranked : ranked (s.pc b) ≡ false = ap ranked at in
      let set_now : (r : ℕ) → s.chains.scheduled r ≡ true → b ≢ p.owner r =
        λ r e same. not_started (k.set_by r e) (ap ranked (ap s.pc (sym same)) ∙ unranked) in
      let same_rank : (d : ℕ) → b ≢ d → update rank b clock d ≡ rank d =
        λ d ne. update_ne rank b clock d ne in
      record {
        set_by = λ r e. ap ranked (update_ne s.pc b to (p.owner r) (set_now r e)) ∙ k.set_by r e;
        waited_for = left_same to (ap left (sym at));
        in_order = λ q r e h. elim (ℕ_discrete b (p.owner q)) [
          | yes same ↦
              let up : s.chains.scheduled r ≡ true =
                k.waited_for q r e (ap (λ x. contains (left x) q) (ap s.pc (sym same) ∙ at)) in
              omega (
                arith,
                k.past (p.owner r) (k.set_by r up),
                same_rank (p.owner r) (set_now r up),
                ap (update rank b clock) (sym same) ∙ update_self rank b clock,
              )
          | no ne ↦
              let up : s.chains.scheduled r ≡ true = k.waited_for q r e (
                ap (λ l. contains l q)
                  (ranked-left (s.pc (p.owner q)) (others (p.owner q) ne h))) in
              omega (
                arith,
                k.in_order q r e (others (p.owner q) ne h),
                same_rank (p.owner r) (set_now r up),
                same_rank (p.owner q) ne,
              )
        ];
        past = λ d h. elim (ℕ_discrete b d) [
          | yes same ↦ omega (arith, ap (update rank b clock) (sym same) ∙ update_self rank b clock)
          | no ne ↦ omega (arith, k.past d (others d ne h), same_rank d ne)
        ];
        all_set = λ d q m h. elim (ℕ_discrete b d) [
          | yes same ↦ absurd (
              not_started (subst (λ x. contains (p.requests x) q ≡ true) (sym same) m) (
                ap (λ x. contains (unfinished (p.requests b) x) q) (sym (update_self s.pc b to))
                ∙ subst (λ x. Lacks (unfinished (p.requests x) (update s.pc b to x)) q) (sym same)
                    h))
          | no ne ↦ k.all_set d q m (
              ap (λ x. contains (unfinished (p.requests d) x) q) (sym (update_ne s.pc b to d ne))
              ∙ h)
        ];
      }

  pub Ranked-finish :
      (r : ℕ) (rs : List ℕ)
      → s.pc b ≡ finishing (r ∷ rs)
      → Ranked p
          (goes b
            (finishing rs)
            (record (s.chains) { scheduled = update s.chains.scheduled r true })
            s)
          g
          rank
          clock
  Ranked-finish r rs at =
      let to : Pc = finishing rs in
      let place : Place p g b (finishing (r ∷ rs)) = subst (Place p g b) at (v.places b) in
      let own : p.owner r ≡ b = wf.owned b r place.0 in
      let rk : (d : ℕ) → ranked (update s.pc b to d) ≡ ranked (s.pc d) =
        same_at ranked s.pc b to (ap ranked (sym at)) in
      let more : (x : ℕ) → s.chains.scheduled x ≡ true → update s.chains.scheduled r true x ≡ true =
        λ x e. set_more s.chains.scheduled r x e in
      record {
        set_by = λ x e. elim (ℕ_discrete r x) [
          | yes same ↦ rk (p.owner x) ∙ ap ranked (ap s.pc (ap p.owner (sym same) ∙ own) ∙ at)
          | no ne ↦ rk (p.owner x) ∙ k.set_by x (sym (update_ne s.chains.scheduled r true x ne) ∙ e)
        ];
        waited_for = λ q x e h. more x (left_same to (ap left (sym at)) q x e h);
        in_order = λ q x e h. k.in_order q x e (sym (rk (p.owner q)) ∙ h);
        past = λ d h. k.past d (sym (rk d) ∙ h);
        all_set = λ d q m h.
            elim (dropped (unfinished (p.requests d)) s.pc b to r
              (ap (unfinished (p.requests d)) at) d q h) [
                | inl (_, same) ↦
                    ap (update s.chains.scheduled r true) (sym same)
                    ∙ update_self s.chains.scheduled r true
                | inr old ↦ more q (k.all_set d q m old)
              ];
      }

  -- A request whose link is complete, and that stands behind another, has waited for it.
  pub waits_on :
      (to : Pc) (r : ℕ) (rs : List ℕ)
      → left (s.pc b) ≡ r ∷ left to
      → ((x : ℕ) → g.before r ≡ some x → s.chains.scheduled x ≡ true)
      → (q x : ℕ) → g.before q ≡ some x
      → Lacks (left (update s.pc b to (p.owner q))) q
      → s.chains.scheduled x ≡ true
  waits_on to r rs l here q x e h = elim (dropped left s.pc b to r l (p.owner q) q h) [
    | inl (_, same) ↦ here x (ap g.before same ∙ e)
    | inr old ↦ k.waited_for q x e old
  ]
