-- ===== src/Request/Steps/Linking.antt =====
-- The steps of the two-phase locking that link requests, and those that only move on.
use bocpy.Base.{
  ℕ, ◌≡◌, true, false, none, some, List, ◌∷◌, update, update_self, update_ne, contains, arith, refl,
  sym, ap, ◌∙◌,
}
use mathlib.Core.Path.{subst}
use native.Mathlib.Decide.{ℕ_discrete}
use bocpy.Request.{Chains}
use bocpy.Request.Steps.{Program, WellFormed, Pc, linking, first, storing, spinning, System, goes}
use bocpy.Request.Steps.Ghost.{
  Ghost, Fresh, Place, Successor, Inv, final, started, other_target, All-imp,
}
use bocpy.Request.Steps.Frame.{
  places-step, started-update, final-update, not_started, free_holder, others_differ, one_holder,
}

module _ (p : Program) (s : System) (g : Ghost) (v : Inv p s g) (b : ℕ) where
  -- A step that grants and releases nothing.
  pub quiet :
      (to : Pc) (c : Chains)
      → c.count ≡ s.chains.count
      → c.dispatched ≡ s.chains.dispatched
      → c.last ≡ s.chains.last
      → ((r d : ℕ) → c.next r ≡ some d → Successor p g r d)
      → Place p g b to
      → final to ≡ final (s.pc b)
      → (started (s.pc b) ≡ true → started to ≡ true)
      → Inv p (goes b to c s) g
  quiet to c counts queue lasts told place holds on = record {
    counted = λ d. rw (counts, final-update s.pc b to d holds) (v.counted d);
    started_granted = λ d m. rw counts (v.started_granted d (rw (sym queue) m));
    held = v.held;
    unheld = λ c' e. v.unheld c' (rw (sym lasts) e);
    newest = λ c' r e. v.newest c' r (rw (sym lasts) e);
    behind = v.behind;
    listed = v.listed;
    after = v.after;
    told = told;
    released = λ r e. started-update s.pc b to (p.owner r) on (v.released r e);
    places =
        places-step p g g s.pc b to place
          (λ d ne. record {
            fresh = λ r m h. h;
            live = λ r m h. h;
            behind = λ q r h. h;
            holds = λ r m e h. h;
          })
          v.places;
  }

  -- A request is put at the end of an idle cown's chain: it has the cown, though it is not granted.
  pub Inv-swing_idle :
      (r : ℕ) (rs : List ℕ)
      → s.pc b ≡ linking (r ∷ rs)
      → s.chains.last (p.target r) ≡ none
      → Inv p
          (goes b
            (first r rs)
            (record (s.chains) { last = update s.chains.last (p.target r) (some r) })
            s)
          (record g { holder = update g.holder (p.target r) (some r) })
  Inv-swing_idle r rs at idle =
      let place : Place p g b (linking (r ∷ rs)) = subst (Place p g b) at (v.places b) in
      let free : g.holder (p.target r) ≡ none = v.unheld (p.target r) idle in
      record {
        counted = λ d. rw (final-update s.pc b (first r rs) d (ap final (sym at))) (v.counted d);
        started_granted = v.started_granted;
        held = λ q e e'. free_holder g.holder (p.target r) (p.target q) r q free (v.held q e e');
        unheld = λ c e. ground (arith, v.unheld c);
        newest = λ c q e. ground (arith, v.newest c q);
        behind = v.behind;
        listed = v.listed;
        after = v.after;
        told = v.told;
        released = λ q e.
            started-update s.pc b (first r rs) (p.owner q)
              (λ x. absurd (not_started x (ap started at))) (v.released q e);
        places =
            places-step p g (record g { holder = update g.holder (p.target r) (some r) }) s.pc b
              (first r rs) (place.0, place.1, update_self g.holder (p.target r) (some r))
              (λ d ne. record {
                fresh = λ q m h. h;
                live = λ q m h. h;
                behind = λ q q' h. h;
                holds = λ q m e h. free_holder g.holder (p.target r) (p.target q) r q free h;
              })
              v.places;
      }

  -- A request is put behind the last one of its cown.
  pub Inv-swing :
      WellFormed p
      → (prev r : ℕ) (rs : List ℕ) → s.pc b ≡ linking (r ∷ rs)
      → s.chains.last (p.target r) ≡ some prev
      → Inv p
          (goes b
            (storing prev r rs)
            (record (s.chains) { last = update s.chains.last (p.target r) (some r) })
            s)
          (record g { before = update g.before r (some prev) })
  Inv-swing wf prev r rs at busy =
      let place : Place p g b (linking (r ∷ rs)) = subst (Place p g b) at (v.places b) in
      let mine : contains (p.requests b) r ≡ true = place.0.1.0 in
      let own : p.owner r ≡ b = wf.owned b r mine in
      let new : g.before r ≡ none = place.1.0.1 in
      let not_yet : g.granted r ≡ false = place.1.0.0 in
      let g' : Ghost = record g { before = update g.before r (some prev) } in
      record {
        counted =
            λ d. rw (final-update s.pc b (storing prev r rs) d (ap final (sym at))) (v.counted d);
        started_granted = v.started_granted;
        held = v.held;
        unheld = λ c e. ground (arith, v.unheld c);
        newest = λ c q e. ground (arith, v.newest c q);
        behind = λ q x e. ground (arith, v.behind q x, v.newest (p.target r) prev busy);
        listed = λ q x e. elim (ℕ_discrete r q) [
          | yes same ↦ subst (λ k. contains (p.requests (p.owner k)) k ≡ true) same (rw own mine)
          | no ne ↦ v.listed q x (sym (update_ne g.before r (some prev) q ne) ∙ e)
        ];
        after = λ q x e e'. ground (arith, v.after q x);
        told =
            λ x d e. let (q, w, o) = v.told x d e in (q, free_holder g.before r q prev x new w, o);
        released = λ q e.
            started-update s.pc b (storing prev r rs) (p.owner q)
              (λ x. absurd (not_started x (ap started at))) (v.released q e);
        places =
            places-step p g g' s.pc b (storing prev r rs)
              (
                place.0,
                All-imp (Fresh g) (Fresh g') rs
                    (λ q m h. (
                      h.0,
                      update_ne g.before r (some prev) q
                            (other_target p.target r q rs place.0.0.0 m)
                          ∙ h.1,
                    ))
                    place.1.1,
                update_self g.before r (some prev),
              )
              (λ d ne. record {
                fresh = λ q m h. (
                  h.0,
                  update_ne g.before r (some prev) q (others_differ p b d r q wf mine m ne) ∙ h.1,
                );
                live = λ q m h. h;
                behind = λ q x h. free_holder g.before r q prev x new h;
                holds = λ q m e h. h;
              })
              v.places;
      }

  -- The request before is told of the behaviour behind it.
  pub Inv-store :
      WellFormed p
      → (prev r : ℕ) (rs : List ℕ) → s.pc b ≡ storing prev r rs
      → Inv p
          (goes b
            (spinning prev r rs)
            (record (s.chains) { next = update s.chains.next prev (some b) })
            s)
          g
  Inv-store wf prev r rs at =
      let place : Place p g b (storing prev r rs) = subst (Place p g b) at (v.places b) in
      quiet (spinning prev r rs) (record (s.chains) { next = update s.chains.next prev (some b) })
        refl refl refl
        (λ x d e. elim (ℕ_discrete prev x) [
          | yes same ↦ (
            r,
            place.2 ∙ ap (λ k. some k) same,
            wf.owned b r place.0.1.0
                ∙ one_holder (update_self s.chains.next prev (some b))
                    (ap (update s.chains.next prev (some b)) same ∙ e),
          )
          | no ne ↦ v.told x d (sym (update_ne s.chains.next prev (some b) x ne) ∙ e)
        ])
        place (ap final (sym at)) (λ h. absurd (not_started h (ap started at)))
