-- ===== src/Request/Steps/Releasing.antt =====
-- The steps of the two-phase locking that release requests.
use bocpy.Base.{
  ℕ, ◌≡◌, ◌≢◌, Bool, true, false, Option, none, some, List, ◌∷◌, update, update_self, update_ne,
  contains, All, arith, refl, sym, ap, ◌∙◌, Bool-cases, inl, inr,
}
use mathlib.Core.Path.{subst}
use native.Mathlib.Decide.{ℕ_discrete}
use bocpy.Request.Steps.{
  Program, WellFormed, Pc, releasing, trying, handing, System, goes, resolved,
}
use bocpy.Request.Steps.Ghost.{Ghost, Live, Mine, Place, Inv, final, started, other_target, All-imp}
use bocpy.Request.Steps.Frame.{
  places-step, started-update, final-update, not_started, others_differ, one_holder,
}
use bocpy.Request.Steps.Resolving.{
  resolved-last, resolved-next, resolved-dispatched, granted_counts, some_hold, none-ne-some,
}

module _ (p : Program) (wf : WellFormed p) (s : System) (g : Ghost) (v : Inv p s g) (b : ℕ) where
  -- Another request that has its cown keeps it when the cown of `r` changes hands.
  holder_kept :
      (r q : ℕ) (to : Option ℕ)
      → g.holder (p.target r) ≡ some r
      → g.holder (p.target q) ≡ some q
      → r ≢ q
      → update g.holder (p.target r) to (p.target q) ≡ some q
  holder_kept r q to mine yours ne =
      update_ne g.holder (p.target r) to (p.target q)
        (λ same. ne (one_holder mine (ap g.holder same ∙ yours)))
      ∙ yours

  others_hold :
      (r q : ℕ) (to : Option ℕ)
      → g.holder (p.target r) ≡ some r
      → g.granted q ≡ true
      → update g.gone r true q ≡ false
      → update g.holder (p.target r) to (p.target q) ≡ some q
  others_hold r q to mine e e' = elim (ℕ_discrete r q) [
    | yes same ↦ absurd (ground arith)
    | no ne ↦ holder_kept r q to mine (v.held q e (sym (update_ne g.gone r true q ne) ∙ e')) ne
  ]

  more_gone : (r q : ℕ) → g.gone q ≡ true → update g.gone r true q ≡ true
  more_gone r q e = ground arith

  gone-update :
      (r q : ℕ) (to : Pc)
      → p.owner r ≡ b
      → started (s.pc b) ≡ true
      → started to ≡ true
      → update g.gone r true q ≡ true
      → started (update s.pc b to (p.owner q)) ≡ true
  gone-update r q to own now on e = elim (ℕ_discrete r q) [
    | yes same ↦
        started-update s.pc b to (p.owner q) (λ h. on)
          (subst (λ k. started (s.pc (p.owner k)) ≡ true) same (rw own now))
    | no ne ↦
        started-update s.pc b to (p.owner q) (λ h. on)
          (v.released q (sym (update_ne g.gone r true q ne) ∙ e))
  ]

  still_live :
      (granted : ℕ → Bool) (r : ℕ) (rs : List ℕ)
      → Mine p b (r ∷ rs)
      → All (λ q. (granted q ≡ true) × (g.gone q ≡ false)) rs
      → All (λ q. (granted q ≡ true) × (update g.gone r true q ≡ false)) rs
  still_live granted r rs mine =
      All-imp (λ q. (granted q ≡ true) × (g.gone q ≡ false))
        (λ q. (granted q ≡ true) × (update g.gone r true q ≡ false)) rs
        (λ q m h. (h.0, update_ne g.gone r true q (other_target p.target r q rs mine.0.0 m) ∙ h.1))

  -- The last request of a chain leaves its cown idle.
  pub Inv-reset :
      (r : ℕ) (rs : List ℕ)
      → s.pc b ≡ trying r rs
      → s.chains.last (p.target r) ≡ some r
      → Inv p
          (goes b
            (releasing rs)
            (record (s.chains) { last = update s.chains.last (p.target r) none })
            s)
          (record g { holder = update g.holder (p.target r) none; gone = update g.gone r true })
  Inv-reset r rs at alone =
      let place : Place p g b (trying r rs) = subst (Place p g b) at (v.places b) in
      let mine : contains (p.requests b) r ≡ true = place.0.1.0 in
      let has : g.holder (p.target r) ≡ some r = v.held r place.1.0.0 place.1.0.1 in
      let g' : Ghost = record g {
        holder = update g.holder (p.target r) none;
        gone = update g.gone r true;
      } in
      record {
        counted = λ d. rw (final-update s.pc b (releasing rs) d (ap final (sym at))) (v.counted d);
        started_granted = v.started_granted;
        held = λ q e e'. others_hold r q none has e e';
        unheld = λ c e. ground (arith, v.unheld c);
        newest = λ c q e. ground (arith, v.newest c q);
        behind = v.behind;
        listed = v.listed;
        after = λ q x e e'. ground (arith, v.after q x);
        told = v.told;
        released = λ q e. gone-update r q (releasing rs) (wf.owned b r mine) (ap started at) refl e;
        places =
            places-step p g g' s.pc b (releasing rs)
              ((place.0.0.1, place.0.1.1), still_live g.granted r rs place.0 place.1.1)
              (λ d ne. record {
                fresh = λ q m h. h;
                live = λ q m h.
                    (h.0, update_ne g.gone r true q (others_differ p b d r q wf mine m ne) ∙ h.1);
                behind = λ q x h. h;
                holds =
                    λ q m e h. holder_kept r q none has h (others_differ p b d r q wf mine m ne);
              })
              v.places;
      }

  -- Behind a request that is not released nothing is granted.
  pub behind_ungranted : (r q : ℕ) → g.before q ≡ some r → g.gone r ≡ false → g.granted q ≡ false
  behind_ungranted r q stands here = elim (Bool-cases (g.granted q)) [
    | inl e ↦ absurd (not_started (v.after q r stands e) here)
    | inr e ↦ e
  ]

  -- A released cown goes to the request behind, whose behaviour gets one hold less.
  pub Inv-hand :
      (r next : ℕ) (rs : List ℕ) (q : ℕ)
      → s.pc b ≡ handing r next rs
      → g.before q ≡ some r
      → p.owner q ≡ next
      → Inv p (goes b (releasing rs) (resolved p next s.chains) s) (record g {
        holder = update g.holder (p.target r) (some q);
        granted = update g.granted q true;
        gone = update g.gone r true;
      })
  Inv-hand r next rs q at stands own =
      let place : Place p g b (handing r next rs) = subst (Place p g b) at (v.places b) in
      let mine : contains (p.requests b) r ≡ true = place.0.1.0 in
      let has : g.holder (p.target r) ≡ some r = v.held r place.1.0.0 place.1.0.1 in
      let theirs : contains (p.requests next) q ≡ true =
        subst (λ d. contains (p.requests d) q ≡ true) own (v.listed q r stands) in
      let new : g.granted q ≡ false = behind_ungranted r q stands place.1.0.1 in
      let more : (x : ℕ) → g.granted x ≡ true → update g.granted q true x ≡ true =
        λ x e. ground arith in
      let g' : Ghost = record g {
        holder = update g.holder (p.target r) (some q);
        granted = update g.granted q true;
        gone = update g.gone r true;
      } in
      record {
        counted =
            granted_counts p s.chains g.granted q next (λ d. final (update s.pc b (releasing rs) d))
              wf theirs new
              (λ d. rw (final-update s.pc b (releasing rs) d (ap final (sym at))) (v.counted d));
        started_granted =
            resolved-dispatched p next s.chains v.started_granted
              (some_hold p wf s g v b next q theirs new);
        held = λ x e e'. elim (ℕ_discrete q x) [
          | yes same ↦
              subst (λ k. update g.holder (p.target r) (some q) (p.target k) ≡ some k) same
                (ap (update g.holder (p.target r) (some q)) (v.behind q r stands)
                  ∙ update_self g.holder (p.target r) (some q))
          | no ne ↦ others_hold r x (some q) has (sym (update_ne g.granted q true x ne) ∙ e) e'
        ];
        unheld = λ c e.
            let idle : g.holder c ≡ none =
              v.unheld c (rw (sym (resolved-last p next s.chains)) e) in
            update_ne g.holder (p.target r) (some q) c
              (λ same. none-ne-some (sym idle ∙ ap g.holder (sym same) ∙ has))
            ∙ idle;
        newest = λ c x e. v.newest c x (rw (sym (resolved-last p next s.chains)) e);
        behind = v.behind;
        listed = v.listed;
        after = λ x y e e'. elim (ℕ_discrete q x) [
          | yes same ↦
              subst (λ k. update g.gone r true k ≡ true) (one_holder stands (ap g.before same ∙ e))
                (update_self g.gone r true)
          | no ne ↦ more_gone r y (v.after x y e (sym (update_ne g.granted q true x ne) ∙ e'))
        ];
        told = λ x d e. v.told x d (rw (sym (resolved-next p next s.chains)) e);
        released = λ x e. gone-update r x (releasing rs) (wf.owned b r mine) (ap started at) refl e;
        places =
            places-step p g g' s.pc b (releasing rs)
              (
                (place.0.0.1, place.0.1.1),
                still_live (update g.granted q true) r rs place.0 (
                    All-imp (Live g) (λ x. (update g.granted q true x ≡ true) × (g.gone x ≡ false))
                      rs (λ x m h. (more x h.0, h.1)) place.1.1),
              )
              (λ d ne. record {
                fresh = λ x m h. (
                  update_ne g.granted q true x
                        (λ same. none-ne-some (sym h.1 ∙ ap g.before (sym same) ∙ stands))
                      ∙ h.0,
                  h.1,
                );
                live = λ x m h. (
                  more x h.0,
                  update_ne g.gone r true x (others_differ p b d r x wf mine m ne) ∙ h.1,
                );
                behind = λ x y h. h;
                holds = λ x m e h.
                    holder_kept r x (some q) has h (others_differ p b d r x wf mine m ne);
              })
              v.places;
      }
