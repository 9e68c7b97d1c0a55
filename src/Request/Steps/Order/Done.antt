-- ===== src/Request/Steps/Order/Done.antt =====
-- In the two-phase locking a behaviour with no hold left is dispatched, and one that is done has
-- released all its requests.
use bocpy.Base.{
  ℕ, ◌≡◌, inl, inr, Bool, true, none, some, List, ◌∷◌, update, update_self, update_ne, contains,
  arith, refl, sym, ap, ◌∙◌,
}
use mathlib.Core.Path.{subst}
use native.Mathlib.Decide.{ℕ_discrete}
use bocpy.Request.{Chains}
use bocpy.Request.Steps.{
  Program, WellFormed, Pc, linking, first, storing, spinning, finishing, last_hold, waiting,
  running, releasing, trying, awaiting, handing, System, goes, resolved, Step, swing_idle, swing,
  resolve_first, store, spin, linked, finish, finished, resolve_last, run, return, load_none,
  load_next, reset, too_late, await, hand,
}
use bocpy.Request.Steps.Ghost.{Ghost, Inv, Place, final}
use bocpy.Request.Steps.Resolving.{resolved-zero, some_hold}
use bocpy.Request.Steps.Releasing.{behind_ungranted}
use bocpy.Request.Steps.Preserved.{advance}
use bocpy.Request.Steps.Order.{kept, Lacks, dropped}

pub record Ended (p : Program) (s : System) (g : Ghost) : Type 0 where
  pub zero : (b : ℕ) → s.chains.count b ≡ 0 → contains s.chains.dispatched b ≡ true
  pub all_gone :
      (b q : ℕ)
      → contains (p.requests b) q ≡ true
      → Lacks (kept (p.requests b) (s.pc b)) q
      → g.gone q ≡ true

set_more : (f : ℕ → Bool) (r x : ℕ) → f x ≡ true → update f r true x ≡ true
set_more f r x e = ground arith

module _ (p : Program) (s : System) (b : ℕ) (g : Ghost) (k : Ended p s g) where
  -- A step that releases nothing.
  Ended-calm :
      (to : Pc) (c : Chains) (g' : Ghost)
      → ((d : ℕ) → c.count d ≡ 0 → contains c.dispatched d ≡ true)
      → g'.gone ≡ g.gone
      → kept (p.requests b) to ≡ kept (p.requests b) (s.pc b)
      → Ended p (goes b to c s) g'
  Ended-calm to c g' zero gone same = record {
    zero = zero;
    all_gone = λ d q m h.
        ap (λ f. f q) gone
        ∙ k.all_gone d q m (elim (ℕ_discrete b d) [
          | yes here ↦
              subst (λ x. Lacks (kept (p.requests x) (s.pc x)) q) here
                (ap (λ l. contains l q) (sym same)
                  ∙ ap (λ x. contains (kept (p.requests b) x) q) (sym (update_self s.pc b to))
                  ∙ subst (λ x. Lacks (kept (p.requests x) (update s.pc b to x)) q) (sym here) h)
          | no ne ↦
              ap (λ x. contains (kept (p.requests d) x) q) (sym (update_ne s.pc b to d ne)) ∙ h
        ]);
  }

  -- A step that releases `r`.
  Ended-release :
      (r : ℕ) (to : Pc) (c : Chains) (g' : Ghost)
      → ((d : ℕ) → c.count d ≡ 0 → contains c.dispatched d ≡ true)
      → g'.gone ≡ update g.gone r true
      → ((all : List ℕ) → kept all (s.pc b) ≡ r ∷ kept all to)
      → Ended p (goes b to c s) g'
  Ended-release r to c g' zero gone drop = record {
    zero = zero;
    all_gone = λ d q m h.
        ap (λ f. f q) gone
        ∙ elim (dropped (kept (p.requests d)) s.pc b to r (drop (p.requests d)) d q h) [
          | inl (_, same) ↦ ap (update g.gone r true) (sym same) ∙ update_self g.gone r true
          | inr old ↦ set_more g.gone r q (k.all_gone d q m old)
        ];
  }

module _ (p : Program) (wf : WellFormed p) (s : System) (b : ℕ) where
  pub Step-Ended :
      {t : System} (st : Step p b s t) (g : Ghost) (v : Inv p s g)
      → Ended p s g
      → Ended p t (advance p s b st g v)
  Step-Ended (swing_idle r rs at idle) g v k =
      Ended-calm p s b g k (first r rs)
        (record (s.chains) { last = update s.chains.last (p.target r) (some r) })
        (advance p s b (swing_idle r rs at idle) g v) k.zero refl
        (ap (kept (p.requests b)) (sym at))
  Step-Ended (swing prev r rs at busy) g v k =
      Ended-calm p s b g k (storing prev r rs)
        (record (s.chains) { last = update s.chains.last (p.target r) (some r) })
        (advance p s b (swing prev r rs at busy) g v) k.zero refl
        (ap (kept (p.requests b)) (sym at))
  Step-Ended (resolve_first r rs at) g v k =
      let place : Place p g b (first r rs) = subst (Place p g b) at (v.places b) in
      Ended-calm p s b g k (linking rs) (resolved p b s.chains)
        (advance p s b (resolve_first r rs at) g v)
        (resolved-zero p b s.chains k.zero (some_hold p wf s g v b b r place.0.1.0 place.1.0.0))
        refl (ap (kept (p.requests b)) (sym at))
  Step-Ended (store prev r rs at) g v k =
      Ended-calm p s b g k (spinning prev r rs)
        (record (s.chains) { next = update s.chains.next prev (some b) }) g k.zero refl
        (ap (kept (p.requests b)) (sym at))
  Step-Ended (resolve_last at) g v k =
      Ended-calm p s b g k (waiting) (resolved p b s.chains) g
        (resolved-zero p b s.chains k.zero (omega (arith, v.counted b, ap final at))) refl
        (ap (kept (p.requests b)) (sym at))
  Step-Ended (finish r rs at) g v k =
      Ended-calm p s b g k (finishing rs)
        (record (s.chains) { scheduled = update s.chains.scheduled r true }) g k.zero refl
        (ap (kept (p.requests b)) (sym at))
  Step-Ended (spin prev r rs at up) g v k =
      Ended-calm p s b g k (linking rs) s.chains g k.zero refl (ap (kept (p.requests b)) (sym at))
  Step-Ended (linked at) g v k =
      Ended-calm p s b g k (finishing (p.requests b)) s.chains g k.zero refl
        (ap (kept (p.requests b)) (sym at))
  Step-Ended (finished at) g v k =
      Ended-calm p s b g k (last_hold) s.chains g k.zero refl (ap (kept (p.requests b)) (sym at))
  Step-Ended (run at m) g v k =
      Ended-calm p s b g k (running) s.chains g k.zero refl (ap (kept (p.requests b)) (sym at))
  Step-Ended (return at) g v k =
      Ended-calm p s b g k (releasing (p.requests b)) s.chains g k.zero refl
        (ap (kept (p.requests b)) (sym at))
  Step-Ended (load_none r rs at e) g v k =
      Ended-calm p s b g k (trying r rs) s.chains g k.zero refl (ap (kept (p.requests b)) (sym at))
  Step-Ended (load_next r next rs at e) g v k =
      Ended-calm p s b g k (handing r next rs) s.chains g k.zero refl
        (ap (kept (p.requests b)) (sym at))
  Step-Ended (await r next rs at e) g v k =
      Ended-calm p s b g k (handing r next rs) s.chains g k.zero refl
        (ap (kept (p.requests b)) (sym at))
  Step-Ended (too_late r rs at e) g v k =
      Ended-calm p s b g k (awaiting r rs) s.chains g k.zero refl
        (ap (kept (p.requests b)) (sym at))
  Step-Ended (reset r rs at e) g v k =
      Ended-release p s b g k r (releasing rs)
        (record (s.chains) { last = update s.chains.last (p.target r) none })
        (advance p s b (reset r rs at e) g v) k.zero refl (λ all. ap (kept all) at)
  Step-Ended (hand r next rs at) g v k =
      let place : Place p g b (handing r next rs) = subst (Place p g b) at (v.places b) in
      let (q, stands, own) = place.2 in
      Ended-release p s b g k r (releasing rs) (resolved p next s.chains)
        (advance p s b (hand r next rs at) g v)
        (resolved-zero p next s.chains k.zero (
          some_hold p wf s g v b next q
            (subst (λ d. contains (p.requests d) q ≡ true) own (v.listed q r stands))
            (behind_ungranted p wf s g v b r q stands place.1.0.1)))
        refl (λ all. ap (kept all) at)
