-- ===== src/Request/Steps/Preserved.antt =====
-- Every step of the two-phase locking keeps its invariant.
use bocpy.Base.{
  update, some, ℕ, ◌≡◌, true, none, ◌∷◌, contains, All, arith, refl, sym, ap, Bool-cases, inl, inr,
}
use mathlib.Core.Path.{subst}
use bocpy.Request.Steps.{
  Program, WellFormed, linking, spinning, finishing, last_hold, waiting, running, releasing, trying,
  awaiting, handing, System, Step, swing_idle, swing, resolve_first, store, spin, linked, finish,
  finished, resolve_last, run, return, load_none, load_next, reset, too_late, await, hand,
}
use bocpy.Request.Steps.Ghost.{
  Ghost, Live, Place, Inv, started, final, pending-zero, All-imp, All-contains,
}
use bocpy.Request.Steps.Frame.{not_started}
use bocpy.Request.Steps.Linking.{quiet, Inv-swing_idle, Inv-swing, Inv-store}
use bocpy.Request.Steps.Resolving.{Inv-resolve_first, Inv-resolve_last}
use bocpy.Request.Steps.Releasing.{Inv-reset, Inv-hand}

-- A behaviour that is dispatched and not started has every hold, and none of its requests is released.
dispatched-Live :
    (p : Program) (wf : WellFormed p) (s : System) (g : Ghost) (b : ℕ)
    → Inv p s g
    → s.pc b ≡ waiting
    → contains s.chains.dispatched b ≡ true
    → All (Live g) (p.requests b)
dispatched-Live p wf s g b v at m =
    All-imp (λ r. contains (p.requests b) r ≡ true) (Live g) (p.requests b)
      (λ r n k. (
        pending-zero g.granted (p.requests b) r (omega (arith, v.counted b, v.started_granted b m))
            n,
        elim (Bool-cases (g.gone r)) [
          | inl e ↦ absurd (not_started (v.released r e) (rw (wf.owned b r n) (ap started at)))
          | inr e ↦ e
        ],
      ))
      (All-contains (p.requests b))

module _ (p : Program) (s : System) (b : ℕ) where
  -- What the requests are told of each other after a step.
  abbrev pub advance : {t : System} → Step p b s t → (g : Ghost) → Inv p s g → Ghost
  advance (swing_idle r rs at idle) g v = record g {
    holder = update g.holder (p.target r) (some r);
  }
  advance (swing prev r rs at busy) g v = record g { before = update g.before r (some prev) }
  advance (resolve_first r rs at) g v = record g { granted = update g.granted r true }
  advance (reset r rs at e) g v = record g {
    holder = update g.holder (p.target r) none;
    gone = update g.gone r true;
  }
  advance (hand r next rs at) g v =
      let h : Place p g b (handing r next rs) = subst (Place p g b) at (v.places b) in
      record g {
        holder = update g.holder (p.target r) (some h.2.0);
        granted = update g.granted h.2.0 true;
        gone = update g.gone r true;
      }
  advance (store prev r rs at) g v = g
  advance (spin prev r rs at up) g v = g
  advance (linked at) g v = g
  advance (finish r rs at) g v = g
  advance (finished at) g v = g
  advance (resolve_last at) g v = g
  advance (run at m) g v = g
  advance (return at) g v = g
  advance (load_none r rs at e) g v = g
  advance (load_next r next rs at e) g v = g
  advance (too_late r rs at e) g v = g
  advance (await r next rs at e) g v = g

module _ (p : Program) (wf : WellFormed p) (s : System) (b : ℕ) where
  pub Step-Inv :
      {t : System} (st : Step p b s t) (g : Ghost) (v : Inv p s g) → Inv p t (advance p s b st g v)
  Step-Inv (swing_idle r rs at idle) g v = Inv-swing_idle p s g v b r rs at idle
  Step-Inv (swing prev r rs at busy) g v = Inv-swing p s g v b wf prev r rs at busy
  Step-Inv (resolve_first r rs at) g v = Inv-resolve_first p wf s g v b r rs at
  Step-Inv (store prev r rs at) g v = Inv-store p s g v b wf prev r rs at
  Step-Inv (spin prev r rs at up) g v =
      quiet p s g v b (linking rs) s.chains refl refl refl v.told
        (let h : Place p g b (spinning prev r rs) = subst (Place p g b) at (v.places b) in
          ((h.0.0.1, h.0.1.1), h.1))
        (ap final (sym at)) (λ h. absurd (not_started h (ap started at)))
  Step-Inv (linked at) g v =
      quiet p s g v b (finishing (p.requests b)) s.chains refl refl refl v.told
        (All-contains (p.requests b)) (ap final (sym at))
        (λ h. absurd (not_started h (ap started at)))
  Step-Inv (finish r rs at) g v =
      quiet p s g v b (finishing rs) _ refl refl refl v.told
        (let h : Place p g b (finishing (r ∷ rs)) = subst (Place p g b) at (v.places b) in h.1)
        (ap final (sym at)) (λ h. absurd (not_started h (ap started at)))
  Step-Inv (finished at) g v =
      quiet p s g v b last_hold s.chains refl refl refl v.told tt (ap final (sym at))
        (λ h. absurd (not_started h (ap started at)))
  Step-Inv (resolve_last at) g v = Inv-resolve_last p wf s g v b at
  Step-Inv (run at m) g v =
      quiet p s g v b running s.chains refl refl refl v.told (dispatched-Live p wf s g b v at m)
        (ap final (sym at)) (λ h. refl)
  Step-Inv (return at) g v =
      quiet p s g v b (releasing (p.requests b)) s.chains refl refl refl v.told
        ((wf.distinct b, All-contains (p.requests b)), subst (Place p g b) at (v.places b))
        (ap final (sym at)) (λ h. refl)
  Step-Inv (load_none r rs at e) g v =
      quiet p s g v b (trying r rs) s.chains refl refl refl v.told
        (subst (Place p g b) at (v.places b)) (ap final (sym at)) (λ h. refl)
  Step-Inv (load_next r next rs at e) g v =
      quiet p s g v b (handing r next rs) s.chains refl refl refl v.told
        (let h : Place p g b (releasing (r ∷ rs)) = subst (Place p g b) at (v.places b) in
          (h.0, h.1, v.told r next e))
        (ap final (sym at)) (λ h. refl)
  Step-Inv (reset r rs at e) g v = Inv-reset p wf s g v b r rs at e
  Step-Inv (too_late r rs at e) g v =
      quiet p s g v b (awaiting r rs) s.chains refl refl refl v.told
        (subst (Place p g b) at (v.places b)) (ap final (sym at)) (λ h. refl)
  Step-Inv (await r next rs at e) g v =
      quiet p s g v b (handing r next rs) s.chains refl refl refl v.told
        (let h : Place p g b (awaiting r rs) = subst (Place p g b) at (v.places b) in
          (h.0, h.1, v.told r next e))
        (ap final (sym at)) (λ h. refl)
  Step-Inv (hand r next rs at) g v =
      let h : Place p g b (handing r next rs) = subst (Place p g b) at (v.places b) in
      Inv-hand p wf s g v b r next rs h.2.0 at h.2.1 h.2.2
