-- ===== src/Request/Steps/Order/Chained.antt =====
-- Every step of the two-phase locking keeps its chains without gap and fork.
use bocpy.Base.{
  ℕ, ◌≡◌, ◌≢◌, inl, inr, true, false, none, some, List, update, update_self, update_ne, contains,
  arith, refl, sym, ap, ◌∙◌,
}
use mathlib.Core.Path.{subst}
use native.Mathlib.Decide.{ℕ_discrete}
use bocpy.Request.{Chains}
use bocpy.Request.Steps.{
  Program, WellFormed, Pc, linking, first, storing, spinning, finishing, last_hold, waiting,
  running, releasing, trying, awaiting, handing, System, goes, resolved, Step, swing_idle, swing,
  resolve_first, store, spin, linked, finish, finished, resolve_last, run, return, load_none,
  load_next, reset, too_late, await, hand,
}
use bocpy.Request.Steps.Ghost.{Ghost, Inv, Place}
use bocpy.Request.Steps.Frame.{not_started}
use bocpy.Request.Steps.Resolving.{none-ne-some, resolved-last, resolved-next}
use bocpy.Request.Steps.Preserved.{advance}
use bocpy.Request.Steps.Order.{left, unswung, dropped}
use bocpy.Request.Steps.Order.Linked.{
  Followed, Links, is_storing, is_awaiting, stores_on, Links-calm,
}
use bocpy.Request.Steps.Order.Swinging.{Links-swing_idle, Links-swing}
use bocpy.Request.Steps.Order.Passing.{Links-reset, Links-hand, left_same}

abbrev stored : Pc → ℕ
stored (storing prev r rs) = prev
stored _ = 0

abbrev at_hand : Pc → ℕ
at_hand (awaiting r rs) = r
at_hand _ = 0

module _ (p : Program) (wf : WellFormed p) (s : System) (b : ℕ) where
  module _ (g : Ghost) (v : Inv p s g) (k : Links p s g) where
    -- A step that only moves on.
    Links-quiet :
        (to : Pc) (c : Chains)
        → c.last ≡ s.chains.last
        → c.next ≡ s.chains.next
        → unswung to ≡ unswung (s.pc b)
        → left to ≡ left (s.pc b)
        → is_storing (s.pc b) ≡ false
        → ((r : ℕ) (rs : List ℕ) → to ≡ awaiting r rs → Followed g r)
        → Links p (goes b to c s) g
    Links-quiet to c lasts nexts u l no_store awaits =
        Links-calm p s g k b to c g.granted lasts u (λ q h. h)
          (λ d q m h e. k.first_granted d q m (left_same p wf s g v k b to l d q h) e)
          (λ q r e e'.
            stores_on p s g k b to q r no_store (k.stores q r e (ap (λ f. f r) (sym nexts) ∙ e')))
          awaits

    Links-resolve_first :
        (r : ℕ) (rs : List ℕ)
        → s.pc b ≡ first r rs
        → Links p
            (goes b (linking rs) (resolved p b s.chains) s)
            (record g { granted = update g.granted r true })
    Links-resolve_first r rs at =
        Links-calm p s g k b (linking rs) (resolved p b s.chains) (update g.granted r true)
          (resolved-last p b s.chains) (ap unswung (sym at)) (λ q e. ground arith)
          (λ d q m h e. elim (dropped left s.pc b (linking rs) r (ap left at) d q h) [
            | inl (_, same) ↦ ap (update g.granted r true) (sym same) ∙ update_self g.granted r true
            | inr old ↦ more r q (k.first_granted d q m old e)
          ])
          (λ q x e e'.
            stores_on p s g k b (linking rs) q x (ap is_storing at)
              (k.stores q x e (ap (λ f. f x) (sym (resolved-next p b s.chains)) ∙ e')))
          (λ x xs h. absurd (not_started refl (sym (ap is_awaiting h))))
      where
        more : (r q : ℕ) → g.granted q ≡ true → update g.granted r true q ≡ true
        more r q e = ground arith

    Links-store :
        (prev r : ℕ) (rs : List ℕ)
        → s.pc b ≡ storing prev r rs
        → Links p
            (goes b
              (spinning prev r rs)
              (record (s.chains) { next = update s.chains.next prev (some b) })
              s)
            g
    Links-store prev r rs at =
        Links-calm p s g k b (spinning prev r rs)
          (record (s.chains) { next = update s.chains.next prev (some b) }) g.granted refl
          (ap unswung (sym at)) (λ q e. e)
          (λ d q m h e.
            k.first_granted d q m
              (left_same p wf s g v k b (spinning prev r rs) (ap left (sym at)) d q h) e)
          (λ q x e e'. elim (ℕ_discrete prev x) [
            | yes same ↦ absurd (
                none-ne-some (
                  sym e'
                  ∙ ap (update s.chains.next prev (some b)) (sym same)
                  ∙ update_self s.chains.next prev (some b)))
            | no ne ↦
                let (xs, h) =
                  k.stores q x e (sym (update_ne s.chains.next prev (some b) x ne) ∙ e') in
                (
                  xs,
                  update_ne s.pc b (spinning prev r rs) (p.owner q)
                        (λ same. ne (ap stored (sym at ∙ ap s.pc same ∙ h)))
                      ∙ h,
                )
          ])
          (λ x xs h. absurd (not_started refl (sym (ap is_awaiting h))))

    Links-spin :
        (prev r : ℕ) (rs : List ℕ)
        → s.pc b ≡ spinning prev r rs
        → Links p (goes b (linking rs) s.chains s) g
    Links-spin prev r rs at =
        let place : Place p g b (spinning prev r rs) = subst (Place p g b) at (v.places b) in
        Links-calm p s g k b (linking rs) s.chains g.granted refl (ap unswung (sym at)) (λ q e. e)
          (λ d q m h e. elim (dropped left s.pc b (linking rs) r (ap left at) d q h) [
            | inl (_, same) ↦ absurd (none-ne-some (sym e ∙ ap g.before (sym same) ∙ place.2))
            | inr old ↦ k.first_granted d q m old e
          ])
          (λ q x e e'. stores_on p s g k b (linking rs) q x (ap is_storing at) (k.stores q x e e'))
          (λ x xs h. absurd (not_started refl (sym (ap is_awaiting h))))

    -- Who finds that the end of the chain has moved has another request behind.
    moved :
        (r : ℕ) (rs : List ℕ)
        → s.pc b ≡ trying r rs
        → s.chains.last (p.target r) ≢ some r
        → Followed g r
    moved r rs at ne =
        let place : Place p g b (trying r rs) = subst (Place p g b) at (v.places b) in
        let own : p.owner r ≡ b = wf.owned b r place.0.1.0 in
        elim (k.followed r
          (
            subst (λ d. contains (p.requests d) r ≡ true) (sym own) place.0.1.0,
            ap (λ x. contains (unswung x) r) (ap s.pc own ∙ at),
          )
          place.1.0.1) [ inl e ↦ absurd (ne e) | inr f ↦ f ]

  pub Step-Links :
      {t : System} (st : Step p b s t) (g : Ghost) (v : Inv p s g)
      → Links p s g
      → Links p t (advance p s b st g v)
  Step-Links (swing_idle r rs at idle) g v k =
      Links-swing_idle p wf s g v k b r rs at (update g.holder (p.target r) (some r)) idle
  Step-Links (swing prev r rs at busy) g v k = Links-swing p wf s g v k b r rs at prev busy
  Step-Links (resolve_first r rs at) g v k = Links-resolve_first g v k r rs at
  Step-Links (reset r rs at e) g v k =
      Links-reset p wf s g v k b r rs (update g.holder (p.target r) none) at e
  Step-Links (hand r next rs at) g v k =
      let h : Place p g b (handing r next rs) = subst (Place p g b) at (v.places b) in
      Links-hand p wf s g v k b r next rs h.2.0 (update g.holder (p.target r) (some h.2.0)) at h.2.1
  Step-Links (store prev r rs at) g v k = Links-store g v k prev r rs at
  Step-Links (spin prev r rs at up) g v k = Links-spin g v k prev r rs at
  Step-Links (linked at) g v k =
      Links-quiet g v k (finishing (p.requests b)) s.chains refl refl (ap unswung (sym at))
        (ap left (sym at)) (ap is_storing at)
        (λ x xs h. absurd (not_started refl (sym (ap is_awaiting h))))
  Step-Links (finished at) g v k =
      Links-quiet g v k (last_hold) s.chains refl refl (ap unswung (sym at)) (ap left (sym at))
        (ap is_storing at) (λ x xs h. absurd (not_started refl (sym (ap is_awaiting h))))
  Step-Links (run at m) g v k =
      Links-quiet g v k (running) s.chains refl refl (ap unswung (sym at)) (ap left (sym at))
        (ap is_storing at) (λ x xs h. absurd (not_started refl (sym (ap is_awaiting h))))
  Step-Links (return at) g v k =
      Links-quiet g v k (releasing (p.requests b)) s.chains refl refl (ap unswung (sym at))
        (ap left (sym at)) (ap is_storing at)
        (λ x xs h. absurd (not_started refl (sym (ap is_awaiting h))))
  Step-Links (load_none r rs at e) g v k =
      Links-quiet g v k (trying r rs) s.chains refl refl (ap unswung (sym at)) (ap left (sym at))
        (ap is_storing at) (λ x xs h. absurd (not_started refl (sym (ap is_awaiting h))))
  Step-Links (load_next r next rs at e) g v k =
      Links-quiet g v k (handing r next rs) s.chains refl refl (ap unswung (sym at))
        (ap left (sym at)) (ap is_storing at)
        (λ x xs h. absurd (not_started refl (sym (ap is_awaiting h))))
  Step-Links (await r next rs at e) g v k =
      Links-quiet g v k (handing r next rs) s.chains refl refl (ap unswung (sym at))
        (ap left (sym at)) (ap is_storing at)
        (λ x xs h. absurd (not_started refl (sym (ap is_awaiting h))))
  Step-Links (finish r rs at) g v k =
      Links-quiet g v k (finishing rs)
        (record (s.chains) { scheduled = update s.chains.scheduled r true }) refl refl
        (ap unswung (sym at)) (ap left (sym at)) (ap is_storing at)
        (λ x xs h. absurd (not_started refl (sym (ap is_awaiting h))))
  Step-Links (resolve_last at) g v k =
      Links-quiet g v k (waiting) (resolved p b s.chains) (resolved-last p b s.chains)
        (resolved-next p b s.chains) (ap unswung (sym at)) (ap left (sym at)) (ap is_storing at)
        (λ x xs h. absurd (not_started refl (sym (ap is_awaiting h))))
  Step-Links (too_late r rs at e) g v k =
      Links-quiet g v k (awaiting r rs) s.chains refl refl (ap unswung (sym at)) (ap left (sym at))
        (ap is_storing at) (λ x xs h. subst (Followed g) (ap at_hand h) (moved g v k r rs at e))
