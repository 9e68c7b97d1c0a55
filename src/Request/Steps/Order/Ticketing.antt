-- ===== src/Request/Steps/Order/Ticketing.antt =====
-- Every step of the two-phase locking keeps the tickets in order.
use bocpy.Base.{
  ℕ, ◌+◌, inl, inr, true, none, some, update, update_self, update_ne, refl, sym, ap, ◌∙◌,
}
use mathlib.Core.Path.{subst}
use native.Mathlib.Decide.{ℕ_discrete}
use bocpy.Request.Steps.{
  Program, WellFormed, linking, first, storing, spinning, finishing, last_hold, waiting, running,
  releasing, trying, awaiting, handing, System, resolved, Step, swing_idle, swing, resolve_first,
  store, spin, linked, finish, finished, resolve_last, run, return, load_none, load_next, reset,
  too_late, await, hand,
}
use bocpy.Request.Steps.Ghost.{Ghost, Inv}
use bocpy.Request.Steps.Frame.{one_holder}
use bocpy.Request.Steps.Preserved.{advance}
use bocpy.Request.Steps.Order.{left, unswung}
use bocpy.Request.Steps.Order.Linked.{Swung, Links}
use bocpy.Request.Steps.Order.Tickets.{Ticketed, Ticketed-calm, Ticketed-drop, Ticketed-swing}

abbrev pub Tickets : Program → System → Ghost → Type 0
Tickets p s g = (ticket : ℕ → ℕ) × (clock : ℕ) × Ticketed p s g ticket clock

module _ (p : Program) (wf : WellFormed p) (s : System) (b : ℕ) where
  pub Step-Ticketed :
      {t : System} (st : Step p b s t) (g : Ghost) (v : Inv p s g)
      → Links p s g
      → Tickets p s g
      → Tickets p t (advance p s b st g v)
  Step-Ticketed (swing_idle r rs at idle) g v links (ticket, clock, k) = (
    update ticket r clock,
    clock + 1,
    Ticketed-swing p wf s b g v links ticket clock k r rs (first r rs)
        (record (s.chains) { last = update s.chains.last (p.target r) (some r) })
        (advance p s b (swing_idle r rs at idle) g v) at refl refl (λ q x e. inr e),
  )
  Step-Ticketed (swing prev r rs at busy) g v links (ticket, clock, k) = (
    update ticket r clock,
    clock + 1,
    Ticketed-swing p wf s b g v links ticket clock k r rs (storing prev r rs)
        (record (s.chains) { last = update s.chains.last (p.target r) (some r) })
        (advance p s b (swing prev r rs at busy) g v) at refl refl
        (λ q x e. elim (ℕ_discrete r q) [
          | yes same ↦ inl (
            same,
            subst (Swung p s)
                (one_holder (update_self g.before r (some prev))
                  (ap (update g.before r (some prev)) same ∙ e))
                (links.newest_swung (p.target r) prev busy),
          )
          | no ne ↦ inr (sym (update_ne g.before r (some prev) q ne) ∙ e)
        ]),
  )
  Step-Ticketed (resolve_first r rs at) g v links (ticket, clock, k) = (
    ticket,
    clock,
    Ticketed-drop p s b g ticket clock k r (linking rs) (resolved p b s.chains)
        (advance p s b (resolve_first r rs at) g v) refl (ap left at) (ap unswung (sym at)),
  )
  Step-Ticketed (spin prev r rs at up) g v links (ticket, clock, k) = (
    ticket,
    clock,
    Ticketed-drop p s b g ticket clock k r (linking rs) s.chains g refl (ap left at)
        (ap unswung (sym at)),
  )
  Step-Ticketed (store prev r rs at) g v links (ticket, clock, k) = (
    ticket,
    clock,
    Ticketed-calm p s b g ticket clock k (spinning prev r rs)
        (record (s.chains) { next = update s.chains.next prev (some b) }) g refl (ap left (sym at))
        (ap unswung (sym at)),
  )
  Step-Ticketed (resolve_last at) g v links (ticket, clock, k) = (
    ticket,
    clock,
    Ticketed-calm p s b g ticket clock k (waiting) (resolved p b s.chains) g refl (ap left (sym at))
        (ap unswung (sym at)),
  )
  Step-Ticketed (finish r rs at) g v links (ticket, clock, k) = (
    ticket,
    clock,
    Ticketed-calm p s b g ticket clock k (finishing rs)
        (record (s.chains) { scheduled = update s.chains.scheduled r true }) g refl
        (ap left (sym at)) (ap unswung (sym at)),
  )
  Step-Ticketed (linked at) g v links (ticket, clock, k) = (
    ticket,
    clock,
    Ticketed-calm p s b g ticket clock k (finishing (p.requests b)) s.chains g refl
        (ap left (sym at)) (ap unswung (sym at)),
  )
  Step-Ticketed (finished at) g v links (ticket, clock, k) = (
    ticket,
    clock,
    Ticketed-calm p s b g ticket clock k (last_hold) s.chains g refl (ap left (sym at))
        (ap unswung (sym at)),
  )
  Step-Ticketed (run at m) g v links (ticket, clock, k) = (
    ticket,
    clock,
    Ticketed-calm p s b g ticket clock k (running) s.chains g refl (ap left (sym at))
        (ap unswung (sym at)),
  )
  Step-Ticketed (return at) g v links (ticket, clock, k) = (
    ticket,
    clock,
    Ticketed-calm p s b g ticket clock k (releasing (p.requests b)) s.chains g refl
        (ap left (sym at)) (ap unswung (sym at)),
  )
  Step-Ticketed (load_none r rs at e) g v links (ticket, clock, k) = (
    ticket,
    clock,
    Ticketed-calm p s b g ticket clock k (trying r rs) s.chains g refl (ap left (sym at))
        (ap unswung (sym at)),
  )
  Step-Ticketed (load_next r next rs at e) g v links (ticket, clock, k) = (
    ticket,
    clock,
    Ticketed-calm p s b g ticket clock k (handing r next rs) s.chains g refl (ap left (sym at))
        (ap unswung (sym at)),
  )
  Step-Ticketed (await r next rs at e) g v links (ticket, clock, k) = (
    ticket,
    clock,
    Ticketed-calm p s b g ticket clock k (handing r next rs) s.chains g refl (ap left (sym at))
        (ap unswung (sym at)),
  )
  Step-Ticketed (too_late r rs at e) g v links (ticket, clock, k) = (
    ticket,
    clock,
    Ticketed-calm p s b g ticket clock k (awaiting r rs) s.chains g refl (ap left (sym at))
        (ap unswung (sym at)),
  )
  Step-Ticketed (reset r rs at e) g v links (ticket, clock, k) = (
    ticket,
    clock,
    Ticketed-calm p s b g ticket clock k (releasing rs)
        (record (s.chains) { last = update s.chains.last (p.target r) none })
        (advance p s b (reset r rs at e) g v) refl (ap left (sym at)) (ap unswung (sym at)),
  )
  Step-Ticketed (hand r next rs at) g v links (ticket, clock, k) = (
    ticket,
    clock,
    Ticketed-calm p s b g ticket clock k (releasing rs) (resolved p next s.chains)
        (advance p s b (hand r next rs at) g v) refl (ap left (sym at)) (ap unswung (sym at)),
  )
