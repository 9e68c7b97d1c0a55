-- ===== src/Request/Steps/Order/Ranking.antt =====
-- Every step of the two-phase locking keeps the ranks in order.
use bocpy.Base.{ℕ, ◌+◌, ◌≡◌, true, none, some, update, refl, sym, ap, ◌∙◌}
use mathlib.Core.Path.{subst}
use bocpy.Request.Steps.{
  Program, WellFormed, linking, first, spinning, last_hold, waiting, running, releasing, trying,
  awaiting, handing, System, resolved, Step, swing_idle, swing, resolve_first, store, spin, linked,
  finish, finished, resolve_last, run, return, load_none, load_next, reset, too_late, await, hand,
}
use bocpy.Request.Steps.Ghost.{Ghost, Inv, Place}
use bocpy.Request.Steps.Frame.{one_holder}
use bocpy.Request.Steps.Resolving.{none-ne-some, resolved-scheduled}
use bocpy.Request.Steps.Preserved.{advance}
use bocpy.Request.Steps.Order.{left, unfinished, ranked}
use bocpy.Request.Steps.Order.Ranks.{
  Ranked, Ranked-calm, left_same, Ranked-swing, Ranked-linked, Ranked-finish, waits_on,
}

abbrev pub Order : Program → System → Ghost → Type 0
Order p s g = (rank : ℕ → ℕ) × (clock : ℕ) × Ranked p s g rank clock

module _ (p : Program) (wf : WellFormed p) (s : System) (b : ℕ) where
  pub Step-Ranked :
      {t : System} (st : Step p b s t) (g : Ghost) (v : Inv p s g)
      → Order p s g
      → Order p t (advance p s b st g v)
  Step-Ranked (swing_idle r rs at idle) g v (rank, clock, k) = (
    rank,
    clock,
    Ranked-calm p wf s b g v rank clock k (first r rs)
        (record (s.chains) { last = update s.chains.last (p.target r) (some r) })
        (record g { holder = update g.holder (p.target r) (some r) }) refl refl (ap ranked (sym at))
        (λ all. ap (unfinished all) (sym at))
        (left_same p wf s b g v rank clock k (first r rs) (ap left (sym at))),
  )
  Step-Ranked (swing prev r rs at busy) g v (rank, clock, k) = (
    rank,
    clock,
    Ranked-swing p wf s b g v rank clock k prev r rs
        (record (s.chains) { last = update s.chains.last (p.target r) (some r) }) at refl,
  )
  Step-Ranked (resolve_first r rs at) g v (rank, clock, k) =
      let place : Place p g b (first r rs) = subst (Place p g b) at (v.places b) in
      (
        rank,
        clock,
        Ranked-calm p wf s b g v rank clock k (linking rs) (resolved p b s.chains)
            (record g { granted = update g.granted r true }) (resolved-scheduled p b s.chains) refl
            (ap ranked (sym at)) (λ all. ap (unfinished all) (sym at))
            (waits_on p wf s b g v rank clock k (linking rs) r rs (ap left at)
              (λ x e. absurd (none-ne-some (sym place.1.0.1 ∙ e)))),
      )
  Step-Ranked (store prev r rs at) g v (rank, clock, k) = (
    rank,
    clock,
    Ranked-calm p wf s b g v rank clock k (spinning prev r rs)
        (record (s.chains) { next = update s.chains.next prev (some b) }) g refl refl
        (ap ranked (sym at)) (λ all. ap (unfinished all) (sym at))
        (left_same p wf s b g v rank clock k (spinning prev r rs) (ap left (sym at))),
  )
  Step-Ranked (spin prev r rs at up) g v (rank, clock, k) =
      let place : Place p g b (spinning prev r rs) = subst (Place p g b) at (v.places b) in
      (
        rank,
        clock,
        Ranked-calm p wf s b g v rank clock k (linking rs) s.chains g refl refl (ap ranked (sym at))
            (λ all. ap (unfinished all) (sym at))
            (waits_on p wf s b g v rank clock k (linking rs) r rs (ap left at)
              (λ x e. subst (λ y. s.chains.scheduled y ≡ true) (one_holder place.2 e) up)),
      )
  Step-Ranked (linked at) g v (rank, clock, k) =
      (update rank b clock, clock + 1, Ranked-linked p wf s b g v rank clock k at)
  Step-Ranked (finish r rs at) g v (rank, clock, k) =
      (rank, clock, Ranked-finish p wf s b g v rank clock k r rs at)
  Step-Ranked (resolve_last at) g v (rank, clock, k) = (
    rank,
    clock,
    Ranked-calm p wf s b g v rank clock k (waiting) (resolved p b s.chains) g
        (resolved-scheduled p b s.chains) refl (ap ranked (sym at))
        (λ all. ap (unfinished all) (sym at))
        (left_same p wf s b g v rank clock k (waiting) (ap left (sym at))),
  )
  Step-Ranked (finished at) g v (rank, clock, k) = (
    rank,
    clock,
    Ranked-calm p wf s b g v rank clock k (last_hold) s.chains g refl refl (ap ranked (sym at))
        (λ all. ap (unfinished all) (sym at))
        (left_same p wf s b g v rank clock k (last_hold) (ap left (sym at))),
  )
  Step-Ranked (run at m) g v (rank, clock, k) = (
    rank,
    clock,
    Ranked-calm p wf s b g v rank clock k (running) s.chains g refl refl (ap ranked (sym at))
        (λ all. ap (unfinished all) (sym at))
        (left_same p wf s b g v rank clock k (running) (ap left (sym at))),
  )
  Step-Ranked (return at) g v (rank, clock, k) = (
    rank,
    clock,
    Ranked-calm p wf s b g v rank clock k (releasing (p.requests b)) s.chains g refl refl
        (ap ranked (sym at)) (λ all. ap (unfinished all) (sym at))
        (left_same p wf s b g v rank clock k (releasing (p.requests b)) (ap left (sym at))),
  )
  Step-Ranked (load_none r rs at e) g v (rank, clock, k) = (
    rank,
    clock,
    Ranked-calm p wf s b g v rank clock k (trying r rs) s.chains g refl refl (ap ranked (sym at))
        (λ all. ap (unfinished all) (sym at))
        (left_same p wf s b g v rank clock k (trying r rs) (ap left (sym at))),
  )
  Step-Ranked (load_next r next rs at e) g v (rank, clock, k) = (
    rank,
    clock,
    Ranked-calm p wf s b g v rank clock k (handing r next rs) s.chains g refl refl
        (ap ranked (sym at)) (λ all. ap (unfinished all) (sym at))
        (left_same p wf s b g v rank clock k (handing r next rs) (ap left (sym at))),
  )
  Step-Ranked (await r next rs at e) g v (rank, clock, k) = (
    rank,
    clock,
    Ranked-calm p wf s b g v rank clock k (handing r next rs) s.chains g refl refl
        (ap ranked (sym at)) (λ all. ap (unfinished all) (sym at))
        (left_same p wf s b g v rank clock k (handing r next rs) (ap left (sym at))),
  )
  Step-Ranked (too_late r rs at e) g v (rank, clock, k) = (
    rank,
    clock,
    Ranked-calm p wf s b g v rank clock k (awaiting r rs) s.chains g refl refl (ap ranked (sym at))
        (λ all. ap (unfinished all) (sym at))
        (left_same p wf s b g v rank clock k (awaiting r rs) (ap left (sym at))),
  )
  Step-Ranked (reset r rs at e) g v (rank, clock, k) = (
    rank,
    clock,
    Ranked-calm p wf s b g v rank clock k (releasing rs)
        (record (s.chains) { last = update s.chains.last (p.target r) none })
        (record g { holder = update g.holder (p.target r) none; gone = update g.gone r true }) refl
        refl (ap ranked (sym at)) (λ all. ap (unfinished all) (sym at))
        (left_same p wf s b g v rank clock k (releasing rs) (ap left (sym at))),
  )
  Step-Ranked (hand r next rs at) g v (rank, clock, k) = (
    rank,
    clock,
    Ranked-calm p wf s b g v rank clock k (releasing rs) (resolved p next s.chains)
        (advance p s b (hand r next rs at) g v) (resolved-scheduled p next s.chains) refl
        (ap ranked (sym at)) (λ all. ap (unfinished all) (sym at))
        (left_same p wf s b g v rank clock k (releasing rs) (ap left (sym at))),
  )
