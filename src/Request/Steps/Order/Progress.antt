-- ===== src/Request/Steps/Order/Progress.antt =====
-- The two-phase locking has no deadlock.
use bocpy.Base.{
  ℕ, ◌≡◌, ◌≢◌, ◌⊎◌, inl, inr, Bool, true, false, none, some, List, [], ◌∷◌, contains, arith, refl,
  sym, ap, ◌∙◌, Bool-cases, Option-cases,
}
use native.Mathlib.Decide.{ℕ_discrete}
use bocpy.Request.Steps.{
  Program, WellFormed, Pc, linking, first, storing, spinning, finishing, last_hold, waiting,
  running, releasing, trying, awaiting, handing, System, Step, swing_idle, swing, resolve_first,
  store, spin, linked, finish, finished, resolve_last, run, return, load_none, load_next, reset,
  too_late, await, hand,
}
use bocpy.Request.Steps.Ghost.{Ghost, Inv, pending}
use bocpy.Request.Steps.Frame.{not_started, one_holder}
use bocpy.Request.Steps.Resolving.{none-ne-some}
use bocpy.Request.Steps.Order.{Lacks}
use bocpy.Request.Steps.Order.Linked.{Links, Followed}

-- A behaviour whose thread has taken a step, and which is not done.
pub record Active (p : Program) (s : System) (b : ℕ) : Type 0 where
  pub begun : s.pc b ≢ linking (p.requests b)
  pub not_done : s.pc b ≢ releasing []

-- Some active behaviour can take a step.
abbrev pub Moves : Program → System → Type 0
Moves p s = (a : ℕ) × (t : System) × Active p s a × Step p a s t

abbrev pub under_way : Pc → Bool
under_way (linking rs) = false
under_way (releasing rs) = false
under_way _ = true

pub under_way-Active : (p : Program) (s : System) (b : ℕ) → under_way (s.pc b) ≡ true → Active p s b
under_way-Active p s b h = record {
  begun = λ e. not_started h (ap under_way e);
  not_done = λ e. not_started h (ap under_way e);
}

pub contains-skip : (r q : ℕ) (rs : List ℕ) → r ≢ q → Lacks rs q → Lacks (r ∷ rs) q
contains-skip r q rs ne h = ground arith

-- The two waits of a behaviour that another one has to end.
abbrev pub Blocked : System → ℕ → Pc → Type 0
Blocked s b (spinning prev r rs) = s.chains.scheduled prev ≡ false
Blocked s b waiting = contains s.chains.dispatched b ≡ false
Blocked s b _ = ⊥

pub ungranted :
    (granted : ℕ → Bool) (rs : List ℕ)
    → pending granted rs ≢ 0
    → (q : ℕ) × (contains rs q ≡ true) × (granted q ≡ false)
ungranted granted [] h = absurd (h refl)
ungranted granted (r ∷ rs) h = elim (Bool-cases (granted r)) [
  | inr e ↦ (r, ground arith, e)
  | inl e ↦ let (q, m, e') = ungranted granted rs (λ z. h (ground arith)) in (q, ground arith, e')
]

module _ (p : Program) (wf : WellFormed p) (s : System) (g : Ghost) (v : Inv p s g)
    (links : Links p s g) where
  -- Who has not been told of the request behind it will be.
  teller : (r : ℕ) → Followed g r → s.chains.next r ≡ none → Moves p s
  teller r (q, h) e =
      let (rs, at) = links.stores q r h e in
      (p.owner q, _, under_way-Active p s (p.owner q) (ap under_way at), store r q rs at)

  -- An active behaviour can take a step, or another one can, or it waits.
  pub can_step : (b : ℕ) (x : Pc) → s.pc b ≡ x → Active p s b → Moves p s ⊎ Blocked s b x
  can_step b (linking []) at active = inl (b, _, active, linked at)
  can_step b (linking (r ∷ rs)) at active = elim (Option-cases (s.chains.last (p.target r))) [
    | inl idle ↦ inl (b, _, active, swing_idle r rs at idle)
    | inr (prev, busy) ↦ inl (b, _, active, swing prev r rs at busy)
  ]
  can_step b (first r rs) at active = inl (b, _, active, resolve_first r rs at)
  can_step b (storing prev r rs) at active = inl (b, _, active, store prev r rs at)
  can_step b (spinning prev r rs) at active = elim (Bool-cases (s.chains.scheduled prev)) [
    | inl up ↦ inl (b, _, active, spin prev r rs at up)
    | inr down ↦ inr down
  ]
  can_step b (finishing []) at active = inl (b, _, active, finished at)
  can_step b (finishing (r ∷ rs)) at active = inl (b, _, active, finish r rs at)
  can_step b last_hold at active = inl (b, _, active, resolve_last at)
  can_step b waiting at active = elim (Bool-cases (contains s.chains.dispatched b)) [
    | inl m ↦ inl (b, _, active, run at m)
    | inr out ↦ inr out
  ]
  can_step b running at active = inl (b, _, active, return at)
  can_step b (releasing []) at active = absurd (active.not_done at)
  can_step b (releasing (r ∷ rs)) at active = elim (Option-cases (s.chains.next r)) [
    | inl e ↦ inl (b, _, active, load_none r rs at e)
    | inr (next, e) ↦ inl (b, _, active, load_next r next rs at e)
  ]
  can_step b (trying r rs) at active = elim (Option-cases (s.chains.last (p.target r))) [
    | inl e ↦ inl (b, _, active, too_late r rs at (λ h. none-ne-some (sym e ∙ h)))
    | inr (l, e) ↦ elim (ℕ_discrete l r) [
      | yes same ↦ inl (b, _, active, reset r rs at (e ∙ ap (λ x. some x) same))
      | no ne ↦ inl (b, _, active, too_late r rs at (λ h. ne (one_holder e h)))
    ]
  ]
  can_step b (awaiting r rs) at active = elim (Option-cases (s.chains.next r)) [
    | inl e ↦ inl (teller r (links.awaited b r rs at) e)
    | inr (next, e) ↦ inl (b, _, active, await r next rs at e)
  ]
  can_step b (handing r next rs) at active = inl (b, _, active, hand r next rs at)
