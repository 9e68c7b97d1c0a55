-- ===== src/Request/Steps/Exclusion.antt =====
-- The two-phase locking keeps behaviours that share a cown apart, in every order of its steps.
use bocpy.Base.{ℕ, ◌≡◌, true, false, none, contains, arith, refl, sym, ap, ◌∙◌}
use mathlib.Core.Path.{subst}
use bocpy.Request.Steps.{Program, WellFormed, running, System, Reach, here, later, start}
use bocpy.Request.Steps.Ghost.{
  Ghost, Fresh, Live, Place, Inv, pending-none, All-imp, All-contains, All-lookup,
}
use bocpy.Request.Steps.Preserved.{advance, Step-Inv}
use bocpy.Request.Steps.Frame.{one_holder}
use bocpy.Request.Steps.Resolving.{none-ne-some}

abbrev pub alone : Ghost
alone = record { holder = λ c. none; before = λ r. none; granted = λ r. false; gone = λ r. false }

pub start-Inv : (p : Program) → WellFormed p → Inv p (start p) alone
start-Inv p wf = record {
  counted = λ b. omega (arith, pending-none (p.requests b));
  started_granted = λ b m. cc;
  held = λ r e. cc;
  unheld = λ c e. refl;
  newest = λ c r e. absurd (none-ne-some e);
  behind = λ q r e. absurd (none-ne-some e);
  listed = λ q r e. absurd (none-ne-some e);
  after = λ q r e. absurd (none-ne-some e);
  told = λ r b e. absurd (none-ne-some e);
  released = λ r e. cc;
  places = λ b. (
    (wf.distinct b, All-contains (p.requests b)),
    All-imp (λ r. contains (p.requests b) r ≡ true) (Fresh alone) (p.requests b)
        (λ r m k. (refl, refl)) (All-contains (p.requests b)),
  );
}

abbrev pub Kept : Program → System → Type 0
Kept p s = (g : Ghost) × Inv p s g

Reach-Inv : (p : Program) → WellFormed p → (s t : System) → Reach p s t → Kept p s → Kept p t
Reach-Inv p wf s _ here k = k
Reach-Inv p wf s u (later {t = t} b r st) k =
    let (g, v) = Reach-Inv p wf s t r k in (advance p t b st g v, Step-Inv p wf t b st g v)

-- Two behaviours that run at the same time have no cown in common, in whatever order the threads that
-- schedule, run and release behaviours take their steps, if the requests of each behaviour are its
-- own and aim at different cowns.
pub mutual_exclusion :
    (p : Program) (s : System) (a b r q : ℕ)
    → WellFormed p
    → Reach p (start p) s
    → s.pc a ≡ running
    → s.pc b ≡ running
    → contains (p.requests a) r ≡ true
    → contains (p.requests b) q ≡ true
    → p.target r ≡ p.target q
    → a ≡ b
mutual_exclusion p s a b r q wf steps at_a at_b m n same =
    let (g, v) = Reach-Inv p wf (start p) s steps (alone, start-Inv p wf) in
    let x : Live g r =
      All-lookup (Live g) (p.requests a) r m (subst (Place p g a) at_a (v.places a)) in
    let y : Live g q =
      All-lookup (Live g) (p.requests b) q n (subst (Place p g b) at_b (v.places b)) in
    let one : r ≡ q = one_holder (v.held r x.0 x.1) (ap g.holder same ∙ v.held q y.0 y.1) in
    sym (wf.owned a r m) ∙ ap p.owner one ∙ wf.owned b q n
