-- ===== src/Request/Steps/Resolving.antt =====
-- The decrement of `behavior_resolve_one` in the two-phase locking.
use bocpy.Base.{
  ℕ, ◌+◌, ◌-◌, ◌≡◌, ◌≢◌, ◌≤◌, Bool, true, false, none, some, List, update, update_self, update_ne,
  contains, arith, refl, sym, ap, ◌∙◌, contains-snoc, Bool-cases, inl, inr,
}
use mathlib.Core.Path.{subst}
use native.Mathlib.Decide.{ℕ_discrete}
use bocpy.Request.{Chains, resolve_one}
use bocpy.Request.Steps.{
  Program, WellFormed, linking, first, last_hold, waiting, System, goes, resolved,
}
use bocpy.Request.Steps.Ghost.{
  Ghost, Fresh, Place, Inv, final, started, pending, other_target, pending-update,
  pending-update_out, All-imp,
}
use bocpy.Request.Steps.Frame.{
  places-step, started-update, final-update, not_started, others_differ,
}

-- What `behavior_resolve_one` does to a count, and to the dispatched behaviours.
module _ (p : Program) (b : ℕ) (c : Chains) where
  pub resolved-last : (resolved p b c).last ≡ c.last
  unfolding resolve_one
  resolved-last = ground arith

  pub resolved-next : (resolved p b c).next ≡ c.next
  unfolding resolve_one
  resolved-next = ground arith

  pub resolved-scheduled : (resolved p b c).scheduled ≡ c.scheduled
  unfolding resolve_one
  resolved-scheduled = ground arith

  pub resolved-count : (resolved p b c).count ≡ update c.count b (c.count b - 1)
  unfolding resolve_one
  resolved-count = ground arith

  -- A behaviour whose count is 0 is dispatched.
  pub resolved-zero :
      ((d : ℕ) → c.count d ≡ 0 → contains c.dispatched d ≡ true)
      → 1 ≤ c.count b
      → (d : ℕ) → (resolved p b c).count d ≡ 0
      → contains (resolved p b c).dispatched d ≡ true
  unfolding resolve_one
  resolved-zero h some_left d zero = ground (arith, h d, contains-snoc c.dispatched b d)

  -- Only a behaviour whose count is 0 is dispatched.
  pub resolved-dispatched :
      ((d : ℕ) → contains c.dispatched d ≡ true → c.count d ≡ 0)
      → 1 ≤ c.count b
      → (d : ℕ) → contains (resolved p b c).dispatched d ≡ true
      → (resolved p b c).count d ≡ 0
  unfolding resolve_one
  resolved-dispatched h some_left d in_list = ground (arith, h d, contains-snoc c.dispatched b d)

pub none-ne-some : {x : ℕ} → none ≡ some x → ⊥
none-ne-some h = cc

not_of :
    (p : Program) (e d q : ℕ)
    → WellFormed p
    → contains (p.requests e) q ≡ true
    → e ≢ d
    → contains (p.requests d) q ≡ false
not_of p e d q wf m ne = elim (Bool-cases (contains (p.requests d) q)) [
  | inl h ↦ absurd (others_differ p e d q q wf m h ne refl)
  | inr h ↦ h
]

-- The counts after a grant of `q`, a request of the behaviour `e`.
pub granted_counts :
    (p : Program) (c : Chains) (granted : ℕ → Bool) (q e : ℕ) (final : ℕ → ℕ)
    → WellFormed p
    → contains (p.requests e) q ≡ true
    → granted q ≡ false
    → ((d : ℕ) → c.count d ≡ final d + pending granted (p.requests d))
    → (d : ℕ) → (resolved p e c).count d ≡ final d + pending (update granted q true) (p.requests d)
granted_counts p c granted q e final wf m new h d =
    rw (resolved-count p e c) (elim (ℕ_discrete e d) [
      | yes same ↦
          subst
            (λ k.
              update c.count e (c.count e - 1) k
              ≡ final k + pending (update granted q true) (p.requests k))
            same
            (update_self c.count e (c.count e - 1)
              ∙ omega (
                arith,
                h e,
                pending-update p.target granted q (p.requests e) (wf.distinct e) m new,
              ))
      | no ne ↦
          update_ne c.count e (c.count e - 1) d ne
          ∙ h d
          ∙ ap (λ k. final d + k)
              (sym (pending-update_out granted q (p.requests d) (not_of p e d q wf m ne)))
    ])

module _ (p : Program) (wf : WellFormed p) (s : System) (g : Ghost) (v : Inv p s g) (b : ℕ) where
  -- A behaviour whose thread still has a hold, or that waits for a request, is not dispatched.
  pub some_hold :
      (e q : ℕ) → contains (p.requests e) q ≡ true → g.granted q ≡ false → 1 ≤ s.chains.count e
  some_hold e q m new =
      omega (
        arith,
        v.counted e,
        pending-update p.target g.granted q (p.requests e) (wf.distinct e) m new,
      )

  -- The first of its cown's chain is granted at once.
  pub Inv-resolve_first :
      (r : ℕ) (rs : List ℕ)
      → s.pc b ≡ first r rs
      → Inv p
          (goes b (linking rs) (resolved p b s.chains) s)
          (record g { granted = update g.granted r true })
  Inv-resolve_first r rs at =
      let place : Place p g b (first r rs) = subst (Place p g b) at (v.places b) in
      let mine : contains (p.requests b) r ≡ true = place.0.1.0 in
      let new : g.granted r ≡ false = place.1.0.0 in
      let alone : g.before r ≡ none = place.1.0.1 in
      let g' : Ghost = record g { granted = update g.granted r true } in
      record {
        counted =
            granted_counts p s.chains g.granted r b (λ d. final (update s.pc b (linking rs) d)) wf
              mine new
              (λ d. rw (final-update s.pc b (linking rs) d (ap final (sym at))) (v.counted d));
        started_granted =
            resolved-dispatched p b s.chains v.started_granted (some_hold b r mine new);
        held = λ q e e'. elim (ℕ_discrete r q) [
          | yes same ↦ subst (λ k. g.holder (p.target k) ≡ some k) same place.2
          | no ne ↦ v.held q (sym (update_ne g.granted r true q ne) ∙ e) e'
        ];
        unheld = λ c e. v.unheld c (rw (sym (resolved-last p b s.chains)) e);
        newest = λ c q e. v.newest c q (rw (sym (resolved-last p b s.chains)) e);
        behind = v.behind;
        listed = v.listed;
        after = λ q x e e'. v.after q x e (
            sym (
              update_ne g.granted r true q
                (λ same. none-ne-some (sym alone ∙ ap g.before same ∙ e)))
            ∙ e');
        told = λ q d e. v.told q d (rw (sym (resolved-next p b s.chains)) e);
        released = λ q e.
            started-update s.pc b (linking rs) (p.owner q)
              (λ x. absurd (not_started x (ap started at))) (v.released q e);
        places =
            places-step p g g' s.pc b (linking rs)
              (
                (place.0.0.1, place.0.1.1),
                All-imp (Fresh g) (Fresh g') rs
                    (λ q m h. (
                      update_ne g.granted r true q (other_target p.target r q rs place.0.0.0 m)
                          ∙ h.0,
                      h.1,
                    ))
                    place.1.1,
              )
              (λ d ne. record {
                fresh = λ q m h. (
                  update_ne g.granted r true q (others_differ p b d r q wf mine m ne) ∙ h.0,
                  h.1,
                );
                live = λ q m h. (ground arith, h.1);
                behind = λ q x h. h;
                holds = λ q m e h. h;
              })
              v.places;
      }

  -- The hold of the scheduling thread is given up.
  pub Inv-resolve_last : s.pc b ≡ last_hold → Inv p (goes b waiting (resolved p b s.chains) s) g
  Inv-resolve_last at = record {
    counted = λ d. rw (resolved-count p b s.chains) (elim (ℕ_discrete b d) [
      | yes same ↦
          subst
            (λ k.
              update s.chains.count b (s.chains.count b - 1) k
              ≡ final (update s.pc b waiting k) + pending g.granted (p.requests k))
            same
            (rw (update_self s.chains.count b (s.chains.count b - 1), update_self s.pc b waiting)
              (omega (arith, v.counted b, ap final at)))
      | no ne ↦
          rw (update_ne s.chains.count b (s.chains.count b - 1) d ne, update_ne s.pc b waiting d ne)
            (v.counted d)
    ]);
    started_granted =
        resolved-dispatched p b s.chains v.started_granted
          (omega (arith, v.counted b, ap final at));
    held = v.held;
    unheld = λ c e. v.unheld c (rw (sym (resolved-last p b s.chains)) e);
    newest = λ c q e. v.newest c q (rw (sym (resolved-last p b s.chains)) e);
    behind = v.behind;
    listed = v.listed;
    after = v.after;
    told = λ q d e. v.told q d (rw (sym (resolved-next p b s.chains)) e);
    released = λ q e.
        started-update s.pc b waiting (p.owner q) (λ x. absurd (not_started x (ap started at)))
          (v.released q e);
    places =
        places-step p g g s.pc b waiting tt
          (λ d ne. record {
            fresh = λ r m h. h;
            live = λ r m h. h;
            behind = λ q r h. h;
            holds = λ r m e h. h;
          })
          v.places;
  }
