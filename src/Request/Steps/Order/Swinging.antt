-- ===== src/Request/Steps/Order/Swinging.antt =====
-- A new request at the end of its cown's chain leaves no gap and makes no fork.
use bocpy.Base.{
  ℕ, ◌≡◌, ◌≢◌, ◌⊎◌, inl, inr, true, false, Option, none, some, List, ◌∷◌, update, update_self,
  update_ne, contains, arith, refl, sym, ap, ◌∙◌, Bool-cases, Option-cases, ap₂,
}
use mathlib.Core.Path.{subst}
use native.Mathlib.Decide.{ℕ_discrete}
use bocpy.Request.{Chains}
use bocpy.Request.Steps.{Program, WellFormed, Pc, linking, first, storing, System, goes}
use bocpy.Request.Steps.Ghost.{Ghost, Inv, Place, started, not_among}
use bocpy.Request.Steps.Frame.{not_started, one_holder, free_holder}
use bocpy.Request.Steps.Resolving.{none-ne-some}
use bocpy.Request.Steps.Order.{left, unswung, Lacks, same_at, dropped, still_out}
use bocpy.Request.Steps.Order.Linked.{Swung, Links, is_storing, is_awaiting, stores_on, awaits_on}

module _ (p : Program) (wf : WellFormed p) (s : System) (g : Ghost) (v : Inv p s g)
    (k : Links p s g) (b r : ℕ) (rs : List ℕ) (at : s.pc b ≡ linking (r ∷ rs)) where
  place : Place p g b (linking (r ∷ rs))
  place = subst (Place p g b) at (v.places b)

  own : p.owner r ≡ b
  own = wf.owned b r place.0.1.0

  -- The request was in no chain.
  pub not_swung : Swung p s r → ⊥
  not_swung h =
      not_started {a = contains (r ∷ rs) r} (ground arith)
        (ap (λ l. contains l r) (ap unswung (sym (ap s.pc own ∙ at))) ∙ h.1)

  -- It is in one once its thread has made the exchange.
  module _ (to : Pc) (c : Chains) (e : unswung to ≡ rs) where
    drops : unswung (s.pc b) ≡ r ∷ unswung to
    drops = ap unswung at ∙ ap (λ l. r ∷ l) (sym e)

    pub Swung-self : Swung p (goes b to c s) r
    Swung-self = (
      subst (λ d. contains (p.requests d) r ≡ true) (sym own) place.0.1.0,
      ap (λ d. contains (unswung (update s.pc b to d)) r) own
          ∙ ap (λ x. contains (unswung x) r) (update_self s.pc b to)
          ∙ ap (λ l. contains l r) e
          ∙ not_among p.target r rs place.0.0.0,
    )

    pub Swung-more : (q : ℕ) → Swung p s q → Swung p (goes b to c s) q
    Swung-more q h = (h.0, still_out unswung s.pc b to r drops (p.owner q) q h.1)

    pub Swung-less : (q : ℕ) → Swung p (goes b to c s) q → (r ≡ q) ⊎ Swung p s q
    Swung-less q h = elim (dropped unswung s.pc b to r drops (p.owner q) q h.1) [
      | inl x ↦ inl x.1
      | inr x ↦ inr (h.0, x)
    ]

    same_left :
        left to ≡ r ∷ rs → (d q : ℕ) → Lacks (left (update s.pc b to d)) q → Lacks (left (s.pc d)) q
    same_left l d q h =
        ap (λ x. contains x q) (sym (same_at left s.pc b to (l ∙ sym (ap left at)) d)) ∙ h

  not_gone : g.gone r ≡ false
  not_gone = elim (Bool-cases (g.gone r)) [
    | inl e ↦ absurd (not_started (v.released r e) (ap started (ap s.pc own ∙ at)))
    | inr e ↦ e
  ]

  module _ (holder : ℕ → Option ℕ) where
    -- A request that nobody stands before.
    pub Links-swing_idle :
        s.chains.last (p.target r) ≡ none
        → Links p
            (goes b
              (first r rs)
              (record (s.chains) { last = update s.chains.last (p.target r) (some r) })
              s)
            (record g { holder = holder })
    Links-swing_idle idle =
        let to : Pc = first r rs in
        let c : Chains = record (s.chains) { last = update s.chains.last (p.target r) (some r) } in
        let g' : Ghost = record g { holder = holder } in
        record {
          first_granted = λ d q m h e. k.first_granted d q m (same_left to c refl refl d q h) e;
          unique = k.unique;
          newest_alone = λ d q x e e'. elim (ℕ_discrete (p.target r) d) [
            | yes same ↦ not_swung (
                subst (Swung p s)
                  (sym (
                    one_holder (update_self s.chains.last (p.target r) (some r))
                      (ap c.last same ∙ e)))
                  (k.swung q x e'))
            | no ne ↦
                k.newest_alone d q x (sym (update_ne s.chains.last (p.target r) (some r) d ne) ∙ e)
                  e'
          ];
          passed = k.passed;
          followed = λ q h e. elim (Swung-less to c refl q h) [
            | inl same ↦ inl (
                subst (λ x. c.last (p.target x) ≡ some x) same
                  (update_self s.chains.last (p.target r) (some r)))
            | inr old ↦ elim (k.followed q old e) [
              | inl l ↦ inl (free_holder s.chains.last (p.target r) (p.target q) r q idle l)
              | inr f ↦ inr f
            ]
          ];
          stores = λ q x e e'. stores_on p s g k b to q x (ap is_storing at) (k.stores q x e e');
          awaited = λ d x xs e.
              awaits_on p s g k b to d x xs g' (λ q h. h)
                (λ h. absurd (not_started refl (sym (ap is_awaiting h)))) e;
          swung = λ q x e. Swung-more to c refl x (k.swung q x e);
          newest_swung = λ d x e. elim (ℕ_discrete (p.target r) d) [
            | yes same ↦
                subst (Swung p (goes b to c s))
                  (one_holder (update_self s.chains.last (p.target r) (some r))
                    (ap c.last same ∙ e))
                  (Swung-self to c refl)
            | no ne ↦
                Swung-more to c refl x (
                  k.newest_swung d x (sym (update_ne s.chains.last (p.target r) (some r) d ne) ∙ e))
          ];
          newest_kept = λ d x e. elim (ℕ_discrete (p.target r) d) [
            | yes same ↦
                subst (λ y. g.gone y ≡ false)
                  (one_holder (update_self s.chains.last (p.target r) (some r))
                    (ap c.last same ∙ e))
                  not_gone
            | no ne ↦
                k.newest_kept d x (sym (update_ne s.chains.last (p.target r) (some r) d ne) ∙ e)
          ];
        }

  -- A request behind the newest one.
  pub Links-swing :
      (prev : ℕ)
      → s.chains.last (p.target r) ≡ some prev
      → Links p
          (goes b
            (storing prev r rs)
            (record (s.chains) { last = update s.chains.last (p.target r) (some r) })
            s)
          (record g { before = update g.before r (some prev) })
  Links-swing prev busy =
      let to : Pc = storing prev r rs in
      let c : Chains = record (s.chains) { last = update s.chains.last (p.target r) (some r) } in
      let g' : Ghost = record g { before = update g.before r (some prev) } in
      let new : g.before r ≡ none = place.1.0.1 in
      let newer : (d x : ℕ) → p.target r ≡ d → c.last d ≡ some x → r ≡ x = λ d x same e.
        one_holder (update_self s.chains.last (p.target r) (some r)) (ap c.last same ∙ e) in
      let older : (d x : ℕ) → p.target r ≢ d → c.last d ≡ some x → s.chains.last d ≡ some x =
        λ d x ne e. sym (update_ne s.chains.last (p.target r) (some r) d ne) ∙ e in
      let as_before : (q x : ℕ) → r ≢ q → g'.before q ≡ some x → g.before q ≡ some x =
        λ q x ne e. sym (update_ne g.before r (some prev) q ne) ∙ e in
      let behind_prev : (q x : ℕ) → r ≡ q → g'.before q ≡ some x → prev ≡ x =
        λ q x same e. one_holder (update_self g.before r (some prev)) (ap g'.before same ∙ e) in
      let grows : (q x : ℕ) → g.before q ≡ some x → g'.before q ≡ some x =
        λ q x e. free_holder g.before r q prev x new e in
      let nobody : (q x : ℕ) → g.before q ≡ some x → prev ≡ x → ⊥ =
        λ q x e same. k.newest_alone (p.target r) q prev busy (e ∙ ap (λ y. some y) (sym same)) in
      let prev_swung : Swung p s prev = k.newest_swung (p.target r) prev busy in
      record {
        first_granted = λ d q m h e.
            k.first_granted d q m (same_left to c refl refl d q h)
              (elim (Option-cases (g.before q)) [
                | inl x ↦ x
                | inr (y, x) ↦ absurd (none-ne-some (sym e ∙ grows q y x))
              ]);
        unique = λ q q' x e e'. elim (ℕ_discrete r q) [
          | yes same ↦ elim (ℕ_discrete r q') [
            | yes same' ↦ sym same ∙ same'
            | no ne ↦ absurd (nobody q' x (as_before q' x ne e') (behind_prev q x same e))
          ]
          | no ne ↦ elim (ℕ_discrete r q') [
            | yes same' ↦ absurd (nobody q x (as_before q x ne e) (behind_prev q' x same' e'))
            | no ne' ↦ k.unique q q' x (as_before q x ne e) (as_before q' x ne' e')
          ]
        ];
        newest_alone = λ d q x e e'. elim (ℕ_discrete r q) [
          | yes same ↦ elim (ℕ_discrete (p.target r) d) [
            | yes there ↦
                not_swung
                  (subst (Swung p s) (behind_prev q x same e' ∙ sym (newer d x there e)) prev_swung)
            | no ne ↦ ne (
                sym (v.newest (p.target r) prev busy)
                ∙ ap p.target (behind_prev q x same e')
                ∙ v.newest d x (older d x ne e))
          ]
          | no other ↦ elim (ℕ_discrete (p.target r) d) [
            | yes there ↦
                not_swung (
                  subst (Swung p s) (sym (newer d x there e))
                    (k.swung q x (as_before q x other e')))
            | no ne ↦ k.newest_alone d q x (older d x ne e) (as_before q x other e')
          ]
        ];
        passed = λ q x e e'. elim (ℕ_discrete r q) [
          | yes same ↦ absurd (
              not_started (subst (λ y. g.gone y ≡ true) (sym (behind_prev q x same e')) e)
                (k.newest_kept (p.target r) prev busy))
          | no ne ↦ k.passed q x e (as_before q x ne e')
        ];
        followed = λ q h e. elim (Swung-less to c refl q h) [
          | inl same ↦ inl (
              subst (λ x. c.last (p.target x) ≡ some x) same
                (update_self s.chains.last (p.target r) (some r)))
          | inr old ↦ elim (k.followed q old e) [
            | inl l ↦ elim (ℕ_discrete (p.target r) (p.target q)) [
              | yes there ↦
                  inr (
                    r,
                    update_self g.before r (some prev) ∙ (sym busy ∙ ap s.chains.last there ∙ l),
                  )
              | no ne ↦ inl (update_ne s.chains.last (p.target r) (some r) (p.target q) ne ∙ l)
            ]
            | inr (x, f) ↦ inr (x, grows x q f)
          ]
        ];
        stores = λ q x e e'. elim (ℕ_discrete r q) [
          | yes same ↦ (
            rs,
            subst (λ y. update s.pc b to y ≡ storing x q rs) (sym own ∙ ap p.owner same)
                (update_self s.pc b to ∙ ap₂ (λ y z. storing y z rs) (behind_prev q x same e) same),
          )
          | no ne ↦
              stores_on p s g k b to q x (ap is_storing at) (k.stores q x (as_before q x ne e) e')
        ];
        awaited = λ d x xs e.
            awaits_on p s g k b to d x xs g' (λ q h. grows q x h)
              (λ h. absurd (not_started refl (sym (ap is_awaiting h)))) e;
        swung = λ q x e. elim (ℕ_discrete r q) [
          | yes same ↦
              Swung-more to c refl x (subst (Swung p s) (behind_prev q x same e) prev_swung)
          | no ne ↦ Swung-more to c refl x (k.swung q x (as_before q x ne e))
        ];
        newest_swung = λ d x e. elim (ℕ_discrete (p.target r) d) [
          | yes there ↦ subst (Swung p (goes b to c s)) (newer d x there e) (Swung-self to c refl)
          | no ne ↦ Swung-more to c refl x (k.newest_swung d x (older d x ne e))
        ];
        newest_kept = λ d x e. elim (ℕ_discrete (p.target r) d) [
          | yes there ↦ subst (λ y. g.gone y ≡ false) (newer d x there e) not_gone
          | no ne ↦ k.newest_kept d x (older d x ne e)
        ];
      }
