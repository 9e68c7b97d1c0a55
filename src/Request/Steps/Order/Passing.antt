-- ===== src/Request/Steps/Order/Passing.antt =====
-- A released request leaves no gap in its cown's chain.
use bocpy.Base.{
  ℕ, ◌≡◌, ◌≢◌, ◌⊎◌, inl, inr, Bool, true, false, Option, none, some, List, update, update_self,
  update_ne, contains, arith, refl, sym, ap, ◌∙◌, Bool-cases,
}
use native.Mathlib.Decide.{ℕ_discrete}
use bocpy.Request.{Chains}
use bocpy.Request.Steps.{
  Program, WellFormed, Pc, releasing, trying, handing, System, goes, resolved,
}
use bocpy.Request.Steps.Ghost.{Ghost, Inv}
use bocpy.Request.Steps.Frame.{not_started, one_holder}
use bocpy.Request.Steps.Resolving.{none-ne-some, resolved-last, resolved-next}
use bocpy.Request.Steps.Order.{left, unswung, Lacks, same_at}
use bocpy.Request.Steps.Order.Linked.{Swung, Links, is_storing, is_awaiting, stores_on, awaits_on}

gone_before :
    (gone : ℕ → Bool) (r q : ℕ) → update gone r true q ≡ false → (r ≢ q) × (gone q ≡ false)
gone_before gone r q h = ground arith

pub gone_after :
    (gone : ℕ → Bool) (r q : ℕ) → update gone r true q ≡ true → (r ≡ q) ⊎ (gone q ≡ true)
gone_after gone r q h = elim (ℕ_discrete r q) [
  | yes same ↦ inl same
  | no ne ↦ inr (sym (update_ne gone r true q ne) ∙ h)
]

not_emptied :
    (last : ℕ → Option ℕ) (c d x : ℕ) → update last c none d ≡ some x → (c ≢ d) × (last d ≡ some x)
not_emptied last c d x h = elim (ℕ_discrete c d) [
  | yes same ↦
      absurd (none-ne-some (sym (update_self last c none) ∙ ap (update last c none) same ∙ h))
  | no ne ↦ (ne, sym (update_ne last c none d ne) ∙ h)
]

module _ (p : Program) (wf : WellFormed p) (s : System) (g : Ghost) (v : Inv p s g)
    (k : Links p s g) (b : ℕ) where
  module _ (to : Pc) (c : Chains) (e : unswung to ≡ unswung (s.pc b)) where
    stays : (r : ℕ) → Swung p s r → Swung p (goes b to c s) r
    stays r h = (h.0, ap (λ l. contains l r) (same_at unswung s.pc b to e (p.owner r)) ∙ h.1)

    stayed : (r : ℕ) → Swung p (goes b to c s) r → Swung p s r
    stayed r h = (h.0, ap (λ l. contains l r) (sym (same_at unswung s.pc b to e (p.owner r))) ∙ h.1)

  pub left_same :
      (to : Pc)
      → left to ≡ left (s.pc b)
      → (d q : ℕ) → Lacks (left (update s.pc b to d)) q
      → Lacks (left (s.pc d)) q
  left_same to l d q h = ap (λ x. contains x q) (sym (same_at left s.pc b to l d)) ∙ h

  pub Links-reset :
      (r : ℕ) (rs : List ℕ) (holder : ℕ → Option ℕ)
      → s.pc b ≡ trying r rs
      → s.chains.last (p.target r) ≡ some r
      → Links p
          (goes b
            (releasing rs)
            (record (s.chains) { last = update s.chains.last (p.target r) none })
            s)
          (record g { holder = holder; gone = update g.gone r true })
  Links-reset r rs holder at only =
      let to : Pc = releasing rs in
      let c : Chains = record (s.chains) { last = update s.chains.last (p.target r) none } in
      let g' : Ghost = record g { holder = holder; gone = update g.gone r true } in
      let u : unswung to ≡ unswung (s.pc b) = ap unswung (sym at) in
      let older : (d x : ℕ) → c.last d ≡ some x → (p.target r ≢ d) × (s.chains.last d ≡ some x) =
        λ d x e. not_emptied s.chains.last (p.target r) d x e in
      record {
        first_granted =
            λ d q m h e. k.first_granted d q m (left_same to (ap left (sym at)) d q h) e;
        unique = k.unique;
        newest_alone = λ d q x e e'. k.newest_alone d q x (older d x e).1 e';
        passed = λ q x e e'. elim (gone_after g.gone r x e) [
          | inl same ↦
              absurd (k.newest_alone (p.target r) q r only (e' ∙ ap (λ y. some y) (sym same)))
          | inr e0 ↦ k.passed q x e0 e'
        ];
        followed = λ q h e.
            let (ne, here) = gone_before g.gone r q e in
            elim (k.followed q (stayed to c u q h) here) [
              | inl l ↦ elim (ℕ_discrete (p.target r) (p.target q)) [
                | yes there ↦ absurd (ne (one_holder only (ap s.chains.last there ∙ l)))
                | no other ↦ inl (update_ne s.chains.last (p.target r) none (p.target q) other ∙ l)
              ]
              | inr f ↦ inr f
            ];
        stores = λ q x e e'. stores_on p s g k b to q x (ap is_storing at) (k.stores q x e e');
        awaited = λ d x xs e.
            awaits_on p s g k b to d x xs g' (λ q h. h)
              (λ h. absurd (not_started refl (sym (ap is_awaiting h)))) e;
        swung = λ q x e. stays to c u x (k.swung q x e);
        newest_swung = λ d x e. stays to c u x (k.newest_swung d x (older d x e).1);
        newest_kept = λ d x e. elim (Bool-cases (update g.gone r true x)) [
          | inr e' ↦ e'
          | inl e' ↦ elim (gone_after g.gone r x e') [
            | inl same ↦ absurd ((older d x e).0 (ap p.target same ∙ v.newest d x (older d x e).1))
            | inr e0 ↦ absurd (not_started e0 (k.newest_kept d x (older d x e).1))
          ]
        ];
      }

  pub Links-hand :
      (r next : ℕ) (rs : List ℕ) (q : ℕ) (holder : ℕ → Option ℕ)
      → s.pc b ≡ handing r next rs
      → g.before q ≡ some r
      → Links p (goes b (releasing rs) (resolved p next s.chains) s) (record g {
        holder = holder;
        granted = update g.granted q true;
        gone = update g.gone r true;
      })
  Links-hand r next rs q holder at stands =
      let to : Pc = releasing rs in
      let c : Chains = resolved p next s.chains in
      let g' : Ghost = record g {
        holder = holder;
        granted = update g.granted q true;
        gone = update g.gone r true;
      } in
      let u : unswung to ≡ unswung (s.pc b) = ap unswung (sym at) in
      let more : (x : ℕ) → g.granted x ≡ true → update g.granted q true x ≡ true =
        λ x e. ground arith in
      let older : (d x : ℕ) → c.last d ≡ some x → s.chains.last d ≡ some x =
        λ d x e. ap (λ f. f d) (sym (resolved-last p next s.chains)) ∙ e in
      record {
        first_granted =
            λ d x m h e. more x (k.first_granted d x m (left_same to (ap left (sym at)) d x h) e);
        unique = k.unique;
        newest_alone = λ d x y e e'. k.newest_alone d x y (older d y e) e';
        passed = λ x y e e'. elim (gone_after g.gone r y e) [
          | inl same ↦
              ap (update g.granted q true)
                (k.unique x q r (e' ∙ ap (λ z. some z) (sym same)) stands)
              ∙ update_self g.granted q true
          | inr e0 ↦ more x (k.passed x y e0 e')
        ];
        followed = λ x h e. elim (k.followed x (stayed to c u x h) (gone_before g.gone r x e).1) [
          | inl l ↦ inl (ap (λ f. f (p.target x)) (resolved-last p next s.chains) ∙ l)
          | inr f ↦ inr f
        ];
        stores = λ x y e e'.
            stores_on p s g k b to x y (ap is_storing at)
              (k.stores x y e (ap (λ f. f y) (sym (resolved-next p next s.chains)) ∙ e'));
        awaited = λ d x xs e.
            awaits_on p s g k b to d x xs g' (λ q h. h)
              (λ h. absurd (not_started refl (sym (ap is_awaiting h)))) e;
        swung = λ x y e. stays to c u y (k.swung x y e);
        newest_swung = λ d x e. stays to c u x (k.newest_swung d x (older d x e));
        newest_kept = λ d x e. elim (Bool-cases (update g.gone r true x)) [
          | inr e' ↦ e'
          | inl e' ↦ elim (gone_after g.gone r x e') [
            | inl same ↦
                absurd (k.newest_alone d q x (older d x e) (stands ∙ ap (λ z. some z) same))
            | inr e0 ↦ absurd (not_started e0 (k.newest_kept d x (older d x e)))
          ]
        ];
      }
