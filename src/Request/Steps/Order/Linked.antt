-- ===== src/Request/Steps/Order/Linked.antt =====
-- The chains of the two-phase locking have no fork and no gap.
use bocpy.Base.{
  ℕ, ◌≡◌, ◌⊎◌, inl, inr, Bool, true, false, none, some, List, update, update_self, update_ne,
  contains, sym, ap, ◌∙◌,
}
use native.Mathlib.Decide.{ℕ_discrete}
use bocpy.Request.{Chains}
use bocpy.Request.Steps.{Program, Pc, storing, awaiting, System, goes}
use bocpy.Request.Steps.Ghost.{Ghost}
use bocpy.Request.Steps.Frame.{not_started}
use bocpy.Request.Steps.Order.{left, unswung, Lacks, same_at}

-- A request has another behind it.
abbrev pub Followed : Ghost → ℕ → Type 0
Followed g r = (q : ℕ) × (g.before q ≡ some r)

-- A request was put into its cown's chain.
abbrev pub Swung : Program → System → ℕ → Type 0
Swung p s r = (contains (p.requests (p.owner r)) r ≡ true) × Lacks (unswung (s.pc (p.owner r))) r

pub record Links (p : Program) (s : System) (g : Ghost) : Type 0 where
  -- A request that was first is granted once its link is complete.
  pub first_granted :
      (b q : ℕ)
      → contains (p.requests b) q ≡ true
      → Lacks (left (s.pc b)) q
      → g.before q ≡ none
      → g.granted q ≡ true
  pub unique : (q q' r : ℕ) → g.before q ≡ some r → g.before q' ≡ some r → q ≡ q'
  pub newest_alone : (c q r : ℕ) → s.chains.last c ≡ some r → g.before q ≡ some r → ⊥
  -- A released request has handed its cown on.
  pub passed : (q r : ℕ) → g.gone r ≡ true → g.before q ≡ some r → g.granted q ≡ true
  -- A request in its chain is the newest, or another stands behind it.
  pub followed :
      (r : ℕ)
      → Swung p s r
      → g.gone r ≡ false
      → (s.chains.last (p.target r) ≡ some r) ⊎ Followed g r
  -- Only for a moment does a request not know that another stands behind it.
  pub stores :
      (q r : ℕ)
      → g.before q ≡ some r
      → s.chains.next r ≡ none
      → (rs : List ℕ) × (s.pc (p.owner q) ≡ storing r q rs)
  pub awaited : (b r : ℕ) (rs : List ℕ) → s.pc b ≡ awaiting r rs → Followed g r
  pub swung : (q r : ℕ) → g.before q ≡ some r → Swung p s r
  pub newest_swung : (c r : ℕ) → s.chains.last c ≡ some r → Swung p s r
  pub newest_kept : (c r : ℕ) → s.chains.last c ≡ some r → g.gone r ≡ false

abbrev pub is_storing : Pc → Bool
is_storing (storing prev r rs) = true
is_storing _ = false

abbrev pub is_awaiting : Pc → Bool
is_awaiting (awaiting r rs) = true
is_awaiting _ = false

module _ (p : Program) (s : System) (g : Ghost) (k : Links p s g) (b : ℕ) where
  -- Where another thread stores, it still does.
  pub stores_on :
      (to : Pc) (q r : ℕ)
      → is_storing (s.pc b) ≡ false
      → (rs : List ℕ) × (s.pc (p.owner q) ≡ storing r q rs)
      → (rs : List ℕ) × (update s.pc b to (p.owner q) ≡ storing r q rs)
  stores_on to q r no_store (rs, e) = (
    rs,
    update_ne s.pc b to (p.owner q)
          (λ same. not_started (ap is_storing (ap s.pc same ∙ e)) no_store)
        ∙ e,
  )

  pub awaits_on :
      (to : Pc) (d r : ℕ) (rs : List ℕ)
      → (g' : Ghost) → ((q : ℕ) → g.before q ≡ some r → g'.before q ≡ some r)
      → (to ≡ awaiting r rs → Followed g' r)
      → update s.pc b to d ≡ awaiting r rs
      → Followed g' r
  awaits_on to d r rs g' grows here e = elim (ℕ_discrete b d) [
    | yes same ↦ here (sym (update_self s.pc b to) ∙ ap (update s.pc b to) same ∙ e)
    | no ne ↦ let (q, h) = k.awaited d r rs (sym (update_ne s.pc b to d ne) ∙ e) in (q, grows q h)
  ]

  -- A step that leaves the chains as they are, but for grants and what requests know of others.
  pub Links-calm :
      (to : Pc) (c : Chains) (granted : ℕ → Bool)
      → c.last ≡ s.chains.last
      → unswung to ≡ unswung (s.pc b)
      → ((q : ℕ) → g.granted q ≡ true → granted q ≡ true)
      → ((d q : ℕ)
          → contains (p.requests d) q ≡ true
          → Lacks (left (update s.pc b to d)) q
          → g.before q ≡ none
          → granted q ≡ true)
      → ((q r : ℕ)
          → g.before q ≡ some r
          → c.next r ≡ none
          → (rs : List ℕ) × (update s.pc b to (p.owner q) ≡ storing r q rs))
      → ((r : ℕ) (rs : List ℕ) → to ≡ awaiting r rs → Followed g r)
      → Links p (goes b to c s) (record g { granted = granted })
  Links-calm to c granted lasts same more first_of stores_of awaits =
      let in_chain : (r : ℕ) → Swung p s r → Swung p (goes b to c s) r =
        λ r h. (h.0, ap (λ l. contains l r) (same_at unswung s.pc b to same (p.owner r)) ∙ h.1) in
      record {
        first_granted = first_of;
        unique = k.unique;
        newest_alone = λ d q r e. k.newest_alone d q r (ap (λ f. f d) (sym lasts) ∙ e);
        passed = λ q r e e'. more q (k.passed q r e e');
        followed = λ r h e.
            elim (k.followed r
              (h.0, ap (λ l. contains l r) (sym (same_at unswung s.pc b to same (p.owner r))) ∙ h.1)
              e) [ inl x ↦ inl (ap (λ f. f (p.target r)) lasts ∙ x) | inr x ↦ inr x ];
        stores = stores_of;
        awaited = λ d r rs e. awaits_on to d r rs g (λ q h. h) (awaits r rs) e;
        swung = λ q r e. in_chain r (k.swung q r e);
        newest_swung = λ d r e. in_chain r (k.newest_swung d r (ap (λ f. f d) (sym lasts) ∙ e));
        newest_kept = λ d r e. k.newest_kept d r (ap (λ f. f d) (sym lasts) ∙ e);
      }
