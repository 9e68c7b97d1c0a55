-- ===== src/Request/Handover.antt =====
-- What `request_start_enqueue_inner` and `request_release_inner` of _core.c do to the chains of all
-- cowns together.
use bocpy.Base.{
  ℕ, ◌≡◌, ◌≢◌, Bool, true, none, some, List, [], ◌∷◌, ◌++◌, update, NotIn, All, refl, ap, ◌∙◌,
  arith, ==_iff,
}
use bocpy.Request.{Chains, success, resolve_one, start_enqueue, release}
use bocpy.Request.Chain.{Holds}

module _ (target owner : ℕ → ℕ) (up : Bool) where
  -- Every cown `c` has the requests `chains c`, and they aim at it.
  pub record Valid (s : Chains) (chains : ℕ → List ℕ) : Type 0 where
    pub holds : (c : ℕ) → Holds target owner up s c (chains c)
    pub aimed : (c : ℕ) → All (λ r. target r ≡ c) (chains c)

  pub elsewhere : (r c : ℕ) (rs : List ℕ) → target r ≢ c → All (λ q. target q ≡ c) rs → NotIn r rs
  elsewhere r c [] ne h = tt
  elsewhere r c (q ∷ rs) ne h = (λ e. ne (ap target e ∙ h.0), elsewhere r c rs ne h.1)

  pub All-snoc : (P : ℕ → Type 0) (rs : List ℕ) (q : ℕ) → All P rs → P q → All P (rs ++ (q ∷ []))
  All-snoc P [] q h k = (k, tt)
  All-snoc P (r ∷ rs) q h k = (h.0, All-snoc P rs q h.1 k)

  pub resolve_last : (b : ℕ) (s : Chains) → (resolve_one target owner up b s).1.last ≡ s.last
  unfolding resolve_one
  resolve_last b s = ground arith

  pub resolve_next : (b : ℕ) (s : Chains) → (resolve_one target owner up b s).1.next ≡ s.next
  unfolding resolve_one
  resolve_next b s = ground arith

  -- The fields that a chain reads are all that it depends on.
  pub Holds-fields :
      (s t : Chains) (c : ℕ) (rs : List ℕ)
      → t.next ≡ s.next
      → t.last c ≡ s.last c
      → Holds target owner up s c rs
      → Holds target owner up t c rs
  Holds-fields s t c rs e f h = record {
    linked = rw e h.linked;
    last_is = f ∙ h.last_is;
    distinct = h.distinct;
  }

  -- The exchange on `last` that starts an enqueue.
  abbrev pub swung : ℕ → Chains → Chains
  swung r s = record s { last = update s.last (target r) (some r) }

  pub enqueue_first :
      (r : ℕ) (s : Chains)
      → s.last (target r) ≡ none
      → start_enqueue target owner up r s ≡ resolve_one target owner up (owner r) (swung r s)
  unfolding start_enqueue
  enqueue_first r s e = rw (start_enqueue, e) refl

  pub enqueue_behind :
      (r p : ℕ) (s : Chains)
      → s.last (target r) ≡ some p
      → s.scheduled p ≡ true
      → start_enqueue target owner up r s
        ≡ (success, record (swung r s) { next = update s.next p (some (owner r)) })
  unfolding start_enqueue
  enqueue_behind r p s e f = rw (start_enqueue, e, f) refl

  pub release_next :
      (r b : ℕ) (s : Chains)
      → s.next r ≡ some b
      → release target owner up r s ≡ resolve_one target owner up b s
  unfolding release
  release_next r b s e = rw (release, e) refl

  pub release_last :
      (r : ℕ) (s : Chains)
      → s.next r ≡ none
      → s.last (target r) ≡ some r
      → release target owner up r s ≡ (success, record s { last = update s.last (target r) none })
  unfolding release
  release_last r s e f = rw (release, e, f, (==_iff r r).1 refl) refl
