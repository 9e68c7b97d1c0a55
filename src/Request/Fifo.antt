-- ===== src/Request/Fifo.antt =====
-- Each cown of _core.c hands itself on in the order in which behaviours were linked.
use bocpy.Base.{
  ℕ, ◌≡◌, ◌≢◌, ◌⊎◌, inl, inr, Bool, true, none, some, List, [], ◌∷◌, ◌++◌, update, update_self,
  update_ne, NotIn, IsDistinct-snoc, All, refl, sym, ap, ◌∙◌, arith,
}
use mathlib.Core.Path.{subst}
use native.Mathlib.Decide.{ℕ_discrete}
use bocpy.Bq.Chain.{last_node}
use bocpy.Request.{Chains, Done, success, resolve_one, start_enqueue}
use bocpy.Request.Chain.{
  newest, Holds, Linked-update_ne, Linked-append, last_node-snoc, last_node-All,
}
use bocpy.Request.Handover.{
  Valid, elsewhere, All-snoc, resolve_last, resolve_next, Holds-fields, swung, enqueue_first,
  enqueue_behind,
}

module _ (target owner : ℕ → ℕ) (up : Bool) where
  -- A call that changes the chain of one cown and leaves the others.
  pub update-Valid :
      (s t : Chains) (chains : ℕ → List ℕ) (c : ℕ) (rs : List ℕ)
      → Valid target owner up s chains
      → Holds target owner up t c rs
      → All (λ r. target r ≡ c) rs
      → ((d : ℕ) → c ≢ d → Holds target owner up t d (chains d))
      → Valid target owner up t (update chains c rs)
  update-Valid s t chains c rs v h a others = record {
    holds = λ d. elim (ℕ_discrete c d) [
      | yes e ↦
          subst (λ k. Holds target owner up t k (update chains c rs k)) e
            (rw (update_self chains c rs) h)
      | no ne ↦ rw (update_ne chains c rs d ne) (others d ne)
    ];
    aimed = λ d. elim (ℕ_discrete c d) [
      | yes e ↦
          subst (λ k. All (λ r. target r ≡ k) (update chains c rs k)) e
            (rw (update_self chains c rs) a)
      | no ne ↦ rw (update_ne chains c rs d ne) (v.aimed d)
    ];
  }

  -- The chain of the request's own cown after an enqueue.
  enqueue-Holds :
      (r : ℕ) (rs : List ℕ) (s : Chains)
      → Holds target owner up s (target r) rs
      → NotIn r rs
      → s.next r ≡ none
      → All (λ q. s.scheduled q ≡ true) rs
      → Holds target owner up (start_enqueue target owner up r s).1 (target r) (rs ++ (r ∷ []))
  enqueue-Holds r [] s h out fresh ready = rw (enqueue_first target owner up r s h.last_is) (
      Holds-fields target owner up (swung target owner up r s) _ (target r) (r ∷ [])
        (resolve_next target owner up (owner r) (swung target owner up r s))
        (ap (λ f. f (target r))
          (resolve_last target owner up (owner r) (swung target owner up r s)))
        (record {
          linked = fresh;
          last_is = update_self s.last (target r) (some r);
          distinct = (tt, tt);
        }))
  enqueue-Holds r (p ∷ rs) s h out fresh ready =
      rw
        (enqueue_behind target owner up r (last_node p rs) s h.last_is
          (last_node-All target owner up (λ q. s.scheduled q ≡ true) p rs ready))
        (record {
          linked = Linked-append target owner up s.next p rs r h.distinct out fresh h.linked;
          last_is =
              update_self s.last (target r) (some r)
              ∙ ap (λ k. some k) (sym (last_node-snoc target owner up p rs r));
          distinct = IsDistinct-snoc (p ∷ rs) r h.distinct out;
        })

  -- And those of the other cowns.
  enqueue-others :
      (r : ℕ) (rs : List ℕ) (s : Chains) (d : ℕ) (xs : List ℕ)
      → Holds target owner up s (target r) rs
      → All (λ q. target q ≡ target r) rs
      → All (λ q. s.scheduled q ≡ true) rs
      → target r ≢ d
      → All (λ q. target q ≡ d) xs
      → Holds target owner up s d xs
      → Holds target owner up (start_enqueue target owner up r s).1 d xs
  enqueue-others r [] s d xs h aim ready ne there k =
      rw (enqueue_first target owner up r s h.last_is) (
        Holds-fields target owner up s _ d xs
          (resolve_next target owner up (owner r) (swung target owner up r s))
          (ap (λ f. f d) (resolve_last target owner up (owner r) (swung target owner up r s))
            ∙ update_ne s.last (target r) (some r) d ne)
          k)
  enqueue-others r (p ∷ rs) s d xs h aim ready ne there k =
      let prev = last_node p rs in
      let at_r = last_node-All target owner up (λ q. target q ≡ target r) p rs aim in
      rw
        (enqueue_behind target owner up r prev s h.last_is
          (last_node-All target owner up (λ q. s.scheduled q ≡ true) p rs ready))
        (record {
          linked =
              Linked-update_ne target owner up s.next prev (some (owner r)) xs
                (elsewhere target owner up prev d xs (λ e. ne (sym at_r ∙ e)) there) k.linked;
          last_is = update_ne s.last (target r) (some r) d ne ∙ k.last_is;
          distinct = k.distinct;
        })

  -- How an enqueue ends: at an idle cown the behaviour is resolved; else nothing is counted.
  abbrev pub Enqueued : ℕ → Chains → List ℕ → Done × Chains → Type 0
  Enqueued r s rs o =
      ((rs ≡ []) × (o ≡ resolve_one target owner up (owner r) (swung target owner up r s)))
      ⊎ ((rs ≢ []) × (o.0 ≡ success) × (o.1.count ≡ s.count) × (o.1.dispatched ≡ s.dispatched))

  enqueue-Enqueued :
      (r : ℕ) (rs : List ℕ) (s : Chains)
      → s.last (target r) ≡ newest target owner up rs
      → All (λ q. s.scheduled q ≡ true) rs
      → Enqueued r s rs (start_enqueue target owner up r s)
  enqueue-Enqueued r [] s h ready = inl (refl, enqueue_first target owner up r s h)
  enqueue-Enqueued r (p ∷ rs) s h ready =
      rw
        (enqueue_behind target owner up r (last_node p rs) s h
          (last_node-All target owner up (λ q. s.scheduled q ≡ true) p rs ready))
        (inr (λ e. ground arith, refl, refl, refl))

  -- If every cown `c` has the requests `chains c`, and those of the cown of `r` have finished their
  -- second phase, then a new request `r` joins the chain of its cown as the last, and no other chain
  -- changes; the behaviour that owns `r` is resolved at once just when its cown had no request.
  pub enqueue_lem :
      (s : Chains) (chains : ℕ → List ℕ) (r : ℕ)
      → Valid target owner up s chains
      → NotIn r (chains (target r))
      → s.next r ≡ none
      → All (λ q. s.scheduled q ≡ true) (chains (target r))
      → let o = start_enqueue target owner up r s in
        Valid target owner up o.1 (update chains (target r) (chains (target r) ++ (r ∷ [])))
        × Enqueued r s (chains (target r)) o
  enqueue_lem s chains r v out fresh ready =
      let c = target r in
      (
        update-Valid s (start_enqueue target owner up r s).1 chains c (chains c ++ (r ∷ [])) v
            (enqueue-Holds r (chains c) s (v.holds c) out fresh ready)
            (All-snoc target owner up (λ q. target q ≡ c) (chains c) r (v.aimed c) refl)
            (λ d ne.
              enqueue-others r (chains c) s d (chains d) (v.holds c) (v.aimed c) ready ne
                (v.aimed d) (v.holds d)),
        enqueue-Enqueued r (chains c) s (v.holds c).last_is ready,
      )
