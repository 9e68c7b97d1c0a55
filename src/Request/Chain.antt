-- ===== src/Request/Chain.antt =====
-- The chain of one cown's requests, and what `request_start_enqueue_inner` and
-- `request_release_inner` of _core.c do to it.
use bocpy.Base.{
  ℕ, ◌≡◌, Bool, Option, none, some, List, [], ◌∷◌, ◌++◌, update, update_self, update_ne, NotIn,
  IsDistinct, All, refl, sym,
}
use bocpy.Bq.Chain.{last_node, ne-last_node}
use bocpy.Request.{Chains}

module _ (target owner : ℕ → ℕ) (up : Bool) where
  -- Each request's `next` is the behaviour that owns the request behind it.
  abbrev pub Linked : (ℕ → Option ℕ) → List ℕ → Type 0
  Linked next [] = Unit
  Linked next (r ∷ []) = next r ≡ none
  Linked next (r ∷ q ∷ rs) = (next r ≡ some (owner q)) × Linked next (q ∷ rs)

  abbrev pub newest : List ℕ → Option ℕ
  newest [] = none
  newest (r ∷ rs) = some (last_node r rs)

  -- The cown `c` has the requests `rs`, oldest first.
  pub record Holds (s : Chains) (c : ℕ) (rs : List ℕ) : Type 0 where
    pub linked : Linked s.next rs
    pub last_is : s.last c ≡ newest rs
    pub distinct : IsDistinct rs

  pub Linked-update_ne :
      (next : ℕ → Option ℕ) (k : ℕ) (v : Option ℕ) (rs : List ℕ)
      → NotIn k rs
      → Linked next rs
      → Linked (update next k v) rs
  Linked-update_ne next k v [] out h = tt
  Linked-update_ne next k v (r ∷ []) out h = rw (update_ne next k v r out.0) h
  Linked-update_ne next k v (r ∷ q ∷ rs) out h =
      (rw (update_ne next k v r out.0) h.0, Linked-update_ne next k v (q ∷ rs) out.1 h.1)

  -- The new request is linked behind the last one.
  pub Linked-append :
      (next : ℕ → Option ℕ) (r : ℕ) (rs : List ℕ) (q : ℕ)
      → IsDistinct (r ∷ rs)
      → NotIn q (r ∷ rs)
      → next q ≡ none
      → Linked next (r ∷ rs)
      → Linked (update next (last_node r rs) (some (owner q))) (r ∷ (rs ++ (q ∷ [])))
  Linked-append next r [] q d out e h = (
    update_self next r (some (owner q)),
    rw (update_ne next r (some (owner q)) q (λ x. out.0 (sym x))) e,
  )
  Linked-append next r (p ∷ rs) q d out e h = (
    rw (update_ne next (last_node p rs) (some (owner q)) r (λ x. ne-last_node r p rs d.0 (sym x)))
        h.0,
    Linked-append next p rs q d.1 out.1 e h.1,
  )

  pub last_node-snoc : (r : ℕ) (rs : List ℕ) (q : ℕ) → last_node r (rs ++ (q ∷ [])) ≡ q
  last_node-snoc r [] q = refl
  last_node-snoc r (p ∷ rs) q = last_node-snoc p rs q

  pub last_node-All : (P : ℕ → Type 0) (r : ℕ) (rs : List ℕ) → All P (r ∷ rs) → P (last_node r rs)
  last_node-All P r [] h = h.0
  last_node-All P r (q ∷ rs) h = last_node-All P q rs h.1
