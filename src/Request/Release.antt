-- ===== src/Request/Release.antt =====
-- `request_release_inner` of _core.c passes a cown to the next behaviour of its chain.
use bocpy.Base.{
  ℕ, ◌≡◌, ◌≢◌, Bool, none, List, [], ◌∷◌, update, update_self, update_ne, All, refl, ap,
}
use mathlib.Core.Path.{subst}
use bocpy.Request.{Chains, Done, success, resolve_one, release}
use bocpy.Request.Chain.{Holds}
use bocpy.Request.Handover.{
  Valid, resolve_last, resolve_next, Holds-fields, release_next, release_last,
}
use bocpy.Request.Fifo.{update-Valid}

module _ (target owner : ℕ → ℕ) (up : Bool) where
  -- How the release of a chain's first request ends, with `rs` behind it: the owner of the next
  -- request is resolved, or the cown is idle and nothing is counted.
  abbrev pub Released : Chains → List ℕ → Done × Chains → Type 0
  Released s [] o = (o.0 ≡ success) × (o.1.count ≡ s.count) × (o.1.dispatched ≡ s.dispatched)
  Released s (q ∷ rs) o = o ≡ resolve_one target owner up (owner q) s

  release-Holds :
      (r : ℕ) (rs : List ℕ) (s : Chains)
      → Holds target owner up s (target r) (r ∷ rs)
      → Holds target owner up (release target owner up r s).1 (target r) rs
        × Released s rs (release target owner up r s)
  release-Holds r [] s h = rw (release_last target owner up r s h.linked h.last_is) (
    record { linked = tt; last_is = update_self s.last (target r) none; distinct = tt },
    (refl, refl, refl),
  )
  release-Holds r (q ∷ rs) s h = rw (release_next target owner up r (owner q) s h.linked.0) (
    Holds-fields target owner up s _ (target r) (q ∷ rs) (resolve_next target owner up (owner q) s)
        (ap (λ f. f (target r)) (resolve_last target owner up (owner q) s))
        (record { linked = h.linked.1; last_is = h.last_is; distinct = h.distinct.1 }),
    refl,
  )

  release-others :
      (r : ℕ) (rs : List ℕ) (s : Chains) (d : ℕ) (xs : List ℕ)
      → Holds target owner up s (target r) (r ∷ rs)
      → target r ≢ d
      → Holds target owner up s d xs
      → Holds target owner up (release target owner up r s).1 d xs
  release-others r [] s d xs h ne k =
      rw (release_last target owner up r s h.linked h.last_is)
        (Holds-fields target owner up s _ d xs refl (update_ne s.last (target r) none d ne) k)
  release-others r (q ∷ rs) s d xs h ne k =
      rw (release_next target owner up r (owner q) s h.linked.0) (
        Holds-fields target owner up s _ d xs (resolve_next target owner up (owner q) s)
          (ap (λ f. f d) (resolve_last target owner up (owner q) s)) k)

  -- If every cown `c` has the requests `chains c`, and `r` is the first of its cown's, with `rs`
  -- behind it, then releasing `r` leaves its cown the requests `rs` and no other chain changed; it
  -- resolves the behaviour that owns the next request, and no other, or none if `rs` is empty.
  pub release_lem :
      (s : Chains) (chains : ℕ → List ℕ) (r : ℕ) (rs : List ℕ)
      → Valid target owner up s chains
      → chains (target r) ≡ r ∷ rs
      → let o = release target owner up r s in
        Valid target owner up o.1 (update chains (target r) rs) × Released s rs o
  release_lem s chains r rs v e =
      let h = subst (λ xs. Holds target owner up s (target r) xs) e (v.holds (target r)) in
      let a = subst (λ xs. All (λ q. target q ≡ target r) xs) e (v.aimed (target r)) in
      let (holds, released) = release-Holds r rs s h in
      (
        update-Valid target owner up s (release target owner up r s).1 chains (target r) rs v holds
            a.1 (λ d ne. release-others r rs s d (chains d) h ne (v.holds d)),
        released,
      )
