-- ===== src/Noticeboard/Snapshot/Laws.antt =====
-- What `noticeboard_snapshot` returns, and that it gives back the references it takes on cowns.
use bocpy.Base.{
  ℕ, ◌==◌, ◌≡◌, inl, inr, Bool, true, false, Option, none, some, List, [], ◌∷◌, ◌++◌, refl, ap,
  arith, Bool-cases, Option-cases,
}
use bocpy.Noticeboard.{Noticeboard}
use bocpy.Noticeboard.Snapshot.{
  Python, Deferred, all_pins, Cache, no_cache, Seen, collect_entries, load_deferred,
  finish_snapshot, build_snapshot, noticeboard_snapshot,
}

module _ {Obj Dict : Type 0} (p : Python Obj Dict) where
  load_deferred_pins :
      (ds : List (Deferred Obj)) (dict : Dict) → (load_deferred p ds dict).1 ≡ all_pins ds
  unfolding load_deferred
  load_deferred_pins [] dict = refl
  load_deferred_pins (d ∷ ds) dict = elim (Option-cases (p.loads d.raw)) [
    | inl e ↦ rw (load_deferred, e) refl
    | inr (value, e) ↦ elim (Option-cases (p.set_item dict d.key value)) [
      | inl f ↦ rw (load_deferred, e, f) refl
      | inr (dict', f) ↦
          rw (load_deferred, e, f) (ap (λ ps. d.pins ++ ps) (load_deferred_pins ds dict'))
    ]
  ]

  -- The call drops the references that it took.
  abbrev pub Balanced : Seen Dict → Type 0
  Balanced o = o.decrefs ≡ o.increfs

  finish-Balanced :
      (c : Cache Dict) (version : ℕ) (o : Bool × (Dict × List (Deferred Obj)))
      → Balanced (finish_snapshot p c version o)
  unfolding finish_snapshot
  finish-Balanced c version (false, (dict, ds)) = refl
  finish-Balanced c version (true, (dict, ds)) = elim (Option-cases (load_deferred p ds dict).0) [
    | inl e ↦ rw (finish_snapshot, e) (load_deferred_pins ds dict)
    | inr (d, e) ↦ elim (Bool-cases (p.new_proxy d)) [
      | inl f ↦ rw (finish_snapshot, e, f) (load_deferred_pins ds dict)
      | inr f ↦ rw (finish_snapshot, e, f) (load_deferred_pins ds dict)
    ]
  ]

  build-Balanced : (nb : Noticeboard) (c : Cache Dict) → Balanced (build_snapshot p nb c)
  unfolding build_snapshot
  build-Balanced nb c = elim (Option-cases p.new_dict) [
    | inl e ↦ rw (build_snapshot, e) refl
    | inr (dict, e) ↦
        rw (build_snapshot, e) (finish-Balanced c nb.version (collect_entries p nb.entries dict []))
  ]

  abbrev cached : Option Dict → Option ℕ → Bool → Cache Dict
  cached proxy version checked = record { proxy = proxy; version = version; checked = checked }

  cached-Balanced :
      (nb : Noticeboard) (proxy : Option Dict) (version : Option ℕ) (checked : Bool)
      → Balanced (noticeboard_snapshot p nb (cached proxy version checked))
  unfolding noticeboard_snapshot
  cached-Balanced nb none version checked = build-Balanced nb (cached none version checked)
  cached-Balanced nb (some d) version true = refl
  cached-Balanced nb (some d) none false = build-Balanced nb no_cache
  cached-Balanced nb (some d) (some version) false = elim (Bool-cases (nb.version == version)) [
    | inl e ↦ rw (noticeboard_snapshot, e) refl
    | inr e ↦ rw (noticeboard_snapshot, e) (build-Balanced nb no_cache)
  ]

  -- `noticeboard_snapshot` decrefs exactly the cowns that it increfs, with their multiplicities, whether
  -- it returns the cached snapshot, builds one, or fails at any of its steps.
  pub snapshot-Balanced :
      (nb : Noticeboard) (c : Cache Dict) → Balanced (noticeboard_snapshot p nb c)
  snapshot-Balanced nb c = cached-Balanced nb c.proxy c.version c.checked

  -- What a call that returns a snapshot leaves in the cache.
  abbrev Kept : Seen Dict → Type 0
  Kept o = (d : Dict) → o.result ≡ some d → (o.cache.proxy ≡ some d) × (o.cache.checked ≡ true)

  finish-Kept :
      (c : Cache Dict) (version : ℕ) (o : Bool × (Dict × List (Deferred Obj)))
      → Kept (finish_snapshot p c version o)
  unfolding finish_snapshot
  finish-Kept c version (false, (dict, ds)) = λ d e. ground (arith, e)
  finish-Kept c version (true, (dict, ds)) = elim (Option-cases (load_deferred p ds dict).0) [
    | inl e ↦ rw (finish_snapshot, e) (λ d h. ground (arith, h))
    | inr (x, e) ↦ elim (Bool-cases (p.new_proxy x)) [
      | inl f ↦ rw (finish_snapshot, e, f) (λ d h. (h, refl))
      | inr f ↦ rw (finish_snapshot, e, f) (λ d h. ground (arith, h))
    ]
  ]

  build-Kept : (nb : Noticeboard) (c : Cache Dict) → Kept (build_snapshot p nb c)
  unfolding build_snapshot
  build-Kept nb c = elim (Option-cases p.new_dict) [
    | inl e ↦ rw (build_snapshot, e) (λ d h. ground (arith, h))
    | inr (dict, e) ↦
        rw (build_snapshot, e) (finish-Kept c nb.version (collect_entries p nb.entries dict []))
  ]

  cached-Kept :
      (nb : Noticeboard) (proxy : Option Dict) (version : Option ℕ) (checked : Bool)
      → Kept (noticeboard_snapshot p nb (cached proxy version checked))
  unfolding noticeboard_snapshot
  cached-Kept nb none version checked = build-Kept nb (cached none version checked)
  cached-Kept nb (some d) version true = λ x h. (h, refl)
  cached-Kept nb (some d) none false = build-Kept nb no_cache
  cached-Kept nb (some d) (some version) false = elim (Bool-cases (nb.version == version)) [
    | inl e ↦ rw (noticeboard_snapshot, e) (λ x h. (h, refl))
    | inr e ↦ rw (noticeboard_snapshot, e) (build-Kept nb no_cache)
  ]

  again :
      (nb : Noticeboard) (d : Dict) (proxy : Option Dict) (version : Option ℕ) (checked : Bool)
      → proxy ≡ some d
      → checked ≡ true
      → (noticeboard_snapshot p nb (cached proxy version checked)).result ≡ some d
  unfolding noticeboard_snapshot
  again nb d none version checked e f = ground (arith, e)
  again nb d (some x) version true e f = e
  again nb d (some x) version false e f = ground (arith, f)

  -- Once `noticeboard_snapshot` has returned a snapshot, every later call of the same behaviour returns
  -- that one, whatever happens to the board in between.
  pub snapshot_again :
      (nb nb' : Noticeboard) (c : Cache Dict) (d : Dict)
      → (noticeboard_snapshot p nb c).result ≡ some d
      → (noticeboard_snapshot p nb' (noticeboard_snapshot p nb c).cache).result ≡ some d
  snapshot_again nb nb' c d e =
      let o = noticeboard_snapshot p nb c in
      let (f, g) = cached-Kept nb c.proxy c.version c.checked d e in
      again nb' d o.cache.proxy o.cache.version o.cache.checked f g
