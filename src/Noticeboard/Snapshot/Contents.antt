-- ===== src/Noticeboard/Snapshot/Contents.antt =====
-- The dict that `noticeboard_snapshot` builds holds what the board does.
use bocpy.Base.{
  ℕ, ◌≡◌, inl, inr, Bool, true, false, Option, none, some, List, [], ◌∷◌, Bytes, refl, sym, ap, ◌∙◌,
  arith, Bool-cases, Option-cases,
}
use bocpy.Noticeboard.{NoticeboardEntry, Noticeboard}
use bocpy.Noticeboard.Entries.{entry_of, IsKeyed}
use bocpy.Noticeboard.Snapshot.{
  Python, Deferred, Cache, Seen, collect_entries, load_deferred, finish_snapshot, build_snapshot,
}
use bocpy.Noticeboard.Snapshot.Collected.{
  IsDict, value_at, over, After, Collected, collect-Collected,
}

module _ {Obj Dict : Type 0} (p : Python Obj Dict) (get : Dict → Bytes → Option Obj)
    (laws : IsDict p get) (key : Bytes) where
  load_deferred-over :
      (ds : List (Deferred Obj)) (dict : Dict) (d : Dict)
      → (load_deferred p ds dict).0 ≡ some d
      → get d key ≡ over p get laws key ds (get dict key)
  unfolding load_deferred
  load_deferred-over [] dict =
      λ d e. ap (λ o. elim o as (λ _. Option Obj) [ none ↦ none | some x ↦ get x key ]) (sym e)
  load_deferred-over (x ∷ ds) dict = elim (Option-cases (p.loads x.raw)) [
    | inl failed ↦ rw (load_deferred, failed) (λ d e. ground (arith, e))
    | inr (value, loaded) ↦ elim (Option-cases (p.set_item dict x.key value)) [
      | inl failed ↦ rw (load_deferred, loaded, failed) (λ d e. ground (arith, e))
      | inr (dict', set_to) ↦
          rw (load_deferred, loaded, set_to)
            (λ d e.
              load_deferred-over ds dict' d e
              ∙ ap (λ b. over p get laws key ds b)
                  (laws.item_set dict dict' x.key key value set_to))
    ]
  ]

  -- A snapshot that is returned has for the key what the board has.
  abbrev pub Shows : List NoticeboardEntry → Seen Dict → Type 0
  Shows es o =
      (d : Dict) → o.result ≡ some d → get d key ≡ value_at p get laws key (entry_of es key)

  built :
      (es : List NoticeboardEntry) (b r : Option Obj)
      → b ≡ none
      → After p get laws key es (λ x. x) b r
      → r ≡ value_at p get laws key (entry_of es key)
  built es b r empty (absent, present) = elim (Option-cases (entry_of es key)) [
    | inl g ↦ absent g ∙ empty ∙ sym (ap (value_at p get laws key) g)
    | inr (e, g) ↦ present e g (λ x. refl) empty ∙ sym (ap (value_at p get laws key) g)
  ]

  finish-Shows :
      (c : Cache Dict) (version : ℕ) (es : List NoticeboardEntry) (dict : Dict)
      (o : Bool × (Dict × List (Deferred Obj)))
      → get dict key ≡ none
      → Collected p get laws key es dict [] o
      → Shows es (finish_snapshot p c version o)
  unfolding finish_snapshot
  finish-Shows c version es dict (false, x) empty run = λ d e. ground (arith, e)
  finish-Shows c version es dict (true, (last, ds)) empty run =
      elim (Option-cases (load_deferred p ds last).0) [
        | inl e ↦ rw (finish_snapshot, e) (λ d h. ground (arith, h))
        | inr (x, e) ↦
            let shown =
              load_deferred-over ds last x e
              ∙ built es (get dict key) (over p get laws key ds (get last key)) empty run in
            elim (Bool-cases (p.new_proxy x)) [
              | inl f ↦
                  rw (finish_snapshot, e, f)
                    (λ d h.
                      ap (λ o. elim o as (λ _. Option Obj) [ none ↦ none | some y ↦ get y key ])
                        (sym h)
                      ∙ shown)
              | inr f ↦ rw (finish_snapshot, e, f) (λ d h. ground (arith, h))
            ]
      ]

  -- A snapshot that is built from a board whose keys differ, if Python's dicts do what they document,
  -- has for every key the object of the board's entry of that key, unpickled where it was pickled, and
  -- nothing for a key without an entry or a value.
  pub build_snapshot-Shows :
      (nb : Noticeboard) (c : Cache Dict)
      → IsKeyed nb.entries
      → Shows nb.entries (build_snapshot p nb c)
  unfolding build_snapshot
  build_snapshot-Shows nb c k = elim (Option-cases p.new_dict) [
    | inl e ↦ rw (build_snapshot, e) (λ d h. ground (arith, h))
    | inr (dict, e) ↦
        rw (build_snapshot, e)
          (finish-Shows c nb.version nb.entries dict (collect_entries p nb.entries dict [])
            (laws.new_empty dict key e) (collect-Collected p get laws key nb.entries dict [] k))
  ]
