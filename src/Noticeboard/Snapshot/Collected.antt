-- ===== src/Noticeboard/Snapshot/Collected.antt =====
-- The loop of noticeboard_snapshot over the entries of the board (boc_noticeboard.c).
use bocpy.Base.{
  ℕ, ◌≡◌, inl, inr, if◌then◌else◌, Bool, true, false, Option, none, some, List, [], ◌∷◌, ◌++◌,
  Bytes, bytes_eq, bytes_eq_sound, refl, ap, ◌∙◌, arith, Bool-cases, Option-cases,
}
use bocpy.Noticeboard.{NoticeboardEntry, pins_of}
use bocpy.Noticeboard.Entries.{entry_of, IsKeyed}
use bocpy.Noticeboard.Snapshot.{Python, Deferred, has_pins, collect_entries}

-- What Python documents of dicts: a new one is empty, and an item that is set replaces that of its key.
pub record IsDict {Obj Dict : Type 0} (p : Python Obj Dict) (get : Dict → Bytes → Option Obj)
    : Type 0 where
  pub new_empty : (d : Dict) (k : Bytes) → p.new_dict ≡ some d → get d k ≡ none
  pub item_set :
      (d d' : Dict) (k k' : Bytes) (v : Obj)
      → p.set_item d k v ≡ some d'
      → get d' k' ≡ (if bytes_eq k k' then some v else get d k')

module _ {Obj Dict : Type 0} (p : Python Obj Dict) (get : Dict → Bytes → Option Obj)
    (laws : IsDict p get) (key : Bytes) where
  -- The object that an entry stands for.
  abbrev pub value_of : NoticeboardEntry → Option Obj
  value_of e = elim e.value [
    | none ↦ none
    | some v ↦ elim (p.new_object v) [
      | none ↦ none
      | some raw ↦ if e.pickled then p.loads raw else some raw
    ]
  ]

  abbrev pub value_at : Option NoticeboardEntry → Option Obj
  value_at none = none
  value_at (some e) = value_of e

  -- What the key has once the deferred entries are loaded, from what it has before.
  abbrev pub over : List (Deferred Obj) → Option Obj → Option Obj
  over [] b = b
  over (d ∷ ds) b = over ds (if bytes_eq d.key key then p.loads d.raw else b)

  over-snoc :
      (ds : List (Deferred Obj)) (d : Deferred Obj) (b : Option Obj)
      → over (ds ++ (d ∷ [])) b ≡ (if bytes_eq d.key key then p.loads d.raw else over ds b)
  over-snoc [] d b = refl
  over-snoc (x ∷ ds) d b = over-snoc ds d (if bytes_eq x.key key then p.loads x.raw else b)

  -- A run of the loop over `es`, in which the key goes from `b` to `r` if the entries deferred before act as `f`.
  abbrev pub After :
      List NoticeboardEntry → (Option Obj → Option Obj) → Option Obj → Option Obj → Type 0
  After es f b r =
      (entry_of es key ≡ none → r ≡ f b)
      × ((e : NoticeboardEntry)
          → entry_of es key ≡ some e
          → ((x : Option Obj) → f x ≡ x)
          → b ≡ none
          → r ≡ value_of e)

  -- One entry before the others, which turns `f` and `b` into `f'` and `b'`.
  After-entry :
      (e : NoticeboardEntry) (es : List NoticeboardEntry) (f f' : Option Obj → Option Obj)
      (b b' r : Option Obj)
      → entry_of es e.key ≡ none
      → (bytes_eq e.key key ≡ true → ((x : Option Obj) → f x ≡ x) → b ≡ none → f' b' ≡ value_of e)
      → (bytes_eq e.key key ≡ false
          → (f' b' ≡ f b)
            × ((((x : Option Obj) → f x ≡ x) → (x : Option Obj) → f' x ≡ x)
                × (b ≡ none → b' ≡ none)))
      → After es f' b' r
      → After (e ∷ es) f b r
  After-entry e es f f' b b' r once here there (absent, present) =
      elim (Bool-cases (bytes_eq e.key key)) [
        | inl h ↦
            let gone : entry_of es key ≡ none = rw (← bytes_eq_sound e.key key h) once in
            rw (h) (
              λ g. ground (arith, g),
              λ e' g plain fresh. absent gone ∙ here h plain fresh ∙ ap value_at g,
            )
        | inr h ↦
            let (same, (acts, empty)) = there h in
            rw (h)
              (λ g. absent g ∙ same, λ e' g plain fresh. present e' g (acts plain) (empty fresh))
      ]

  abbrev pub Collected :
      List NoticeboardEntry
      → Dict
      → List (Deferred Obj)
      → Bool × (Dict × List (Deferred Obj))
      → Type 0
  Collected es dict ds (false, o) = Unit
  Collected es dict ds (true, (dict', ds')) =
      After es (λ b. over ds b) (get dict key) (over ds' (get dict' key))

  entry-Collected :
      (e : NoticeboardEntry) (es : List NoticeboardEntry) (dict dict' : Dict)
      (ds ds' : List (Deferred Obj)) (o : Bool × (Dict × List (Deferred Obj)))
      → entry_of es e.key ≡ none
      → (bytes_eq e.key key ≡ true
          → ((x : Option Obj) → over ds x ≡ x)
          → get dict key ≡ none
          → over ds' (get dict' key) ≡ value_of e)
      → (bytes_eq e.key key ≡ false
          → (over ds' (get dict' key) ≡ over ds (get dict key))
            × ((((x : Option Obj) → over ds x ≡ x) → (x : Option Obj) → over ds' x ≡ x)
                × (get dict key ≡ none → get dict' key ≡ none)))
      → Collected es dict' ds' o
      → Collected (e ∷ es) dict ds o
  entry-Collected e es dict dict' ds ds' (false, x) once here there c = tt
  entry-Collected e es dict dict' ds ds' (true, (last, rest)) once here there c =
      After-entry e es (λ b. over ds b) (λ b. over ds' b) (get dict key) (get dict' key)
        (over rest (get last key)) once here there c

  abbrev entry : Bytes → Option ℕ → Bool → Option (List ℕ) → NoticeboardEntry
  entry k value pickled pinned = record {
    key = k;
    value = value;
    pickled = pickled;
    pinned_cowns = pinned;
  }

  -- The loop at one entry, by its value and whether that is pickled.
  step-Collected :
      (k : Bytes) (value : Option ℕ) (pickled : Bool) (pinned : Option (List ℕ))
      (es : List NoticeboardEntry) (dict : Dict) (ds : List (Deferred Obj))
      → entry_of es k ≡ none
      → ((d : Dict) (later : List (Deferred Obj))
          → Collected es d later (collect_entries p es d later))
      → Collected
          (entry k value pickled pinned ∷ es)
          dict
          ds
          (collect_entries p (entry k value pickled pinned ∷ es) dict ds)
  unfolding collect_entries
  step-Collected k none pickled pinned es dict ds once go =
      entry-Collected (entry k none pickled pinned) es dict dict ds ds
        (collect_entries p es dict ds) once (λ h plain fresh. plain (get dict key) ∙ fresh)
        (λ h. (refl, (λ plain. plain, λ fresh. fresh))) (go dict ds)
  step-Collected k (some v) pickled pinned es dict ds once go =
      elim (Option-cases (p.new_object v)) [
        | inl failed ↦ rw (collect_entries, failed) tt
        | inr (raw, made) ↦ elim (Bool-cases (p.new_key k)) [
          | inr failed ↦ rw (collect_entries, made, failed) tt
          | inl has_key ↦ with_object pickled raw made has_key
        ]
      ]
    where
      with_object :
          (pickled : Bool) (raw : Obj)
          → p.new_object v ≡ some raw
          → p.new_key k ≡ true
          → Collected
              (entry k (some v) pickled pinned ∷ es)
              dict
              ds
              (collect_entries p (entry k (some v) pickled pinned ∷ es) dict ds)
      with_object false raw made has_key = elim (Option-cases (p.set_item dict k raw)) [
        | inl failed ↦ rw (collect_entries, made, has_key, failed) tt
        | inr (d, set_to) ↦
            let item = laws.item_set dict d k key raw set_to in
            rw (collect_entries, made, has_key, set_to)
              (entry-Collected (entry k (some v) false pinned) es dict d ds ds
                (collect_entries p es d ds) once
                (λ h plain fresh. plain (get d key) ∙ item ∙ rw (h, made) refl)
                (λ h.
                  let same : get d key ≡ get dict key = item ∙ rw (h) refl in
                  (ap (λ b. over ds b) same, (λ plain. plain, λ fresh. same ∙ fresh)))
                (go d ds))
      ]
      with_object true raw made has_key =
          let ps = pins_of pinned in
          let x : Deferred Obj = record { key = k; raw = raw; pins = ps } in
          elim (Bool-cases (has_pins p ps)) [
            | inr failed ↦ rw (collect_entries, made, has_key, failed) tt
            | inl room ↦
                rw (collect_entries, made, has_key, room)
                  (entry-Collected (entry k (some v) true pinned) es dict dict ds (ds ++ (x ∷ []))
                    (collect_entries p es dict (ds ++ (x ∷ []))) once
                    (λ h plain fresh. over-snoc ds x (get dict key) ∙ rw (h, made) refl)
                    (λ h. (
                      over-snoc ds x (get dict key) ∙ rw (h) refl,
                      (λ plain y. over-snoc ds x y ∙ rw (h) (plain y), λ fresh. fresh),
                    ))
                    (go dict (ds ++ (x ∷ []))))
          ]

  pub collect-Collected :
      (es : List NoticeboardEntry) (dict : Dict) (ds : List (Deferred Obj))
      → IsKeyed es
      → Collected es dict ds (collect_entries p es dict ds)
  unfolding collect_entries
  collect-Collected [] dict ds k = (λ g. refl, λ e g plain fresh. ground (arith, g))
  collect-Collected (e ∷ es) dict ds (short, once, k) =
      step-Collected e.key e.value e.pickled e.pinned_cowns es dict ds once
        (λ d later. collect-Collected es d later k)
