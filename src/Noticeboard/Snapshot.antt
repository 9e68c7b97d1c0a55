-- ===== src/Noticeboard/Snapshot.antt =====
-- `noticeboard_snapshot` of boc_noticeboard.c, and the cache of snapshots that every thread has. What
-- Python does is a parameter; references on cowns are counted by the lists of increfs and decrefs.
pub mod Laws
pub mod Collected
pub mod Contents
use bocpy.Base.{
  ℕ, ◌==◌, if◌then◌else◌, Bool, true, false, not, ◌&&◌, Option, none, some, List, [], ◌∷◌, ◌++◌,
  Bytes,
}
use bocpy.Noticeboard.{NoticeboardEntry, Noticeboard, pins_of}

-- Python's operations on the objects and the dict of a snapshot; `none` and `false` are failures.
pub record Python (Obj Dict : Type 0) : Type 0 where
  pub new_object : ℕ → Option Obj  -- XIDATA_NEWOBJECT
  pub new_dict : Option Dict  -- PyDict_New
  pub new_key : Bytes → Bool  -- PyUnicode_FromString
  pub set_item : Dict → Bytes → Obj → Option Dict  -- PyDict_SetItem
  pub loads : Obj → Option Obj
  pub new_pins : List ℕ → Bool  -- PyMem_RawMalloc
  pub new_proxy : Dict → Bool  -- PyDictProxy_New

-- An entry whose value is still bytes to load, with the cowns pinned for that time.
pub record Deferred (Obj : Type 0) : Type 0 where
  pub key : Bytes
  pub raw : Obj
  pub pins : List ℕ

abbrev pub all_pins : {Obj : Type 0} → List (Deferred Obj) → List ℕ
all_pins [] = []
all_pins (d ∷ ds) = d.pins ++ all_pins ds

-- The thread's NB_SNAPSHOT_PROXY, NB_SNAPSHOT_VERSION (`none` for -1) and NB_VERSION_CHECKED.
pub record Cache (Dict : Type 0) : Type 0 where
  pub proxy : Option Dict
  pub version : Option ℕ
  pub checked : Bool

abbrev pub no_cache : {Dict : Type 0} → Cache Dict
no_cache = record { proxy = none; version = none; checked = false }

abbrev pub cache_clear_for_behavior : {Dict : Type 0} → Cache Dict → Cache Dict
cache_clear_for_behavior c = record c { checked = false }

-- The proxy returned, the cache after the call, and the cowns incref'd and decref'd.
pub record Seen (Dict : Type 0) : Type 0 where
  pub result : Option Dict
  pub cache : Cache Dict
  pub increfs : List ℕ
  pub decrefs : List ℕ

module _ {Obj Dict : Type 0} (p : Python Obj Dict) where
  -- Room for the pins of an entry, which is asked for only if it has some.
  abbrev pub has_pins : List ℕ → Bool
  has_pins [] = true
  has_pins (x ∷ xs) = p.new_pins (x ∷ xs)

  -- The loop over the entries under the mutex: whether it came to the end, the dict, and the entries
  -- to load.
  unfoldable pub collect_entries :
      List NoticeboardEntry → Dict → List (Deferred Obj) → Bool × (Dict × List (Deferred Obj))
  collect_entries [] dict ds = (true, (dict, ds))
  collect_entries (e ∷ es) dict ds = elim e.value [
    | none ↦ collect_entries es dict ds
    | some v ↦ elim (p.new_object v) [
      | none ↦ (false, (dict, ds))
      | some raw ↦
          if not (p.new_key e.key)
          then (false, (dict, ds))
          else if not e.pickled
          then elim (p.set_item dict e.key raw) [
            | none ↦ (false, (dict, ds))
            | some d ↦ collect_entries es d ds
          ]
          else if has_pins (pins_of e.pinned_cowns)
          then collect_entries es dict
              (ds ++ (record { key = e.key; raw = raw; pins = pins_of e.pinned_cowns } ∷ []))
          else (false, (dict, ds))
    ]
  ]

  -- The loop over the deferred entries, and the cowns it decrefs.
  unfoldable pub load_deferred : List (Deferred Obj) → Dict → Option Dict × List ℕ
  load_deferred [] dict = (some dict, [])
  load_deferred (d ∷ ds) dict = elim (p.loads d.raw) [
    | none ↦ (none, all_pins (d ∷ ds))
    | some value ↦ elim (p.set_item dict d.key value) [
      | none ↦ (none, all_pins (d ∷ ds))
      | some dict' ↦ let (r, dropped) = load_deferred ds dict' in (r, d.pins ++ dropped)
    ]
  ]

  -- After the mutex is free again; `version` is `built_version`, and `c` the cache, which stays if the
  -- build fails.
  unfoldable pub finish_snapshot :
      Cache Dict → (version : ℕ) → Bool × (Dict × List (Deferred Obj)) → Seen Dict
  unfolding load_deferred
  finish_snapshot c version (false, (dict, ds)) = record {
    result = none;
    cache = c;
    increfs = all_pins ds;
    decrefs = all_pins ds;
  }
  finish_snapshot c version (true, (dict, ds)) =
      let (r, dropped) = load_deferred ds dict in
      elim r [
        | none ↦ record { result = none; cache = c; increfs = all_pins ds; decrefs = dropped }
        | some d ↦
            if p.new_proxy d
            then record {
              result = some d;
              cache = record { proxy = some d; version = some version; checked = true };
              increfs = all_pins ds;
              decrefs = dropped;
            }
            else record { result = none; cache = c; increfs = all_pins ds; decrefs = dropped }
      ]

  unfoldable pub build_snapshot : Noticeboard → Cache Dict → Seen Dict
  unfolding collect_entries finish_snapshot
  build_snapshot nb c = elim p.new_dict [
    | none ↦ record { result = none; cache = c; increfs = []; decrefs = [] }
    | some dict ↦ finish_snapshot c nb.version (collect_entries nb.entries dict [])
  ]

  unfoldable pub noticeboard_snapshot : Noticeboard → Cache Dict → Seen Dict
  unfolding build_snapshot
  noticeboard_snapshot nb c = elim c.proxy [
    | none ↦ build_snapshot nb c
    | some d ↦
        if c.checked
        then record { result = some d; cache = c; increfs = []; decrefs = [] }
        else elim c.version [
          | none ↦ build_snapshot nb no_cache
          | some version ↦
              if nb.version == version
              then record {
                result = some d;
                cache = record c { checked = true };
                increfs = [];
                decrefs = [];
              }
              else build_snapshot nb no_cache
        ]
  ]
