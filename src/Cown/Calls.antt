-- ===== src/Cown/Calls.antt =====
-- The cown's operations in _core.c, one function per C function; each runs on an interpreter. The
-- compare-exchanges of `cown_release` and `cown_disown` find the owner that was just read: only the
-- owner changes it.
use bocpy.Base.{ℕ, ◌+◌, ◌==◌, if◌then◌else◌, Bool, false, Option, none, some, [], ◌∷◌}
use bocpy.Cown.{
  Host, Interp, Cown, CownError, Outcome, not_main, permanently_unavailable, not_deserialised,
  not_registered, acquired_by, xidata_to_object, object_to_xidata,
}

abbrev pub owned_by : Option ℕ → ℕ → Bool
owned_by none i = false
owned_by (some o) i = o == i

module _ {Object Data : Type 0} where
  abbrev pub failing : CownError → Cown Object Data → Outcome Object Data
  failing e c = record { error = some e; cown = c; recycled = [] }

  abbrev pub done : Cown Object Data → Outcome Object Data
  done c = record { error = none; cown = c; recycled = [] }

  -- `Py_NewRef` and `Py_XSETREF` count references of Python, which are not modelled.
  unfoldable pub cown_set_value : Cown Object Data → Option Object → Cown Object Data
  cown_set_value c v = record c { value = v; exception = false }

  unfoldable pub new : (id : ℕ) → Object → Interp → Cown Object Data
  unfolding cown_set_value
  new id v me =
      let c : Cown Object Data = record {
        id = id;
        value = none;
        pickled = false;
        exception = false;
        is_pinned = false;
        xidata = none;
        recycle_queue = none;
        owner = none;
        rc = 1;
        weak_rc = 1;
      } in
      record (cown_set_value c (some v)) { owner = some me.interpid }

  unfoldable pub cown_check_acquired : Interp → Cown Object Data → Bool
  cown_check_acquired me c = owned_by c.owner me.interpid

  -- `CownCapsule_get` and `CownCapsule_get_value`; `none` is the error.
  unfoldable pub get : Interp → Cown Object Data → Option (Option Object)
  unfolding cown_check_acquired
  get me c = if cown_check_acquired me c then some c.value else none

  -- `CownCapsule_set` and `CownCapsule_set_value`, of an object.
  unfoldable pub set : Interp → Object → Cown Object Data → Option (Cown Object Data)
  unfolding cown_check_acquired cown_set_value
  set me v c = if cown_check_acquired me c then some (cown_set_value c (some v)) else none

  -- `BOCRecycleQueue_enqueue`, then the cown without its block.
  abbrev pub recycling : Option CownError → Data → Cown Object Data → Outcome Object Data
  recycling e d c = record {
    error = e;
    cown = record c { recycle_queue = none; xidata = none };
    recycled = (c.recycle_queue, d) ∷ [];
  }

module _ {Object Data : Type 0} (host : Host Object Data) where
  -- What follows the compare-exchange of `cown_acquire`, with the owner set.
  unfoldable pub take_value : Interp → Cown Object Data → Outcome Object Data
  unfolding xidata_to_object
  take_value me c = elim c.xidata [
    | none ↦ failing permanently_unavailable (record c { owner = none })
    | some d ↦ elim (xidata_to_object host d c.pickled) [
      | none ↦ recycling (some not_deserialised) d (record c { value = none; owner = none })
      | some v ↦ recycling none d (record c { value = some v })
    ]
  ]

  unfoldable pub cown_acquire : Interp → Cown Object Data → Outcome Object Data
  unfolding take_value
  cown_acquire me c =
      if c.is_pinned
      then if me.interpid == me.main_interpid then done c else failing not_main c
      else elim c.owner [
        | some o ↦ if o == me.interpid then done c else failing (acquired_by (some o)) c
        | none ↦ take_value me (record c { owner = some me.interpid })
      ]

  -- What follows the test of the owner in `cown_release`, for the value `v`.
  unfoldable pub give_value : Interp → Object → Cown Object Data → Outcome Object Data
  unfolding object_to_xidata
  give_value me v c =
      let s = object_to_xidata host v c.xidata in
      elim s.result [
        | none ↦ failing s.why (record c { xidata = none })
        | some pickled ↦
            let registered = record c {
              xidata = s.xidata;
              recycle_queue = some me.recycle_queue;
            } in
            if me.accepts
            then done (record registered {
              weak_rc = c.weak_rc + 1;
              pickled = pickled;
              value = none;
              owner = none;
            })
            else failing not_registered registered
      ]

  -- The assertion `value != NULL` holds of every valid cown that has an owner.
  unfoldable pub cown_release : Interp → Cown Object Data → Outcome Object Data
  unfolding give_value
  cown_release me c =
      if c.is_pinned
      then if me.interpid == me.main_interpid then done c else failing not_main c
      else elim c.owner [
        | none ↦ done c
        | some o ↦
            if o == me.interpid
            then elim c.value [ none ↦ done c | some v ↦ give_value me v c ]
            else failing (acquired_by (some o)) c
      ]

  unfoldable pub cown_disown : Interp → Cown Object Data → Outcome Object Data
  cown_disown me c =
      if c.is_pinned
      then done c
      else if owned_by c.owner me.interpid
      then done (record c { value = none; owner = none })
      else failing (acquired_by c.owner) c
