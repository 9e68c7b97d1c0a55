-- ===== src/Cown/Transfer.antt =====
-- What `cown_acquire` and `cown_release` of _core.c do with a cown's value: it passes from one
-- interpreter to another, and a failed call leaves the owner as it was.
use bocpy.Base.{
  ◌+◌, ◌≡◌, ◌⊎◌, inl, inr, refl, ◌∙◌, Bool, true, false, Option, none, some, [], ◌∷◌, arith,
  Option-cases, Bool-cases,
}
use bocpy.Cown.{
  Host, Interp, Cown, CownError, Serialised, permanently_unavailable, not_deserialised,
  xidata_to_object, object_to_xidata, convert,
}
use mathlib.Core.Path.{subst}
use bocpy.Cown.Calls.{take_value, cown_acquire, give_value, cown_release, done}
use bocpy.Cown.Invariant.{IsValid, is_some}

module _ {Object Data : Type 0} (host : Host Object Data) where
  -- The contract of Python's conversions: what reads back is what was converted.
  pub record RoundTrips : Type 0 where
    pub reads_back :
        (v : Object) (d : Data) → host.get_xidata v ≡ some d → host.new_object d ≡ some v
    pub unpickles : (v b : Object) → host.dumps v ≡ some b → host.loads b ≡ some v

  -- If the conversions round-trip, then what `object_to_xidata` leaves on success reads back.
  abbrev pub ReadsBack : Object → Bool → Serialised Data → Type 0
  ReadsBack v p s = (d : Data) × ((s.xidata ≡ some d) × (xidata_to_object host d p ≡ some v))

  plain_reads :
      RoundTrips
      → (v : Object) (d : Data) → host.get_xidata v ≡ some d
      → xidata_to_object host d false ≡ some v
  unfolding xidata_to_object
  plain_reads r v d e = ground (arith, r.reads_back v d e)

  pickled_reads :
      RoundTrips
      → (v b : Object) (d : Data) → host.dumps v ≡ some b
      → host.get_xidata b ≡ some d
      → xidata_to_object host d true ≡ some v
  unfolding xidata_to_object
  pickled_reads r v b d e k = ground (arith, r.reads_back b d k, r.unpickles v b e)

  convert-ReadsBack :
      RoundTrips
      → (v : Object) (p : Bool) → (convert host v).result ≡ some p
      → ReadsBack v p (convert host v)
  unfolding convert
  convert-ReadsBack r v p h = elim (Option-cases (host.get_xidata v)) [
    | inr (d, e) ↦ (d, (ground arith, ground (arith, plain_reads r v d e)))
    | inl e ↦ elim (Option-cases (host.dumps v)) [
      | inl n ↦ ground arith
      | inr (b, f) ↦ elim (Option-cases (host.get_xidata b)) [
        | inl n ↦ ground arith
        | inr (d, k) ↦ (d, (ground arith, ground (arith, pickled_reads r v b d f k)))
      ]
    ]
  ]

  converted :
      RoundTrips
      → (v : Object) (block : Option Data) (p : Bool)
      → (object_to_xidata host v block).result ≡ some p
      → ReadsBack v p (object_to_xidata host v block)
  unfolding object_to_xidata
  converted r v (some d) p h = convert-ReadsBack r v p h
  converted r v none p h = elim (Bool-cases host.allocates) [
    | inl e ↦ ground (arith, convert-ReadsBack r v p)
    | inr e ↦ ground arith
  ]

  -- A failed acquire leaves the owner and the value of a valid cown as they were. Its block stays
  -- too, unless it did not deserialise: then the block is gone, and whoever acquires later is told
  -- that the cown is permanently unavailable.
  pub acquire_failed :
      (me you : Interp) (c : Cown Object Data) (e : CownError)
      → IsValid me.main_interpid c
      → (cown_acquire host me c).error ≡ some e
      → let after = (cown_acquire host me c).cown in
        (after.owner ≡ c.owner)
        × (after.value ≡ c.value)
        × ((after.xidata ≡ c.xidata)
            ⊎ ((e ≡ not_deserialised)
                × ((cown_acquire host you after).error ≡ some permanently_unavailable)))
  unfolding cown_acquire take_value
  acquire_failed me you c e h f = (
    ground (arith, h.value_owned),
    ground (arith, h.value_owned),
    ground (arith, h.pinned_main, h.value_owned),
  )

  -- A successful acquire of a valid cown leaves the interpreter its owner, with a value.
  pub acquire_done :
      (me : Interp) (c : Cown Object Data)
      → IsValid me.main_interpid c
      → (cown_acquire host me c).error ≡ none
      → let after = (cown_acquire host me c).cown in
        (after.owner ≡ some me.interpid) × (is_some after.value ≡ true)
  unfolding cown_acquire take_value
  acquire_done me c h f =
      (ground (arith, h.value_owned, h.pinned_main), ground (arith, h.value_owned, h.pinned_main))

  -- The cown as `give_value` leaves it on success.
  abbrev given : Interp → Cown Object Data → Data → Bool → Cown Object Data
  given me c d p = record c {
    xidata = some d;
    recycle_queue = some me.recycle_queue;
    weak_rc = c.weak_rc + 1;
    pickled = p;
    value = none;
    owner = none;
  }

  given-acquired :
      (me you : Interp) (c : Cown Object Data) (d : Data) (p : Bool) (v : Object)
      → c.is_pinned ≡ false
      → xidata_to_object host d p ≡ some v
      → cown_acquire host you (given me c d p) ≡ record {
        error = none;
        cown = record (given me c d p) {
          xidata = none;
          recycle_queue = none;
          value = some v;
          owner = some you.interpid;
        };
        recycled = (some me.recycle_queue, d) ∷ [];
      }
  unfolding cown_acquire take_value
  given-acquired me you c d p v np e = ground arith

  give_value_accepts :
      (me : Interp) (c : Cown Object Data) (v : Object)
      → (give_value host me v c).error ≡ none
      → me.accepts ≡ true
  unfolding give_value
  give_value_accepts me c v h = ground arith

  give_value_result :
      (me : Interp) (c : Cown Object Data) (v : Object)
      → (give_value host me v c).error ≡ none
      → (p : Bool) × ((object_to_xidata host v c.xidata).result ≡ some p)
  unfolding give_value
  give_value_result me c v h = elim (Option-cases (object_to_xidata host v c.xidata).result) [
    | inl e ↦ ground arith
    | inr s ↦ s
  ]

  give_value-done :
      (me : Interp) (c : Cown Object Data) (v : Object) (d : Data) (p : Bool)
      → me.accepts ≡ true
      → (object_to_xidata host v c.xidata).result ≡ some p
      → (object_to_xidata host v c.xidata).xidata ≡ some d
      → give_value host me v c ≡ done (given me c d p)
  unfolding give_value
  give_value-done me c v d p opened e f = rw (give_value, e, opened, f) refl

  release_gives :
      (me : Interp) (c : Cown Object Data) (v : Object)
      → c.is_pinned ≡ false
      → c.owner ≡ some me.interpid
      → c.value ≡ some v
      → cown_release host me c ≡ give_value host me v c
  unfolding cown_release
  release_gives me c v np own val = ground arith

  -- The value moves: if the conversions round-trip and `me` releases, without an error, a cown that is
  -- not pinned and that it owns, then the cown has no owner and no value, and any interpreter `you`
  -- that acquires it next gets the value that was released and the exception flag that goes with it,
  -- and sends the block back to the queue of `me`.
  pub release-acquire :
      RoundTrips
      → (me you : Interp) (c : Cown Object Data) (v : Object) → c.is_pinned ≡ false
      → c.owner ≡ some me.interpid
      → c.value ≡ some v
      → (cown_release host me c).error ≡ none
      → let released = (cown_release host me c).cown in
        let o = cown_acquire host you released in
        (released.owner ≡ none)
        × ((released.value ≡ none)
            × ((o.error ≡ none)
                × ((o.cown.owner ≡ some you.interpid)
                    × ((o.cown.value ≡ some v)
                        × ((o.cown.exception ≡ c.exception)
                            × ((d : Data) × ((released.xidata ≡ some d)
                                  × (o.recycled ≡ (some me.recycle_queue, d) ∷ []))))))))
  release-acquire r me you c v np own val ok =
      let gives = release_gives me c v np own val in
      let fine = subst (λ o. o.error ≡ none) gives ok in
      let (p, result) = give_value_result me c v fine in
      let (d, (block, back)) = converted r v c.xidata p result in
      let opened = give_value_accepts me c v fine in
      let gave = give_value-done me c v d p opened result block in
      rw (gives ∙ gave, given-acquired me you c d p v np back)
        (refl, (refl, (refl, (refl, (refl, (refl, (d, (refl, refl))))))))
