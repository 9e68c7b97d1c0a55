-- ===== src/Cown/Unwrap.antt =====
-- `CownCapsule_unwrap` of _core.c: it reads a cown's value out, and leaves `None` in the cown.
use bocpy.Base.{ℕ, ◌≤◌, ◌≡◌, ◌⊎◌, refl, ◌∙◌, false, Option, none, some, arith, ltb, if◌then◌else◌}
use bocpy.Cown.{Host, Interp, Cown, CownError, in_flight}
use bocpy.Cown.Calls.{cown_acquire, cown_release, cown_set_value, take_value}
use bocpy.Cown.Invariant.{IsValid}
use bocpy.Cown.Transfer.{RoundTrips, acquire_done, release-acquire}

pub data Unwrapped (Object : Type 0) : Type 0 where
  returned raised : Option Object → Unwrapped Object
  refused : CownError → Unwrapped Object

pub record UnwrapOutcome (Object Data : Type 0) : Type 0 where
  pub answer : Unwrapped Object
  pub cown : Cown Object Data

module _ {Object Data : Type 0} (host : Host Object Data) where
  -- `count` and `seeded` are what `terminator_count` and `terminator_seeded` return.
  unfoldable pub unwrap : Interp → (count seeded : ℕ) → Cown Object Data → UnwrapOutcome Object Data
  unfolding cown_acquire cown_release cown_set_value
  unwrap me count seeded c =
      if ltb seeded count
      then record { answer = refused in_flight; cown = c }
      else let a = cown_acquire host me c in
        elim a.error [
          | some e ↦ record { answer = refused e; cown = a.cown }
          | none ↦
              let r = cown_release host me (cown_set_value a.cown (some host.none_object)) in
              elim r.error [
                | some e ↦ record { answer = refused e; cown = r.cown }
                | none ↦ record {
                  answer = if a.cown.exception then raised a.cown.value else returned a.cown.value;
                  cown = r.cown;
                }
              ]
        ]

  acquire_is_pinned :
      (me : Interp) (c : Cown Object Data) → (cown_acquire host me c).cown.is_pinned ≡ c.is_pinned
  unfolding cown_acquire take_value
  acquire_is_pinned me c = ground arith

  -- The cown that `unwrap` releases.
  abbrev emptied : Interp → Cown Object Data → Cown Object Data
  emptied me c = cown_set_value (cown_acquire host me c).cown (some host.none_object)

  abbrev pub Handed : Option Object → Unwrapped Object → Type 0
  Handed v u = (u ≡ returned v) ⊎ (u ≡ raised v)

  unwrap_calls :
      (me : Interp) (count seeded : ℕ) (c : Cown Object Data) (v : Option Object)
      → Handed v (unwrap me count seeded c).answer
      → ((cown_acquire host me c).error ≡ none)
        × (((cown_acquire host me c).cown.value ≡ v)
            × (((cown_release host me (emptied me c)).error ≡ none)
                × (((unwrap me count seeded c).cown ≡ (cown_release host me (emptied me c)).cown)
                    × (ltb seeded count ≡ false))))
  unfolding unwrap
  unwrap_calls me count seeded c v h =
      (ground arith, (ground arith, (ground arith, (ground arith, ground arith))))

  -- `unwrap` consumes the value: when it hands out `v` from a valid cown that is not pinned, no
  -- behaviour is in flight, `v` is the value that an acquire takes out of the cown, and the cown has
  -- no owner; and if the conversions round-trip, any interpreter `you` that acquires it next finds
  -- `None` there, and no exception.
  pub unwrap_lem :
      RoundTrips host
      → (me you : Interp) (count seeded : ℕ) (c : Cown Object Data) (v : Option Object)
      → IsValid me.main_interpid c
      → c.is_pinned ≡ false
      → Handed v (unwrap me count seeded c).answer
      → let after = (unwrap me count seeded c).cown in
        let o = cown_acquire host you after in
        (count ≤ seeded)
        × (((cown_acquire host me c).cown.value ≡ v)
            × ((after.owner ≡ none)
                × ((o.error ≡ none)
                    × ((o.cown.value ≡ some host.none_object) × (o.cown.exception ≡ false)))))
  unfolding cown_set_value
  unwrap_lem r me you count seeded c v h np handed =
      let (took, (gives, (gave, (same, quiet)))) = unwrap_calls me count seeded c v handed in
      let (unowned, (_, (fine, (_, (holds, (flag, _)))))) =
        release-acquire host r me you (emptied me c) host.none_object (acquire_is_pinned me c ∙ np)
          (acquire_done host me c h took).0 refl gave in
      rw same (ground arith, (gives, (unowned, (fine, (holds, flag)))))
