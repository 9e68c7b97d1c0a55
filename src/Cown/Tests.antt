-- ===== src/Cown/Tests.antt =====
-- A host whose numbers have to be pickled, and the cown's properties there.
use bocpy.Base.{contains, ℕ, ◌≡◌, ◌⊎◌, refl, sym, true, false, Option, none, some, [], ◌∷◌, arith}
use bocpy.Cown.{Host, Interp, Cown, not_deserialised, permanently_unavailable, convert}
use bocpy.Cown.Calls.{new, cown_acquire, cown_release}
use bocpy.Cown.Invariant.{
  IsValid, new-IsValid, release-IsValid, perform_all, perform_all-IsValid, main_of, acquire,
  release, disown,
}
use bocpy.Cown.Transfer.{RoundTrips, acquire_failed, release-acquire}
use bocpy.Cown.Vars.{BehaviorVars, behavior_acquire, behavior_release}
use bocpy.Cown.Behavior.{vars_of, TakenBy, GivenUp, behavior_acquire_lem, behavior_release_lem}

data Thing : Type 0 where
  number bytes : ℕ → Thing
  nothing broken : Thing

converts : Thing → Option Thing
converts (number n) = none
converts (bytes n) = some (bytes n)
converts nothing = some nothing
converts broken = some broken

reads : Thing → Option Thing
reads (number n) = some (number n)
reads (bytes n) = some (bytes n)
reads nothing = some nothing
reads broken = none

dumps : Thing → Option Thing
dumps (number n) = some (bytes n)
dumps (bytes n) = none
dumps nothing = none
dumps broken = none

loads : Thing → Option Thing
loads (number n) = none
loads (bytes n) = some (number n)
loads nothing = none
loads broken = none

abbrev host : Host Thing Thing
host = record {
  blank = nothing;
  allocates = true;
  get_xidata = converts;
  new_object = λ d. some d;
  dumps = dumps;
  loads = loads;
  none_object = nothing;
}

-- A host that cannot read a block back.
abbrev broken_host : Host Thing Thing
broken_host = record host { new_object = λ d. none }

host-reads_back : (v d : Thing) → converts v ≡ some d → some d ≡ some v
unfolding converts
host-reads_back (number n) d e = ground arith
host-reads_back (bytes n) d e = sym e
host-reads_back nothing d e = sym e
host-reads_back broken d e = sym e

host-unpickles : (v b : Thing) → dumps v ≡ some b → loads b ≡ some v
unfolding dumps loads
host-unpickles (number n) b e = ground arith
host-unpickles (bytes n) b e = ground arith
host-unpickles nothing b e = ground arith
host-unpickles broken b e = ground arith

host-RoundTrips : RoundTrips host
host-RoundTrips = record { reads_back = host-reads_back; unpickles = host-unpickles }

abbrev main : Interp
main = record { interpid = 0; main_interpid = 0; recycle_queue = 0; accepts = true }

abbrev worker : Interp
worker = record { interpid = 3; main_interpid = 0; recycle_queue = 3; accepts = true }

abbrev start : Cown Thing Thing
start = new 0 (number 5) main

start-IsValid : IsValid 0 start
start-IsValid = new-IsValid 0 (number 5) main

perform_all-IsValid_example :
    IsValid 0
      (perform_all host (release main ∷ acquire worker ∷ acquire main ∷ disown worker ∷ []) start)
unfolding main_of
perform_all-IsValid_example =
    perform_all-IsValid host 0 (release main ∷ acquire worker ∷ acquire main ∷ disown worker ∷ [])
      start (refl, (refl, (refl, (refl, tt)))) start-IsValid

release-acquire_example :
    let released = (cown_release host main start).cown in
    let o = cown_acquire host worker released in
    (released.owner ≡ none)
    × ((released.value ≡ none)
        × ((o.error ≡ none)
            × ((o.cown.owner ≡ some 3)
                × ((o.cown.value ≡ some (number 5))
                    × ((o.cown.exception ≡ start.exception)
                        × ((d : Thing) × ((released.xidata ≡ some d)
                              × (o.recycled ≡ (some 0, d) ∷ []))))))))
unfolding new cown_release dumps converts convert
release-acquire_example =
    release-acquire host host-RoundTrips main worker start (number 5) refl refl refl refl

abbrev released : Cown Thing Thing
released = (cown_release host main start).cown

acquire_failed_example :
    let after = (cown_acquire broken_host worker released).cown in
    (after.owner ≡ released.owner)
    × (after.value ≡ released.value)
    × ((after.xidata ≡ released.xidata)
        ⊎ ((not_deserialised ≡ not_deserialised)
            × ((cown_acquire broken_host main after).error ≡ some permanently_unavailable)))
unfolding new cown_release cown_acquire dumps converts convert
acquire_failed_example =
    acquire_failed broken_host worker main released not_deserialised
      (release-IsValid host main start start-IsValid) refl

abbrev vars : BehaviorVars
vars = record { result = 0; args = 1 ∷ 0 ∷ []; captures = 2 ∷ [] }

abbrev cowns : ℕ → Cown Thing Thing
cowns k = released

behavior_acquire_lem_example :
    let after = (behavior_acquire host worker vars cowns).cowns 1 in
    (((contains (vars_of vars) 1 ≡ true) × TakenBy host worker after)
      ⊎ ((contains (vars_of vars) 1 ≡ false) × (after ≡ cowns 1)))
    × IsValid 0 after
unfolding new cown_release cown_acquire dumps converts loads convert behavior_acquire
behavior_acquire_lem_example =
    behavior_acquire_lem host worker vars cowns (λ k. release-IsValid host main start start-IsValid)
      refl 1

behavior_release_lem_example :
    let after = (behavior_release host main vars (λ k. start)).cowns 2 in
    (((contains (vars_of vars) 2 ≡ true) × GivenUp host after)
      ⊎ ((contains (vars_of vars) 2 ≡ false) × (after ≡ start)))
    × IsValid 0 after
unfolding new cown_release dumps converts convert behavior_release
behavior_release_lem_example =
    behavior_release_lem host main vars (λ k. start) (λ k. start-IsValid) refl 2
