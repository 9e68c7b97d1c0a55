-- ===== src/Cown/Behavior.antt =====
-- What `behavior_acquire_impl` and `behavior_release_impl` of _core.c do with all cowns of a
-- behaviour.
use bocpy.Base.{
  contains, ℕ, ◌≡◌, ◌⊎◌, inl, inr, refl, ap, sym, ◌∙◌, true, false, Option, none, some, List, [],
  ◌∷◌, ◌++◌, arith, Option-cases, Bool-cases, update,
}
use mathlib.Core.Path.{subst}
use mathlib.Core.List.{append_assoc}
use bocpy.Cown.{Host, Interp, Cown, CownError, Outcome}
use bocpy.Cown.Calls.{cown_acquire, cown_release, give_value}
use bocpy.Cown.Invariant.{IsValid, is_some, acquire-IsValid, release-IsValid}
use bocpy.Cown.Transfer.{acquire_done}
use bocpy.Cown.Vars.{
  BehaviorVars, VarsOutcome, each_var, and_then, each_var-Valid, each_var-Reached,
  each_var-untouched, behavior_acquire, behavior_release, acquire_vars, release_vars,
}

module _ {Object Data : Type 0} where
  prefix : List (Option ℕ × Data) → VarsOutcome Object Data → VarsOutcome Object Data
  prefix r o = record o { recycled = r ++ o.recycled }

  and_then-prefix :
      (r : List (Option ℕ × Data)) (o : VarsOutcome Object Data)
      (next : (ℕ → Cown Object Data) → VarsOutcome Object Data)
      → and_then (prefix r o) next ≡ prefix r (and_then o next)
  unfolding and_then prefix
  and_then-prefix r o next = elim (Option-cases o.error) [
    | inl e ↦
        rw (and_then, e)
          (ap (λ l. record (next o.cowns) { recycled = l })
            (append_assoc r o.recycled (next o.cowns).recycled))
    | inr (x, e) ↦ rw (and_then, e) refl
  ]

  module _ (call : Cown Object Data → Outcome Object Data) (a : ℕ) (vars : List ℕ)
      (cowns : ℕ → Cown Object Data) where
    each_var_goes_on :
        (call (cowns a)).error ≡ none
        → each_var call (a ∷ vars) cowns
          ≡ prefix
              (call (cowns a)).recycled
              (each_var call vars (update cowns a (call (cowns a)).cown))
    unfolding each_var prefix
    each_var_goes_on e = rw (each_var, e) refl

    each_var_stops :
        (x : CownError)
        → (call (cowns a)).error ≡ some x
        → each_var call (a ∷ vars) cowns ≡ record {
          error = some x;
          cowns = update cowns a (call (cowns a)).cown;
          recycled = (call (cowns a)).recycled;
        }
    unfolding each_var
    each_var_stops x e = rw (each_var, e) refl

  each_var-append :
      (call : Cown Object Data → Outcome Object Data) (vars more : List ℕ)
      (cowns : ℕ → Cown Object Data)
      → each_var call (vars ++ more) cowns
        ≡ and_then (each_var call vars cowns) (each_var call more)
  unfolding each_var and_then
  each_var-append call [] more cowns = refl
  each_var-append call (a ∷ vars) more cowns = elim (Option-cases (call (cowns a)).error) [
    | inl e ↦
        each_var_goes_on call a (vars ++ more) cowns e
        ∙ ap (prefix (call (cowns a)).recycled) (each_var-append call vars more _)
        ∙ sym
            (and_then-prefix (call (cowns a)).recycled (each_var call vars _) (each_var call more))
        ∙ ap (λ o. and_then o (each_var call more)) (sym (each_var_goes_on call a vars cowns e))
    | inr (x, e) ↦
        each_var_stops call a (vars ++ more) cowns x e
        ∙ ap (λ o. and_then o (each_var call more)) (sym (each_var_stops call a vars cowns x e))
  ]

abbrev pub vars_of : BehaviorVars → List ℕ
vars_of b = ((b.result ∷ []) ++ b.args) ++ b.captures

module _ {Object Data : Type 0} (host : Host Object Data) where
  release_done :
      (me : Interp) (c : Cown Object Data)
      → IsValid me.main_interpid c
      → (cown_release host me c).error ≡ none
      → let after = (cown_release host me c).cown in
        (after.is_pinned ≡ true) ⊎ ((after.owner ≡ none) × (after.value ≡ none))
  unfolding cown_release give_value
  release_done me c h f = ground (arith, h.value_owned)

  behavior_acquire_each :
      (me : Interp) (b : BehaviorVars) (cowns : ℕ → Cown Object Data)
      → behavior_acquire host me b cowns ≡ each_var (cown_acquire host me) (vars_of b) cowns
  unfolding behavior_acquire acquire_vars
  behavior_acquire_each me b cowns =
      ap (λ o. and_then o (each_var (cown_acquire host me) b.captures))
        (sym (each_var-append (cown_acquire host me) (b.result ∷ []) b.args cowns))
      ∙ sym (each_var-append (cown_acquire host me) ((b.result ∷ []) ++ b.args) b.captures cowns)

  behavior_release_each :
      (me : Interp) (b : BehaviorVars) (cowns : ℕ → Cown Object Data)
      → behavior_release host me b cowns ≡ each_var (cown_release host me) (vars_of b) cowns
  unfolding behavior_release release_vars
  behavior_release_each me b cowns =
      ap (λ o. and_then o (each_var (cown_release host me) b.captures))
        (sym (each_var-append (cown_release host me) (b.result ∷ []) b.args cowns))
      ∙ sym (each_var-append (cown_release host me) ((b.result ∷ []) ++ b.args) b.captures cowns)

  abbrev pub TakenBy : Interp → Cown Object Data → Type 0
  TakenBy me c = (c.owner ≡ some me.interpid) × (is_some c.value ≡ true)

  -- From a store of valid cowns, a behaviour that acquires its cowns without an error owns every one
  -- of them, with a value; a cown it does not name is untouched; and every cown stays valid.
  pub behavior_acquire_lem :
      (me : Interp) (b : BehaviorVars) (cowns : ℕ → Cown Object Data)
      → ((k : ℕ) → IsValid me.main_interpid (cowns k))
      → (behavior_acquire host me b cowns).error ≡ none
      → (k : ℕ)
      → let after = (behavior_acquire host me b cowns).cowns k in
        (((contains (vars_of b) k ≡ true) × TakenBy me after)
          ⊎ ((contains (vars_of b) k ≡ false) × (after ≡ cowns k)))
        × IsValid me.main_interpid after
  behavior_acquire_lem me b cowns h ok k =
      let acquire = cown_acquire host me in
      let each = behavior_acquire_each me b cowns in
      let fine = subst (λ o. o.error ≡ none) each ok in
      rw each (
        elim (Bool-cases (contains (vars_of b) k)) [
          | inl m ↦ inl (
            m,
            each_var-Reached acquire (IsValid me.main_interpid) (TakenBy me)
                (acquire-IsValid host me) (acquire_done host me) (vars_of b) cowns h fine k (inl m),
          )
          | inr n ↦ inr (n, each_var-untouched acquire (vars_of b) cowns k n)
        ],
        each_var-Valid acquire (IsValid me.main_interpid) (TakenBy me) (acquire-IsValid host me)
            (acquire_done host me) (vars_of b) cowns h k,
      )

  abbrev pub GivenUp : Cown Object Data → Type 0
  GivenUp c = (c.is_pinned ≡ true) ⊎ ((c.owner ≡ none) × (c.value ≡ none))

  -- From a store of valid cowns, a behaviour that releases its cowns without an error leaves every
  -- one of them pinned or without owner and value, those that it never got to acquire included; a
  -- cown it does not name is untouched; and every cown stays valid.
  pub behavior_release_lem :
      (me : Interp) (b : BehaviorVars) (cowns : ℕ → Cown Object Data)
      → ((k : ℕ) → IsValid me.main_interpid (cowns k))
      → (behavior_release host me b cowns).error ≡ none
      → (k : ℕ)
      → let after = (behavior_release host me b cowns).cowns k in
        (((contains (vars_of b) k ≡ true) × GivenUp after)
          ⊎ ((contains (vars_of b) k ≡ false) × (after ≡ cowns k)))
        × IsValid me.main_interpid after
  behavior_release_lem me b cowns h ok k =
      let release = cown_release host me in
      let each = behavior_release_each me b cowns in
      let fine = subst (λ o. o.error ≡ none) each ok in
      rw each (
        elim (Bool-cases (contains (vars_of b) k)) [
          | inl m ↦ inl (
            m,
            each_var-Reached release (IsValid me.main_interpid) GivenUp (release-IsValid host me)
                (release_done me) (vars_of b) cowns h fine k (inl m),
          )
          | inr n ↦ inr (n, each_var-untouched release (vars_of b) cowns k n)
        ],
        each_var-Valid release (IsValid me.main_interpid) GivenUp (release-IsValid host me)
            (release_done me) (vars_of b) cowns h k,
      )
