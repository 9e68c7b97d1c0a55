-- ===== src/Cown/Vars.antt =====
-- `acquire_vars`, `behavior_acquire_impl`, `release_vars` and `behavior_release_impl` of _core.c, on
-- a store of cowns by address: a behaviour may name one cown several times.
use bocpy.Base.{
  contains, ℕ, ◌≡◌, ◌⊎◌, inl, inr, refl, sym, true, false, Option, none, some, List, [], ◌∷◌, ◌++◌,
  arith, update, Option-cases, ==_of_ne, ==_iff,
}
use mathlib.Core.Path.{subst}
use native.Mathlib.Decide.{ℕ_discrete}
use bocpy.Cown.{Host, Interp, Cown, CownError, Outcome}
use bocpy.Cown.Calls.{cown_acquire, cown_release}

-- The cowns of `struct boc_behavior`.
pub record BehaviorVars : Type 0 where
  pub result : ℕ
  pub args : List ℕ
  pub captures : List ℕ

pub record VarsOutcome (Object Data : Type 0) : Type 0 where
  pub error : Option CownError
  pub cowns : ℕ → Cown Object Data
  pub recycled : List (Option ℕ × Data)

module _ {Object Data : Type 0} where
  -- The loop that `acquire_vars` and `release_vars` share: it stops at the first error.
  unfoldable pub each_var :
      (Cown Object Data → Outcome Object Data)
      → List ℕ
      → (ℕ → Cown Object Data)
      → VarsOutcome Object Data
  each_var call [] cowns = record { error = none; cowns = cowns; recycled = [] }
  each_var call (a ∷ vars) cowns =
      let o = call (cowns a) in
      let rest = each_var call vars (update cowns a o.cown) in
      elim o.error [
        | some e ↦ record { error = some e; cowns = update cowns a o.cown; recycled = o.recycled }
        | none ↦ record rest { recycled = o.recycled ++ rest.recycled }
      ]

  -- What one part of a behaviour's cowns does after another part.
  unfoldable pub and_then :
      VarsOutcome Object Data
      → ((ℕ → Cown Object Data) → VarsOutcome Object Data)
      → VarsOutcome Object Data
  and_then o next = elim o.error [
    | some e ↦ o
    | none ↦ let rest = next o.cowns in record rest { recycled = o.recycled ++ rest.recycled }
  ]

  module _ (call : Cown Object Data → Outcome Object Data) where
    each_var_cons :
        (a : ℕ) (vars : List ℕ) (cowns : ℕ → Cown Object Data)
        → (each_var call (a ∷ vars) cowns).error ≡ none
        → ((call (cowns a)).error ≡ none)
          × (((each_var call vars (update cowns a (call (cowns a)).cown)).error ≡ none)
              × ((each_var call (a ∷ vars) cowns).cowns
                  ≡ (each_var call vars (update cowns a (call (cowns a)).cown)).cowns))
    unfolding each_var
    each_var_cons a vars cowns h = elim (Option-cases (call (cowns a)).error) [
      | inl e ↦ (e, (ground arith, ground arith))
      | inr (x, e) ↦ ground arith
    ]

    module _ (Valid Reached : Cown Object Data → Type 0)
        (keeps : (c : Cown Object Data) → Valid c → Valid (call c).cown)
        (reaches : (c : Cown Object Data)
          → Valid c
          → (call c).error ≡ none
          → Reached (call c).cown) where
      update-Valid :
          (cowns : ℕ → Cown Object Data) (a : ℕ)
          → ((k : ℕ) → Valid (cowns k))
          → (k : ℕ) → Valid (update cowns a (call (cowns a)).cown k)
      update-Valid cowns a h k = elim (ℕ_discrete a k) [
        | yes e ↦ rw ((==_iff a k).1 e) (keeps (cowns a) (h a))
        | no ne ↦ rw (==_of_ne a k ne) (h k)
      ]

      pub each_var-Valid :
          (vars : List ℕ) (cowns : ℕ → Cown Object Data)
          → ((k : ℕ) → Valid (cowns k))
          → (k : ℕ) → Valid ((each_var call vars cowns).cowns k)
      unfolding each_var
      each_var-Valid [] cowns h k = h k
      each_var-Valid (a ∷ vars) cowns h k = elim (Option-cases (call (cowns a)).error) [
        | inl e ↦ rw (each_var, e) (each_var-Valid vars _ (update-Valid cowns a h) k)
        | inr (x, e) ↦ rw (each_var, e) (update-Valid cowns a h k)
      ]

      head-Reached :
          (a : ℕ) (vars : List ℕ) (cowns : ℕ → Cown Object Data)
          → ((k : ℕ) → Valid (cowns k))
          → (call (cowns a)).error ≡ none
          → (k : ℕ) → (contains (a ∷ vars) k ≡ true) ⊎ Reached (cowns k)
          → (contains vars k ≡ true) ⊎ Reached (update cowns a (call (cowns a)).cown k)
      head-Reached a vars cowns h e k m = elim (ℕ_discrete a k) [
        | yes same ↦ inr (rw ((==_iff a k).1 same) (reaches (cowns a) (h a) e))
        | no ne ↦ elim m [
          | inl found ↦ inl (ground (arith, found))
          | inr r ↦ inr (rw (==_of_ne a k ne) r)
        ]
      ]

      pub each_var-Reached :
          (vars : List ℕ) (cowns : ℕ → Cown Object Data)
          → ((k : ℕ) → Valid (cowns k))
          → (each_var call vars cowns).error ≡ none
          → (k : ℕ) → (contains vars k ≡ true) ⊎ Reached (cowns k)
          → Reached ((each_var call vars cowns).cowns k)
      unfolding each_var
      each_var-Reached [] cowns h ok k (inl m) = ground arith
      each_var-Reached [] cowns h ok k (inr r) = r
      each_var-Reached (a ∷ vars) cowns h ok k m =
          let (e, (rest, same)) = each_var_cons a vars cowns ok in
          subst (λ f. Reached (f k)) (sym same)
            (each_var-Reached vars _ (update-Valid cowns a h) rest k
              (head-Reached a vars cowns h e k m))

    pub each_var-untouched :
        (vars : List ℕ) (cowns : ℕ → Cown Object Data) (k : ℕ)
        → contains vars k ≡ false
        → (each_var call vars cowns).cowns k ≡ cowns k
    unfolding each_var
    each_var-untouched [] cowns k h = refl
    each_var-untouched (a ∷ vars) cowns k h = elim (ℕ_discrete a k) [
      | yes same ↦ ground arith
      | no ne ↦ ground (arith, each_var-untouched vars (update cowns a (call (cowns a)).cown) k)
    ]

module _ {Object Data : Type 0} (host : Host Object Data) where
  unfoldable pub acquire_vars : Interp → List ℕ → (ℕ → Cown Object Data) → VarsOutcome Object Data
  unfolding each_var
  acquire_vars me vars cowns = each_var (cown_acquire host me) vars cowns

  unfoldable pub release_vars : Interp → List ℕ → (ℕ → Cown Object Data) → VarsOutcome Object Data
  unfolding each_var
  release_vars me vars cowns = each_var (cown_release host me) vars cowns

  unfoldable pub behavior_acquire :
      Interp → BehaviorVars → (ℕ → Cown Object Data) → VarsOutcome Object Data
  unfolding acquire_vars and_then
  behavior_acquire me b cowns =
      and_then (and_then (acquire_vars me (b.result ∷ []) cowns) (acquire_vars me b.args))
        (acquire_vars me b.captures)

  unfoldable pub behavior_release :
      Interp → BehaviorVars → (ℕ → Cown Object Data) → VarsOutcome Object Data
  unfolding release_vars and_then
  behavior_release me b cowns =
      and_then (and_then (release_vars me (b.result ∷ []) cowns) (release_vars me b.args))
        (release_vars me b.captures)
