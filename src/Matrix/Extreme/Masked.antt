-- ===== src/Matrix/Extreme/Masked.antt =====
-- What the masked arg-reductions of _math.c find.
use bocpy.Base.{
  ℕ, suc, ◌≡◌, ◌<◌, inl, inr, Bool, true, false, not, Option, none, some, for_below_lem, arith,
  refl, sym, ap, ◌∙◌, Bool-cases,
}
use mathlib.Core.Bool.{true≢false}
use native.Mathlib.Decide.{ℕ_discrete}
use bocpy.Matrix.Extreme.{better, take_better, take_masked, scan_masked, index_of}
use bocpy.Matrix.Extreme.Order.{IsOrder, better_irreflexive}
use bocpy.Matrix.Extreme.First.{IsFirst, Best, First-skip, take_better-Best}

module _ {A : Type 0} (lt : A → A → Bool) (want_max : Bool) (p : ℕ → A) (order : IsOrder lt)
    (is_nought : A → Bool) (mask : ℕ → A) where
  -- Cell `i` is one that the mask includes.
  abbrev pub includes : ℕ → Bool
  includes i = not (is_nought (mask i))

  -- An index is the first extreme of the included cells; there is none only if no cell is included.
  abbrev pub FirstIncluded : ℕ → Option ℕ → Type 0
  FirstIncluded n none = (j : ℕ) → j < n → includes j ≡ false
  FirstIncluded n (some i) = IsFirst lt want_max p order includes n i

  abbrev Found : ℕ → Option (A × ℕ) → Type 0
  Found n none = (j : ℕ) → j < n → includes j ≡ false
  Found n (some b) = Best lt want_max p order includes n b

  seed :
      (n : ℕ)
      → includes n ≡ true
      → Found n none
      → Best lt want_max p order includes (suc n) (p n, n)
  seed n inc excluded = (
    refl,
    record {
      inside = omega arith;
      is_in = inc;
      no_better = λ j below jn. elim (ℕ_discrete j n) [
        | yes e ↦
            ap (λ k. better lt want_max (p k) (p n)) e ∙ better_irreflexive lt want_max order (p n)
        | no ne ↦ absurd (true≢false (sym jn ∙ excluded j (omega arith)))
      ];
      earlier_worse = λ j below jn. absurd (true≢false (sym jn ∙ excluded j below));
      nan_seed = λ j below jn earlier nan. elim (ℕ_discrete j n) [
        | yes e ↦ e
        | no ne ↦ absurd (true≢false (sym jn ∙ excluded j (omega arith)))
      ];
      nan_only_first = λ nan j below. excluded j below;
    },
  )

  take_masked-Found :
      (n : ℕ) (s : Option (A × ℕ))
      → Found n s
      → Found (suc n) (take_masked lt is_nought want_max p mask n s)
  take_masked-Found n s f = elim (Bool-cases (is_nought (mask n))) [
    | inl out ↦ rw (out) (passed s f (ap not out))
    | inr inc ↦ rw (inc) (seen s f (ap not inc))
  ]
    where
      passed : (s : Option (A × ℕ)) → Found n s → includes n ≡ false → Found (suc n) s
      passed none f out = λ j below. elim (ℕ_discrete j n) [
        | yes e ↦ ap includes e ∙ out
        | no ne ↦ f j (omega arith)
      ]
      passed (some b) (e, f) out = (e, First-skip lt want_max p order includes n b.1 out f)

      seen :
          (s : Option (A × ℕ))
          → Found n s
          → includes n ≡ true
          → Found (suc n) (elim s as (λ _. Option (A × ℕ)) [
            | none ↦ some (p n, n)
            | some b ↦ some (take_better lt want_max p n b)
          ])
      seen none f inc = seed n inc f
      seen (some b) f inc = take_better-Best lt want_max p order includes n b inc f

  -- The masked kernels' loop finds the first extreme of the included cells, or that there are none.
  pub scan_masked-FirstIncluded :
      (n : ℕ) → FirstIncluded n (index_of lt is_nought (scan_masked lt is_nought want_max p mask n))
  unfolding scan_masked
  scan_masked-FirstIncluded n = forget (scan_masked lt is_nought want_max p mask n) (
      for_below_lem (λ i s. Found i s) n (λ i s. take_masked lt is_nought want_max p mask i s) none
        (λ j below. absurd (omega arith)) (λ i below s f. take_masked-Found i s f))
    where
      forget : (s : Option (A × ℕ)) → Found n s → FirstIncluded n (index_of lt is_nought s)
      forget none f = f
      forget (some b) f = f.1
