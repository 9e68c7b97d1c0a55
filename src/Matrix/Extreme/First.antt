-- ===== src/Matrix/Extreme/First.antt =====
-- What the arg-reductions of _math.c look for, and that the unmasked ones find it.
use bocpy.Base.{
  ℕ, suc, ◌+◌, ◌-◌, ◌≡◌, ◌<◌, ◌⊎◌, inl, inr, Bool, true, false, for_below_lem, arith, refl, sym, ap,
  ap₂, ◌∙◌, Bool-cases,
}
use mathlib.Core.Path.{subst}
use mathlib.Core.Bool.{true≢false}
use native.Mathlib.Decide.{ℕ_discrete}
use bocpy.Matrix.Extreme.{better, take_better, scan}
use bocpy.Matrix.Extreme.Order.{
  IsOrder, better_asymmetric, better_irreflexive, better_nan, nan_not_better, better_than,
}

module _ {A : Type 0} (lt : A → A → Bool) (want_max : Bool) (p : ℕ → A) (order : IsOrder lt) where
  -- What `i` is of the included cells below `n`. If the first of these is NaN, `i` is that one, and `i` is
  -- NaN only then. Otherwise it is the first extreme: no cell is better, and those before it are worse
  -- or NaN.
  pub record IsFirst (included : ℕ → Bool) (n i : ℕ) : Type 0 where
    pub inside : i < n
    pub is_in : included i ≡ true
    pub no_better : (j : ℕ) → j < n → included j ≡ true → better lt want_max (p j) (p i) ≡ false
    pub earlier_worse :
        (j : ℕ)
        → j < i
        → included j ≡ true
        → (order.is_nan (p j) ≡ true) ⊎ (better lt want_max (p i) (p j) ≡ true)
    pub nan_seed :
        (j : ℕ)
        → j < n
        → included j ≡ true
        → ((k : ℕ) → k < j → included k ≡ false)
        → order.is_nan (p j) ≡ true
        → j ≡ i
    pub nan_only_first : order.is_nan (p i) ≡ true → (j : ℕ) → j < i → included j ≡ false

  pub First-skip :
      (included : ℕ → Bool) (n i : ℕ)
      → included n ≡ false
      → IsFirst included n i
      → IsFirst included (suc n) i
  First-skip included n i out f = record {
    inside = omega (arith, f.inside);
    is_in = f.is_in;
    no_better = λ j below inc. elim (ℕ_discrete j n) [
      | yes e ↦ absurd (true≢false (sym inc ∙ ap included e ∙ out))
      | no ne ↦ f.no_better j (omega arith) inc
    ];
    earlier_worse = f.earlier_worse;
    nan_seed = λ j below inc earlier nan. elim (ℕ_discrete j n) [
      | yes e ↦ absurd (true≢false (sym inc ∙ ap included e ∙ out))
      | no ne ↦ f.nan_seed j (omega arith) inc earlier nan
    ];
    nan_only_first = f.nan_only_first;
  }

  -- The cell `n` is not the first of those included.
  not_seed :
      (included : ℕ → Bool) (n i j : ℕ)
      → IsFirst included n i
      → ((k : ℕ) → k < j → included k ≡ false)
      → j ≡ n
      → ⊥
  not_seed included n i j f earlier e =
      true≢false (sym f.is_in ∙ earlier i (omega (arith, f.inside, e)))

  First-kept :
      (included : ℕ → Bool) (n i : ℕ)
      → better lt want_max (p n) (p i) ≡ false
      → IsFirst included n i
      → IsFirst included (suc n) i
  First-kept included n i worse f = record {
    inside = omega (arith, f.inside);
    is_in = f.is_in;
    no_better = λ j below inc. elim (ℕ_discrete j n) [
      | yes e ↦ ap (λ k. better lt want_max (p k) (p i)) e ∙ worse
      | no ne ↦ f.no_better j (omega arith) inc
    ];
    earlier_worse = f.earlier_worse;
    nan_seed = λ j below inc earlier nan. elim (ℕ_discrete j n) [
      | yes e ↦ absurd (not_seed included n i j f earlier e)
      | no ne ↦ f.nan_seed j (omega arith) inc earlier nan
    ];
    nan_only_first = f.nan_only_first;
  }

  First-new :
      (included : ℕ → Bool) (n i : ℕ)
      → included n ≡ true
      → better lt want_max (p n) (p i) ≡ true
      → IsFirst included n i
      → IsFirst included (suc n) n
  First-new included n i inc beats f = record {
    inside = omega arith;
    is_in = inc;
    no_better = λ j below jn. elim (ℕ_discrete j n) [
      | yes e ↦
          ap (λ k. better lt want_max (p k) (p n)) e ∙ better_irreflexive lt want_max order (p n)
      | no ne ↦ elim (Bool-cases (order.is_nan (p j))) [
        | inl nan ↦ nan_not_better lt want_max order (p j) (p n) nan
        | inr real ↦ better_asymmetric lt want_max order (p n) (p j) (
            better_than lt want_max order (p n) (p i) (p j) real beats
              (f.no_better j (omega arith) jn))
      ]
    ];
    earlier_worse = λ j below jn. elim (Bool-cases (order.is_nan (p j))) [
      | inl nan ↦ inl nan
      | inr real ↦
          inr (better_than lt want_max order (p n) (p i) (p j) real beats (f.no_better j below jn))
    ];
    nan_seed = λ j below jn earlier nan. elim (ℕ_discrete j n) [
      | yes e ↦ absurd (not_seed included n i j f earlier e)
      | no ne ↦ absurd (
          true≢false (
            sym nan
            ∙ ap (λ k. order.is_nan (p k)) (f.nan_seed j (omega arith) jn earlier nan)
            ∙ (better_nan lt want_max order (p n) (p i) beats).1))
    ];
    nan_only_first =
        λ nan. absurd (true≢false (sym nan ∙ (better_nan lt want_max order (p n) (p i) beats).0));
  }

  abbrev pub Best : (ℕ → Bool) → ℕ → A × ℕ → Type 0
  Best included n (best, i) = (best ≡ p i) × IsFirst included n i

  pub take_better-Best :
      (included : ℕ → Bool) (n : ℕ) (b : A × ℕ)
      → included n ≡ true
      → Best included n b
      → Best included (suc n) (take_better lt want_max p n b)
  take_better-Best included n (best, i) inc (e, f) =
      elim (Bool-cases (better lt want_max (p n) best)) [
        | inl h ↦
            rw (h) (refl, First-new included n i inc (ap (better lt want_max (p n)) (sym e) ∙ h) f)
        | inr h ↦ rw (h) (e, First-kept included n i (ap (better lt want_max (p n)) (sym e) ∙ h) f)
      ]

  -- The unmasked kernels' loop finds the first extreme of `n` cells, if there are any.
  pub scan-IsFirst : (n : ℕ) → 0 < n → IsFirst (λ _. true) n (scan lt want_max p n).1
  unfolding scan
  scan-IsFirst n pos = subst (λ k. IsFirst (λ _. true) k (scan lt want_max p n).1) one_more found.1
    where
      one_more : n - 1 + 1 ≡ n
      one_more = omega arith

      first_cell : Best (λ _. true) (0 + 1) (p 0, 0)
      first_cell = (
        refl,
        record {
          inside = omega arith;
          is_in = refl;
          no_better = λ j below inc.
              ap (λ k. better lt want_max (p k) (p 0)) (only j below)
              ∙ better_irreflexive lt want_max order (p 0);
          earlier_worse = λ j below inc. absurd (omega arith);
          nan_seed = λ j below inc earlier nan. only j below;
          nan_only_first = λ nan j below. absurd (omega arith);
        },
      )
        where
          only : (j : ℕ) → j < 0 + 1 → j ≡ 0
          only j below = omega arith

      found : Best (λ _. true) (n - 1 + 1) (scan lt want_max p n)
      found =
          for_below_lem (λ i s. Best (λ _. true) (i + 1) s) (n - 1)
            (λ i s. take_better lt want_max p (i + 1) s) (p 0, 0) first_cell
            (λ i below s b.
              subst (λ k. Best (λ _. true) k (take_better lt want_max p (i + 1) s)) (omega arith)
                (take_better-Best (λ _. true) (i + 1) s refl b))

-- Only the cells below `n` matter.
pub IsFirst-agree :
    {A : Type 0} (lt : A → A → Bool) (want_max : Bool) (p q : ℕ → A) (order : IsOrder lt)
    (included : ℕ → Bool) (n i : ℕ)
    → ((j : ℕ) → j < n → q j ≡ p j)
    → IsFirst lt want_max p order included n i
    → IsFirst lt want_max q order included n i
IsFirst-agree lt want_max p q order included n i same f = record {
  inside = f.inside;
  is_in = f.is_in;
  no_better = λ j below inc.
      ap₂ (better lt want_max) (same j below) (same i f.inside) ∙ f.no_better j below inc;
  earlier_worse = λ j below inc. elim (f.earlier_worse j below inc) [
    | inl nan ↦ inl (ap order.is_nan (same j (omega (arith, f.inside))) ∙ nan)
    | inr worse ↦
        inr (ap₂ (better lt want_max) (same i f.inside) (same j (omega (arith, f.inside))) ∙ worse)
  ];
  nan_seed = λ j below inc earlier nan.
      f.nan_seed j below inc earlier (ap order.is_nan (sym (same j below)) ∙ nan);
  nan_only_first = λ nan. f.nan_only_first (ap order.is_nan (sym (same i f.inside)) ∙ nan);
}
