-- ===== src/Matrix/Extreme/Order.antt =====
-- The comparison of the arg-reductions of _math.c, `<` or `>` on doubles, NaN included.
use bocpy.Base.{◌≡◌, inl, inr, Bool, true, false, sym, ◌∙◌, Bool-cases}
use mathlib.Core.Bool.{true≢false}
use bocpy.Matrix.Extreme.{better}

-- What `<` satisfies on doubles: NaN is neither less nor greater than any, and the others are ordered.
pub record IsOrder {A : Type 0} (lt : A → A → Bool) : Type 0 where
  pub is_nan : A → Bool
  pub nan_less : (a b : A) → is_nan a ≡ true → lt a b ≡ false
  pub less_nan : (a b : A) → is_nan b ≡ true → lt a b ≡ false
  pub asymmetric : (a b : A) → lt a b ≡ true → lt b a ≡ false
  pub not_less : (a b c : A) → is_nan b ≡ false → lt a b ≡ false → lt b c ≡ false → lt a c ≡ false

module _ {A : Type 0} (lt : A → A → Bool) (want_max : Bool) (order : IsOrder lt) where
  pub better_asymmetric : (a b : A) → better lt want_max a b ≡ true → better lt want_max b a ≡ false
  better_asymmetric a b = cases want_max
    where
      cases : (m : Bool) → better lt m a b ≡ true → better lt m b a ≡ false
      cases true h = order.asymmetric b a h
      cases false h = order.asymmetric a b h

  pub better_irreflexive : (a : A) → better lt want_max a a ≡ false
  better_irreflexive a = elim (Bool-cases (better lt want_max a a)) [
    | inl e ↦ better_asymmetric a a e
    | inr e ↦ e
  ]

  pub better_nan :
      (a b : A)
      → better lt want_max a b ≡ true
      → (order.is_nan a ≡ false) × (order.is_nan b ≡ false)
  better_nan a b = cases want_max
    where
      not_nan : (x : A) → (order.is_nan x ≡ true → ⊥) → order.is_nan x ≡ false
      not_nan x h = elim (Bool-cases (order.is_nan x)) [ inl e ↦ absurd (h e) | inr e ↦ e ]

      cases :
          (m : Bool) → better lt m a b ≡ true → (order.is_nan a ≡ false) × (order.is_nan b ≡ false)
      cases true h = (
        not_nan a (λ e. true≢false (sym h ∙ order.less_nan b a e)),
        not_nan b (λ e. true≢false (sym h ∙ order.nan_less b a e)),
      )
      cases false h = (
        not_nan a (λ e. true≢false (sym h ∙ order.nan_less a b e)),
        not_nan b (λ e. true≢false (sym h ∙ order.less_nan a b e)),
      )

  pub nan_not_better : (a b : A) → order.is_nan a ≡ true → better lt want_max a b ≡ false
  nan_not_better a b nan = elim (Bool-cases (better lt want_max a b)) [
    | inl e ↦ absurd (true≢false (sym nan ∙ (better_nan a b e).0))
    | inr e ↦ e
  ]

  better_not :
      (a b c : A)
      → order.is_nan b ≡ false
      → better lt want_max a b ≡ false
      → better lt want_max b c ≡ false
      → better lt want_max a c ≡ false
  better_not a b c real = cases want_max
    where
      cases :
          (m : Bool) → better lt m a b ≡ false → better lt m b c ≡ false → better lt m a c ≡ false
      cases true h k = order.not_less c b a real k h
      cases false h k = order.not_less a b c real h k

  -- A cell that beats an extreme beats all cells, NaN aside, that do not beat it.
  pub better_than :
      (a b c : A)
      → order.is_nan c ≡ false
      → better lt want_max a b ≡ true
      → better lt want_max c b ≡ false
      → better lt want_max a c ≡ true
  better_than a b c real h k = elim (Bool-cases (better lt want_max a c)) [
    | inl e ↦ e
    | inr e ↦ absurd (true≢false (sym h ∙ better_not a c b real e k))
  ]
