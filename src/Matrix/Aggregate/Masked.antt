-- ===== src/Matrix/Aggregate/Masked.antt =====
-- The aggregates of _math.c over the cells that a mask includes.
use bocpy.Base.{ℕ, ◌+◌, if◌then◌else◌, ltb, Bool, for_below}
use bocpy.Matrix.{Matrix}
use bocpy.Matrix.Aggregate.{Aggregate}

module _ {A : Type 0} (a : Aggregate A) (is_nought : A → Bool) where
  -- The included cells alone, folded and counted, and what an aggregate of them is.
  abbrev pub fold_included : (sp kp : ℕ → A) → ℕ → A
  fold_included sp kp n =
      for_below n (λ i s. if is_nought (kp i) then s else a.step s (sp i)) a.init

  abbrev pub count_included : (kp : ℕ → A) → ℕ → ℕ
  count_included kp n = for_below n (λ i k. if is_nought (kp i) then k else k + 1) 0

  abbrev pub of_included : (sp kp : ℕ → A) → ℕ → A
  of_included sp kp n =
      if ltb 0 (count_included kp n)
      then a.final (count_included kp n) (fold_included sp kp n)
      else a.empty
