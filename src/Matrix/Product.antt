-- ===== src/Matrix/Product.antt =====
-- `impl_matmul` of _math.c: its loops in the order row, inner index, column give every cell the sum of
-- products that the loops in the order row, column, inner index would.
use bocpy.Base.{
  ℕ, suc, ◌+◌, ◌*◌, ◌==◌, ◌≡◌, ◌<◌, inl, inr, if◌then◌else◌, ltb, update, update-cell_self,
  update-cell_ne, for_below, for_below_lem, arith, sym, ap, ap₂, ◌∙◌, cell_in, lt→ltb,
}
use mathlib.Core.Path.{subst}
use native.Mathlib.Decide.{ℕ_discrete}
use bocpy.Matrix.{Matrix, cell, copy_data, matmul_row, impl_matmul}
use bocpy.Matrix.Shape.{WellFormed}

module _ {A : Type 0} (nought : A) (plus times : A → A → A) (lhs rhs out : Matrix A) where
  -- The first `n` terms of the sum for cell `(r, c)`, added from left to right.
  abbrev pub dot : (r c n : ℕ) → A
  dot r c n = for_below n (λ k acc. plus acc (times (cell lhs r k) (cell rhs k c))) nought

  -- How many terms cell `(i, j)` has when the loops stand at `(r, k, c)`.
  abbrev terms : (r k c i j : ℕ) → ℕ
  terms r k c i j =
      if ltb i r then lhs.columns else if i == r then (if ltb j c then suc k else k) else 0

  abbrev Summed : (r k c : ℕ) → (ℕ → A) → Type 0
  Summed r k c d =
      (i j : ℕ)
      → i < out.rows
      → j < out.columns
      → d (i * out.columns + j) ≡ dot i j (terms r k c i j)

  add_term :
      (r k c : ℕ) (d : ℕ → A)
      → r < out.rows
      → c < out.columns
      → Summed r k c d
      → Summed r k (suc c) (
          update d
            (r * out.columns + c)
            (plus (d (r * out.columns + c)) (times (cell lhs r k) (cell rhs k c))))
  add_term r k c d lr lc s i j li lj = elim (ℕ_discrete r i) [
    | no ne ↦
        update-cell_ne d out.columns r c v i j lc lj (inl ne)
        ∙ s i j li lj
        ∙ ap (dot i j) (ground arith)
    | yes er ↦ elim (ℕ_discrete c j) [
      | no ne ↦
          update-cell_ne d out.columns r c v i j lc lj (inr ne)
          ∙ s i j li lj
          ∙ ap (dot i j) (ground arith)
      | yes ec ↦
          update-cell_self d out.columns r c v i j er ec
          ∙ ap (λ x. plus x (times (cell lhs r k) (cell rhs k c))) (s r c lr lc ∙ ap (dot r c) here)
          ∙ ap₂ (λ a b. dot a b (suc k)) er ec
          ∙ ap (dot i j) (one_more er ec)
    ]
  ]
    where
      here : terms r k c r c ≡ k
      here = ground arith

      one_more : r ≡ i → c ≡ j → suc k ≡ terms r k (suc c) i j
      one_more er ec = ground arith

      v : A
      v = plus (d (r * out.columns + c)) (times (cell lhs r k) (cell rhs k c))

  Summed-same :
      (r k c r' k' c' : ℕ) (d : ℕ → A)
      → ((i j : ℕ) → i < out.rows → j < out.columns → terms r k c i j ≡ terms r' k' c' i j)
      → Summed r k c d
      → Summed r' k' c' d
  Summed-same r k c r' k' c' d same s i j li lj = s i j li lj ∙ ap (dot i j) (same i j li lj)

  module _ (w : WellFormed out) (rows_match : out.rows ≡ lhs.rows)
      (columns_match : out.columns ≡ rhs.columns) where
    one_row :
        (r k : ℕ) (d : ℕ → A)
        → r < out.rows
        → Summed r k 0 d
        → Summed r (suc k) 0 (matmul_row nought plus times lhs rhs out r k d)
    one_row r k d lr s =
        Summed-same r k out.columns r (suc k) 0 (matmul_row nought plus times lhs rhs out r k d)
          (λ i j li lj. ground arith)
          (subst (λ n. Summed r k n (matmul_row nought plus times lhs rhs out r k d))
            (sym columns_match)
            (for_below_lem (λ c e. Summed r k c e) rhs.columns _ d s
              (λ c lc e t. rw (w.row_at r lr) (add_term r k c e lr (omega arith) t))))

    one_rank :
        (r : ℕ) (d : ℕ → A)
        → r < out.rows
        → Summed r 0 0 d
        → Summed
            (suc r)
            0
            0
            (for_below lhs.columns (λ k e. matmul_row nought plus times lhs rhs out r k e) d)
    one_rank r d lr s =
        Summed-same r lhs.columns 0 (suc r) 0 0
          (for_below lhs.columns (λ k e. matmul_row nought plus times lhs rhs out r k e) d)
          (λ i j li lj. ground arith)
          (for_below_lem (λ k e. Summed r k 0 e) lhs.columns
            (λ k e. matmul_row nought plus times lhs rhs out r k e) d s
            (λ k lk e t. one_row r k e lr t))

    zeroed : Summed 0 0 0 (copy_data out.size (λ _. nought) out.data_at)
    zeroed i j li lj =
        let inside : i * out.columns + j < out.size =
          rw (w.size_is) (cell_in i j out.rows out.columns li lj) in
        rw (lt→ltb (i * out.columns + j) out.size inside) (ap (dot i j) zero_terms)
      where
        zero_terms : 0 ≡ terms 0 0 0 i j
        zero_terms = ground arith

    -- `impl_matmul`, where its asserts on the shapes hold, makes every cell of `out` the sum of the
    -- products of the row of `lhs` and the column of `rhs`, added in the order of the inner index.
    pub impl_matmul_lem :
        (i j : ℕ)
        → i < out.rows
        → j < out.columns
        → cell (impl_matmul nought plus times lhs rhs out) i j ≡ dot i j lhs.columns
    unfolding impl_matmul
    impl_matmul_lem i j li lj =
        let all : Summed lhs.rows 0 0 (impl_matmul nought plus times lhs rhs out).data_at =
          for_below_lem (λ r d. Summed r 0 0 d) lhs.rows _ _ zeroed
            (λ r lr d s. one_rank r d (omega arith) s) in
        rw (w.row_at i li) (all i j li lj ∙ ap (dot i j) (ground arith))
