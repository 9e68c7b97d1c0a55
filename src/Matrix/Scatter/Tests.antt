-- ===== src/Matrix/Scatter/Tests.antt =====
-- The scattered writes at matrices of numbers.
use bocpy.Base.{ℕ, ◌+◌, ◌≡◌, if◌then◌else◌, true, refl, arith}
use bocpy.Matrix.{Matrix, cell}
use bocpy.Matrix.Shape.{fresh, fresh-WellFormed}
use bocpy.Matrix.Scatter.{
  impl_scatter_rows, impl_scatter_rows_scalar, impl_scatter_cols, impl_scatter_cols_scalar,
  put_named,
}
use bocpy.Matrix.Scatter.Cells.{scatter_lem}

-- Three rows of noughts, and two rows to be added to the second one.
abbrev zeros : Matrix ℕ
zeros = fresh 0 3 2

abbrev ones : Matrix ℕ
ones = record (fresh 0 2 2) { data_at = λ j. 1 + j }

adds_twice : (impl_scatter_rows (λ a b. a + b) zeros (λ k. 1) 2 ones true).data_at 3 ≡ 6
unfolding impl_scatter_rows
adds_twice = refl

scatter_lem_example :
    ((if true
          then impl_scatter_rows (λ a b. a + b) zeros (λ k. 1) 2 ones true
          else impl_scatter_cols (λ a b. a + b) zeros (λ k. 1) 2 ones true).data_at
        3
      ≡ put_named
          (λ a b. a + b)
          true
          (λ k. 1)
          1
          (λ k. if true then cell ones k 1 else cell ones 1 k)
          2
          0)
    × ((if true
            then impl_scatter_rows_scalar (λ a b. a + b) zeros (λ k. 1) 2 7 true
            else impl_scatter_cols_scalar (λ a b. a + b) zeros (λ k. 1) 2 7 true).data_at
          3
        ≡ put_named (λ a b. a + b) true (λ k. 1) 1 (λ k. 7) 2 0)
scatter_lem_example =
    scatter_lem (λ a b. a + b) zeros ones 7 (λ k. 1) 2 true true
      (fresh-WellFormed 0 3 2 (omega arith) (omega arith) (omega arith)) (λ k lt. omega arith) 1 1
      (omega arith) (omega arith)
