-- ===== src/Matrix/Scatter/Cells.antt =====
-- Which cells the scattered writes of _math.c change, and to what.
use bocpy.Base.{ℕ, ◌+◌, ◌*◌, ◌≡◌, ◌<◌, if◌then◌else◌, Bool, true, false}
use bocpy.Matrix.{Matrix, cell}
use bocpy.Matrix.Shape.{WellFormed}
use bocpy.Matrix.Scatter.{
  impl_scatter_rows, impl_scatter_rows_scalar, impl_scatter_cols, impl_scatter_cols_scalar,
  put_named,
}
use bocpy.Matrix.Scatter.Listed.{rows_listed, columns_listed}

-- What a list may name: rows or columns.
abbrev pub extent : {A : Type 0} → (rows : Bool) → Matrix A → ℕ
extent true m = m.rows
extent false m = m.columns

-- The writes to rows, or to columns, of a well-formed matrix, if the list names such of it: a cell
-- takes the sources that name its row, or its column, in the order of the list, whether they overwrite
-- it or are added to it, and keeps its value if none does; so does it with one number as every source.
pub scatter_lem :
    {A : Type 0} (plus : A → A → A) (m value : Matrix A) (x : A) (idx : ℕ → ℕ) (count : ℕ)
    (accumulate rows : Bool)
    → WellFormed m
    → ((k : ℕ) → k < count → idx k < extent rows m)
    → (i j : ℕ) → i < m.rows
    → j < m.columns
    → let old = m.data_at (i * m.columns + j) in
      let named = if rows then i else j in
      ((if rows
            then impl_scatter_rows plus m idx count value accumulate
            else impl_scatter_cols plus m idx count value accumulate).data_at
          (i * m.columns + j)
        ≡ put_named plus accumulate idx named
            (λ k. if rows then cell value k j else cell value i k)
            count
            old)
      × ((if rows
              then impl_scatter_rows_scalar plus m idx count x accumulate
              else impl_scatter_cols_scalar plus m idx count x accumulate).data_at
            (i * m.columns + j)
          ≡ put_named plus accumulate idx named (λ k. x) count old)
unfolding impl_scatter_rows impl_scatter_rows_scalar impl_scatter_cols impl_scatter_cols_scalar
scatter_lem plus m value x idx count true true w inside i j li lj = (
  rows_listed plus true m.columns idx (λ k c. cell value k c) m.row_ptrs count m.data_at
      (λ k lk. w.row_at (idx k) (inside k lk)) i j lj,
  rows_listed plus true m.columns idx (λ k c. x) m.row_ptrs count m.data_at
      (λ k lk. w.row_at (idx k) (inside k lk)) i j lj,
)
scatter_lem plus m value x idx count true false w inside i j li lj = (
  columns_listed plus true m.columns idx (λ r k. cell value r k) m.row_ptrs count m.rows m.data_at
      w.row_at inside i j li lj,
  columns_listed plus true m.columns idx (λ r k. x) m.row_ptrs count m.rows m.data_at w.row_at
      inside i j li lj,
)
scatter_lem plus m value x idx count false true w inside i j li lj = (
  rows_listed plus false m.columns idx (λ k c. cell value k c) m.row_ptrs count m.data_at
      (λ k lk. w.row_at (idx k) (inside k lk)) i j lj,
  rows_listed plus false m.columns idx (λ k c. x) m.row_ptrs count m.data_at
      (λ k lk. w.row_at (idx k) (inside k lk)) i j lj,
)
scatter_lem plus m value x idx count false false w inside i j li lj = (
  columns_listed plus false m.columns idx (λ r k. cell value r k) m.row_ptrs count m.rows m.data_at
      w.row_at inside i j li lj,
  columns_listed plus false m.columns idx (λ r k. x) m.row_ptrs count m.rows m.data_at w.row_at
      inside i j li lj,
)
