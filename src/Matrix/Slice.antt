-- ===== src/Matrix/Slice.antt =====
-- The reads and writes of _math.c at ranges of rows and columns. A range's `start` and `step` are
-- 64-bit words, a negative `Py_ssize_t` in two's complement; row numbers and pointers step modulo
-- 2 ^ 64 as the C's do.
pub mod Cells
pub mod Get
pub mod Set
pub mod Assign
pub mod Index
mod Tests
use bocpy.Base.{ℕ, zero, suc, ◌+◌, ◌*◌, ◌%◌, ◌^◌, if◌then◌else◌, Bool, update, for_below}
use bocpy.Matrix.{Matrix}

-- `range`, without its `stop` and `scalar`, which the functions here do not read.
pub record Range : Type 0 where
  pub start : ℕ
  pub step : ℕ
  pub count : ℕ

abbrev pub advance : ℕ → ℕ → ℕ
advance i step = (i + step) % 2 ^ 64

-- The loops of `impl_get`: the row or the pointer into the matrix, and the output with its pointer.
pub record Getting (A : Type 0) : Type 0 where
  pub at : ℕ
  pub out_ptr : ℕ
  pub dst : ℕ → A

-- The loops of the four `impl_set` functions: the row or the pointer into the matrix, the pointer into
-- the source, and the cells of the matrix.
pub record Setting (A : Type 0) : Type 0 where
  pub at : ℕ
  pub src_ptr : ℕ
  pub cells : ℕ → A

module _ {A : Type 0} where
  abbrev pub get_row : Matrix A → Range → ℕ → Getting A → Getting A
  get_row m columns n s =
      for_below n
        (λ _ t. record {
          at = advance t.at columns.step;
          out_ptr = t.out_ptr + 1;
          dst = update t.dst t.out_ptr (m.data_at t.at);
        })
        (record s { at = advance (m.row_ptrs s.at) columns.start })

  unfoldable pub impl_get : Matrix A → Range → Range → Matrix A → Matrix A
  impl_get m rows columns out = record out {
    data_at =
        (for_below out.rows
          (λ _ s. record (get_row m columns out.columns s) { at = advance s.at rows.step })
          (record { at = rows.start; out_ptr = 0; dst = out.data_at })).dst;
  }

  -- They differ in what they store, which is read as the cells are by then, and in how the source's
  -- pointer goes from cell to cell.
  abbrev pub set_row :
      Matrix A → Range → (store : (ℕ → A) → ℕ → A) → (next_cell : ℕ → ℕ) → Setting A → Setting A
  set_row m columns store next_cell s =
      for_below columns.count
        (λ _ t. record {
          at = advance t.at columns.step;
          src_ptr = next_cell t.src_ptr;
          cells = update t.cells t.at (store t.cells t.src_ptr);
        })
        (record s { at = advance (m.row_ptrs s.at) columns.start })

  -- `next_row before after` is the source's pointer for the next row, from that before and that after
  -- this row.
  abbrev pub set_rows :
      Matrix A
      → Range
      → Range
      → (store : (ℕ → A) → ℕ → A) → (next_cell : ℕ → ℕ) → (next_row : ℕ → ℕ → ℕ) → Setting A
  set_rows m rows columns store next_cell next_row =
      for_below rows.count
        (λ _ s.
          let t = set_row m columns store next_cell s in
          record t { at = advance s.at rows.step; src_ptr = next_row s.src_ptr t.src_ptr })
        (record { at = rows.start; src_ptr = 0; cells = m.data_at })

  unfoldable pub impl_set_scalar : Matrix A → Range → Range → A → Matrix A
  impl_set_scalar m rows columns value = record m {
    data_at = (set_rows m rows columns (λ _ _. value) (λ p. p) (λ _ after. after)).cells;
  }

  -- `vec_ptr` starts anew in every row.
  unfoldable pub impl_set_rowwise : Matrix A → Range → Range → Matrix A → Matrix A
  impl_set_rowwise m rows columns vector = record m {
    data_at = (set_rows m rows columns (λ _. vector.data_at) (λ p. p + 1) (λ _ _. 0)).cells;
  }

  -- `vec_ptr` moves on after every row.
  unfoldable pub impl_set_columnwise : Matrix A → Range → Range → Matrix A → Matrix A
  impl_set_columnwise m rows columns vector = record m {
    data_at = (set_rows m rows columns (λ _. vector.data_at) (λ p. p) (λ _ after. after + 1)).cells;
  }

  -- `itself` tells that `submatrix` is the matrix that is written, so that a read sees what was written
  -- before. The vectors above are never the matrix: they have one row, or one column, where the ranges
  -- have more.
  unfoldable pub impl_set : (itself : Bool) → Matrix A → Range → Range → Matrix A → Matrix A
  impl_set itself m rows columns submatrix = record m {
    data_at =
        (set_rows m rows columns (λ cells. if itself then cells else submatrix.data_at) (λ p. p + 1)
          (λ _ after. after)).cells;
  }
