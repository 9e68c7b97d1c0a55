-- ===== src/Matrix/Scatter.antt =====
-- The writes of _math.c to listed rows or columns: a source cell goes to the row or column that the
-- list `idx` of `count` entries names, and overwrites it or is added to it. `plus` is `+` on doubles.
-- A right-hand side that is the matrix itself is copied by the caller first.
pub mod Cells
pub mod Listed
mod Tests
use bocpy.Base.{ℕ, zero, suc, ◌+◌, ◌==◌, if◌then◌else◌, Bool, true, false, update, for_below}
use bocpy.Matrix.{Matrix, cell}

module _ {A : Type 0} (plus : A → A → A) where
  -- `memcpy` of `n` doubles to `dst`.
  abbrev pub copy_row : (src : ℕ → A) → (dst n : ℕ) → (ℕ → A) → ℕ → A
  copy_row src dst n d = for_below n (λ c e. update e (dst + c) (src c)) d

  unfoldable pub impl_scatter_rows :
      Matrix A → (idx : ℕ → ℕ) → (count : ℕ) → (value : Matrix A) → (accumulate : Bool) → Matrix A
  impl_scatter_rows m idx count value accumulate = record m {
    data_at =
        for_below count
          (λ i d.
            let dst = m.row_ptrs (idx i) in
            if accumulate
            then for_below m.columns
                (λ c e. update e (dst + c) (plus (e (dst + c)) (cell value i c))) d
            else copy_row (λ c. cell value i c) dst m.columns d)
          m.data_at;
  }

  unfoldable pub impl_scatter_rows_scalar :
      Matrix A → (idx : ℕ → ℕ) → (count : ℕ) → (value : A) → (accumulate : Bool) → Matrix A
  impl_scatter_rows_scalar m idx count value accumulate = record m {
    data_at =
        for_below count
          (λ i d.
            let dst = m.row_ptrs (idx i) in
            for_below m.columns
              (λ c e.
                if accumulate
                then update e (dst + c) (plus (e (dst + c)) value)
                else update e (dst + c) value)
              d)
          m.data_at;
  }

  unfoldable pub impl_scatter_cols :
      Matrix A → (idx : ℕ → ℕ) → (count : ℕ) → (value : Matrix A) → (accumulate : Bool) → Matrix A
  impl_scatter_cols m idx count value accumulate = record m {
    data_at =
        for_below m.rows
          (λ r d.
            let dst = m.row_ptrs r in
            for_below count
              (λ i e.
                if accumulate
                then update e (dst + idx i) (plus (e (dst + idx i)) (cell value r i))
                else update e (dst + idx i) (cell value r i))
              d)
          m.data_at;
  }

  unfoldable pub impl_scatter_cols_scalar :
      Matrix A → (idx : ℕ → ℕ) → (count : ℕ) → (value : A) → (accumulate : Bool) → Matrix A
  impl_scatter_cols_scalar m idx count value accumulate = record m {
    data_at =
        for_below m.rows
          (λ r d.
            let dst = m.row_ptrs r in
            for_below count
              (λ i e.
                if accumulate
                then update e (dst + idx i) (plus (e (dst + idx i)) value)
                else update e (dst + idx i) value)
              d)
          m.data_at;
  }

  -- What one source does to a cell, and what all sources do that name `k`, in the order of the list.
  abbrev pub put : (accumulate : Bool) → A → A → A
  put accumulate old new = if accumulate then plus old new else new

  abbrev pub put_named : (accumulate : Bool) → (idx : ℕ → ℕ) → (k : ℕ) → (src : ℕ → A) → ℕ → A → A
  put_named accumulate idx k src count old =
      for_below count (λ i x. if idx i == k then put accumulate x (src i) else x) old
