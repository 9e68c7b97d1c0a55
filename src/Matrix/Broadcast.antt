-- ===== src/Matrix/Broadcast.antt =====
-- The element-wise kernels of _math.c that its macros stamp for every binary operation: on two
-- matrices, a matrix and a row, a column or a number, and a column and a row; and
-- `impl_broadcast_vector`. `op` is the macro's expression. A kernel may write its result over its left
-- matrix: `over` tells that `out` is that matrix, so that a read sees what was written before.
pub mod Cells
pub mod Spread
mod Tests
use bocpy.Base.{
  ℕ, zero, suc, ◌+◌, ◌*◌, if◌then◌else◌, Bool, true, false, Option, none, some, update, for_below,
}
use bocpy.Matrix.{Matrix, impl_new}

module _ {A : Type 0} where
  -- `for r < M, for c < N`, with a pointer that steps at every cell and is written through.
  abbrev pub walk : (M N : ℕ) → (ℕ → ℕ → ℕ → (ℕ → A) → A) → (ℕ → A) → ℕ × (ℕ → A)
  walk M N value out =
      for_below M (λ r s. for_below N (λ c (ptr, d). (ptr + 1, update d ptr (value r c ptr d))) s)
        (0, out)

  abbrev pub read_left : (over : Bool) → Matrix A → (ℕ → A) → ℕ → A
  read_left over m d i = if over then d i else m.data_at i

  unfoldable pub impl_broadcast_vector :
      (nought : A)
      → (allocated : Bool) → Matrix A
      → (rows columns : ℕ) → (is_row : Bool) → Option (Matrix A)
  unfolding impl_new
  impl_broadcast_vector nought allocated vec rows columns is_row =
      elim (impl_new nought allocated rows columns) [
        | none ↦ none
        | some out ↦ some (record out {
          data_at =
              if is_row
              then (walk rows columns (λ r c dst d. vec.data_at c) out.data_at).1
              else (walk rows columns (λ r c dst d. vec.data_at r) out.data_at).1;
        })
      ]

  module _ (op : A → A → A) (over : Bool) where
    unfoldable pub impl_ewise : Matrix A → Matrix A → Matrix A → Matrix A
    impl_ewise lhs rhs out = record out {
      data_at =
          for_below lhs.size (λ i d. update d i (op (read_left over lhs d i) (rhs.data_at i)))
            out.data_at;
    }

    unfoldable pub impl_rowwise : Matrix A → Matrix A → Matrix A → Matrix A
    impl_rowwise m vector out = record out {
      data_at =
          (walk m.rows m.columns (λ r c ptr d. op (read_left over m d ptr) (vector.data_at c))
            out.data_at).1;
    }

    unfoldable pub impl_columnwise : Matrix A → Matrix A → Matrix A → Matrix A
    impl_columnwise m vector out = record out {
      data_at =
          (walk m.rows m.columns (λ r c ptr d. op (read_left over m d ptr) (vector.data_at r))
            out.data_at).1;
    }

    unfoldable pub impl_scalar : Matrix A → A → Matrix A → Matrix A
    impl_scalar m rhs out = record out {
      data_at = for_below m.size (λ i d. update d i (op (read_left over m d i) rhs)) out.data_at;
    }

  unfoldable pub impl_outer : (op : A → A → A) → Matrix A → Matrix A → Matrix A → Matrix A
  impl_outer op colvec rowvec out = record out {
    data_at =
        (walk out.rows out.columns (λ r c ptr d. op (colvec.data_at r) (rowvec.data_at c))
          out.data_at).1;
  }
