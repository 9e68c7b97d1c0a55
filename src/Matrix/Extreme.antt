-- ===== src/Matrix/Extreme.antt =====
-- The arg-reductions of _math.c: where the first greatest or least cell of a matrix, a column or a
-- row stands, among all cells or among those that a mask includes. `lt` is `<` on doubles, `is_nought`
-- the test `== 0.0`, and `of_index` the conversion of an index, or of -1 for `none`, to a double.
pub mod Order
pub mod First
pub mod Masked
pub mod Kernels
use bocpy.Base.{
  ℕ, zero, suc, ◌+◌, ◌-◌, ◌*◌, if◌then◌else◌, Bool, true, false, Option, none, some, update,
  for_below,
}
use bocpy.Matrix.{Matrix, cell}

module _ {A : Type 0} (lt : A → A → Bool) where
  -- `want_max ? (v > best) : (v < best)`
  abbrev pub better : Bool → A → A → Bool
  better want_max v best = if want_max then lt best v else lt v best

  -- The loop from index 1 that the unmasked kernels share, over the cells `p 0, ..., p (n - 1)`: the
  -- best cell and its index.
  abbrev pub take_better : Bool → (ℕ → A) → ℕ → A × ℕ → A × ℕ
  take_better want_max p i (best, best_i) =
      if better want_max (p i) best then (p i, i) else (best, best_i)

  unfoldable pub scan : Bool → (ℕ → A) → ℕ → A × ℕ
  scan want_max p n = for_below (n - 1) (λ i s. take_better want_max p (i + 1) s) (p 0, 0)

  unfoldable pub argextreme_ewise : Matrix A → Bool → ℕ
  unfolding scan
  argextreme_ewise m want_max = (scan want_max m.data_at m.size).1

  unfoldable pub argextreme_columnwise :
      (of_index : Option ℕ → A) → Matrix A → Bool → Matrix A → Matrix A
  unfolding scan
  argextreme_columnwise of_index m want_max out = record out {
    data_at =
        for_below m.columns
          (λ c d.
            update d c
              (of_index (some (scan want_max (λ r. m.data_at (r * m.columns + c)) m.rows).1)))
          out.data_at;
  }

  unfoldable pub argextreme_rowwise :
      (of_index : Option ℕ → A) → Matrix A → Bool → Matrix A → Matrix A
  unfolding scan
  argextreme_rowwise of_index m want_max out = record out {
    data_at =
        for_below m.rows
          (λ r d.
            update d r
              (of_index (some (scan want_max (λ c. m.data_at (r * m.columns + c)) m.columns).1)))
          out.data_at;
  }

  module _ (is_nought : A → Bool) where
    -- The loop of the masked kernels: the best included cell and its index, `none` so far for -1.
    abbrev pub take_masked : Bool → (ℕ → A) → (ℕ → A) → ℕ → Option (A × ℕ) → Option (A × ℕ)
    take_masked want_max p mask i s =
        if is_nought (mask i)
        then s
        else elim s [ none ↦ some (p i, i) | some b ↦ some (take_better want_max p i b) ]

    unfoldable pub scan_masked : Bool → (ℕ → A) → (ℕ → A) → ℕ → Option (A × ℕ)
    scan_masked want_max p mask n = for_below n (λ i s. take_masked want_max p mask i s) none

    abbrev pub index_of : Option (A × ℕ) → Option ℕ
    index_of none = none
    index_of (some b) = some b.1

    unfoldable pub argextreme_masked_ewise : Matrix A → Matrix A → Bool → Option ℕ
    unfolding scan_masked
    argextreme_masked_ewise m mask want_max =
        index_of (scan_masked want_max m.data_at mask.data_at m.size)

    unfoldable pub argextreme_masked_columnwise :
        (of_index : Option ℕ → A) → Matrix A → Matrix A → Bool → Matrix A → Matrix A
    unfolding scan_masked
    argextreme_masked_columnwise of_index m mask want_max out = record out {
      data_at =
          for_below m.columns
            (λ c d. update d c (
              of_index
                (index_of (scan_masked want_max (λ r. cell m r c) (λ r. cell mask r c) m.rows))))
            out.data_at;
    }

    unfoldable pub argextreme_masked_rowwise :
        (of_index : Option ℕ → A) → Matrix A → Matrix A → Bool → Matrix A → Matrix A
    unfolding scan_masked
    argextreme_masked_rowwise of_index m mask want_max out = record out {
      data_at =
          for_below m.rows
            (λ r d. update d r (
              of_index
                (index_of (scan_masked want_max (λ c. cell m r c) (λ c. cell mask r c) m.columns))))
            out.data_at;
    }
