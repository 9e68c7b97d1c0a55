-- ===== src/Matrix/Slice/Tests.antt =====
-- The theorems on slices at rows 0 and 2, columns 2 and 1 of a matrix of three rows and columns.
use bocpy.Base.{ℕ, ◌+◌, ◌-◌, ◌*◌, ◌^◌, ◌≡◌, true, false, ℤ, pos, arith, refl}
use bocpy.Matrix.{Matrix}
use bocpy.Matrix.Shape.{WellFormed, fresh, fresh-WellFormed}
use bocpy.Matrix.Slice.{
  Range, impl_get, impl_set_scalar, impl_set_rowwise, impl_set_columnwise, impl_set,
}
use bocpy.Matrix.Slice.Cells.{IsAdjusted}
use bocpy.Matrix.Slice.Assign.{Assigns, impl_set-Assigns, impl_get-impl_set}
use bocpy.Matrix.Slice.Index.{Adjusted, clip}

abbrev board : Matrix ℕ
board = fresh 0 3 3

board-WellFormed : WellFormed board
board-WellFormed = fresh-WellFormed {A = ℕ} 0 3 3 (omega arith) (omega arith) (omega arith)

-- `0:3:2` and `2:0:-1`
abbrev outer_rows : Range
outer_rows = record { start = 0; step = 2; count = 2 }

abbrev last_columns : Range
last_columns = record { start = 2; step = 2 ^ 64 - 1; count = 2 }

outer_rows-IsAdjusted : IsAdjusted outer_rows 3
outer_rows-IsAdjusted = record {
  start_fits = omega arith;
  inside = λ k lt. omega arith;
  differ = λ k j lk lj e. omega arith;
}

last_columns-IsAdjusted : IsAdjusted last_columns 3
last_columns-IsAdjusted = record {
  start_fits = omega arith;
  inside = λ k lt. omega arith;
  differ = λ k j lk lj e. omega arith;
}

abbrev patch : Matrix ℕ
patch = record (fresh 0 2 2) { data_at = λ j. j + 5 }

impl_set-Assigns_example :
    Assigns board outer_rows last_columns
      (λ a b. 7)
      (impl_set_scalar board outer_rows last_columns 7)
    × (Assigns board outer_rows last_columns
          (λ a b. b + 5)
          (impl_set_rowwise board outer_rows last_columns patch)
        × (Assigns board outer_rows last_columns
              (λ a b. a + 5)
              (impl_set_columnwise board outer_rows last_columns patch)
            × Assigns board outer_rows last_columns
                (λ a b. a * 2 + b + 5)
                (impl_set false board outer_rows last_columns patch)))
impl_set-Assigns_example =
    impl_set-Assigns board outer_rows last_columns board-WellFormed outer_rows-IsAdjusted
      last_columns-IsAdjusted 7 patch

impl_get-impl_set_example :
    (impl_get
        (impl_set false board outer_rows last_columns patch)
        outer_rows
        last_columns
        (fresh 0 2 2)).data_at
      (1 * 2 + 1)
    ≡ patch.data_at (1 * 2 + 1)
impl_get-impl_set_example =
    impl_get-impl_set board outer_rows last_columns board-WellFormed outer_rows-IsAdjusted
      last_columns-IsAdjusted patch (fresh 0 2 2) refl refl 1 1 (omega arith) (omega arith)

-- Three rows of one cell, 0, 1 and 2, written to themselves in reverse: `m[::-1] = m` gives 0, 1, 0.
abbrev line : Matrix ℕ
line = record (fresh 0 3 1) { data_at = λ j. j }

abbrev reversed_rows : Range
reversed_rows = record { start = 2; step = 2 ^ 64 - 1; count = 3 }

abbrev only_column : Range
only_column = record { start = 0; step = 1; count = 1 }

reversed_itself :
    ((impl_set true line reversed_rows only_column line).data_at 0 ≡ 0)
    × ((impl_set true line reversed_rows only_column line).data_at 1 ≡ 1)
    × ((impl_set true line reversed_rows only_column line).data_at 2 ≡ 0)
unfolding impl_set
reversed_itself = (refl, refl, refl)

abbrev adjust : ℕ → ℤ → ℤ → Adjusted
adjust length start stop = record {
  start = pos (clip length start);
  stop = pos (clip length stop);
  count = clip length stop - clip length start;
}
