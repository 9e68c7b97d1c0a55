-- ===== src/Matrix/Shape.antt =====
-- `impl_new` and `update_row_ptrs` of _math.c: the shape of a matrix, and that it never overflows.
use bocpy.Base.{
  ℕ, suc, ◌+◌, ◌*◌, ◌/◌, ◌%◌, ◌^◌, ◌==◌, ◌≡◌, ◌≤◌, ◌<◌, ◌↔◌, ◌⊎◌, inl, inr, ltb, ◌&&◌, not, Bool,
  true, false, none, some, update, for_below_lem, arith, refl,
}
use native.Mathlib.Decide.{dec_lt}
use native.Mathlib.Nat.{div-lt_iff_lt-mul, mod-eq_of_lt}
use bocpy.Matrix.{Matrix, size_max, fill_row_ptrs, update_row_ptrs, impl_new}

-- The matrix has cells, its size is their number, and its row pointers point at its rows.
pub record WellFormed {A : Type 0} (m : Matrix A) : Type 0 where
  pub has_rows : 0 < m.rows
  pub has_columns : 0 < m.columns
  pub fits : m.rows * m.columns < 2 ^ 64
  pub size_is : m.size ≡ m.rows * m.columns
  pub row_at : (r : ℕ) → r < m.rows → m.row_ptrs r ≡ r * m.columns

abbrev RowPtrs : ℕ → ℕ → ℕ × (ℕ → ℕ) → Type 0
RowPtrs columns r (row_ptr, ptrs) =
    (row_ptr ≡ r * columns) × ((i : ℕ) → i < r → ptrs i ≡ i * columns)

next_row :
    (columns i row_ptr : ℕ) (ptrs : ℕ → ℕ)
    → RowPtrs columns i (row_ptr, ptrs)
    → RowPtrs columns (suc i) (row_ptr + columns, update ptrs i row_ptr)
next_row columns i row_ptr ptrs (at, below) =
    (omega (arith, at), λ j lt. ground (arith, at, below j))

fill_row_ptrs_lem : (rows columns : ℕ) → RowPtrs columns rows (fill_row_ptrs rows columns)
fill_row_ptrs_lem rows columns =
    for_below_lem (λ r s. RowPtrs columns r s) rows _ (0, λ _. 0)
      (omega arith, λ i lt. absurd (omega arith))
      (λ i lt (row_ptr, ptrs) inv. next_row columns i row_ptr ptrs inv)

impl_new_too_large :
    {A : Type 0} (nought : A) (allocated : Bool) (rows columns : ℕ)
    → (not (columns == 0) && ltb (size_max / columns) rows) ≡ true
    → impl_new nought allocated rows columns ≡ none
unfolding impl_new
impl_new_too_large nought allocated rows columns e = rw (impl_new, e) refl

-- The matrix that `impl_new` returns.
abbrev pub fresh : {A : Type 0} → A → ℕ → ℕ → Matrix A
fresh nought rows columns = record {
  data_at = λ _. nought;
  size = rows * columns % 2 ^ 64;
  rows = rows;
  columns = columns;
  row_ptrs = (fill_row_ptrs rows columns).1;
}

impl_new_fits :
    {A : Type 0} (nought : A) (rows columns : ℕ)
    → (not (columns == 0) && ltb (size_max / columns) rows) ≡ false
    → impl_new nought true rows columns ≡ some (fresh nought rows columns)
unfolding impl_new update_row_ptrs
impl_new_fits nought rows columns e = rw (impl_new, e) refl

guard_lem :
    (rows columns : ℕ)
    → 0 < columns
    → ((not (columns == 0) && ltb (size_max / columns) rows) ≡ true) ↔ (2 ^ 64 ≤ rows * columns)
guard_lem rows columns pos =
    let (to, from) = div-lt_iff_lt-mul {k = columns} {x = size_max} {y = rows} pos in
    (λ e. omega (arith, to (ground arith)), λ le. ground (arith, from (omega arith)))

pub fresh-WellFormed :
    {A : Type 0} (nought : A) (rows columns : ℕ)
    → 0 < rows
    → 0 < columns
    → rows * columns < 2 ^ 64
    → WellFormed (fresh nought rows columns)
fresh-WellFormed nought rows columns pr pc fits = record {
  has_rows = pr;
  has_columns = pc;
  fits = fits;
  size_is = mod-eq_of_lt fits;
  row_at = (fill_row_ptrs_lem rows columns).1;
}

pub impl_new-fresh :
    {A : Type 0} (nought : A) (rows columns : ℕ)
    → 0 < columns
    → rows * columns < 2 ^ 64
    → impl_new nought true rows columns ≡ some (fresh nought rows columns)
impl_new-fresh nought rows columns pc fits =
    impl_new_fits nought rows columns (ground (arith, guard_lem rows columns pc))

-- A matrix of the shape asked for, all of whose cells are `nought`.
pub record Fresh {A : Type 0} (nought : A) (rows columns : ℕ) (m : Matrix A) : Type 0 where
  pub well_formed : WellFormed m
  pub rows_are : m.rows ≡ rows
  pub columns_are : m.columns ≡ columns
  pub all_nought : (j : ℕ) → m.data_at j ≡ nought

-- `impl_new`, for numbers of rows and columns that are not 0 and with memory for the matrix, fails if
-- the number of cells is over `SIZE_MAX`; else it gives a well-formed matrix of zeros of that shape,
-- whose `size` is the true number of its cells.
pub impl_new_lem :
    {A : Type 0} (nought : A) (rows columns : ℕ)
    → 0 < rows
    → 0 < columns
    → ((size_max < rows * columns) × (impl_new nought true rows columns ≡ none))
      ⊎ ((m : Matrix A) × ((impl_new nought true rows columns ≡ some m)
            × Fresh nought rows columns m))
impl_new_lem nought rows columns pr pc = elim (dec_lt size_max (rows * columns)) [
  | yes over ↦
      inl (over, impl_new_too_large nought true rows columns ((guard_lem rows columns pc).1 over))
  | no within ↦ inr (
    fresh nought rows columns,
    (
      impl_new-fresh nought rows columns pc (omega arith),
      record {
        well_formed = fresh-WellFormed nought rows columns pr pc (omega arith);
        rows_are = refl;
        columns_are = refl;
        all_nought = λ j. refl;
      },
    ),
  )
]
