-- ===== src/Matrix.antt =====
-- src/bocpy/_math.c: the dense matrices of doubles, in row-major order. The type of doubles and its
-- operations are C's, so they are parameters. A buffer is a map from its indices, and a row pointer
-- an offset into it. The reference count and the owner are left out.
mod Shape
mod Transpose
mod Product
mod Extreme
mod Slice
mod Broadcast
mod Scatter
mod Aggregate
mod Tests
use bocpy.Base.{
  ℕ, zero, suc, ◌+◌, ◌-◌, ◌*◌, ◌/◌, ◌%◌, ◌^◌, ◌==◌, if◌then◌else◌, ltb, leb, ◌&&◌, ◌||◌, not, Bool,
  true, false, Option, none, some, update, for_below,
}

-- `matrix_impl`
pub record Matrix (A : Type 0) : Type 0 where
  pub data_at : ℕ → A
  pub size : ℕ
  pub rows : ℕ
  pub columns : ℕ
  pub row_ptrs : ℕ → ℕ

-- `SIZE_MAX`
abbrev pub size_max : ℕ
size_max = 2 ^ 64 - 1

-- The cell of row `r` and column `c`, which the C writes `row_ptrs[r][c]`.
abbrev pub cell : {A : Type 0} → Matrix A → ℕ → ℕ → A
cell m r c = m.data_at (m.row_ptrs r + c)

-- The loop of `update_row_ptrs`: the pointer to the next row, and the row pointers so far.
abbrev pub fill_row_ptrs : ℕ → ℕ → ℕ × (ℕ → ℕ)
fill_row_ptrs rows columns =
    for_below rows (λ r (row_ptr, ptrs). (row_ptr + columns, update ptrs r row_ptr)) (0, λ _. 0)

-- `allocated` tells whether the allocator has memory.
unfoldable pub update_row_ptrs : {A : Type 0} → (allocated : Bool) → Matrix A → Option (Matrix A)
update_row_ptrs allocated m =
    if allocated then some (record m { row_ptrs = (fill_row_ptrs m.rows m.columns).1 }) else none

unfoldable pub impl_new :
    {A : Type 0} → (nought : A) → (allocated : Bool) → ℕ → ℕ → Option (Matrix A)
unfolding update_row_ptrs
impl_new nought allocated rows columns =
    if not (columns == 0) && ltb (size_max / columns) rows
    then none
    else update_row_ptrs allocated (record {
      data_at = λ _. nought;
      size = rows * columns % 2 ^ 64;
      rows = rows;
      columns = columns;
      row_ptrs = λ _. 0;
    })

-- The state of the copying loops of `impl_transpose`.
pub record Copying (A : Type 0) : Type 0 where
  pub src_ptr : ℕ
  pub dst_ptr : ℕ
  pub dst : ℕ → A

abbrev pub transpose_column : {A : Type 0} → (src : ℕ → A) → (M N : ℕ) → Copying A → Copying A
transpose_column src M N s =
    for_below M
      (λ _ t. record {
        src_ptr = t.src_ptr + N;
        dst_ptr = t.dst_ptr + 1;
        dst = update t.dst t.dst_ptr (src t.src_ptr);
      })
      s

-- The outer loop's `src_col_ptr` is its state's `src_ptr`.
abbrev pub transpose_data : {A : Type 0} → (src dst : ℕ → A) → (M N : ℕ) → Copying A
transpose_data src dst M N =
    for_below N (λ _ s. record (transpose_column src M N s) { src_ptr = s.src_ptr + 1 })
      (record { src_ptr = 0; dst_ptr = 0; dst = dst })

-- `memcpy` of `n` doubles.
abbrev pub copy_data : {A : Type 0} → ℕ → (src dst : ℕ → A) → ℕ → A
copy_data n src dst j = if ltb j n then src j else dst j

unfoldable pub impl_transpose :
    {A : Type 0} → (nought : A) → (allocated : Bool) → Matrix A → Option (Matrix A)
unfolding impl_new
impl_transpose nought allocated m = elim (impl_new nought allocated m.columns m.rows) [
  | none ↦ none
  | some t ↦
      if m.rows == 1 || m.columns == 1
      then some (record t { data_at = copy_data m.size m.data_at t.data_at })
      else some (record t { data_at = (transpose_data m.data_at t.data_at m.rows m.columns).dst })
]

-- `impl_matmul`, with the addition and the multiplication of doubles.
module _ {A : Type 0} (nought : A) (plus times : A → A → A) where
  abbrev pub matmul_row : Matrix A → Matrix A → Matrix A → (r k : ℕ) → (ℕ → A) → ℕ → A
  matmul_row lhs rhs out r k row =
      let a = cell lhs r k in
      for_below rhs.columns
        (λ c d.
          update d (out.row_ptrs r + c) (plus (d (out.row_ptrs r + c)) (times a (cell rhs k c))))
        row

  unfoldable pub impl_matmul : Matrix A → Matrix A → Matrix A → Matrix A
  impl_matmul lhs rhs out = record out {
    data_at =
        for_below lhs.rows (λ r d. for_below lhs.columns (λ k e. matmul_row lhs rhs out r k e) d)
          (copy_data out.size (λ _. nought) out.data_at);
  }
