-- ===== src/Matrix/Transpose.antt =====
-- `impl_transpose` of _math.c, and its two loops of pointers.
use bocpy.Base.{
  ℕ, suc, ◌+◌, ◌*◌, ◌/◌, ◌%◌, ◌==◌, ◌≡◌, ◌<◌, ◌||◌, true, false, some, update, update_self,
  update_ne, for_below_lem, arith, refl, sym, ap, ◌∙◌, Bool-cases, cell_in, row_of, column_of,
  lt→ltb, ◌⊎◌, inl, inr,
}
use mathlib.Core.Path.{subst}
use native.Mathlib.Decide.{ℕ_discrete}
use bocpy.Matrix.{
  Matrix, cell, Copying, transpose_column, transpose_data, copy_data, impl_new, impl_transpose,
}
use bocpy.Matrix.Shape.{WellFormed, fresh, impl_new-fresh, fresh-WellFormed}

module _ {A : Type 0} (src : ℕ → A) (M N : ℕ) where
  -- The cells written so far hold the source's, by columns.
  abbrev Written : Copying A → Type 0
  Written s = (j : ℕ) → j < s.dst_ptr → s.dst j ≡ src (j % M * N + j / M)

  -- In column `r` of the source, at row `c`.
  abbrev Along : ℕ → ℕ → Copying A → Type 0
  Along r c s = (s.src_ptr ≡ r + c * N) × ((s.dst_ptr ≡ r * M + c) × Written s)

  copy_one :
      (r c : ℕ) (s : Copying A)
      → c < M
      → Along r c s
      → Along r (suc c) (record {
        src_ptr = s.src_ptr + N;
        dst_ptr = s.dst_ptr + 1;
        dst = update s.dst s.dst_ptr (src s.src_ptr);
      })
  copy_one r c s lt (at_src, (at_dst, written)) = (
    omega (arith, at_src),
    (
      omega (arith, at_dst),
      λ j below. elim (ℕ_discrete s.dst_ptr j) [
        | yes e ↦
            subst (λ i. update s.dst s.dst_ptr (src s.src_ptr) i ≡ src (i % M * N + i / M)) e
              (update_self s.dst s.dst_ptr (src s.src_ptr) ∙ ap src (at_src ∙ place))
        | no ne ↦ update_ne s.dst s.dst_ptr (src s.src_ptr) j ne ∙ written j (omega arith)
      ],
    ),
  )
    where
      place : r + c * N ≡ s.dst_ptr % M * N + s.dst_ptr / M
      place = rw (at_dst, column_of r c M lt, row_of r c M lt) (omega arith)

  transpose_column_lem :
      (r : ℕ) (s : Copying A) → Along r 0 s → Along r M (transpose_column src M N s)
  transpose_column_lem r s start =
      for_below_lem (λ c t. Along r c t) M _ s start (λ c lt t. copy_one r c t lt)

  transpose_data_lem : (dst : ℕ → A) → Along N 0 (transpose_data src dst M N)
  transpose_data_lem dst =
      for_below_lem (λ r s. Along r 0 s) N _ _
        (omega arith, (omega arith, λ j below. absurd (omega arith)))
        (λ r lt s inv. next_column r s inv (transpose_column_lem r s inv))
    where
      next_column :
          (r : ℕ) (s : Copying A)
          → Along r 0 s
          → Along r M (transpose_column src M N s)
          → Along (suc r) 0 (record (transpose_column src M N s) { src_ptr = s.src_ptr + 1 })
      next_column r s (at_src, _) (_, (at_dst, written)) =
          (omega (arith, at_src), (omega (arith, at_dst), written))

-- The matrix `t` is `m` with rows and columns swapped.
pub record Transposed {A : Type 0} (m t : Matrix A) : Type 0 where
  pub well_formed : WellFormed t
  pub rows_are : t.rows ≡ m.columns
  pub columns_are : t.columns ≡ m.rows
  pub cells : (r c : ℕ) → r < m.rows → c < m.columns → cell t c r ≡ cell m r c

-- A buffer of the swapped shape with the cells in the right places.
swapped-Transposed :
    {A : Type 0} (nought : A) (m : Matrix A) (dst : ℕ → A)
    → WellFormed m
    → ((r c : ℕ)
        → r < m.rows
        → c < m.columns
        → dst (c * m.rows + r) ≡ m.data_at (r * m.columns + c))
    → Transposed m (record (fresh nought m.columns m.rows) { data_at = dst })
swapped-Transposed nought m dst w right =
    let f =
      fresh-WellFormed nought m.columns m.rows w.has_columns w.has_rows (omega (arith, w.fits)) in
    record {
      well_formed = record {
        has_rows = f.has_rows;
        has_columns = f.has_columns;
        fits = f.fits;
        size_is = f.size_is;
        row_at = f.row_at;
      };
      rows_are = refl;
      columns_are = refl;
      cells = λ r c lr lc.
          ap (λ i. dst (i + r)) (f.row_at c lc)
          ∙ right r c lr lc
          ∙ ap (λ i. m.data_at (i + c)) (sym (w.row_at r lr));
    }

transposed_cells :
    {A : Type 0} (m : Matrix A) (dst : ℕ → A) (r c : ℕ)
    → r < m.rows
    → c < m.columns
    → (transpose_data m.data_at dst m.rows m.columns).dst (c * m.rows + r)
      ≡ m.data_at (r * m.columns + c)
transposed_cells m dst r c lr lc =
    let (_, (at_end, written)) = transpose_data_lem m.data_at m.rows m.columns dst in
    written (c * m.rows + r) (rw (at_end) (omega (arith, cell_in c r m.columns m.rows lc lr)))
    ∙ ap m.data_at (rw (column_of c r m.rows lr, row_of c r m.rows lr) refl)

copied_cells :
    {A : Type 0} (m : Matrix A) (dst : ℕ → A) (r c : ℕ)
    → WellFormed m
    → m.rows ≡ 1 ⊎ m.columns ≡ 1
    → r < m.rows
    → c < m.columns
    → copy_data m.size m.data_at dst (c * m.rows + r) ≡ m.data_at (r * m.columns + c)
copied_cells m dst r c w vector lr lc =
    let inside : c * m.rows + r < m.size =
      rw (w.size_is) (omega (arith, cell_in c r m.columns m.rows lc lr)) in
    rw (lt→ltb (c * m.rows + r) m.size inside) (ap m.data_at (same vector))
  where
    same : m.rows ≡ 1 ⊎ m.columns ≡ 1 → c * m.rows + r ≡ r * m.columns + c
    same (inl e) = let first : r ≡ 0 = omega (arith, e) in rw (e, first) (omega arith)
    same (inr e) = let first : c ≡ 0 = omega (arith, e) in rw (e, first) (omega arith)

module _ {A : Type 0} (nought : A) (m : Matrix A) where
  transpose_vector :
      (m.rows == 1 || m.columns == 1) ≡ true
      → impl_new nought true m.columns m.rows ≡ some (fresh nought m.columns m.rows)
      → impl_transpose nought true m
        ≡ some (record (fresh nought m.columns m.rows) {
          data_at = copy_data m.size m.data_at (λ _. nought);
        })
  unfolding impl_transpose
  transpose_vector e f = rw (impl_transpose, f, e) refl

  transpose_general :
      (m.rows == 1 || m.columns == 1) ≡ false
      → impl_new nought true m.columns m.rows ≡ some (fresh nought m.columns m.rows)
      → impl_transpose nought true m
        ≡ some (record (fresh nought m.columns m.rows) {
          data_at = (transpose_data m.data_at (λ _. nought) m.rows m.columns).dst;
        })
  unfolding impl_transpose
  transpose_general e f = rw (impl_transpose, f, e) refl

  -- With memory, `impl_transpose` of a well-formed matrix gives a well-formed matrix with rows and
  -- columns swapped, on its copying branch for vectors as on the general one.
  pub impl_transpose-Transposed :
      WellFormed m → (t : Matrix A) × ((impl_transpose nought true m ≡ some t) × Transposed m t)
  impl_transpose-Transposed w =
      let new = impl_new-fresh nought m.columns m.rows w.has_rows (omega (arith, w.fits)) in
      elim (Bool-cases (m.rows == 1 || m.columns == 1)) [
        | inl e ↦ (
          _,
          (
            transpose_vector e new,
            swapped-Transposed nought m _ w
                (λ r c lr lc. copied_cells m (λ _. nought) r c w (ground arith) lr lc),
          ),
        )
        | inr e ↦ (
          _,
          (
            transpose_general e new,
            swapped-Transposed nought m _ w
                (λ r c lr lc. transposed_cells m (λ _. nought) r c lr lc),
          ),
        )
      ]
