-- ===== src/Matrix/Slice/Assign.antt =====
-- What the four `impl_set` functions of _math.c leave in a matrix, and that `impl_get` reads it back.
use bocpy.Base.{false, ℕ, ◌+◌, ◌*◌, ◌≡◌, ◌<◌, inl, arith, refl, sym, ap, ◌∙◌}
use bocpy.Matrix.{Matrix, cell}
use bocpy.Matrix.Shape.{WellFormed}
use bocpy.Matrix.Slice.{
  Range, set_rows, impl_get, impl_set_scalar, impl_set_rowwise, impl_set_columnwise, impl_set,
}
use bocpy.Matrix.Slice.Cells.{nth, IsAdjusted}
use bocpy.Matrix.Slice.Get.{impl_get_lem}
use bocpy.Matrix.Slice.Set.{Outside, Stored, set_rows-Stored}

module _ {A : Type 0} (m : Matrix A) (rows columns : Range) where
  -- The cells that the ranges name hold `v`, by their places in the ranges, and all others what they did.
  pub record Assigns (v : ℕ → ℕ → A) (t : Matrix A) : Type 0 where
    pub well_formed : WellFormed t
    pub named :
        (a b : ℕ) → a < rows.count → b < columns.count → cell t (nth rows a) (nth columns b) ≡ v a b
    pub kept :
        (i j : ℕ)
        → i < m.rows
        → j < m.columns
        → Outside m rows columns i j
        → cell t i j ≡ cell m i j

  module _ (w : WellFormed m) (in_rows : IsAdjusted rows m.rows)
      (in_columns : IsAdjusted columns m.columns) where
    assigned :
        (store : ℕ → A) (next_cell : ℕ → ℕ) (next_row : ℕ → ℕ → ℕ) (pos : ℕ → ℕ → ℕ)
        → Stored m rows columns store next_cell next_row pos rows.count 0
            (set_rows m rows columns (λ _. store) next_cell next_row).cells
        → Assigns
            (λ a b. store (pos a b))
            (record m { data_at = (set_rows m rows columns (λ _. store) next_cell next_row).cells })
    assigned store next_cell next_row pos s = record {
      well_formed = record {
        has_rows = w.has_rows;
        has_columns = w.has_columns;
        fits = w.fits;
        size_is = w.size_is;
        row_at = w.row_at;
      };
      named = λ a b la lb.
          ap
            (λ p.
              (set_rows m rows columns (λ _. store) next_cell next_row).cells (p + nth columns b))
            (w.row_at (nth rows a) (in_rows.inside a la))
          ∙ s.named a b la lb (inl la);
      kept = λ i j li lj out.
          ap (λ p. (set_rows m rows columns (λ _. store) next_cell next_row).cells (p + j))
            (w.row_at i li)
          ∙ s.kept i j lj out
          ∙ ap (λ p. m.data_at (p + j)) (sym (w.row_at i li));
    }

    submatrix-Assigns :
        (submatrix : Matrix A)
        → Assigns
            (λ a b. submatrix.data_at (a * columns.count + b))
            (impl_set false m rows columns submatrix)
    unfolding impl_set
    submatrix-Assigns submatrix =
        assigned submatrix.data_at (λ p. p + 1) (λ _ after. after) (λ a b. a * columns.count + b)
          (set_rows-Stored m rows columns submatrix.data_at (λ p. p + 1) (λ _ after. after)
            (λ a b. a * columns.count + b) w in_rows in_columns (omega arith) (λ r c. omega arith)
            (λ r. omega arith))

    -- The four `impl_set` functions, for ranges that lie in the matrix, put into the cells that the ranges
    -- name the value, the vector along each row, the vector along each column, or the submatrix in
    -- row-major order, and leave all other cells, if the submatrix is not the matrix itself.
    pub impl_set-Assigns :
        (value : A) (source : Matrix A)
        → Assigns (λ a b. value) (impl_set_scalar m rows columns value)
          × (Assigns (λ a b. source.data_at b) (impl_set_rowwise m rows columns source)
              × (Assigns (λ a b. source.data_at a) (impl_set_columnwise m rows columns source)
                  × Assigns
                      (λ a b. source.data_at (a * columns.count + b))
                      (impl_set false m rows columns source)))
    unfolding impl_set_scalar impl_set_rowwise impl_set_columnwise
    impl_set-Assigns value source = (
      assigned (λ _. value) (λ p. p) (λ _ after. after) (λ _ _. 0)
          (set_rows-Stored m rows columns (λ _. value) (λ p. p) (λ _ after. after) (λ _ _. 0) w
            in_rows in_columns refl (λ r c. refl) (λ r. refl)),
      (
        assigned source.data_at (λ p. p + 1) (λ _ _. 0) (λ _ b. b)
            (set_rows-Stored m rows columns source.data_at (λ p. p + 1) (λ _ _. 0) (λ _ b. b) w
              in_rows in_columns refl (λ r c. omega arith) (λ r. refl)),
        (
          assigned source.data_at (λ p. p) (λ _ after. after + 1) (λ a _. a)
              (set_rows-Stored m rows columns source.data_at (λ p. p) (λ _ after. after + 1)
                (λ a _. a) w in_rows in_columns refl (λ r c. refl) (λ r. omega arith)),
          submatrix-Assigns source,
        ),
      ),
    )

    -- Reading the ranges after `impl_set` wrote a submatrix to them that is not the matrix itself gives
    -- the submatrix.
    pub impl_get-impl_set :
        (submatrix out : Matrix A)
        → rows.count ≡ out.rows
        → columns.count ≡ out.columns
        → (i j : ℕ) → i < out.rows
        → j < out.columns
        → (impl_get (impl_set false m rows columns submatrix) rows columns out).data_at
            (i * out.columns + j)
          ≡ submatrix.data_at (i * out.columns + j)
    unfolding impl_set
    impl_get-impl_set submatrix out er ec i j li lj =
        let s = submatrix-Assigns submatrix in
        impl_get_lem (impl_set false m rows columns submatrix) out rows columns s.well_formed
          in_rows in_columns er ec i j li lj
        ∙ s.named i j (omega arith) (omega arith)
        ∙ ap (λ n. submatrix.data_at (i * n + j)) ec
