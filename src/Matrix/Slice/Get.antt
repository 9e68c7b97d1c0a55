-- ===== src/Matrix/Slice/Get.antt =====
-- `impl_get` of _math.c.
use bocpy.Base.{
  ℕ, suc, ◌+◌, ◌*◌, ◌≡◌, ◌<◌, update, update_self, update_ne, for_below, for_below_lem, cell_in,
  cell_injective, arith, sym, ap, ap₂, ◌∙◌,
}
use mathlib.Core.Path.{subst}
use native.Mathlib.Decide.{ℕ_discrete}
use bocpy.Matrix.{Matrix, cell}
use bocpy.Matrix.Shape.{WellFormed}
use bocpy.Matrix.Slice.{Range, advance, Getting, get_row, impl_get}
use bocpy.Matrix.Slice.Cells.{
  nth, IsAdjusted, advance-nth, nth_start, pointer, advance-pointer, pointer_start, cell_pointer,
}

module _ {A : Type 0} (m out : Matrix A) (rows columns : Range) where
  abbrev Copied : (ℕ → A) → ℕ → Type 0
  Copied dst n =
      (i j : ℕ)
      → j < out.columns
      → i * out.columns + j < n
      → dst (i * out.columns + j) ≡ cell m (nth rows i) (nth columns j)

  abbrev Reading : (r c : ℕ) → Getting A → Type 0
  Reading r c t =
      (t.at ≡ pointer (m.row_ptrs (nth rows r)) columns c)
      × ((t.out_ptr ≡ r * out.columns + c) × Copied t.dst t.out_ptr)

  abbrev At : ℕ → Getting A → Type 0
  At r s = (s.at ≡ nth rows r) × ((s.out_ptr ≡ r * out.columns) × Copied s.dst s.out_ptr)

  module _ (w : WellFormed m) (in_rows : IsAdjusted rows m.rows)
      (in_columns : IsAdjusted columns m.columns) (rows_match : rows.count ≡ out.rows)
      (columns_match : columns.count ≡ out.columns) where
    read_cell :
        (r c : ℕ) (t : Getting A)
        → r < out.rows
        → c < out.columns
        → Reading r c t
        → Reading r (suc c) (record {
          at = advance t.at columns.step;
          out_ptr = t.out_ptr + 1;
          dst = update t.dst t.out_ptr (m.data_at t.at);
        })
    read_cell r c t lr lc (at, (ptr, done)) = (
      ap (λ p. advance p columns.step) at ∙ advance-pointer (m.row_ptrs (nth rows r)) columns c,
      (
        omega (arith, ptr),
        λ i j lj below. elim (ℕ_discrete t.out_ptr (i * out.columns + j)) [
          | yes e ↦
              let (er, ec) = cell_injective out.columns r c i j lc lj (sym ptr ∙ e) in
              subst
                (λ k.
                  update t.dst t.out_ptr (m.data_at t.at) k ≡ cell m (nth rows i) (nth columns j))
                e
                (update_self t.dst t.out_ptr (m.data_at t.at)
                  ∙ ap m.data_at (at ∙ here)
                  ∙ ap₂ (λ a b. cell m (nth rows a) (nth columns b)) er ec)
          | no ne ↦
              update_ne t.dst t.out_ptr (m.data_at t.at) (i * out.columns + j) ne
              ∙ done i j lj (omega arith)
        ],
      ),
    )
      where
        here : pointer (m.row_ptrs (nth rows r)) columns c ≡ m.row_ptrs (nth rows r) + nth columns c
        here = cell_pointer m rows columns r c w in_rows in_columns (omega arith) (omega arith)

    read_row :
        (r : ℕ) (s : Getting A)
        → r < out.rows
        → At r s
        → Reading r out.columns (get_row m columns out.columns s)
    read_row r s lr (at, (ptr, done)) =
        for_below_lem (λ c t. Reading r c t) out.columns _ _
          (
            ap (λ i. advance (m.row_ptrs i) columns.start) at
                ∙ pointer_start (m.row_ptrs (nth rows r)) columns,
            (omega (arith, ptr), done),
          )
          (λ c lc t inv. read_cell r c t lr lc inv)

    -- `impl_get`, where its asserts on the shapes hold and the ranges lie in the matrix, puts the cells
    -- that the ranges name into the output, in their order.
    pub impl_get_lem :
        (i j : ℕ)
        → i < out.rows
        → j < out.columns
        → (impl_get m rows columns out).data_at (i * out.columns + j)
          ≡ cell m (nth rows i) (nth columns j)
    unfolding impl_get
    impl_get_lem i j li lj =
        let (_, (ptr, done)) = all in
        done i j lj (rw (ptr) (cell_in i j out.rows out.columns li lj))
      where
        next :
            (r : ℕ) (s : Getting A)
            → r < out.rows
            → At r s
            → At (suc r) (record (get_row m columns out.columns s) { at = advance s.at rows.step })
        next r s lr inv =
            let (_, (ptr, done)) = read_row r s lr inv in
            (ap (λ p. advance p rows.step) inv.0 ∙ advance-nth rows r, (omega (arith, ptr), done))

        all : At out.rows (
            for_below out.rows
              (λ _ s. record (get_row m columns out.columns s) { at = advance s.at rows.step })
              (record { at = rows.start; out_ptr = 0; dst = out.data_at }))
        all =
            for_below_lem At out.rows _ _
              (
                nth_start rows in_rows.start_fits,
                (omega arith, λ i j lj below. absurd (omega arith)),
              )
              (λ r lr s inv. next r s lr inv)
