-- ===== src/Matrix/Slice/Set.antt =====
-- The loops that the four `impl_set` functions of _math.c share.
use bocpy.Base.{
  ℕ, suc, ◌+◌, ◌*◌, ◌≡◌, ◌<◌, ◌⊎◌, inl, inr, update, update-cell_self, update-cell_ne,
  for_below_lem, arith, refl, sym, ap, ap₂, ◌∙◌,
}
use native.Mathlib.Decide.{ℕ_discrete}
use bocpy.Matrix.{Matrix}
use bocpy.Matrix.Shape.{WellFormed}
use bocpy.Matrix.Slice.{Range, advance, Setting, set_row, set_rows}
use bocpy.Matrix.Slice.Cells.{
  nth, IsAdjusted, advance-nth, nth_start, pointer, advance-pointer, pointer_start, cell_pointer,
}

module _ {A : Type 0} (m : Matrix A) (rows columns : Range) where
  -- The ranges do not name cell `(i, j)`.
  abbrev pub Outside : ℕ → ℕ → Type 0
  Outside i j =
      (a b : ℕ) → a < rows.count → b < columns.count → nth rows a ≡ i → nth columns b ≡ j → ⊥

  module _ (store : ℕ → A) (next_cell : ℕ → ℕ) (next_row : ℕ → ℕ → ℕ) (pos : ℕ → ℕ → ℕ) where
    -- The cells named before `(r, c)` hold what is stored for them, and the cells outside what they did.
    pub record Stored (r c : ℕ) (cells : ℕ → A) : Type 0 where
      pub named :
          (a b : ℕ)
          → a < rows.count
          → b < columns.count
          → a < r ⊎ ((a ≡ r) × (b < c))
          → cells (nth rows a * m.columns + nth columns b) ≡ store (pos a b)
      pub kept :
          (i j : ℕ)
          → j < m.columns
          → Outside i j
          → cells (i * m.columns + j) ≡ m.data_at (i * m.columns + j)

    abbrev Writing : (r c : ℕ) → Setting A → Type 0
    Writing r c t =
        (t.at ≡ pointer (m.row_ptrs (nth rows r)) columns c)
        × ((t.src_ptr ≡ pos r c) × Stored r c t.cells)

    abbrev At : ℕ → Setting A → Type 0
    At r s = (s.at ≡ nth rows r) × ((s.src_ptr ≡ pos r 0) × Stored r 0 s.cells)

    module _ (w : WellFormed m) (in_rows : IsAdjusted rows m.rows)
        (in_columns : IsAdjusted columns m.columns) (pos_start : pos 0 0 ≡ 0)
        (pos_cell : (r c : ℕ) → next_cell (pos r c) ≡ pos r (suc c))
        (pos_row : (r : ℕ) → next_row (pos r 0) (pos r columns.count) ≡ pos (suc r) 0) where
      store_cell :
          (r c : ℕ) (cells : ℕ → A)
          → r < rows.count
          → c < columns.count
          → Stored r c cells
          → Stored r
              (suc c)
              (update cells (nth rows r * m.columns + nth columns c) (store (pos r c)))
      store_cell r c cells lr lc s = record {
        named = λ a b la lb before. elim (ℕ_discrete r a) [
          | no ne ↦
              update-cell_ne cells m.columns (nth rows r) (nth columns c) (store (pos r c))
                (nth rows a) (nth columns b) (in_columns.inside c lc) (in_columns.inside b lb)
                (inl (λ e. ne (in_rows.differ r a lr la e)))
              ∙ s.named a b la lb (ground arith)
          | yes er ↦ elim (ℕ_discrete c b) [
            | no ne ↦
                update-cell_ne cells m.columns (nth rows r) (nth columns c) (store (pos r c))
                  (nth rows a) (nth columns b) (in_columns.inside c lc) (in_columns.inside b lb)
                  (inr (λ e. ne (in_columns.differ c b lc lb e)))
                ∙ s.named a b la lb (ground arith)
            | yes ec ↦
                update-cell_self cells m.columns (nth rows r) (nth columns c) (store (pos r c))
                  (nth rows a) (nth columns b) (ap (nth rows) er) (ap (nth columns) ec)
                ∙ ap₂ (λ x y. store (pos x y)) er ec
          ]
        ];
        kept = λ i j lj out. update-cell_other i j lj out ∙ s.kept i j lj out;
      }
        where
          update-cell_other :
              (i j : ℕ)
              → j < m.columns
              → Outside i j
              → update cells
                  (nth rows r * m.columns + nth columns c)
                  (store (pos r c))
                  (i * m.columns + j)
                ≡ cells (i * m.columns + j)
          update-cell_other i j lj out =
              update-cell_ne cells m.columns (nth rows r) (nth columns c) (store (pos r c)) i j
                (in_columns.inside c lc) lj
                (elim (ℕ_discrete (nth rows r) i) [
                  | no ne ↦ inl ne
                  | yes e ↦ inr (λ f. out r c lr lc e f)
                ])

      write_cell :
          (r c : ℕ) (t : Setting A)
          → r < rows.count
          → c < columns.count
          → Writing r c t
          → Writing r (suc c) (record {
            at = advance t.at columns.step;
            src_ptr = next_cell t.src_ptr;
            cells = update t.cells t.at (store t.src_ptr);
          })
      write_cell r c t lr lc (at, (src, stored)) = (
        ap (λ p. advance p columns.step) at ∙ advance-pointer (m.row_ptrs (nth rows r)) columns c,
        (
          ap next_cell src ∙ pos_cell r c,
          rw (at ∙ here, src) (store_cell r c t.cells lr lc stored),
        ),
      )
        where
          here :
              pointer (m.row_ptrs (nth rows r)) columns c ≡ nth rows r * m.columns + nth columns c
          here =
              cell_pointer m rows columns r c w in_rows in_columns lr lc
              ∙ ap (λ p. p + nth columns c) (w.row_at (nth rows r) (in_rows.inside r lr))

      write_row :
          (r : ℕ) (s : Setting A)
          → r < rows.count
          → At r s
          → Writing r columns.count (set_row m columns (λ _. store) next_cell s)
      write_row r s lr (at, (src, stored)) =
          for_below_lem (λ c t. Writing r c t) columns.count _ _
            (
              ap (λ i. advance (m.row_ptrs i) columns.start) at
                  ∙ pointer_start (m.row_ptrs (nth rows r)) columns,
              (src, stored),
            )
            (λ c lc t inv. write_cell r c t lr lc inv)

      row_Stored : (r : ℕ) (cells : ℕ → A) → Stored r columns.count cells → Stored (suc r) 0 cells
      row_Stored r cells s = record {
        named = λ a b la lb before. s.named a b la lb (ground arith);
        kept = s.kept;
      }

      next_row-At :
          (r : ℕ) (s : Setting A)
          → r < rows.count
          → At r s
          → At (suc r) (record (set_row m columns (λ _. store) next_cell s) {
            at = advance s.at rows.step;
            src_ptr = next_row s.src_ptr (set_row m columns (λ _. store) next_cell s).src_ptr;
          })
      next_row-At r s lr inv =
          let (_, (src, stored)) = write_row r s lr inv in
          (
            ap (λ p. advance p rows.step) inv.0 ∙ advance-nth rows r,
            (ap₂ next_row inv.1.0 src ∙ pos_row r, row_Stored r _ stored),
          )

      pub set_rows-Stored :
          Stored rows.count 0 (set_rows m rows columns (λ _. store) next_cell next_row).cells
      set_rows-Stored =
          (for_below_lem At rows.count _ _
            (
              nth_start rows in_rows.start_fits,
              (
                sym pos_start,
                record {
                  named = λ a b la lb before. absurd (ground arith);
                  kept = λ i j lj out. refl;
                },
              ),
            )
            (λ r lr s inv. next_row-At r s lr inv)).1.1
