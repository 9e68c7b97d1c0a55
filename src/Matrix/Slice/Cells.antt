-- ===== src/Matrix/Slice/Cells.antt =====
-- Which cells the ranges of _math.c name, and what its reads and writes at ranges do to them.
use bocpy.Base.{ℕ, suc, ◌+◌, ◌*◌, ◌%◌, ◌^◌, ◌≡◌, ◌<◌, cell_in, arith, sym, ap, ◌∙◌}
use native.Mathlib.Nat.{mod-add-mod, add-mod-mod, mod-eq_of_lt}
use bocpy.Matrix.{Matrix}
use bocpy.Matrix.Shape.{WellFormed}
use bocpy.Matrix.Slice.{Range, advance}

-- The `k`-th index that a range names.
abbrev pub nth : Range → ℕ → ℕ
nth r k = (r.start + k * r.step) % 2 ^ 64

-- What `PySlice_AdjustIndices` gives for a sequence of length `n`: the indices are in it, and differ.
pub record IsAdjusted (r : Range) (n : ℕ) : Type 0 where
  pub start_fits : r.start < 2 ^ 64
  pub inside : (k : ℕ) → k < r.count → nth r k < n
  pub differ : (k j : ℕ) → k < r.count → j < r.count → nth r k ≡ nth r j → k ≡ j

pub advance-nth : (r : Range) (k : ℕ) → advance (nth r k) r.step ≡ nth r (suc k)
advance-nth r k =
    mod-add-mod (r.start + k * r.step) (2 ^ 64) r.step ∙ ap (λ x. x % 2 ^ 64) (omega arith)

pub nth_start : (r : Range) → r.start < 2 ^ 64 → r.start ≡ nth r 0
nth_start r fits = sym (mod-eq_of_lt fits) ∙ ap (λ x. x % 2 ^ 64) (omega arith)

-- The pointer to the `k`-th cell of a range, from the pointer to a row.
abbrev pub pointer : ℕ → Range → ℕ → ℕ
pointer row_ptr r k = (row_ptr + (r.start + k * r.step)) % 2 ^ 64

pub advance-pointer :
    (row_ptr : ℕ) (r : Range) (k : ℕ)
    → advance (pointer row_ptr r k) r.step ≡ pointer row_ptr r (suc k)
advance-pointer row_ptr r k =
    mod-add-mod (row_ptr + (r.start + k * r.step)) (2 ^ 64) r.step
    ∙ ap (λ x. x % 2 ^ 64) (omega arith)

pub pointer_start : (row_ptr : ℕ) (r : Range) → advance row_ptr r.start ≡ pointer row_ptr r 0
pointer_start row_ptr r = ap (λ x. x % 2 ^ 64) (omega arith)

-- A pointer to a cell of the matrix does not wrap.
pub pointer_cell :
    (row_ptr : ℕ) (r : Range) (k : ℕ)
    → row_ptr + nth r k < 2 ^ 64
    → pointer row_ptr r k ≡ row_ptr + nth r k
pointer_cell row_ptr r k fits =
    sym (add-mod-mod row_ptr (r.start + k * r.step) (2 ^ 64)) ∙ mod-eq_of_lt fits

pub cell_pointer :
    {A : Type 0} (m : Matrix A) (rows columns : Range) (r c : ℕ)
    → WellFormed m
    → IsAdjusted rows m.rows
    → IsAdjusted columns m.columns
    → r < rows.count
    → c < columns.count
    → pointer (m.row_ptrs (nth rows r)) columns c ≡ m.row_ptrs (nth rows r) + nth columns c
cell_pointer m rows columns r c w ir ic lr lc = pointer_cell (m.row_ptrs (nth rows r)) columns c (
    rw (w.row_at (nth rows r) (ir.inside r lr)) (
      omega (
        arith,
        w.fits,
        cell_in (nth rows r) (nth columns c) m.rows m.columns (ir.inside r lr) (ic.inside c lc),
      )))
