-- ===== src/Matrix/Aggregate/Kernels.antt =====
-- What each kernel of the aggregates in _math.c computes.
use bocpy.Base.{
  ℕ, suc, ◌+◌, ◌*◌, ◌≡◌, ◌<◌, ◌≤◌, update, update_self, update_ne, for_below, for_below_lem,
  for_below-update, arith, refl, ap, ap₂, ◌∙◌,
}
use mathlib.Core.Path.{subst}
use native.Mathlib.Decide.{ℕ_discrete}
use bocpy.Matrix.{Matrix}
use bocpy.Matrix.Aggregate.{
  Aggregate, four_lanes, impl_agg_ewise, impl_agg_rowwise, impl_agg_columnwise, fold_cells,
}
use bocpy.Matrix.Aggregate.Lanes.{in_lanes, four_lanes_lem}

-- A loop that changes entry `i` in round `i`, by its value before.
module _ {A : Type 0} (f : ℕ → A → A) (n : ℕ) (start : ℕ → A) where
  each_entry : (j : ℕ) → j < n → for_below n (λ i d. update d i (f i (d i))) start j ≡ f j (start j)
  each_entry j below =
      (for_below_lem
          (λ i d. ((j : ℕ) → j < i → d j ≡ f j (start j)) × ((j : ℕ) → i ≤ j → d j ≡ start j)) n
          (λ i d. update d i (f i (d i))) start (λ j lt. absurd (omega arith), λ j le. refl)
          (λ i lt d (before, behind). (
            λ j lj. elim (ℕ_discrete i j) [
              | yes e ↦
                  subst (λ x. update d i (f i (d i)) x ≡ f x (start x)) e
                    (update_self d i (f i (d i)) ∙ ap (f i) (behind i (omega arith)))
              | no ne ↦ update_ne d i (f i (d i)) j ne ∙ before j (omega arith)
            ],
            λ j lj.
                update_ne d i (f i (d i)) j (λ e. absurd (omega (arith, e)))
                ∙ behind j (omega arith),
          ))).0
        j below

module _ {A : Type 0} (a : Aggregate A) (m vec : Matrix A) where
  abbrev pub row : ℕ → ℕ → A
  row r c = m.data_at (r * m.columns + c)

  abbrev pub column : ℕ → ℕ → A
  column c r = m.data_at (r * m.columns + c)

  rowwise_lem :
      (r : ℕ)
      → r < m.rows
      → (impl_agg_rowwise a m vec).data_at r ≡ a.final m.columns (four_lanes a (row r) m.columns)
  unfolding impl_agg_rowwise
  rowwise_lem r below =
      (for_below_lem {S = ℕ × (ℕ → A)}
          (λ i (mp, d).
            (mp ≡ i * m.columns)
            × ((j : ℕ) → j < i → d j ≡ a.final m.columns (four_lanes a (row j) m.columns)))
          m.rows _ (0, vec.data_at) (omega arith, λ j lt. absurd (omega arith))
          (λ i lt (mp, d) (at, done). (
            omega (arith, at),
            λ j lj. elim (ℕ_discrete i j) [
              | yes e ↦
                  subst
                    (λ x.
                      update d i
                        (a.final m.columns (four_lanes a (λ c. m.data_at (mp + c)) m.columns)) x
                      ≡ a.final m.columns (four_lanes a (row x) m.columns))
                    e
                    (update_self d i
                        (a.final m.columns (four_lanes a (λ c. m.data_at (mp + c)) m.columns))
                      ∙ ap
                          (λ k. a.final m.columns (four_lanes a (λ c. m.data_at (k + c)) m.columns))
                          at)
              | no ne ↦
                  update_ne d i
                    (a.final m.columns (four_lanes a (λ c. m.data_at (mp + c)) m.columns)) j ne
                  ∙ done j (omega arith)
            ],
          ))).1
        r below

  -- The entries left of `c` have taken row `r`, the others have not.
  abbrev Stepped : ℕ → ℕ → ℕ × (ℕ → A) → Type 0
  Stepped r c (mp, d) =
      (mp ≡ r * m.columns + c)
      × ((j : ℕ) → j < c → d j ≡ fold_cells a (column j) (suc r))
      × ((j : ℕ) → c ≤ j → j < m.columns → d j ≡ fold_cells a (column j) r)

  step_entry :
      (r c : ℕ)
      → c < m.columns
      → (s : ℕ × (ℕ → A)) → Stepped r c s
      → Stepped r (suc c) (s.0 + 1, update s.1 c (a.step (s.1 c) (m.data_at s.0)))
  step_entry r c lt (mp, d) (at, before, behind) = (
    omega (arith, at),
    λ j lj. elim (ℕ_discrete c j) [
      | yes e ↦
          subst (λ x. update d c (a.step (d c) (m.data_at mp)) x ≡ fold_cells a (column x) (suc r))
            e
            (update_self d c (a.step (d c) (m.data_at mp))
              ∙ ap₂ a.step (behind c (omega arith) lt) (ap m.data_at at))
      | no ne ↦ update_ne d c (a.step (d c) (m.data_at mp)) j ne ∙ before j (omega arith)
    ],
    λ j lj ln.
        update_ne d c (a.step (d c) (m.data_at mp)) j (λ e. absurd (omega (arith, e)))
        ∙ behind j (omega arith) ln,
  )

  columns_stepped :
      (cleared : ℕ → A)
      → ((j : ℕ) → j < m.columns → cleared j ≡ a.init)
      → (j : ℕ) → j < m.columns
      → (for_below {S = ℕ × (ℕ → A)} m.rows
            (λ r s.
              for_below m.columns
                (λ c (mp, d). (mp + 1, update d c (a.step (d c) (m.data_at mp))))
                s)
            (0, cleared)).1
          j
        ≡ fold_cells a (column j) m.rows
  columns_stepped cleared clear j below =
      (for_below_lem {S = ℕ × (ℕ → A)}
          (λ r (mp, d).
            (mp ≡ r * m.columns) × ((j : ℕ) → j < m.columns → d j ≡ fold_cells a (column j) r))
          m.rows _ (0, cleared) (omega arith, clear)
          (λ r lt s (at, done).
            let (at', all, _) =
              for_below_lem {S = ℕ × (ℕ → A)} (λ c t. Stepped r c t) m.columns
                (λ c (mp, d). (mp + 1, update d c (a.step (d c) (m.data_at mp)))) s
                (omega (arith, at), λ j lj. absurd (omega arith), λ j le lj. done j lj)
                (λ c lc t. step_entry r c lc t) in
            (omega (arith, at'), all))).1
        j below

  columnwise_lem :
      (c : ℕ)
      → c < m.columns
      → (impl_agg_columnwise a m vec).data_at c ≡ a.final m.rows (fold_cells a (column c) m.rows)
  unfolding impl_agg_columnwise
  columnwise_lem c below =
      each_entry (λ i x. a.final m.rows x) m.columns _ c below
      ∙ ap (a.final m.rows) (
          columns_stepped (for_below m.columns (λ c d. update d c a.init) vec.data_at)
            (for_below-update (λ i. a.init) m.columns vec.data_at) c below)

-- With no law assumed of the operations: an aggregate of a matrix or of a row is, with the number of its
-- cells given to the last step, what its four lanes give, where lane `j` folds every fourth cell from
-- the `j`-th on, the first lane also the cells left over, and the others are merged into the first in
-- order, unless there are fewer than four cells; an aggregate of a column folds its cells in order.
pub aggregate_lem :
    {A : Type 0} (a : Aggregate A) (m vec : Matrix A) (r c : ℕ)
    → r < m.rows
    → c < m.columns
    → (impl_agg_ewise a m ≡ a.final m.size (in_lanes a m.data_at m.size))
      × ((impl_agg_rowwise a m vec).data_at r
          ≡ a.final m.columns (in_lanes a (λ k. m.data_at (r * m.columns + k)) m.columns))
      × ((impl_agg_columnwise a m vec).data_at c
          ≡ a.final m.rows (fold_cells a (λ k. m.data_at (k * m.columns + c)) m.rows))
unfolding impl_agg_ewise
aggregate_lem a m vec r c lr lc = (
  ap (a.final m.size) (four_lanes_lem a m.data_at m.size),
  rowwise_lem a m vec r lr ∙ ap (a.final m.columns) (four_lanes_lem a (row a m vec r) m.columns),
  columnwise_lem a m vec c lc,
)
