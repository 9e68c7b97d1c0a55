-- ===== src/Matrix/Aggregate/Tests.antt =====
-- The aggregates at matrices of numbers.
use bocpy.Base.{ℕ, ◌+◌, ◌*◌, ◌≡◌, refl, arith}
use bocpy.Matrix.{Matrix}
use bocpy.Matrix.Shape.{fresh}
use bocpy.Matrix.Aggregate.{
  Aggregate, impl_agg_ewise, impl_agg_rowwise, impl_agg_columnwise, fold_cells,
}
use bocpy.Matrix.Aggregate.Lanes.{in_lanes}
use bocpy.Matrix.Aggregate.Kernels.{aggregate_lem}

-- The sum of squares.
abbrev squares : Aggregate ℕ
squares = record {
  init = 0;
  step = λ agg v. agg + v * v;
  merge = λ agg v. agg + v;
  final = λ cnt agg. agg;
  empty = 0;
}

-- The cells 0 to 9 in two rows.
abbrev grid : Matrix ℕ
grid = record (fresh 0 2 5) { data_at = λ j. j }

abbrev out : Matrix ℕ
out = fresh 0 1 5

squares_of_all : impl_agg_ewise squares grid ≡ 285
unfolding impl_agg_ewise
squares_of_all = refl

aggregate_lem_example :
    (impl_agg_ewise squares grid ≡ in_lanes squares grid.data_at 10)
    × ((impl_agg_rowwise squares grid out).data_at 1
        ≡ in_lanes squares (λ k. grid.data_at (1 * 5 + k)) 5)
    × ((impl_agg_columnwise squares grid out).data_at 3
        ≡ fold_cells squares (λ k. grid.data_at (k * 5 + 3)) 2)
aggregate_lem_example = aggregate_lem squares grid out 1 3 (omega arith) (omega arith)
