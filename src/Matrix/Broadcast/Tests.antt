-- ===== src/Matrix/Broadcast/Tests.antt =====
-- The element-wise kernels at matrices of numbers.
use bocpy.Base.{ℕ, ◌+◌, ◌≡◌, if◌then◌else◌, true, some, refl, arith}
use bocpy.Matrix.{Matrix}
use bocpy.Matrix.Shape.{fresh}
use bocpy.Matrix.Broadcast.{impl_rowwise, impl_columnwise, impl_ewise, impl_broadcast_vector}
use bocpy.Matrix.Broadcast.Spread.{broadcast_lem}

-- The cells 0 to 5 in two rows, and the row 1, 2, 3.
abbrev grid : Matrix ℕ
grid = record (fresh 0 2 3) { data_at = λ j. j }

abbrev line : Matrix ℕ
line = record (fresh 0 1 3) { data_at = λ j. j + 1 }

spread_line : (full : Matrix ℕ) × (impl_broadcast_vector 0 true line 2 3 true ≡ some full)
unfolding impl_broadcast_vector
spread_line = (_, refl)

adds_in_place : (impl_rowwise (λ a b. a + b) true grid line grid).data_at 4 ≡ 6
unfolding impl_rowwise
adds_in_place = refl

broadcast_lem_example :
    (if true
        then impl_rowwise (λ a b. a + b) true grid line grid
        else impl_columnwise (λ a b. a + b) true grid line grid).data_at
      4
    ≡ (impl_ewise (λ a b. a + b) true grid spread_line.0 grid).data_at 4
broadcast_lem_example =
    broadcast_lem (λ a b. a + b) true 0 true grid line grid spread_line.0 true (omega arith)
      (λ over i. refl) spread_line.1 4 (omega arith)
