-- ===== src/Matrix/Tests.antt =====
-- The theorems on matrices at matrices of numbers.
use bocpy.Base.{
  ℕ, zero, suc, ◌+◌, ◌*◌, ◌≡◌, ◌<◌, ◌⊎◌, ◌==◌, if◌then◌else◌, Bool, true, false, ltb, Option, none,
  some, arith, refl,
}
use bocpy.Matrix.{Matrix, cell, size_max, impl_new, impl_transpose, impl_matmul}
use bocpy.Matrix.Shape.{WellFormed, Fresh, fresh, fresh-WellFormed, impl_new_lem}
use bocpy.Matrix.Transpose.{Transposed, impl_transpose-Transposed}
use bocpy.Matrix.Product.{dot, impl_matmul_lem}
use bocpy.Matrix.Extreme.{
  argextreme_masked_ewise, argextreme_masked_columnwise, argextreme_masked_rowwise,
}
use bocpy.Matrix.Extreme.Order.{IsOrder}
use bocpy.Matrix.Extreme.Masked.{FirstIncluded}
use bocpy.Matrix.Extreme.Kernels.{PublishesIncluded, argextreme_masked_lem}

-- Cells 4, 1, 4 in the first row and 2, 9, 0 in the second.
abbrev table : Matrix ℕ
table = record (fresh 0 2 3) { data_at = values }
  where
    values : ℕ → ℕ
    values zero = 4
    values (suc zero) = 1
    values (suc (suc zero)) = 4
    values (suc (suc (suc zero))) = 2
    values (suc (suc (suc (suc zero)))) = 9
    values (suc (suc (suc (suc (suc j))))) = 0

table-WellFormed : WellFormed table
table-WellFormed =
    let f = fresh-WellFormed {A = ℕ} 0 2 3 (omega arith) (omega arith) (omega arith) in
    record {
      has_rows = f.has_rows;
      has_columns = f.has_columns;
      fits = f.fits;
      size_is = f.size_is;
      row_at = f.row_at;
    }

impl_new_lem_example :
    ((size_max < 2 * 3) × (impl_new {A = ℕ} 0 true 2 3 ≡ none))
    ⊎ ((m : Matrix ℕ) × ((impl_new 0 true 2 3 ≡ some m) × Fresh 0 2 3 m))
impl_new_lem_example = impl_new_lem 0 2 3 (omega arith) (omega arith)

impl_transpose-Transposed_example :
    (t : Matrix ℕ) × ((impl_transpose 0 true table ≡ some t) × Transposed table t)
impl_transpose-Transposed_example = impl_transpose-Transposed 0 table table-WellFormed

abbrev wide : Matrix ℕ
wide = record (fresh 0 3 2) { data_at = λ j. j + 1 }

impl_matmul_lem_example :
    cell (impl_matmul 0 (λ a b. a + b) (λ a b. a * b) table wide (fresh 0 2 2)) 1 0
    ≡ dot 0 (λ a b. a + b) (λ a b. a * b) table wide (fresh 0 2 2) 1 0 3
impl_matmul_lem_example =
    impl_matmul_lem 0 (λ a b. a + b) (λ a b. a * b) table wide (fresh 0 2 2)
      (fresh-WellFormed 0 2 2 (omega arith) (omega arith) (omega arith)) refl refl 1 0 (omega arith)
      (omega arith)

-- Numbers with a NaN, `none`.
abbrev less : Option ℕ → Option ℕ → Bool
less none b = false
less (some a) none = false
less (some a) (some b) = ltb a b

abbrev unknown : Option ℕ → Bool
unknown none = true
unknown (some a) = false

less-IsOrder : IsOrder less
less-IsOrder = record {
  is_nan = unknown;
  nan_less = nan_less;
  less_nan = less_nan;
  asymmetric = asymmetric;
  not_less = not_less;
}
  where
    nan_less : (a b : Option ℕ) → unknown a ≡ true → less a b ≡ false
    nan_less none b e = refl
    nan_less (some a) b e = ground (arith, e)

    less_nan : (a b : Option ℕ) → unknown b ≡ true → less a b ≡ false
    less_nan none b e = refl
    less_nan (some a) none e = refl
    less_nan (some a) (some b) e = ground (arith, e)

    asymmetric : (a b : Option ℕ) → less a b ≡ true → less b a ≡ false
    asymmetric none none h = refl
    asymmetric none (some b) h = refl
    asymmetric (some a) none h = refl
    asymmetric (some a) (some b) h = ground (arith, h)

    not_less :
        (a b c : Option ℕ)
        → unknown b ≡ false
        → less a b ≡ false
        → less b c ≡ false
        → less a c ≡ false
    not_less none b c e h k = refl
    not_less (some a) b none e h k = refl
    not_less (some a) none (some c) e h k = ground (arith, e)
    not_less (some a) (some b) (some c) e h k = ground (arith, h, k)

-- Cells 4, NaN, 1 in the first row and NaN, 9, 0 in the second.
abbrev readings : Matrix (Option ℕ)
readings = record (fresh none 2 3) { data_at = values }
  where
    values : ℕ → Option ℕ
    values zero = some 4
    values (suc zero) = none
    values (suc (suc zero)) = some 1
    values (suc (suc (suc zero))) = none
    values (suc (suc (suc (suc zero)))) = some 9
    values (suc (suc (suc (suc (suc j))))) = some 0

abbrev zero_or_none : Option ℕ → Bool
zero_or_none none = false
zero_or_none (some a) = a == 0

-- A mask that leaves out the cell that is 9.
abbrev mask : Matrix (Option ℕ)
mask = record (fresh none 2 3) { data_at = λ j. if◌then◌else◌ (j == 4) (some 0) (some 1) }

abbrev least_index : Option ℕ
least_index = argextreme_masked_ewise less zero_or_none readings mask false

argextreme_masked_lem_example :
    FirstIncluded less false readings.data_at less-IsOrder zero_or_none mask.data_at 6 least_index
    × (((c : ℕ)
          → c < 3
          → PublishesIncluded less less-IsOrder
              (λ i. i)
              readings
              (fresh none 1 3)
              false
              zero_or_none
              mask
              (λ r. cell readings r c)
              (λ r. cell mask r c)
              2
              ((argextreme_masked_columnwise less zero_or_none
                  (λ i. i)
                  readings
                  mask
                  false
                  (fresh none 1 3)).data_at
                c))
        × ((r : ℕ)
            → r < 2
            → PublishesIncluded less less-IsOrder
                (λ i. i)
                readings
                (fresh none 1 3)
                false
                zero_or_none
                mask
                (λ c. cell readings r c)
                (λ c. cell mask r c)
                3
                ((argextreme_masked_rowwise less zero_or_none
                    (λ i. i)
                    readings
                    mask
                    false
                    (fresh none 1 3)).data_at
                  r)))
argextreme_masked_lem_example =
    argextreme_masked_lem less less-IsOrder (λ i. i) readings (fresh none 1 3) false zero_or_none
      mask

-- The least included cell is the last one.
last_is_least : least_index ≡ some 5
unfolding argextreme_masked_ewise
last_is_least = refl
