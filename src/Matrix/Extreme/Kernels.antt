-- ===== src/Matrix/Extreme/Kernels.antt =====
-- The six arg-reduction kernels of _math.c, by the loops they share.
use bocpy.Base.{
  ℕ, ◌+◌, ◌*◌, ◌≡◌, ◌<◌, Bool, true, Option, some, for_below-update, cell_in, arith, ap,
}
use bocpy.Matrix.{Matrix, cell}
use bocpy.Matrix.Shape.{WellFormed}
use bocpy.Matrix.Extreme.{
  scan, argextreme_ewise, argextreme_columnwise, argextreme_rowwise, scan_masked, index_of,
  argextreme_masked_ewise, argextreme_masked_columnwise, argextreme_masked_rowwise,
}
use bocpy.Matrix.Extreme.Order.{IsOrder}
use bocpy.Matrix.Extreme.First.{IsFirst, scan-IsFirst, IsFirst-agree}
use bocpy.Matrix.Extreme.Masked.{FirstIncluded, scan_masked-FirstIncluded}

module _ {A : Type 0} (lt : A → A → Bool) (order : IsOrder lt) (of_index : Option ℕ → A)
    (m out : Matrix A) (want_max : Bool) where
  size_pos : WellFormed m → 0 < m.size
  size_pos w = rw (w.size_is) (omega (arith, cell_in 0 0 m.rows m.columns w.has_rows w.has_columns))

  abbrev all : ℕ → Bool
  all _ = true

  -- The index that the kernel finds for one column or row.
  abbrev pub PublishesFirst : (ℕ → A) → ℕ → A → Type 0
  PublishesFirst p n d = (i : ℕ) × ((d ≡ of_index (some i)) × IsFirst lt want_max p order all n i)

  published :
      (p q : ℕ → A) (n : ℕ) (d : A)
      → 0 < n
      → d ≡ of_index (some (scan lt want_max p n).1)
      → ((j : ℕ) → j < n → q j ≡ p j)
      → PublishesFirst q n d
  published p q n d pos e same = (
    (scan lt want_max p n).1,
    (
      e,
      IsFirst-agree lt want_max p q order all n (scan lt want_max p n).1 same
          (scan-IsFirst lt want_max p order n pos),
    ),
  )

  -- Of a well-formed matrix, `argextreme_ewise` gives the index of the first cell if that is NaN, and
  -- otherwise that of the first extreme of the cells that are not NaN; `argextreme_columnwise` and
  -- `argextreme_rowwise` publish that of each column and of each row.
  pub argextreme_lem :
      WellFormed m
      → IsFirst lt want_max m.data_at order all m.size (argextreme_ewise lt m want_max)
        × (((c : ℕ)
              → c < m.columns
              → PublishesFirst
                  (λ r. cell m r c)
                  m.rows
                  ((argextreme_columnwise lt of_index m want_max out).data_at c))
            × ((r : ℕ)
                → r < m.rows
                → PublishesFirst
                    (λ c. cell m r c)
                    m.columns
                    ((argextreme_rowwise lt of_index m want_max out).data_at r)))
  unfolding argextreme_ewise argextreme_columnwise argextreme_rowwise
  argextreme_lem w = (
    scan-IsFirst lt want_max m.data_at order m.size (size_pos w),
    (
      λ c lc.
          published (λ r. m.data_at (r * m.columns + c)) (λ r. cell m r c) m.rows _ w.has_rows
            (for_below-update
              (λ c.
                of_index (some (scan lt want_max (λ r. m.data_at (r * m.columns + c)) m.rows).1))
              m.columns out.data_at c lc)
            (λ r lr. ap (λ k. m.data_at (k + c)) (w.row_at r lr)),
      λ r lr.
          published (λ c. m.data_at (r * m.columns + c)) (λ c. cell m r c) m.columns _ w.has_columns
            (for_below-update
              (λ r.
                of_index (some (scan lt want_max (λ c. m.data_at (r * m.columns + c)) m.columns).1))
              m.rows out.data_at r lr)
            (λ c lc. ap (λ k. m.data_at (k + c)) (w.row_at r lr)),
    ),
  )

  module _ (is_nought : A → Bool) (mask : Matrix A) where
    -- The first extreme of the included cells of one column or row, or that none is included.
    abbrev pub PublishesIncluded : (ℕ → A) → (ℕ → A) → ℕ → A → Type 0
    PublishesIncluded p k n d =
        (o : Option ℕ) × ((d ≡ of_index o) × FirstIncluded lt want_max p order is_nought k n o)

    -- On doubles with NaN among them: `argextreme_masked_ewise` gives, of the cells that the mask includes,
    -- the index of the first if that is NaN, and otherwise the index of the first extreme of those that
    -- are not NaN; `argextreme_masked_columnwise` and `argextreme_masked_rowwise` publish that of each
    -- column and of each row. They give no index (the C's -1) only where the mask includes no cell.
    pub argextreme_masked_lem :
        FirstIncluded lt want_max m.data_at order is_nought mask.data_at m.size
          (argextreme_masked_ewise lt is_nought m mask want_max)
        × (((c : ℕ)
              → c < m.columns
              → PublishesIncluded
                  (λ r. cell m r c)
                  (λ r. cell mask r c)
                  m.rows
                  ((argextreme_masked_columnwise lt is_nought of_index m mask want_max out).data_at
                    c))
            × ((r : ℕ)
                → r < m.rows
                → PublishesIncluded
                    (λ c. cell m r c)
                    (λ c. cell mask r c)
                    m.columns
                    ((argextreme_masked_rowwise lt is_nought of_index m mask want_max out).data_at
                      r)))
    unfolding argextreme_masked_ewise argextreme_masked_columnwise argextreme_masked_rowwise
    argextreme_masked_lem = (
      scan_masked-FirstIncluded lt want_max m.data_at order is_nought mask.data_at m.size,
      (
        λ c lc. (
          _,
          (
            for_below-update
                (λ c. of_index (
                  index_of lt is_nought (
                    scan_masked lt is_nought want_max (λ r. cell m r c) (λ r. cell mask r c)
                      m.rows)))
                m.columns out.data_at c lc,
            scan_masked-FirstIncluded lt want_max (λ r. cell m r c) order is_nought
                (λ r. cell mask r c) m.rows,
          ),
        ),
        λ r lr. (
          _,
          (
            for_below-update
                (λ r. of_index (
                  index_of lt is_nought (
                    scan_masked lt is_nought want_max (λ c. cell m r c) (λ c. cell mask r c)
                      m.columns)))
                m.rows out.data_at r lr,
            scan_masked-FirstIncluded lt want_max (λ c. cell m r c) order is_nought
                (λ c. cell mask r c) m.columns,
          ),
        ),
      ),
    )
