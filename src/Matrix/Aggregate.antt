-- ===== src/Matrix/Aggregate.antt =====
-- The aggregates of _math.c: the kernels that its macros stamp for sums, means, magnitudes, least and
-- greatest cells of a matrix, of its rows and of its columns, over all cells or over those that a mask
-- includes. `init`, `step`, `merge` and `final` are the macro's expressions, `empty` the value of
-- BOC_AGG_MASKED_EMPTY, and `is_nought` the test `== 0.0`.
pub mod Lanes
pub mod Kernels
pub mod Masked
mod Tests
use bocpy.Base.{
  ℕ, zero, suc, ◌+◌, ◌-◌, ◌*◌, ◌/◌, ◌%◌, if◌then◌else◌, ltb, Bool, true, false, update, for_below,
}
use bocpy.Matrix.{Matrix, cell}

-- One row of the table BOC_AGG_OPS.
pub record Aggregate (A : Type 0) : Type 0 where
  pub init : A
  pub step : A → A → A
  pub merge : A → A → A
  pub final : (cnt : ℕ) → A → A
  pub empty : A

module _ {A : Type 0} (a : Aggregate A) where
  -- `AGG_LANE_STEP` and `AGG_UNROLL_4`.
  abbrev pub lane_step : (ℕ → A) → A → ℕ → ℕ → A
  lane_step acc value k = update acc k (a.step (acc k) value)

  abbrev pub unroll : (ℕ → A) → (sp : ℕ → A) → ℕ → ℕ → A
  unroll acc sp i =
      lane_step (lane_step (lane_step (lane_step acc (sp (i + 0)) 0) (sp (i + 1)) 1) (sp (i + 2)) 2)
        (sp (i + 3)) 3

  -- The loop with four accumulators over the cells `sp 0, ..., sp (cnt - 1)`.
  unfoldable pub four_lanes : (sp : ℕ → A) → ℕ → A
  four_lanes sp cnt =
      let main_end = cnt - cnt % 4 in
      let unrolled = for_below (main_end / 4) (λ k acc. unroll acc sp (4 * k)) (λ _. a.init) in
      let acc =
        for_below (cnt - main_end) (λ k acc. lane_step acc (sp (main_end + k)) 0) unrolled in
      if ltb 0 main_end
      then for_below 3 (λ k b. update b 0 (a.merge (b 0) (b (k + 1)))) acc 0
      else acc 0

  unfoldable pub impl_agg_ewise : Matrix A → A
  unfolding four_lanes
  impl_agg_ewise m = a.final m.size (four_lanes m.data_at m.size)

  unfoldable pub impl_agg_rowwise : Matrix A → Matrix A → Matrix A
  unfolding four_lanes
  impl_agg_rowwise m vec = record vec {
    data_at =
        (for_below {S = ℕ × (ℕ → A)} m.rows
          (λ r (mp, d). (
            mp + m.columns,
            update d r (a.final m.columns (four_lanes (λ i. m.data_at (mp + i)) m.columns)),
          ))
          (0, vec.data_at)).1;
  }

  unfoldable pub impl_agg_columnwise : Matrix A → Matrix A → Matrix A
  impl_agg_columnwise m vec =
      let cleared = for_below m.columns (λ c d. update d c a.init) vec.data_at in
      let stepped =
        (for_below {S = ℕ × (ℕ → A)} m.rows
          (λ r s.
            for_below m.columns (λ c (mp, d). (mp + 1, update d c (a.step (d c) (m.data_at mp)))) s)
          (0, cleared)).1 in
      record vec {
        data_at = for_below m.columns (λ c d. update d c (a.final m.rows (d c))) stepped;
      }

  module _ (is_nought : A → Bool) where
    -- The loop of the masked kernels: the accumulator and the number of included cells.
    abbrev pub masked_step : (sp kp : ℕ → A) → ℕ → A × ℕ → A × ℕ
    masked_step sp kp i (agg, cnt) =
        if is_nought (kp i) then (a.step agg a.init, cnt + 0) else (a.step agg (sp i), cnt + 1)

    unfoldable pub masked_loop : (sp kp : ℕ → A) → ℕ → A
    masked_loop sp kp n =
        let (agg, cnt) = for_below {S = A × ℕ} n (masked_step sp kp) (a.init, 0) in
        if ltb 0 cnt then a.final cnt agg else a.empty

    unfoldable pub impl_agg_masked_ewise : Matrix A → Matrix A → A
    unfolding masked_loop
    impl_agg_masked_ewise m mask = masked_loop m.data_at mask.data_at m.size

    unfoldable pub impl_agg_masked_rowwise : Matrix A → Matrix A → Matrix A → Matrix A
    unfolding masked_loop
    impl_agg_masked_rowwise m mask vec = record vec {
      data_at =
          for_below m.rows
            (λ r d. update d r (masked_loop (λ c. cell m r c) (λ c. cell mask r c) m.columns))
            vec.data_at;
    }

    unfoldable pub impl_agg_masked_columnwise : Matrix A → Matrix A → Matrix A → Matrix A
    unfolding masked_loop
    impl_agg_masked_columnwise m mask vec = record vec {
      data_at =
          for_below m.columns
            (λ c d. update d c (masked_loop (λ r. cell m r c) (λ r. cell mask r c) m.rows))
            vec.data_at;
    }

-- The cells, folded in their order.
abbrev pub fold_cells : {A : Type 0} → Aggregate A → (sp : ℕ → A) → ℕ → A
fold_cells a sp n = for_below n (λ i agg. a.step agg (sp i)) a.init
