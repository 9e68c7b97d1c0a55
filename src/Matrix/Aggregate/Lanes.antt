-- ===== src/Matrix/Aggregate/Lanes.antt =====
-- The order in which the four accumulators of an aggregate in _math.c take and merge the cells.
use bocpy.Base.{
  ℕ, ◌+◌, ◌-◌, ◌*◌, ◌/◌, ◌%◌, ◌≡◌, if◌then◌else◌, ltb, true, false, for_below, for_below_lem, arith,
  refl, ap, ap₂, ◌∙◌, Bool-cases, inl, inr,
}
use bocpy.Matrix.Aggregate.{Aggregate, lane_step, unroll, four_lanes}

module _ {A : Type 0} (a : Aggregate A) (sp : ℕ → A) where
  -- The fold of every fourth of `4 * q` cells, from the `j`-th.
  abbrev pub lane : (j q : ℕ) → A
  lane j q = for_below q (λ k agg. a.step agg (sp (4 * k + j))) a.init

  -- The `n` cells from `start` on, which are left over, go to the first lane.
  abbrev first_lane : (q start n : ℕ) → A
  first_lane q start n = for_below n (λ k agg. a.step agg (sp (start + k))) (lane 0 q)

  -- The lanes of `cnt` cells, merged one after another into the first, which is alone if there are fewer
  -- than four cells.
  abbrev pub in_lanes : (cnt : ℕ) → A
  in_lanes cnt =
      let q = cnt / 4 in
      let first = first_lane q (4 * q) (cnt % 4) in
      if ltb cnt 4
      then first
      else a.merge (a.merge (a.merge first (lane 1 q)) (lane 2 q)) (lane 3 q)

  abbrev Lanes : ℕ → (ℕ → A) → Type 0
  Lanes q acc =
      (acc 0 ≡ lane 0 q) × ((acc 1 ≡ lane 1 q) × ((acc 2 ≡ lane 2 q) × (acc 3 ≡ lane 3 q)))

  unrolled_lem : (q : ℕ) → Lanes q (for_below q (λ k acc. unroll a acc sp (4 * k)) (λ _. a.init))
  unrolled_lem q =
      for_below_lem (λ k acc. Lanes k acc) q (λ k acc. unroll a acc sp (4 * k)) (λ _. a.init)
        (refl, (refl, (refl, refl)))
        (λ k lt acc (h0, (h1, (h2, h3))). (
          ap (λ x. a.step x (sp (4 * k + 0))) h0,
          (
            ap (λ x. a.step x (sp (4 * k + 1))) h1,
            (ap (λ x. a.step x (sp (4 * k + 2))) h2, ap (λ x. a.step x (sp (4 * k + 3))) h3),
          ),
        ))

  tail_lem :
      (acc : ℕ → A) (q start n : ℕ)
      → Lanes q acc
      → let t = for_below n (λ k b. lane_step a b (sp (start + k)) 0) acc in
        (t 0 ≡ first_lane q start n) × ((t 1 ≡ lane 1 q) × ((t 2 ≡ lane 2 q) × (t 3 ≡ lane 3 q)))
  tail_lem acc q start n lanes =
      for_below_lem
        (λ k t.
          (t 0 ≡ first_lane q start k) × ((t 1 ≡ lane 1 q) × ((t 2 ≡ lane 2 q) × (t 3 ≡ lane 3 q))))
        n (λ k b. lane_step a b (sp (start + k)) 0) acc lanes
        (λ k lt t (h, others). (ap (λ x. a.step x (sp (start + k))) h, others))

  same_first :
      (q q' start start' n n' : ℕ)
      → q ≡ q'
      → start ≡ start'
      → n ≡ n'
      → first_lane q start n ≡ first_lane q' start' n'
  same_first q q' start start' n n' eq es en =
      ap (λ x. first_lane x start n) eq
      ∙ ap (λ x. first_lane q' x n) es
      ∙ ap (first_lane q' start') en

  pub four_lanes_lem : (cnt : ℕ) → four_lanes a sp cnt ≡ in_lanes cnt
  unfolding four_lanes
  four_lanes_lem cnt =
      let main_end : ℕ = cnt - cnt % 4 in
      let (h0, (h1, (h2, h3))) =
        tail_lem (for_below (main_end / 4) (λ k acc. unroll a acc sp (4 * k)) (λ _. a.init))
          (main_end / 4) main_end (cnt - main_end) (unrolled_lem (main_end / 4)) in
      let quarter : main_end / 4 ≡ cnt / 4 = omega arith in
      let first =
        h0
        ∙ same_first (main_end / 4) (cnt / 4) main_end (4 * (cnt / 4)) (cnt - main_end) (cnt % 4)
            quarter (omega arith) (omega arith) in
      elim (Bool-cases (ltb 0 (cnt - cnt % 4))) [
        | inl e ↦
            rw (e, four_there e)
              (ap₂ a.merge
                (ap₂ a.merge (ap₂ a.merge first (h1 ∙ ap (lane 1) quarter))
                  (h2 ∙ ap (lane 2) quarter))
                (h3 ∙ ap (lane 3) quarter))
        | inr e ↦ rw (e, too_few e) first
      ]
    where
      four_there : ltb 0 (cnt - cnt % 4) ≡ true → ltb cnt 4 ≡ false
      four_there e = ground (arith, e)

      too_few : ltb 0 (cnt - cnt % 4) ≡ false → ltb cnt 4 ≡ true
      too_few e = ground (arith, e)
