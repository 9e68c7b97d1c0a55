-- ===== src/Matrix/Scatter/Listed.antt =====
-- The loops of the scattered writes of _math.c, on a buffer of rows.
use bocpy.Base.{
  ℕ, ◌+◌, ◌*◌, ◌==◌, ◌≡◌, ◌≢◌, ◌<◌, ◌≤◌, ◌⊎◌, if◌then◌else◌, Bool, true, false, update, for_below,
  for_below_lem, update_self, update_ne, cell_injective, arith, refl, sym, ap, ap₂, ◌∙◌, inl, inr,
}
use mathlib.Core.Path.{subst}
use native.Mathlib.Decide.{ℕ_discrete}
use bocpy.Matrix.Scatter.{put, put_named}

when_eq : {A : Type 0} (r i : ℕ) (x y : A) → r ≡ i → (if r == i then x else y) ≡ x
when_eq r i x y e = ground arith

when_ne : {A : Type 0} (r i : ℕ) (x y : A) → r ≢ i → (if r == i then x else y) ≡ y
when_ne r i x y ne = ground arith

module _ {A : Type 0} (plus : A → A → A) (accumulate : Bool) (columns : ℕ) where
  -- One write into a row.
  abbrev poke : (dst : ℕ) → (ℕ → A) → ℕ → A → ℕ → A
  poke dst e c v = update e (dst + c) (put plus accumulate (e (dst + c)) v)

  poke_self :
      (dst r c i j : ℕ) (e : ℕ → A) (v : A)
      → dst ≡ r * columns
      → r ≡ i
      → c ≡ j
      → poke dst e c v (i * columns + j) ≡ put plus accumulate (e (i * columns + j)) v
  poke_self dst r c i j e v at same_row same_column =
      let here : dst + c ≡ i * columns + j =
        ap (λ k. k + c) at ∙ ap₂ (λ x y. x * columns + y) same_row same_column in
      subst (λ k. poke dst e c v k ≡ put plus accumulate (e k) v) here
        (update_self e (dst + c) (put plus accumulate (e (dst + c)) v))

  poke_ne :
      (dst r c i j : ℕ) (e : ℕ → A) (v : A)
      → dst ≡ r * columns
      → c < columns
      → j < columns
      → (r ≢ i ⊎ c ≢ j)
      → poke dst e c v (i * columns + j) ≡ e (i * columns + j)
  poke_ne dst r c i j e v at lc lj other =
      update_ne e (dst + c) (put plus accumulate (e (dst + c)) v) (i * columns + j) (λ same.
        differ r c i j other
          (cell_injective columns r c i j lc lj (ap (λ k. k + c) (sym at) ∙ same)))
    where
      differ : (r c i j : ℕ) → (r ≢ i ⊎ c ≢ j) → (r ≡ i) × (c ≡ j) → ⊥
      differ r c i j (inl ne) (er, ec) = ne er
      differ r c i j (inr ne) (er, ec) = ne ec

  -- Each cell of a row takes its source once.
  fill_row :
      (dst r : ℕ) (src : ℕ → A) (d : ℕ → A)
      → dst ≡ r * columns
      → (i j : ℕ) → j < columns
      → for_below columns (λ c e. poke dst e c (src c)) d (i * columns + j) ≡ (
          if r == i then put plus accumulate (d (i * columns + j)) (src j) else d (i * columns + j))
  fill_row dst r src d at i j below =
      (for_below_lem
          (λ n e.
            (j < n
              → e (i * columns + j) ≡ (
                  if r == i
                  then put plus accumulate (d (i * columns + j)) (src j)
                  else d (i * columns + j)))
            × (n ≤ j → e (i * columns + j) ≡ d (i * columns + j)))
          columns (λ c e. poke dst e c (src c)) d (λ lt. absurd (omega arith), λ le. refl)
          (λ c lc e (before, behind). (
            λ lt. elim (ℕ_discrete c j) [
              | no ne ↦ poke_ne dst r c i j e (src c) at lc below (inr ne) ∙ before (omega arith)
              | yes same ↦ elim (ℕ_discrete r i) [
                | yes row ↦
                    poke_self dst r c i j e (src c) at row same
                    ∙ ap₂ (put plus accumulate) (behind (omega (arith, same))) (ap src same)
                    ∙ sym (when_eq r i _ _ row)
                | no ne ↦
                    poke_ne dst r c i j e (src c) at lc below (inl ne)
                    ∙ behind (omega (arith, same))
                    ∙ sym (when_ne r i _ _ ne)
              ]
            ],
            λ le.
                poke_ne dst r c i j e (src c) at lc below
                  (inr (λ same. absurd (omega (arith, same))))
                ∙ behind (omega arith),
          ))).0
        below

  -- A cell of a row takes, in the order of the list, the sources that name its column.
  fill_listed :
      (dst r : ℕ) (idx : ℕ → ℕ) (src : ℕ → A) (count : ℕ) (d : ℕ → A)
      → dst ≡ r * columns
      → ((k : ℕ) → k < count → idx k < columns)
      → (i j : ℕ) → j < columns
      → for_below count (λ k e. poke dst e (idx k) (src k)) d (i * columns + j) ≡ (
          if r == i
          then put_named plus accumulate idx j src count (d (i * columns + j))
          else d (i * columns + j))
  fill_listed dst r idx src count d at inside i j below =
      for_below_lem
        (λ n e. e (i * columns + j) ≡ (
          if r == i
          then put_named plus accumulate idx j src n (d (i * columns + j))
          else d (i * columns + j)))
        count (λ k e. poke dst e (idx k) (src k)) d (sym (either (r == i) (d (i * columns + j))))
        (λ k lk e h. elim (ℕ_discrete r i) [
          | no ne ↦
              poke_ne dst r (idx k) i j e (src k) at (inside k lk) below (inl ne)
              ∙ h
              ∙ when_ne r i _ _ ne
              ∙ sym (when_ne r i _ _ ne)
          | yes row ↦
              elim (ℕ_discrete (idx k) j) [
                | yes same ↦
                    poke_self dst r (idx k) i j e (src k) at row same
                    ∙ ap (λ x. put plus accumulate x (src k)) (h ∙ when_eq r i _ _ row)
                    ∙ sym (when_eq (idx k) j _ _ same)
                | no other ↦
                    poke_ne dst r (idx k) i j e (src k) at (inside k lk) below (inr other)
                    ∙ h
                    ∙ when_eq r i _ _ row
                    ∙ sym (when_ne (idx k) j _ _ other)
              ]
              ∙ sym (when_eq r i _ _ row)
        ])
    where
      either : (b : Bool) (x : A) → (if b then x else x) ≡ x
      either true x = refl
      either false x = refl

  -- Rows one after another, each filled by `fill`.
  pub rows_listed :
      (idx : ℕ → ℕ) (src : ℕ → ℕ → A) (ptrs : ℕ → ℕ) (count : ℕ) (start : ℕ → A)
      → ((k : ℕ) → k < count → ptrs (idx k) ≡ idx k * columns)
      → (i j : ℕ) → j < columns
      → for_below count
          (λ k d. for_below columns (λ c e. poke (ptrs (idx k)) e c (src k c)) d)
          start
          (i * columns + j)
        ≡ put_named plus accumulate idx i (λ k. src k j) count (start (i * columns + j))
  rows_listed idx src ptrs count start at i j below =
      for_below_lem
        (λ n d.
          d (i * columns + j)
          ≡ put_named plus accumulate idx i (λ k. src k j) n (start (i * columns + j)))
        count (λ k d. for_below columns (λ c e. poke (ptrs (idx k)) e c (src k c)) d) start refl
        (λ k lk d h.
          fill_row (ptrs (idx k)) (idx k) (src k) d (at k lk) i j below
          ∙ ap (λ x. if idx k == i then put plus accumulate x (src k j) else x) h)

  pub columns_listed :
      (idx : ℕ → ℕ) (src : ℕ → ℕ → A) (ptrs : ℕ → ℕ) (count rows : ℕ) (start : ℕ → A)
      → ((r : ℕ) → r < rows → ptrs r ≡ r * columns)
      → ((k : ℕ) → k < count → idx k < columns)
      → (i j : ℕ) → i < rows
      → j < columns
      → for_below rows
          (λ r d. for_below count (λ k e. poke (ptrs r) e (idx k) (src r k)) d)
          start
          (i * columns + j)
        ≡ put_named plus accumulate idx j (src i) count (start (i * columns + j))
  columns_listed idx src ptrs count rows start at inside i j li lj =
      (for_below_lem
          (λ n d.
            (i < n
              → d (i * columns + j)
                ≡ put_named plus accumulate idx j (src i) count (start (i * columns + j)))
            × (n ≤ i → d (i * columns + j) ≡ start (i * columns + j)))
          rows (λ r d. for_below count (λ k e. poke (ptrs r) e (idx k) (src r k)) d) start
          (λ lt. absurd (omega arith), λ le. refl)
          (λ r lr d (before, behind). (
            λ lt.
                fill_listed (ptrs r) r idx (src r) count d (at r lr) inside i j lj
                ∙ elim (ℕ_discrete r i) [
                  | yes row ↦
                      when_eq r i _ _ row
                      ∙ ap₂ (λ f x. put_named plus accumulate idx j f count x) (ap src row)
                          (behind (omega (arith, row)))
                  | no ne ↦ when_ne r i _ _ ne ∙ before (omega arith)
                ],
            λ le.
                fill_listed (ptrs r) r idx (src r) count d (at r lr) inside i j lj
                ∙ when_ne r i _ _ (λ row. absurd (omega (arith, row)))
                ∙ behind (omega arith),
          ))).0
        li
