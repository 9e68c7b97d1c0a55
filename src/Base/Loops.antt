-- ===== src/Base/Loops.antt =====
-- C's `for (i = 0; i < n; ++i)` as a fold of its body, and proofs by an invariant of it.
use Prim.Native.Nat.{ℕ, zero, suc, ◌+◌, ◌*◌, ◌/◌, ◌%◌, ◌<◌}
use mathlib.Core.Path.{◌≡◌, sym, ap, ap₂, ◌∙◌, subst}
use native.Mathlib.Decide.{ℕ_discrete}
use mathlib.Core.Logic.{◌≢◌, ◌⊎◌, inl, inr}
use bocpy.Base.Maps.{update, update_self, update_ne}
use native.Mathlib.Nat.{
  mul-add-div_right, mul-add-mod_self_right, mod-eq_of_lt, div-eq_of_lt, mul-le-mul_right,
}
use native.Mathlib.Omega.{arith}

-- The state after the body has run for the indices `0, ..., n - 1`, in this order.
abbrev pub for_below {ℓ} : {S : Type ℓ} → ℕ → (ℕ → S → S) → S → S
for_below zero body s = s
for_below (suc n) body s = body n (for_below n body s)

pub for_below_lem {ℓ} :
    {S : Type ℓ} (P : ℕ → S → Type ℓ) (n : ℕ) (body : ℕ → S → S) (s : S)
    → P 0 s
    → ((i : ℕ) → i < n → (t : S) → P i t → P (suc i) (body i t))
    → P n (for_below n body s)
for_below_lem P zero body s start step = start
for_below_lem P (suc n) body s start step =
    step n (omega arith) (for_below n body s)
      (for_below_lem P n body s start (λ i lt. step i (omega arith)))

-- The index of a cell in row-major order gives back its row and its column.
pub row_of : (r c columns : ℕ) → c < columns → (r * columns + c) / columns ≡ r
row_of r c columns lt =
    mul-add-div_right (omega arith) r c ∙ ap (λ d. r + d) (div-eq_of_lt lt) ∙ omega arith

pub column_of : (r c columns : ℕ) → c < columns → (r * columns + c) % columns ≡ c
column_of r c columns lt = mul-add-mod_self_right r columns c ∙ mod-eq_of_lt lt

pub cell_in : (r c rows columns : ℕ) → r < rows → c < columns → r * columns + c < rows * columns
cell_in r c rows columns lr lc = omega (arith, mul-le-mul_right columns lr)

pub cell_injective :
    (columns r c i j : ℕ)
    → c < columns
    → j < columns
    → r * columns + c ≡ i * columns + j
    → (r ≡ i) × (c ≡ j)
cell_injective columns r c i j lc lj e = (
  sym (row_of r c columns lc) ∙ ap (λ n. n / columns) e ∙ row_of i j columns lj,
  sym (column_of r c columns lc) ∙ ap (λ n. n % columns) e ∙ column_of i j columns lj,
)

-- A write to one cell, as the other cells see it.
module _ {ℓ} {A : Type ℓ} (f : ℕ → A) (columns r c : ℕ) (v : A) where
  pub update-cell_self :
      (i j : ℕ) → r ≡ i → c ≡ j → update f (r * columns + c) v (i * columns + j) ≡ v
  update-cell_self i j er ec =
      ap₂ (λ a b. update f (r * columns + c) v (a * columns + b)) (sym er) (sym ec)
      ∙ update_self f (r * columns + c) v

  pub update-cell_ne :
      (i j : ℕ)
      → c < columns
      → j < columns
      → (r ≢ i ⊎ c ≢ j)
      → update f (r * columns + c) v (i * columns + j) ≡ f (i * columns + j)
  update-cell_ne i j lc lj other =
      update_ne f (r * columns + c) v (i * columns + j)
        (λ e. differ other (cell_injective columns r c i j lc lj e))
    where
      differ : (r ≢ i ⊎ c ≢ j) → (r ≡ i) × (c ≡ j) → ⊥
      differ (inl ne) (er, ec) = ne er
      differ (inr ne) (er, ec) = ne ec

-- A loop that writes entry `i` in round `i`.
pub for_below-update {ℓ} :
    {A : Type ℓ} (v : ℕ → A) (n : ℕ) (f : ℕ → A) (j : ℕ)
    → j < n
    → for_below n (λ i d. update d i (v i)) f j ≡ v j
for_below-update v n f =
    for_below_lem (λ i d. (j : ℕ) → j < i → d j ≡ v j) n _ f (λ j below. absurd (omega arith))
      (λ i lt d done j below. elim (ℕ_discrete i j) [
        | yes e ↦ subst (λ k. update d i (v i) k ≡ v k) e (update_self d i (v i))
        | no ne ↦ update_ne d i (v i) j ne ∙ done j (omega arith)
      ])
