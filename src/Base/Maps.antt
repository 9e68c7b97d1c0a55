-- ===== src/Base/Maps.antt =====
-- Total maps from native numbers (memory, tables indexed by id), and update at one key.
use Prim.Native.Nat.{ℕ, zero, suc, ◌+◌, ◌≤◌, ◌<◌}
use mathlib.Core.Path.{◌≡◌, refl}
use mathlib.Core.Logic.{◌≢◌}
use native.Mathlib.Decide.{dec_lt}
use native.Mathlib.Omega.{arith}
use bocpy.Base.Tests.{◌==◌, if◌then◌else◌}

abbrev pub update {ℓ} : {A : Type ℓ} → (ℕ → A) → ℕ → A → ℕ → A
update f k v j = if k == j then v else f j

module _ {ℓ} {A : Type ℓ} (f : ℕ → A) (k : ℕ) (v : A) where
  pub update_self : update f k v k ≡ v
  update_self = ground arith

  pub update_ne : (j : ℕ) → k ≢ j → update f k v j ≡ f j
  update_ne j h = ground arith

-- What the first entries of a map weigh together, and how one update changes that.
module _ {ℓ} {A : Type ℓ} (weigh : A → ℕ) where
  unfoldable pub weight : (ℕ → A) → ℕ → ℕ
  weight m zero = 0
  weight m (suc k) = weigh (m k) + weight m k

  pub weight-update_outside :
      (m : ℕ → A) (j : ℕ) (v : A) (k : ℕ) → k ≤ j → weight (update m j v) k ≡ weight m k
  unfolding weight
  weight-update_outside m j v zero outside = refl
  weight-update_outside m j v (suc k) outside = ground (arith, weight-update_outside m j v k)

  pub weight-update :
      (m : ℕ → A) (j : ℕ) (v : A) (k : ℕ)
      → j < k
      → weight m k + weigh v ≡ weight (update m j v) k + weigh (m j)
  unfolding weight
  weight-update m j v zero inside = absurd (omega arith)
  weight-update m j v (suc k) inside = elim (dec_lt j k) [
    | no is_last ↦ ground (arith, weight-update_outside m j v k)
    | yes earlier ↦ ground (arith, weight-update m j v k earlier)
  ]

  pub weight-le : (m : ℕ → A) (k : ℕ) → ((a : A) → weigh a ≤ 1) → weight m k ≤ k
  unfolding weight
  weight-le m zero light = omega arith
  weight-le m (suc k) light = omega (arith, light (m k), weight-le m k light)
