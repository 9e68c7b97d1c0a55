-- ===== src/Base/Buffers.antt =====
-- Byte buffers as lists of numbers, compared as `memcmp` and `strncmp` compare them.
use Prim.Native.Nat.{ℕ, zero, suc, ◌<◌}
use mathlib.Core.Path.{◌≡◌, refl, ap}
use mathlib.Core.Logic.{◌↔◌, ◌⊎◌, inl, inr}
use mathlib.Core.Bool.{Bool, true, false, ◌&&◌}
use mathlib.Core.List.{List, [], ◌∷◌}
use native.Mathlib.Omega.{arith}
use bocpy.Base.Tests.{◌==◌}
use bocpy.Base.Lists.{length}

abbrev pub Bytes : Type 0
Bytes = List ℕ

-- `a_len == b_len && memcmp(a, b, b_len) == 0`
abbrev pub bytes_eq : Bytes → Bytes → Bool
bytes_eq [] [] = true
bytes_eq [] (b ∷ ys) = false
bytes_eq (a ∷ xs) [] = false
bytes_eq (a ∷ xs) (b ∷ ys) = a == b && bytes_eq xs ys

-- `strncmp(a, b, n) == 0`, where a string is the list of the bytes before its NUL.
abbrev pub strncmp_eq : ℕ → Bytes → Bytes → Bool
strncmp_eq zero a b = true
strncmp_eq (suc n) [] [] = true
strncmp_eq (suc n) [] (b ∷ ys) = false
strncmp_eq (suc n) (a ∷ xs) [] = false
strncmp_eq (suc n) (a ∷ xs) (b ∷ ys) = a == b && strncmp_eq n xs ys

pub bytes_eq_refl : (a : Bytes) → bytes_eq a a ≡ true
bytes_eq_refl [] = refl
bytes_eq_refl (a ∷ xs) = ground (arith, bytes_eq_refl xs)

pub bytes_eq_sound : (a b : Bytes) → bytes_eq a b ≡ true → a ≡ b
bytes_eq_sound [] [] h = refl
bytes_eq_sound [] (b ∷ ys) h = cc
bytes_eq_sound (a ∷ xs) [] h = cc
bytes_eq_sound (a ∷ xs) (b ∷ ys) h = ground (arith, bytes_eq_sound xs ys)

pub bytes_eq_iff : (a b : Bytes) → (bytes_eq a b ≡ true) ↔ (a ≡ b)
bytes_eq_iff a b = (bytes_eq_sound a b, λ e. rw (← e) (bytes_eq_refl a))

pub bytes_eq_comm : (a b : Bytes) → bytes_eq a b ≡ bytes_eq b a
bytes_eq_comm [] [] = refl
bytes_eq_comm [] (b ∷ ys) = refl
bytes_eq_comm (a ∷ xs) [] = refl
bytes_eq_comm (a ∷ xs) (b ∷ ys) = ground (arith, bytes_eq_comm xs ys)

-- On strings shorter than the bound `strncmp` decides equality.
pub strncmp_eq-eq-bytes_eq :
    (n : ℕ) (a b : Bytes) → length a < n → length b < n → strncmp_eq n a b ≡ bytes_eq a b
strncmp_eq-eq-bytes_eq zero a b h k = elim h [ ]
strncmp_eq-eq-bytes_eq (suc n) [] [] h k = refl
strncmp_eq-eq-bytes_eq (suc n) [] (b ∷ ys) h k = refl
strncmp_eq-eq-bytes_eq (suc n) (a ∷ xs) [] h k = refl
strncmp_eq-eq-bytes_eq (suc n) (a ∷ xs) (b ∷ ys) h k =
    ap (λ t. a == b && t) (strncmp_eq-eq-bytes_eq n xs ys (omega arith) (omega arith))

pub Bytes-cases : (a b : Bytes) → (a ≡ b) ⊎ (bytes_eq a b ≡ false)
Bytes-cases a b = go (bytes_eq a b) refl
  where
    go : (t : Bool) → bytes_eq a b ≡ t → (a ≡ b) ⊎ (bytes_eq a b ≡ false)
    go true e = inl (bytes_eq_sound a b e)
    go false e = inr e
