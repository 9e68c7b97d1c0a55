-- ===== src/Tag/Order.antt =====
-- What `tag_compare_with_utf8` of boc_tags.c decides.
use bocpy.Base.{
  ℕ, ◌<◌, ◌≡◌, ◌↔◌, Option, none, some, [], ◌∷◌, length, All, arith, refl, ap, ap₂, Bytes,
}
use bocpy.Tag.{Tag, Compared, before, same, after, int8, first_difference, tag_compare_with_utf8}

abbrev pub IsByte : ℕ → Type 0
IsByte b = b < 256

abbrev pub flip : Compared → Compared
flip before = after
flip same = same
flip after = before

int8-injective : (a b : ℕ) → IsByte a → IsByte b → int8 a ≡ int8 b → a ≡ b
int8-injective a b p q e = omega arith

equal_of_none :
    (xs ys : Bytes)
    → All IsByte xs
    → All IsByte ys
    → first_difference xs ys ≡ none
    → length xs ≡ length ys
    → xs ≡ ys
unfolding first_difference
equal_of_none [] [] p q d e = refl
equal_of_none [] (y ∷ ys) p q d e = absurd (omega arith)
equal_of_none (x ∷ xs) [] p q d e = absurd (omega arith)
equal_of_none (x ∷ xs) (y ∷ ys) (bx, p) (by, q) d e =
    ap₂ (λ b bs. b ∷ bs) (int8-injective x y bx by (ground arith))
      (equal_of_none xs ys p q (ground arith) (omega arith))

difference_self : (xs : Bytes) → first_difference xs xs ≡ none
unfolding first_difference
difference_self [] = refl
difference_self (x ∷ xs) = ground (arith, difference_self xs)

agree : (xs ys : Bytes) → xs ≡ ys → first_difference xs ys ≡ none
agree xs ys e = rw e (difference_self ys)

abbrev flip_option : Option Compared → Option Compared
flip_option none = none
flip_option (some c) = some (flip c)

difference_flip : (xs ys : Bytes) → first_difference ys xs ≡ flip_option (first_difference xs ys)
unfolding first_difference
difference_flip [] [] = refl
difference_flip [] (y ∷ ys) = refl
difference_flip (x ∷ xs) [] = refl
difference_flip (x ∷ xs) (y ∷ ys) = ground (arith, difference_flip xs ys)

never_same : (xs ys : Bytes) → ¬ (first_difference xs ys ≡ some same)
unfolding first_difference
never_same [] ys h = ground arith
never_same (x ∷ xs) [] h = ground arith
never_same (x ∷ xs) (y ∷ ys) h = ground (arith, never_same xs ys)

-- Two tags, each compared with the other's text: the answers are opposite, and they are 0 just when
-- the texts are the same bytes.
pub compare_lem :
    (t u : Tag)
    → All IsByte t.str
    → All IsByte u.str
    → (tag_compare_with_utf8 u t.str ≡ flip (tag_compare_with_utf8 t u.str))
      × ((tag_compare_with_utf8 t u.str ≡ same) ↔ (t.str ≡ u.str))
unfolding tag_compare_with_utf8
compare_lem t u p q = (
  ground (arith, difference_flip t.str u.str),
  (
    λ e.
        equal_of_none t.str u.str p q (ground (arith, never_same t.str u.str))
          (ground (arith, never_same t.str u.str)),
    λ e. ground (arith, agree t.str u.str e, ap length e),
  ),
)
