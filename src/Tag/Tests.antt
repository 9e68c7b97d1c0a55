-- ===== src/Tag/Tests.antt =====
-- Two tags, three queues, and the properties there.
use bocpy.Base.{ℕ, zero, suc, ◌≡◌, refl, true, false, none, some, List, [], ◌∷◌, arith}
use bocpy.Tag.{Tag, before, tag_compare_with_utf8}
use bocpy.Tag.Lookup.{
  TagSlot, unassigned, assigned, disabled_queue, found, get_queue, get_queue_again, matches,
}

abbrev low : Tag
low = record { str = 97 ∷ []; queue = 0; rc = 1; disabled = false }

-- The byte 200 is a negative `int8_t`.
abbrev high : Tag
high = record { str = 200 ∷ []; queue = 1; rc = 1; disabled = false }

signed_bytes : tag_compare_with_utf8 high (97 ∷ []) ≡ before
unfolding tag_compare_with_utf8
signed_bytes = refl

abbrev heap : ℕ → Tag
heap zero = low
heap (suc n) = high

abbrev slots : List TagSlot
slots =
    record { state = assigned; tag = some 0; cached = none }
    ∷ record { state = disabled_queue; tag = none; cached = none }
    ∷ record { state = unassigned; tag = none; cached = none }
    ∷ []

assigns : (get_queue heap (some 1) (200 ∷ []) 0 slots).0 ≡ found 2
unfolding get_queue
assigns = refl

makes :
    (t : ℕ)
    → some 1 ≡ some t
    → (matches heap (some 1) (200 ∷ []) t ≡ true) × ((heap t).disabled ≡ false)
unfolding matches
makes zero e = ground arith
makes (suc zero) e = (refl, refl)
makes (suc (suc t)) e = ground arith

get_queue_again_example :
    let after_first = (get_queue heap (some 1) (200 ∷ []) 0 slots).1 in
    get_queue heap (some 1) (200 ∷ []) 0 after_first ≡ (found 2, after_first)
get_queue_again_example = get_queue_again heap (some 1) (200 ∷ []) makes 0 slots 2 assigns
