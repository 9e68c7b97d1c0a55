-- ===== src/Tag.antt =====
-- boc_tags.c: the tags of messages, and how they compare with strings. A tag's text is its UTF-8
-- bytes, which Python gives.
mod Order
mod Lookup
mod Tests
use bocpy.Base.{
  ℕ, ◌+◌, ◌-◌, ◌%◌, ◌==◌, if◌then◌else◌, ltb, Option, none, some, Bool, true, false, List, [], ◌∷◌,
  length,
}
use bocpy.Base.{Bytes}

-- What `PyUnicode_CheckExact` and `PyUnicode_AsUTF8AndSize` make of an argument.
pub data Argument : Type 0 where
  not_str not_encoded : Argument
  utf8 : Bytes → Argument

-- `struct boc_tag`; the queue is its index.
pub record Tag : Type 0 where
  pub str : Bytes
  pub queue : ℕ
  pub rc : ℕ
  pub disabled : Bool

pub data TagResult : Type 0 where
  tag_made : Tag → TagResult
  type_error encode_error no_memory : TagResult

-- The two allocations, of the tag and of its text, succeed or not.
unfoldable pub tag_from_PyUnicode : (tag_allocated str_allocated : Bool) → Argument → ℕ → TagResult
tag_from_PyUnicode tag_allocated str_allocated not_str queue = type_error
tag_from_PyUnicode tag_allocated str_allocated not_encoded queue =
    if tag_allocated then encode_error else no_memory
tag_from_PyUnicode tag_allocated str_allocated (utf8 s) queue =
    if tag_allocated
    then if str_allocated
      then tag_made (record { str = s; queue = queue; rc = 1; disabled = false })
      else no_memory
    else no_memory

-- -1, 0 and 1.
pub data Compared : Type 0 where
  before same after : Compared

-- A byte as `int8_t`, moved up by 128: the order of the signed bytes.
abbrev pub int8 : ℕ → ℕ
int8 b = (b + 128) % 256

-- The loop over the bytes that both have; `none` if they agree.
unfoldable pub first_difference : Bytes → Bytes → Option Compared
first_difference [] ys = none
first_difference (x ∷ xs) [] = none
first_difference (x ∷ xs) (y ∷ ys) =
    if ltb (int8 x) (int8 y)
    then some before
    else if ltb (int8 y) (int8 x)
    then some after
    else first_difference xs ys

unfoldable pub tag_compare_with_utf8 : Tag → Bytes → Compared
unfolding first_difference
tag_compare_with_utf8 lhs rhs = elim (first_difference lhs.str rhs) [
  | some c ↦ c
  | none ↦
      if ltb (length lhs.str) (length rhs)
      then before
      else if ltb (length rhs) (length lhs.str)
      then after
      else same
]

-- `none` is -2, an exception.
unfoldable pub tag_compare_with_PyUnicode : Tag → Argument → Option Compared
unfolding tag_compare_with_utf8
tag_compare_with_PyUnicode lhs not_str = none
tag_compare_with_PyUnicode lhs not_encoded = none
tag_compare_with_PyUnicode lhs (utf8 rhs) = some (tag_compare_with_utf8 lhs rhs)

unfoldable pub tag_incref : Tag → Tag
tag_incref t = record t { rc = t.rc + 1 }

-- Whether the tag was freed, and the tag.
unfoldable pub tag_decref : Tag → Bool × Tag
tag_decref t = ((t.rc - 1) == 0, record t { rc = t.rc - 1 })

unfoldable pub tag_disable : Tag → Tag
tag_disable t = record t { disabled = true }
