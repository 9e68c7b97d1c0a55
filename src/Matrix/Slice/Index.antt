-- ===== src/Matrix/Slice/Index.antt =====
-- `range_read` of _math.c at an integer key. `PySlice_AdjustIndices` is Python's, so it is a parameter,
-- of which its documentation is a hypothesis.
use bocpy.Base.{
  ℕ, suc, ◌+◌, ◌-◌, ◌*◌, ◌≡◌, ◌==◌, if◌then◌else◌, ltb, ◌&&◌, ℤ, pos, negsuc, ◌+ℤ◌, Option, none,
  some,
}

-- The start, the stop and the count that `PySlice_AdjustIndices` gives for step 1.
pub record Adjusted : Type 0 where
  pub start : ℤ
  pub stop : ℤ
  pub count : ℕ

abbrev pub from_end : ℕ → ℤ → ℤ
from_end length (pos i) = pos i
from_end length (negsuc i) = negsuc i +ℤ length

-- `range_read` for an integer that is a `Py_ssize_t`, but not its greatest, which names one row or
-- column; `none` is the IndexError.
unfoldable pub read_index : (adjust : ℕ → ℤ → ℤ → Adjusted) → (length : ℕ) → ℤ → Option Adjusted
read_index adjust length key =
    let start = from_end length key in
    let range = adjust length start (start +ℤ 1) in if range.count == 0 then none else some range

-- An index of a slice: one below 0 counts from the end, and what is still out of bounds is clipped.
abbrev pub clip : ℕ → ℤ → ℕ
clip length (pos i) = if ltb i length then i else length
clip length (negsuc i) = if ltb i length then length - suc i else 0

-- "Adjust start/end slice indices assuming a sequence of the specified length. Out of bounds indices are
-- clipped in a manner consistent with the handling of normal slices. Return the length of the slice."
abbrev pub AdjustsIndices : (ℕ → ℤ → ℤ → Adjusted) → Type 0
AdjustsIndices adjust =
    (length : ℕ) (start stop : ℤ)
    → adjust length start stop ≡ record {
      start = pos (clip length start);
      stop = pos (clip length stop);
      count = clip length stop - clip length start;
    }

-- The index that an integer key names: itself, or counted from the end, or, for a key from
-- `-2 * length` to `-length - 2`, counted from the end twice.
abbrev pub named_by : ℕ → ℤ → Option ℕ
named_by length (pos i) = if ltb i length then some i else none
named_by length (negsuc i) =
    if ltb i length
    then some (length - suc i)
    else if ltb length i && ltb i (2 * length)
    then some (2 * length - suc i)
    else none

abbrev pub only : Option ℕ → Option Adjusted
only none = none
only (some i) = some (record { start = pos i; stop = pos (i + 1); count = 1 })

module _ (adjust : ℕ → ℤ → ℤ → Adjusted) (documented : AdjustsIndices adjust) where
  -- With the clipped range in place of Python's.
  abbrev clipped : ℕ → ℤ → Option Adjusted
  clipped length start =
      if clip length (start +ℤ 1) - clip length start == 0
      then none
      else some (record {
        start = pos (clip length start);
        stop = pos (clip length (start +ℤ 1));
        count = clip length (start +ℤ 1) - clip length start;
      })
