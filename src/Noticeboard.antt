-- ===== src/Noticeboard.antt =====
-- src/bocpy/boc_noticeboard.c: the global key-value board that behaviours share. A value is the
-- address of its XIData, a pin the address of a cown on which the entry holds a reference. What a
-- call frees and which cowns it decrefs is part of its outcome; the mutex makes each call one step.
pub mod Store
pub mod Threads
pub mod Entries
pub mod Laws
pub mod Ownership
pub mod Snapshot
mod Tests
use bocpy.Base.{
  ℕ, suc, ◌+◌, ◌==◌, if◌then◌else◌, leb, Bool, true, false, ◌||◌, Option, none, some, List, [], ◌∷◌,
  ◌++◌, map, length, take, get_elem?, set, Bytes, strncmp_eq, inc64,
}

abbrev pub key_size : ℕ
key_size = 64

abbrev pub max_entries : ℕ
max_entries = 64

-- A key is kept as its bytes before the NUL. NULL pointers are `none`.
pub record NoticeboardEntry : Type 0 where
  pub key : Bytes
  pub value : Option ℕ
  pub pickled : Bool
  pub pinned_cowns : Option (List ℕ)

-- The used entries of `NB`, and `NB_VERSION`.
pub record Noticeboard : Type 0 where
  pub entries : List NoticeboardEntry
  pub version : ℕ

pub data Status : Type 0 where
  ok key_too_long key_has_nul full : Status

-- The result of a call, the board after it, the values freed and the cowns decref'd.
pub record Outcome : Type 0 where
  pub status : Status
  pub board : Noticeboard
  pub freed : List ℕ
  pub decrefs : List ℕ

-- `if (x != NULL) f(x)`, and the same over an array that may be NULL.
abbrev pub non_null : Option ℕ → List ℕ
non_null none = []
non_null (some x) = x ∷ []

abbrev pub pins_of : Option (List ℕ) → List ℕ
pins_of none = []
pins_of (some pins) = pins

-- `memchr(key, '\0', key_len) != NULL`
unfoldable pub has_nul : Bytes → Bool
has_nul [] = false
has_nul (c ∷ cs) = c == 0 || has_nul cs

-- The scan for a key, from entry `i` on.
unfoldable pub find : List NoticeboardEntry → Bytes → ℕ → Option ℕ
find [] key i = none
find (e ∷ es) key i = if strncmp_eq key_size e.key key then some i else find es key (i + 1)

-- `NB.entries[i] = NB.entries[i + 1]` from the one found on, and `NB.count--`.
unfoldable pub remove : List NoticeboardEntry → ℕ → List NoticeboardEntry
remove [] i = []
remove (e ∷ es) ℕ.zero = es
remove (e ∷ es) (suc i) = e ∷ remove es i
