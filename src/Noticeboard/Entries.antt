-- ===== src/Noticeboard/Entries.antt =====
-- The entries of the board as a map from keys: what a scan finds, and what replacing, adding and
-- removing an entry does to the map.
use bocpy.Base.{
  ℕ, suc, zero, ◌+◌, ◌≤◌, ◌<◌, ◌≡◌, refl, ap, ◌∙◌, ◌⊎◌, inl, inr, false, Option, none, some, List,
  [], ◌∷◌, ◌++◌, arith, length, get_elem?, set, take, if◌then◌else◌, Bytes, bytes_eq, bytes_eq_iff,
  bytes_eq_refl, bytes_eq_comm, strncmp_eq-eq-bytes_eq, Bool-cases, Bytes-cases,
}
use bocpy.Noticeboard.{NoticeboardEntry, Noticeboard, find, remove}

-- The entry that a key has, by direct recursion.
abbrev pub entry_of : List NoticeboardEntry → Bytes → Option NoticeboardEntry
entry_of [] key = none
entry_of (e ∷ es) key = if bytes_eq e.key key then some e else entry_of es key

-- Keys are short, and no key stands in two entries.
abbrev pub IsKeyed : List NoticeboardEntry → Type 0
IsKeyed [] = Unit
IsKeyed (e ∷ es) = (length e.key < 64) × (entry_of es e.key ≡ none) × IsKeyed es

pub record IsValid (nb : Noticeboard) : Type 0 where
  pub keyed : IsKeyed nb.entries
  pub bounded : length nb.entries ≤ 64

-- The scan finds the entry of the key, or nothing if it has none.
find-entry_of :
    (es : List NoticeboardEntry) (key : Bytes) (i : ℕ)
    → IsKeyed es
    → length key < 64
    → (find es key i ≡ none) × (entry_of es key ≡ none)
      ⊎ ((d : ℕ) × (e : NoticeboardEntry) × (find es key i ≡ some (i + d))
          × (entry_of es key ≡ some e)
          × (get_elem? es d ≡ some e)
          × (e.key ≡ key))
unfolding find
find-entry_of [] key i v h = inl (refl, refl)
find-entry_of (e ∷ es) key i v h = elim (Bool-cases (bytes_eq e.key key)) [
  | inl same ↦ inr (
    0,
    e,
    rw (strncmp_eq-eq-bytes_eq 64 e.key key v.0 h, same) (ap some (omega arith)),
    rw same,
    refl,
    (bytes_eq_iff e.key key).0 same,
  )
  | inr other ↦ elim (find-entry_of es key (i + 1) v.2 h) [
    | inl (a, b) ↦ inl (rw (strncmp_eq-eq-bytes_eq 64 e.key key v.0 h, other) a, rw other b)
    | inr (d, x, a, b, c, k) ↦ inr (
      suc d,
      x,
      rw (strncmp_eq-eq-bytes_eq 64 e.key key v.0 h, other) (rw a (ap some (omega arith))),
      rw other b,
      c,
      k,
    )
  ]
]

pub find_entry :
    (es : List NoticeboardEntry) (key : Bytes)
    → IsKeyed es
    → length key < 64
    → (find es key 0 ≡ none) × (entry_of es key ≡ none)
      ⊎ ((d : ℕ) × (e : NoticeboardEntry) × (find es key 0 ≡ some d)
          × (entry_of es key ≡ some e)
          × (get_elem? es d ≡ some e)
          × (e.key ≡ key))
find_entry es key v h = elim (find-entry_of es key 0 v h) [
  | inl absent ↦ inl absent
  | inr (d, e, f, g, at, k) ↦ inr (d, e, f ∙ ap some (omega arith), g, at, k)
]

pub entry_of-append :
    (es : List NoticeboardEntry) (e : NoticeboardEntry) (key' : Bytes)
    → entry_of es e.key ≡ none
    → entry_of (es ++ (e ∷ [])) key' ≡ (if bytes_eq e.key key' then some e else entry_of es key')
entry_of-append [] e key' f = refl
entry_of-append (d ∷ es) e key' f = elim (Bytes-cases d.key e.key) [
  | inl same ↦ absurd (ground (arith, bytes_eq_iff d.key e.key))
  | inr other ↦ elim (Bytes-cases e.key key') [
    | inl here ↦
        rw (← here, other, bytes_eq_refl e.key)
          (rw (entry_of-append es e e.key (rw other at f), bytes_eq_refl e.key))
    | inr there ↦ ground (arith, entry_of-append es e key')
  ]
]

entry_of-get :
    (es : List NoticeboardEntry) (i : ℕ) (old : NoticeboardEntry)
    → get_elem? es i ≡ some old
    → entry_of es old.key ≡ none
    → ⊥
entry_of-get [] i old h f = cc
entry_of-get (e ∷ es) zero old h f = ground (arith, bytes_eq_refl e.key)
entry_of-get (e ∷ es) (suc i) old h f = ground (arith, entry_of-get es i old h)

-- The entries before one with a key have other keys.
other_key :
    (e : NoticeboardEntry) (es : List NoticeboardEntry) (i : ℕ) (old : NoticeboardEntry)
    → entry_of es e.key ≡ none
    → get_elem? es i ≡ some old
    → bytes_eq e.key old.key ≡ false
other_key e es i old f h = elim (Bytes-cases e.key old.key) [
  | inl same ↦ absurd (entry_of-get es i old h (rw same at f))
  | inr other ↦ other
]

pub entry_of-set :
    (es : List NoticeboardEntry) (i : ℕ) (old new : NoticeboardEntry) (key' : Bytes)
    → IsKeyed es
    → get_elem? es i ≡ some old
    → new.key ≡ old.key
    → entry_of (set es i new) key' ≡ (if bytes_eq old.key key' then some new else entry_of es key')
entry_of-set [] i old new key' v h k = cc
entry_of-set (e ∷ es) zero old new key' v h k = ground arith
entry_of-set (e ∷ es) (suc i) old new key' v h k = elim (Bytes-cases e.key key') [
  | inl here ↦
      rw (← here) (
        ground
          (arith, bytes_eq_refl e.key, other_key e es i old v.1 h, bytes_eq_comm e.key old.key))
  | inr there ↦ rw there (entry_of-set es i old new key' v.2 h k)
]

pub entry_of-remove :
    (es : List NoticeboardEntry) (i : ℕ) (old : NoticeboardEntry) (key' : Bytes)
    → IsKeyed es
    → get_elem? es i ≡ some old
    → entry_of (remove es i) key' ≡ (if bytes_eq old.key key' then none else entry_of es key')
unfolding remove
entry_of-remove [] i old key' v h = cc
entry_of-remove (e ∷ es) zero old key' v h = elim (Bytes-cases e.key key') [
  | inl here ↦ rw (← here) (ground (arith, bytes_eq_refl e.key))
  | inr there ↦ ground arith
]
entry_of-remove (e ∷ es) (suc i) old key' v h = elim (Bytes-cases e.key key') [
  | inl here ↦
      rw (← here) (
        ground
          (arith, bytes_eq_refl e.key, other_key e es i old v.1 h, bytes_eq_comm e.key old.key))
  | inr there ↦ rw there (entry_of-remove es i old key' v.2 h)
]

pub IsKeyed-set :
    (es : List NoticeboardEntry) (i : ℕ) (old new : NoticeboardEntry)
    → IsKeyed es
    → get_elem? es i ≡ some old
    → new.key ≡ old.key
    → IsKeyed (set es i new)
IsKeyed-set [] i old new v h k = tt
IsKeyed-set (e ∷ es) zero old new v h k = ground arith
IsKeyed-set (e ∷ es) (suc i) old new v h k = (
  v.0,
  rw
      (
        entry_of-set es i old new e.key v.2 h k,
        bytes_eq_comm old.key e.key,
        other_key e es i old v.1 h,
      )
      v.1,
  IsKeyed-set es i old new v.2 h k,
)

pub IsKeyed-remove :
    (es : List NoticeboardEntry) (i : ℕ) (old : NoticeboardEntry)
    → IsKeyed es
    → get_elem? es i ≡ some old
    → IsKeyed (remove es i)
unfolding remove
IsKeyed-remove [] i old v h = tt
IsKeyed-remove (e ∷ es) zero old v h = v.2
IsKeyed-remove (e ∷ es) (suc i) old v h = (
  v.0,
  rw (entry_of-remove es i old e.key v.2 h, bytes_eq_comm old.key e.key, other_key e es i old v.1 h)
      v.1,
  IsKeyed-remove es i old v.2 h,
)

pub IsKeyed-append :
    (es : List NoticeboardEntry) (e : NoticeboardEntry)
    → IsKeyed es
    → length e.key < 64
    → entry_of es e.key ≡ none
    → IsKeyed (es ++ (e ∷ []))
IsKeyed-append [] e v short f = (short, refl, tt)
IsKeyed-append (d ∷ es) e v short f = elim (Bytes-cases d.key e.key) [
  | inl same ↦ absurd (ground (arith, bytes_eq_iff d.key e.key))
  | inr other ↦
      let f' : entry_of es e.key ≡ none = rw other at f in
      (
        v.0,
        rw (entry_of-append es e d.key f', bytes_eq_comm e.key d.key, other) v.1,
        IsKeyed-append es e v.2 short f',
      )
]

pub length-remove : (es : List NoticeboardEntry) (i : ℕ) → length (remove es i) ≤ length es
unfolding remove
length-remove [] i = omega arith
length-remove (e ∷ es) zero = omega arith
length-remove (e ∷ es) (suc i) = omega (arith, length-remove es i)

pub take-all : (n : ℕ) (key : Bytes) → length key ≤ n → take n key ≡ key
take-all zero [] h = refl
take-all zero (c ∷ cs) h = absurd (omega arith)
take-all (suc n) [] h = refl
take-all (suc n) (c ∷ cs) h = ap (λ l. c ∷ l) (take-all n cs (omega arith))
