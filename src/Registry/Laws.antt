-- ===== src/Registry/Laws.antt =====
-- The registry is a map from keys to the first entry registered under each, and only grows.
use bocpy.Base.{
  ℕ, suc, ◌+◌, ◌≤◌, ◌≡◌, refl, ap, ◌⊎◌, inl, inr, if◌then◌else◌, true, Option, none, some, List, [],
  ◌∷◌, ◌++◌, arith, length, length-append, get_elem?, Bytes, bytes_eq, bytes_eq_iff, bytes_eq_comm,
  Bool-cases, Option-cases,
}
use bocpy.Registry.{
  RegistryEntry, Registry, Allocations, ok, no_memory, registry_find_locked, grow, copied,
  registry_register, registry_lookup,
}

-- The first entry with a key, by direct recursion.
abbrev pub first_match : List RegistryEntry → Bytes → Option RegistryEntry
first_match [] key = none
first_match (e ∷ es) key = if bytes_eq e.key key then some e else first_match es key

-- The index that the scan finds, counted from where it starts, is that of the first match.
find-get :
    (es : List RegistryEntry) (key : Bytes) (i : ℕ)
    → (registry_find_locked es key i ≡ none) × (first_match es key ≡ none)
      ⊎ ((d : ℕ) × (e : RegistryEntry) × (registry_find_locked es key i ≡ some (i + d))
          × (first_match es key ≡ some e)
          × (get_elem? es d ≡ some e))
unfolding registry_find_locked
find-get [] key i = inl (refl, refl)
find-get (e ∷ es) key i = elim (Bool-cases (bytes_eq e.key key)) [
  | inl same ↦ inr (0, e, rw same (ap some (omega arith)), rw same, refl)
  | inr other ↦ elim (find-get es key (i + 1)) [
    | inl (a, b) ↦ inl (rw other a, rw other b)
    | inr (d, x, a, b, c) ↦ inr (suc d, x, rw other (rw a (ap some (omega arith))), rw other b, c)
  ]
]

pub registry_lookup-first_match :
    (key : Bytes) (reg : Registry) → registry_lookup key reg ≡ first_match reg.entries key
unfolding registry_lookup
registry_lookup-first_match key reg = elim (find-get reg.entries key 0) [
  | inl (a, b) ↦ ground arith
  | inr (d, e, a, b, c) ↦ ground arith
]

abbrev pub or_else : Option RegistryEntry → Option RegistryEntry → Option RegistryEntry
or_else none o = o
or_else (some e) o = some e

first_match-append :
    (es : List RegistryEntry) (e : RegistryEntry) (key : Bytes)
    → first_match (es ++ (e ∷ [])) key
      ≡ or_else (first_match es key) (if bytes_eq e.key key then some e else none)
first_match-append [] e key = refl
first_match-append (x ∷ es) e key = ground (arith, first_match-append es e key)

first_match_of_eq :
    (es : List RegistryEntry) (key : Bytes) (e : RegistryEntry) (key' : Bytes)
    → first_match es key ≡ some e
    → bytes_eq key key' ≡ true
    → first_match es key' ≡ some e
first_match_of_eq es key e key' f same = rw (← (bytes_eq_iff key key').0 same) f

-- A second entry under a key that has one would change nothing.
or_else-first_match :
    (es : List RegistryEntry) (key key' : Bytes) (e x : RegistryEntry)
    → first_match es key ≡ some e
    → first_match es key'
      ≡ or_else (first_match es key') (if bytes_eq key key' then some x else none)
or_else-first_match es key key' e x f = elim (Bool-cases (bytes_eq key key')) [
  | inl same ↦ rw (first_match_of_eq es key e key' f same)
  | inr other ↦ ground arith
]

-- What one call does to the entries.
register-cases :
    (a : Allocations) (key blob module_name : Bytes) (source : Option Bytes) (reg : Registry)
    → let e : RegistryEntry = record {
      key = key;
      blob = blob;
      module_name = module_name;
      source = source;
    } in
      let r = registry_register a key blob module_name source reg in
      ((x : RegistryEntry) × (first_match reg.entries key ≡ some x) × (r ≡ (ok, reg)))
      ⊎ ((first_match reg.entries key ≡ none)
          × (r.0 ≡ ok)
          × (r.1.entries ≡ reg.entries ++ (e ∷ []))
          × (length reg.entries ≤ reg.capacity → length reg.entries + 1 ≤ r.1.capacity))
      ⊎ ((r.0 ≡ no_memory) × (r.1.entries ≡ reg.entries) × (reg.capacity ≤ r.1.capacity))
unfolding registry_register
register-cases a key blob m source reg = elim (find-get reg.entries key 0) [
  | inl (f, g) ↦ elim (Option-cases (grow a.grown reg)) [
    | inl full ↦ inr (inr (ground arith, ground arith, ground arith))
    | inr (reg', room) ↦ elim (Bool-cases (copied a source)) [
      | inl done ↦ inr (inl (g, ground arith, ground arith, ground arith))
      | inr failed ↦ inr (inr (ground arith, ground arith, ground arith))
    ]
  ]
  | inr (d, e, f, g, at) ↦ inl (e, g, ground arith)
]

-- A call of `registry_register` that succeeds adds exactly one mapping, and none if the key has one:
-- every key is then looked up as before, and the key itself, if it had no entry, finds the new one.
pub lookup-register :
    (a : Allocations) (key blob module_name : Bytes) (source : Option Bytes) (reg : Registry)
    → let r = registry_register a key blob module_name source reg in
      r.0 ≡ ok
      → (key' : Bytes)
      → registry_lookup key' r.1
        ≡ or_else (registry_lookup key' reg) (
            if bytes_eq key key'
            then some
                (record { key = key; blob = blob; module_name = module_name; source = source })
            else none)
lookup-register a key blob m source reg h key' =
    rw (registry_lookup-first_match, registry_lookup-first_match)
      (elim (register-cases a key blob m source reg) [
        | inl (e, f, same) ↦ rw same (or_else-first_match reg.entries key key' e _ f)
        | inr (inl (f, st, es, room)) ↦ rw es (first_match-append reg.entries _ key')
        | inr (inr (st, es, room)) ↦ cc
      ])

-- A call that runs out of memory changes what no key finds.
pub lookup-register_no_memory :
    (a : Allocations) (key blob module_name : Bytes) (source : Option Bytes) (reg : Registry)
    → let r = registry_register a key blob module_name source reg in
      r.0 ≡ no_memory → (key' : Bytes) → registry_lookup key' r.1 ≡ registry_lookup key' reg
lookup-register_no_memory a key blob m source reg h key' =
    rw (registry_lookup-first_match, registry_lookup-first_match)
      (elim (register-cases a key blob m source reg) [
        | inl (e, f, same) ↦ rw same
        | inr (inl (f, st, es, room)) ↦ cc
        | inr (inr (st, es, room)) ↦ rw es
      ])

-- No key stands in two entries, and the used part of the table fits its capacity.
abbrev pub IsUnique : List RegistryEntry → Type 0
IsUnique [] = Unit
IsUnique (e ∷ es) = (first_match es e.key ≡ none) × IsUnique es

pub record IsValid (reg : Registry) : Type 0 where
  pub unique : IsUnique reg.entries
  pub fits : length reg.entries ≤ reg.capacity

IsUnique-append :
    (es : List RegistryEntry) (e : RegistryEntry)
    → IsUnique es
    → first_match es e.key ≡ none
    → IsUnique (es ++ (e ∷ []))
IsUnique-append [] e u f = (refl, tt)
IsUnique-append (x ∷ es) e u f = elim (Bool-cases (bytes_eq x.key e.key)) [
  | inl same ↦ absurd (ground arith)
  | inr other ↦ (
    rw (first_match-append es e x.key, u.0, bytes_eq_comm e.key x.key, other) refl,
    IsUnique-append es e u.1 (ground arith),
  )
]

-- Every call of `registry_register`, whatever its allocations do, keeps the keys unique and the table
-- within its capacity.
pub register-IsValid :
    (a : Allocations) (key blob module_name : Bytes) (source : Option Bytes) (reg : Registry)
    → IsValid reg
    → IsValid (registry_register a key blob module_name source reg).1
register-IsValid a key blob m source reg v = elim (register-cases a key blob m source reg) [
  | inl (e, f, same) ↦ rw same v
  | inr (inl (f, st, es, room)) ↦ record {
    unique = rw es (IsUnique-append reg.entries _ v.unique f);
    fits = rw es (rw (length-append reg.entries _) (room v.fits));
  }
  | inr (inr (st, es, room)) ↦ record {
    unique = rw es v.unique;
    fits = rw es (omega (arith, v.fits));
  }
]
