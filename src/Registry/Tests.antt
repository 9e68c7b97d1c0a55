-- ===== src/Registry/Tests.antt =====
-- A registry of two entries, and the properties of its calls there.
use bocpy.Base.{◌≡◌, refl, true, false, none, some, [], ◌∷◌, arith, if◌then◌else◌, bytes_eq}
use bocpy.Registry.{
  RegistryEntry, Registry, Allocations, ok, registry_init, registry_register, registry_lookup,
}
use bocpy.Registry.Laws.{or_else, lookup-register, IsValid, register-IsValid}

abbrev all_succeed : Allocations
all_succeed = record {
  grown = true;
  key_copy = true;
  blob_copy = true;
  module_copy = true;
  source_copy = true;
}

abbrev no_source_copy : Allocations
no_source_copy = record all_succeed { source_copy = false }

abbrev entry : RegistryEntry
entry = record { key = 1 ∷ 2 ∷ []; blob = 7 ∷ []; module_name = 5 ∷ []; source = none }

abbrev one_entry : Registry
one_entry = record { entries = entry ∷ []; capacity = 16 }

first_call :
    registry_register all_succeed (1 ∷ 2 ∷ []) (7 ∷ []) (5 ∷ []) none registry_init
    ≡ (ok, one_entry)
unfolding registry_register registry_init
first_call = refl

keeps_the_first_blob :
    registry_register all_succeed (1 ∷ 2 ∷ []) (8 ∷ []) (5 ∷ []) none one_entry ≡ (ok, one_entry)
unfolding registry_register
keeps_the_first_blob = refl

lookup-register_example :
    registry_lookup
      (3 ∷ [])
      (registry_register all_succeed (3 ∷ []) (8 ∷ []) (5 ∷ []) none one_entry).1
    ≡ or_else (registry_lookup (3 ∷ []) one_entry) (
        if bytes_eq (3 ∷ []) (3 ∷ [])
        then some (record { key = 3 ∷ []; blob = 8 ∷ []; module_name = 5 ∷ []; source = none })
        else none)
unfolding registry_register
lookup-register_example =
    lookup-register all_succeed (3 ∷ []) (8 ∷ []) (5 ∷ []) none one_entry refl (3 ∷ [])

one_entry-IsValid : IsValid one_entry
one_entry-IsValid = record { unique = (refl, tt); fits = omega arith }

register-IsValid_example :
    IsValid (registry_register all_succeed (3 ∷ []) (8 ∷ []) (5 ∷ []) none one_entry).1
register-IsValid_example =
    register-IsValid all_succeed (3 ∷ []) (8 ∷ []) (5 ∷ []) none one_entry one_entry-IsValid
