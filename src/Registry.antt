-- ===== src/Registry.antt =====
-- src/bocpy/boc_registry.c: the append-only registry of marshalled behaviour code, keyed by content.
-- The used part of the table is a list; `count` is its length. Every call runs under the mutex.
pub mod Laws
mod Tests
use bocpy.Base.{
  ℕ, suc, ◌+◌, ◌*◌, ◌==◌, if◌then◌else◌, Bool, true, false, ◌&&◌, not, Option, none, some, List, [],
  ◌∷◌, ◌++◌, length, get_elem?, Bytes, bytes_eq,
}

-- `RegistryEntry`: each buffer with its length is a list of bytes; a NULL source is `none`.
pub record RegistryEntry : Type 0 where
  pub key : Bytes
  pub blob : Bytes
  pub module_name : Bytes
  pub source : Option Bytes

pub record Registry : Type 0 where
  pub entries : List RegistryEntry
  pub capacity : ℕ

-- Which of the allocations of one call of `registry_register` succeed.
pub record Allocations : Type 0 where
  pub grown : Bool
  pub key_copy : Bool
  pub blob_copy : Bool
  pub module_copy : Bool
  pub source_copy : Bool

pub data Status : Type 0 where
  ok no_memory : Status

unfoldable pub registry_init : Registry
registry_init = record { entries = []; capacity = 0 }

unfoldable pub registry_destroy : Registry → Registry
registry_destroy reg = record { entries = []; capacity = 0 }

-- The scan from index `i` on; `none` is -1.
unfoldable pub registry_find_locked : List RegistryEntry → Bytes → ℕ → Option ℕ
registry_find_locked [] key i = none
registry_find_locked (entry ∷ entries) key i =
    if bytes_eq entry.key key then some i else registry_find_locked entries key (i + 1)

-- Room for one more entry, or `none` if the table cannot grow.
unfoldable pub grow : Bool → Registry → Option Registry
grow grown reg =
    if length reg.entries == reg.capacity
    then (if grown
        then some (record reg { capacity = if reg.capacity == 0 then 16 else reg.capacity * 2 })
        else none)
    else some reg

unfoldable pub copied : Allocations → Option Bytes → Bool
copied a none = a.key_copy && (a.blob_copy && a.module_copy)
copied a (some source) = a.key_copy && (a.blob_copy && (a.module_copy && a.source_copy))

unfoldable pub registry_register :
    Allocations
    → (key blob module_name : Bytes) (source : Option Bytes) → Registry
    → Status × Registry
unfolding grow copied registry_find_locked
registry_register a key blob module_name source reg =
    elim (registry_find_locked reg.entries key 0) [
      | some i ↦ (ok, reg)
      | none ↦ elim (grow a.grown reg) [
        | none ↦ (no_memory, reg)
        | some reg' ↦
            if copied a source
            then (
              ok,
              record reg' {
                entries =
                    reg'.entries
                    ++ (record {
                      key = key;
                      blob = blob;
                      module_name = module_name;
                      source = source;
                    }
                        ∷ []);
              },
            )
            else (no_memory, reg')
      ]
    ]

-- What `registry_lookup` copies out under the mutex; the Python objects are built from it later.
unfoldable pub registry_lookup : Bytes → Registry → Option RegistryEntry
unfolding registry_find_locked
registry_lookup key reg = elim (registry_find_locked reg.entries key 0) [
  | none ↦ none
  | some idx ↦ get_elem? reg.entries idx
]
