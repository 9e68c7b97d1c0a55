-- ===== src/Cown.antt =====
-- The cown of _core.c: its state, and the two conversions between an object and cross-interpreter
-- data. An interpreter is a number, and `none` as an owner is `BOCPY_NO_OWNER`. Python's objects and
-- its conversions are not this code: they are the parameter `Host`.
mod Calls
mod Invariant
mod Transfer
mod Vars
mod Behavior
mod Unwrap
mod Refs
mod Tests
use bocpy.Base.{ℕ, Bool, true, false, Option, none, some, List, if◌then◌else◌}

-- What the interpreter gives: a new, empty XIData block, conversion of an object to cross-interpreter
-- data and back, and pickling. `None` is the object `Py_None`.
pub record Host (Object Data : Type 0) : Type 0 where
  pub blank : Data
  pub allocates : Bool
  pub get_xidata : Object → Option Data
  pub new_object : Data → Option Object
  pub dumps : Object → Option Object
  pub loads : Object → Option Object
  pub none_object : Object

-- The interpreter that runs the code; `accepts` tells whether its recycle queue registers a cown
-- (the interpreter is not shut down and its table takes the entry).
pub record Interp : Type 0 where
  pub interpid : ℕ
  pub main_interpid : ℕ
  pub recycle_queue : ℕ
  pub accepts : Bool

-- `struct boc_cown`, without its request chain
pub record Cown (Object Data : Type 0) : Type 0 where
  pub id : ℕ
  pub value : Option Object
  pub pickled : Bool
  pub exception : Bool
  pub is_pinned : Bool
  pub xidata : Option Data
  pub recycle_queue : Option ℕ
  pub owner : Option ℕ
  pub rc : ℕ
  pub weak_rc : ℕ

pub data CownError : Type 0 where
  not_main permanently_unavailable not_deserialised : CownError
  no_memory not_serialised not_registered in_flight : CownError
  acquired_by : Option ℕ → CownError

-- How a call ends: its error, the cown, and the blocks handed to a recycle queue (with the queue).
pub record Outcome (Object Data : Type 0) : Type 0 where
  pub error : Option CownError
  pub cown : Cown Object Data
  pub recycled : List (Option ℕ × Data)

-- What `object_to_xidata` returns, and where it leaves the block.
pub record Serialised (Data : Type 0) : Type 0 where
  pub result : Option Bool
  pub why : CownError
  pub xidata : Option Data

module _ {Object Data : Type 0} (host : Host Object Data) where
  unfoldable pub xidata_to_object : Data → (pickled : Bool) → Option Object
  xidata_to_object xidata pickled = elim (host.new_object xidata) [
    | none ↦ none
    | some value ↦ if pickled then host.loads value else some value
  ]

  -- The part of `object_to_xidata` behind the allocation: the object as it is, or pickled.
  unfoldable pub convert : Object → Serialised Data
  convert value = elim (host.get_xidata value) [
    | some d ↦ record { result = some false; why = not_serialised; xidata = some d }
    | none ↦ elim (host.dumps value) [
      | none ↦ record { result = none; why = not_serialised; xidata = some host.blank }
      | some bytes ↦ elim (host.get_xidata bytes) [
        | some d ↦ record { result = some true; why = not_serialised; xidata = some d }
        | none ↦ record { result = none; why = not_serialised; xidata = some host.blank }
      ]
    ]
  ]

  unfoldable pub object_to_xidata : Object → Option Data → Serialised Data
  object_to_xidata value (some block) = convert value
  object_to_xidata value none =
      if host.allocates
      then convert value
      else record { result = none; why = no_memory; xidata = none }
