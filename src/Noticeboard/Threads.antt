-- ===== src/Noticeboard/Threads.antt =====
-- Who may change the board, and what it pins: `noticeboard_check_thread`, `noticeboard_set_thread`,
-- `noticeboard_clear_thread` and `nb_pin_cowns` of boc_noticeboard.c.
use bocpy.Base.{
  ℕ, ◌==◌, if◌then◌else◌, ◌≡◌, ◌≢◌, refl, sym, ap, ◌∙◌, Bool, true, false, Option, none, some, List,
  [], ◌∷◌, ◌++◌, arith,
}
use mathlib.Core.List.{append-nil, append_assoc}

-- `NB_NOTICEBOARD_TID`: 0 while no thread is registered. A thread's id is not 0.
unfoldable pub check_thread : (owner self_id : ℕ) → Bool
check_thread owner self_id = if owner == 0 then true else owner == self_id

-- Whether the compare-exchange won, and the id after it.
unfoldable pub set_thread : (owner self_id : ℕ) → Bool × ℕ
set_thread owner self_id = if owner == 0 then (true, self_id) else (false, owner)

unfoldable pub clear_thread : ℕ → ℕ
clear_thread owner = 0

-- After a thread registers itself, it and no other may change the board, no other can register, and
-- once it is cleared everyone may.
pub set_thread-check_thread :
    (self_id other : ℕ)
    → self_id ≢ 0
    → other ≢ self_id
    → let (won, owner) = set_thread 0 self_id in
      (won ≡ true)
      × (check_thread owner self_id ≡ true)
      × (check_thread owner other ≡ false)
      × (set_thread owner other ≡ (false, owner))
      × (check_thread (clear_thread owner) other ≡ true)
unfolding set_thread check_thread clear_thread
set_thread-check_thread self_id other h k = ground arith

-- What `PyLong_AsVoidPtr` makes of one item of the pin list: a pointer, NULL, or no integer.
pub data Item : Type 0 where
  pointer : ℕ → Item
  null not_an_integer : Item

pub data PinError : Type 0 where
  null_entry type_error no_memory : PinError

pub data Pinned : Type 0 where
  pinned : List ℕ → Pinned
  failed : PinError → (decrefs : List ℕ) → Pinned

-- The second loop of the `fail:` label, over the items behind the one that failed.
unfoldable pub drop_rest : List Item → List ℕ
drop_rest [] = []
drop_rest (pointer c ∷ items) = c ∷ drop_rest items
drop_rest (null ∷ items) = drop_rest items
drop_rest (not_an_integer ∷ items) = drop_rest items

-- The loop of `nb_pin_cowns`, with the pins taken so far; they are decref'd on failure.
unfoldable pub pin_items : List ℕ → List Item → Pinned
unfolding drop_rest
pin_items taken [] = pinned taken
pin_items taken (pointer c ∷ items) = pin_items (taken ++ (c ∷ [])) items
pin_items taken (null ∷ items) = failed null_entry (taken ++ drop_rest items)
pin_items taken (not_an_integer ∷ items) = failed type_error (taken ++ drop_rest items)

-- `none` stands for NULL and None; `allocated` tells whether the array of pins could be made. The
-- empty list gives no pins, and needs no array.
unfoldable pub pin_cowns : (allocated : Bool) → Option (List Item) → Pinned
unfolding pin_items
pin_cowns allocated none = pinned []
pin_cowns allocated (some []) = pinned []
pin_cowns allocated (some (item ∷ items)) =
    if allocated then pin_items [] (item ∷ items) else failed no_memory []

-- The references that the caller handed over, one for each pointer.
abbrev pub pointers : List Item → List ℕ
pointers [] = []
pointers (pointer c ∷ items) = c ∷ pointers items
pointers (null ∷ items) = pointers items
pointers (not_an_integer ∷ items) = pointers items

abbrev pub settled : Pinned → List ℕ
settled (pinned pins) = pins
settled (failed e decrefs) = decrefs

drop_rest-pointers : (items : List Item) → drop_rest items ≡ pointers items
unfolding drop_rest
drop_rest-pointers [] = refl
drop_rest-pointers (pointer c ∷ items) = ap (λ l. c ∷ l) (drop_rest-pointers items)
drop_rest-pointers (null ∷ items) = drop_rest-pointers items
drop_rest-pointers (not_an_integer ∷ items) = drop_rest-pointers items

pin_items-settled :
    (taken : List ℕ) (items : List Item) → settled (pin_items taken items) ≡ taken ++ pointers items
unfolding pin_items
pin_items-settled taken [] = sym (append-nil taken)
pin_items-settled taken (pointer c ∷ items) =
    pin_items-settled (taken ++ (c ∷ [])) items ∙ append_assoc taken (c ∷ []) (pointers items)
pin_items-settled taken (null ∷ items) = ap (λ l. taken ++ l) (drop_rest-pointers items)
pin_items-settled taken (not_an_integer ∷ items) = ap (λ l. taken ++ l) (drop_rest-pointers items)

-- Once the array is made, every reference handed over is settled exactly once and in order: kept as a
-- pin if the whole list is good, and decref'd if any item is not.
pub pin_cowns-settled : (items : List Item) → settled (pin_cowns true (some items)) ≡ pointers items
unfolding pin_cowns
pin_cowns-settled [] = refl
pin_cowns-settled (item ∷ items) = pin_items-settled [] (item ∷ items)

-- If the array cannot be made, no reference is settled: those handed over leak.
pub pin_cowns_leaks :
    (item : Item) (items : List Item) → settled (pin_cowns false (some (item ∷ items))) ≡ []
unfolding pin_cowns
pin_cowns_leaks item items = refl
