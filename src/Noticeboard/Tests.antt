-- ===== src/Noticeboard/Tests.antt =====
-- A board of two entries, and the properties of its calls there.
use bocpy.Base.{
  ◌≡◌, ◌⊎◌, ◌≤◌, ◌<◌, refl, true, false, none, some, List, [], ◌∷◌, arith, length, ℕ, Option, Bytes,
  bytes_eq, if◌then◌else◌, ◌+◌, sym, ap,
}
use bocpy.Noticeboard.Snapshot.{Python, no_cache, noticeboard_snapshot, build_snapshot}
use bocpy.Noticeboard.Snapshot.Laws.{snapshot-Balanced}
use bocpy.Noticeboard.Snapshot.Collected.{IsDict}
use bocpy.Noticeboard.Snapshot.Contents.{Shows, build_snapshot-Shows}
use bocpy.Noticeboard.{
  NoticeboardEntry, Noticeboard, ok, key_too_long, key_has_nul, full, non_null, pins_of, has_nul,
}
use bocpy.Noticeboard.Store.{noticeboard_write}
use bocpy.Noticeboard.Entries.{entry_of, IsValid}
use bocpy.Noticeboard.Laws.{Stored, write_lem}
use bocpy.Noticeboard.Ownership.{Conserves, write-Conserves}
use bocpy.Noticeboard.Threads.{Item, pointer, null, failed, null_entry, pin_cowns}

abbrev first : NoticeboardEntry
first = record { key = 97 ∷ []; value = some 5; pickled = true; pinned_cowns = some (11 ∷ 12 ∷ []) }

abbrev second : NoticeboardEntry
second = record { key = 98 ∷ 99 ∷ []; value = some 6; pickled = false; pinned_cowns = none }

abbrev board : Noticeboard
board = record { entries = first ∷ second ∷ []; version = 7 }

abbrev replacing : NoticeboardEntry
replacing = record { key = 97 ∷ []; value = some 8; pickled = false; pinned_cowns = some (13 ∷ []) }

replaces_and_gives_up : noticeboard_write (97 ∷ []) (some 8) false (some (13 ∷ [])) board ≡ record {
  status = ok;
  board = record { entries = replacing ∷ second ∷ []; version = 8 };
  freed = 5 ∷ [];
  decrefs = 11 ∷ 12 ∷ [];
}
unfolding noticeboard_write
replaces_and_gives_up = refl

board-IsValid : IsValid board
board-IsValid = record {
  keyed = (omega arith, refl, (omega arith, refl, tt));
  bounded = omega arith;
}

write_lem_example :
    let o = noticeboard_write (97 ∷ []) (some 8) false (some (13 ∷ [])) board in
    ((64 ≤ length {A = ℕ} (97 ∷ [])) × (o.status ≡ key_too_long) × (o.board ≡ board))
    ⊎ ((length {A = ℕ} (97 ∷ []) < 64)
        × (has_nul (97 ∷ []) ≡ true)
        × (o.status ≡ key_has_nul)
        × (o.board ≡ board))
    ⊎ ((o.status ≡ full)
        × (o.board ≡ board)
        × (entry_of board.entries (97 ∷ []) ≡ none)
        × (length board.entries ≡ 64))
    ⊎ ((length {A = ℕ} (97 ∷ []) < 64)
        × (has_nul (97 ∷ []) ≡ false)
        × Stored board (97 ∷ []) (some replacing) o)
write_lem_example = write_lem (97 ∷ []) (some 8) false (some (13 ∷ [])) board board-IsValid

write-Conserves_example :
    Conserves board
      (non_null (some 8))
      (pins_of (some (13 ∷ [])))
      (noticeboard_write (97 ∷ []) (some 8) false (some (13 ∷ [])) board)
      11
write-Conserves_example = write-Conserves (97 ∷ []) (some 8) false (some (13 ∷ [])) board 11

abbrev items : List Item
items = pointer 3 ∷ null ∷ pointer 4 ∷ []

rolls_back : pin_cowns true (some items) ≡ failed null_entry (3 ∷ 4 ∷ [])
unfolding pin_cowns
rolls_back = refl

-- Objects are numbers, and a dict a map from keys; unpickling adds 100.
abbrev python : Python ℕ (Bytes → Option ℕ)
python = record {
  new_object = λ v. some v;
  new_dict = some (λ _. none);
  new_key = λ _. true;
  set_item = λ d k v. some (λ k'. if bytes_eq k k' then some v else d k');
  loads = λ o. some (o + 100);
  new_pins = λ _. true;
  new_proxy = λ _. true;
}

abbrev at_key : Bytes → Option (Bytes → Option ℕ) → Option ℕ
at_key k none = none
at_key k (some d) = d k

python-IsDict : IsDict python (λ d k. d k)
python-IsDict = record {
  new_empty = λ d k e. sym (ap (at_key k) e);
  item_set = λ d d' k k' v e. sym (ap (at_key k') e);
}

snapshot-Balanced_example :
    (noticeboard_snapshot python board no_cache).decrefs
    ≡ (noticeboard_snapshot python board no_cache).increfs
snapshot-Balanced_example = snapshot-Balanced python board no_cache

-- What `board` shows: 6 is stored as it is, and 5 was pickled.
abbrev shown : Bytes → Option ℕ
shown k =
    if bytes_eq (97 ∷ []) k then some 105 else if bytes_eq (98 ∷ 99 ∷ []) k then some 6 else none

first_snapshot : (noticeboard_snapshot python board no_cache).result ≡ some shown
unfolding noticeboard_snapshot
first_snapshot = refl

build_snapshot-Shows_example :
    Shows python
      (λ d k. d k)
      python-IsDict
      (98 ∷ 99 ∷ [])
      board.entries
      (build_snapshot python board no_cache)
build_snapshot-Shows_example =
    build_snapshot-Shows python (λ d k. d k) python-IsDict (98 ∷ 99 ∷ []) board no_cache
      board-IsValid.keyed
