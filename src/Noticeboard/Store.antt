-- ===== src/Noticeboard/Store.antt =====
-- The calls of boc_noticeboard.c that change the board.
use bocpy.Base.{
  ℕ, leb, if◌then◌else◌, Bool, Option, none, some, List, [], ◌∷◌, ◌++◌, length, take, get_elem?,
  set, Bytes, inc64, ◌-◌,
}
use bocpy.Noticeboard.{
  key_size, max_entries, NoticeboardEntry, Noticeboard, Status, ok, key_too_long, key_has_nul, full,
  Outcome, non_null, pins_of, has_nul, find, remove,
}

-- The `fail:` label of `noticeboard_write`: the call owns what it was given, and gives it up.
unfoldable pub write_fail : Status → Option ℕ → Option (List ℕ) → Noticeboard → Outcome
write_fail status xidata pins nb = record {
  status = status;
  board = nb;
  freed = non_null xidata;
  decrefs = pins_of pins;
}

-- Storing into entry `i`, or into the next free one. (The scan returns no index out of range.)
unfoldable pub write_entry :
    Bytes → Option ℕ → Bool → Option (List ℕ) → Noticeboard → Option ℕ → Outcome
unfolding write_fail
write_entry key xidata pickled pins nb (some i) = elim (get_elem? nb.entries i) [
  | none ↦ write_fail ok xidata pins nb
  | some target ↦ record {
    status = ok;
    board = record {
      entries =
          set nb.entries i
            (record target { value = xidata; pickled = pickled; pinned_cowns = pins });
      version = inc64 nb.version;
    };
    freed = non_null target.value;
    decrefs = pins_of target.pinned_cowns;
  }
]
write_entry key xidata pickled pins nb none =
    if leb max_entries (length nb.entries) then write_fail full xidata pins nb else record {
      status = ok;
      board = record {
        entries =
            nb.entries
            ++ (record {
              key = take (key_size - 1) key;
              value = xidata;
              pickled = pickled;
              pinned_cowns = pins;
            }
                ∷ []);
        version = inc64 nb.version;
      };
      freed = [];
      decrefs = [];
    }

unfoldable pub noticeboard_write : Bytes → Option ℕ → Bool → Option (List ℕ) → Noticeboard → Outcome
unfolding write_fail write_entry has_nul find
noticeboard_write key xidata pickled pins nb =
    if leb key_size (length key)
    then write_fail key_too_long xidata pins nb
    else if has_nul key
    then write_fail key_has_nul xidata pins nb
    else write_entry key xidata pickled pins nb (find nb.entries key 0)

unfoldable pub delete_entry : Noticeboard → Option ℕ → Outcome
delete_entry nb none = record { status = ok; board = nb; freed = []; decrefs = [] }
delete_entry nb (some found) = elim (get_elem? nb.entries found) [
  | none ↦ record { status = ok; board = nb; freed = []; decrefs = [] }
  | some e ↦ record {
    status = ok;
    board = record { entries = remove nb.entries found; version = inc64 nb.version };
    freed = non_null e.value;
    decrefs = pins_of e.pinned_cowns;
  }
]

unfoldable pub noticeboard_delete : Bytes → Noticeboard → Outcome
unfolding delete_entry has_nul find remove
noticeboard_delete key nb =
    if leb key_size (length key)
    then record { status = key_too_long; board = nb; freed = []; decrefs = [] }
    else if has_nul key
    then record { status = key_has_nul; board = nb; freed = []; decrefs = [] }
    else delete_entry nb (find nb.entries key 0)

-- The first loop of `noticeboard_clear` and `noticeboard_destroy`, which collects what to free, and
-- the two after it.
unfoldable pub gather : (NoticeboardEntry → List ℕ) → List NoticeboardEntry → List ℕ
gather owned [] = []
gather owned (e ∷ es) = owned e ++ gather owned es

abbrev pub value_of : NoticeboardEntry → List ℕ
value_of e = non_null e.value

abbrev pub cowns_of : NoticeboardEntry → List ℕ
cowns_of e = pins_of e.pinned_cowns

unfoldable pub noticeboard_clear : Noticeboard → Outcome
unfolding gather
noticeboard_clear nb = record {
  status = ok;
  board = record { entries = []; version = inc64 nb.version };
  freed = gather value_of nb.entries;
  decrefs = gather cowns_of nb.entries;
}

unfoldable pub noticeboard_destroy : Noticeboard → Outcome
unfolding gather
noticeboard_destroy nb = record {
  status = ok;
  board = record nb { entries = [] };
  freed = gather value_of nb.entries;
  decrefs = gather cowns_of nb.entries;
}

-- `noticeboard_init`, which leaves the version as it is.
abbrev pub noticeboard_init : Noticeboard → Noticeboard
noticeboard_init nb = record nb { entries = [] }
