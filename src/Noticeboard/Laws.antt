-- ===== src/Noticeboard/Laws.antt =====
-- `noticeboard_write` and `noticeboard_delete` as updates of a map from keys to entries.
use bocpy.Base.{
  ℕ, ◌≤◌, ◌<◌, ◌≡◌, ◌≢◌, refl, ◌⊎◌, inl, inr, Bool, true, false, Option, none, some, List, arith,
  length, length-append, length-set, leb, if◌then◌else◌, Bytes, bytes_eq, Bool-cases, Bytes-cases,
  inc64,
}
use bocpy.Noticeboard.{
  NoticeboardEntry, Noticeboard, ok, key_too_long, key_has_nul, full, Outcome, has_nul, find,
}
use bocpy.Noticeboard.Store.{write_entry, noticeboard_write, delete_entry, noticeboard_delete}
use bocpy.Noticeboard.Entries.{
  entry_of, IsValid, find_entry, entry_of-append, entry_of-set, entry_of-remove, IsKeyed-set,
  IsKeyed-remove, IsKeyed-append, length-remove, take-all,
}

-- What a call that is accepted makes of the map.
pub record Stored (nb : Noticeboard) (key : Bytes) (e : Option NoticeboardEntry) (o : Outcome)
    : Type 0 where
  pub status : o.status ≡ ok
  pub mapped :
      (key' : Bytes)
      → entry_of o.board.entries key' ≡ (if bytes_eq key key' then e else entry_of nb.entries key')
  pub valid : IsValid o.board

-- A write to a key that the checks let pass.
write_entry-Stored :
    (key : Bytes) (xidata : Option ℕ) (pickled : Bool) (given : Option (List ℕ)) (nb : Noticeboard)
    → IsValid nb
    → length key < 64
    → let e : NoticeboardEntry = record {
      key = key;
      value = xidata;
      pickled = pickled;
      pinned_cowns = given;
    } in
      let o = write_entry key xidata pickled given nb (find nb.entries key 0) in
      Stored nb key (some e) o
      ⊎ ((o.status ≡ full)
          × (o.board ≡ nb)
          × (entry_of nb.entries key ≡ none)
          × (length nb.entries ≡ 64))
unfolding write_entry
write_entry-Stored key xidata pickled given nb v short =
    elim (find_entry nb.entries key v.keyed short) [
      | inr (d, old, f, g, at, k) ↦ inl (
          rw (f, at, write_entry)
            (record {
              status = refl;
              mapped = λ key'. rw (← k) (entry_of-set nb.entries d old _ key' v.keyed at refl);
              valid = record {
                keyed = IsKeyed-set nb.entries d old _ v.keyed at refl;
                bounded = rw (length-set nb.entries d _) v.bounded;
              };
            }))
      | inl (f, g) ↦ elim (Bool-cases (leb 64 (length nb.entries))) [
        | inl no_room ↦ inr (rw (f, no_room) (refl, refl, g, ground (arith, v.bounded)))
        | inr room ↦ inl (
            rw (f, room, take-all 63 key (omega arith))
              (record {
                status = refl;
                mapped = λ key'. entry_of-append nb.entries _ key' g;
                valid = record {
                  keyed = IsKeyed-append nb.entries _ v.keyed short g;
                  bounded = rw (length-append nb.entries _) (ground (arith, v.bounded));
                };
              }))
      ]
    ]

-- `noticeboard_write` refuses a key of 64 bytes or more, then a key with a NUL, then a new key on a
-- board of 64 entries; each refusal leaves the board as it was. Otherwise exactly the key written
-- maps to the new entry, every other key maps as before, and the board stays valid.
pub write_lem :
    (key : Bytes) (xidata : Option ℕ) (pickled : Bool) (given : Option (List ℕ)) (nb : Noticeboard)
    → IsValid nb
    → let e : NoticeboardEntry = record {
      key = key;
      value = xidata;
      pickled = pickled;
      pinned_cowns = given;
    } in
      let o = noticeboard_write key xidata pickled given nb in
      ((64 ≤ length key) × (o.status ≡ key_too_long) × (o.board ≡ nb))
      ⊎ ((length key < 64) × (has_nul key ≡ true) × (o.status ≡ key_has_nul) × (o.board ≡ nb))
      ⊎ ((o.status ≡ full)
          × (o.board ≡ nb)
          × (entry_of nb.entries key ≡ none)
          × (length nb.entries ≡ 64))
      ⊎ ((length key < 64) × (has_nul key ≡ false) × Stored nb key (some e) o)
unfolding noticeboard_write
write_lem key xidata pickled given nb v = elim (Bool-cases (leb 64 (length key))) [
  | inl long ↦ inl (ground arith, rw long refl, rw long refl)
  | inr short ↦ elim (Bool-cases (has_nul key)) [
    | inl nul ↦ inr (inl (ground arith, nul, rw (short, nul) refl, rw (short, nul) refl))
    | inr clean ↦
        rw (short, clean)
          (elim (write_entry-Stored key xidata pickled given nb v (ground arith)) [
            | inl stored ↦ inr (inr (inr (ground arith, refl, stored)))
            | inr refused ↦ inr (inr (inl refused))
          ])
  ]
]

-- A key that maps to nothing can be unmapped.
unmapped :
    (es : List NoticeboardEntry) (key : Bytes)
    → entry_of es key ≡ none
    → (key' : Bytes) → entry_of es key' ≡ (if bytes_eq key key' then none else entry_of es key')
unmapped es key g key' = elim (Bytes-cases key key') [
  | inl same ↦ rw (← same, g) (ground arith)
  | inr other ↦ rw other
]

-- `noticeboard_delete` of a key that the checks let pass unmaps that key and no other; it keeps the
-- board valid, and counts a version exactly if the key was there.
pub delete_lem :
    (key : Bytes) (nb : Noticeboard)
    → IsValid nb
    → length key < 64
    → has_nul key ≡ false
    → let o = noticeboard_delete key nb in
      Stored nb key none o
      × ((entry_of nb.entries key ≡ none) × (o.board ≡ nb)
          ⊎ (entry_of nb.entries key ≢ none) × (o.board.version ≡ inc64 nb.version))
unfolding noticeboard_delete delete_entry
delete_lem key nb v short clean = elim (find_entry nb.entries key v.keyed short) [
  | inl (f, g) ↦
      rw (open_key, clean, f)
        (record { status = refl; mapped = unmapped nb.entries key g; valid = v }, inl (g, refl))
  | inr (d, old, f, g, at, k) ↦
      rw (open_key, clean, f)
        (rw (at, delete_entry)
          (
            record {
              status = refl;
              mapped = λ key'. rw (← k) (entry_of-remove nb.entries d old key' v.keyed at);
              valid = record {
                keyed = IsKeyed-remove nb.entries d old v.keyed at;
                bounded = omega (arith, length-remove nb.entries d, v.bounded);
              };
            },
            inr (ground arith, refl),
          ))
]
  where
    open_key : leb 64 (length key) ≡ false
    open_key = ground arith
