-- ===== src/Noticeboard/Ownership.antt =====
-- Every value and every pin is owned once: by the board, by the caller, or it is given up.
use bocpy.Base.{
  ℕ, suc, zero, ◌+◌, ◌≡◌, refl, Bool, Option, none, some, List, [], ◌∷◌, ◌++◌, arith, length,
  get_elem?, set, occurrences, occurrences-append, Bytes, Option-cases, Bool-cases, inl, inr, leb,
}
use bocpy.Noticeboard.{
  key_size, max_entries, NoticeboardEntry, Noticeboard, Outcome, non_null, pins_of, has_nul, find,
  remove,
}
use bocpy.Noticeboard.Store.{
  write_entry, noticeboard_write, delete_entry, noticeboard_delete, gather, value_of, cowns_of,
  noticeboard_clear, noticeboard_destroy,
}

module _ (owned : NoticeboardEntry → List ℕ) (x : ℕ) where
  held : List NoticeboardEntry → ℕ
  held es = occurrences x (gather owned es)

  held-cons :
      (e : NoticeboardEntry) (es : List NoticeboardEntry)
      → held (e ∷ es) ≡ occurrences x (owned e) + held es
  unfolding held gather
  held-cons e es = occurrences-append x (owned e) (gather owned es)

  held-append :
      (es : List NoticeboardEntry) (e : NoticeboardEntry)
      → held (es ++ (e ∷ [])) ≡ held es + occurrences x (owned e)
  unfolding held gather
  held-append [] e = omega (arith, occurrences-append x (owned e) [])
  held-append (d ∷ es) e =
      omega (arith, held-cons d (es ++ (e ∷ [])), held-cons d es, held-append es e)

  -- Replacing an entry exchanges what it owns.
  held-set :
      (es : List NoticeboardEntry) (i : ℕ) (old new : NoticeboardEntry)
      → get_elem? es i ≡ some old
      → held (set es i new) + occurrences x (owned old) ≡ held es + occurrences x (owned new)
  held-set [] i old new h = cc
  held-set (e ∷ es) zero old new h = rw (held-cons new es, held-cons e es) (ground arith)
  held-set (e ∷ es) (suc i) old new h =
      omega (arith, held-cons e (set es i new), held-cons e es, held-set es i old new h)

  -- Removing an entry gives up what it owns.
  held-remove :
      (es : List NoticeboardEntry) (i : ℕ) (old : NoticeboardEntry)
      → get_elem? es i ≡ some old
      → held (remove es i) + occurrences x (owned old) ≡ held es
  unfolding remove
  held-remove [] i old h = cc
  held-remove (e ∷ es) zero old h = rw (held-cons e es) (ground arith)
  held-remove (e ∷ es) (suc i) old h =
      omega (arith, held-cons e (remove es i), held-cons e es, held-remove es i old h)

-- What the board owns after a call, with what the call gives up, is what it owned before, with what
-- the caller handed over: each value and each pin as often.
pub record Conserves (nb : Noticeboard) (values cowns : List ℕ) (o : Outcome) (x : ℕ) : Type 0 where
  pub of_values :
      occurrences x (gather value_of o.board.entries) + occurrences x o.freed
      ≡ occurrences x (gather value_of nb.entries) + occurrences x values
  pub of_cowns :
      occurrences x (gather cowns_of o.board.entries) + occurrences x o.decrefs
      ≡ occurrences x (gather cowns_of nb.entries) + occurrences x cowns

write_entry-Conserves :
    (key : Bytes) (xidata : Option ℕ) (pickled : Bool) (given : Option (List ℕ)) (nb : Noticeboard)
    (at : Option ℕ) (x : ℕ)
    → Conserves nb (non_null xidata) (pins_of given) (write_entry key xidata pickled given nb at) x
unfolding write_entry held
write_entry-Conserves key xidata pickled given nb none x =
    elim (Bool-cases (leb max_entries (length nb.entries))) [
      | inl full ↦ rw full (record { of_values = refl; of_cowns = refl })
      | inr room ↦ rw room (record {
        of_values = omega (arith, held-append value_of x nb.entries _);
        of_cowns = omega (arith, held-append cowns_of x nb.entries _);
      })
    ]
write_entry-Conserves key xidata pickled given nb (some i) x =
    elim (Option-cases (get_elem? nb.entries i)) [
      | inl e ↦ rw (e, write_entry) (record { of_values = refl; of_cowns = refl })
      | inr (old, e) ↦
          rw (e, write_entry)
            (record {
              of_values = held-set value_of x nb.entries i old _ e;
              of_cowns = held-set cowns_of x nb.entries i old _ e;
            })
    ]

-- `noticeboard_write` neither leaks nor frees twice, on success, on replacement and on every error:
-- the value and pins that it is given end up on the board or are given up, and so do those that it
-- replaces.
pub write-Conserves :
    (key : Bytes) (xidata : Option ℕ) (pickled : Bool) (given : Option (List ℕ)) (nb : Noticeboard)
    (x : ℕ)
    → Conserves nb
        (non_null xidata)
        (pins_of given)
        (noticeboard_write key xidata pickled given nb)
        x
unfolding noticeboard_write
write-Conserves key xidata pickled given nb x = elim (Bool-cases (leb key_size (length key))) [
  | inl long ↦ rw long (record { of_values = refl; of_cowns = refl })
  | inr short ↦ elim (Bool-cases (has_nul key)) [
    | inl nul ↦ rw (short, nul) (record { of_values = refl; of_cowns = refl })
    | inr clean ↦
        rw (short, clean)
          (write_entry-Conserves key xidata pickled given nb (find nb.entries key 0) x)
  ]
]

delete_entry-Conserves :
    (nb : Noticeboard) (at : Option ℕ) (x : ℕ) → Conserves nb [] [] (delete_entry nb at) x
unfolding delete_entry held
delete_entry-Conserves nb none x = record { of_values = refl; of_cowns = refl }
delete_entry-Conserves nb (some i) x = elim (Option-cases (get_elem? nb.entries i)) [
  | inl e ↦ rw (e, delete_entry) (record { of_values = refl; of_cowns = refl })
  | inr (old, e) ↦
      rw (e, delete_entry)
        (record {
          of_values = omega (arith, held-remove value_of x nb.entries i old e);
          of_cowns = omega (arith, held-remove cowns_of x nb.entries i old e);
        })
]

-- `noticeboard_delete` gives up exactly what the entry that it removes owned, and nothing if the key
-- is refused or absent.
pub delete-Conserves :
    (key : Bytes) (nb : Noticeboard) (x : ℕ) → Conserves nb [] [] (noticeboard_delete key nb) x
unfolding noticeboard_delete
delete-Conserves key nb x = elim (Bool-cases (leb key_size (length key))) [
  | inl long ↦ rw long (record { of_values = refl; of_cowns = refl })
  | inr short ↦ elim (Bool-cases (has_nul key)) [
    | inl nul ↦ rw (short, nul) (record { of_values = refl; of_cowns = refl })
    | inr clean ↦ rw (short, clean) (delete_entry-Conserves nb (find nb.entries key 0) x)
  ]
]

-- `noticeboard_clear` and `noticeboard_destroy` give up all that the board owns.
pub clear-Conserves : (nb : Noticeboard) (x : ℕ) → Conserves nb [] [] (noticeboard_clear nb) x
unfolding noticeboard_clear
clear-Conserves nb x = record { of_values = omega arith; of_cowns = omega arith }

pub destroy-Conserves : (nb : Noticeboard) (x : ℕ) → Conserves nb [] [] (noticeboard_destroy nb) x
unfolding noticeboard_destroy
destroy-Conserves nb x = record { of_values = omega arith; of_cowns = omega arith }
