-- ===== src/Cown/Refs.antt =====
-- The reference counts of a cown in _core.c: strong references keep its value alive, weak ones its
-- memory. Python's reference counts are not modelled: dropping the value is an output.
use bocpy.Base.{
  ℕ, ◌+◌, ◌-◌, ◌==◌, ◌≡◌, ◌⊎◌, inl, inr, Bool, true, false, Option, none, some, List, [], ◌∷◌,
  arith, if◌then◌else◌, ◌≢◌, ◌<◌,
}
use native.Mathlib.Decide.{dec_lt}
use bocpy.Cown.{Host, Interp, Cown, xidata_to_object}

pub record Dropped (Object Data : Type 0) : Type 0 where
  pub cown : Cown Object Data
  -- The value whose reference was dropped, and the value that was leaked.
  pub cleared : Option Object
  pub leaked : Option Object
  -- The value read back from a pickled block, to drop the references inside it.
  pub drained : Option Object
  pub recycled : List (Option ℕ × Data)
  -- By how much the count of pinned cowns falls, and whether the memory was freed.
  pub unpinned : ℕ
  pub freed : Bool

module _ {Object Data : Type 0} where
  unfoldable pub cown_incref : Cown Object Data → Cown Object Data
  cown_incref c = record c { rc = c.rc + 1 }

  unfoldable pub cown_weak_incref : Cown Object Data → Cown Object Data
  cown_weak_incref c = record c { weak_rc = c.weak_rc + 1 }

  -- Whether the memory was freed, and the cown after it.
  unfoldable pub cown_weak_decref : Cown Object Data → Bool × Cown Object Data
  cown_weak_decref c = ((c.weak_rc - 1) == 0, record c { weak_rc = c.weak_rc - 1 })

  -- The value that its compare-exchange loop commits to.
  unfoldable pub cown_promote : Cown Object Data → Bool × Cown Object Data
  cown_promote c = if c.rc == 0 then (false, c) else (true, record c { rc = c.rc + 1 })

module _ {Object Data : Type 0} (host : Host Object Data) where
  -- The last strong reference is gone: what `cown_decref_inline` does behind its first return.
  unfoldable pub clean : Interp → Cown Object Data → Dropped Object Data
  unfolding xidata_to_object cown_weak_decref
  clean me c =
      let leaks =
        if c.is_pinned then (if me.interpid == me.main_interpid then false else true) else false in
      let (freed, after) =
        cown_weak_decref (record c { value = if leaks then c.value else none }) in
      record {
        cown = after;
        cleared = if leaks then none else c.value;
        leaked = if leaks then c.value else none;
        drained = elim c.xidata [
          | none ↦ none
          | some d ↦ if c.pickled then xidata_to_object host d true else none
        ];
        recycled = elim c.xidata [ none ↦ [] | some d ↦ (c.recycle_queue, d) ∷ [] ];
        unpinned = if c.is_pinned then 1 else 0;
        freed = freed;
      }

  unfoldable pub cown_decref : Interp → Cown Object Data → Dropped Object Data
  unfolding clean
  cown_decref me c =
      let less = record c { rc = c.rc - 1 } in
      if less.rc == 0 then clean me less else record {
        cown = less;
        cleared = none;
        leaked = none;
        drained = none;
        recycled = [];
        unpinned = 0;
        freed = false;
      }

  -- Of a cown with a strong and a weak reference, dropping a strong one that is not the last changes
  -- the count alone. The last one: promotion fails from then on, the value is either dropped or, for a
  -- pinned cown off the main interpreter, leaked and never dropped; a pinned cown leaves the count of
  -- pinned cowns by one, and the memory goes just when no weak reference is left.
  pub decref_lem :
      (me : Interp) (c : Cown Object Data)
      → 0 < c.rc
      → let o = cown_decref me c in
        ((1 < c.rc)
          × ((o.cown ≡ record c { rc = c.rc - 1 })
              × ((o.cleared ≡ none)
                  × ((o.recycled ≡ []) × ((o.freed ≡ false) × ((cown_promote o.cown).0 ≡ true))))))
        ⊎ ((c.rc ≡ 1)
            × (((cown_promote o.cown).0 ≡ false)
                × ((((o.cleared ≡ c.value) × (o.leaked ≡ none) × (o.cown.value ≡ none))
                      ⊎ ((c.is_pinned ≡ true)
                          × (me.interpid ≢ me.main_interpid)
                          × (o.cleared ≡ none)
                          × (o.leaked ≡ c.value)))
                    × ((o.freed ≡ ((c.weak_rc - 1) == 0))
                        × (o.unpinned ≡ (if c.is_pinned then 1 else 0))))))
  unfolding cown_decref clean cown_promote cown_weak_decref
  decref_lem me c h = elim (dec_lt 1 c.rc) [
    | yes more ↦
        inl (more, (ground arith, (ground arith, (ground arith, (ground arith, ground arith)))))
    | no last ↦ inr (ground arith, (ground arith, (ground arith, (ground arith, ground arith))))
  ]
