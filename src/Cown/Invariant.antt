-- ===== src/Cown/Invariant.antt =====
-- The invariant of a cown, and what the calls of _core.c keep of it.
use bocpy.Base.{
  ℕ, ◌≡◌, refl, Bool, true, false, Option, none, some, List, [], ◌∷◌, not, ◌||◌, arith, All, sym,
}
use bocpy.Cown.{Host, Interp, Cown}
use mathlib.Core.Path.{subst}
use bocpy.Cown.Calls.{
  new, set, cown_set_value, cown_check_acquired, take_value, cown_acquire, give_value, cown_release,
  cown_disown,
}

abbrev pub is_some {ℓ} : {A : Type ℓ} → Option A → Bool
is_some none = false
is_some (some a) = true

module _ {Object Data : Type 0} where
  -- A cown holds a value just while an interpreter owns it, a block only with the queue that takes it
  -- back, and a pinned cown is always with the main interpreter and never has a block.
  pub record IsValid (main : ℕ) (c : Cown Object Data) : Type 0 where
    pub value_owned : is_some c.value ≡ is_some c.owner
    pub block_queued : not (is_some c.xidata) || is_some c.recycle_queue ≡ true
    pub pinned_main : c.is_pinned ≡ true → (c.owner ≡ some main) × (c.xidata ≡ none)

  pub new-IsValid : (id : ℕ) (v : Object) (me : Interp) → IsValid me.main_interpid (new id v me)
  unfolding new cown_set_value
  new-IsValid id v me = record {
    value_owned = refl;
    block_queued = refl;
    pinned_main = λ h. ground arith;
  }

module _ {Object Data : Type 0} (host : Host Object Data) where
  pub acquire-IsValid :
      (me : Interp) (c : Cown Object Data)
      → IsValid me.main_interpid c
      → IsValid me.main_interpid (cown_acquire host me c).cown
  unfolding cown_acquire take_value
  acquire-IsValid me c h = record {
    value_owned = ground (arith, h.value_owned);
    block_queued = ground (arith, h.block_queued);
    pinned_main = λ p. ground (arith, h.pinned_main);
  }

  pub release-IsValid :
      (me : Interp) (c : Cown Object Data)
      → IsValid me.main_interpid c
      → IsValid me.main_interpid (cown_release host me c).cown
  unfolding cown_release give_value
  release-IsValid me c h = record {
    value_owned = ground (arith, h.value_owned);
    block_queued = ground (arith, h.block_queued);
    pinned_main = λ p. ground (arith, h.pinned_main);
  }

  disown-IsValid :
      (me : Interp) (c : Cown Object Data)
      → IsValid me.main_interpid c
      → IsValid me.main_interpid (cown_disown host me c).cown
  unfolding cown_disown
  disown-IsValid me c h = record {
    value_owned = ground (arith, h.value_owned);
    block_queued = ground (arith, h.block_queued);
    pinned_main = λ p. ground (arith, h.pinned_main);
  }

  -- A call of an interpreter on a cown.
  pub data Call : Type 0 where
    acquire release disown : Interp → Call
    assign : Interp → Object → Call

  unfoldable pub main_of : Call → ℕ
  main_of (acquire me) = me.main_interpid
  main_of (release me) = me.main_interpid
  main_of (disown me) = me.main_interpid
  main_of (assign me v) = me.main_interpid

  unfoldable pub perform : Call → Cown Object Data → Cown Object Data
  unfolding cown_acquire cown_release cown_disown set
  perform (acquire me) c = (cown_acquire host me c).cown
  perform (release me) c = (cown_release host me c).cown
  perform (disown me) c = (cown_disown host me c).cown
  perform (assign me v) c = elim (set me v c) [ none ↦ c | some d ↦ d ]

  unfoldable pub perform_all : List Call → Cown Object Data → Cown Object Data
  unfolding perform
  perform_all [] c = c
  perform_all (k ∷ ks) c = perform_all ks (perform k c)

  assign-IsValid :
      (main : ℕ) (me : Interp) (v : Object) (c : Cown Object Data)
      → IsValid main c
      → IsValid main (perform (assign me v) c)
  unfolding perform set cown_set_value cown_check_acquired
  assign-IsValid main me v c h = record {
    value_owned = ground (arith, h.value_owned);
    block_queued = ground (arith, h.block_queued);
    pinned_main = λ p. ground (arith, h.pinned_main);
  }

  perform-IsValid :
      (k : Call) (c : Cown Object Data) → IsValid (main_of k) c → IsValid (main_of k) (perform k c)
  unfolding perform main_of
  perform-IsValid (acquire me) c h = acquire-IsValid me c h
  perform-IsValid (release me) c h = release-IsValid me c h
  perform-IsValid (disown me) c h = disown-IsValid me c h
  perform-IsValid (assign me v) c h = assign-IsValid me.main_interpid me v c h

  -- Any sequence of calls, failing or not, by any interpreters of one process, leaves a valid cown
  -- valid.
  pub perform_all-IsValid :
      (main : ℕ) (ks : List Call) (c : Cown Object Data)
      → All (λ k. main_of k ≡ main) ks
      → IsValid main c
      → IsValid main (perform_all ks c)
  unfolding perform_all
  perform_all-IsValid main [] c hs h = h
  perform_all-IsValid main (k ∷ ks) c (e, hs) h = perform_all-IsValid main ks (perform k c) hs (
      subst (λ m. IsValid m (perform k c)) e
        (perform-IsValid k c (subst (λ m. IsValid m c) (sym e) h)))
