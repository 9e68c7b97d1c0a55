-- ===== src/Tag/Lookup.antt =====
-- `get_queue_for_tag` of _core.c, on one interpreter and without interruption: which queue a tag gets.
-- A queue's tag and the interpreter's cached tags are pointers into a heap of tags.
use bocpy.Base.{
  ℕ, suc, ◌≡◌, inl, inr, if◌then◌else◌, Option, none, some, Bool, true, false, List, [], ◌∷◌, arith,
  refl, ap, sym, ◌∙◌, ap₂, Bytes, Option-cases,
}
use bocpy.Tag.{Tag, Compared, before, same, after, tag_compare_with_utf8}

pub data QueueState : Type 0 where
  unassigned assigned disabled_queue : QueueState

-- `state` and `tag` of one of BOC_QUEUES, and this interpreter's `queue_tags` at its index.
pub record TagSlot : Type 0 where
  pub state : QueueState
  pub tag : Option ℕ
  pub cached : Option ℕ

-- Found at an index; no queue is left; `tag_from_PyUnicode` failed; or a queue is assigned and its tag
-- never appears.
pub data Lookup : Type 0 where
  found : ℕ → Lookup
  no_queue no_tag waits : Lookup

abbrev pub is_same : Compared → Bool
is_same before = false
is_same same = true
is_same after = false

-- The heap of tags, and the tag that `tag_from_PyUnicode` makes of the argument, if it can.
module _ (heap : ℕ → Tag) (fresh : Option ℕ) (text : Bytes) where
  unfoldable pub matches : ℕ → Bool
  unfolding tag_compare_with_utf8
  matches t = is_same (tag_compare_with_utf8 (heap t) text)

  -- One turn of the loop: `none` is `continue`.
  unfoldable pub claim_slot : ℕ → TagSlot → Option Lookup × TagSlot
  unfolding matches
  claim_slot i s = elim s.state [
    | unassigned ↦ elim fresh [
      | none ↦ (some no_tag, s)
      | some t ↦ (some (found i), record { state = assigned; tag = some t; cached = some t })
    ]
    | disabled_queue ↦ (none, s)
    | assigned ↦ elim s.tag [
      | none ↦ (some waits, s)
      | some t ↦ (if matches t then some (found i) else none, record s { cached = some t })
    ]
  ]

  unfoldable pub visit : ℕ → TagSlot → Option Lookup × TagSlot
  unfolding matches claim_slot
  visit i s = elim s.cached [
    | none ↦ claim_slot i s
    | some t ↦
        if (heap t).disabled
        then claim_slot i (record s { cached = none })
        else (if matches t then some (found i) else none, s)
  ]

  unfoldable pub get_queue : ℕ → List TagSlot → Lookup × List TagSlot
  unfolding visit
  get_queue i [] = (no_queue, [])
  get_queue i (s ∷ slots) =
      let (answer, s') = visit i s in
      let (later, rest) = get_queue (suc i) slots in
      elim answer [ some l ↦ (l, s' ∷ slots) | none ↦ (later, s' ∷ rest) ]

  module _
      (makes : (t : ℕ) → fresh ≡ some t → (matches t ≡ true) × ((heap t).disabled ≡ false)) where
    visit_found :
        (i : ℕ) (s : TagSlot) (k : ℕ)
        → (visit i s).0 ≡ some (found k)
        → visit i (visit i s).1 ≡ (some (found k), (visit i s).1)
    unfolding visit claim_slot
    visit_found i s k h = elim (Option-cases fresh) [
      | inl e ↦ ground arith
      | inr (t, e) ↦ ground (arith, makes t e)
    ]

    visit_next :
        (i : ℕ) (s : TagSlot) → (visit i s).0 ≡ none → visit i (visit i s).1 ≡ (none, (visit i s).1)
    unfolding visit claim_slot
    visit_next i s h = ground arith

    get_queue_stops :
        (i : ℕ) (s : TagSlot) (slots : List TagSlot) (l : Lookup)
        → (visit i s).0 ≡ some l
        → get_queue i (s ∷ slots) ≡ (l, (visit i s).1 ∷ slots)
    unfolding get_queue
    get_queue_stops i s slots l e = rw (get_queue, e) refl

    get_queue_goes_on :
        (i : ℕ) (s : TagSlot) (slots : List TagSlot)
        → (visit i s).0 ≡ none
        → get_queue i (s ∷ slots)
          ≡ ((get_queue (suc i) slots).0, (visit i s).1 ∷ (get_queue (suc i) slots).1)
    unfolding get_queue
    get_queue_goes_on i s slots e = rw (get_queue, e) refl

    -- If the tag that is made for the argument has its text and is enabled, then a lookup that found a
    -- queue finds the same queue the next time, and changes nothing more.
    pub get_queue_again :
        (i : ℕ) (slots : List TagSlot) (k : ℕ)
        → (get_queue i slots).0 ≡ found k
        → get_queue i (get_queue i slots).1 ≡ (found k, (get_queue i slots).1)
    unfolding get_queue
    get_queue_again i [] k h = ground arith
    get_queue_again i (s ∷ slots) k h = elim (Option-cases (visit i s).0) [
      | inl e ↦
          let step = get_queue_goes_on i s slots e in
          let again = get_queue_again (suc i) slots k (sym (ap (λ r. r.0) step) ∙ h) in
          let next = visit_next i s e in
          rw step (
            get_queue_goes_on i (visit i s).1 (get_queue (suc i) slots).1 (ap (λ r. r.0) next)
            ∙ ap₂ (λ a v. (a.0, v.1 ∷ a.1)) again next)
      | inr (l, e) ↦
          let l_is = sym (ap (λ r. r.0) (get_queue_stops i s slots l e)) ∙ h in
          let found_k = e ∙ ap (λ x. some x) l_is in
          let next = visit_found i s k found_k in
          rw (get_queue_stops i s slots (found k) found_k) (
            get_queue_stops i (visit i s).1 slots (found k) (ap (λ r. r.0) next)
            ∙ ap (λ v. (found k, v.1 ∷ slots)) next)
    ]
