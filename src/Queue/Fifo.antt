-- ===== src/Queue/Fifo.antt =====
-- Calls of `boc_enqueue` and `boc_dequeue` of _core.c that do not overlap implement a bounded FIFO.
use bocpy.Base.{
  ℕ, zero, suc, ◌+◌, ◌%◌, ◌≤◌, ◌<◌, ◌≡◌, ◌≢◌, update, update_self, update_ne, none, some, true,
  false, List, [], ◌∷◌, ◌++◌, arith, refl, length, get_elem?, length-append, ==_of_ne, sym, ap, ◌∙◌,
}
use native.Mathlib.Decide.{ℕ_discrete}
use bocpy.Queue.{capacity, Queue, nothing_there, got, empty, enqueue, dequeue}

-- Two slots of one window of the ring differ.
slots_differ : (h i j : ℕ) → i < 16384 → j < 16384 → i ≢ j → (h + i) % 16384 ≢ (h + j) % 16384
slots_differ h i j p q ne = λ e. ground arith

next_slot : (h i : ℕ) → (h + 1 + i) % 16384 ≡ (h + suc i) % 16384
next_slot h i = omega arith

first_differs : (h i : ℕ) → suc i < 16384 → h % 16384 ≢ (h + suc i) % 16384
first_differs h i p = λ e. ground arith

module _ {Message : Type 0} where
  -- The queue holds the messages `ms`, oldest first, in consecutive slots; every other slot is NULL.
  pub record Holds (q : Queue Message) (ms : List Message) : Type 0 where
    pub counted : q.tail ≡ q.head + length ms
    pub bounded : length ms ≤ capacity
    pub slots : (i : ℕ) → i < capacity → q.messages ((q.head + i) % capacity) ≡ get_elem? ms i

  pub empty-Holds : Holds empty []
  unfolding empty
  empty-Holds = record { counted = refl; bounded = omega arith; slots = λ i h. refl }

  get-append_last :
      (ms : List Message) (m : Message) → get_elem? (ms ++ (m ∷ [])) (length ms) ≡ some m
  get-append_last [] m = refl
  get-append_last (x ∷ ms) m = get-append_last ms m

  get-append_other :
      (ms : List Message) (m : Message) (i : ℕ)
      → i ≢ length ms
      → get_elem? (ms ++ (m ∷ [])) i ≡ get_elem? ms i
  get-append_other [] m zero h = absurd (h refl)
  get-append_other [] m (suc i) h = refl
  get-append_other (x ∷ ms) m zero h = refl
  get-append_other (x ∷ ms) m (suc i) h = get-append_other ms m i (λ e. h (ap suc e))

  get-past : (ms : List Message) (i : ℕ) → length ms ≤ i → get_elem? ms i ≡ none
  get-past [] i h = refl
  get-past (x ∷ ms) zero h = absurd (omega arith)
  get-past (x ∷ ms) (suc i) h = get-past ms i (omega arith)

  pub pushed-Holds :
      (q : Queue Message) (m : Message) (ms : List Message)
      → Holds q ms
      → length ms < capacity
      → Holds
          (record q {
            messages = update q.messages (q.tail % capacity) (some m);
            tail = q.tail + 1;
          })
          (ms ++ (m ∷ []))
  pushed-Holds q m ms h room = record {
    counted = omega (arith, h.counted, length-append ms (m ∷ []));
    bounded = omega (arith, length-append ms (m ∷ []));
    slots = λ i below. elim (ℕ_discrete i (length ms)) [
      | yes e ↦
          ap (update q.messages (q.tail % capacity) (some m)) (omega (arith, h.counted, e))
          ∙ update_self q.messages (q.tail % capacity) (some m)
          ∙ sym (get-append_last ms m)
          ∙ ap (get_elem? (ms ++ (m ∷ []))) (sym e)
      | no ne ↦
          update_ne q.messages (q.tail % capacity) (some m) ((q.head + i) % capacity) (λ c.
            slots_differ q.head i (length ms) below room ne (sym c ∙ ap (λ t. t % 16384) h.counted))
          ∙ h.slots i below
          ∙ sym (get-append_other ms m i ne)
    ];
  }

  pub popped-Holds :
      (q : Queue Message) (m : Message) (ms : List Message)
      → Holds q (m ∷ ms)
      → Holds
          (record q { messages = update q.messages (q.head % capacity) none; head = q.head + 1 })
          ms
  popped-Holds q m ms h = record {
    counted = omega (arith, h.counted);
    bounded = omega (arith, h.bounded);
    slots = λ i below. elim (ℕ_discrete i 16383) [
      | yes e ↦
          ap (update q.messages (q.head % capacity) none) (omega (arith, e))
          ∙ update_self q.messages (q.head % capacity) none
          ∙ sym (get-past ms i (omega (arith, h.bounded, e)))
      | no ne ↦
          ap (update q.messages (q.head % capacity) none) (next_slot q.head i)
          ∙ update_ne q.messages (q.head % capacity) none ((q.head + suc i) % capacity)
              (first_differs q.head i (omega (arith, ne, below)))
          ∙ h.slots (suc i) (omega (arith, ne, below))
    ];
  }

  pub enqueue_full :
      (q : Queue Message) (m : Message) (ms : List Message)
      → Holds q ms
      → capacity ≤ length ms
      → enqueue m q ≡ (false, q)
  unfolding enqueue
  enqueue_full q m ms h full = ground (arith, h.counted)

  pub enqueue_room :
      (q : Queue Message) (m : Message) (ms : List Message)
      → Holds q ms
      → length ms < capacity
      → enqueue m q ≡ (
        true,
        record q { messages = update q.messages (q.tail % capacity) (some m); tail = q.tail + 1 },
      )
  unfolding enqueue
  enqueue_room q m ms h room = ground (arith, h.counted)

  pub dequeue_none : (q : Queue Message) → Holds q [] → dequeue q ≡ (nothing_there, q)
  unfolding dequeue
  dequeue_none q h = ground (arith, h.counted)

  pub head_slot :
      (q : Queue Message) (m : Message) (ms : List Message)
      → Holds q (m ∷ ms)
      → q.messages (q.head % capacity) ≡ some m
  head_slot q m ms h = ap (λ k. q.messages (k % capacity)) (omega arith) ∙ h.slots 0 (omega arith)

  pub dequeue_some :
      (q : Queue Message) (m : Message) (ms : List Message)
      → Holds q (m ∷ ms)
      → dequeue q ≡ (
        got m,
        record q { messages = update q.messages (q.head % capacity) none; head = q.head + 1 },
      )
  unfolding dequeue
  dequeue_some q m ms h =
      rw (==_of_ne q.tail q.head (omega (arith, h.counted)), head_slot q m ms h) refl
