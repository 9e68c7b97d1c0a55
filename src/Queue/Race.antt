-- ===== src/Queue/Race.antt =====
-- The atomic steps of `boc_enqueue` and `boc_dequeue` of _core.c, which overlapping calls interleave:
-- an enqueuer reserves a position by its compare-exchange on `tail`, then writes the slot; a dequeuer
-- claims a position by its compare-exchange on `head`, then reads and clears the slot.
use bocpy.Base.{
  ℕ, suc, ◌+◌, ◌-◌, ◌%◌, ◌==◌, ◌≡◌, if◌then◌else◌, leb, update, update_self, Option, none, some,
  Bool, true, false, List, ◌∷◌, arith, refl, length, ap, ◌∙◌, sym,
}
use bocpy.Queue.{capacity, Queue, Dequeued, nothing_there, got, asleep, enqueue, dequeue}
use bocpy.Queue.Fifo.{Holds, head_slot}

module _ {Message : Type 0} where
  -- The position, or `none` where `boc_enqueue` returns -1.
  unfoldable pub reserve : Queue Message → Option ℕ × Queue Message
  reserve q =
      if leb capacity (q.tail - q.head)
      then (none, q)
      else (some q.tail, record q { tail = q.tail + 1 })

  unfoldable pub write : ℕ → Message → Queue Message → Queue Message
  write at_tail m q = record q { messages = update q.messages (at_tail % capacity) (some m) }

  -- The position, or `none` where `boc_dequeue` returns -1.
  unfoldable pub claim : Queue Message → Option ℕ × Queue Message
  claim q = if q.tail == q.head then (none, q) else (some q.head, record q { head = q.head + 1 })

  -- `none` while the slot is NULL: the dequeuer sleeps and looks again.
  unfoldable pub take : ℕ → Queue Message → Option Message × Queue Message
  take at_head q = elim (q.messages (at_head % capacity)) [
    | none ↦ (none, q)
    | some m ↦ (some m, record q { messages = update q.messages (at_head % capacity) none })
  ]

  -- Uninterrupted, the two steps of a call are the call.
  abbrev pub enqueue_steps : Message → Queue Message → Bool × Queue Message
  enqueue_steps m q =
      let (place, q') = reserve q in
      elim place [ none ↦ (false, q') | some t ↦ (true, write t m q') ]

  abbrev pub dequeue_steps : Queue Message → Dequeued Message × Queue Message
  dequeue_steps q =
      let (place, q') = claim q in
      elim place [
        | none ↦ (nothing_there, q')
        | some h ↦
            let (taken, q2) = take h q' in elim taken [ none ↦ (asleep, q2) | some m ↦ (got m, q2) ]
      ]

  -- Steps that nothing comes between make up the calls.
  pub calls_of_steps :
      (m : Message) (q : Queue Message)
      → (enqueue_steps m q ≡ enqueue m q) × (dequeue_steps q ≡ dequeue q)
  unfolding enqueue dequeue reserve write claim take
  calls_of_steps m q = (ground arith, ground arith)

  claim_full :
      (q : Queue Message) (m : Message) (ms : List Message)
      → Holds q (m ∷ ms)
      → claim q ≡ (some q.head, record q { head = q.head + 1 })
  unfolding claim
  claim_full q m ms h = ground (arith, h.counted)

  reserve_full :
      (q : Queue Message)
      → q.tail ≡ q.head + capacity
      → reserve (record q { head = q.head + 1 })
        ≡ (some q.tail, record q { head = q.head + 1; tail = q.tail + 1 })
  unfolding reserve
  reserve_full q e = ground arith

  take_over :
      (q : Queue Message) (t k : ℕ) (m : Message)
      → t % capacity ≡ k % capacity
      → let r : Queue Message = record q { messages = update q.messages (t % capacity) (some m) } in
        take k r ≡ (some m, record r { messages = update r.messages (k % capacity) none })
  unfolding take
  take_over q t k m e =
      rw
        (
          take,
          (ap (update q.messages (t % capacity) (some m)) (sym e)
              ∙ update_self q.messages (t % capacity) (some m)),
        )
        refl

  -- A full ring does not survive an enqueue between the two steps of a dequeue. The dequeuer claims the
  -- oldest message `m`; the enqueuer then finds room, and writes `m'` over `m`, though `boc_enqueue`
  -- asserts that the slot is NULL; the dequeuer takes `m'`. Now `m` is gone, and the ring counts
  -- `capacity` messages again with the slot of the last one NULL.
  pub overtaken :
      (q : Queue Message) (m m' : Message) (ms : List Message)
      → Holds q (m ∷ ms)
      → suc (length ms) ≡ capacity
      → let (claimed, q1) = claim q in
        let (reserved, q2) = reserve q1 in
        let q3 = write q.tail m' q2 in
        let (taken, q4) = take q.head q3 in
        (claimed ≡ some q.head)
        × ((reserved ≡ some q.tail)
            × ((q2.messages (q.tail % capacity) ≡ some m)
                × ((taken ≡ some m')
                    × ((q4.tail ≡ q4.head + capacity)
                        × (q4.messages ((q4.tail - 1) % capacity) ≡ none)))))
  unfolding write
  overtaken q m m' ms h full =
      let wraps : q.tail ≡ q.head + 16384 = omega (arith, h.counted) in
      let same : q.tail % 16384 ≡ q.head % 16384 = omega (arith, wraps) in
      rw
        (
          claim_full q m ms h,
          reserve_full q wraps,
          take_over (record q { head = q.head + 1; tail = q.tail + 1 }) q.tail q.head m' same,
        )
        (
          refl,
          (
            refl,
            (
              ap q.messages same ∙ head_slot q m ms h,
              (
                refl,
                (
                  omega (arith, wraps),
                  ap (update (update q.messages (q.tail % 16384) (some m')) (q.head % 16384) none)
                        (omega (arith, same))
                      ∙ update_self (update q.messages (q.tail % 16384) (some m')) (q.head % 16384)
                          none,
                ),
              ),
            ),
          ),
        )
