-- ===== src/Queue.antt =====
-- The message queue of _core.c: a ring of `BOC_CAPACITY` slots between two counters that only grow.
-- The counters are ℕ: a signed 64-bit counter that starts at 0 does not overflow in practice.
mod Fifo
mod Refine
mod Race
mod Tests
use bocpy.Base.{
  ℕ, ◌+◌, ◌-◌, ◌%◌, ◌==◌, if◌then◌else◌, leb, update, Option, none, some, Bool, true, false,
}

abbrev pub capacity : ℕ
capacity = 16384

-- `struct boc_queue`, without what only parks and counts. A slot holds a message or NULL.
pub record Queue (Message : Type 0) : Type 0 where
  pub messages : ℕ → Option Message
  pub head : ℕ
  pub tail : ℕ

-- What `boc_dequeue` does: it returns -1, it returns a message, or it sleeps at a slot that is NULL.
pub data Dequeued (Message : Type 0) : Type 0 where
  nothing_there asleep : Dequeued Message
  got : Message → Dequeued Message

module _ {Message : Type 0} where
  unfoldable pub empty : Queue Message
  empty = record { messages = λ i. none; head = 0; tail = 0 }

  -- `boc_enqueue` without interruption; `false` stands for -1.
  unfoldable pub enqueue : Message → Queue Message → Bool × Queue Message
  enqueue m q = if leb capacity (q.tail - q.head) then (false, q) else (
    true,
    record q { messages = update q.messages (q.tail % capacity) (some m); tail = q.tail + 1 },
  )

  -- `boc_dequeue` without interruption, from a queue of its tag.
  unfoldable pub dequeue : Queue Message → Dequeued Message × Queue Message
  dequeue q =
      if q.tail == q.head then (nothing_there, q) else elim (q.messages (q.head % capacity)) [
        | none ↦ (asleep, record q { head = q.head + 1 })
        | some m ↦ (
          got m,
          record q { messages = update q.messages (q.head % capacity) none; head = q.head + 1 },
        )
      ]
