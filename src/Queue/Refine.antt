-- ===== src/Queue/Refine.antt =====
-- Any sequence of calls of `boc_enqueue` and `boc_dequeue` of _core.c that do not overlap, against
-- the same calls on a list.
use bocpy.Base.{
  ◌≡◌, ◌<◌, if◌then◌else◌, leb, leb→le, Bool, true, false, List, [], ◌∷◌, ◌++◌, arith, refl, length,
  ap, Bool-cases, inl, inr,
}
use bocpy.Queue.{capacity, Queue, Dequeued, nothing_there, got, enqueue, dequeue}
use bocpy.Queue.Fifo.{
  Holds, pushed-Holds, popped-Holds, enqueue_full, enqueue_room, dequeue_none, dequeue_some,
}

pub data Op (Message : Type 0) : Type 0 where
  put : Message → Op Message
  take : Op Message

pub data Answer (Message : Type 0) : Type 0 where
  stored : Bool → Answer Message
  taken : Dequeued Message → Answer Message

module _ {Message : Type 0} where
  unfoldable pub run : List (Op Message) → Queue Message → List (Answer Message) × Queue Message
  unfolding enqueue dequeue
  run [] q = ([], q)
  run (put m ∷ ops) q =
      let (b, q') = enqueue m q in let (answers, after) = run ops q' in (stored b ∷ answers, after)
  run (take ∷ ops) q =
      let (d, q') = dequeue q in let (answers, after) = run ops q' in (taken d ∷ answers, after)

  -- The specification.
  unfoldable pub run_list : List (Op Message) → List Message → List (Answer Message) × List Message
  run_list [] ms = ([], ms)
  run_list (put m ∷ ops) ms =
      if leb capacity (length ms)
      then (let (answers, after) = run_list ops ms in (stored false ∷ answers, after))
      else (let (answers, after) = run_list ops (ms ++ (m ∷ [])) in (stored true ∷ answers, after))
  run_list (take ∷ ops) [] =
      let (answers, after) = run_list ops [] in (taken nothing_there ∷ answers, after)
  run_list (take ∷ ops) (m ∷ ms) =
      let (answers, after) = run_list ops ms in (taken (got m) ∷ answers, after)

  -- From a ring that holds `ms`, any sequence of calls answers as the list `ms` does under appending
  -- up to `capacity` messages and taking the first; no dequeue sleeps, and the ring holds the list
  -- that is left.
  pub run_refines_list :
      (ops : List (Op Message)) (q : Queue Message) (ms : List Message)
      → Holds q ms
      → ((run ops q).0 ≡ (run_list ops ms).0) × Holds (run ops q).1 (run_list ops ms).1
  unfolding run run_list
  run_refines_list [] q ms h = (refl, h)
  run_refines_list (put m ∷ ops) q ms h = elim (Bool-cases (leb capacity (length ms))) [
    | inl full ↦
        let (same, after) = run_refines_list ops q ms h in
        rw (run, run_list, enqueue_full q m ms h (leb→le capacity (length ms) full), full)
          (ap (λ l. stored false ∷ l) same, after)
    | inr room ↦
        let below : length ms < capacity = ground arith in
        let (same, after) = run_refines_list ops _ (ms ++ (m ∷ [])) (pushed-Holds q m ms h below) in
        rw (run, run_list, enqueue_room q m ms h below, room)
          (ap (λ l. stored true ∷ l) same, after)
  ]
  run_refines_list (take ∷ ops) q [] h =
      let (same, after) = run_refines_list ops q [] h in
      rw (run, dequeue_none q h) (ap (λ l. taken nothing_there ∷ l) same, after)
  run_refines_list (take ∷ ops) q (m ∷ ms) h =
      let (same, after) = run_refines_list ops _ ms (popped-Holds q m ms h) in
      rw (run, dequeue_some q m ms h) (ap (λ l. taken (got m) ∷ l) same, after)
