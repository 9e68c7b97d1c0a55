-- ===== src/Queue/Tests.antt =====
-- Small rings and a full one, and the queue's properties there.
use bocpy.Base.{
  ℕ, zero, suc, ◌+◌, ◌-◌, ◌%◌, ◌≡◌, ◌<◌, refl, sym, List, [], ◌∷◌, none, some, arith, true, length,
  get_elem?, replicate,
}
use bocpy.Queue.{Queue, capacity, empty, nothing_there, got}
use bocpy.Queue.Fifo.{Holds, empty-Holds}
use bocpy.Queue.Refine.{Op, put, take, stored, taken, run, run_list, run_refines_list}
use bocpy.Queue.Race.{
  claim, reserve, write, overtaken, calls_of_steps, enqueue_steps, dequeue_steps,
}
use bocpy.Queue.Race

abbrev ops : List (Op ℕ)
ops = put 4 ∷ put 5 ∷ take ∷ put 6 ∷ take ∷ take ∷ take ∷ []

answers :
    (run ops empty).0
    ≡ stored true
      ∷ stored true
      ∷ taken (got 4)
      ∷ stored true
      ∷ taken (got 5)
      ∷ taken (got 6)
      ∷ taken nothing_there
      ∷ []
unfolding run empty
answers = refl

run_refines_list_example :
    ((run ops empty).0 ≡ (run_list ops []).0) × Holds (run ops empty).1 (run_list ops []).1
run_refines_list_example = run_refines_list ops empty [] empty-Holds

length-replicate : (n a : ℕ) → length (replicate n a) ≡ n
length-replicate zero a = refl
length-replicate (suc n) a = omega (arith, length-replicate n a)

get-replicate : (n a i : ℕ) → i < n → get_elem? (replicate n a) i ≡ some a
get-replicate zero a i h = absurd (omega arith)
get-replicate (suc n) a zero h = refl
get-replicate (suc n) a (suc i) h = get-replicate n a i (omega arith)

abbrev full_ring : Queue ℕ
full_ring = record { messages = λ i. some 7; head = 0; tail = 16384 }

full-Holds : (n : ℕ) → n ≡ 16383 → Holds full_ring (7 ∷ replicate n 7)
full-Holds n e = record {
  counted = omega (arith, length-replicate n 7);
  bounded = omega (arith, length-replicate n 7);
  slots = λ i h. sym (get-replicate (suc n) 7 i (omega arith));
}

full_length : (n : ℕ) → n ≡ 16383 → suc (length {A = ℕ} (replicate n 7)) ≡ capacity
full_length n e = omega (arith, length-replicate n 7)

overtaken_example :
    let (claimed, q1) = claim full_ring in
    let (reserved, q2) = reserve q1 in
    let q3 = write 16384 9 q2 in
    let (t, q4) = Race.take 0 q3 in
    (claimed ≡ some 0)
    × ((reserved ≡ some 16384)
        × ((q2.messages (16384 % capacity) ≡ some 7)
            × ((t ≡ some 9)
                × ((q4.tail ≡ q4.head + capacity)
                    × (q4.messages ((q4.tail - 1) % capacity) ≡ none)))))
overtaken_example =
    overtaken full_ring 7 9 (replicate 16383 7) (full-Holds 16383 refl) (full_length 16383 refl)
