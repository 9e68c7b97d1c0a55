-- ===== src/Bq/Tests.antt =====
-- Runs of the queue, and the properties of its operations at concrete queues.
use bocpy.Base.{◌≡◌, refl, none, some, List, [], ◌∷◌, arith, if◌then◌else◌, ◌==◌}
use bocpy.Bq.{Bq, Links, Segment, next_in_queue, init, enqueue, enqueue_front, dequeue}
use bocpy.Bq.Chain.{Holds, Spans}
use bocpy.Bq.Refine.{Op, push, push_front, pop, run, run_list, init-Holds, run_refines}

abbrev unlinked : Links
unlinked n = none

-- Nodes 4 and 7 in the queue, 8 and 9 linked to one another outside it.
abbrev links : Links
links n = if n == 4 then some 7 else if n == 8 then some 9 else none

abbrev two_nodes : Bq
two_nodes = record { links = links; front = some 4; back = next_in_queue 7 }

two_nodes-Holds : Holds two_nodes (4 ∷ 7 ∷ [])
two_nodes-Holds = record { chain = (refl, (refl, refl)); at_back = refl; distinct = omega arith }

abbrev pair : Segment
pair = record { start = some 8; end = some (next_in_queue 9) }

pair-Spans : Spans links pair 8 (9 ∷ [])
pair-Spans = record {
  tail = none;
  chain = (refl, (refl, refl));
  at_end = refl;
  distinct = omega arith;
}

abbrev script : List Op
script = push 4 ∷ push 7 ∷ push_front 2 ∷ pop ∷ pop ∷ push 2 ∷ pop ∷ pop ∷ pop ∷ []

run-script : run (init unlinked) script ≡ some 2 ∷ some 4 ∷ some 7 ∷ some 2 ∷ none ∷ []
unfolding run init enqueue enqueue_front dequeue
run-script = refl

run_refines_example : run (init unlinked) script ≡ run_list [] script
run_refines_example = run_refines script (init unlinked) [] (init-Holds unlinked) (omega arith)
