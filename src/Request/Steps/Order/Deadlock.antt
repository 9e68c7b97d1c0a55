-- ===== src/Request/Steps/Order/Deadlock.antt =====
-- The two-phase locking has no deadlock: some behaviour that has begun and is not done can go on.
use bocpy.Base.{ℕ, ◌<◌, arith, refl, sym, ap}
use bocpy.Request.Steps.{Program, WellFormed, System, Step, Reach, here, later, start}
use bocpy.Request.Steps.Ghost.{Ghost, Inv}
use bocpy.Request.Steps.Frame.{not_started}
use bocpy.Request.Steps.Resolving.{none-ne-some}
use bocpy.Request.Steps.Preserved.{advance, Step-Inv}
use bocpy.Request.Steps.Exclusion.{alone, start-Inv}
use bocpy.Request.Steps.Order.Linked.{Links, is_awaiting}
use bocpy.Request.Steps.Order.Chained.{Step-Links}
use bocpy.Request.Steps.Order.Ranks.{Ranked}
use bocpy.Request.Steps.Order.Ranking.{Order, Step-Ranked}
use bocpy.Request.Steps.Order.Tickets.{Ticketed, Sorted}
use bocpy.Request.Steps.Order.Ticketing.{Tickets, Step-Ticketed}
use bocpy.Request.Steps.Order.Done.{Ended, Step-Ended}
use bocpy.Request.Steps.Order.Progress.{Active}
use bocpy.Request.Steps.Order.Waits.{goes_on}

start-Links : (p : Program) → Links p (start p) alone
start-Links p = record {
  first_granted = λ b q m h e. absurd (not_started m h);
  unique = λ q q' r e e'. absurd (none-ne-some e);
  newest_alone = λ c q r e e'. none-ne-some e;
  passed = λ q r e e'. absurd (none-ne-some e');
  followed = λ r h e. absurd (not_started h.0 h.1);
  stores = λ q r e e'. absurd (none-ne-some e);
  awaited = λ b r rs e. absurd (not_started refl (sym (ap is_awaiting e)));
  swung = λ q r e. absurd (none-ne-some e);
  newest_swung = λ c r e. absurd (none-ne-some e);
  newest_kept = λ c r e. absurd (none-ne-some e);
}

start-Ranked : (p : Program) → Ranked p (start p) alone (λ b. 0) 0
start-Ranked p = record {
  set_by = λ r e. absurd (not_started e refl);
  waited_for = λ q r e h. absurd (none-ne-some e);
  in_order = λ q r e h. absurd (none-ne-some e);
  past = λ b h. absurd (not_started h refl);
  all_set = λ b q m h. absurd (not_started m h);
}

start-Ticketed :
    (p : Program)
    → ((b : ℕ) → Sorted p.target (p.requests b))
    → Ticketed p (start p) alone (λ r. 0) 0
start-Ticketed p in_order = record {
  below = λ b x m h. absurd (not_started m h);
  sorted = in_order;
  earlier = λ q r e. absurd (none-ne-some e);
  issued = λ r h. absurd (not_started h.0 h.1);
}

start-Ended : (p : Program) → Ended p (start p) alone
start-Ended p = record {
  zero = λ b e. absurd (omega arith);
  all_gone = λ b q m h. absurd (not_started m h);
}

-- Everything that the steps keep.
record Whole (p : Program) (s : System) : Type 0 where
  ghost : Ghost
  inv : Inv p s ghost
  links : Links p s ghost
  order : Order p s ghost
  tickets : Tickets p s ghost
  ended : Ended p s ghost

Step-Whole :
    (p : Program) (s t : System) (b : ℕ) → WellFormed p → Step p b s t → Whole p s → Whole p t
Step-Whole p s t b wf st w = record {
  ghost = advance p s b st w.ghost w.inv;
  inv = Step-Inv p wf s b st w.ghost w.inv;
  links = Step-Links p wf s b st w.ghost w.inv w.links;
  order = Step-Ranked p wf s b st w.ghost w.inv w.order;
  tickets = Step-Ticketed p wf s b st w.ghost w.inv w.links w.tickets;
  ended = Step-Ended p wf s b st w.ghost w.inv w.ended;
}

Reach-Whole : (p : Program) (s t : System) → WellFormed p → Reach p s t → Whole p s → Whole p t
Reach-Whole p s _ wf here w = w
Reach-Whole p s u wf (later {t = t} b r st) w = Step-Whole p t u b wf st (Reach-Whole p s t wf r w)

-- Take behaviours whose requests are their own and aim at different cowns, fewer than `cowns` in all,
-- in ascending order. Whenever a behaviour has begun to link its requests and has not released all of
-- them, then some behaviour of that kind can take a step: in no order of the steps of the threads
-- that schedule, run and release behaviours do they all wait for each other.
pub no_deadlock :
    (p : Program) (cowns : ℕ) (s : System) (b : ℕ)
    → WellFormed p
    → ((r : ℕ) → p.target r < cowns)
    → ((d : ℕ) → Sorted p.target (p.requests d))
    → Reach p (start p) s
    → Active p s b
    → (a : ℕ) × (t : System) × Active p s a × Step p a s t
no_deadlock p cowns s b wf few in_order steps active =
    let w : Whole p s = Reach-Whole p (start p) s wf steps (record {
      ghost = alone;
      inv = start-Inv p wf;
      links = start-Links p;
      order = (λ d. 0, 0, start-Ranked p);
      tickets = (λ r. 0, 0, start-Ticketed p in_order);
      ended = start-Ended p;
    }) in
    let (rank, rank_clock, ranks) = w.order in
    let (ticket, ticket_clock, tickets) = w.tickets in
    goes_on p wf s w.ghost w.inv w.links rank rank_clock ranks ticket ticket_clock tickets w.ended
      cowns few b active
