-- ===== src/Terminator/Concurrent.antt =====
-- The calls of boc_terminator.c by single atomic accesses, of any number of threads in any order.
use bocpy.Base.{
  ℕ, ◌+◌, ◌-◌, ◌%◌, ◌≤◌, ◌<◌, ◌≡◌, ◌≢◌, ◌^◌, arith, update, weight, weight-update, weight-le, inc64,
  zero, suc, refl,
}
use bocpy.Terminator.{
  Terminator, inc_undo, terminator_dec, terminator_close, seed_drop, seed_add, terminator_reset,
}

-- Where a thread stands: outside the calls that have several accesses; in `terminator_inc`, past its
-- first test or past its increment; in `terminator_seed_dec`, past its exchange of a seed that was set;
-- in `terminator_seed_inc`, past its exchange that set the seed.
pub data Pc : Type 0 where
  idle checked added unseeded seeding : Pc

-- `held` counts the increments that succeeded and have not been given back by `terminator_dec`.
pub record System : Type 0 where
  pub term : Terminator
  pub pc : ℕ → Pc
  pub held : ℕ

-- One atomic access of one of `n` threads. A thread gives back only what is held.
pub data Step (n : ℕ) (s : System) : System → Type 0 where
  refuse : (i : ℕ) → i < n → s.pc i ≡ idle → s.term.closed ≢ 0 → Step n s s
  check :
      (i : ℕ)
      → i < n
      → s.pc i ≡ idle
      → s.term.closed ≡ 0
      → Step n s (record s { pc = update s.pc i checked })
  add :
      (i : ℕ)
      → i < n
      → s.pc i ≡ checked
      → Step n s (record s {
        term = record (s.term) { count = inc64 s.term.count };
        pc = update s.pc i added;
      })
  grant :
      (i : ℕ)
      → i < n
      → s.pc i ≡ added
      → s.term.closed ≡ 0
      → Step n s (record s { pc = update s.pc i idle; held = s.held + 1 })
  undo :
      (i : ℕ)
      → i < n
      → s.pc i ≡ added
      → s.term.closed ≢ 0
      → Step n s (record s { term = (inc_undo s.term).after; pc = update s.pc i idle })
  give_back :
      0 < s.held → Step n s (record s { term = (terminator_dec s.term).after; held = s.held - 1 })
  close : Step n s (record s { term = terminator_close s.term })
  seed_exchange :
      (i : ℕ)
      → i < n
      → s.pc i ≡ idle
      → s.term.seeded ≡ 1
      → Step n s (record s { term = record (s.term) { seeded = 0 }; pc = update s.pc i unseeded })
  seed_gone :
      (i : ℕ)
      → i < n
      → s.pc i ≡ idle
      → s.term.seeded ≢ 1
      → Step n s (record s { term = record (s.term) { seeded = 0 } })
  drop_seed :
      (i : ℕ)
      → i < n
      → s.pc i ≡ unseeded
      → Step n s (record s { term = (seed_drop s.term).after; pc = update s.pc i idle })
  seed_set :
      (i : ℕ)
      → i < n
      → s.pc i ≡ idle
      → s.term.seeded ≡ 0
      → Step n s (record s { term = record (s.term) { seeded = 1 }; pc = update s.pc i seeding })
  seed_there : (i : ℕ) → i < n → s.pc i ≡ idle → s.term.seeded ≢ 0 → Step n s s
  add_seed :
      (i : ℕ)
      → i < n
      → s.pc i ≡ seeding
      → Step n s (record s { term = (seed_add s.term).after; pc = update s.pc i idle })

pub data Reach (n : ℕ) (s : System) : System → Type 0 where
  here : Reach n s s
  next : {t u : System} → Reach n s t → Step n t u → Reach n s u

-- What the count has for a thread that is past its first access to it, or must still take off.
abbrev pub in_flight : Pc → ℕ
in_flight added = 1
in_flight unseeded = 1
in_flight _ = 0

-- What a thread must still add to the count, for a seed that it has set.
abbrev pub owed : Pc → ℕ
owed seeding = 1
owed _ = 0

-- The count is the seed, the increments not yet confirmed or undone, the seeds taken away but not yet
-- off the count, and what is held, less the seeds set that are not yet on the count; modulo 2^64.
pub record Inv (n : ℕ) (s : System) : Type 0 where
  pub seed_bit : s.term.seeded ≤ 1
  pub counted :
      (s.term.count + weight owed s.pc n) % 2 ^ 64
      ≡ (s.term.seeded + weight in_flight s.pc n + s.held) % 2 ^ 64

in_flight-le : (p : Pc) → in_flight p ≤ 1
in_flight-le p = ground arith

-- Every atomic access keeps this: modulo 2^64, the count, with the seeds that threads have set but not
-- counted yet, is the seed, the increments under way, the seeds taken away but still counted, and what
-- is held.
pub Step-Inv : {n : ℕ} {s t : System} → Step n s t → Inv n s → Inv n t
unfolding inc_undo terminator_dec terminator_close seed_drop seed_add
Step-Inv (refuse i lt e c) v = v
Step-Inv {n} {s} (check i lt e c) v =
    ground
      (arith, weight-update in_flight s.pc i checked n lt, weight-update owed s.pc i checked n lt)
Step-Inv {n} {s} (add i lt e) v =
    ground (arith, weight-update in_flight s.pc i added n lt, weight-update owed s.pc i added n lt)
Step-Inv {n} {s} (grant i lt e c) v =
    ground (arith, weight-update in_flight s.pc i idle n lt, weight-update owed s.pc i idle n lt)
Step-Inv {n} {s} (undo i lt e c) v =
    ground (arith, weight-update in_flight s.pc i idle n lt, weight-update owed s.pc i idle n lt)
Step-Inv {n} {s} (give_back h) v = ground arith
Step-Inv close v = ground arith
Step-Inv {n} {s} (seed_exchange i lt e one) v =
    ground
      (arith, weight-update in_flight s.pc i unseeded n lt, weight-update owed s.pc i unseeded n lt)
Step-Inv {n} {s} (seed_gone i lt e other) v = ground arith
Step-Inv {n} {s} (drop_seed i lt e) v =
    ground (arith, weight-update in_flight s.pc i idle n lt, weight-update owed s.pc i idle n lt)
Step-Inv {n} {s} (seed_set i lt e none_there) v =
    ground
      (arith, weight-update in_flight s.pc i seeding n lt, weight-update owed s.pc i seeding n lt)
Step-Inv (seed_there i lt e there) v = v
Step-Inv {n} {s} (add_seed i lt e) v =
    ground (arith, weight-update in_flight s.pc i idle n lt, weight-update owed s.pc i idle n lt)

-- Once closed, no increment succeeds: the counter stays closed and what is held only falls.
pub Step-closed :
    {n : ℕ} {s t : System}
    → s.term.closed ≡ 1
    → Step n s t
    → (t.term.closed ≡ 1) × (t.held ≤ s.held)
unfolding inc_undo terminator_dec terminator_close seed_drop seed_add
Step-closed c (refuse i lt e k) = ground arith
Step-closed c (check i lt e k) = absurd (omega arith)
Step-closed c (add i lt e) = ground arith
Step-closed c (grant i lt e k) = absurd (omega arith)
Step-closed c (undo i lt e k) = ground arith
Step-closed c (give_back h) = ground arith
Step-closed c close = ground arith
Step-closed c (seed_exchange i lt e one) = ground arith
Step-closed c (seed_gone i lt e other) = ground arith
Step-closed c (drop_seed i lt e) = ground arith
Step-closed c (seed_set i lt e none_there) = ground arith
Step-closed c (seed_there i lt e there) = ground arith
Step-closed c (add_seed i lt e) = ground arith

pub Reach-closed :
    {n : ℕ} {s t : System}
    → s.term.closed ≡ 1
    → Reach n s t
    → (t.term.closed ≡ 1) × (t.held ≤ s.held)
Reach-closed c here = (c, omega arith)
Reach-closed c (next r st) =
    let (c', le) = Reach-closed c r in let (c'', le') = Step-closed c' st in (c'', omega arith)

-- The system after `terminator_reset`: no thread is inside `terminator_inc`, and nothing is held.
abbrev pub start : Terminator → System
start t = record { term = (terminator_reset t).after; pc = λ i. idle; held = 0 }

weight-none : (weigh : Pc → ℕ) (n : ℕ) → weigh idle ≡ 0 → weight weigh (λ i. idle) n ≡ 0
unfolding weight
weight-none weigh zero light = refl
weight-none weigh (suc n) light = omega (arith, light, weight-none weigh n light)

start-Inv : (n : ℕ) (t : Terminator) → Inv n (start t)
unfolding terminator_reset
start-Inv n t = record {
  seed_bit = omega arith;
  counted = omega (arith, weight-none in_flight n refl, weight-none owed n refl);
}

Reach-Inv : {n : ℕ} {s t : System} → Reach n s t → Inv n s → Inv n t
Reach-Inv here v = v
Reach-Inv (next r st) v = Step-Inv st (Reach-Inv r v)

-- Rundown: take fewer than 2^62 threads, and a state that a run from `terminator_reset` leads to, in which
-- fewer than 2^63 behaviours are held and no thread is between the two accesses of
-- `terminator_seed_inc`. If the counter is then closed and a waiter reads 0, nothing is held, the seed is
-- gone, no increment is under way and no seed to be taken off the count, and nothing is ever held
-- again, whatever the threads do next.
pub rundown :
    {n : ℕ} {s t : System} (first : Terminator)
    → n < 2 ^ 62
    → Reach n (start first) s
    → s.held < 2 ^ 63
    → weight owed s.pc n ≡ 0
    → s.term.closed ≡ 1
    → s.term.count ≡ 0
    → Reach n s t
    → (s.held ≡ 0) × (s.term.seeded ≡ 0) × (weight in_flight s.pc n ≡ 0) × (t.held ≡ 0)
rundown {n} {s} first few r small none_owed c z later =
    let v = Reach-Inv r (start-Inv n first) in
    let (_, le) = Reach-closed c later in
    omega (arith, v.counted, v.seed_bit, weight-le in_flight s.pc n in_flight-le)
