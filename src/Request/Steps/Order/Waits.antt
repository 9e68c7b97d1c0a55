-- ===== src/Request/Steps/Order/Waits.antt =====
-- The waits of the two-phase locking lead to a behaviour that can go on.
use bocpy.Base.{
  ℕ, ◌+◌, ◌<◌, ◌≡◌, ◌≢◌, ◌⊎◌, inl, inr, true, false, some, List, contains, arith, refl, sym, ap,
  ◌∙◌, Bool-cases, Option-cases, zero, suc, ◌≤◌,
}
use mathlib.Core.Path.{subst}
use native.Mathlib.Decide.{ℕ_discrete}
use bocpy.Request.Steps.{
  Program, WellFormed, Pc, linking, first, storing, spinning, finishing, last_hold, waiting,
  running, releasing, trying, awaiting, handing, System,
}
use bocpy.Request.Steps.Ghost.{Ghost, Inv, Place, pending, final}
use bocpy.Request.Steps.Frame.{not_started}
use bocpy.Request.Steps.Order.{left, unswung, unfinished, kept, ranked}
use bocpy.Request.Steps.Order.Linked.{Links}
use bocpy.Request.Steps.Order.Ranks.{Ranked}
use bocpy.Request.Steps.Order.Tickets.{Ticketed, Below}
use bocpy.Request.Steps.Order.Done.{Ended}
use bocpy.Request.Steps.Order.Progress.{Active, Moves, Blocked, contains-skip, ungranted, can_step}

module _ (p : Program) (wf : WellFormed p) (s : System) (g : Ghost) (v : Inv p s g)
    (links : Links p s g) (rank : ℕ → ℕ) (rank_clock : ℕ) (ranks : Ranked p s g rank rank_clock)
    (ticket : ℕ → ℕ) (ticket_clock : ℕ) (tickets : Ticketed p s g ticket ticket_clock)
    (ended : Ended p s g) where
  abbrev Later : ℕ → ℕ → Type 0
  Later r r' = (p.target r < p.target r') ⊎ ((p.target r' ≡ p.target r) × (ticket r' < ticket r))

  spin_chain :
      (prev r : ℕ)
      → g.before r ≡ some prev
      → s.chains.scheduled prev ≡ false
      → ((d prev' r' : ℕ) (rs' : List ℕ)
          → s.pc d ≡ spinning prev' r' rs'
          → s.chains.scheduled prev' ≡ false
          → Later r r'
          → Moves p s)
      → (x : Pc) → s.pc (p.owner prev) ≡ x
      → Blocked s (p.owner prev) x
      → Moves p s
  spin_chain prev r stands down ih (spinning prev' r' rs') there down' =
      let d : ℕ = p.owner prev in
      let (mine, in_chain) = links.swung r prev stands in
      let same_cown : p.target r ≡ p.target prev = v.behind r prev stands in
      elim (ℕ_discrete r' prev) [
        | yes same ↦ ih d prev' r' rs' there down' (
            inr (
              ap p.target same ∙ sym same_cown,
              omega (arith, tickets.earlier r prev stands, ap ticket same),
            ))
        | no ne ↦ ih d prev' r' rs' there down' (
            inl (
              omega (
                arith,
                same_cown,
                subst (λ y. Below p.target (p.target prev) (left y)) there
                    (tickets.below d prev mine (
                      ap (λ y. contains (left y) prev) there
                      ∙ contains-skip r' prev rs' ne
                          (ap (λ y. contains (unswung y) prev) (sym there) ∙ in_chain))),
              )))
      ]
  spin_chain prev r stands down ih waiting there blocked =
      let (mine, in_chain) = links.swung r prev stands in
      absurd (
        not_started
          (ranks.all_set (p.owner prev) prev mine
            (ap (λ y. contains (unfinished (p.requests (p.owner prev)) y) prev) there))
          down)
  spin_chain prev r stands down ih (linking rs') there blocked = absurd blocked
  spin_chain prev r stands down ih (first x rs') there blocked = absurd blocked
  spin_chain prev r stands down ih (storing x y rs') there blocked = absurd blocked
  spin_chain prev r stands down ih (finishing rs') there blocked = absurd blocked
  spin_chain prev r stands down ih last_hold there blocked = absurd blocked
  spin_chain prev r stands down ih running there blocked = absurd blocked
  spin_chain prev r stands down ih (releasing rs') there blocked = absurd blocked
  spin_chain prev r stands down ih (trying x rs') there blocked = absurd blocked
  spin_chain prev r stands down ih (awaiting x rs') there blocked = absurd blocked
  spin_chain prev r stands down ih (handing x y rs') there blocked = absurd blocked

  -- The behaviour that a spinning one waits for moves, or spins at a later cown, or at the same one
  -- nearer to the front.
  spin_step :
      (b prev r : ℕ) (rs : List ℕ)
      → s.pc b ≡ spinning prev r rs
      → s.chains.scheduled prev ≡ false
      → ((d prev' r' : ℕ) (rs' : List ℕ)
          → s.pc d ≡ spinning prev' r' rs'
          → s.chains.scheduled prev' ≡ false
          → Later r r'
          → Moves p s)
      → (x : Pc) → s.pc (p.owner prev) ≡ x
      → Moves p s
  spin_step b prev r rs at down ih x there =
      let place : Place p g b (spinning prev r rs) = subst (Place p g b) at (v.places b) in
      let d : ℕ = p.owner prev in
      let (mine, in_chain) = links.swung r prev place.2 in
      let active : Active p s d = record {
        begun = λ e. not_started mine (ap (λ y. contains (unswung y) prev) (sym e) ∙ in_chain);
        not_done = λ e.
            not_started
              (ranks.all_set d prev mine (ap (λ y. contains (unfinished (p.requests d) y) prev) e))
              down;
      } in
      elim (can_step p wf s g v links d x there active) [
        | inl m ↦ m
        | inr blocked ↦ spin_chain prev r place.2 down ih x there blocked
      ]

  -- The wait for `scheduled` ends: it leads to later cowns, or to the front of one.
  spin_ends :
      (cowns : ℕ)
      → ((r : ℕ) → p.target r < cowns)
      → (k m : ℕ) (b prev r : ℕ) (rs : List ℕ) → s.pc b ≡ spinning prev r rs
      → s.chains.scheduled prev ≡ false
      → cowns ≤ p.target r + k
      → ticket r < m
      → Moves p s
  spin_ends cowns few zero m b prev r rs at down near early = absurd (omega (arith, few r))
  spin_ends cowns few (suc k) zero b prev r rs at down near early = absurd (omega arith)
  spin_ends cowns few (suc k) (suc m) b prev r rs at down near early =
      spin_step b prev r rs at down
        (λ d prev' r' rs' at' down' l. elim l [
          | inl far ↦
              spin_ends cowns few k (suc (ticket r')) d prev' r' rs' at' down' (omega arith)
                (omega arith)
          | inr (same, front) ↦
              spin_ends cowns few (suc k) m d prev' r' rs' at' down' (omega arith) (omega arith)
        ])
        (s.pc (p.owner prev)) refl

  wait_chain :
      (m r : ℕ)
      → rank (p.owner r) < m
      → ranked (s.pc (p.owner r)) ≡ true
      → ((d : ℕ)
          → rank d < m
          → s.pc d ≡ waiting
          → contains s.chains.dispatched d ≡ false
          → Moves p s)
      → (x : Pc) → s.pc (p.owner r) ≡ x
      → Blocked s (p.owner r) x
      → Moves p s
  wait_chain m r less on ih waiting there out = ih (p.owner r) less there out
  wait_chain m r less on ih (spinning prev' r' rs') there down =
      absurd (not_started on (ap ranked there))
  wait_chain m r less on ih (linking rs') there blocked = absurd blocked
  wait_chain m r less on ih (first x rs') there blocked = absurd blocked
  wait_chain m r less on ih (storing x y rs') there blocked = absurd blocked
  wait_chain m r less on ih (finishing rs') there blocked = absurd blocked
  wait_chain m r less on ih last_hold there blocked = absurd blocked
  wait_chain m r less on ih running there blocked = absurd blocked
  wait_chain m r less on ih (releasing rs') there blocked = absurd blocked
  wait_chain m r less on ih (trying x rs') there blocked = absurd blocked
  wait_chain m r less on ih (awaiting x rs') there blocked = absurd blocked
  wait_chain m r less on ih (handing x y rs') there blocked = absurd blocked

  -- The wait for a cown ends: it leads to behaviours of lower rank.
  wait_ends :
      (m b : ℕ) → rank b < m → s.pc b ≡ waiting → contains s.chains.dispatched b ≡ false → Moves p s
  wait_ends zero b less at out = absurd (omega arith)
  wait_ends (suc m) b less at out =
      let some_left : pending g.granted (p.requests b) ≢ 0 =
        λ z. not_started (ended.zero b (omega (arith, v.counted b, ap final at, z))) out in
      let (q, mine, new) = ungranted g.granted (p.requests b) some_left in
      let own : p.owner q ≡ b = wf.owned b q mine in
      elim (Option-cases (g.before q)) [
        | inl front ↦ absurd (
            not_started (links.first_granted b q mine (ap (λ y. contains (left y) q) at) front) new)
        | inr (r, stands) ↦ elim (Bool-cases (g.gone r)) [
          | inl gone ↦ absurd (not_started (links.passed q r gone stands) new)
          | inr held ↦
              let d : ℕ = p.owner r in
              let on : ranked (s.pc d) ≡ true =
                ranks.set_by r (
                  ranks.waited_for q r stands (ap (λ y. contains (left y) q) (ap s.pc own ∙ at))) in
              let lower : rank d < m =
                omega
                  (arith, ranks.in_order q r stands (ap ranked (ap s.pc own ∙ at)), ap rank own) in
              let active : Active p s d = record {
                begun = λ e. not_started on (ap ranked e);
                not_done = λ e.
                    not_started
                      (ended.all_gone d r (links.swung q r stands).0
                        (ap (λ y. contains (kept (p.requests d) y) r) e))
                      held;
              } in
              elim (can_step p wf s g v links d (s.pc d) refl active) [
                | inl moves ↦ moves
                | inr blocked ↦
                    wait_chain m r lower on (λ d' l a o. wait_ends m d' l a o) (s.pc d) refl blocked
              ]
        ]
      ]

  any_wait_ends :
      (cowns : ℕ)
      → ((r : ℕ) → p.target r < cowns)
      → (b : ℕ) (x : Pc) → s.pc b ≡ x
      → Blocked s b x
      → Moves p s
  any_wait_ends cowns few b (spinning prev r rs) at down =
      spin_ends cowns few cowns (suc (ticket r)) b prev r rs at down (omega arith) (omega arith)
  any_wait_ends cowns few b waiting at out = wait_ends (suc (rank b)) b (omega arith) at out
  any_wait_ends cowns few b (linking rs') at blocked = absurd blocked
  any_wait_ends cowns few b (first x rs') at blocked = absurd blocked
  any_wait_ends cowns few b (storing x y rs') at blocked = absurd blocked
  any_wait_ends cowns few b (finishing rs') at blocked = absurd blocked
  any_wait_ends cowns few b last_hold at blocked = absurd blocked
  any_wait_ends cowns few b running at blocked = absurd blocked
  any_wait_ends cowns few b (releasing rs') at blocked = absurd blocked
  any_wait_ends cowns few b (trying x rs') at blocked = absurd blocked
  any_wait_ends cowns few b (awaiting x rs') at blocked = absurd blocked
  any_wait_ends cowns few b (handing x y rs') at blocked = absurd blocked

  pub goes_on : (cowns : ℕ) → ((r : ℕ) → p.target r < cowns) → (b : ℕ) → Active p s b → Moves p s
  goes_on cowns few b active = elim (can_step p wf s g v links b (s.pc b) refl active) [
    | inl moves ↦ moves
    | inr blocked ↦ any_wait_ends cowns few b (s.pc b) refl blocked
  ]
