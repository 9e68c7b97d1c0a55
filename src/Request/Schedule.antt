-- ===== src/Request/Schedule.antt =====
-- `BehaviorCapsule_create_requests`, `BehaviorCapsule_schedule` and `behavior_release_all_impl` of
-- _core.c, with every allocation granted. `qsort` is the C library's: it is the parameter `sort`.
use bocpy.Base.{
  ℕ, ◌+◌, ◌-◌, ◌==◌, ◌≡◌, ◌≤◌, if◌then◌else◌, Bool, true, false, List, [], ◌∷◌, ◌++◌, NotIn,
  IsDistinct, NotIn-snoc, IsDistinct-snoc, arith, length, length-append, Bool-cases, inl, inr,
}
use bocpy.Request.{
  Chains, Done, success, failure, spins, resolve_one, start_enqueue, finish_enqueue, release,
}

unfoldable pub seen : List ℕ → ℕ → Bool
seen [] cown = false
seen (t ∷ taken) cown = if t == cown then true else seen taken cown

-- The loop over the arguments, with the targets taken so far and the behaviour's count, which stays
-- above 0 here: a duplicate is dropped and resolved.
unfoldable pub collect : List ℕ → List ℕ → ℕ → List ℕ × ℕ
unfolding seen
collect [] taken count = (taken, count)
collect (cown ∷ args) taken count =
    if seen taken cown
    then collect args taken (count - 1)
    else collect args (taken ++ (cown ∷ [])) count

-- The targets of the requests, and the count, which starts at `args_size + 2`.
unfoldable pub create_requests : (sort : List ℕ → List ℕ) (result : ℕ) → List ℕ → List ℕ × ℕ
unfolding collect
create_requests sort result args =
    let (taken, count) = collect args [] (length args + 2) in (sort (result ∷ taken), count)

unfoldable pub finish_all : List ℕ → Chains → Chains
unfolding finish_enqueue
finish_all [] s = s
finish_all (r ∷ rs) s = finish_all rs (finish_enqueue r s)

module _ (target owner : ℕ → ℕ) (up : Bool) where
  unfoldable pub start_all : List ℕ → Chains → Done × Chains
  unfolding start_enqueue
  start_all [] s = (success, s)
  start_all (r ∷ rs) s =
      let (done, t) = start_enqueue target owner up r s in
      let rest = start_all rs t in
      elim done [ success ↦ rest | failure ↦ (failure, t) | spins ↦ (spins, t) ]

  -- From the requests of the behaviour `b` on.
  unfoldable pub schedule : ℕ → List ℕ → Chains → Done × Chains
  unfolding start_all finish_all resolve_one
  schedule b rs s =
      let (done, t) = start_all rs s in
      elim done [
        | success ↦ resolve_one target owner up b (finish_all rs t)
        | failure ↦ (failure, t)
        | spins ↦ (spins, t)
      ]

  unfoldable pub release_all : List ℕ → Chains → Done × Chains
  unfolding release
  release_all [] s = (success, s)
  release_all (r ∷ rs) s =
      let (done, t) = release target owner up r s in
      let rest = release_all rs t in
      elim done [ success ↦ rest | failure ↦ (failure, t) | spins ↦ (spins, t) ]

seen→NotIn : (taken : List ℕ) (c : ℕ) → seen taken c ≡ false → NotIn c taken
unfolding seen
seen→NotIn [] c h = tt
seen→NotIn (t ∷ taken) c h = (λ e. ground arith, seen→NotIn taken c (ground arith))

collect-count :
    (args taken : List ℕ) (count : ℕ)
    → length args + 1 ≤ count
    → (collect args taken count).1 + length taken + length args
      ≡ count + length (collect args taken count).0
unfolding collect
collect-count [] taken count h = omega arith
collect-count (c ∷ args) taken count h = elim (Bool-cases (seen taken c)) [
  | inl e ↦ ground (arith, collect-count args taken (count - 1))
  | inr e ↦
      ground (arith, collect-count args (taken ++ (c ∷ [])) count, length-append taken (c ∷ []))
]

collect-IsDistinct :
    (result : ℕ) (args taken : List ℕ) (count : ℕ)
    → NotIn result args
    → IsDistinct (result ∷ taken)
    → IsDistinct (result ∷ (collect args taken count).0)
unfolding collect
collect-IsDistinct result [] taken count out d = d
collect-IsDistinct result (c ∷ args) taken count out d = elim (Bool-cases (seen taken c)) [
  | inl e ↦ rw (collect, e) (collect-IsDistinct result args taken (count - 1) out.1 d)
  | inr e ↦
      rw (collect, e)
        (collect-IsDistinct result args (taken ++ (c ∷ [])) count out.1
          (NotIn-snoc result c taken d.0 out.0, IsDistinct-snoc taken c d.1 (seen→NotIn taken c e)))
]

-- If sorting keeps a list's length and keeps its elements distinct, and the result cown is not an
-- argument, then the requests of a behaviour aim at different cowns, and its count is one more than
-- their number, however often the arguments repeat a cown: one for each cown that is granted, and
-- one for the end of `schedule`.
pub create_requests_lem :
    (sort : List ℕ → List ℕ) (result : ℕ) (args : List ℕ)
    → ((xs : List ℕ) → length (sort xs) ≡ length xs)
    → ((xs : List ℕ) → IsDistinct xs → IsDistinct (sort xs))
    → NotIn result args
    → let (requests, count) = create_requests sort result args in
      (count ≡ length requests + 1) × IsDistinct requests
unfolding create_requests
create_requests_lem sort result args keeps distinct out = (
  omega (
    arith,
    keeps (result ∷ (collect args [] (length args + 2)).0),
    collect-count args [] (length args + 2) (omega arith),
  ),
  distinct _ (collect-IsDistinct result args [] (length args + 2) out (tt, tt)),
)
