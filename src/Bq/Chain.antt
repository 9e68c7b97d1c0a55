-- ===== src/Bq/Chain.antt =====
-- Chains of nodes through the links, and what a write to one link leaves of them.
use bocpy.Base.{ℕ, ◌≡◌, refl, sym, ◌≢◌, Option, none, some, List, [], ◌∷◌, ◌++◌}
use bocpy.Base.{contains, true, arith, NotIn, IsDistinct, update, update_self, update_ne}
use bocpy.Bq.{Slot, front_slot, next_in_queue, Links, Bq, Segment}

-- The nodes from pointer `p` up to pointer `q`, in order.
abbrev pub Chain : Links → Option ℕ → List ℕ → Option ℕ → Type 0
Chain links p [] q = p ≡ q
Chain links p (x ∷ xs) q = (p ≡ some x) × Chain links (links x) xs q

-- The link of the last of `x ∷ xs`.
abbrev pub last_node : ℕ → List ℕ → ℕ
last_node x [] = x
last_node x (y ∷ ys) = last_node y ys

abbrev pub last_slot : List ℕ → Slot
last_slot [] = front_slot
last_slot (x ∷ xs) = next_in_queue (last_node x xs)

abbrev pub Disjoint : List ℕ → List ℕ → Type 0
Disjoint [] ys = Unit
Disjoint (x ∷ xs) ys = NotIn x ys × Disjoint xs ys

pub Chain-append :
    (links : Links) (xs ys : List ℕ) (p q r : Option ℕ)
    → Chain links p xs q
    → Chain links q ys r
    → Chain links p (xs ++ ys) r
Chain-append links [] ys p q r h k = rw h k
Chain-append links (x ∷ xs) ys p q r h k = (h.0, Chain-append links xs ys (links x) q r h.1 k)

-- A write outside the chain leaves it alone.
pub Chain-update_ne :
    (links : Links) (n : ℕ) (v : Option ℕ) (xs : List ℕ) (p q : Option ℕ)
    → NotIn n xs
    → Chain links p xs q
    → Chain (update links n v) p xs q
Chain-update_ne links n v [] p q out h = h
Chain-update_ne links n v (x ∷ xs) p q out h =
    (h.0, rw (update_ne links n v x out.0) (Chain-update_ne links n v xs (links x) q out.1 h.1))

-- A chain reads no link but those of its nodes.
pub Chain-agree :
    (links links' : Links) (xs : List ℕ) (p q : Option ℕ)
    → ((m : ℕ) → contains xs m ≡ true → links' m ≡ links m)
    → Chain links p xs q
    → Chain links' p xs q
Chain-agree links links' [] p q same h = h
Chain-agree links links' (x ∷ xs) p q same h = (
  h.0,
  rw (same x (ground arith))
      (Chain-agree links links' xs (links x) q (λ m k. same m (ground arith)) h.1),
)

-- Facts about the last node of a chain.
pub ne-last_node : (a x : ℕ) (xs : List ℕ) → NotIn a (x ∷ xs) → a ≢ last_node x xs
ne-last_node a x [] h = h.0
ne-last_node a x (y ∷ ys) h = ne-last_node a y ys h.1

pub last_node-NotIn : (x : ℕ) (xs ys : List ℕ) → Disjoint (x ∷ xs) ys → NotIn (last_node x xs) ys
last_node-NotIn x [] ys d = d.0
last_node-NotIn x (y ∷ xs) ys d = last_node-NotIn y xs ys d.1

pub NotIn-last_node :
    (xs : List ℕ) (y : ℕ) (ys : List ℕ) → Disjoint xs (y ∷ ys) → NotIn (last_node y ys) xs
NotIn-last_node [] y ys d = tt
NotIn-last_node (x ∷ xs) y ys d =
    (λ e. ne-last_node x y ys d.0 (sym e), NotIn-last_node xs y ys d.1)

pub NotIn-append : (a : ℕ) (xs ys : List ℕ) → NotIn a xs → NotIn a ys → NotIn a (xs ++ ys)
NotIn-append a [] ys h k = k
NotIn-append a (x ∷ xs) ys h k = (h.0, NotIn-append a xs ys h.1 k)

pub IsDistinct-append :
    (xs ys : List ℕ) → IsDistinct xs → IsDistinct ys → Disjoint xs ys → IsDistinct (xs ++ ys)
IsDistinct-append [] ys h k d = k
IsDistinct-append (x ∷ xs) ys h k d =
    (NotIn-append x xs ys h.0 d.0, IsDistinct-append xs ys h.1 k d.1)

-- Writing the last link of a chain moves its end.
pub Chain-update_last :
    (links : Links) (v : Option ℕ) (x : ℕ) (xs : List ℕ) (p q : Option ℕ)
    → IsDistinct (x ∷ xs)
    → Chain links p (x ∷ xs) q
    → Chain (update links (last_node x xs) v) p (x ∷ xs) v
Chain-update_last links v x [] p q d h = (h.0, update_self links x v)
Chain-update_last links v x (y ∷ ys) p q d h = (
  h.0,
  rw (update_ne links (last_node y ys) v x (λ e. ne-last_node x y ys d.0 (sym e)))
      (Chain-update_last links v y ys (links x) q d.1 h.1),
)

pub last_node-append :
    (x : ℕ) (xs : List ℕ) (y : ℕ) (ys : List ℕ) → last_node x (xs ++ (y ∷ ys)) ≡ last_node y ys
last_node-append x [] y ys = refl
last_node-append x (z ∷ zs) y ys = last_node-append z zs y ys

-- The queue holds exactly the nodes `xs`, linked in this order.
pub record Holds (q : Bq) (xs : List ℕ) : Type 0 where
  pub chain : Chain q.links q.front xs none
  pub at_back : q.back ≡ last_slot xs
  pub distinct : IsDistinct xs

-- The segment runs through `x ∷ xs`; what its last link holds does not matter.
pub record Spans (links : Links) (s : Segment) (x : ℕ) (xs : List ℕ) : Type 0 where
  pub tail : Option ℕ
  pub chain : Chain links s.start (x ∷ xs) tail
  pub at_end : s.end ≡ some (next_in_queue (last_node x xs))
  pub distinct : IsDistinct (x ∷ xs)
