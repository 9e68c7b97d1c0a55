-- ===== src/Matrix/Broadcast/Cells.antt =====
-- What the element-wise kernels of _math.c write to each cell.
use bocpy.Base.{
  ℕ, suc, ◌+◌, ◌*◌, ◌/◌, ◌%◌, ◌≡◌, ◌<◌, ◌≤◌, Bool, true, false, update, update_self, update_ne,
  for_below, for_below_lem, row_of, column_of, arith, refl, sym, ap, ap₂, ◌∙◌,
}
use mathlib.Core.Path.{subst}
use native.Mathlib.Decide.{ℕ_discrete}
use bocpy.Matrix.{Matrix}
use bocpy.Matrix.Broadcast.{
  walk, read_left, impl_ewise, impl_rowwise, impl_columnwise, impl_scalar, impl_outer,
}

module _ {A : Type 0} (N : ℕ) (value : ℕ → ℕ → ℕ → (ℕ → A) → A) (start : ℕ → A) (want : ℕ → A) where
  -- The cells before the pointer have their value, the others are as they were.
  abbrev Reached : ℕ → ℕ × (ℕ → A) → Type 0
  Reached at (ptr, d) =
      (ptr ≡ at) × ((j : ℕ) → j < at → d j ≡ want j) × ((j : ℕ) → at ≤ j → d j ≡ start j)

  -- A value that depends on its own cell alone, and on that before the write.
  abbrev Writes : ℕ → ℕ → Type 0
  Writes r c =
      (d : ℕ → A) → d (r * N + c) ≡ start (r * N + c) → value r c (r * N + c) d ≡ want (r * N + c)

  write_one :
      (r c : ℕ)
      → Writes r c
      → (s : ℕ × (ℕ → A)) → Reached (r * N + c) s
      → Reached (r * N + suc c) (s.0 + 1, update s.1 s.0 (value r c s.0 s.1))
  write_one r c here (ptr, d) (at, before, behind) =
      let new : value r c ptr d ≡ want (r * N + c) =
        ap (λ k. value r c k d) at ∙ here d (behind (r * N + c) (omega arith)) in
      (
        omega (arith, at),
        λ j below. elim (ℕ_discrete ptr j) [
          | yes same ↦
              subst (λ k. update d ptr (value r c ptr d) k ≡ want k) same
                (update_self d ptr (value r c ptr d) ∙ new ∙ ap want (sym at))
          | no ne ↦ update_ne d ptr (value r c ptr d) j ne ∙ before j (omega (arith, at))
        ],
        λ j above.
            update_ne d ptr (value r c ptr d) j (λ same. absurd (omega (arith, at, same)))
            ∙ behind j (omega arith),
      )

  walk_row :
      (r : ℕ)
      → ((c : ℕ) → c < N → Writes r c)
      → (s : ℕ × (ℕ → A)) → Reached (r * N) s
      → Reached
          (suc r * N)
          (for_below N (λ c (ptr, d). (ptr + 1, update d ptr (value r c ptr d))) s)
  walk_row r here s h =
      subst
        (λ k. Reached k (for_below N (λ c (ptr, d). (ptr + 1, update d ptr (value r c ptr d))) s))
        (omega arith)
        (for_below_lem (λ c t. Reached (r * N + c) t) N
          (λ c (ptr, d). (ptr + 1, update d ptr (value r c ptr d))) s
          (subst (λ k. Reached k s) (omega arith) h) (λ c lt t. write_one r c (here c lt) t))

  pub walk_lem :
      (M : ℕ)
      → ((r c : ℕ) → r < M → c < N → Writes r c)
      → (j : ℕ) → j < M * N
      → (walk M N value start).1 j ≡ want j
  walk_lem M here j below =
      (for_below_lem (λ r t. Reached (r * N) t) M _ (0, start)
          (omega arith, λ j lt. absurd (omega arith), λ j le. refl)
          (λ r lt t h. walk_row r (λ c lc. here r c lt lc) t h)).1
        j below

-- A read of the left matrix, also where the result is written over it.
left_lem :
    {A : Type 0} (over : Bool) (m out : Matrix A) (d : ℕ → A) (k : ℕ)
    → (over ≡ true → (i : ℕ) → out.data_at i ≡ m.data_at i)
    → d k ≡ out.data_at k
    → read_left over m d k ≡ m.data_at k
left_lem true m out d k same e = e ∙ same refl k
left_lem false m out d k same e = refl

module _ {A : Type 0} (op : A → A → A) (over : Bool) (m out : Matrix A)
    (same : over ≡ true → (i : ℕ) → out.data_at i ≡ m.data_at i) where
  pub impl_rowwise_lem :
      (v : Matrix A) (k : ℕ)
      → k < m.rows * m.columns
      → (impl_rowwise op over m v out).data_at k ≡ op (m.data_at k) (v.data_at (k % m.columns))
  unfolding impl_rowwise
  impl_rowwise_lem v =
      walk_lem m.columns (λ r c ptr d. op (read_left over m d ptr) (v.data_at c)) out.data_at
        (λ k. op (m.data_at k) (v.data_at (k % m.columns))) m.rows
        (λ r c lr lc d e.
          ap₂ op (left_lem over m out d (r * m.columns + c) same e)
            (ap v.data_at (sym (column_of r c m.columns lc))))

  pub impl_columnwise_lem :
      (v : Matrix A) (k : ℕ)
      → k < m.rows * m.columns
      → (impl_columnwise op over m v out).data_at k ≡ op (m.data_at k) (v.data_at (k / m.columns))
  unfolding impl_columnwise
  impl_columnwise_lem v =
      walk_lem m.columns (λ r c ptr d. op (read_left over m d ptr) (v.data_at r)) out.data_at
        (λ k. op (m.data_at k) (v.data_at (k / m.columns))) m.rows
        (λ r c lr lc d e.
          ap₂ op (left_lem over m out d (r * m.columns + c) same e)
            (ap v.data_at (sym (row_of r c m.columns lc))))

  -- One loop over all cells, each of which depends on itself alone.
  flat_lem :
      (right : ℕ → A) (n k : ℕ)
      → k < n
      → for_below n (λ i d. update d i (op (read_left over m d i) (right i))) out.data_at k
        ≡ op (m.data_at k) (right k)
  flat_lem right n k below =
      (for_below_lem
          (λ i d.
            ((j : ℕ) → j < i → d j ≡ op (m.data_at j) (right j))
            × ((j : ℕ) → i ≤ j → d j ≡ out.data_at j))
          n (λ i d. update d i (op (read_left over m d i) (right i))) out.data_at
          (λ j lt. absurd (omega arith), λ j le. refl)
          (λ i lt d (before, behind). (
            λ j lj. elim (ℕ_discrete i j) [
              | yes e ↦
                  subst
                    (λ x.
                      update d i (op (read_left over m d i) (right i)) x
                      ≡ op (m.data_at x) (right x))
                    e
                    (update_self d i (op (read_left over m d i) (right i))
                      ∙ ap (λ x. op x (right i))
                          (left_lem over m out d i same (behind i (omega arith))))
              | no ne ↦
                  update_ne d i (op (read_left over m d i) (right i)) j ne ∙ before j (omega arith)
            ],
            λ j lj.
                update_ne d i (op (read_left over m d i) (right i)) j
                  (λ e. absurd (omega (arith, e)))
                ∙ behind j (omega arith),
          ))).0
        k below

  pub impl_ewise_lem :
      (rhs : Matrix A) (k : ℕ)
      → k < m.size
      → (impl_ewise op over m rhs out).data_at k ≡ op (m.data_at k) (rhs.data_at k)
  unfolding impl_ewise
  impl_ewise_lem rhs k = flat_lem rhs.data_at m.size k

  pub impl_scalar_lem :
      (x : A) (k : ℕ) → k < m.size → (impl_scalar op over m x out).data_at k ≡ op (m.data_at k) x
  unfolding impl_scalar
  impl_scalar_lem x k = flat_lem (λ i. x) m.size k

pub impl_outer_lem :
    {A : Type 0} (op : A → A → A) (col row out : Matrix A) (k : ℕ)
    → k < out.rows * out.columns
    → (impl_outer op col row out).data_at k
      ≡ op (col.data_at (k / out.columns)) (row.data_at (k % out.columns))
unfolding impl_outer
impl_outer_lem op col row out =
    walk_lem out.columns (λ r c ptr d. op (col.data_at r) (row.data_at c)) out.data_at
      (λ k. op (col.data_at (k / out.columns)) (row.data_at (k % out.columns))) out.rows
      (λ r c lr lc d e.
        ap₂ op (ap col.data_at (sym (row_of r c out.columns lc)))
          (ap row.data_at (sym (column_of r c out.columns lc))))
