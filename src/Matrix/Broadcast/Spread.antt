-- ===== src/Matrix/Broadcast/Spread.antt =====
-- `impl_broadcast_vector` of _math.c, and the element-wise kernel on what it returns.
use bocpy.Base.{
  ℕ, ◌*◌, ◌/◌, ◌%◌, ◌≡◌, ◌<◌, Bool, true, false, none, some, row_of, column_of, arith, refl, sym,
  ap, ◌∙◌, Option-cases, inl, inr, if◌then◌else◌,
}
use bocpy.Matrix.{Matrix, impl_new}
use bocpy.Matrix.Broadcast.{walk, impl_ewise, impl_rowwise, impl_columnwise, impl_broadcast_vector}
use bocpy.Matrix.Broadcast.Cells.{walk_lem, impl_rowwise_lem, impl_columnwise_lem, impl_ewise_lem}

no_matrix : {A : Type 0} (x : Matrix A) → none ≡ some x → ⊥
no_matrix x h = cc

-- Where a vector is spread to, if there is memory.
abbrev pub spread_index : (is_row : Bool) → (columns k : ℕ) → ℕ
spread_index true columns k = k % columns
spread_index false columns k = k / columns

same_matrix : {A : Type 0} (x y : Matrix A) → some x ≡ some y → x ≡ y
same_matrix x y h = cc

module _ {A : Type 0} (nought : A) (allocated : Bool) (v : Matrix A) (rows columns : ℕ) where
  spread : Bool → Matrix A → Matrix A
  spread is_row out = record out {
    data_at =
        if is_row
        then (walk rows columns (λ r c dst d. v.data_at c) out.data_at).1
        else (walk rows columns (λ r c dst d. v.data_at r) out.data_at).1;
  }

  spread_lem :
      (is_row : Bool) (out : Matrix A) (k : ℕ)
      → k < rows * columns
      → (spread is_row out).data_at k ≡ v.data_at (spread_index is_row columns k)
  unfolding spread
  spread_lem true out =
      walk_lem columns (λ r c dst d. v.data_at c) out.data_at (λ k. v.data_at (k % columns)) rows
        (λ r c lr lc d e. ap v.data_at (sym (column_of r c columns lc)))
  spread_lem false out =
      walk_lem columns (λ r c dst d. v.data_at r) out.data_at (λ k. v.data_at (k / columns)) rows
        (λ r c lr lc d e. ap v.data_at (sym (row_of r c columns lc)))

  impl_broadcast_vector-some :
      (is_row : Bool) (out : Matrix A)
      → impl_new nought allocated rows columns ≡ some out
      → impl_broadcast_vector nought allocated v rows columns is_row ≡ some (spread is_row out)
  unfolding impl_broadcast_vector spread
  impl_broadcast_vector-some is_row out e = rw (impl_broadcast_vector, e) refl

  impl_broadcast_vector-none :
      (is_row : Bool)
      → impl_new nought allocated rows columns ≡ none
      → impl_broadcast_vector nought allocated v rows columns is_row ≡ none
  unfolding impl_broadcast_vector
  impl_broadcast_vector-none is_row e = rw (impl_broadcast_vector, e) refl

  impl_broadcast_vector_lem :
      (is_row : Bool) (full : Matrix A)
      → impl_broadcast_vector nought allocated v rows columns is_row ≡ some full
      → (k : ℕ) → k < rows * columns
      → full.data_at k ≡ v.data_at (spread_index is_row columns k)
  impl_broadcast_vector_lem is_row full h k below =
      elim (Option-cases (impl_new nought allocated rows columns)) [
        | inl e ↦ absurd (no_matrix full (sym (impl_broadcast_vector-none is_row e) ∙ h))
        | inr (out, e) ↦
            ap (λ x. x.data_at k)
              (sym (
                same_matrix (spread is_row out) full
                  (sym (impl_broadcast_vector-some is_row out e) ∙ h)))
            ∙ spread_lem is_row out k below
      ]

-- To spread a row or a column vector over a matrix and combine element by element gives each cell that
-- the kernel for the vector gives, also where the result is written over the left matrix.
pub broadcast_lem :
    {A : Type 0} (op : A → A → A) (over : Bool) (nought : A) (allocated : Bool)
    (m v out full : Matrix A) (is_row : Bool)
    → m.size ≡ m.rows * m.columns
    → (over ≡ true → (i : ℕ) → out.data_at i ≡ m.data_at i)
    → impl_broadcast_vector nought allocated v m.rows m.columns is_row ≡ some full
    → (k : ℕ) → k < m.size
    → (if is_row then impl_rowwise op over m v out else impl_columnwise op over m v out).data_at k
      ≡ (impl_ewise op over m full out).data_at k
broadcast_lem op over nought allocated m v out full true sized same h k below =
    impl_rowwise_lem op over m out same v k (omega (arith, sized))
    ∙ sym (
        impl_ewise_lem op over m out same full k below
        ∙ ap (op (m.data_at k)) (
            impl_broadcast_vector_lem nought allocated v m.rows m.columns true full h k
              (omega (arith, sized))))
broadcast_lem op over nought allocated m v out full false sized same h k below =
    impl_columnwise_lem op over m out same v k (omega (arith, sized))
    ∙ sym (
        impl_ewise_lem op over m out same full k below
        ∙ ap (op (m.data_at k)) (
            impl_broadcast_vector_lem nought allocated v m.rows m.columns false full h k
              (omega (arith, sized))))
