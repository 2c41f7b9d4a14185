-- ===== src/Sessions/Rows.antt =====
-- Updates of rows, and tests over the rows they leave.
use ratline.Prelude.{
  ◌≡◌, refl, sym, ap, ◌∙◌, Bool, true, false, ◌||◌, String, List, [], ◌∷◌, none, some, any, filter,
  find, if◌then◌else◌, str_eq, eq_iff, arith, Bool-cases, inl, inr,
}
use ratline.Sessions.Table.{update_where, updated_rows, first_row}

pub str_eq_refl : (s : String) → str_eq s s ≡ true
str_eq_refl s = (eq_iff s s).1 refl

module _ {A : Type 0} (test : A → Bool) where
  -- A change that never makes the test true leaves it false of every row.
  pub update_where-any-false :
      (p : A → Bool) (f : A → A) (rows : List A)
      → ((x : A) → p x ≡ true → test x ≡ false → test (f x) ≡ false)
      → any test rows ≡ false
      → any test (update_where p f rows) ≡ false
  update_where-any-false p f [] keeps h = refl
  update_where-any-false p f (x ∷ rows) keeps h =
      let head : test x ≡ false = ground arith in
      let rest = update_where-any-false p f rows keeps (ground arith) in
      elim (Bool-cases (p x)) [ inl e ↦ rw (e, keeps x e head) rest | inr e ↦ rw (e, head) rest ]

  -- A change that never makes the test false leaves it true of some row.
  pub update_where-any-true :
      (p : A → Bool) (f : A → A) (rows : List A)
      → ((x : A) → p x ≡ true → test x ≡ true → test (f x) ≡ true)
      → any test rows ≡ true
      → any test (update_where p f rows) ≡ true
  update_where-any-true p f [] keeps h = h
  update_where-any-true p f (x ∷ rows) keeps h = elim (Bool-cases (test x)) [
    | inl e ↦ elim (Bool-cases (p x)) [ inl k ↦ rw (k, keeps x k e) refl | inr k ↦ rw (k, e) refl ]
    | inr e ↦
        let rest = update_where-any-true p f rows keeps (ground arith) in rw rest (ground arith)
  ]

  -- Where the test holds of no row, a stronger one does not either.
  pub any-weaker :
      (other : A → Bool) (rows : List A)
      → ((x : A) → test x ≡ false → other x ≡ false)
      → any test rows ≡ false
      → any other rows ≡ false
  any-weaker other [] weaker h = refl
  any-weaker other (x ∷ rows) weaker h =
      let head : test x ≡ false = ground arith in
      let rest = any-weaker other rows weaker (ground arith) in rw (weaker x head) rest

  pub find-none : (rows : List A) → any test rows ≡ false → find test rows ≡ none
  find-none [] h = refl
  find-none (x ∷ rows) h =
      let head : test x ≡ false = ground arith in rw head (find-none rows (ground arith))

  pub find-some :
      (rows : List A) → any test rows ≡ true → (x : A) × (find test rows ≡ some x) × (test x ≡ true)
  find-some [] h = absurd (cc h)
  find-some (x ∷ rows) h = elim (Bool-cases (test x)) [
    | inl e ↦ (x, rw e refl, e)
    | inr e ↦ let (y, f, t) = find-some rows (ground arith) in (y, rw e f, t)
  ]

  pub find-test :
      (rows : List A) (x : A) → find test rows ≡ some x → (test x ≡ true) × (any test rows ≡ true)
  find-test rows x e = elim (Bool-cases (any test rows)) [
    | inl h ↦ let (y, f, t) = find-some rows h in let same : y ≡ x = cc (e, f) in (rw same at t, h)
    | inr h ↦ absurd (cc (e, find-none rows h))
  ]

  pub filter-head :
      (rows : List A) (x : A) (rest : List A) → filter test rows ≡ x ∷ rest → test x ≡ true
  filter-head [] x rest e = absurd (cc e)
  filter-head (y ∷ rows) x rest e = elim (Bool-cases (test y)) [
    | inl k ↦
        let found : y ∷ filter test rows ≡ x ∷ rest = rw k at e in
        let same : y ≡ x = cc found in ap test (sym same) ∙ k
    | inr k ↦ filter-head rows x rest (rw k at e)
  ]

  pub updated_rows-none :
      (f : A → A) (rows : List A) → any test rows ≡ false → updated_rows test f rows ≡ []
  updated_rows-none f [] h = refl
  updated_rows-none f (x ∷ rows) h =
      let head : test x ≡ false = ground arith in rw head (updated_rows-none f rows (ground arith))

  pub updated_rows-some :
      (f : A → A) (rows : List A)
      → any test rows ≡ true
      → (x : A) × (first_row (updated_rows test f rows) ≡ some (f x)) × (find test rows ≡ some x)
  updated_rows-some f [] h = absurd (cc h)
  updated_rows-some f (x ∷ rows) h = elim (Bool-cases (test x)) [
    | inl e ↦ (x, rw e refl, rw e refl)
    | inr e ↦ let (y, u, k) = updated_rows-some f rows (ground arith) in (y, rw e u, rw e k)
  ]

  pub update_where-same :
      (f : A → A) (rows : List A) → any test rows ≡ false → update_where test f rows ≡ rows
  update_where-same f [] h = refl
  update_where-same f (x ∷ rows) h =
      let head : test x ≡ false = ground arith in
      rw head (ap (λ r. x ∷ r) (update_where-same f rows (ground arith)))

module _ {A : Type 0} (test other : A → Bool) where
  -- What was found is among the rows, for any other test too.
  pub find-any :
      (rows : List A) (x : A) → find test rows ≡ some x → other x ≡ true → any other rows ≡ true
  find-any [] x e h = absurd (cc e)
  find-any (y ∷ rows) x e h = elim (Bool-cases (test y)) [
    | inl k ↦
        let same : some y ≡ some x = rw k at e in
        let same_row : y ≡ x = cc same in let head : other y ≡ true = rw same_row h in rw head refl
    | inr k ↦ let rest = find-any rows x (rw k at e) h in ground (arith, rest)
  ]

  -- A filter that keeps what the other test wants.
  pub filter-any-true :
      (rows : List A)
      → ((x : A) → other x ≡ true → test x ≡ true)
      → any other rows ≡ true
      → any other (filter test rows) ≡ true
  filter-any-true [] keeps h = h
  filter-any-true (x ∷ rows) keeps h = elim (Bool-cases (other x)) [
    | inl e ↦ rw (keeps x e, e) refl
    | inr e ↦
        let rest = filter-any-true rows keeps (ground arith) in
        elim (Bool-cases (test x)) [ inl k ↦ rw (k, e) rest | inr k ↦ rw k rest ]
  ]

  pub filter-any-false :
      (rows : List A) → any other rows ≡ false → any other (filter test rows) ≡ false
  filter-any-false [] h = h
  filter-any-false (x ∷ rows) h =
      let head : other x ≡ false = ground arith in
      let rest = filter-any-false rows (ground arith) in
      elim (Bool-cases (test x)) [ inl k ↦ rw (k, head) rest | inr k ↦ rw k rest ]

module _ {A : Type 0} (test own : A → Bool) where
  -- A test that only rows of one's own can pass looks at those alone.
  pub any-own :
      (rows : List A)
      → ((x : A) → own x ≡ false → test x ≡ false)
      → any test rows ≡ any test (filter own rows)
  any-own [] other = refl
  any-own (x ∷ rows) other = elim (Bool-cases (own x)) [
    | inl e ↦ rw e (ap (λ b. test x || b) (any-own rows other))
    | inr e ↦ rw (e, other x e) (any-own rows other)
  ]

module _ {A : Type 0} (test p : A → Bool) (f : A → A) where
  pub any-update_where :
      (rows : List A)
      → any test (update_where p f rows) ≡ any (λ x. test (if p x then f x else x)) rows
  any-update_where [] = refl
  any-update_where (x ∷ rows) = ap (λ b. test (if p x then f x else x) || b) (any-update_where rows)
