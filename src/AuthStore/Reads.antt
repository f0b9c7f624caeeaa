-- ===== src/AuthStore/Reads.antt =====
-- src/authstore.c: what a look-up reads after a row is put, replaced or removed.
use beaver_mq.Prelude.{
  ℕ, zero, suc, ◌≤◌, ◌<◌, ◌≡◌, refl, ap, sym, ◌∙◌, inl, inr, Bool, true, false, Option, none, some,
  List, [], ◌∷◌, ◌++◌, length, get_or, set, get_or-set_self, get_or-append, Bool-cases, arith,
}
use beaver_mq.Prelude.Swap.{one_if, count, swap_remove, count-set, count-swap_remove}
use beaver_mq.AuthStore.State.{next_index, position, drop_loop}
use beaver_mq.AuthStore.Store.{at_row}
use beaver_mq.AuthStore.Rows.{both, apart, count-append, at_row-same, drop_loop_lem}

next-some : (o : Option ℕ) (i : ℕ) → next_index o ≡ some (suc i) → o ≡ some i
next-some none i e = cc
next-some (some j) i e = ground arith

module _ {ℓ} {A : Type ℓ} where
  -- The row that a look-up with the test `q` reads, tested with `r`.
  abbrev pub reads : (A → Bool) → (A → Bool) → List A → A → Bool
  reads q r xs d = at_row xs d r (position q xs)

  position-set :
      (q : A → Bool) (xs : List A) (i : ℕ) (row d : A)
      → position q xs ≡ some i
      → i < length xs
      → q row ≡ true
      → position q (set xs i row) ≡ some i
  unfolding position
  position-set q [] i row d e h t = absurd (omega arith)
  position-set q (x ∷ xs) zero row d e h t = rw t refl
  position-set q (x ∷ xs) (suc i) row d e h t = elim (Bool-cases (q x)) [
    | inl y ↦ ground arith
    | inr n ↦
        let below : position q xs ≡ some i = next-some (position q xs) i (ground arith) in
        rw (n, position-set q xs i row d below (omega arith) t) refl
  ]

  -- The row that takes the place of the one found is what is read from then on.
  pub reads-set :
      (q r : A → Bool) (xs : List A) (i : ℕ) (row d : A)
      → position q xs ≡ some i
      → i < length xs
      → q row ≡ true
      → reads q r (set xs i row) d ≡ r row
  reads-set q r xs i row d e h t =
      rw (position-set q xs i row d e h t) (ap r (get_or-set_self xs i row d h))

  position-append :
      (q : A → Bool) (xs : List A) (row : A)
      → position q xs ≡ none
      → q row ≡ true
      → position q (xs ++ row ∷ []) ≡ some (length xs)
  unfolding position
  position-append q [] row e t = rw t refl
  position-append q (x ∷ xs) row e t = elim (Bool-cases (q x)) [
    | inl y ↦ ground arith
    | inr n ↦
        let below : position q xs ≡ none = ground arith in
        rw (n, position-append q xs row below t) refl
  ]

  pub reads-append :
      (q r : A → Bool) (xs : List A) (row d : A)
      → position q xs ≡ none
      → q row ≡ true
      → reads q r (xs ++ row ∷ []) d ≡ r row
  reads-append q r xs row d e t =
      rw (position-append q xs row e t) (ap r (get_or-append xs (row ∷ []) d))

  both-false : (q r : A → Bool) (x : A) → q x ≡ false → both q r x ≡ false
  both-false q r x e = rw e refl

  -- A look-up that neither row passes reads what it read before.
  pub reads-set_other :
      (q r : A → Bool) (xs : List A) (i : ℕ) (row d : A)
      → i < length xs
      → q (get_or xs i d) ≡ false
      → q row ≡ false
      → count q xs ≤ 1
      → reads q r (set xs i row) d ≡ reads q r xs d
  reads-set_other q r xs i row d h old new one =
      let all = count-set q xs i row d h in
      let some_of = count-set (both q r) xs i row d h in
      at_row-same q r xs (set xs i row) d one (omega (arith, ap one_if old, ap one_if new)) (
        omega (
          arith,
          ap one_if (both-false q r (get_or xs i d) old),
          ap one_if (both-false q r row new),
        ))

  pub reads-append_other :
      (q r : A → Bool) (xs : List A) (row d : A)
      → q row ≡ false
      → count q xs ≤ 1
      → reads q r (xs ++ row ∷ []) d ≡ reads q r xs d
  unfolding count
  reads-append_other q r xs row d new one =
      let all = count-append q xs (row ∷ []) in
      let some_of = count-append (both q r) xs (row ∷ []) in
      at_row-same q r xs (xs ++ row ∷ []) d one (omega (arith, ap one_if new))
        (omega (arith, ap one_if (both-false q r row new)))

  pub reads-swap_remove :
      (q r : A → Bool) (xs : List A) (i : ℕ) (d : A)
      → i < length xs
      → q (get_or xs i d) ≡ false
      → count q xs ≤ 1
      → reads q r (swap_remove xs i d) d ≡ reads q r xs d
  reads-swap_remove q r xs i d h old one =
      let all = count-swap_remove q xs i d h in
      let some_of = count-swap_remove (both q r) xs i d h in
      at_row-same q r xs (swap_remove xs i d) d one (omega arith)
        (omega (arith, ap one_if (both-false q r (get_or xs i d) old)))

  -- A look-up after which no row is left finds none.
  pub position-none : (q : A → Bool) (xs : List A) → count q xs ≡ 0 → position q xs ≡ none
  unfolding position count
  position-none q [] e = refl
  position-none q (x ∷ xs) e = elim (Bool-cases (q x)) [
    | inl y ↦ ground arith
    | inr n ↦ rw (n, position-none q xs (ground arith)) refl
  ]

  -- The row found was the only one.
  pub swap_remove-gone :
      (q : A → Bool) (xs : List A) (i : ℕ) (d : A)
      → i < length xs
      → q (get_or xs i d) ≡ true
      → count q xs ≤ 1
      → position q (swap_remove xs i d) ≡ none
  swap_remove-gone q xs i d h found one =
      position-none q _ (omega (arith, count-swap_remove q xs i d h, ap one_if found))

  count-ext : (q p : A → Bool) (xs : List A) → ((x : A) → q x ≡ p x) → count q xs ≡ count p xs
  unfolding count
  count-ext q p [] e = refl
  count-ext q p (x ∷ xs) e = omega (arith, ap one_if (e x), count-ext q p xs e)

  apart-none : (q p : A → Bool) → ((x : A) → p x ≡ true → q x ≡ false) → (x : A) → apart q p x ≡ q x
  apart-none q p e x = elim (Bool-cases (p x)) [ inl y ↦ rw (y, e x y) refl | inr n ↦ ground arith ]

  -- Dropping the rows that pass p leaves the look-ups that p excludes as they were.
  pub reads-drop_loop :
      (p q r : A → Bool) (xs : List A) (d : A)
      → ((x : A) → p x ≡ true → q x ≡ false)
      → count q xs ≤ 1
      → reads q r (drop_loop (length xs) p d (0, xs)).1 d ≡ reads q r xs d
  reads-drop_loop p q r xs d other one =
      let (gone, others, all) = drop_loop_lem p d xs in
      let ys = (drop_loop (length xs) p d (0, xs)).1 in
      let counted : (t : A → Bool)
          → ((x : A) → p x ≡ true → t x ≡ false)
          → count t ys ≡ count t xs =
        λ t o.
          sym (count-ext (apart t p) t ys (apart-none t p o))
          ∙ others t
          ∙ count-ext (apart t p) t xs (apart-none t p o) in
      let same = counted q other in
      at_row-same q r xs ys d one (omega arith)
        (counted (both q r) (λ x y. both-false q r x (other x y)))

  count-fewer :
      (q p : A → Bool) (xs : List A)
      → ((x : A) → q x ≡ true → p x ≡ true)
      → count p xs ≡ 0
      → count q xs ≡ 0
  unfolding count
  count-fewer q p [] i e = refl
  count-fewer q p (x ∷ xs) i e =
      let rest = count-fewer q p xs i (ground arith) in
      elim (Bool-cases (q x)) [ inl y ↦ ground (arith, i x y) | inr n ↦ ground arith ]

  -- And it leaves no row for a look-up that p covers.
  pub drop_loop-gone :
      (p q : A → Bool) (xs : List A) (d : A)
      → ((x : A) → q x ≡ true → p x ≡ true)
      → position q (drop_loop (length xs) p d (0, xs)).1 ≡ none
  drop_loop-gone p q xs d inside =
      let (gone, others, all) = drop_loop_lem p d xs in
      position-none q _ (count-fewer q p _ inside gone)
