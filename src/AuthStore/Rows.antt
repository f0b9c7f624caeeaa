-- ===== src/AuthStore/Rows.antt =====
-- src/authstore.c: the look-up and the removal of rows, against counts of the rows that pass a test.
use beaver_mq.Prelude.{
  ℕ, zero, suc, ◌+◌, ◌-◌, ◌≤◌, ◌<◌, ◌≡◌, refl, ap, sym, ◌∙◌, ◌⊎◌, inl, inr, Bool, true, false, ◌&&◌,
  Option, none, some, List, [], ◌∷◌, ◌++◌, All, length, get_or, set, take, ltb, ◌==◌, if◌then◌else◌,
  Bool-cases, arith,
}
use mathlib.Core.Path.{subst}
use beaver_mq.Prelude.Swap.{
  one_if, count, swap_remove, count-swap_remove, length-swap_remove, get_or-swap_remove,
}
use beaver_mq.AuthStore.State.{next_index, position, drop_step, drop_loop}
use beaver_mq.AuthStore.Store.{at_row}

abbrev pub both {ℓ} : {A : Type ℓ} → (A → Bool) → (A → Bool) → A → Bool
both q r x = q x && r x

abbrev pub apart {ℓ} : {A : Type ℓ} → (A → Bool) → (A → Bool) → A → Bool
apart q p x = q x && (if p x then false else true)

pub one_if-injective : (a b : Bool) → one_if a ≡ one_if b → a ≡ b
one_if-injective a b e = ground arith

module _ {ℓ} {A : Type ℓ} where
  pub count-append : (q : A → Bool) (xs ys : List A) → count q (xs ++ ys) ≡ count q xs + count q ys
  unfolding count
  count-append q [] ys = omega arith
  count-append q (x ∷ xs) ys = omega (arith, count-append q xs ys)

  pub count-both : (q r : A → Bool) (xs : List A) → count (both q r) xs ≤ count q xs
  unfolding count
  count-both q r [] = omega arith
  count-both q r (x ∷ xs) = let rest = count-both q r xs in ground arith

  -- Where the look-up leads.
  pub position-cases :
      (p : A → Bool) (xs : List A) (d : A)
      → ((position p xs ≡ none) × (count p xs ≡ 0))
        ⊎ ((i : ℕ) × (position p xs ≡ some i) × (i < length xs) × (p (get_or xs i d) ≡ true))
  unfolding position count
  position-cases p [] d = inl (refl, refl)
  position-cases p (x ∷ xs) d = elim (Bool-cases (p x)) [
    | inl e ↦ inr (0, rw e refl, omega arith, e)
    | inr n ↦ elim (position-cases p xs d) [
      | inl (e, c) ↦ inl (rw (n, e) refl, rw (n, c) refl)
      | inr (i, e, h, t) ↦ inr (suc i, rw (n, e) refl, omega arith, t)
    ]
  ]

  at_row-next :
      (xs : List A) (x d : A) (r : A → Bool) (o : Option ℕ)
      → at_row (x ∷ xs) d r (next_index o) ≡ at_row xs d r o
  at_row-next xs x d r none = refl
  at_row-next xs x d r (some i) = refl

  -- When one row at most passes q, reading that row is counting.
  pub at_row-count :
      (q r : A → Bool) (xs : List A) (d : A)
      → count q xs ≤ 1
      → one_if (at_row xs d r (position q xs)) ≡ count (both q r) xs
  unfolding position count
  at_row-count q r [] d h = refl
  at_row-count q r (x ∷ xs) d h = elim (Bool-cases (q x)) [
    | inl e ↦
        let few : count q xs ≡ 0 = ground arith in
        let none_left = count-both q r xs in rw e (omega arith)
    | inr n ↦
        let rest = at_row-count q r xs d (ground arith) in
        rw (n, at_row-next xs x d r (position q xs)) (omega (arith, rest))
  ]

  -- Two tables with as many rows for every refinement of q are read alike.
  pub at_row-same :
      (q r : A → Bool) (xs ys : List A) (d : A)
      → count q xs ≤ 1
      → count q ys ≤ 1
      → count (both q r) ys ≡ count (both q r) xs
      → at_row ys d r (position q ys) ≡ at_row xs d r (position q xs)
  at_row-same q r xs ys d hx hy e =
      one_if-injective _ _ (at_row-count q r ys d hy ∙ e ∙ sym (at_row-count q r xs d hx))

  pub All-get_or :
      (P : A → Type 0) (xs : List A) (i : ℕ) (d : A) → i < length xs → All P xs → P (get_or xs i d)
  All-get_or P [] i d h a = absurd (omega arith)
  All-get_or P (x ∷ xs) zero d h a = a.0
  All-get_or P (x ∷ xs) (suc i) d h a = All-get_or P xs i d (omega arith) a.1

  pub All-set : (P : A → Type 0) (xs : List A) (i : ℕ) (v : A) → P v → All P xs → All P (set xs i v)
  All-set P [] i v p a = tt
  All-set P (x ∷ xs) zero v p a = (p, a.1)
  All-set P (x ∷ xs) (suc i) v p a = (a.0, All-set P xs i v p a.1)

  All-take : (P : A → Type 0) (n : ℕ) (xs : List A) → All P xs → All P (take n xs)
  All-take P zero xs a = tt
  All-take P (suc n) [] a = tt
  All-take P (suc n) (x ∷ xs) a = (a.0, All-take P n xs a.1)

  pub All-append : (P : A → Type 0) (xs ys : List A) → All P xs → All P ys → All P (xs ++ ys)
  All-append P [] ys a b = b
  All-append P (x ∷ xs) ys a b = (a.0, All-append P xs ys a.1 b)

  pub All-swap_remove :
      (P : A → Type 0) (xs : List A) (i : ℕ) (d : A)
      → i < length xs
      → All P xs
      → All P (swap_remove xs i d)
  unfolding swap_remove
  All-swap_remove P xs i d h a =
      All-take P (length xs - 1) _
        (All-set P xs i _ (All-get_or P xs (length xs - 1) d (omega arith) a) a)

  -- No row before `i` passes p.
  abbrev Swept : (A → Bool) → A → ℕ → List A → Type 0
  Swept p d i xs = (j : ℕ) → j < i → p (get_or xs j d) ≡ false

  apart-true : (q p : A → Bool) (x : A) → p x ≡ true → apart q p x ≡ false
  apart-true q p x e = ground arith

  -- What a sweep keeps: rows that do not pass p, counted by any test, and what holds of all rows.
  record Dropping (p : A → Bool) (d : A) (xs : List A) (s : ℕ × List A) : Type (ℓ ⊔ 1) where
    bound : s.0 ≤ length s.1
    clear : Swept p d s.0 s.1
    others : (q : A → Bool) → count (apart q p) s.1 ≡ count (apart q p) xs
    all : (P : A → Type 0) → All P xs → All P s.1

  drop_step-Dropping :
      (p : A → Bool) (d : A) (xs : List A) (s : ℕ × List A)
      → s.0 < length s.1
      → Dropping p d xs s
      → Dropping p d xs (drop_step p d s)
  unfolding drop_step
  drop_step-Dropping p d xs (i, ys) h w = elim (Bool-cases (p (get_or ys i d))) [
    | inl e ↦ rw e record {
      bound = omega (arith, length-swap_remove ys i d h);
      clear = λ j hj. ap p (get_or-swap_remove ys i j d hj h) ∙ w.clear j hj;
      others = λ q. omega (
        arith,
        count-swap_remove (apart q p) ys i d h,
        ap one_if (apart-true q p (get_or ys i d) e),
        w.others q,
      );
      all = λ P a. All-swap_remove P ys i d h (w.all P a);
    }
    | inr n ↦ rw n record {
      bound = omega arith;
      clear = λ j hj. elim (Bool-cases (j == i)) [
        | inl same ↦ let e : j ≡ i = ground arith in rw e n
        | inr other ↦ w.clear j (ground arith)
      ];
      others = w.others;
      all = w.all;
    }
  ]

  drop-measure :
      (p : A → Bool) (d : A) (s : ℕ × List A)
      → s.0 < length s.1
      → length (drop_step p d s).1 - (drop_step p d s).0 < length s.1 - s.0
  unfolding drop_step
  drop-measure p d (i, ys) h =
      let sized = length-swap_remove ys i d h in
      elim (Bool-cases (p (get_or ys i d))) [
        | inl e ↦ rw e (omega arith)
        | inr n ↦ rw n (omega arith)
      ]

  drop_loop-Dropping :
      (fuel : ℕ) (p : A → Bool) (d : A) (xs : List A) (s : ℕ × List A)
      → length s.1 - s.0 ≤ fuel
      → Dropping p d xs s
      → Dropping p d xs (drop_loop fuel p d s)
        × ((drop_loop fuel p d s).0 ≡ length (drop_loop fuel p d s).1)
  unfolding drop_loop
  drop_loop-Dropping zero p d xs s h w = let bound = w.bound in (w, omega arith)
  drop_loop-Dropping (suc fuel) p d xs s h w =
      let bound = w.bound in
      elim (Bool-cases (ltb s.0 (length s.1))) [
        | inl e ↦
            let inside : s.0 < length s.1 = ground arith in
            let less = drop-measure p d s inside in
            rw (e, drop_loop)
              (drop_loop-Dropping fuel p d xs (drop_step p d s) (omega arith)
                (drop_step-Dropping p d xs s inside w))
        | inr n ↦ rw (n, drop_loop) (w, ground arith)
      ]

  none-Swept : (p : A → Bool) (d : A) (xs : List A) → Swept p d (length xs) xs → count p xs ≡ 0
  unfolding count
  none-Swept p d [] c = refl
  none-Swept p d (x ∷ xs) c =
      let first : p x ≡ false = c 0 (omega arith) in
      let rest = none-Swept p d xs (λ j h. c (suc j) (omega arith)) in
      rw first (omega (arith, rest))

  -- The rows that are left: none passes p, and the others are as many as before by any test.
  pub drop_loop_lem :
      (p : A → Bool) (d : A) (xs : List A)
      → let ys = (drop_loop (length xs) p d (0, xs)).1 in
        (count p ys ≡ 0)
        × ((q : A → Bool) → count (apart q p) ys ≡ count (apart q p) xs)
        × ((P : A → Type 0) → All P xs → All P ys)
  drop_loop_lem p d xs =
      let begun : Dropping p d xs (0, xs) = record {
        bound = omega arith;
        clear = λ j h. absurd (omega arith);
        others = λ q. refl;
        all = λ P a. a;
      } in
      let (w, ended) = drop_loop-Dropping (length xs) p d xs (0, xs) (omega arith) begun in
      let ys = (drop_loop (length xs) p d (0, xs)).1 in
      (none-Swept p d ys (subst (λ n. Swept p d n ys) ended w.clear), w.others, w.all)

  -- With none left that passes p, a test that p excludes from counts what it counted before.
  pub count-apart :
      (q p : A → Bool) (xs : List A) → count p xs ≡ 0 → count (apart q p) xs ≡ count q xs
  unfolding count
  count-apart q p [] e = refl
  count-apart q p (x ∷ xs) e = let rest = count-apart q p xs (ground arith) in ground arith
