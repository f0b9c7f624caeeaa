-- ===== src/Prelude/Lists.antt =====
-- Arrays and sequences as lists with native indices.
use Prim.Native.Nat.{ℕ, zero, suc, ◌+◌, ◌-◌, ◌≤◌, ◌<◌}
use mathlib.Core.Path.{◌≡◌, refl, sym, ap, ◌∙◌}
use mathlib.Core.Logic.{◌≢◌, ◌⊎◌, inl, inr}
use mathlib.Core.Option.{Option, none, some}
use mathlib.Core.List.{List, [], ◌∷◌, ◌++◌}
use native.Mathlib.Omega.{arith}

module _ {ℓ} {A : Type ℓ} where
  abbrev pub length : List A → ℕ
  length [] = 0
  length (x ∷ xs) = suc (length xs)

  abbrev pub get_elem? : List A → ℕ → Option A
  get_elem? [] i = none
  get_elem? (x ∷ xs) zero = some x
  get_elem? (x ∷ xs) (suc i) = get_elem? xs i

  abbrev pub get_or : List A → ℕ → A → A
  get_or [] i d = d
  get_or (x ∷ xs) zero d = x
  get_or (x ∷ xs) (suc i) d = get_or xs i d

  -- A write out of bounds changes nothing.
  abbrev pub set : List A → ℕ → A → List A
  set [] i v = []
  set (x ∷ xs) zero v = v ∷ xs
  set (x ∷ xs) (suc i) v = x ∷ set xs i v

  abbrev pub take : ℕ → List A → List A
  take zero xs = []
  take (suc n) [] = []
  take (suc n) (x ∷ xs) = x ∷ take n xs

  abbrev pub drop : ℕ → List A → List A
  drop zero xs = xs
  drop (suc n) [] = []
  drop (suc n) (x ∷ xs) = drop n xs

  abbrev pub replicate : ℕ → A → List A
  replicate zero a = []
  replicate (suc n) a = a ∷ replicate n a

  abbrev pub All {κ} : (A → Type κ) → List A → Type κ
  All P [] = Unit
  All P (x ∷ xs) = P x × All P xs

  pub length-append : (xs ys : List A) → length (xs ++ ys) ≡ length xs + length ys
  length-append [] ys = omega arith
  length-append (x ∷ xs) ys = omega (arith, length-append xs ys)

  pub length-replicate : (n : ℕ) (a : A) → length (replicate n a) ≡ n
  length-replicate zero a = refl
  length-replicate (suc n) a = ap suc (length-replicate n a)

  pub length-set : (xs : List A) (i : ℕ) (v : A) → length (set xs i v) ≡ length xs
  length-set (x ∷ xs) (suc i) v = ap suc (length-set xs i v)
  length-set _ _ v = refl

  pub get_or-set_self :
      (xs : List A) (i : ℕ) (v d : A) → i < length xs → get_or (set xs i v) i d ≡ v
  get_or-set_self [] i v d h = absurd (omega arith)
  get_or-set_self (x ∷ xs) zero v d h = refl
  get_or-set_self (x ∷ xs) (suc i) v d h = get_or-set_self xs i v d (omega arith)

  pub get_or-set_ne :
      (xs : List A) (i j : ℕ) (v d : A) → i ≢ j → get_or (set xs i v) j d ≡ get_or xs j d
  get_or-set_ne [] i j v d h = refl
  get_or-set_ne (x ∷ xs) zero zero v d h = absurd (h refl)
  get_or-set_ne (x ∷ xs) zero (suc j) v d h = refl
  get_or-set_ne (x ∷ xs) (suc i) zero v d h = refl
  get_or-set_ne (x ∷ xs) (suc i) (suc j) v d h = get_or-set_ne xs i j v d (λ e. h (ap suc e))

  pub take_append : (xs ys : List A) → take (length xs) (xs ++ ys) ≡ xs
  take_append [] ys = refl
  take_append (x ∷ xs) ys = ap (λ t. x ∷ t) (take_append xs ys)

  pub drop_append : (xs ys : List A) → drop (length xs) (xs ++ ys) ≡ ys
  drop_append [] ys = refl
  drop_append (x ∷ xs) ys = drop_append xs ys

  pub length-drop : (n : ℕ) (xs : List A) → length (drop n xs) ≡ length xs - n
  length-drop zero xs = omega arith
  length-drop (suc n) [] = omega arith
  length-drop (suc n) (x ∷ xs) = omega (arith, length-drop n xs)

  pub length-take : (n : ℕ) (xs : List A) → n ≤ length xs → length (take n xs) ≡ n
  length-take zero xs h = refl
  length-take (suc n) [] h = absurd (omega arith)
  length-take (suc n) (x ∷ xs) h = ap suc (length-take n xs (omega arith))

  pub take-append-drop : (n : ℕ) (xs : List A) → take n xs ++ drop n xs ≡ xs
  take-append-drop zero xs = refl
  take-append-drop (suc n) [] = refl
  take-append-drop (suc n) (x ∷ xs) = ap (λ t. x ∷ t) (take-append-drop n xs)

  pub set-append :
      (xs ys : List A) (k : ℕ) (v : A) → set (xs ++ ys) (length xs + k) v ≡ xs ++ set ys k v
  set-append [] ys k v = ap (λ i. set ys i v) (zero_add k)
    where
      zero_add : (n : ℕ) → 0 + n ≡ n
      zero_add n = omega arith
  set-append (x ∷ xs) ys k v =
      let e : suc (length xs) + k ≡ suc (length xs + k) = omega arith in
      ap (λ i. set (x ∷ (xs ++ ys)) i v) e ∙ ap (λ t. x ∷ t) (set-append xs ys k v)

  -- An array around the element at an index.
  pub split_at :
      (xs : List A) (n : ℕ) (d : A)
      → n < length xs
      → xs ≡ take n xs ++ get_or xs n d ∷ drop (n + 1) xs
  split_at [] n d h = absurd (omega arith)
  split_at (x ∷ xs) zero d h = refl
  split_at (x ∷ xs) (suc n) d h =
      let e : suc n + 1 ≡ suc (n + 1) = omega arith in
      ap (λ t. x ∷ t) (split_at xs n d (omega arith))
      ∙ ap (λ i. x ∷ (take n xs ++ get_or xs n d ∷ drop i (x ∷ xs))) (sym e)

  pub get_or-append : (xs ys : List A) (d : A) → get_or (xs ++ ys) (length xs) d ≡ get_or ys 0 d
  get_or-append [] ys d = refl
  get_or-append (x ∷ xs) ys d = get_or-append xs ys d

  pub drop-cons :
      (xs : List A) (n : ℕ) (d : A) → n < length xs → drop n xs ≡ get_or xs n d ∷ drop (n + 1) xs
  drop-cons [] n d h = absurd (omega arith)
  drop-cons (x ∷ xs) zero d h = refl
  drop-cons (x ∷ xs) (suc n) d h =
      let e : suc n + 1 ≡ suc (n + 1) = omega arith in
      drop-cons xs n d (omega arith) ∙ ap (λ k. get_or xs n d ∷ drop k (x ∷ xs)) (sym e)

  pub drop_all : (xs : List A) (n : ℕ) → n ≡ length xs → drop n xs ≡ []
  drop_all [] zero h = refl
  drop_all [] (suc n) h = refl
  drop_all (x ∷ xs) zero h = absurd (omega arith)
  drop_all (x ∷ xs) (suc n) h = drop_all xs n (omega arith)

  pub get_or-replicate : (n i : ℕ) (a : A) → get_or (replicate n a) i a ≡ a
  get_or-replicate zero i a = refl
  get_or-replicate (suc n) zero a = refl
  get_or-replicate (suc n) (suc i) a = get_or-replicate n i a

  -- What a read finds after a write: what was there, or at the same index the value written.
  pub get_or-set_cases :
      (xs : List A) (i j : ℕ) (v d : A)
      → (get_or (set xs i v) j d ≡ get_or xs j d) ⊎ (i ≡ j) × (get_or (set xs i v) j d ≡ v)
  get_or-set_cases [] i j v d = inl refl
  get_or-set_cases (x ∷ xs) zero zero v d = inr (refl, refl)
  get_or-set_cases (x ∷ xs) zero (suc j) v d = inl refl
  get_or-set_cases (x ∷ xs) (suc i) zero v d = inl refl
  get_or-set_cases (x ∷ xs) (suc i) (suc j) v d = ground (arith, get_or-set_cases xs i j v d)

  pub take_all : (xs : List A) (n : ℕ) → length xs ≤ n → take n xs ≡ xs
  take_all [] zero h = refl
  take_all [] (suc n) h = refl
  take_all (x ∷ xs) zero h = absurd (omega arith)
  take_all (x ∷ xs) (suc n) h = ap (λ t. x ∷ t) (take_all xs n (omega arith))
