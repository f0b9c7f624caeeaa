-- ===== src/Prelude/Swap.antt =====
-- Arrays whose removal moves the last element into the gap, counted by a test.
use Prim.Native.Nat.{ℕ, zero, suc, ◌+◌, ◌-◌, ◌<◌}
use mathlib.Core.Path.{◌≡◌, refl, ◌∙◌, subst}
use mathlib.Core.Logic.{inl, inr}
use mathlib.Core.Bool.{Bool}
use mathlib.Core.List.{List, [], ◌∷◌}
use native.Mathlib.Omega.{arith}
use beaver_mq.Prelude.Tests.{◌==◌, if◌then◌else◌, Bool-cases}
use beaver_mq.Prelude.Lists.{
  length, get_or, set, take, length-set, length-take, get_or-set_self, get_or-set_ne,
}

abbrev pub one_if : Bool → ℕ
one_if b = if b then 1 else 0

module _ {ℓ} {A : Type ℓ} where
  -- `xs[i] = xs[--n]`: the last element takes the place of the one at `i`.
  unfoldable pub swap_remove : List A → ℕ → A → List A
  swap_remove xs i d =
      let last = get_or xs (length xs - 1) d in take (length xs - 1) (set xs i last)

  -- How many elements pass a test.
  unfoldable pub count : (A → Bool) → List A → ℕ
  count p [] = 0
  count p (b ∷ bs) = one_if (p b) + count p bs

  pub count-set :
      (p : A → Bool) (bs : List A) (i : ℕ) (v d : A)
      → i < length bs
      → count p (set bs i v) + one_if (p (get_or bs i d)) ≡ count p bs + one_if (p v)
  unfolding count
  count-set p [] i v d h = absurd (omega arith)
  count-set p (b ∷ bs) zero v d h = omega arith
  count-set p (b ∷ bs) (suc i) v d h = omega (arith, count-set p bs i v d (omega arith))

  count-take :
      (p : A → Bool) (bs : List A) (n : ℕ) (d : A)
      → length bs ≡ n + 1
      → count p (take n bs) + one_if (p (get_or bs n d)) ≡ count p bs
  unfolding count
  count-take p [] n d h = absurd (omega arith)
  count-take p (b ∷ []) zero d h = omega arith
  count-take p (b ∷ c ∷ bs) zero d h = absurd (omega arith)
  count-take p (b ∷ bs) (suc n) d h = omega (arith, count-take p bs n d (omega arith))

  get_or-take : (bs : List A) (n i : ℕ) (d : A) → i < n → get_or (take n bs) i d ≡ get_or bs i d
  get_or-take [] zero i d h = absurd (omega arith)
  get_or-take [] (suc n) i d h = refl
  get_or-take (b ∷ bs) zero i d h = absurd (omega arith)
  get_or-take (b ∷ bs) (suc n) zero d h = refl
  get_or-take (b ∷ bs) (suc n) (suc i) d h = get_or-take bs n i d (omega arith)

  -- After the write, the last element is the one written or the last one of before: the same.
  last-set :
      (bs : List A) (i : ℕ) (d : A)
      → i < length bs
      → get_or (set bs i (get_or bs (length bs - 1) d)) (length bs - 1) d
        ≡ get_or bs (length bs - 1) d
  last-set bs i d h = elim (Bool-cases (i == length bs - 1)) [
    | inl e ↦
        let same : i ≡ length bs - 1 = ground arith in
        rw same (get_or-set_self bs (length bs - 1) _ d (omega arith))
    | inr n ↦ get_or-set_ne bs i (length bs - 1) _ d (λ same. ground arith)
  ]

  -- A removal takes away the element at the index and no other.
  pub count-swap_remove :
      (p : A → Bool) (bs : List A) (i : ℕ) (d : A)
      → i < length bs
      → count p (swap_remove bs i d) + one_if (p (get_or bs i d)) ≡ count p bs
  unfolding swap_remove
  count-swap_remove p bs i d h =
      let last = get_or bs (length bs - 1) d in
      let taken =
        count-take p (set bs i last) (length bs - 1) d (length-set bs i last ∙ omega arith) in
      let moved : count p (take (length bs - 1) (set bs i last)) + one_if (p last)
          ≡ count p (set bs i last) =
        subst
          (λ x.
            count p (take (length bs - 1) (set bs i last)) + one_if (p x) ≡ count p (set bs i last))
          (last-set bs i d h) taken in
      omega (arith, moved, count-set p bs i last d h)

  pub length-swap_remove :
      (bs : List A) (i : ℕ) (d : A) → i < length bs → length (swap_remove bs i d) + 1 ≡ length bs
  unfolding swap_remove
  length-swap_remove bs i d h =
      let last = get_or bs (length bs - 1) d in
      let sized = length-set bs i last in
      omega (arith, length-take (length bs - 1) (set bs i last) (omega arith))

  pub get_or-swap_remove :
      (bs : List A) (i j : ℕ) (d : A)
      → j < i
      → i < length bs
      → get_or (swap_remove bs i d) j d ≡ get_or bs j d
  unfolding swap_remove
  get_or-swap_remove bs i j d hj hi =
      get_or-take _ (length bs - 1) j d (omega arith) ∙ get_or-set_ne bs i j _ d (λ e. omega arith)
