-- ===== src/Queue/Insertion.antt =====
-- src/queue.c: the array of outstanding ids as an ascending list: the insertion from the back, and
-- the removal.
use beaver_mq.Prelude.{
  ℕ, zero, suc, ◌-◌, ◌≤◌, ◌<◌, ◌≡◌, ◌≢◌, refl, ◌⊎◌, inl, Bool, true, false, not, ◌&&◌, List, [],
  ◌∷◌, ◌++◌, length, get_or, take, drop, All, ltb, ◌==◌, if◌then◌else◌, arith,
}
use native.Mathlib.Decide.{dec_lt}
use beaver_mq.Queue.Track.{insert_at, remove_first}

-- ascending, from above `lo` on
abbrev pub IsAscending : ℕ → List ℕ → Type 0
IsAscending lo [] = Unit
IsAscending lo (x ∷ xs) = (lo < x) × IsAscending x xs

abbrev pub AtMost : ℕ → List ℕ → Type 0
AtMost hi xs = All (λ x. x ≤ hi) xs

abbrev pub In : ℕ → List ℕ → Type 0
In a [] = ⊥
In a (x ∷ xs) = (a ≡ x) ⊎ In a xs

-- Sorted insertion, once for each id.
abbrev pub insert : ℕ → List ℕ → List ℕ
insert a [] = a ∷ []
insert a (x ∷ xs) = if ltb a x then a ∷ x ∷ xs else if a == x then x ∷ xs else x ∷ insert a xs

get_or-above :
    (lo : ℕ) (xs : List ℕ) (k : ℕ) → IsAscending lo xs → k < length xs → lo < get_or xs k 0
get_or-above lo [] k h p = absurd (omega arith)
get_or-above lo (x ∷ xs) zero h p = h.0
get_or-above lo (x ∷ xs) (suc k) h p = omega (arith, h.0, get_or-above x xs k h.1 (omega arith))

-- The search from the back finds 0 where every id is above.
insert_at-above :
    (lo cid : ℕ) (xs : List ℕ) (n : ℕ)
    → IsAscending lo xs
    → cid ≤ lo
    → n ≤ length xs
    → insert_at xs cid n ≡ 0
unfolding insert_at
insert_at-above lo cid xs zero h p q = refl
insert_at-above lo cid xs (suc n) h p q =
    ground (arith, get_or-above lo xs n h, insert_at-above lo cid xs n h p)

-- The place in a list with one more element in front.
abbrev up : ℕ → ℕ → ℕ → ℕ
up cid x zero = if ltb cid x then 0 else 1
up cid x (suc k) = suc (suc k)

insert_at-cons :
    (x cid : ℕ) (xs : List ℕ) (n : ℕ)
    → insert_at (x ∷ xs) cid (suc n) ≡ up cid x (insert_at xs cid n)
unfolding insert_at
insert_at-cons x cid xs zero = refl
insert_at-cons x cid xs (suc n) = ground (arith, insert_at-cons x cid xs n)

abbrev pub place : ℕ → List ℕ → ℕ
place cid xs = insert_at xs cid (length xs)

-- `i > 0 && unacked[i - 1] == cid`
abbrev pub known : ℕ → List ℕ → ℕ → Bool
known cid xs i = not (i == 0) && get_or xs (i - 1) 0 == cid

-- The code's insertion is the sorted one, and it recognises an id that is there.
pub record Inserts (cid : ℕ) (xs : List ℕ) (i : ℕ) : Type 0 where
  pub there : known cid xs i ≡ true → insert cid xs ≡ xs
  pub new : known cid xs i ≡ false → take i xs ++ cid ∷ drop i xs ≡ insert cid xs

Inserts-zero : (cid x : ℕ) (xs : List ℕ) → Inserts cid xs 0 → Inserts cid (x ∷ xs) (up cid x 0)
Inserts-zero cid x xs ih =
    let n : cid ∷ xs ≡ insert cid xs = ih.new refl in
    record { there = λ e. ground arith; new = λ e. ground (arith, n) }

Inserts-suc :
    (cid x : ℕ) (xs : List ℕ) (k : ℕ)
    → x < cid
    → Inserts cid xs (suc k)
    → Inserts cid (x ∷ xs) (suc (suc k))
Inserts-suc cid x xs k h ih = record {
  there = λ e. ground (arith, ih.there);
  new = λ e. ground (arith, ih.new);
}

pub place-Inserts : (lo cid : ℕ) (xs : List ℕ) → IsAscending lo xs → Inserts cid xs (place cid xs)
unfolding insert_at
place-Inserts lo cid [] h = record { there = λ e. cc; new = λ e. refl }
place-Inserts lo cid (x ∷ xs) h =
    rw (insert_at-cons x cid xs (length xs)) (go (place cid xs) refl (place-Inserts x cid xs h.1))
  where
    go : (j : ℕ) → place cid xs ≡ j → Inserts cid xs j → Inserts cid (x ∷ xs) (up cid x j)
    go zero e ih = Inserts-zero cid x xs ih
    go (suc k) e ih = elim (dec_lt x cid) [
      | yes p ↦ Inserts-suc cid x xs k p ih
      | no p ↦
          absurd
            (omega (arith, e, insert_at-above x cid xs (length xs) h.1 (omega arith) (omega arith)))
    ]

pub insert-In : (a : ℕ) (xs : List ℕ) → In a (insert a xs)
insert-In a [] = inl refl
insert-In a (x ∷ xs) = ground (arith, insert-In a xs)

pub insert-In_old : (a b : ℕ) (xs : List ℕ) → In b xs → In b (insert a xs)
insert-In_old a b [] h = absurd h
insert-In_old a b (x ∷ xs) h = ground (arith, insert-In_old a b xs)

pub insert-IsAscending :
    (lo a : ℕ) (xs : List ℕ) → lo < a → IsAscending lo xs → IsAscending lo (insert a xs)
insert-IsAscending lo a [] p h = (p, tt)
insert-IsAscending lo a (x ∷ xs) p h = ground (arith, insert-IsAscending x a xs)

pub insert-AtMost : (hi a : ℕ) (xs : List ℕ) → a ≤ hi → AtMost hi xs → AtMost hi (insert a xs)
insert-AtMost hi a [] p h = (p, tt)
insert-AtMost hi a (x ∷ xs) p h = ground (arith, insert-AtMost hi a xs)

pub AtMost-le : (a b : ℕ) (xs : List ℕ) → a ≤ b → AtMost a xs → AtMost b xs
AtMost-le a b [] p h = tt
AtMost-le a b (x ∷ xs) p h = (omega (arith, h.0), AtMost-le a b xs p h.1)

IsAscending-le : (lo x : ℕ) (xs : List ℕ) → lo < x → IsAscending x xs → IsAscending lo xs
IsAscending-le lo x [] p h = tt
IsAscending-le lo x (y ∷ xs) p h = (omega (arith, h.0), h.1)

pub In-above : (lo a : ℕ) (xs : List ℕ) → IsAscending lo xs → In a xs → lo < a
In-above lo a [] h m = absurd m
In-above lo a (x ∷ xs) h m = ground (arith, In-above x a xs)

pub remove_first-IsAscending :
    (lo a : ℕ) (xs : List ℕ) → IsAscending lo xs → IsAscending lo (remove_first a xs)
unfolding remove_first
remove_first-IsAscending lo a [] h = tt
remove_first-IsAscending lo a (x ∷ xs) h =
    ground (arith, remove_first-IsAscending x a xs h.1, IsAscending-le lo x xs)

pub remove_first-AtMost : (hi a : ℕ) (xs : List ℕ) → AtMost hi xs → AtMost hi (remove_first a xs)
unfolding remove_first
remove_first-AtMost hi a [] h = tt
remove_first-AtMost hi a (x ∷ xs) h = ground (arith, remove_first-AtMost hi a xs h.1)

pub remove_first-In : (a b : ℕ) (xs : List ℕ) → a ≢ b → In b xs → In b (remove_first a xs)
unfolding remove_first
remove_first-In a b [] ne h = absurd h
remove_first-In a b (x ∷ xs) ne h = ground (arith, remove_first-In a b xs ne)
