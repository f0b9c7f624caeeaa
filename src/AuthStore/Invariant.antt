-- ===== src/AuthStore/Invariant.antt =====
-- src/authstore.c: what every operation keeps. No name has two rows, nothing is longer than its array, and
-- the regexes of a row are those of its patterns.
use beaver_mq.Prelude.{
  take_all, ◌-◌, ℕ, ◌^◌, ◌≤◌, ◌<◌, ◌≡◌, ap, ◌⊎◌, Bool, true, false, List, [], ◌∷◌, ◌++◌, Bytes,
  str_eq, All, length, get_or, set, arith,
}
use beaver_mq.Prelude.Swap.{one_if, count, swap_remove, count-set, count-swap_remove}
use beaver_mq.AuthStore.Password.{authstore_hash_max}
use beaver_mq.AuthStore.State.{
  authstore_name_max, authstore_regex_max, User, Perm, AuthStore, too_long, fitted, is_vhost,
  is_user, is_perm,
}
use beaver_mq.AuthStore.Store.{compile_row}
use beaver_mq.AuthStore.Rows.{count-append}

abbrev pub IsVhost : Bytes → Type 0
IsVhost v = length v < authstore_name_max

pub record IsUser (row : User) : Type 0 where
  pub name : length row.name < authstore_name_max
  pub hash : length row.hash < authstore_hash_max
  pub tags : row.tags < 2 ^ 32

-- The patterns fit, and the regexes are what compiling the patterns gives.
pub record IsPerm (compiles : Bytes → Bool) (row : Perm) : Type 0 where
  pub user : length row.user < authstore_name_max
  pub vhost : length row.vhost < authstore_name_max
  pub conf : length row.conf < authstore_regex_max
  pub wr : length row.wr < authstore_regex_max
  pub rd : length row.rd < authstore_regex_max
  pub built : compile_row compiles row ≡ row

-- No test of a name passes for two rows.
abbrev pub Unique {ℓ κ} : {K : Type κ} {A : Type ℓ} → (K → A → Bool) → List A → Type κ
Unique p xs = (k : _) → count (p k) xs ≤ 1

abbrev pub is_pair : Bytes × Bytes → Perm → Bool
is_pair (u, v) row = is_perm u v row

pub record IsStore (compiles : Bytes → Bool) (s : AuthStore) : Type 0 where
  pub one_vhost : Unique is_vhost s.vhosts
  pub one_user : Unique is_user s.users
  pub one_perm : Unique is_pair s.perms
  pub vhosts : All IsVhost s.vhosts
  pub users : All IsUser s.users
  pub perms : All (IsPerm compiles) s.perms
  pub completed : 0 < length s.users → s.bootstrap_completed ≡ true

fits : (s : Bytes) (n : ℕ) → too_long s n ≡ false → length s < n
unfolding too_long
fits s n e = ground arith

-- What was not too long is copied whole.
pub fitted_whole : (s : Bytes) (n : ℕ) → too_long s n ≡ false → (fitted n s ≡ s) × (length s < n)
fitted_whole s n e = let short = fits s n e in (take_all s (n - 1) (omega arith), short)

module _ {ℓ κ} {K : Type κ} {A : Type ℓ} (p : K → A → Bool) where
  pub Unique-swap_remove :
      (xs : List A) (i : ℕ) (d : A) → i < length xs → Unique p xs → Unique p (swap_remove xs i d)
  Unique-swap_remove xs i d h u k =
      let less = u k in omega (arith, count-swap_remove (p k) xs i d h)

  -- A row put in place of one with the same name.
  pub Unique-set :
      (xs : List A) (i : ℕ) (row d : A)
      → i < length xs
      → ((k : K) → p k row ≡ p k (get_or xs i d))
      → Unique p xs
      → Unique p (set xs i row)
  Unique-set xs i row d h same u k =
      let one = u k in omega (arith, count-set (p k) xs i row d h, ap one_if (same k))

  -- A row put behind others, of which none has its name.
  pub Unique-append :
      (xs : List A) (row : A)
      → ((k : K) → (p k row ≡ false) ⊎ (count (p k) xs ≡ 0))
      → Unique p xs
      → Unique p (xs ++ row ∷ [])
  unfolding count
  Unique-append xs row fresh u k =
      let one = u k in
      let sum = count-append (p k) xs (row ∷ []) in let new = fresh k in ground arith

pub Unique-same : (a b : Bytes) → a ≡ b → (k : Bytes) → str_eq a k ≡ str_eq b k
Unique-same a b e k = ap (λ x. str_eq x k) e
