-- ===== src/AuthStore/State.antt =====
-- src/authstore.c: the store's tables, the look-ups, and the removal of rows. The arrays are lists; the
-- capacities are kept, since they decide when a request for memory is made.
use beaver_mq.Prelude.{
  ℕ, zero, suc, ◌+◌, ◌-◌, ◌*◌, Bool, true, false, ◌&&◌, ◌||◌, Option, none, some, List, [], ◌∷◌,
  Bytes, str_eq, length, get_or, take, ltb, leb, ◌==◌, if◌then◌else◌,
}
use beaver_mq.Prelude.Swap.{swap_remove}

abbrev pub authstore_name_max : ℕ
authstore_name_max = 128

abbrev pub authstore_regex_max : ℕ
authstore_regex_max = 256

-- user_t
pub record User : Type 0 where
  pub name : Bytes
  pub hash : Bytes
  pub tags : ℕ

-- perm_t; a regex_t is the pattern that it was compiled from, none when it is not built.
pub record Perm : Type 0 where
  pub user : Bytes
  pub vhost : Bytes
  pub conf : Bytes
  pub wr : Bytes
  pub rd : Bytes
  pub rc : Option Bytes
  pub rw : Option Bytes
  pub rr : Option Bytes
  pub compiled : Bool

-- struct authstore; a vhost_t is its name. `held` tells that the write lock was taken and not given back.
pub record AuthStore : Type 0 where
  pub vhosts : List Bytes
  pub cv : ℕ
  pub users : List User
  pub cu : ℕ
  pub perms : List Perm
  pub cp : ℕ
  pub persist_path : Bytes
  pub bootstrap_completed : Bool
  pub held : Bool

-- What calloc leaves.
abbrev pub fresh_store : AuthStore
fresh_store = record {
  vhosts = [];
  cv = 0;
  users = [];
  cu = 0;
  perms = [];
  cp = 0;
  persist_path = [];
  bootstrap_completed = false;
  held = false;
}

unfoldable pub authstore_new : Bool → Option AuthStore
authstore_new granted = if granted then some fresh_store else none

unfoldable pub too_long : Bytes → ℕ → Bool
too_long s n = leb n (length s)

-- snprintf(out, n, "%s", s)
abbrev pub fitted : ℕ → Bytes → Bytes
fitted n s = take (n - 1) s

-- GROW: whether there is room for one more, and the capacity; `granted` is realloc's answer.
unfoldable pub grow : Bool → ℕ → ℕ → Bool × ℕ
grow granted n cap =
    if n == cap
    then if granted then (true, (if cap == 0 then 8 else cap * 2)) else (false, cap)
    else (true, cap)

abbrev pub next_index : Option ℕ → Option ℕ
next_index none = none
next_index (some i) = some (suc i)

module _ {ℓ} {A : Type ℓ} where
  -- The loop of the look-ups: the index of the first row that passes the test; none is (size_t)-1.
  unfoldable pub position : (A → Bool) → List A → Option ℕ
  position p [] = none
  position p (x ∷ xs) = let rest = position p xs in if p x then some 0 else next_index rest

  -- One round of drop_perms_matching: a row that matches gives its place to the last one.
  unfoldable pub drop_step : (A → Bool) → A → ℕ × List A → ℕ × List A
  drop_step p d (i, xs) = if p (get_or xs i d) then (i, swap_remove xs i d) else (i + 1, xs)

  -- Each round shortens the array or moves on, so the number of rows is fuel enough.
  unfoldable pub drop_loop : ℕ → (A → Bool) → A → ℕ × List A → ℕ × List A
  unfolding drop_step
  drop_loop zero p d s = s
  drop_loop (suc n) p d s = elim (ltb s.0 (length s.1)) [
    | true ↦ drop_loop n p d (drop_step p d s)
    | false ↦ s
  ]

abbrev pub is_vhost : Bytes → Bytes → Bool
is_vhost v name = str_eq name v

abbrev pub is_user : Bytes → User → Bool
is_user u row = str_eq row.name u

abbrev pub is_perm : Bytes → Bytes → Perm → Bool
is_perm u v row = str_eq row.user u && str_eq row.vhost v

unfoldable pub find_vhost : AuthStore → Bytes → Option ℕ
unfolding position
find_vhost s v = position (is_vhost v) s.vhosts

unfoldable pub find_user : AuthStore → Bytes → Option ℕ
unfolding position
find_user s u = position (is_user u) s.users

unfoldable pub find_perm : AuthStore → Bytes → Bytes → Option ℕ
unfolding position
find_perm s u v = position (is_perm u v) s.perms

-- What a read out of range would give; there is none.
abbrev pub no_user : User
no_user = record { name = []; hash = []; tags = 0 }

-- The row that memset leaves.
abbrev pub no_perm : Perm
no_perm = record {
  user = [];
  vhost = [];
  conf = [];
  wr = [];
  rd = [];
  rc = none;
  rw = none;
  rr = none;
  compiled = false;
}

-- Whether a name that may be NULL is this one.
abbrev pub names : Option Bytes → Bytes → Bool
names none s = false
names (some n) s = str_eq s n

abbrev pub is_of_either : Option Bytes → Option Bytes → Perm → Bool
is_of_either u v row = names u row.user || names v row.vhost

unfoldable pub drop_perms_matching : AuthStore → Option Bytes → Option Bytes → AuthStore
unfolding drop_loop
drop_perms_matching s u v = record s {
  perms = (drop_loop (length s.perms) (is_of_either u v) no_perm (0, s.perms)).1;
}
