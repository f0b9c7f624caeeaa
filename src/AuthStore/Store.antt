-- ===== src/AuthStore/Store.antt =====
-- src/authstore.c: the operations. The answers of realloc and of the file system come first; `written` is
-- the new content of the file at persist_path, when it was replaced. An operation starts with the
-- lock free: one that finds it held would wait.
use beaver_mq.Prelude.{
  ℕ, Bool, true, false, not, ◌&&◌, ◌||◌, Option, none, some, List, [], ◌∷◌, ◌++◌, Bytes, length,
  get_or, set, ◌==◌, if◌then◌else◌,
}
use beaver_mq.Prelude.Swap.{swap_remove}
use beaver_mq.AuthStore.Password.{authstore_hash_max, hash_matches}
use beaver_mq.AuthStore.State.{
  authstore_name_max, authstore_regex_max, User, Perm, AuthStore, too_long, fitted, grow,
  find_vhost, find_user, find_perm, no_user, no_perm, drop_perms_matching,
}
use beaver_mq.AuthStore.File.{authstore_save_locked}

-- Whether the function returned 0, and what it left.
pub record Outcome : Type 0 where
  pub ok : Bool
  pub store : AuthStore
  pub written : Option Bytes

-- The end of an operation that changed the store: it is saved, and the lock is given back.
unfoldable pub saved : Bool → Bool → AuthStore → Outcome
saved io ok s = record { ok = ok; store = s; written = authstore_save_locked io s }

abbrev pub unchanged : Bool → AuthStore → Outcome
unchanged ok s = record { ok = ok; store = s; written = none }

-- GROW's `return -1` leaves with the lock held.
abbrev pub left_locked : AuthStore → Outcome
left_locked s = record { ok = false; store = record s { held = true }; written = none }

abbrev pub added_vhost : Bool → Bool → AuthStore → Bytes → Option ℕ → Outcome
added_vhost granted io s vhost (some i) = unchanged true s
added_vhost granted io s vhost none =
    let (room, cap) = grow granted (length s.vhosts) s.cv in
    if room
    then saved io true
        (record s { vhosts = s.vhosts ++ fitted authstore_name_max vhost ∷ []; cv = cap })
    else left_locked s

unfoldable pub authstore_add_vhost : Bool → Bool → AuthStore → Bytes → Outcome
unfolding saved
authstore_add_vhost granted io s vhost =
    if too_long vhost authstore_name_max
    then unchanged false s
    else added_vhost granted io s vhost (find_vhost s vhost)

abbrev pub without_vhost : Bool → AuthStore → Bytes → Option ℕ → Outcome
without_vhost io s vhost none = unchanged true s
without_vhost io s vhost (some i) =
    saved io true
      (drop_perms_matching (record s { vhosts = swap_remove s.vhosts i [] }) none (some vhost))

unfoldable pub authstore_del_vhost : Bool → AuthStore → Bytes → Outcome
unfolding saved
authstore_del_vhost io s vhost = without_vhost io s vhost (find_vhost s vhost)

-- The row written at its place, which may be the new one at the end.
abbrev pub put_user : Bool → Bool → AuthStore → User → Option ℕ → Outcome
put_user granted io s row (some i) =
    saved io true (record s { users = set s.users i row; bootstrap_completed = true })
put_user granted io s row none =
    let (room, cap) = grow granted (length s.users) s.cu in
    if room
    then saved io true
        (record s { users = s.users ++ row ∷ []; cu = cap; bootstrap_completed = true })
    else left_locked s

unfoldable pub authstore_add_user : Bool → Bool → AuthStore → Bytes → Bytes → ℕ → Outcome
unfolding saved
authstore_add_user granted io s user pass_hash tags =
    let row : User = record {
      name = fitted authstore_name_max user;
      hash = fitted authstore_hash_max pass_hash;
      tags = tags;
    } in
    if too_long user authstore_name_max || too_long pass_hash authstore_hash_max
    then unchanged false s
    else put_user granted io s row (find_user s user)

abbrev pub without_user : Bool → AuthStore → Bytes → Option ℕ → Outcome
without_user io s user none = unchanged true s
without_user io s user (some i) =
    saved io true
      (drop_perms_matching (record s { users = swap_remove s.users i no_user }) (some user) none)

unfoldable pub authstore_del_user : Bool → AuthStore → Bytes → Outcome
unfolding saved
authstore_del_user io s user = without_user io s user (find_user s user)

-- ---- permissions: `compiles` is whether regcomp accepts a pattern
module _ (compiles : Bytes → Bool) where
  -- One pattern: `ok` after it, and the regex, which an empty pattern does not get.
  abbrev pub build : Bool → Bytes → Bool × Option Bytes
  build ok [] = (ok, none)
  build ok (c ∷ pat) =
      if ok
      then if compiles (c ∷ pat) then (true, some (c ∷ pat)) else (false, none)
      else (false, none)

  -- The row with its regexes; if one is refused, those built are freed and the row denies all.
  unfoldable pub compile_row : Perm → Perm
  compile_row p =
      let (c_ok, rc) = build true p.conf in
      let (w_ok, rw) = build c_ok p.wr in
      let (ok, rr) = build w_ok p.rd in
      if ok
      then record p { rc = rc; rw = rw; rr = rr; compiled = true }
      else record p { rc = none; rw = none; rr = none; compiled = false }

  abbrev pub put_perm : Bool → Bool → AuthStore → Perm → Option ℕ → Outcome
  put_perm granted io s row (some i) =
      saved io row.compiled (record s { perms = set s.perms i row })
  put_perm granted io s row none =
      let (room, cap) = grow granted (length s.perms) s.cp in
      if room
      then saved io row.compiled (record s { perms = s.perms ++ row ∷ []; cp = cap })
      else left_locked s

  -- The row as the snprintf calls fill it.
  abbrev pub perm_row : Bytes → Bytes → Bytes → Bytes → Bytes → Perm
  perm_row user vhost configure write read = record {
    user = fitted authstore_name_max user;
    vhost = fitted authstore_name_max vhost;
    conf = fitted authstore_regex_max configure;
    wr = fitted authstore_regex_max write;
    rd = fitted authstore_regex_max read;
    rc = none;
    rw = none;
    rr = none;
    compiled = false;
  }

  unfoldable pub authstore_set_perm :
      Bool → Bool → AuthStore → Bytes → Bytes → Bytes → Bytes → Bytes → Outcome
  unfolding saved
  authstore_set_perm granted io s user vhost configure write read =
      if too_long user authstore_name_max
        || too_long vhost authstore_name_max
        || too_long configure authstore_regex_max
        || too_long write authstore_regex_max
        || too_long read authstore_regex_max
      then unchanged false s
      else put_perm granted io s (compile_row (perm_row user vhost configure write read))
          (find_perm s user vhost)

abbrev pub without_perm : Bool → AuthStore → Option ℕ → Outcome
without_perm io s none = unchanged true s
without_perm io s (some i) = saved io true (record s { perms = swap_remove s.perms i no_perm })

unfoldable pub authstore_clear_perm : Bool → AuthStore → Bytes → Bytes → Outcome
unfolding saved
authstore_clear_perm io s user vhost = without_perm io s (find_perm s user vhost)

-- ---- queries
unfoldable pub authstore_is_open : AuthStore → Bool
authstore_is_open s = (length s.users == 0) && not s.bootstrap_completed

abbrev pub is_found : Option ℕ → Bool
is_found none = false
is_found (some i) = true

unfoldable pub authstore_vhost_exists : AuthStore → Bytes → Bool
authstore_vhost_exists s vhost = is_found (find_vhost s vhost)

unfoldable pub can_access_vhost : AuthStore → Bytes → Bytes → Bool
can_access_vhost s user vhost = is_found (find_perm s user vhost)

-- The row at an index, read by a test that fails without one.
abbrev pub at_row {ℓ} : {A : Type ℓ} → List A → A → (A → Bool) → Option ℕ → Bool
at_row xs d test none = false
at_row xs d test (some i) = test (get_or xs i d)

unfoldable pub authstore_verify : Bool → AuthStore → Bytes → Bytes → Bool
authstore_verify granted s user password =
    at_row s.users no_user (λ row. hash_matches granted row.hash password) (find_user s user)

abbrev pub copied_hash : AuthStore → ℕ → Option ℕ → Option Bytes
copied_hash s cap none = none
copied_hash s cap (some i) =
    let hash = (get_or s.users i no_user).hash in if too_long hash cap then none else some hash

-- What is copied to `out`.
unfoldable pub authstore_lookup_hash : AuthStore → Bytes → ℕ → Option Bytes
authstore_lookup_hash s user cap = if cap == 0 then none else copied_hash s cap (find_user s user)

abbrev pub tags_at : AuthStore → Option ℕ → ℕ
tags_at s none = 0
tags_at s (some i) = (get_or s.users i no_user).tags

unfoldable pub authstore_user_tags : AuthStore → Bytes → ℕ
authstore_user_tags s user = tags_at s (find_user s user)

-- auth_perm_t
pub data PermKind : Type 0 where
  auth_configure auth_write auth_read : PermKind

abbrev pub pattern_of : PermKind → Perm → Bytes
pattern_of auth_configure p = p.conf
pattern_of auth_write p = p.wr
pattern_of auth_read p = p.rd

abbrev pub regex_of : PermKind → Perm → Option Bytes
regex_of auth_configure p = p.rc
regex_of auth_write p = p.rw
regex_of auth_read p = p.rr

-- `matches` is whether regexec accepts an object for a pattern.
module _ (matches : Bytes → Bytes → Bool) where
  -- A regex that is not built is never executed (`IsBuilt` below).
  abbrev pub executed : Option Bytes → Bytes → Bool
  executed none object = false
  executed (some pat) object = matches pat object

  unfoldable pub row_allows : PermKind → Bytes → Perm → Bool
  row_allows kind object p =
      if p.compiled
      then if length (pattern_of kind p) == 0 then false else executed (regex_of kind p) object
      else false

  unfoldable pub authstore_check : AuthStore → Bytes → Bytes → PermKind → Bytes → Bool
  unfolding row_allows
  authstore_check s user vhost kind object =
      at_row s.perms no_perm (row_allows kind object) (find_perm s user vhost)
