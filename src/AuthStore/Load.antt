-- ===== src/AuthStore/Load.antt =====
-- src/authstore.c: reading a store back. The three loops call the operations, whose results the source does
-- not look at; one that leaves the lock held makes the next wait for ever.
use beaver_mq.Prelude.{
  ℕ, zero, suc, Bool, true, Option, none, some, Bytes, length, ◌==◌, if◌then◌else◌,
}
use beaver_mq.AuthStore.Password.{authstore_hash_max}
use beaver_mq.AuthStore.State.{authstore_name_max, authstore_regex_max, AuthStore, fitted}
use beaver_mq.AuthStore.File.{authstore_db_magic, authstore_db_version, bind, get_u32, get_str}
use beaver_mq.AuthStore.Store.{authstore_add_vhost, authstore_add_user, authstore_set_perm}

-- How far the reading came: what is left of the file; `bad`; or waiting for the lock.
pub data Progress : Type 0 where
  reading : AuthStore → Bytes → Progress
  corrupt : AuthStore → Progress
  waiting : AuthStore → Progress

-- 0, -1, or no return
pub data Loaded : Type 0 where
  loaded refused blocked : AuthStore → Loaded

-- The next call, which takes the lock.
abbrev pub on_free : AuthStore → Progress → Progress
on_free s p = if s.held then waiting s else p

abbrev pub with_row {ℓ} :
    {A : Type ℓ} → AuthStore → Option (A × Bytes) → (A → Bytes → Progress) → Progress
with_row s none f = corrupt s
with_row s (some (row, rest)) f = f row rest

abbrev pub user_fields : Bytes → Option ((Bytes × Bytes × ℕ) × Bytes)
user_fields f = bind (get_str authstore_name_max f) λ (name, f).
    bind (get_str authstore_hash_max f)
      λ (hash, f). bind (get_u32 f) λ (tags, f). some ((name, hash, tags), f)

abbrev pub perm_fields : Bytes → Option ((Bytes × Bytes × Bytes × Bytes × Bytes) × Bytes)
perm_fields f = bind (get_str authstore_name_max f) λ (user, f).
    bind (get_str authstore_name_max f) λ (vhost, f).
      bind (get_str authstore_regex_max f) λ (conf, f).
        bind (get_str authstore_regex_max f) λ (wr, f).
          bind (get_str authstore_regex_max f) λ (rd, f). some ((user, vhost, conf, wr, rd), f)

-- The answers of realloc by the number of rows, and whether the file system's calls succeed.
module _ (compiles : Bytes → Bool) (grants : ℕ → Bool) (io : Bool) where
  unfoldable pub load_vhosts : ℕ → AuthStore → Bytes → Progress
  load_vhosts zero s f = reading s f
  load_vhosts (suc n) s f = with_row s (get_str authstore_name_max f) λ name rest.
      on_free s
        (load_vhosts n (authstore_add_vhost (grants (length s.vhosts)) io s name).store rest)

  unfoldable pub load_users : ℕ → AuthStore → Bytes → Progress
  load_users zero s f = reading s f
  load_users (suc n) s f = with_row s (user_fields f) λ (name, hash, tags) rest.
      on_free s
        (load_users n (authstore_add_user (grants (length s.users)) io s name hash tags).store rest)

  unfoldable pub load_perms : ℕ → AuthStore → Bytes → Progress
  load_perms zero s f = reading s f
  load_perms (suc n) s f = with_row s (perm_fields f) λ (user, vhost, conf, wr, rd) rest.
      on_free s (
        load_perms n
          (authstore_set_perm compiles (grants (length s.perms)) io s user vhost conf wr rd).store
          rest)

  -- A count, and the loop over as many rows.
  abbrev pub counted : (ℕ → AuthStore → Bytes → Progress) → Progress → Progress
  counted loop (reading s f) = with_row s (get_u32 f) λ n rest. loop n s rest
  counted loop p = p

  -- The magic number, the version and the bootstrap flag.
  unfoldable pub load_header : Bytes → Option (ℕ × Bytes)
  load_header f = bind (get_u32 f) λ (magic, f).
      if magic == authstore_db_magic
      then (bind (get_u32 f)
          λ (version, f). if version == authstore_db_version then get_u32 f else none)
      else none

  abbrev pub finished : Bytes → ℕ → Progress → Loaded
  finished path boot (reading s f) =
      if s.held
      then blocked s
      else loaded (record s {
        bootstrap_completed = (if boot == 0 then s.bootstrap_completed else true);
        persist_path = fitted 512 path;
      })
  finished path boot (corrupt s) = refused s
  finished path boot (waiting s) = blocked s

  abbrev pub load_rows : AuthStore → Bytes → Progress
  load_rows s f = counted load_perms (counted load_users (counted load_vhosts (reading s f)))

  abbrev pub load_file : AuthStore → Bytes → Option (ℕ × Bytes) → Loaded
  load_file s path none = refused s
  load_file s path (some (boot, rest)) = finished path boot (load_rows s rest)

  -- `file` is the content, none when fopen fails.
  unfoldable pub authstore_load : AuthStore → Bytes → Option Bytes → Loaded
  unfolding load_header load_vhosts load_users load_perms
  authstore_load s path none = loaded (record s { persist_path = fitted 512 path })
  authstore_load s path (some f) = load_file s path (load_header f)
