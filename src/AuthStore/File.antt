-- ===== src/AuthStore/File.antt =====
-- src/authstore.c: the file of a store. A FILE is the bytes written so far, or those not yet read; a read
-- or a write that fails is none.
use beaver_mq.Prelude.{
  ℕ, ◌+◌, ◌-◌, ◌*◌, ◌/◌, ◌%◌, ◌^◌, Bool, not, ◌||◌, Option, none, some, List, [], ◌∷◌, ◌++◌, Bytes,
  length, get_or, take, drop, ltb, leb, ◌==◌, if◌then◌else◌,
}
use beaver_mq.AuthStore.State.{User, Perm, AuthStore}

abbrev pub authstore_db_magic : ℕ
authstore_db_magic = 1095980098

abbrev pub authstore_db_version : ℕ
authstore_db_version = 1

abbrev pub bind {ℓ κ} : {A : Type ℓ} {B : Type κ} → Option A → (A → Option B) → Option B
bind none f = none
bind (some a) f = f a

-- The bytes that put_u32 writes.
unfoldable pub put_u32 : ℕ → Bytes
put_u32 v = (v / 2 ^ 24 % 256) ∷ (v / 2 ^ 16 % 256) ∷ (v / 2 ^ 8 % 256) ∷ (v % 256) ∷ []

unfoldable pub put_str : Bytes → Option Bytes
put_str s =
    let n = length s in if ltb 65535 n then none else some ((n / 2 ^ 8 % 256) ∷ (n % 256) ∷ s)

abbrev pub then_put : Option Bytes → Option Bytes → Option Bytes
then_put (some a) (some b) = some (a ++ b)
then_put _ _ = none

unfoldable pub put_vhosts : List Bytes → Option Bytes
put_vhosts [] = some []
put_vhosts (v ∷ vs) = then_put (put_str v) (put_vhosts vs)

unfoldable pub put_users : List User → Option Bytes
put_users [] = some []
put_users (u ∷ us) =
    then_put (put_str u.name)
      (then_put (put_str u.hash) (then_put (some (put_u32 u.tags)) (put_users us)))

unfoldable pub put_perms : List Perm → Option Bytes
put_perms [] = some []
put_perms (p ∷ ps) = then_put (put_str p.user) (
    then_put (put_str p.vhost) (
      then_put (put_str p.conf) (then_put (put_str p.wr) (then_put (put_str p.rd) (put_perms ps)))))

abbrev pub flag : Bool → ℕ
flag b = if b then 1 else 0

-- The whole file.
unfoldable pub file_bytes : AuthStore → Option Bytes
unfolding put_u32 put_str put_vhosts put_users put_perms
file_bytes s =
    then_put
      (some (
        put_u32 authstore_db_magic
        ++ put_u32 authstore_db_version
        ++ put_u32 (flag s.bootstrap_completed)
        ++ put_u32 (length s.vhosts % 2 ^ 32)))
      (then_put (put_vhosts s.vhosts) (
        then_put (some (put_u32 (length s.users % 2 ^ 32))) (
          then_put (put_users s.users)
            (then_put (some (put_u32 (length s.perms % 2 ^ 32))) (put_perms s.perms)))))

-- The new content of the file at persist_path, if it was replaced: `io` is whether every call of the
-- file system succeeds.
unfoldable pub authstore_save_locked : Bool → AuthStore → Option Bytes
authstore_save_locked io s = if (length s.persist_path == 0) || not io then none else file_bytes s

-- A read gives its value and what is left.
unfoldable pub get_u32 : Bytes → Option (ℕ × Bytes)
get_u32 f =
    if ltb (length f) 4
    then none
    else some (
      get_or f 0 0 * 2 ^ 24 + get_or f 1 0 * 2 ^ 16 + get_or f 2 0 * 2 ^ 8 + get_or f 3 0,
      drop 4 f,
    )

unfoldable pub get_str : ℕ → Bytes → Option (Bytes × Bytes)
get_str cap f =
    let n = get_or f 0 0 * 256 + get_or f 1 0 in
    if ltb (length f) 2 || leb cap n || ltb (length f - 2) n
    then none
    else some (take n (drop 2 f), drop n (drop 2 f))
