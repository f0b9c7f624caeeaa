-- ===== src/AuthStore/Tests.antt =====
-- Runs of the user store, and the theorems at concrete inputs.
use beaver_mq.Prelude.{
  ◌≡◌, ◌↔◌, refl, Bool, true, false, some, List, [], ◌∷◌, Bytes, codes, str_eq, All, length, arith,
  if◌then◌else◌,
}
use beaver_mq.Prelude.Swap.{count}
use beaver_mq.Crypto.Compare.{IsBytes}
use beaver_mq.AuthStore.Password.{
  pbkdf2_sha256, auth_pbkdf2_iters, authstore_hash_password, hash_matches,
}
use beaver_mq.AuthStore.State.{
  AuthStore, fresh_store, too_long, fitted, grow, position, find_vhost, find_user, find_perm,
}
use beaver_mq.AuthStore.File.{file_bytes, get_u32, get_str}
use beaver_mq.AuthStore.Store.{
  saved, compile_row, authstore_add_vhost, authstore_add_user, authstore_del_user,
  authstore_set_perm, authstore_is_open, is_found, can_access_vhost, auth_configure, auth_write,
  auth_read, row_allows, authstore_check,
}
use beaver_mq.AuthStore.Load.{loaded, refused, load_header, load_vhosts, authstore_load}
use beaver_mq.AuthStore.Invariant.{IsStore}
use beaver_mq.AuthStore.History.{
  Op, add_vhost, del_user, add_user, set_perm, IsOp, applied, history, history-IsStore,
  add_user-shut,
}
use beaver_mq.AuthStore.Grants.{well_formed}
use beaver_mq.AuthStore.Access.{authstore_del_user_lem, authstore_set_perm_lem}
use beaver_mq.AuthStore.Restart.{IsSmall, authstore_load-file_bytes}
use beaver_mq.AuthStore.Verify.{hash_matches-hash_password}

-- "(" is a malformed pattern; a pattern matches just the object that it spells.
abbrev compiles : Bytes → Bool
compiles p = if str_eq p (codes "(") then false else true

abbrev matches : Bytes → Bytes → Bool
matches p object = str_eq p object

abbrev ops : List (Bool × Bool × Op)
ops =
    (true, true, add_vhost (codes "/"))
    ∷ (true, true, add_user (codes "ann") (codes "h1") 1)
    ∷ (true, true, add_user (codes "bob") (codes "h2") 0)
    ∷ (true, true, set_perm (codes "ann") (codes "/") (codes "q") (codes "x") [])
    ∷ (true, true, set_perm (codes "bob") (codes "/") (codes "q") (codes "(") [])
    ∷ []

fresh_store-IsStore : IsStore compiles fresh_store
unfolding count
fresh_store-IsStore = record {
  one_vhost = λ k. omega arith;
  one_user = λ k. omega arith;
  one_perm = λ k. omega arith;
  vhosts = tt;
  users = tt;
  perms = tt;
  completed = λ h. absurd (omega arith);
}

ops-IsOp : All (λ op. IsOp op.2) ops
ops-IsOp = (tt, (omega arith, (omega arith, (tt, (tt, tt)))))

history-IsStore_example : IsStore compiles (history compiles fresh_store ops)
history-IsStore_example = history-IsStore compiles fresh_store ops ops-IsOp fresh_store-IsStore

abbrev store : AuthStore
store = history compiles fresh_store ops

abbrev ann : Bytes
ann = codes "ann"

-- Ann may write to "x" and configure "q", and reads nothing; bob's row is malformed.
checks :
    (authstore_check matches store ann (codes "/") auth_write (codes "x") ≡ true)
    × (authstore_check matches store ann (codes "/") auth_write (codes "y") ≡ false)
    × (authstore_check matches store ann (codes "/") auth_read (codes "x") ≡ false)
    × (authstore_check matches store (codes "bob") (codes "/") auth_configure (codes "q") ≡ false)
    × (can_access_vhost store (codes "bob") (codes "/") ≡ true)
unfolding history applied authstore_add_vhost authstore_add_user authstore_set_perm saved too_long
    grow position find_vhost find_user find_perm compile_row str_eq authstore_check row_allows
    can_access_vhost
checks = (refl, refl, refl, refl, refl)

ann_found : is_found (find_user store ann) ≡ true
unfolding history applied authstore_add_vhost authstore_add_user authstore_set_perm saved too_long
    grow position find_vhost find_user find_perm compile_row str_eq
ann_found = refl

authstore_del_user_lem_example :
    authstore_check matches
      (authstore_del_user true store ann).store
      ann
      (codes "/")
      auth_write
      (codes "x")
    ≡ false
authstore_del_user_lem_example =
    (authstore_del_user_lem compiles matches true true store ann history-IsStore_store ann_found).3
      (codes "/") (codes "x") auth_write
  where
    history-IsStore_store : IsStore compiles store
    history-IsStore_store = history-IsStore compiles fresh_store ops ops-IsOp fresh_store-IsStore

room : (grow true (length store.perms) store.cp).0 ≡ true
unfolding grow
room = ground arith

authstore_set_perm_lem_example :
    (authstore_set_perm compiles true true store ann
      (codes "/")
      (codes "q")
      (codes "(")
      (codes "r")).ok
    ≡ well_formed compiles (codes "q") (codes "(") (codes "r")
authstore_set_perm_lem_example =
    (authstore_set_perm_lem compiles matches true true store ann (codes "/") (codes "q") (codes "(")
      (codes "r") (history-IsStore compiles fresh_store ops ops-IsOp fresh_store-IsStore)
      (omega arith, omega arith, omega arith, omega arith, omega arith) room).0

add_user-shut_example :
    authstore_is_open (
      history compiles
        (authstore_add_user true true fresh_store ann (codes "h1") 1).store
        ((true, true, del_user ann) ∷ []))
    ≡ false
unfolding authstore_add_user saved too_long grow position find_user
add_user-shut_example =
    add_user-shut compiles true true fresh_store ann (codes "h1") 1
      ((true, true, del_user ann) ∷ []) refl

store-IsSmall : IsSmall store
unfolding history applied authstore_add_vhost authstore_add_user authstore_set_perm saved too_long
    grow position find_vhost find_user find_perm compile_row str_eq
store-IsSmall = record { vhosts = omega arith; users = omega arith; perms = omega arith }

authstore_load-file_bytes_example :
    (file : Bytes) × (s' : AuthStore) × (file_bytes store ≡ some file)
    × (authstore_load compiles (λ n. true) true fresh_store (codes "a.db") (some file) ≡ loaded s')
    × (s'.vhosts ≡ store.vhosts)
    × (s'.users ≡ store.users)
    × (s'.perms ≡ store.perms)
    × (s'.bootstrap_completed ≡ store.bootstrap_completed)
    × (s'.held ≡ false)
    × (s'.persist_path ≡ fitted 512 (codes "a.db"))
authstore_load-file_bytes_example =
    authstore_load-file_bytes compiles (λ n. true) true (λ n. refl) store (codes "a.db")
      (history-IsStore compiles fresh_store ops ops-IsOp fresh_store-IsStore) store-IsSmall

abbrev salt : Bytes
salt = 0 ∷ 1 ∷ 2 ∷ 3 ∷ 4 ∷ 5 ∷ 6 ∷ 7 ∷ 8 ∷ 9 ∷ 10 ∷ 11 ∷ 12 ∷ 13 ∷ 14 ∷ 255 ∷ []

salt-IsBytes : IsBytes salt
salt-IsBytes = ground arith

hash_matches-hash_password_example :
    (stored : Bytes) × (authstore_hash_password (some salt) (codes "secret") 128 ≡ some stored)
    × (hash_matches true stored (codes "secret") ≡ true)
    × ((hash_matches true stored (codes "guess") ≡ true) ↔ (
        pbkdf2_sha256 (codes "guess") salt auth_pbkdf2_iters
        ≡ pbkdf2_sha256 (codes "secret") salt auth_pbkdf2_iters))
hash_matches-hash_password_example =
    hash_matches-hash_password true salt (codes "secret") (codes "guess") 128 refl salt-IsBytes
      (omega arith)

-- A new name when the array is full and no memory is left: the call fails with the lock still held.
held_after_refusal :
    ((authstore_add_vhost false true fresh_store (codes "/")).ok ≡ false)
    × ((authstore_add_vhost false true fresh_store (codes "/")).store.held ≡ true)
unfolding authstore_add_vhost saved too_long grow position find_vhost
held_after_refusal = (refl, refl)

-- A file that ends after its first virtual host is refused, with that virtual host in the store.
truncated_file :
    authstore_load compiles
      (λ n. true)
      true
      fresh_store
      (codes "a.db")
      (some (65 ∷ 83 ∷ 84 ∷ 66 ∷ 0 ∷ 0 ∷ 0 ∷ 1 ∷ 0 ∷ 0 ∷ 0 ∷ 0 ∷ 0 ∷ 0 ∷ 0 ∷ 2 ∷ 0 ∷ 1 ∷ 47 ∷ []))
    ≡ refused (authstore_add_vhost true true fresh_store (codes "/")).store
unfolding authstore_load load_header load_vhosts get_u32 get_str authstore_add_vhost saved too_long
    grow position find_vhost
truncated_file = refl
