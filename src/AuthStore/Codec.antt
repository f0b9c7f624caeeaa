-- ===== src/AuthStore/Codec.antt =====
-- src/authstore.c: the parts of the file, written and read back.
use beaver_mq.Prelude.{
  ℕ, ◌+◌, ◌-◌, ◌*◌, ◌/◌, ◌%◌, ◌^◌, ◌<◌, ◌≤◌, ◌≡◌, refl, Bool, false, some, List, [], ◌∷◌, ◌++◌,
  Bytes, All, length, length-append, take_append, drop_append, ltb, leb, arith,
}
use beaver_mq.AuthStore.Password.{authstore_hash_max}
use beaver_mq.AuthStore.State.{authstore_name_max, authstore_regex_max, User, Perm, AuthStore}
use beaver_mq.AuthStore.File.{
  put_u32, put_str, put_vhosts, put_users, put_perms, file_bytes, flag, authstore_db_magic,
  authstore_db_version, get_u32, get_str,
}
use beaver_mq.AuthStore.Load.{user_fields, perm_fields}
use beaver_mq.AuthStore.Invariant.{IsVhost, IsUser, IsPerm}

pub get_u32-put_u32 :
    (v : ℕ) (rest : Bytes) → v < 2 ^ 32 → get_u32 (put_u32 v ++ rest) ≡ some (v, rest)
unfolding get_u32 put_u32
get_u32-put_u32 v rest h =
    let long : ltb (length (put_u32 v ++ rest)) 4 ≡ false = ground arith in
    let back : v / 2 ^ 24 % 256 * 2 ^ 24
          + v / 2 ^ 16 % 256 * 2 ^ 16
          + v / 2 ^ 8 % 256 * 2 ^ 8
          + v % 256
        ≡ v =
      omega arith in
    rw (long, back) refl

-- A string with its length in front.
abbrev pub str_bytes : Bytes → Bytes
str_bytes s = (length s / 2 ^ 8 % 256) ∷ (length s % 256) ∷ s

pub put_str_lem : (s : Bytes) → length s < 256 → put_str s ≡ some (str_bytes s)
unfolding put_str
put_str_lem s h = ground arith

pub get_str-str_bytes :
    (s rest : Bytes) (cap : ℕ)
    → length s < cap
    → cap ≤ 256
    → get_str cap (str_bytes s ++ rest) ≡ some (s, rest)
unfolding get_str
get_str-str_bytes s rest cap h k =
    let back : length s / 2 ^ 8 % 256 * 256 + length s % 256 ≡ length s = omega arith in
    let sized = length-append s rest in
    let long : ltb (length (str_bytes s ++ rest)) 2 ≡ false = ground arith in
    let fits : leb cap (length s) ≡ false = ground arith in
    let whole : ltb (length (str_bytes s ++ rest) - 2) (length s) ≡ false = ground arith in
    rw (back, long, fits, whole, take_append s rest, drop_append s rest) refl

abbrev pub vhosts_bytes : List Bytes → Bytes
vhosts_bytes [] = []
vhosts_bytes (v ∷ vs) = str_bytes v ++ vhosts_bytes vs

abbrev pub users_bytes : List User → Bytes
users_bytes [] = []
users_bytes (u ∷ us) =
    str_bytes u.name ++ (str_bytes u.hash ++ (put_u32 u.tags ++ (users_bytes us)))

abbrev pub perms_bytes : List Perm → Bytes
perms_bytes [] = []
perms_bytes (p ∷ ps) =
    str_bytes p.user
    ++ (str_bytes p.vhost
        ++ (str_bytes p.conf ++ (str_bytes p.wr ++ (str_bytes p.rd ++ (perms_bytes ps)))))

put_vhosts_lem : (vs : List Bytes) → All IsVhost vs → put_vhosts vs ≡ some (vhosts_bytes vs)
unfolding put_vhosts
put_vhosts_lem [] a = refl
put_vhosts_lem (v ∷ vs) (h, a) = rw (put_str_lem v (omega arith), put_vhosts_lem vs a) refl

put_users_lem : (us : List User) → All IsUser us → put_users us ≡ some (users_bytes us)
unfolding put_users
put_users_lem [] a = refl
put_users_lem (u ∷ us) (h, a) =
    let hn = h.name in
    let hh = h.hash in
    rw (put_str_lem u.name (omega arith), put_str_lem u.hash (omega arith), put_users_lem us a) refl

put_perms_lem :
    (compiles : Bytes → Bool) (ps : List Perm)
    → All (IsPerm compiles) ps
    → put_perms ps ≡ some (perms_bytes ps)
unfolding put_perms
put_perms_lem compiles [] a = refl
put_perms_lem compiles (p ∷ ps) (h, a) =
    let hu = h.user in
    let hv = h.vhost in
    rw
      (
        put_str_lem p.user (omega arith),
        put_str_lem p.vhost (omega arith),
        put_str_lem p.conf h.conf,
        put_str_lem p.wr h.wr,
        put_str_lem p.rd h.rd,
        put_perms_lem compiles ps a,
      )
      refl

-- What is behind the header: the three tables, each with its count.
abbrev pub tables : AuthStore → Bytes
tables s =
    put_u32 (length s.vhosts % 2 ^ 32)
    ++ (vhosts_bytes s.vhosts
        ++ (put_u32 (length s.users % 2 ^ 32)
            ++ (users_bytes s.users
                ++ (put_u32 (length s.perms % 2 ^ 32) ++ (perms_bytes s.perms)))))

pub file_bytes_lem :
    (compiles : Bytes → Bool) (s : AuthStore)
    → All IsVhost s.vhosts
    → All IsUser s.users
    → All (IsPerm compiles) s.perms
    → file_bytes s
      ≡ some (
          put_u32 authstore_db_magic
          ++ put_u32 authstore_db_version
          ++ put_u32 (flag s.bootstrap_completed)
          ++ tables s)
unfolding file_bytes put_u32
file_bytes_lem compiles s hv hu hp =
    rw (put_vhosts_lem s.vhosts hv, put_users_lem s.users hu, put_perms_lem compiles s.perms hp)
      refl

-- ---- the rows read back
pub user_fields_lem :
    (u : User) (rest : Bytes)
    → IsUser u
    → user_fields (str_bytes u.name ++ (str_bytes u.hash ++ (put_u32 u.tags ++ (rest))))
      ≡ some ((u.name, u.hash, u.tags), rest)
user_fields_lem u rest h =
    rw
      (
        get_str-str_bytes u.name (str_bytes u.hash ++ (put_u32 u.tags ++ rest)) authstore_name_max
            h.name (omega arith),
        get_str-str_bytes u.hash (put_u32 u.tags ++ rest) authstore_hash_max h.hash (omega arith),
        get_u32-put_u32 u.tags rest h.tags,
      )
      refl

pub perm_fields_lem :
    (compiles : Bytes → Bool) (p : Perm) (rest : Bytes)
    → IsPerm compiles p
    → perm_fields (
        str_bytes p.user
        ++ (str_bytes p.vhost
            ++ (str_bytes p.conf ++ (str_bytes p.wr ++ (str_bytes p.rd ++ rest)))))
      ≡ some ((p.user, p.vhost, p.conf, p.wr, p.rd), rest)
perm_fields_lem compiles p rest h =
    let d = str_bytes p.rd ++ rest in
    let w = str_bytes p.wr ++ d in
    let c = str_bytes p.conf ++ w in
    let v = str_bytes p.vhost ++ c in
    rw
      (
        get_str-str_bytes p.user v authstore_name_max h.user (omega arith),
        get_str-str_bytes p.vhost c authstore_name_max h.vhost (omega arith),
        get_str-str_bytes p.conf w authstore_regex_max h.conf (omega arith),
        get_str-str_bytes p.wr d authstore_regex_max h.wr (omega arith),
        get_str-str_bytes p.rd rest authstore_regex_max h.rd (omega arith),
      )
      refl
