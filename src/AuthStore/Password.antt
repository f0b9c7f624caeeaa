-- ===== src/AuthStore/Password.antt =====
-- src/authstore.c: the stored form of a password. What read_salt draws is an argument; a string holds
-- no 0, which `get_or` gives at its end.
use beaver_mq.Prelude.{
  ℕ, zero, suc, ◌+◌, ◌-◌, ◌*◌, ◌/◌, ◌%◌, Bool, false, not, ◌&&◌, ◌||◌, Option, none, some, [], ◌∷◌,
  ◌++◌, Bytes, codes, str_eq, length, get_or, take, drop, ltb, leb, ◌==◌, if◌then◌else◌,
}
use beaver_mq.HashMap.SipHash.{xor_bits}
use beaver_mq.Config.Number.{read_number, strtoul_value}
use beaver_mq.Crypto.{crypto_sha256, crypto_hmac_sha256, crypto_ct_memcmp}

abbrev pub hex_digit : ℕ → ℕ
hex_digit n = if ltb n 10 then 48 + n else 87 + n

unfoldable pub to_hex : Bytes → Bytes
to_hex [] = []
to_hex (b ∷ bs) = hex_digit (b / 16) ∷ hex_digit (b % 16) ∷ to_hex bs

-- `c | 32`
abbrev pub set_bit_5 : ℕ → ℕ
set_bit_5 c = if (c / 32) % 2 == 0 then c + 32 else c

unfoldable pub hexval : ℕ → Option ℕ
hexval c =
    if leb 48 c && leb c 57
    then some (c - 48)
    else if leb 97 (set_bit_5 c) && leb (set_bit_5 c) 102
    then some (set_bit_5 c - 87)
    else none

abbrev pub nibble : ℕ → Option ℕ
nibble c = if c == 0 then none else hexval c

abbrev pub joined : Option ℕ → Option ℕ → Option Bytes → Option Bytes
joined (some a) (some b) (some bs) = some ((a * 16 + b) ∷ bs)
joined _ _ _ = none

-- The `n` bytes, or none.
unfoldable pub from_hex : Bytes → ℕ → Option Bytes
unfolding hexval
from_hex s zero = some []
from_hex s (suc n) =
    let rest = from_hex (drop 2 s) n in joined (nibble (get_or s 0 0)) (nibble (get_or s 1 0)) rest

abbrev pub xor_each : Bytes → Bytes → Bytes
xor_each [] ys = []
xor_each (x ∷ xs) ys = xor_bits 8 x (get_or ys 0 0) ∷ xor_each xs (drop 1 ys)

-- The loop from i = 1 on, over `u` and `out`.
unfoldable pub pbkdf2_loop : ℕ → Bytes → Bytes → Bytes → Bytes
pbkdf2_loop zero pass u out = out
pbkdf2_loop (suc n) pass u out =
    let v = crypto_hmac_sha256 pass u in pbkdf2_loop n pass v (xor_each out v)

unfoldable pub pbkdf2_sha256 : Bytes → Bytes → ℕ → Bytes
unfolding pbkdf2_loop
pbkdf2_sha256 pass salt iters =
    let u = crypto_hmac_sha256 pass (salt ++ 0 ∷ 0 ∷ 0 ∷ 1 ∷ []) in pbkdf2_loop (iters - 1) pass u u

abbrev pub auth_pbkdf2_iters : ℕ
auth_pbkdf2_iters = 210000

abbrev pub authstore_hash_max : ℕ
authstore_hash_max = 128

-- snprintf "$p2$%u$%s$%s"; the number is the constant's.
abbrev pub stored_form : Bytes → Bytes → Bytes
stored_form sh dh = codes "$p2$210000$" ++ sh ++ 36 ∷ dh

-- `salt` is what read_salt gives, none when there is no random source.
unfoldable pub authstore_hash_password : Option Bytes → Bytes → ℕ → Option Bytes
unfolding to_hex
authstore_hash_password none password out_cap = none
authstore_hash_password (some salt) password out_cap =
    let dig = pbkdf2_sha256 password salt auth_pbkdf2_iters in
    if ltb out_cap authstore_hash_max
    then none
    else some (take (out_cap - 1) (stored_form (to_hex salt) (to_hex dig)))

-- The comparison of the digests, once both are read.
abbrev pub same_digest : Bytes → ℕ → Option Bytes → Option Bytes → Bool
same_digest password iters (some salt) (some want) =
    crypto_ct_memcmp (pbkdf2_sha256 password salt iters) want 32 == 0
same_digest password iters _ _ = false

-- From `sh` on: the salt, `$` and the digest.
unfoldable pub salted_matches : Bytes → ℕ → Bytes → Bool
salted_matches sh iters password =
    if not (length sh == 97) || not (get_or sh 32 0 == 36)
    then false
    else same_digest password iters (from_hex sh 16) (from_hex (drop 33 sh) 32)

-- The legacy form; `granted` is malloc's answer.
abbrev pub legacy_digest : Bool → Bytes → Option Bytes → Bool
legacy_digest granted password none = false
legacy_digest granted password (some blob) =
    granted && (crypto_ct_memcmp (crypto_sha256 (take 4 blob ++ password)) (drop 4 blob) 32 == 0)

unfoldable pub hash_matches : Bool → Bytes → Bytes → Bool
unfolding salted_matches
hash_matches granted stored password =
    let number = read_number (drop 4 stored) in
    let iters = strtoul_value number in
    if str_eq (take 4 stored) (codes "$p2$")
    then if not (get_or number.rest 0 0 == 36) || iters == 0 || ltb (10 * auth_pbkdf2_iters) iters
      then false
      else salted_matches (drop 1 number.rest) iters password
    else if ltb (length stored) 72
    then false
    else legacy_digest granted password (from_hex stored 36)

-- The arguments may be NULL.
unfoldable pub authstore_password_matches : Bool → Option Bytes → Option Bytes → Bool
authstore_password_matches granted (some (c ∷ stored)) (some password) =
    hash_matches granted (c ∷ stored) password
authstore_password_matches granted _ _ = false
