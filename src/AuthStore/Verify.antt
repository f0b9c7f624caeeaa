-- ===== src/AuthStore/Verify.antt =====
-- src/authstore.c: what a stored password accepts.
use beaver_mq.Prelude.{
  take_all, ℕ, zero, suc, ◌+◌, ◌-◌, ◌*◌, ◌/◌, ◌%◌, ◌≤◌, ◌<◌, ◌≡◌, refl, ap, sym, ◌∙◌, ◌↔◌, Bool,
  true, false, some, [], ◌∷◌, ◌++◌, Bytes, codes, str_eq, length, get_or, take, drop, ltb, ◌==◌,
  ==_iff, length-append, arith,
}
use beaver_mq.Config.Number.{skip_space, read_digits, read_number, strtoul_value}
use mathlib.Core.List.{append-nil}
use beaver_mq.AuthStore.Password.{authstore_hash_max}
use beaver_mq.Crypto.{crypto_hmac_sha256, crypto_ct_memcmp}
use beaver_mq.Crypto.Compare.{
  IsBytes, crypto_ct_memcmp_iff, crypto_hmac_sha256-IsBytes, xor_bits_lt,
}
use beaver_mq.AuthStore.Password.{
  hex_digit, to_hex, hexval, nibble, from_hex, xor_each, pbkdf2_loop, pbkdf2_sha256,
  auth_pbkdf2_iters, stored_form, authstore_hash_password, salted_matches, hash_matches,
}

nibble-hex_digit : (n : ℕ) → n < 16 → nibble (hex_digit n) ≡ some n
unfolding hexval
nibble-hex_digit n h = ground arith

length-to_hex : (bs : Bytes) → length (to_hex bs) ≡ length bs + length bs
unfolding to_hex
length-to_hex [] = refl
length-to_hex (b ∷ bs) = omega (arith, length-to_hex bs)

-- The hexadecimal text of bytes, with any text behind it, is read back as those bytes.
pub from_hex-to_hex :
    (bs rest : Bytes) → IsBytes bs → from_hex (to_hex bs ++ rest) (length bs) ≡ some bs
unfolding to_hex from_hex
from_hex-to_hex [] rest h = refl
from_hex-to_hex (b ∷ bs) rest (hb, h) =
    let back : b / 16 * 16 + b % 16 ≡ b = omega arith in
    rw
      (
        nibble-hex_digit (b / 16) (omega arith),
        nibble-hex_digit (b % 16) (omega arith),
        from_hex-to_hex bs rest h,
        back,
      )
      refl

xor_each-IsBytes :
    (xs ys : Bytes) → (length (xor_each xs ys) ≡ length xs) × IsBytes (xor_each xs ys)
xor_each-IsBytes [] ys = (refl, tt)
xor_each-IsBytes (x ∷ xs) ys =
    let (l, b) = xor_each-IsBytes xs (drop 1 ys) in (ap suc l, (xor_bits_lt 8 x (get_or ys 0 0), b))

pbkdf2_loop-IsBytes :
    (n : ℕ) (pass u out : Bytes)
    → (length out ≡ 32) × IsBytes out
    → (length (pbkdf2_loop n pass u out) ≡ 32) × IsBytes (pbkdf2_loop n pass u out)
unfolding pbkdf2_loop
pbkdf2_loop-IsBytes zero pass u out h = h
pbkdf2_loop-IsBytes (suc n) pass u out h =
    let v = crypto_hmac_sha256 pass u in
    let (l, b) = xor_each-IsBytes out v in
    pbkdf2_loop-IsBytes n pass v (xor_each out v) (l ∙ h.0, b)

-- The derived key is 32 bytes, whatever the salt and the number of iterations.
pub pbkdf2_sha256-IsBytes :
    (pass salt : Bytes) (iters : ℕ)
    → (length (pbkdf2_sha256 pass salt iters) ≡ 32) × IsBytes (pbkdf2_sha256 pass salt iters)
unfolding pbkdf2_sha256
pbkdf2_sha256-IsBytes pass salt iters =
    let u = crypto_hmac_sha256 pass (salt ++ 0 ∷ 0 ∷ 0 ∷ 1 ∷ []) in
    pbkdf2_loop-IsBytes (iters - 1) pass u u
      (crypto_hmac_sha256-IsBytes pass (salt ++ 0 ∷ 0 ∷ 0 ∷ 1 ∷ []))

-- What is behind the number in the stored form.
abbrev salted : Bytes → Bytes → Bytes
salted salt dig = to_hex salt ++ 36 ∷ to_hex dig

length-salted :
    (salt dig : Bytes) → length salt ≡ 16 → length dig ≡ 32 → length (salted salt dig) ≡ 97
length-salted salt dig hs hd =
    omega
      (arith, length-append (to_hex salt) (36 ∷ to_hex dig), length-to_hex salt, length-to_hex dig)

get_or_behind : (xs ys : Bytes) (n : ℕ) → n ≡ length xs → get_or (xs ++ ys) n 0 ≡ get_or ys 0 0
get_or_behind [] ys zero e = refl
get_or_behind [] ys (suc n) e = absurd (omega arith)
get_or_behind (x ∷ xs) ys zero e = absurd (omega arith)
get_or_behind (x ∷ xs) ys (suc n) e = get_or_behind xs ys n (omega arith)

drop_behind :
    (xs : Bytes) (y : ℕ) (ys : Bytes) (n : ℕ) → n ≡ length xs + 1 → drop n (xs ++ y ∷ ys) ≡ ys
drop_behind [] y ys zero e = absurd (omega arith)
drop_behind [] y ys (suc zero) e = refl
drop_behind [] y ys (suc (suc n)) e = absurd (omega arith)
drop_behind (x ∷ xs) y ys zero e = absurd (omega arith)
drop_behind (x ∷ xs) y ys (suc n) e = drop_behind xs y ys n (omega arith)

from_hex_salt :
    (salt rest : Bytes)
    → length salt ≡ 16
    → IsBytes salt
    → from_hex (to_hex salt ++ rest) 16 ≡ some salt
from_hex_salt salt rest l h = rw (← l) (from_hex-to_hex salt rest h)

from_hex_digest :
    (dig : Bytes) → length dig ≡ 32 → IsBytes dig → from_hex (to_hex dig) 32 ≡ some dig
from_hex_digest dig l h = rw (← l, ← append-nil (to_hex dig)) (from_hex-to_hex dig [] h)

salted_matches_lem :
    (salt dig password : Bytes) (iters : ℕ)
    → length salt ≡ 16
    → IsBytes salt
    → length dig ≡ 32
    → IsBytes dig
    → salted_matches (salted salt dig) iters password
      ≡ (crypto_ct_memcmp (pbkdf2_sha256 password salt iters) dig 32 == 0)
unfolding salted_matches
salted_matches_lem salt dig password iters ls hs ld hd =
    let len = length-to_hex salt in
    rw
      (
        length-salted salt dig ls ld,
        get_or_behind (to_hex salt) (36 ∷ to_hex dig) 32 (omega arith),
        drop_behind (to_hex salt) 36 (to_hex dig) 33 (omega arith),
        from_hex_salt salt (36 ∷ to_hex dig) ls hs,
        from_hex_digest dig ld hd,
      )
      refl

-- The number in the stored form is the constant, and `$` is behind it.
read_iters :
    (rest : Bytes)
    → let n = read_number (codes "210000$" ++ rest) in
      (strtoul_value n ≡ auth_pbkdf2_iters) × (n.rest ≡ 36 ∷ rest)
unfolding read_number skip_space read_digits
read_iters rest = (refl, refl)

hash_matches-salted :
    (granted : Bool) (salt dig password : Bytes)
    → hash_matches granted (stored_form (to_hex salt) (to_hex dig)) password
      ≡ salted_matches (salted salt dig) auth_pbkdf2_iters password
unfolding hash_matches str_eq
hash_matches-salted granted salt dig password =
    let (value, rest) = read_iters (salted salt dig) in rw (value, rest) refl

length-stored_form :
    (salt dig : Bytes)
    → length salt ≡ 16
    → length dig ≡ 32
    → length (stored_form (to_hex salt) (to_hex dig)) ≡ 108
length-stored_form salt dig ls ld = omega (arith, length-salted salt dig ls ld)

-- A salt and a password stored with it: the form, in full.
hash_password_lem :
    (salt password : Bytes) (out_cap : ℕ)
    → length salt ≡ 16
    → authstore_hash_max ≤ out_cap
    → authstore_hash_password (some salt) password out_cap
      ≡ some (stored_form (to_hex salt) (to_hex (pbkdf2_sha256 password salt auth_pbkdf2_iters)))
unfolding authstore_hash_password
hash_password_lem salt password out_cap ls cap =
    let dig = pbkdf2_sha256 password salt auth_pbkdf2_iters in
    let (ld, hd) = pbkdf2_sha256-IsBytes password salt auth_pbkdf2_iters in
    let long = length-stored_form salt dig ls ld in
    let whole : take (out_cap - 1) (stored_form (to_hex salt) (to_hex dig))
        ≡ stored_form (to_hex salt) (to_hex dig) =
      take_all _ (out_cap - 1) (omega arith) in
    let roomy : ltb out_cap authstore_hash_max ≡ false = ground arith in rw (roomy, whole) refl

hash_matches_stored :
    (granted : Bool) (salt dig password : Bytes)
    → length salt ≡ 16
    → IsBytes salt
    → length dig ≡ 32
    → IsBytes dig
    → (hash_matches granted (stored_form (to_hex salt) (to_hex dig)) password ≡ true)
      ↔ (pbkdf2_sha256 password salt auth_pbkdf2_iters ≡ dig)
hash_matches_stored granted salt dig password ls hs ld hd =
    let got = pbkdf2_sha256 password salt auth_pbkdf2_iters in
    let (lg, hg) = pbkdf2_sha256-IsBytes password salt auth_pbkdf2_iters in
    let same = crypto_ct_memcmp_iff got dig 32 hg hd (omega arith) (omega arith) in
    let read =
      hash_matches-salted granted salt dig password
      ∙ salted_matches_lem salt dig password auth_pbkdf2_iters ls hs ld hd in
    let tg = take_all got 32 (omega arith) in
    let td = take_all dig 32 (omega arith) in
    let zero_iff = ==_iff (crypto_ct_memcmp got dig 32) 0 in
    (
      λ e. sym tg ∙ same.0 (zero_iff.0 (sym read ∙ e)) ∙ td,
      λ e. read ∙ zero_iff.1 (same.1 (tg ∙ e ∙ sym td)),
    )

-- A password is stored when the salt of 16 bytes was drawn and the buffer is large enough. What is stored accepts that
-- password, and of the others just those with the same PBKDF2 digest under that salt.
pub hash_matches-hash_password :
    (granted : Bool) (salt password other : Bytes) (out_cap : ℕ)
    → length salt ≡ 16
    → IsBytes salt
    → authstore_hash_max ≤ out_cap
    → (stored : Bytes) × (authstore_hash_password (some salt) password out_cap ≡ some stored)
      × (hash_matches granted stored password ≡ true)
      × ((hash_matches granted stored other ≡ true) ↔ (
          pbkdf2_sha256 other salt auth_pbkdf2_iters
          ≡ pbkdf2_sha256 password salt auth_pbkdf2_iters))
hash_matches-hash_password granted salt password other out_cap ls hs cap =
    let dig = pbkdf2_sha256 password salt auth_pbkdf2_iters in
    let (ld, hd) = pbkdf2_sha256-IsBytes password salt auth_pbkdf2_iters in
    (
      stored_form (to_hex salt) (to_hex dig),
      hash_password_lem salt password out_cap ls cap,
      (hash_matches_stored granted salt dig password ls hs ld hd).1 refl,
      hash_matches_stored granted salt dig other ls hs ld hd,
    )
