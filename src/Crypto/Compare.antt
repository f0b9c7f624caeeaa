-- ===== src/Crypto/Compare.antt =====
-- src/crypto.c: what the digest functions return, and the comparison in constant time against equality.
use beaver_mq.Prelude.{
  ℕ, zero, suc, ◌+◌, ◌/◌, ◌%◌, ◌^◌, ◌≤◌, ◌<◌, ◌≡◌, refl, ap, ◌↔◌, [], ◌∷◌, Bytes, All, length,
  get_or, take, drop, arith,
}
use beaver_mq.HashMap.SipHash.{xor_bits}
use beaver_mq.Crypto.{
  Digest, digest_bytes, crypto_sha256, crypto_hmac_sha256, or_bits, ct_loop, crypto_ct_memcmp,
}

-- Every element is a byte.
abbrev pub IsBytes : Bytes → Type 0
IsBytes = All (λ b. b < 256)

-- An exclusive or of n bits is 0 just when the bits are the same.
xor_bits_zero : (n a b : ℕ) → a < 2 ^ n → b < 2 ^ n → xor_bits n a b ≡ 0 → a ≡ b
xor_bits_zero zero a b ha hb e = omega arith
xor_bits_zero (suc n) a b ha hb e =
    let halves = xor_bits_zero n (a / 2) (b / 2) (omega arith) (omega arith) (omega arith) in
    omega arith

xor_bits_self : (n a : ℕ) → xor_bits n a a ≡ 0
xor_bits_self zero a = refl
xor_bits_self (suc n) a = omega (arith, xor_bits_self n (a / 2))

pub xor_bits_lt : (n a b : ℕ) → xor_bits n a b < 2 ^ n
xor_bits_lt zero a b = omega arith
xor_bits_lt (suc n) a b = omega (arith, xor_bits_lt n (a / 2) (b / 2))

or_bits_lt : (n a b : ℕ) → or_bits n a b < 2 ^ n
or_bits_lt zero a b = omega arith
or_bits_lt (suc n) a b = let rest = or_bits_lt n (a / 2) (b / 2) in ground arith

or_bits_zero : (n a b : ℕ) → a < 2 ^ n → b < 2 ^ n → or_bits n a b ≡ 0 → (a ≡ 0) × (b ≡ 0)
or_bits_zero zero a b ha hb e = (omega arith, omega arith)
or_bits_zero (suc n) a b ha hb e =
    let low : a % 2 + b % 2 ≡ 0 = ground arith in
    let high : or_bits n (a / 2) (b / 2) ≡ 0 = ground arith in
    let (x, y) = or_bits_zero n (a / 2) (b / 2) (omega arith) (omega arith) high in
    (omega arith, omega arith)

or_bits_none : (n : ℕ) → or_bits n 0 0 ≡ 0
or_bits_none zero = refl
or_bits_none (suc n) = omega (arith, or_bits_none n)

-- A difference once found stays.
ct_loop_zero :
    (n d : ℕ) (x y : Bytes)
    → d < 256
    → IsBytes x
    → IsBytes y
    → n ≤ length x
    → n ≤ length y
    → ct_loop n d x y ≡ 0
    → (d ≡ 0) × (take n x ≡ take n y)
unfolding ct_loop
ct_loop_zero zero d x y hd bx by lx ly e = (e, refl)
ct_loop_zero (suc n) d [] y hd bx by lx ly e = absurd (omega arith)
ct_loop_zero (suc n) d (a ∷ x) [] hd bx by lx ly e = absurd (omega arith)
ct_loop_zero (suc n) d (a ∷ x) (b ∷ y) hd bx by lx ly e =
    let (d', same) =
      ct_loop_zero n (or_bits 8 d (xor_bits 8 a b)) x y (or_bits_lt 8 d (xor_bits 8 a b)) bx.1 by.1
        (omega arith) (omega arith) e in
    let (dz, xz) = or_bits_zero 8 d (xor_bits 8 a b) hd (xor_bits_lt 8 a b) d' in
    let eq : a ≡ b = xor_bits_zero 8 a b bx.0 by.0 xz in (dz, rw (eq, same) refl)

ct_loop_same :
    (n : ℕ) (x y : Bytes) → n ≤ length x → n ≤ length y → take n x ≡ take n y → ct_loop n 0 x y ≡ 0
unfolding ct_loop
ct_loop_same zero x y lx ly e = refl
ct_loop_same (suc n) [] y lx ly e = absurd (omega arith)
ct_loop_same (suc n) (a ∷ x) [] lx ly e = absurd (omega arith)
ct_loop_same (suc n) (a ∷ x) (b ∷ y) lx ly e =
    let eq : a ≡ b = ap (λ l. get_or l 0 0) e in
    let rest : take n x ≡ take n y = ap (drop 1) e in
    rw (eq, xor_bits_self 8 b, or_bits_none 8) (ct_loop_same n x y (omega arith) (omega arith) rest)

-- On arrays of at least n bytes, the comparison in constant time returns 0 just when the first n bytes are the
-- same.
pub crypto_ct_memcmp_iff :
    (a b : Bytes) (n : ℕ)
    → IsBytes a
    → IsBytes b
    → n ≤ length a
    → n ≤ length b
    → (crypto_ct_memcmp a b n ≡ 0) ↔ (take n a ≡ take n b)
unfolding crypto_ct_memcmp
crypto_ct_memcmp_iff a b n ba bb la lb =
    (λ e. (ct_loop_zero n 0 a b (omega arith) ba bb la lb e).1, ct_loop_same n a b la lb)

-- A digest is 32 bytes.
digest_bytes-IsBytes : (s : Digest) → (length (digest_bytes s) ≡ 32) × IsBytes (digest_bytes s)
unfolding digest_bytes
digest_bytes-IsBytes s = ground arith

pub crypto_hmac_sha256-IsBytes :
    (key msg : Bytes)
    → (length (crypto_hmac_sha256 key msg) ≡ 32) × IsBytes (crypto_hmac_sha256 key msg)
unfolding crypto_hmac_sha256 crypto_sha256
crypto_hmac_sha256-IsBytes key msg = digest_bytes-IsBytes _
