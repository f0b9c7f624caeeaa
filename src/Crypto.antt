-- ===== src/Crypto.antt =====
-- src/crypto.c: SHA-256, HMAC-SHA256 and the comparison in constant time. Words are of 32 bits and wrap.
mod Tests
pub mod Compare
use beaver_mq.Prelude.{
  ℕ, zero, suc, ◌+◌, ◌-◌, ◌*◌, ◌/◌, ◌%◌, ◌^◌, List, [], ◌∷◌, ◌++◌, Bytes, length, get_or, take,
  drop, replicate, leb, ltb, if◌then◌else◌,
}
use beaver_mq.HashMap.SipHash.{xor_bits}

-- ---- words of 32 bits
abbrev pub add32 : ℕ → ℕ → ℕ
add32 a b = (a + b) % 2 ^ 32

abbrev pub xor32 : ℕ → ℕ → ℕ
xor32 a b = xor_bits 32 a b

-- The lowest bits of `a & b`.
abbrev pub and_bits : ℕ → ℕ → ℕ → ℕ
and_bits zero a b = 0
and_bits (suc n) a b = (a % 2) * (b % 2) + 2 * and_bits n (a / 2) (b / 2)

abbrev pub and32 : ℕ → ℕ → ℕ
and32 a b = and_bits 32 a b

abbrev pub not32 : ℕ → ℕ
not32 a = 2 ^ 32 - 1 - a

-- The bits that the shift moves out come back at the top, so the `|` is a sum.
abbrev pub ror : ℕ → ℕ → ℕ
ror x n = x / 2 ^ n + x * 2 ^ (32 - n) % 2 ^ 32

abbrev pub round_constants : List ℕ
round_constants =
    1116352408 ∷ 1899447441 ∷ 3049323471 ∷ 3921009573 ∷ 961987163 ∷ 1508970993 ∷ 2453635748
    ∷ 2870763221 ∷ 3624381080 ∷ 310598401 ∷ 607225278 ∷ 1426881987 ∷ 1925078388 ∷ 2162078206
    ∷ 2614888103 ∷ 3248222580 ∷ 3835390401 ∷ 4022224774 ∷ 264347078 ∷ 604807628 ∷ 770255983
    ∷ 1249150122 ∷ 1555081692 ∷ 1996064986 ∷ 2554220882 ∷ 2821834349 ∷ 2952996808 ∷ 3210313671
    ∷ 3336571891 ∷ 3584528711 ∷ 113926993 ∷ 338241895 ∷ 666307205 ∷ 773529912 ∷ 1294757372
    ∷ 1396182291 ∷ 1695183700 ∷ 1986661051 ∷ 2177026350 ∷ 2456956037 ∷ 2730485921 ∷ 2820302411
    ∷ 3259730800 ∷ 3345764771 ∷ 3516065817 ∷ 3600352804 ∷ 4094571909 ∷ 275423344 ∷ 430227734
    ∷ 506948616 ∷ 659060556 ∷ 883997877 ∷ 958139571 ∷ 1322822218 ∷ 1537002063 ∷ 1747873779
    ∷ 1955562222 ∷ 2024104815 ∷ 2227730452 ∷ 2361852424 ∷ 2428436474 ∷ 2756734187 ∷ 3204031479
    ∷ 3329325298 ∷ []

-- The first 16 words of `w`, from the block at `p`.
unfoldable pub block_words : ℕ → Bytes → List ℕ
block_words zero p = []
block_words (suc n) p =
    (get_or p 0 0 * 2 ^ 24 + get_or p 1 0 * 2 ^ 16 + get_or p 2 0 * 256 + get_or p 3 0)
    ∷ block_words n (drop 4 p)

-- w[i], from the words before it
unfoldable pub next_word : List ℕ → ℕ → ℕ
next_word w i =
    let a = get_or w (i - 15) 0 in
    let b = get_or w (i - 2) 0 in
    let s0 = xor32 (xor32 (ror a 7) (ror a 18)) (a / 2 ^ 3) in
    let s1 = xor32 (xor32 (ror b 17) (ror b 19)) (b / 2 ^ 10) in
    add32 (add32 (add32 (get_or w (i - 16) 0) s0) (get_or w (i - 7) 0)) s1

unfoldable pub schedule : ℕ → ℕ → List ℕ → List ℕ
unfolding next_word
schedule zero i w = w
schedule (suc n) i w = schedule n (i + 1) (w ++ next_word w i ∷ [])

-- c->s[0..7], and the loop variables a to h
pub record Digest : Type 0 where
  pub a : ℕ
  pub b : ℕ
  pub c : ℕ
  pub d : ℕ
  pub e : ℕ
  pub f : ℕ
  pub g : ℕ
  pub h : ℕ

unfoldable pub sha256_round : Digest → ℕ → ℕ → Digest
sha256_round s k w =
    let s1 = xor32 (xor32 (ror s.e 6) (ror s.e 11)) (ror s.e 25) in
    let ch = xor32 (and32 s.e s.f) (and32 (not32 s.e) s.g) in
    let t1 = add32 (add32 (add32 (add32 s.h s1) ch) k) w in
    let s0 = xor32 (xor32 (ror s.a 2) (ror s.a 13)) (ror s.a 22) in
    let maj = xor32 (xor32 (and32 s.a s.b) (and32 s.a s.c)) (and32 s.b s.c) in
    let t2 = add32 s0 maj in
    record {
      a = add32 t1 t2;
      b = s.a;
      c = s.b;
      d = s.c;
      e = add32 s.d t1;
      f = s.e;
      g = s.f;
      h = s.g;
    }

-- The 64 rounds, over the constants and the words side by side.
unfoldable pub rounds : List ℕ → List ℕ → Digest → Digest
unfolding sha256_round
rounds [] ws s = s
rounds (k ∷ ks) [] s = s
rounds (k ∷ ks) (w ∷ ws) s = rounds ks ws (sha256_round s k w)

unfoldable pub sha256_block : Digest → Bytes → Digest
unfolding block_words schedule rounds
sha256_block s p =
    let r = rounds round_constants (schedule 48 16 (block_words 16 p)) s in
    record {
      a = add32 s.a r.a;
      b = add32 s.b r.b;
      c = add32 s.c r.c;
      d = add32 s.d r.d;
      e = add32 s.e r.e;
      f = add32 s.f r.f;
      g = add32 s.g r.g;
      h = add32 s.h r.h;
    }

abbrev pub initial_digest : Digest
initial_digest = record {
  a = 1779033703;
  b = 3144134277;
  c = 1013904242;
  d = 2773480762;
  e = 1359893119;
  f = 2600822924;
  g = 528734635;
  h = 1541459225;
}

-- One call of sha256_block for each 64 bytes; what is left at the end is not read.
unfoldable pub absorb_blocks : ℕ → Digest → Bytes → Digest
unfolding sha256_block
absorb_blocks zero s bs = s
absorb_blocks (suc n) s bs = absorb_blocks n (sha256_block s (take 64 bs)) (drop 64 bs)

-- The last bytes, 0x80, the zeros and the length in bits.
unfoldable pub padded_tail : ℕ → Bytes → Bytes
padded_tail len rest =
    let t = length rest + 1 in
    let bits = len * 8 % 2 ^ 64 in
    rest
    ++ 128 ∷ replicate (if leb t 56 then 56 - t else 120 - t) 0
    ++ (bits / 2 ^ 56 % 256)
      ∷ (bits / 2 ^ 48 % 256)
      ∷ (bits / 2 ^ 40 % 256)
      ∷ (bits / 2 ^ 32 % 256)
      ∷ (bits / 2 ^ 24 % 256)
      ∷ (bits / 2 ^ 16 % 256)
      ∷ (bits / 2 ^ 8 % 256)
      ∷ (bits % 256)
      ∷ []

abbrev pub word_bytes : ℕ → Bytes
word_bytes v = (v / 2 ^ 24 % 256) ∷ (v / 2 ^ 16 % 256) ∷ (v / 2 ^ 8 % 256) ∷ (v % 256) ∷ []

unfoldable pub digest_bytes : Digest → Bytes
digest_bytes s =
    word_bytes s.a
    ++ word_bytes s.b
    ++ word_bytes s.c
    ++ word_bytes s.d
    ++ word_bytes s.e
    ++ word_bytes s.f
    ++ word_bytes s.g
    ++ word_bytes s.h

unfoldable pub crypto_sha256 : Bytes → Bytes
unfolding absorb_blocks padded_tail digest_bytes
crypto_sha256 msg =
    let whole = length msg / 64 in
    let tail = padded_tail (length msg) (drop (whole * 64) msg) in
    digest_bytes (absorb_blocks (length tail / 64) (absorb_blocks whole initial_digest msg) tail)

-- The key hashed down when it is over 64 bytes, with zeros behind it.
unfoldable pub hmac_key : Bytes → Bytes
unfolding crypto_sha256
hmac_key key =
    let k = if ltb 64 (length key) then crypto_sha256 key else key in
    k ++ replicate (64 - length k) 0

abbrev pub xor_pad : ℕ → Bytes → Bytes
xor_pad pad [] = []
xor_pad pad (b ∷ bs) = xor_bits 8 b pad ∷ xor_pad pad bs

-- `buf` holds 64 bytes of message: every caller passes at most 64.
unfoldable pub crypto_hmac_sha256 : Bytes → Bytes → Bytes
unfolding crypto_sha256 hmac_key
crypto_hmac_sha256 key msg =
    let k = hmac_key key in crypto_sha256 (xor_pad 92 k ++ crypto_sha256 (xor_pad 54 k ++ msg))

-- `d |= x[i] ^ y[i]` over the first `n` bytes; the result is `d`.
abbrev pub or_bits : ℕ → ℕ → ℕ → ℕ
or_bits zero a b = 0
or_bits (suc n) a b = (if ltb 0 (a % 2 + b % 2) then 1 else 0) + 2 * or_bits n (a / 2) (b / 2)

unfoldable pub ct_loop : ℕ → ℕ → Bytes → Bytes → ℕ
ct_loop zero d x y = d
ct_loop (suc n) d x y =
    ct_loop n (or_bits 8 d (xor_bits 8 (get_or x 0 0) (get_or y 0 0))) (drop 1 x) (drop 1 y)

unfoldable pub crypto_ct_memcmp : Bytes → Bytes → ℕ → ℕ
unfolding ct_loop
crypto_ct_memcmp a b n = ct_loop n 0 a b
