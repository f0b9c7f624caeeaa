-- ===== src/HashMap/SipHash.antt =====
-- src/hashmap.c: SipHash-1-3 over the bytes of a key, on 64-bit words. The two words of the secret are
-- arguments: the source draws them at random once in a process.
use beaver_mq.Prelude.{
  ℕ, zero, suc, ◌+◌, ◌-◌, ◌*◌, ◌/◌, ◌%◌, ◌^◌, [], ◌∷◌, Bytes, length, take, drop, add_size,
}

-- Exclusive or, and inclusive or, of the lowest bits.
abbrev pub xor_bits : ℕ → ℕ → ℕ → ℕ
xor_bits zero a b = 0
xor_bits (suc n) a b = (a % 2 + b % 2) % 2 + 2 * xor_bits n (a / 2) (b / 2)

abbrev pub xor : ℕ → ℕ → ℕ
xor a b = xor_bits 64 a b

-- SIP_ROTL: the bits that the shift moves out come back at the bottom, so the `|` is a sum.
abbrev pub sip_rotl : ℕ → ℕ → ℕ
sip_rotl x b = x * 2 ^ b % 2 ^ 64 + x / 2 ^ (64 - b)

pub record Sip : Type 0 where
  pub v0 : ℕ
  pub v1 : ℕ
  pub v2 : ℕ
  pub v3 : ℕ

-- SIP_ROUND, a line of the macro at a time
unfoldable pub sip_round : Sip → Sip
sip_round s =
    let a0 = add_size s.v0 s.v1 in
    let a1 = xor (sip_rotl s.v1 13) a0 in
    let b0 = sip_rotl a0 32 in
    let a2 = add_size s.v2 s.v3 in
    let a3 = xor (sip_rotl s.v3 16) a2 in
    let c0 = add_size b0 a3 in
    let c3 = xor (sip_rotl a3 21) c0 in
    let c2 = add_size a2 a1 in
    let c1 = xor (sip_rotl a1 17) c2 in record { v0 = c0; v1 = c1; v2 = sip_rotl c2 32; v3 = c3 }

-- memcpy into a uint64_t on a little-endian machine; also the bytes that the switch gathers.
abbrev pub little : Bytes → ℕ
little [] = 0
little (b ∷ bs) = b + 256 * little bs

-- `v3 ^= m; SIP_ROUND(); v0 ^= m;`
unfoldable pub absorb : Sip → ℕ → Sip
unfolding sip_round
absorb s m = let r = sip_round (record s { v3 = xor s.v3 m }) in record r { v0 = xor r.v0 m }

-- The loop over the whole words, `inlen / 8` rounds, and what is left of the input.
unfoldable pub absorb_words : ℕ → Sip → Bytes → Sip × Bytes
unfolding absorb
absorb_words zero s bs = (s, bs)
absorb_words (suc n) s bs = absorb_words n (absorb s (little (take 8 bs))) (drop 8 bs)

unfoldable pub hash_str : ℕ → ℕ → Bytes → ℕ
unfolding absorb_words
hash_str k0 k1 key =
    let start : Sip = record {
      v0 = xor 8317987319222330741 k0;
      v1 = xor 7237128888997146477 k1;
      v2 = xor 7816392313619706465 k0;
      v3 = xor 8387220255154660723 k1;
    } in
    let (s, left) = absorb_words (length key / 8) start key in
    let b = length key % 256 * 2 ^ 56 + little left in
    let t = absorb s b in
    let u = record t { v2 = xor t.v2 255 } in
    let w = sip_round (sip_round (sip_round u)) in xor (xor (xor w.v0 w.v1) w.v2) w.v3
