-- ===== src/Crypto/Tests.antt =====
-- Known digests.
use beaver_mq.Prelude.{◌≡◌, refl, [], ◌∷◌, replicate, codes}
use beaver_mq.Crypto.{
  block_words, next_word, schedule, sha256_round, rounds, sha256_block, absorb_blocks, padded_tail,
  digest_bytes, crypto_sha256, hmac_key, crypto_hmac_sha256,
}

-- The digest of "abc" in FIPS 180-4.
sha256_abc :
    crypto_sha256 (codes "abc")
    ≡ 186 ∷ 120 ∷ 22 ∷ 191 ∷ 143 ∷ 1 ∷ 207 ∷ 234 ∷ 65 ∷ 65 ∷ 64 ∷ 222 ∷ 93 ∷ 174 ∷ 34 ∷ 35 ∷ 176 ∷ 3
      ∷ 97 ∷ 163 ∷ 150 ∷ 23 ∷ 122 ∷ 156 ∷ 180 ∷ 16 ∷ 255 ∷ 97 ∷ 242 ∷ 0 ∷ 21 ∷ 173 ∷ []
unfolding block_words next_word schedule sha256_round rounds sha256_block absorb_blocks padded_tail
    digest_bytes crypto_sha256
sha256_abc = refl

-- HMAC with a key of more than one block.
hmac_long_key :
    crypto_hmac_sha256 (replicate 70 107) (codes "hello")
    ≡ 115 ∷ 71 ∷ 63 ∷ 147 ∷ 125 ∷ 76 ∷ 24 ∷ 30 ∷ 214 ∷ 170 ∷ 135 ∷ 206 ∷ 151 ∷ 214 ∷ 219 ∷ 125 ∷ 199
      ∷ 50 ∷ 225 ∷ 157 ∷ 212 ∷ 62 ∷ 96 ∷ 200 ∷ 171 ∷ 126 ∷ 227 ∷ 174 ∷ 210 ∷ 217 ∷ 244 ∷ 176 ∷ []
unfolding block_words next_word schedule sha256_round rounds sha256_block absorb_blocks padded_tail
    digest_bytes crypto_sha256 hmac_key crypto_hmac_sha256
hmac_long_key = refl
