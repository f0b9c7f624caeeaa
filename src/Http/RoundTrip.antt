-- ===== src/Http/RoundTrip.antt =====
-- src/main.c and src/http.c: Base64 read back.
use beaver_mq.Prelude.{
  ℕ, ◌+◌, ◌*◌, ◌/◌, ◌%◌, ◌^◌, ◌<◌, ◌≡◌, refl, ap, sym, ◌∙◌, false, none, some, [], ◌∷◌, ◌++◌,
  append_assoc, append-nil, Bytes, length, length-append, ltb, arith,
}
use beaver_mq.Crypto.Compare.{IsBytes}
use beaver_mq.Http.Base64.{
  b64_char, sextet, b64_group, b64_encode_loop, b64_encode, Decoding, go_on, b64_decode_loop,
  b64_decode, b64_decode_loop-char, taken_byte,
}

abbrev at : ℕ → ℕ → Bytes → Decoding
at acc bits out = record { acc = acc; bits = bits; out = out }

-- The accumulator after one more character.
abbrev then_acc : ℕ → ℕ → ℕ
then_acc acc v = (acc * 2 ^ 6 + v) % 2 ^ 24

-- The first two characters of a round give its first byte.
two_chars :
    (outcap a v0 v1 : ℕ) (rest : Bytes) (acc : ℕ) (out : Bytes)
    → v0 < 64
    → v1 < 64
    → v0 * 4 + v1 / 16 ≡ a
    → a < 256
    → length out + 1 < outcap
    → b64_decode_loop outcap (b64_char v0 ∷ b64_char v1 ∷ rest) (at acc 0 out)
      ≡ b64_decode_loop outcap rest (at (then_acc (then_acc acc v0) v1) 4 (out ++ a ∷ []))
two_chars outcap a v0 v1 rest acc out h0 h1 e small room =
    let byte : then_acc (then_acc acc v0) v1 / 2 ^ 4 % 2 ^ 8 ≡ a = omega arith in
    b64_decode_loop-char outcap v0 (b64_char v1 ∷ rest) (at acc 0 out) h0
    ∙ b64_decode_loop-char outcap v1 rest (at (then_acc acc v0) 6 out) h1
    ∙ ap (go_on (b64_decode_loop outcap rest))
        (taken_byte outcap v1 (then_acc acc v0) 6 out (omega arith) room)
    ∙ ap (λ x. b64_decode_loop outcap rest (at (then_acc (then_acc acc v0) v1) 4 (out ++ x ∷ [])))
        byte

third_char :
    (outcap b v2 : ℕ) (rest : Bytes) (acc : ℕ) (out : Bytes)
    → v2 < 64
    → acc % 16 * 16 + v2 / 4 ≡ b
    → length out + 1 < outcap
    → b64_decode_loop outcap (b64_char v2 ∷ rest) (at acc 4 out)
      ≡ b64_decode_loop outcap rest (at (then_acc acc v2) 2 (out ++ b ∷ []))
third_char outcap b v2 rest acc out h2 e room =
    let byte : then_acc acc v2 / 2 ^ 2 % 2 ^ 8 ≡ b = omega arith in
    b64_decode_loop-char outcap v2 rest (at acc 4 out) h2
    ∙ ap (go_on (b64_decode_loop outcap rest)) (taken_byte outcap v2 acc 4 out (omega arith) room)
    ∙ ap (λ x. b64_decode_loop outcap rest (at (then_acc acc v2) 2 (out ++ x ∷ []))) byte

fourth_char :
    (outcap c v3 : ℕ) (rest : Bytes) (acc : ℕ) (out : Bytes)
    → v3 < 64
    → acc % 4 * 64 + v3 ≡ c
    → length out + 1 < outcap
    → b64_decode_loop outcap (b64_char v3 ∷ rest) (at acc 2 out)
      ≡ b64_decode_loop outcap rest (at (then_acc acc v3) 0 (out ++ c ∷ []))
fourth_char outcap c v3 rest acc out h3 e room =
    let byte : then_acc acc v3 / 2 ^ 0 % 2 ^ 8 ≡ c = omega arith in
    b64_decode_loop-char outcap v3 rest (at acc 2 out) h3
    ∙ ap (go_on (b64_decode_loop outcap rest)) (taken_byte outcap v3 acc 2 out (omega arith) room)
    ∙ ap (λ x. b64_decode_loop outcap rest (at (then_acc acc v3) 0 (out ++ x ∷ []))) byte

-- The padding ends the text.
b64_decode_loop-end :
    (outcap : ℕ) (rest : Bytes) (s : Decoding) → b64_decode_loop outcap (61 ∷ rest) s ≡ some s.out
unfolding b64_decode_loop
b64_decode_loop-end outcap rest s = refl

b64_decode_loop-nil : (outcap : ℕ) (s : Decoding) → b64_decode_loop outcap [] s ≡ some s.out
unfolding b64_decode_loop
b64_decode_loop-nil outcap s = refl

push_three :
    (out : Bytes) (a b c : ℕ) (rest : Bytes)
    → out ++ a ∷ [] ++ b ∷ [] ++ c ∷ [] ++ rest ≡ out ++ a ∷ b ∷ c ∷ rest
push_three out a b c rest = simp append_assoc refl

length-push : (out : Bytes) (a : ℕ) → length (out ++ a ∷ []) ≡ length out + 1
length-push out a = length-append out (a ∷ [])

b64_decode_loop-encode :
    (bs : Bytes) (cap outcap o acc : ℕ) (out : Bytes)
    → IsBytes bs
    → o + (length bs + 2) / 3 * 4 < cap
    → length out + length bs < outcap
    → (text : Bytes) × (b64_encode_loop cap o bs ≡ some text)
      × (b64_decode_loop outcap text (at acc 0 out) ≡ some (out ++ bs))
unfolding b64_encode_loop b64_group
b64_decode_loop-encode [] cap outcap o acc out h room fits =
    ([], refl, b64_decode_loop-nil outcap (at acc 0 out) ∙ ap some (sym (append-nil out)))
b64_decode_loop-encode (a ∷ []) cap outcap o acc out h room fits =
    let some_left : ltb cap (o + 5) ≡ false = ground arith in
    let v0 = sextet (a * 2 ^ 16) 18 in
    let v1 = sextet (a * 2 ^ 16) 12 in
    let ha = h.0 in
    (
      b64_group a none none,
      rw some_left refl,
      two_chars outcap a v0 v1 (61 ∷ 61 ∷ []) acc out (omega arith) (omega arith) (omega arith) ha
            (omega arith)
          ∙ b64_decode_loop-end outcap (61 ∷ [])
              (at (then_acc (then_acc acc v0) v1) 4 (out ++ a ∷ [])),
    )
b64_decode_loop-encode (a ∷ b ∷ []) cap outcap o acc out h room fits =
    let some_left : ltb cap (o + 5) ≡ false = ground arith in
    let v = a * 2 ^ 16 + b * 2 ^ 8 in
    let v0 = sextet v 18 in
    let v1 = sextet v 12 in
    let v2 = sextet v 6 in
    let ha = h.0 in
    let hb = h.1.0 in
    let acc1 = then_acc (then_acc acc v0) v1 in
    let long = length-push out a in
    (
      b64_group a (some b) none,
      rw some_left refl,
      two_chars outcap a v0 v1 (b64_char v2 ∷ 61 ∷ []) acc out (omega arith) (omega arith)
            (omega arith) ha (omega arith)
          ∙ third_char outcap b v2 (61 ∷ []) acc1 (out ++ a ∷ []) (omega arith) (omega arith)
              (omega arith)
          ∙ b64_decode_loop-end outcap [] (at (then_acc acc1 v2) 2 (out ++ a ∷ [] ++ b ∷ []))
          ∙ ap some (append_assoc out (a ∷ []) (b ∷ [])),
    )
b64_decode_loop-encode (a ∷ b ∷ c ∷ rest) cap outcap o acc out h room fits =
    let some_left : ltb cap (o + 5) ≡ false = ground arith in
    let v = a * 2 ^ 16 + b * 2 ^ 8 + c in
    let v0 = sextet v 18 in
    let v1 = sextet v 12 in
    let v2 = sextet v 6 in
    let v3 = sextet v 0 in
    let ha = h.0 in
    let hb = h.1.0 in
    let hc = h.1.1.0 in
    let acc1 = then_acc (then_acc acc v0) v1 in
    let acc2 = then_acc acc1 v2 in
    let acc3 = then_acc acc2 v3 in
    let out1 = out ++ a ∷ [] in
    let out2 = out1 ++ b ∷ [] in
    let out3 = out2 ++ c ∷ [] in
    let long1 = length-push out a in
    let long2 = length-push out1 b in
    let long3 = length-push out2 c in
    let (text, written, read) =
      b64_decode_loop-encode rest cap outcap (o + 4) acc3 out3 h.1.1.1 (omega arith)
        (omega arith) in
    (
      b64_group a (some b) (some c) ++ text,
      rw (written, some_left) refl,
      two_chars outcap a v0 v1 (b64_char v2 ∷ b64_char v3 ∷ text) acc out (omega arith)
            (omega arith) (omega arith) ha (omega arith)
          ∙ third_char outcap b v2 (b64_char v3 ∷ text) acc1 out1 (omega arith) (omega arith)
              (omega arith)
          ∙ fourth_char outcap c v3 text acc2 out2 (omega arith) (omega arith) (omega arith)
          ∙ read
          ∙ ap some (push_three out a b c rest),
    )

-- What the command line encodes, into a buffer that holds it, the management API decodes to the same bytes, if they fit
-- its buffer with one to spare.
pub b64_decode-b64_encode :
    (bs : Bytes) (cap outcap : ℕ)
    → IsBytes bs
    → (length bs + 2) / 3 * 4 < cap
    → length bs < outcap
    → (text : Bytes) × (b64_encode bs cap ≡ some text) × (b64_decode text outcap ≡ some bs)
unfolding b64_encode b64_decode
b64_decode-b64_encode bs cap outcap h room fits =
    b64_decode_loop-encode bs cap outcap 0 0 [] h (omega arith) (omega arith)
