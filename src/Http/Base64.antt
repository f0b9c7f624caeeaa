-- ===== src/Http/Base64.antt =====
-- src/main.c and src/http.c: Base64, written by the command line and read by the management API.
use beaver_mq.Prelude.{
  ℕ, ◌+◌, ◌-◌, ◌*◌, ◌/◌, ◌%◌, ◌^◌, ◌≤◌, ◌<◌, ◌≡◌, refl, true, false, ◌&&◌, Option, none, some, [],
  ◌∷◌, ◌++◌, Bytes, length, ltb, leb, ◌==◌, if◌then◌else◌, arith,
}

-- T[n]
unfoldable pub b64_char : ℕ → ℕ
b64_char n =
    if ltb n 26
    then 65 + n
    else if ltb n 52
    then 71 + n
    else if ltb n 62
    then n - 4
    else if n == 62
    then 43
    else 47

abbrev pub sextet : ℕ → ℕ → ℕ
sextet v shift = v / 2 ^ shift % 64

-- The characters of one round, of one, two or three bytes left.
unfoldable pub b64_group : ℕ → Option ℕ → Option ℕ → Bytes
unfolding b64_char
b64_group a none c =
    b64_char (sextet (a * 2 ^ 16) 18) ∷ b64_char (sextet (a * 2 ^ 16) 12) ∷ 61 ∷ 61 ∷ []
b64_group a (some b) none =
    let v = a * 2 ^ 16 + b * 2 ^ 8 in
    b64_char (sextet v 18) ∷ b64_char (sextet v 12) ∷ b64_char (sextet v 6) ∷ 61 ∷ []
b64_group a (some b) (some c) =
    let v = a * 2 ^ 16 + b * 2 ^ 8 + c in
    b64_char (sextet v 18)
    ∷ b64_char (sextet v 12)
    ∷ b64_char (sextet v 6)
    ∷ b64_char (sextet v 0)
    ∷ []

abbrev pub put_group : ℕ → ℕ → Bytes → Option Bytes → Option Bytes
put_group cap o group none = none
put_group cap o group (some rest) = if ltb cap (o + 5) then none else some (group ++ rest)

-- The loop from output index `o` on; none is -1.
unfoldable pub b64_encode_loop : ℕ → ℕ → Bytes → Option Bytes
unfolding b64_group
b64_encode_loop cap o [] = some []
b64_encode_loop cap o (a ∷ []) = put_group cap o (b64_group a none none) (some [])
b64_encode_loop cap o (a ∷ b ∷ []) = put_group cap o (b64_group a (some b) none) (some [])
b64_encode_loop cap o (a ∷ b ∷ c ∷ rest) =
    put_group cap o (b64_group a (some b) (some c)) (b64_encode_loop cap (o + 4) rest)

unfoldable pub b64_encode : Bytes → ℕ → Option Bytes
unfolding b64_encode_loop
b64_encode bs cap = b64_encode_loop cap 0 bs

unfoldable pub b64_val : ℕ → Option ℕ
b64_val ch =
    if leb 65 ch && leb ch 90
    then some (ch - 65)
    else if leb 97 ch && leb ch 122
    then some (ch - 97 + 26)
    else if leb 48 ch && leb ch 57
    then some (ch - 48 + 52)
    else if ch == 43
    then some 62
    else if ch == 47
    then some 63
    else none

-- The loop variables; `o` is the length of `out`.
pub record Decoding : Type 0 where
  pub acc : ℕ
  pub bits : ℕ
  pub out : Bytes

-- One round: none is the `return 0` on a wrong character or a full buffer.
abbrev pub taken : ℕ → Decoding → Option ℕ → Option Decoding
taken outcap s none = none
taken outcap s (some v) =
    let acc = (s.acc * 2 ^ 6 + v) % 2 ^ 24 in
    let bits = s.bits + 6 in
    if leb 8 bits
    then if leb outcap (length s.out + 1)
      then none
      else some
          record { acc = acc; bits = bits - 8; out = s.out ++ (acc / 2 ^ (bits - 8) % 2 ^ 8) ∷ [] }
    else some record { acc = acc; bits = bits; out = s.out }

abbrev pub decoded : Option Decoding → Option Bytes
decoded none = none
decoded (some s) = some s.out

abbrev pub go_on : (Decoding → Option Bytes) → Option Decoding → Option Bytes
go_on f none = none
go_on f (some s) = f s

unfoldable pub b64_decode_loop : ℕ → Bytes → Decoding → Option Bytes
unfolding b64_val
b64_decode_loop outcap [] s = some s.out
b64_decode_loop outcap (ch ∷ rest) s =
    let more = go_on (b64_decode_loop outcap rest) (taken outcap s (b64_val ch)) in
    if ch == 61 then some s.out else more

unfoldable pub b64_decode : Bytes → ℕ → Option Bytes
unfolding b64_decode_loop
b64_decode s outcap = b64_decode_loop outcap s (record { acc = 0; bits = 0; out = [] })

-- ---- the round trip
b64_val-b64_char : (n : ℕ) → n < 64 → (b64_val (b64_char n) ≡ some n) × ((b64_char n == 61) ≡ false)
unfolding b64_val b64_char
b64_val-b64_char n h = ground arith

-- A character of the table goes into the accumulator.
pub b64_decode_loop-char :
    (outcap n : ℕ) (rest : Bytes) (s : Decoding)
    → n < 64
    → b64_decode_loop outcap (b64_char n ∷ rest) s
      ≡ go_on (b64_decode_loop outcap rest) (taken outcap s (some n))
unfolding b64_decode_loop
b64_decode_loop-char outcap n rest s h =
    let (val, no_end) = b64_val-b64_char n h in rw (val, no_end) refl

taken_first :
    (outcap v acc : ℕ) (out : Bytes)
    → taken outcap (record { acc = acc; bits = 0; out = out }) (some v)
      ≡ some (record { acc = (acc * 2 ^ 6 + v) % 2 ^ 24; bits = 6; out = out })
taken_first outcap v acc out = refl

pub taken_byte :
    (outcap v acc bits : ℕ) (out : Bytes)
    → 2 ≤ bits
    → length out + 1 < outcap
    → taken outcap (record { acc = acc; bits = bits; out = out }) (some v)
      ≡ some (record {
        acc = (acc * 2 ^ 6 + v) % 2 ^ 24;
        bits = bits + 6 - 8;
        out = out ++ ((acc * 2 ^ 6 + v) % 2 ^ 24 / 2 ^ (bits + 6 - 8) % 2 ^ 8) ∷ [];
      })
taken_byte outcap v acc bits out h room =
    let enough : leb 8 (bits + 6) ≡ true = ground arith in
    let fits : leb outcap (length out + 1) ≡ false = ground arith in rw (enough, fits) refl
