-- ===== src/Http/Tests.antt =====
-- Runs of the Base64 codec, and the theorem at a concrete input.
use beaver_mq.Prelude.{◌≡◌, refl, some, Bytes, codes, arith}
use beaver_mq.Crypto.Compare.{IsBytes}
use beaver_mq.Http.Base64.{b64_char, b64_group, b64_encode_loop, b64_encode, b64_decode}
use beaver_mq.Http.RoundTrip.{b64_decode-b64_encode}

abbrev login : Bytes
login = codes "ann:h"

login_text : b64_encode login 64 ≡ some (codes "YW5uOmg=")
unfolding b64_encode b64_encode_loop b64_group b64_char
login_text = refl

login-IsBytes : IsBytes login
login-IsBytes = ground arith

b64_decode-b64_encode_example :
    (text : Bytes) × (b64_encode login 64 ≡ some text) × (b64_decode text 300 ≡ some login)
b64_decode-b64_encode_example =
    b64_decode-b64_encode login 64 300 login-IsBytes (omega arith) (omega arith)
