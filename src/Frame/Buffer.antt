-- ===== src/Frame/Buffer.antt =====
-- The growable output buffer of src/frame.c. `bytes` is `data[0..len)`; what lies between `len` and
-- `cap` is never read before it is written. `realloc` is a parameter: `alloc n` says whether a
-- request for `n` bytes succeeds.
use beaver_mq.Prelude.{
  add_size, ℕ, zero, suc, ◌+◌, ◌-◌, ◌*◌, ◌/◌, ◌%◌, ◌^◌, Bool, true, false, Option, none, some, List,
  [], ◌∷◌, ◌++◌, Bytes, length, ltb, leb, ◌==◌, if◌then◌else◌,
}

-- bmqp_buf_t
pub record Buf : Type 0 where
  pub bytes : Bytes
  pub cap : ℕ
  pub error : Bool

abbrev pub buf_init : Buf
buf_init = record { bytes = []; cap = 0; error = false }

-- bmqp_buf_free: as after `buf_init`
unfoldable pub buf_free : Buf → Buf
buf_free b = buf_init

unfoldable pub buf_reset : Buf → Buf
buf_reset b = record b { bytes = [] }

abbrev pub size_max : ℕ
size_max = 2 ^ 64 - 1

-- `while (newcap < need) { if (newcap > SIZE_MAX / 2) { newcap = need; break; } newcap *= 2; }`
unfoldable pub grow_cap : ℕ → ℕ → ℕ → ℕ
grow_cap zero need newcap = newcap
grow_cap (suc fuel) need newcap =
    let rest = grow_cap fuel need (newcap * 2) in
    if ltb newcap need then (if ltb (size_max / 2) newcap then need else rest) else newcap

-- 64 rounds: from 1 the capacity passes every size_t in 64 doublings.
abbrev pub new_cap : ℕ → ℕ → ℕ
new_cap cap need = grow_cap 64 need (if cap == 0 then 64 else cap)

module _ (alloc : ℕ → Bool) where
  -- the growth proper, once `need > cap`
  abbrev pub realloc_to : Buf → ℕ → Bool × Buf
  realloc_to b newcap =
      if alloc newcap then (true, record b { cap = newcap }) else (false, record b { error = true })

  unfoldable pub buf_reserve : Buf → ℕ → Bool × Buf
  buf_reserve b extra =
      let need = add_size (length b.bytes) extra in
      if b.error
      then (false, b)
      else if ltb need (length b.bytes)
      then (false, record b { error = true })
      else if leb need b.cap
      then (true, b)
      else realloc_to b (new_cap b.cap need)

  -- `if (!buf_reserve(b, n)) return;` and then the `n` bytes `bs`
  abbrev pub append_reserved : Bool × Buf → Bytes → Buf
  append_reserved (true, b) bs = record b { bytes = b.bytes ++ bs }
  append_reserved (false, b) bs = b

  unfoldable pub put_u8 : Buf → ℕ → Buf
  unfolding buf_reserve
  put_u8 b v = append_reserved (buf_reserve b 1) (v ∷ [])

  unfoldable pub put_u16 : Buf → ℕ → Buf
  unfolding buf_reserve
  put_u16 b v = append_reserved (buf_reserve b 2) ((v / 2 ^ 8 % 256) ∷ (v % 256) ∷ [])

  unfoldable pub put_u32 : Buf → ℕ → Buf
  unfolding buf_reserve
  put_u32 b v =
      append_reserved (buf_reserve b 4)
        ((v / 2 ^ 24 % 256) ∷ (v / 2 ^ 16 % 256) ∷ (v / 2 ^ 8 % 256) ∷ (v % 256) ∷ [])

  -- the loop `for (i = 7; i >= 0; i--)`, written out
  unfoldable pub put_u64 : Buf → ℕ → Buf
  unfolding buf_reserve
  put_u64 b v = append_reserved (buf_reserve b 8) (
      (v / 2 ^ 56 % 256)
      ∷ (v / 2 ^ 48 % 256)
      ∷ (v / 2 ^ 40 % 256)
      ∷ (v / 2 ^ 32 % 256)
      ∷ (v / 2 ^ 24 % 256)
      ∷ (v / 2 ^ 16 % 256)
      ∷ (v / 2 ^ 8 % 256)
      ∷ (v % 256)
      ∷ [])

  unfoldable pub put_bytes : Buf → Bytes → Buf
  unfolding buf_reserve
  put_bytes b bs = if length bs == 0 then b else append_reserved (buf_reserve b (length bs)) bs

  -- `s` holds the `n` bytes of the argument
  unfoldable pub put_shortstr_n : Buf → Bytes → Buf
  unfolding put_u8 put_bytes
  put_shortstr_n b s =
      let n = if ltb 255 (length s) then 255 else length s in
      put_bytes (put_u8 b n) (beaver_mq.Prelude.take n s)

  -- `none` is a NULL pointer
  unfoldable pub put_shortstr : Buf → Option Bytes → Buf
  unfolding put_shortstr_n
  put_shortstr b none = put_shortstr_n b []
  put_shortstr b (some s) = put_shortstr_n b s

  unfoldable pub put_longstr : Buf → Bytes → Buf
  unfolding put_u32 put_bytes
  put_longstr b bs = put_bytes (put_u32 b (length bs % 2 ^ 32)) bs
