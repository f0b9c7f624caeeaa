-- ===== src/Frame/Reader.antt =====
-- The bounds-checked reader of src/frame.c. A read returns its value and the reader after it.
-- `a << 8 | b` is `a * 256 + b`: what is read are bytes, so that the operands of `|` share no bit.
use beaver_mq.Prelude.{
  ℕ, ◌+◌, ◌-◌, ◌*◌, ◌%◌, ◌^◌, Bool, true, false, ◌||◌, Option, none, some, Bytes, get_or, take,
  drop, ltb, leb, if◌then◌else◌, add_size,
}

-- bmqp_reader_t: `data` is the memory that the pointer leads to
pub record Reader : Type 0 where
  pub buf : Bytes
  pub len : ℕ
  pub pos : ℕ
  pub error : Bool

unfoldable pub reader_init : Bytes → ℕ → Reader
reader_init buf len = record { buf = buf; len = len; pos = 0; error = false }

-- `some at` is the return value 1 with `*at` filled
unfoldable pub reader_take : Reader → ℕ → Option ℕ × Reader
reader_take r need =
    if r.error || ltb r.len (add_size r.pos need)
    then (none, record r { error = true })
    else (some r.pos, record r { pos = add_size r.pos need })

-- `if (!reader_take(...)) return d; return f(at);`
abbrev pub read_at {ℓ} : {A : Type ℓ} → (Bytes → ℕ → A) → A → Option ℕ × Reader → A × Reader
read_at f d (none, r) = (d, r)
read_at f d (some at, r) = (f r.buf at, r)

-- r->data[i]
abbrev pub byte : Bytes → ℕ → ℕ
byte buf i = get_or buf i 0

abbrev pub be16 : Bytes → ℕ → ℕ
be16 buf at = byte buf at * 256 + byte buf (at + 1)

abbrev pub be32 : Bytes → ℕ → ℕ
be32 buf at =
    byte buf at * 2 ^ 24 + byte buf (at + 1) * 2 ^ 16 + byte buf (at + 2) * 256 + byte buf (at + 3)

-- The loop `for (i = 0; i < n; i++) v = (v << 8) | data[at + i]`; the shift drops what passes bit 63.
unfoldable pub be_loop : ℕ → ℕ → Bytes → ℕ → ℕ
be_loop ℕ.zero v buf at = v
be_loop (ℕ.suc n) v buf at = be_loop n (v * 256 % 2 ^ 64 + byte buf at) buf (at + 1)

unfoldable pub read_u8 : Reader → ℕ × Reader
unfolding reader_take
read_u8 r = read_at byte 0 (reader_take r 1)

unfoldable pub read_u16 : Reader → ℕ × Reader
unfolding reader_take
read_u16 r = read_at be16 0 (reader_take r 2)

unfoldable pub read_u32 : Reader → ℕ × Reader
unfolding reader_take
read_u32 r = read_at be32 0 (reader_take r 4)

unfoldable pub read_u64 : Reader → ℕ × Reader
unfolding reader_take be_loop
read_u64 r = read_at (be_loop 8 0) 0 (reader_take r 8)

-- `none` is the NULL that goes with `*out_len = 0`; else the `n` bytes from the pointer on.
abbrev pub read_bytes : ℕ × Reader → Option Bytes × Reader
read_bytes (n, r) = read_at (λ buf at. some (take n (drop at buf))) none (reader_take r n)

unfoldable pub read_shortstr : Reader → Option Bytes × Reader
unfolding read_u8 reader_take
read_shortstr r = read_bytes (read_u8 r)

unfoldable pub read_longstr : Reader → Option Bytes × Reader
unfolding read_u32 reader_take
read_longstr r = read_bytes (read_u32 r)

unfoldable pub reader_remaining : Reader → ℕ
reader_remaining r = if leb r.pos r.len then r.len - r.pos else 0
