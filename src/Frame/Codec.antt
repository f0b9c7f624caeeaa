-- ===== src/Frame/Codec.antt =====
-- Fields as src/frame.c writes and reads them, in any sequence: the wire format of one field, the
-- calls that write a list of fields, and those that read a list of that shape.
use beaver_mq.Prelude.{
  ℕ, ◌/◌, ◌%◌, ◌^◌, ◌≤◌, ◌<◌, Bool, Option, none, some, List, [], ◌∷◌, ◌++◌, Bytes, length,
}
use beaver_mq.Frame.Reader.{
  Reader, read_u8, read_u16, read_u32, read_u64, read_shortstr, read_longstr,
}
use beaver_mq.Frame.Buffer.{Buf, put_u8, put_u16, put_u32, put_u64, put_shortstr_n, put_longstr}

pub data Shape : Type 0 where
  octet short long longlong short_text long_text : Shape

pub data Field : Type 0 where
  u8 u16 u32 u64 : ℕ → Field
  shortstr longstr : Bytes → Field

abbrev pub shape : Field → Shape
shape (u8 n) = octet
shape (u16 n) = short
shape (u32 n) = long
shape (u64 n) = longlong
shape (shortstr s) = short_text
shape (longstr s) = long_text

-- The values that the C types and the length prefixes can hold.
abbrev pub InRange : Field → Type 0
InRange (u8 n) = n < 256
InRange (u16 n) = n < 2 ^ 16
InRange (u32 n) = n < 2 ^ 32
InRange (u64 n) = n < 2 ^ 64
InRange (shortstr s) = length s ≤ 255
InRange (longstr s) = length s < 2 ^ 32

abbrev pub wire32 : ℕ → Bytes
wire32 v = (v / 2 ^ 24 % 256) ∷ (v / 2 ^ 16 % 256) ∷ (v / 2 ^ 8 % 256) ∷ (v % 256) ∷ []

abbrev pub wire64 : ℕ → Bytes
wire64 v =
    (v / 2 ^ 56 % 256)
    ∷ (v / 2 ^ 48 % 256)
    ∷ (v / 2 ^ 40 % 256)
    ∷ (v / 2 ^ 32 % 256)
    ∷ (v / 2 ^ 24 % 256)
    ∷ (v / 2 ^ 16 % 256)
    ∷ (v / 2 ^ 8 % 256)
    ∷ (v % 256)
    ∷ []

-- The specification's encoding: network byte order, texts behind their length.
abbrev pub wire : Field → Bytes
wire (u8 v) = v ∷ []
wire (u16 v) = (v / 2 ^ 8 % 256) ∷ (v % 256) ∷ []
wire (u32 v) = wire32 v
wire (u64 v) = wire64 v
wire (shortstr s) = length s ∷ s
wire (longstr s) = wire32 (length s) ++ s

abbrev pub wire_all : List Field → Bytes
wire_all [] = []
wire_all (f ∷ fs) = wire f ++ wire_all fs

-- The call that writes a field.
unfoldable pub put_field : (ℕ → Bool) → Buf → Field → Buf
put_field alloc b (u8 v) = put_u8 alloc b v
put_field alloc b (u16 v) = put_u16 alloc b v
put_field alloc b (u32 v) = put_u32 alloc b v
put_field alloc b (u64 v) = put_u64 alloc b v
put_field alloc b (shortstr s) = put_shortstr_n alloc b s
put_field alloc b (longstr s) = put_longstr alloc b s

unfoldable pub put_fields : (ℕ → Bool) → Buf → List Field → Buf
put_fields alloc b [] = b
put_fields alloc b (f ∷ fs) = put_fields alloc (put_field alloc b f) fs

abbrev pub got : (ℕ → Field) → ℕ × Reader → Option Field × Reader
got c (v, r) = (some (c v), r)

abbrev pub got_text : (Bytes → Field) → Option Bytes × Reader → Option Field × Reader
got_text c (none, r) = (none, r)
got_text c (some s, r) = (some (c s), r)

-- The call that reads a field of a shape; `none` is a NULL text.
unfoldable pub read_field : Shape → Reader → Option Field × Reader
read_field octet r = got u8 (read_u8 r)
read_field short r = got u16 (read_u16 r)
read_field long r = got u32 (read_u32 r)
read_field longlong r = got u64 (read_u64 r)
read_field short_text r = got_text shortstr (read_shortstr r)
read_field long_text r = got_text longstr (read_longstr r)

unfoldable pub read_fields : List Shape → Reader → List (Option Field) × Reader
read_fields [] r = ([], r)
read_fields (s ∷ ss) r =
    let (f, r') = read_field s r in let (fs, r'') = read_fields ss r' in (f ∷ fs, r'')
