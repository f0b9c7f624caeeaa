-- ===== src/Frame/Envelope.antt =====
-- The frame envelope of src/frame.c: parsing one frame, writing one, and building one in place.
use beaver_mq.Prelude.{
  ℕ, ◌+◌, ◌-◌, ◌*◌, ◌/◌, ◌%◌, ◌^◌, Bool, true, not, Bytes, length, set, take, drop, ltb, ◌==◌,
  if◌then◌else◌,
}
use beaver_mq.Frame.Reader.{byte, be16, be32}
use beaver_mq.Frame.Buffer.{Buf, put_u8, put_u16, put_u32, put_bytes}

-- BMQP_FRAME_HEADER_SIZE, BMQP_FRAME_END, BMQP_MAX_FRAME_PAYLOAD
abbrev pub header_size : ℕ
header_size = 7

abbrev pub frame_end : ℕ
frame_end = 0xce

abbrev pub max_frame_payload : ℕ
max_frame_payload = 16 * 1024 * 1024

-- bmqp_frame_header_t
pub record FrameHeader : Type 0 where
  pub type : ℕ
  pub channel : ℕ
  pub payload_len : ℕ

-- The return value: 0, -1, or the bytes consumed with what the out parameters get. The payload is
-- the `payload_len` bytes from `*out_payload` on.
pub data Parsed : Type 0 where
  incomplete bad : Parsed
  frame : FrameHeader → Bytes → ℕ → Parsed

abbrev pub parse_header : Bytes → FrameHeader
parse_header buf = record { type = byte buf 0; channel = be16 buf 1; payload_len = be32 buf 3 }

-- `buf` is `buf[0..len)`. `total` is at most 2^24 + 8, so no addition wraps.
unfoldable pub frame_parse : Bytes → Parsed
frame_parse buf =
    let h = parse_header buf in
    let total = header_size + h.payload_len + 1 in
    if ltb (length buf) header_size
    then incomplete
    else if ltb max_frame_payload h.payload_len
    then bad
    else if ltb (length buf) total
    then incomplete
    else if not (byte buf (total - 1) == frame_end)
    then bad
    else frame h (take h.payload_len (drop header_size buf)) total

-- the four stores of the length field
abbrev pub patch_len : Bytes → ℕ → ℕ → Bytes
patch_len bs lp n =
    let bs1 = set bs lp (n / 2 ^ 24 % 256) in
    let bs2 = set bs1 (lp + 1) (n / 2 ^ 16 % 256) in
    let bs3 = set bs2 (lp + 2) (n / 2 ^ 8 % 256) in set bs3 (lp + 3) (n % 256)

module _ (alloc : ℕ → Bool) where
  unfoldable pub frame_write : Buf → ℕ → ℕ → Bytes → Buf
  unfolding put_u8 put_u16 put_u32 put_bytes
  frame_write out type channel payload =
      let b1 = put_u8 alloc out type in
      let b2 = put_u16 alloc b1 channel in
      let b3 = put_u32 alloc b2 (length payload % 2 ^ 32) in
      let b4 = put_bytes alloc b3 payload in put_u8 alloc b4 frame_end

  unfoldable pub frame_begin : Buf → ℕ → ℕ → Buf × ℕ
  unfolding put_u8 put_u16 put_u32
  frame_begin out type channel =
      let b = put_u32 alloc (put_u16 alloc (put_u8 alloc out type) channel) 0 in (b, length b.bytes)

  unfoldable pub frame_finish : Buf → ℕ → Buf
  unfolding put_u8
  frame_finish out payload_start =
      let payload_len = (length out.bytes + 2 ^ 64 - payload_start) % 2 ^ 64 in
      if out.error
      then out
      else if ltb 0xffff_ffff payload_len
      then record out { error = true }
      else put_u8 alloc (record out { bytes = patch_len out.bytes (payload_start - 4) payload_len })
          frame_end
