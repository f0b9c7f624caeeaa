-- ===== src/Frame/Parse.antt =====
-- src/frame.c, bmqp_frame_parse against the frame format: round trip, partial input, soundness.
use beaver_mq.Prelude.{
  ℕ, suc, ◌+◌, ◌-◌, ◌*◌, ◌/◌, ◌%◌, ◌^◌, ◌≤◌, ◌<◌, ◌≡◌, refl, sym, ap, ◌∙◌, [], ◌∷◌, ◌++◌, Bytes,
  length, length-append, append_assoc, take, drop, take_append, length-take, split_at, All, ltb,
  ◌==◌, if◌then◌else◌, arith,
}
use beaver_mq.Frame.Reader.{byte}
use beaver_mq.Frame.Codec.{wire32}
use beaver_mq.Frame.Cursor.{byte-append, byte-append_head}
use beaver_mq.Frame.Envelope.{
  FrameHeader, Parsed, incomplete, bad, frame, frame_parse, frame_end, max_frame_payload,
}

-- The header of a frame as the protocol lays it out.
abbrev pub head_bytes : ℕ → ℕ → ℕ → Bytes
head_bytes type channel n = type ∷ (channel / 2 ^ 8 % 256) ∷ (channel % 256) ∷ wire32 n

-- A whole frame.
abbrev pub frame_bytes : ℕ → ℕ → Bytes → Bytes
frame_bytes type channel payload =
    head_bytes type channel (length payload) ++ (payload ++ frame_end ∷ [])

be16_lem : (v : ℕ) → v < 2 ^ 16 → v / 2 ^ 8 % 256 * 256 + v % 256 ≡ v
be16_lem v h = omega arith

be32_lem :
    (v : ℕ)
    → v < 2 ^ 32
    → v / 2 ^ 24 % 256 * 2 ^ 24 + v / 2 ^ 16 % 256 * 2 ^ 16 + v / 2 ^ 8 % 256 * 256 + v % 256 ≡ v
be32_lem v h = omega arith

-- What the parser does once the header is there.
abbrev after_header : FrameHeader → Bytes → Parsed
after_header h tl =
    let n = h.payload_len in
    if ltb max_frame_payload n
    then bad
    else if ltb (length tl) (n + 1)
    then incomplete
    else if byte tl n == frame_end
    then frame h (take n tl) (n + 8)
    else bad

frame_parse-head :
    (type channel n : ℕ) (tl : Bytes)
    → channel < 2 ^ 16
    → n < 2 ^ 32
    → frame_parse (head_bytes type channel n ++ tl)
      ≡ after_header (record { type = type; channel = channel; payload_len = n }) tl
unfolding frame_parse
frame_parse-head type channel n tl hc hn =
    let at : 7 + n + 1 - 1 ≡ 7 + n = omega arith in
    rw (be16_lem channel hc, be32_lem n hn, at, byte-append (head_bytes type channel n) tl n)
      (ground arith)

module _ (type channel : ℕ) (payload : Bytes) (hc : channel < 2 ^ 16)
    (hl : length payload ≤ max_frame_payload) where
  -- A frame at the front of the input is parsed whole, whatever follows it: its type, its channel,
  -- its payload, and its 8 bytes more than the payload's as the number consumed.
  pub frame_parse-frame_bytes :
      (rest : Bytes)
      → frame_parse (frame_bytes type channel payload ++ rest)
        ≡ frame
            (record { type = type; channel = channel; payload_len = length payload })
            payload
            (length payload + 8)
  frame_parse-frame_bytes rest =
      let tl = payload ++ (frame_end ∷ rest) in
      let long = length-append payload (frame_end ∷ rest) in
      let end : byte tl (length payload) ≡ frame_end =
        byte-append_head payload (frame_end ∷ rest) in
      rw
        (
          append_assoc payload (frame_end ∷ []) rest,
          frame_parse-head type channel (length payload) tl hc (omega arith),
          end,
          take_append payload (frame_end ∷ rest),
        )
        (ground (arith, long))

  -- Every proper prefix of a frame is incomplete: the parser asks for more input and reports no
  -- error, wherever the stream is cut.
  pub frame_parse-take :
      (k : ℕ)
      → k < length payload + 8
      → frame_parse (take k (frame_bytes type channel payload)) ≡ incomplete
  frame_parse-take (suc (suc (suc (suc (suc (suc (suc j))))))) h =
      let tl = payload ++ frame_end ∷ [] in
      let all = length-append payload (frame_end ∷ []) in
      rw (frame_parse-head type channel (length payload) (take j tl) hc (omega arith))
        (ground (arith, all, length-take j tl))
  frame_parse-take _ h = unfold frame_parse in refl

abbrev pub IsByte : ℕ → Type 0
IsByte v = v < 256

-- A result of the parser over its input.
pub record ParsedFrom (buf : Bytes) (h : FrameHeader) (p : Bytes) (n : ℕ) : Type 0 where
  pub whole : buf ≡ frame_bytes h.type h.channel p ++ drop n buf
  pub len : h.payload_len ≡ length p
  pub total : n ≡ length p + 8
  pub small : length p ≤ max_frame_payload

head_bytes-eq :
    (t a b d e f g : ℕ)
    → a < 256
    → b < 256
    → d < 256
    → e < 256
    → f < 256
    → g < 256
    → head_bytes t (a * 256 + b) (d * 2 ^ 24 + e * 2 ^ 16 + f * 256 + g)
      ≡ t ∷ a ∷ b ∷ d ∷ e ∷ f ∷ g ∷ []
head_bytes-eq t a b d e f g ha hb hd he hf hg = ground arith

after_header-frame :
    (h0 h : FrameHeader) (tl p : Bytes) (n : ℕ)
    → after_header h0 tl ≡ frame h p n
    → (h ≡ h0)
      × (p ≡ take h0.payload_len tl)
      × (n ≡ h0.payload_len + 8)
      × (h0.payload_len < length tl)
      × (byte tl h0.payload_len ≡ frame_end)
      × (h0.payload_len ≤ max_frame_payload)
after_header-frame h0 h tl p n e = ground arith

drop-head_bytes : (t c n : ℕ) (tl : Bytes) → drop (n + 8) (head_bytes t c n ++ tl) ≡ drop (n + 1) tl
drop-head_bytes t c n tl =
    let e : n + 8 ≡ suc (suc (suc (suc (suc (suc (suc (n + 1))))))) = omega arith in
    ap (λ k. drop k (head_bytes t c n ++ tl)) e

-- A tail that holds a payload of `n` bytes and the end byte.
frame_bytes-take :
    (t c n : ℕ) (tl : Bytes)
    → n < length tl
    → byte tl n ≡ frame_end
    → head_bytes t c n ++ tl ≡ frame_bytes t c (take n tl) ++ drop (n + 8) (head_bytes t c n ++ tl)
frame_bytes-take t c n tl h e =
    let len : length (take n tl) ≡ n = length-take n tl (omega arith) in
    rw
      (
        drop-head_bytes t c n tl,
        len,
        append_assoc (take n tl) (frame_end ∷ []) (drop (n + 1) tl),
        ← e,
      )
      (ap (λ u. head_bytes t c n ++ u) (split_at tl n 0 h))

ParsedFrom-after_header :
    (t c n0 : ℕ) (tl : Bytes) (h : FrameHeader) (p : Bytes) (n : ℕ)
    → after_header (record { type = t; channel = c; payload_len = n0 }) tl ≡ frame h p n
    → ParsedFrom (head_bytes t c n0 ++ tl) h p n
ParsedFrom-after_header t c n0 tl h p n ok =
    let (eh, ep, en, lt, end, max) =
      after_header-frame (record { type = t; channel = c; payload_len = n0 }) h tl p n ok in
    let len : length (take n0 tl) ≡ n0 = length-take n0 tl (omega arith) in
    rw (eh, ep, en)
      (record {
        whole = frame_bytes-take t c n0 tl lt end;
        len = sym len;
        total = omega (arith, len);
        small = omega (arith, len);
      })

frame_parse-short : (buf : Bytes) → length buf < 7 → frame_parse buf ≡ incomplete
unfolding frame_parse
frame_parse-short buf h = ground arith

-- A frame that the parser returns stands at the front of the input, byte for byte; the consumed
-- count is its length, and its payload is at most 16 MiB.
pub frame_parse-ParsedFrom :
    (buf : Bytes) (h : FrameHeader) (p : Bytes) (n : ℕ)
    → All IsByte buf
    → frame_parse buf ≡ frame h p n
    → ParsedFrom buf h p n
frame_parse-ParsedFrom (t ∷ a ∷ b ∷ d ∷ e ∷ f ∷ g ∷ tl) h p n
      (bt, (ba, (bb, (bd, (be, (bf, (bg, rest))))))) ok =
    let len = d * 2 ^ 24 + e * 2 ^ 16 + f * 256 + g in
    let c = a * 256 + b in
    let head = head_bytes-eq t a b d e f g ba bb bd be bf bg in
    let same : head_bytes t c len ++ tl ≡ t ∷ a ∷ b ∷ d ∷ e ∷ f ∷ g ∷ tl = ap (λ u. u ++ tl) head in
    let parse = frame_parse-head t c len tl (omega arith) (omega arith) in
    rw (← same) (ParsedFrom-after_header t c len tl h p n (sym parse ∙ rw (← same) at ok))
frame_parse-ParsedFrom buf h p n bytes ok = cc (frame_parse-short buf (omega arith))
