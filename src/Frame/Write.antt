-- ===== src/Frame/Write.antt =====
-- src/frame.c: bmqp_frame_write, and frames built in place by bmqp_frame_begin and bmqp_frame_finish.
use beaver_mq.Prelude.{
  ℕ, ◌+◌, ◌-◌, ◌/◌, ◌%◌, ◌^◌, ◌≤◌, ◌<◌, ◌≡◌, refl, sym, ap, ◌∙◌, Bool, false, List, [], ◌∷◌, ◌++◌,
  Bytes, length, length-append, append_assoc, set-append, All, ltb, arith,
}
use beaver_mq.Frame.Buffer.{Buf, buf_init, put_u8, put_u16, put_u32, put_bytes}
use beaver_mq.Frame.Capacity.{
  Appends, Appends-trans, put_u8-Appends, put_u16-Appends, put_u32-Appends, put_bytes-Appends,
}
use beaver_mq.Frame.Codec.{Field, InRange, wire_all, wire32, put_fields}
use beaver_mq.Frame.RoundTrip.{put_fields-Appends}
use beaver_mq.Frame.Parse.{head_bytes, frame_bytes, frame_parse-frame_bytes}
use beaver_mq.Frame.Envelope.{
  frame, frame_end, max_frame_payload, frame_parse, frame_write, frame_begin, frame_finish,
  patch_len,
}

module _ (alloc : ℕ → Bool) (out : Buf) (type channel : ℕ) where
  frame_write-Appends :
      (payload : Bytes)
      → length payload < 2 ^ 32
      → Appends alloc out
          (frame_bytes type channel payload)
          (frame_write alloc out type channel payload)
  unfolding frame_write
  frame_write-Appends payload h =
      let whole : length payload % 2 ^ 32 ≡ length payload = omega arith in
      let b1 = put_u8 alloc out type in
      let b2 = put_u16 alloc b1 channel in
      let b3 = put_u32 alloc b2 (length payload) in
      let b4 = put_bytes alloc b3 payload in
      rw whole (
        Appends-trans (type ∷ []) _ (put_u8-Appends alloc out type) (
          Appends-trans (_ ∷ _ ∷ []) _ (put_u16-Appends alloc b1 channel) (
            Appends-trans (wire32 (length payload)) _ (put_u32-Appends alloc b2 (length payload)) (
              Appends-trans payload _ (put_bytes-Appends alloc b3 payload (omega arith))
                (put_u8-Appends alloc b4 frame_end)))))

  frame_begin-Appends :
      Appends alloc out (head_bytes type channel 0) (frame_begin alloc out type channel).0
  unfolding frame_begin
  frame_begin-Appends =
      let b1 = put_u8 alloc out type in
      let b2 = put_u16 alloc b1 channel in
      Appends-trans (type ∷ []) _ (put_u8-Appends alloc out type) (
        Appends-trans (_ ∷ _ ∷ []) _ (put_u16-Appends alloc b1 channel)
          (put_u32-Appends alloc b2 0))

-- The length field is written over the placeholder, and nothing else changes.
patch_lem :
    (pre payload : Bytes) (t c1 c2 n : ℕ)
    → patch_len (pre ++ t ∷ c1 ∷ c2 ∷ 0 ∷ 0 ∷ 0 ∷ 0 ∷ payload) (length pre + 3) n
      ≡ pre ++ t ∷ c1 ∷ c2 ∷ (wire32 n ++ payload)
patch_lem pre payload t c1 c2 n =
    let e1 : length pre + 3 + 1 ≡ length pre + 4 = omega arith in
    let e2 : length pre + 3 + 2 ≡ length pre + 5 = omega arith in
    let e3 : length pre + 3 + 3 ≡ length pre + 6 = omega arith in
    rw (e1, e2, e3, set-append, set-append, set-append, set-append)

finish-no_error :
    (alloc : ℕ → Bool) (c : Buf) (start : ℕ)
    → (frame_finish alloc c start).error ≡ false
    → c.error ≡ false
unfolding frame_finish
finish-no_error alloc c start e = ground arith

-- Without an error the length is patched and the end byte appended.
finish-put_u8 :
    (alloc : ℕ → Bool) (c : Buf) (start n : ℕ)
    → c.error ≡ false
    → (length c.bytes + 2 ^ 64 - start) % 2 ^ 64 ≡ n
    → n < 2 ^ 32
    → frame_finish alloc c start
      ≡ put_u8 alloc (record c { bytes = patch_len c.bytes (start - 4) n }) frame_end
unfolding frame_finish
finish-put_u8 alloc c start n e len h =
    let small : ltb 0xffff_ffff n ≡ false = ground arith in rw (e, len, small)

finish_lem :
    (alloc : ℕ → Bool) (c : Buf) (pre payload : Bytes) (t c1 c2 : ℕ)
    → c.bytes ≡ pre ++ t ∷ c1 ∷ c2 ∷ 0 ∷ 0 ∷ 0 ∷ 0 ∷ payload
    → length payload < 2 ^ 32
    → length c.bytes < 2 ^ 64
    → (frame_finish alloc c (length pre + 7)).error ≡ false
    → (frame_finish alloc c (length pre + 7)).bytes
      ≡ pre ++ t ∷ c1 ∷ c2 ∷ (wire32 (length payload) ++ (payload ++ frame_end ∷ []))
finish_lem alloc c pre payload t c1 c2 e h64 h e0 =
    let n = length payload in
    let all : length c.bytes ≡ length pre + (7 + n) =
      omega
        (arith, ap (length {A = ℕ}) e, length-append pre (t ∷ c1 ∷ c2 ∷ 0 ∷ 0 ∷ 0 ∷ 0 ∷ payload)) in
    let len : (length c.bytes + 2 ^ 64 - (length pre + 7)) % 2 ^ 64 ≡ n = omega arith in
    let put = finish-put_u8 alloc c (length pre + 7) n (finish-no_error alloc c _ e0) len h64 in
    let d : Buf = record c { bytes = patch_len c.bytes (length pre + 7 - 4) n } in
    let w = (put_u8-Appends alloc d frame_end).written (sym (ap Buf.error put) ∙ e0) in
    let lp : length pre + 7 - 4 ≡ length pre + 3 = omega arith in
    let patched : d.bytes ≡ pre ++ t ∷ c1 ∷ c2 ∷ (wire32 n ++ payload) =
      rw (lp, e) (patch_lem pre payload t c1 c2 n) in
    ap Buf.bytes put
    ∙ w.1
    ∙ ap (λ u. u ++ frame_end ∷ []) patched
    ∙ append_assoc pre (t ∷ c1 ∷ c2 ∷ (wire32 n ++ payload)) (frame_end ∷ [])

begin-start :
    (alloc : ℕ → Bool) (out : Buf) (type channel : ℕ)
    → let (b, start) = frame_begin alloc out type channel in start ≡ length b.bytes
unfolding frame_begin
begin-start alloc out type channel = refl

-- A frame built in place: begin, the payload's fields, finish.
abbrev pub in_place : (ℕ → Bool) → Buf → ℕ → ℕ → List Field → Buf
in_place alloc out type channel fs =
    let (b, start) = frame_begin alloc out type channel in
    frame_finish alloc (put_fields alloc b fs) start

module _ (alloc : ℕ → Bool) (out : Buf) (type channel : ℕ) (fs : List Field)
    (ranges : All InRange fs) (small : length (wire_all fs) < 2 ^ 32)
    (room : length out.bytes + length (wire_all fs) + 8 < 2 ^ 64) where
  -- A frame built in place, from begin over the fields of the payload, each in range, to finish: if
  -- the payload is shorter than 2 ^ 32 bytes, the whole shorter than 2 ^ 64, and the buffer has no
  -- error at the end, it holds what it held, and then exactly the frame of these fields with the
  -- length patched in.
  pub in_place_lem :
      (in_place alloc out type channel fs).error ≡ false
      → (in_place alloc out type channel fs).bytes
        ≡ out.bytes ++ frame_bytes type channel (wire_all fs)
  in_place_lem e =
      let b = (frame_begin alloc out type channel).0 in
      let c = put_fields alloc b fs in
      let ec = finish-no_error alloc c (frame_begin alloc out type channel).1 e in
      let (eb, wc) = (put_fields-Appends alloc b fs ranges).written ec in
      let wb = ((frame_begin-Appends alloc out type channel).written eb).1 in
      let bytes : c.bytes ≡ out.bytes ++ (head_bytes type channel 0 ++ wire_all fs) =
        wc
        ∙ ap (λ u. u ++ wire_all fs) wb
        ∙ append_assoc out.bytes (head_bytes type channel 0) (wire_all fs) in
      let long : length c.bytes < 2 ^ 64 = omega (
        arith,
        ap (length {A = ℕ}) bytes,
        length-append out.bytes (head_bytes type channel 0 ++ wire_all fs),
      ) in
      let start : (frame_begin alloc out type channel).1 ≡ length out.bytes + 7 =
        begin-start alloc out type channel
        ∙ ap (length {A = ℕ}) wb
        ∙ length-append out.bytes (head_bytes type channel 0) in
      rw start (
        finish_lem alloc c out.bytes (wire_all fs) type (channel / 2 ^ 8 % 256) (channel % 256)
          bytes small long (rw start at e))

module _ (alloc : ℕ → Bool) (type channel : ℕ) (payload rest : Bytes) (hc : channel < 2 ^ 16)
    (hl : length payload ≤ max_frame_payload) where
  -- A frame with a channel of 16 bits and a payload of at most 16 MiB, which bmqp_frame_write writes to a
  -- fresh buffer without an error, is parsed back whole, whatever bytes follow it: its type, its channel,
  -- its payload, and its length as the number consumed.
  pub frame_parse-frame_write :
      (frame_write alloc buf_init type channel payload).error ≡ false
      → frame_parse ((frame_write alloc buf_init type channel payload).bytes ++ rest)
        ≡ frame
            (record { type = type; channel = channel; payload_len = length payload })
            payload
            (length payload + 8)
  frame_parse-frame_write e =
      rw ((frame_write-Appends alloc buf_init type channel payload (omega arith)).written e).1
        (frame_parse-frame_bytes type channel payload hc hl rest)
