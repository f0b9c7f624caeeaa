-- ===== src/Frame/RoundTrip.antt =====
-- src/frame.c: what the put functions write, the read functions return.
use beaver_mq.Prelude.{
  ℕ, ◌%◌, ◌^◌, ◌≤◌, ◌<◌, ◌≡◌, refl, sym, ap, ◌∙◌, Bool, true, false, some, List, [], ◌∷◌, ◌++◌,
  Bytes, length, append_assoc, append-nil, take, take_append, map, All, ltb, if◌then◌else◌, arith,
}
use beaver_mq.Frame.Reader.{reader_init, read_shortstr, read_longstr, reader_remaining}
use beaver_mq.Frame.Buffer.{Buf, buf_init, put_u8, put_u32, put_shortstr_n, put_longstr}
use beaver_mq.Frame.Capacity.{
  Appends, Appends-refl, Appends-trans, IsValid, put_u8-Appends, put_u16-Appends, put_u32-Appends,
  put_u64-Appends, put_bytes-Appends,
}
use beaver_mq.Frame.Codec.{
  Field, u8, u16, u32, u64, shortstr, longstr, shape, InRange, wire, wire_all, wire32, put_field,
  put_fields, read_field, read_fields,
}
use beaver_mq.Frame.Cursor.{
  at_rest, read_u8-at_rest, read_u16-at_rest, read_u32-at_rest, read_u64-at_rest, text_after,
}

take_all : (s : Bytes) → take (length s) s ≡ s
take_all s = ap (take (length s)) (sym (append-nil s)) ∙ take_append s []

module _ (alloc : ℕ → Bool) where
  put_shortstr_n-Appends :
      (b : Buf) (s : Bytes)
      → length s ≤ 255
      → Appends alloc b (length s ∷ s) (put_shortstr_n alloc b s)
  unfolding put_shortstr_n
  put_shortstr_n-Appends b s h =
      let whole : (if ltb 255 (length s) then 255 else length s) ≡ length s = ground arith in
      rw (whole, take_all s)
        (Appends-trans (length s ∷ []) s (put_u8-Appends alloc b (length s))
          (put_bytes-Appends alloc (put_u8 alloc b (length s)) s (omega arith)))

  put_longstr-Appends :
      (b : Buf) (s : Bytes)
      → length s < 2 ^ 32
      → Appends alloc b (wire32 (length s) ++ s) (put_longstr alloc b s)
  unfolding put_longstr
  put_longstr-Appends b s h =
      let whole : length s % 2 ^ 32 ≡ length s = omega arith in
      rw whole (
        Appends-trans (wire32 (length s)) s (put_u32-Appends alloc b (length s))
          (put_bytes-Appends alloc (put_u32 alloc b (length s)) s (omega arith)))

  pub put_field-Appends :
      (b : Buf) (f : Field) → InRange f → Appends alloc b (wire f) (put_field alloc b f)
  unfolding put_field
  put_field-Appends b (u8 v) h = put_u8-Appends alloc b v
  put_field-Appends b (u16 v) h = put_u16-Appends alloc b v
  put_field-Appends b (u32 v) h = put_u32-Appends alloc b v
  put_field-Appends b (u64 v) h = put_u64-Appends alloc b v
  put_field-Appends b (shortstr s) h = put_shortstr_n-Appends b s h
  put_field-Appends b (longstr s) h = put_longstr-Appends b s h

  pub put_fields-Appends :
      (b : Buf) (fs : List Field)
      → All InRange fs
      → Appends alloc b (wire_all fs) (put_fields alloc b fs)
  unfolding put_fields
  put_fields-Appends b [] h = Appends-refl b
  put_fields-Appends b (f ∷ fs) h =
      Appends-trans (wire f) (wire_all fs) (put_field-Appends b f h.0)
        (put_fields-Appends (put_field alloc b f) fs h.1)

module _ (pre rest : Bytes) where
  read_field-at_rest :
      (f : Field)
      → InRange f
      → length (pre ++ (wire f ++ rest)) < 2 ^ 64
      → read_field (shape f) (at_rest pre (wire f ++ rest)) ≡ (some f, at_rest (pre ++ wire f) rest)
  unfolding read_field
  read_field-at_rest (u8 v) h l = rw (read_u8-at_rest pre rest v l)
  read_field-at_rest (u16 v) h l = rw (read_u16-at_rest pre rest v h l)
  read_field-at_rest (u32 v) h l = rw (read_u32-at_rest pre rest v h l)
  read_field-at_rest (u64 v) h l = rw (read_u64-at_rest pre rest v h l)
  read_field-at_rest (shortstr s) h l =
      unfold read_shortstr in
      rw (read_u8-at_rest pre (s ++ rest) (length s) l, text_after pre (length s ∷ []) s rest l)
  read_field-at_rest (longstr s) h l =
      unfold read_longstr in
      rw (
        read_u32-at_rest pre (s ++ rest) (length s) h l,
        text_after pre (wire32 (length s)) s rest l,
      )

read_fields-at_rest :
    (pre : Bytes) (fs : List Field)
    → All InRange fs
    → length (pre ++ wire_all fs) < 2 ^ 64
    → read_fields (map shape fs) (at_rest pre (wire_all fs))
      ≡ (map some fs, at_rest (pre ++ wire_all fs) [])
unfolding read_fields
read_fields-at_rest pre [] h l = rw (append-nil pre, append-nil pre)
read_fields-at_rest pre (f ∷ fs) h l = rw (
  read_field-at_rest pre (wire_all fs) f h.0 l,
  read_fields-at_rest (pre ++ wire f) fs h.1 (rw (append_assoc pre (wire f) (wire_all fs)) l),
  append_assoc pre (wire f) (wire_all fs),
)

IsValid-init : IsValid buf_init
IsValid-init = record { fits = omega arith; small = omega arith }

module _ (alloc : ℕ → Bool) (fs : List Field) (ranges : All InRange fs) where
  -- Fields in range, written to a fresh buffer: the buffer ends without an error if every request
  -- to the allocator is granted and the encoding is shorter than 2 ^ 64 bytes. It then holds exactly
  -- the wire format of the fields, within its capacity.
  pub put_fields_lem :
      ((n : ℕ) → alloc n ≡ true)
      → length (wire_all fs) < 2 ^ 64
      → let b = put_fields alloc buf_init fs in
        (b.error ≡ false) × (b.bytes ≡ wire_all fs) × (length b.bytes ≤ b.cap)
  put_fields_lem grants small =
      let w = put_fields-Appends alloc buf_init fs ranges in
      let e = w.succeeds grants refl IsValid-init (omega arith) in
      (e, (w.written e).1, (w.valid IsValid-init).fits)

  -- Fields in range that were written to a fresh buffer without an error, whatever the allocator
  -- refused, are read back: the reads of the same shapes return every field, with no error, and leave
  -- nothing over.
  pub read_fields-put_fields :
      (put_fields alloc buf_init fs).error ≡ false
      → length (wire_all fs) < 2 ^ 64
      → let b = put_fields alloc buf_init fs in
        let (got, r) = read_fields (map shape fs) (reader_init b.bytes (length b.bytes)) in
        (got ≡ map some fs) × (r.error ≡ false) × (reader_remaining r ≡ 0)
  unfolding reader_init reader_remaining
  read_fields-put_fields e small =
      rw
        (
          ((put_fields-Appends alloc buf_init fs ranges).written e).1,
          read_fields-at_rest [] fs ranges small,
        )
        (refl, refl, rw (append-nil (wire_all fs)) (ground arith))
