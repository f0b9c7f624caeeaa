-- ===== src/Frame/Tests.antt =====
-- Runs of the frame codec on concrete bytes, and the theorems on it at concrete inputs.
use beaver_mq.Prelude.{
  ℕ, ◌+◌, ◌≡◌, refl, Bool, true, false, some, List, [], ◌∷◌, ◌++◌, Bytes, codes, length, take, All,
  map, arith,
}
use beaver_mq.Frame.Reader.{reader_init, reader_remaining, read_u32}
use beaver_mq.Frame.Buffer.{buf_init, grow_cap}
use beaver_mq.Frame.Envelope.{frame, bad, incomplete, frame_parse, frame_write}
use beaver_mq.Frame.Codec.{
  Field, u8, u16, shortstr, longstr, shape, InRange, wire_all, put_fields, read_fields,
}
use beaver_mq.Frame.RoundTrip.{put_fields_lem, read_fields-put_fields}
use beaver_mq.Frame.Parse.{frame_bytes, frame_parse-frame_bytes, frame_parse-take}
use beaver_mq.Frame.Write.{frame_parse-frame_write}

abbrev grant_all : ℕ → Bool
grant_all n = true

abbrev three_fields : List Field
three_fields = u16 513 ∷ shortstr (codes "ab") ∷ longstr (5 ∷ 6 ∷ []) ∷ []

abbrev three_in_range : All InRange three_fields
three_in_range = (omega arith, (omega arith, (omega arith, tt)))

abbrev body : Bytes
body = 10 ∷ 20 ∷ 30 ∷ []

wire_three : wire_all three_fields ≡ 2 ∷ 1 ∷ 2 ∷ 97 ∷ 98 ∷ 0 ∷ 0 ∷ 0 ∷ 2 ∷ 5 ∷ 6 ∷ []
wire_three = refl

-- A byte other than 206 where the frame ends.
bad_end : frame_parse (1 ∷ 0 ∷ 3 ∷ 0 ∷ 0 ∷ 0 ∷ 1 ∷ 9 ∷ 205 ∷ []) ≡ bad
unfolding frame_parse
bad_end = refl

-- A payload longer than 16 MiB is refused before it arrives.
too_long : frame_parse (1 ∷ 0 ∷ 3 ∷ 1 ∷ 0 ∷ 0 ∷ 1 ∷ []) ≡ bad
unfolding frame_parse
too_long = refl

short_read : (read_u32 (reader_init (1 ∷ 2 ∷ []) 2)).0 ≡ 0
unfolding read_u32 reader_init
short_read = refl

written : (put_fields grant_all buf_init three_fields).error ≡ false
written = (put_fields_lem grant_all three_fields three_in_range (λ n. refl) (omega arith)).0

read_fields-put_fields_example :
    let b = put_fields grant_all buf_init three_fields in
    let (got, r) = read_fields (map shape three_fields) (reader_init b.bytes (length b.bytes)) in
    (got ≡ map some three_fields) × (r.error ≡ false) × (reader_remaining r ≡ 0)
read_fields-put_fields_example =
    read_fields-put_fields grant_all three_fields three_in_range written (omega arith)

frame_parse-frame_bytes_example :
    frame_parse (frame_bytes 1 7 body ++ 99 ∷ [])
    ≡ frame (record { type = 1; channel = 7; payload_len = length body }) body (length body + 8)
frame_parse-frame_bytes_example =
    frame_parse-frame_bytes 1 7 body (omega arith) (omega arith) (99 ∷ [])

frame_parse-take_example : frame_parse (take 9 (frame_bytes 1 7 body)) ≡ incomplete
frame_parse-take_example = frame_parse-take 1 7 body (omega arith) (omega arith) 9 (omega arith)

abbrev one_frame : Bytes
one_frame = 1 ∷ 0 ∷ 7 ∷ 0 ∷ 0 ∷ 0 ∷ 1 ∷ 42 ∷ 206 ∷ 8 ∷ []

one_frame_parsed :
    frame_parse one_frame ≡ frame (record { type = 1; channel = 7; payload_len = 1 }) (42 ∷ []) 9
unfolding frame_parse
one_frame_parsed = refl

abbrev one_field : List Field
one_field = u8 42 ∷ []

sent : (frame_write grant_all buf_init 1 7 body).error ≡ false
unfolding frame_write grow_cap
sent = refl

frame_parse-frame_write_example :
    frame_parse ((frame_write grant_all buf_init 1 7 body).bytes ++ 5 ∷ [])
    ≡ frame (record { type = 1; channel = 7; payload_len = length body }) body (length body + 8)
frame_parse-frame_write_example =
    frame_parse-frame_write grant_all 1 7 body (5 ∷ []) (omega arith) (omega arith) sent
