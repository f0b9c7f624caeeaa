-- ===== src/Frame/Cursor.antt =====
-- src/frame.c: a reader that stands between two parts of its buffer, and what it reads there.
use beaver_mq.Prelude.{
  ℕ, suc, ◌+◌, ◌*◌, ◌/◌, ◌%◌, ◌^◌, ◌<◌, ◌≡◌, refl, sym, ap, ◌∙◌, false, some, [], ◌∷◌, ◌++◌, Bytes,
  length, length-append, append_assoc, take_append, drop_append, arith,
}
use beaver_mq.Frame.Codec.{wire32, wire64}
use beaver_mq.Frame.Reader.{
  Reader, read_bytes, reader_take, byte, be_loop, read_u8, read_u16, read_u32, read_u64,
}

-- The reader that has consumed `pre` and has `rest` before it.
abbrev pub at_rest : Bytes → Bytes → Reader
at_rest pre rest = record {
  buf = pre ++ rest;
  len = length (pre ++ rest);
  pos = length pre;
  error = false;
}

-- The bytes behind a prefix are reached by adding its length.
pub byte-append : (pre xs : Bytes) (k : ℕ) → byte (pre ++ xs) (length pre + k) ≡ byte xs k
byte-append [] xs k = ap (byte xs) (omega arith)
byte-append (x ∷ pre) xs k =
    let e : suc (length pre) + k ≡ suc (length pre + k) = omega arith in
    ap (byte (x ∷ (pre ++ xs))) e ∙ byte-append pre xs k

pub byte-append_head : (pre xs : Bytes) → byte (pre ++ xs) (length pre) ≡ byte xs 0
byte-append_head pre xs =
    let e : length pre ≡ length pre + 0 = omega arith in
    ap (byte (pre ++ xs)) e ∙ byte-append pre xs 0

-- The reader moved on by what it took.
abbrev moved : Bytes → Bytes → Bytes → Reader
moved pre mid rest = record (at_rest pre (mid ++ rest)) { pos = length pre + length mid }

moved_lem : (pre mid rest : Bytes) → moved pre mid rest ≡ at_rest (pre ++ mid) rest
moved_lem pre mid rest = λ i. record {
  buf = sym (append_assoc pre mid rest) i;
  len = length (sym (append_assoc pre mid rest) i);
  pos = sym (length-append pre mid) i;
  error = false;
}

-- With `mid` at hand the reader takes it.
pub take-at_rest :
    (pre mid rest : Bytes) (n : ℕ)
    → length mid ≡ n
    → length (pre ++ (mid ++ rest)) < 2 ^ 64
    → reader_take (at_rest pre (mid ++ rest)) n ≡ (some (length pre), moved pre mid rest)
unfolding reader_take
take-at_rest pre mid rest n e h =
    let t : length (pre ++ (mid ++ rest)) ≡ length pre + (length mid + length rest) =
      length-append pre (mid ++ rest) ∙ ap (λ k. length pre + k) (length-append mid rest) in
    ground arith

-- The loop of bmqp_read_u64 as a fold over the bytes.
pub be_fold : ℕ → Bytes → ℕ
be_fold v [] = v
be_fold v (x ∷ xs) = be_fold (v * 256 % 2 ^ 64 + x) xs

be_loop-fold :
    (mid pre rest : Bytes) (v : ℕ)
    → be_loop (length mid) v (pre ++ (mid ++ rest)) (length pre) ≡ be_fold v mid
unfolding be_loop be_fold
be_loop-fold [] pre rest v = refl
be_loop-fold (x ∷ mid) pre rest v =
    let shift : pre ++ x ∷ (mid ++ rest) ≡ (pre ++ x ∷ []) ++ (mid ++ rest) =
      sym (append_assoc pre (x ∷ []) (mid ++ rest)) in
    let here : length pre + 1 ≡ length (pre ++ x ∷ []) = sym (length-append pre (x ∷ [])) in
    let buf = pre ++ x ∷ (mid ++ rest) in
    let after : be_loop (length mid) (v * 256 % 2 ^ 64 + byte buf (length pre)) buf (length pre + 1)
        ≡ be_fold (v * 256 % 2 ^ 64 + x) mid =
      rw (byte-append_head pre (x ∷ (mid ++ rest)), here, shift)
        (be_loop-fold mid (pre ++ x ∷ []) rest (v * 256 % 2 ^ 64 + x)) in
    after

be_fold-wire64 : (v : ℕ) → v < 2 ^ 64 → be_fold 0 (wire64 v) ≡ v
unfolding be_fold
be_fold-wire64 v b = omega arith

-- The readers move over the bytes of a number and return it.
module _ (pre rest : Bytes) where
  pub read_u8-at_rest :
      (v : ℕ)
      → length (pre ++ v ∷ rest) < 2 ^ 64
      → read_u8 (at_rest pre (v ∷ rest)) ≡ (v, at_rest (pre ++ v ∷ []) rest)
  unfolding read_u8
  read_u8-at_rest v h =
      rw (take-at_rest pre (v ∷ []) rest 1 refl h, byte-append_head, moved_lem pre (v ∷ []) rest)

  pub read_u16-at_rest :
      (v : ℕ)
      → v < 2 ^ 16
      → let mid = (v / 2 ^ 8 % 256) ∷ (v % 256) ∷ [] in
        length (pre ++ (mid ++ rest)) < 2 ^ 64
        → read_u16 (at_rest pre (mid ++ rest)) ≡ (v, at_rest (pre ++ mid) rest)
  unfolding read_u16
  read_u16-at_rest v b h =
      let mid = (v / 2 ^ 8 % 256) ∷ (v % 256) ∷ [] in
      rw
        (
          take-at_rest pre mid rest 2 refl h,
          byte-append_head,
          byte-append pre (mid ++ rest) 1,
          moved_lem pre mid rest,
        )
        (ground arith)

  pub read_u32-at_rest :
      (v : ℕ)
      → v < 2 ^ 32
      → length (pre ++ (wire32 v ++ rest)) < 2 ^ 64
      → read_u32 (at_rest pre (wire32 v ++ rest)) ≡ (v, at_rest (pre ++ wire32 v) rest)
  unfolding read_u32
  read_u32-at_rest v b h =
      rw
        (
          take-at_rest pre (wire32 v) rest 4 refl h,
          byte-append_head,
          byte-append pre (wire32 v ++ rest) 1,
          byte-append pre (wire32 v ++ rest) 2,
          byte-append pre (wire32 v ++ rest) 3,
          moved_lem pre (wire32 v) rest,
        )
        (ground arith)

  pub read_u64-at_rest :
      (v : ℕ)
      → v < 2 ^ 64
      → length (pre ++ (wire64 v ++ rest)) < 2 ^ 64
      → read_u64 (at_rest pre (wire64 v ++ rest)) ≡ (v, at_rest (pre ++ wire64 v) rest)
  unfolding read_u64 be_fold
  read_u64-at_rest v b h = rw (
    take-at_rest pre (wire64 v) rest 8 refl h,
    be_loop-fold (wire64 v) pre rest 0,
    be_fold-wire64 v b,
    moved_lem pre (wire64 v) rest,
  )

text-at_rest :
    (pre s rest : Bytes)
    → length (pre ++ (s ++ rest)) < 2 ^ 64
    → read_bytes (length s, at_rest pre (s ++ rest)) ≡ (some s, at_rest (pre ++ s) rest)
text-at_rest pre s rest h = rw (
  take-at_rest pre s rest (length s) refl h,
  drop_append pre (s ++ rest),
  take_append s rest,
  moved_lem pre s rest,
)

-- A text behind its length `p`.
pub text_after :
    (pre p s rest : Bytes)
    → length (pre ++ (p ++ (s ++ rest))) < 2 ^ 64
    → read_bytes (length s, at_rest (pre ++ p) (s ++ rest))
      ≡ (some s, at_rest (pre ++ (p ++ s)) rest)
text_after pre p s rest h =
    rw
      (text-at_rest (pre ++ p) s rest (rw (append_assoc pre p (s ++ rest)) h), append_assoc pre p s)
