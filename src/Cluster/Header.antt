-- ===== src/Cluster/Header.antt =====
-- include/cluster.h and src/cluster.c: the header of a frame between nodes.
use beaver_mq.Prelude.{
  ℕ, ◌+◌, ◌*◌, ◌/◌, ◌%◌, ◌≤◌, ◌<◌, ◌≡◌, refl, ap, ◌∙◌, ◌⊎◌, inl, inr, false, not, ◌||◌, Option,
  none, some, ◌∷◌, Bytes, length, get_or, ltb, ◌==◌, if◌then◌else◌, Bool-cases, arith,
}

pub record Header : Type 0 where
  pub magic : ℕ
  pub version : ℕ
  pub frame_type : ℕ
  pub flags : ℕ
  pub term : ℕ
  pub payload_length : ℕ
  pub crc32 : ℕ

abbrev pub hdr_size : ℕ
hdr_size = 16

abbrev pub frame_magic : ℕ
frame_magic = 183

abbrev pub proto_version : ℕ
proto_version = 1

abbrev pub max_payload : ℕ
max_payload = 16777216

unfoldable pub put_be32 : ℕ → Bytes → Bytes
put_be32 v rest = (v / 16777216) % 256 ∷ (v / 65536) % 256 ∷ (v / 256) % 256 ∷ v % 256 ∷ rest

abbrev pub byte_at : Bytes → ℕ → ℕ
byte_at bs i = get_or bs i 0

unfoldable pub get_be32 : ℕ → ℕ → ℕ → ℕ → ℕ
get_be32 a b c d = a * 16777216 + b * 65536 + c * 256 + d

unfoldable pub cluster_hdr_pack : Header → Bytes → Bytes
unfolding put_be32
cluster_hdr_pack h rest =
    h.magic
    ∷ h.version
    ∷ h.frame_type
    ∷ h.flags
    ∷ put_be32 h.term (put_be32 h.payload_length (put_be32 h.crc32 rest))

-- The fields that the bytes spell.
unfoldable pub header_fields : Bytes → Header
unfolding get_be32
header_fields bs = record {
  magic = byte_at bs 0;
  version = byte_at bs 1;
  frame_type = byte_at bs 2;
  flags = byte_at bs 3;
  term = get_be32 (byte_at bs 4) (byte_at bs 5) (byte_at bs 6) (byte_at bs 7);
  payload_length = get_be32 (byte_at bs 8) (byte_at bs 9) (byte_at bs 10) (byte_at bs 11);
  crc32 = get_be32 (byte_at bs 12) (byte_at bs 13) (byte_at bs 14) (byte_at bs 15);
}

-- The tests on the fields that were read.
abbrev pub checked_header : Header → Option Header
checked_header h =
    if not (h.magic == frame_magic) || not (h.version == proto_version)
    then none
    else if ltb max_payload h.payload_length
    then none
    else some h

unfoldable pub cluster_hdr_parse : Bytes → Option Header
cluster_hdr_parse bs = if ltb (length bs) hdr_size then none else checked_header (header_fields bs)

-- A 32-bit word survives its four bytes.
word_lem :
    (v : ℕ)
    → v < 4294967296
    → get_be32 ((v / 16777216) % 256) ((v / 65536) % 256) ((v / 256) % 256) (v % 256) ≡ v
unfolding get_be32
word_lem v h = omega arith

-- What a receiver accepts.
pub record IsHeader (h : Header) : Type 0 where
  pub magic : h.magic ≡ frame_magic
  pub version : h.version ≡ proto_version
  pub payload : h.payload_length ≤ max_payload

header_fields-pack :
    (h : Header) (rest : Bytes)
    → h.term < 4294967296
    → h.payload_length < 4294967296
    → h.crc32 < 4294967296
    → header_fields (cluster_hdr_pack h rest) ≡ h
unfolding header_fields cluster_hdr_pack put_be32
header_fields-pack h rest a b c =
    rw (word_lem h.term a, word_lem h.payload_length b, word_lem h.crc32 c) refl

pack-length : (h : Header) (rest : Bytes) → ltb (length (cluster_hdr_pack h rest)) hdr_size ≡ false
unfolding cluster_hdr_pack put_be32
pack-length h rest = ground arith

parse_pack :
    (h : Header) (rest : Bytes)
    → h.term < 4294967296
    → h.payload_length < 4294967296
    → h.crc32 < 4294967296
    → cluster_hdr_parse (cluster_hdr_pack h rest) ≡ checked_header h
unfolding cluster_hdr_parse
parse_pack h rest a b c =
    rw (pack-length h rest) (ap checked_header (header_fields-pack h rest a b c))

-- A header that is packed is read back as it was, whatever follows it, exactly if its magic number and its
-- version are the cluster's and its payload is within 16 MiB; otherwise it is refused. Its words have 32
-- bits.
pub cluster_hdr_parse-cluster_hdr_pack :
    (h : Header) (rest : Bytes)
    → h.term < 4294967296
    → h.payload_length < 4294967296
    → h.crc32 < 4294967296
    → IsHeader h × (cluster_hdr_parse (cluster_hdr_pack h rest) ≡ some h)
      ⊎ (¬ IsHeader h) × (cluster_hdr_parse (cluster_hdr_pack h rest) ≡ none)
cluster_hdr_parse-cluster_hdr_pack h rest a b c =
    let e = parse_pack h rest a b c in
    elim (Bool-cases (not (h.magic == frame_magic) || not (h.version == proto_version))) [
      | inl t ↦ inr (λ i. (let p = i.magic in let q = i.version in ground arith), e ∙ rw t refl)
      | inr t ↦ elim (Bool-cases (ltb max_payload h.payload_length)) [
        | inl u ↦ inr (λ i. (let p = i.payload in ground arith), e ∙ rw (t, u) refl)
        | inr u ↦ inl (
          record { magic = ground arith; version = ground arith; payload = ground arith },
          e ∙ rw (t, u) refl,
        )
      ]
    ]
