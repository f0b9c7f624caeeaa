-- ===== src/Config/Size.antt =====
-- src/config.c: what parse_size makes of a size.
use beaver_mq.Prelude.{
  ℕ, ◌*◌, ◌%◌, ◌^◌, ◌≤◌, ◌<◌, ◌≡◌, refl, ◌∙◌, ◌⊎◌, inl, inr, true, false, none, some, [], Bytes,
  ltb, if◌then◌else◌, Bool-cases, arith,
}
use beaver_mq.Config.Number.{read_number, strtoul_value}
use beaver_mq.Config.Value.{suffix, parse_size}

-- A text that is a number with a suffix of the factor `f`, or none, and nothing else.
pub record IsSize (v : Bytes) (m f : ℕ) : Type 0 where
  pub some_digit : (read_number v).any ≡ true
  pub not_negative : (read_number v).negative ≡ false
  pub magnitude : (read_number v).magnitude ≡ m
  pub ends : suffix (read_number v).rest ≡ (f, [])

parse_size_eq :
    (v : Bytes) (m f : ℕ)
    → IsSize v m f
    → m < 2 ^ 64
    → parse_size v ≡ (if ltb 4294967295 (m * f % 2 ^ 64) then none else some (m * f % 2 ^ 64))
unfolding parse_size
parse_size_eq v m f s h =
    let e : strtoul_value (read_number v) ≡ m =
      (let a = s.not_negative in let b = s.magnitude in ground arith) in
    rw (s.ends, s.some_digit, e) refl

-- A size within 64 bits is accepted exactly if it is within 32 bits, and is read as its number times its
-- suffix.
pub parse_size_lem :
    (v : Bytes) (m f : ℕ)
    → IsSize v m f
    → m < 2 ^ 64
    → m * f < 2 ^ 64
    → (m * f < 4294967296) × (parse_size v ≡ some (m * f))
      ⊎ (4294967296 ≤ m * f) × (parse_size v ≡ none)
parse_size_lem v m f s h k =
    let e = parse_size_eq v m f s h in
    let z : m * f % 2 ^ 64 ≡ m * f = omega arith in
    elim (Bool-cases (ltb 4294967295 (m * f))) [
      | inl t ↦ inr (ground arith, e ∙ rw (z, t) refl)
      | inr t ↦ inl (ground arith, e ∙ rw (z, t) refl)
    ]

-- A number of kibibytes that is below 2 ^ 64 and a multiple of 2 ^ 54 is no error: the product wraps, and
-- the size is read as 0.
pub parse_size_wraps :
    (v : Bytes) (m k : ℕ) → IsSize v m 1024 → m < 2 ^ 64 → m ≡ k * 2 ^ 54 → parse_size v ≡ some 0
parse_size_wraps v m k s h e =
    let z : m * 1024 % 2 ^ 64 ≡ 0 = omega arith in parse_size_eq v m 1024 s h ∙ rw z refl
