-- ===== src/Config/Number.antt =====
-- What src/config.c uses of the C library on text: isspace, strcasecmp, strchr, and the number that strtol
-- and strtoul read.
use beaver_mq.Prelude.{
  ℕ, ◌+◌, ◌-◌, ◌*◌, ◌%◌, ◌^◌, Bool, true, false, not, ◌&&◌, ◌||◌, [], ◌∷◌, Bytes, str_eq, ltb, leb,
  ◌==◌, if◌then◌else◌,
}

abbrev pub is_space : ℕ → Bool
is_space b = (b == 32) || (leb 9 b && leb b 13)

abbrev pub is_digit : ℕ → Bool
is_digit b = leb 48 b && leb b 57

abbrev pub lower : ℕ → ℕ
lower b = if leb 65 b && leb b 90 then b + 32 else b

abbrev pub lowered : Bytes → Bytes
lowered [] = []
lowered (b ∷ bs) = lower b ∷ lowered bs

-- strcasecmp(a, b) == 0
unfoldable pub case_eq : Bytes → Bytes → Bool
unfolding str_eq
case_eq a b = str_eq (lowered a) (lowered b)

unfoldable pub skip_space : Bytes → Bytes
skip_space [] = []
skip_space (b ∷ bs) = let rest = skip_space bs in if is_space b then rest else b ∷ bs

-- The digits at the front: how many there are, the value after them, and the rest.
unfoldable pub read_digits : ℕ → Bytes → ℕ × ℕ × Bytes
read_digits v [] = (0, v, [])
read_digits v (b ∷ bs) =
    let (n, u, rest) = read_digits (v * 10 + (b - 48)) bs in
    if is_digit b then (n + 1, u, rest) else (0, v, b ∷ bs)

-- A number as written, not yet in any type: `any` tells whether there was a digit.
pub record Number : Type 0 where
  pub any : Bool
  pub negative : Bool
  pub magnitude : ℕ
  pub rest : Bytes

abbrev pub number_of : Bool → ℕ × ℕ × Bytes → Number
number_of neg (n, v, rest) = record {
  any = not (n == 0);
  negative = neg;
  magnitude = v;
  rest = rest;
}

abbrev pub signed : Bytes → Number
signed [] = number_of false (0, 0, [])
signed (b ∷ bs) =
    if b == 45
    then number_of true (read_digits 0 bs)
    else if b == 43
    then number_of false (read_digits 0 bs)
    else number_of false (read_digits 0 (b ∷ bs))

unfoldable pub read_number : Bytes → Number
unfolding skip_space read_digits
read_number s = signed (skip_space s)

-- The value of strtoul: on overflow ULONG_MAX, and after a minus sign the negation in the type.
abbrev pub strtoul_value : Number → ℕ
strtoul_value n =
    if ltb (2 ^ 64 - 1) n.magnitude
    then 2 ^ 64 - 1
    else if n.negative
    then (2 ^ 64 - n.magnitude) % 2 ^ 64
    else n.magnitude

-- Whether strtol sets errno, whether its value is below 0, and the value otherwise, at most LONG_MAX.
abbrev pub strtol_errno : Number → Bool
strtol_errno n = ltb (if n.negative then 2 ^ 63 else 2 ^ 63 - 1) n.magnitude

abbrev pub is_below_zero : Number → Bool
is_below_zero n = n.negative && not (n.magnitude == 0)

abbrev pub strtol_value : Number → ℕ
strtol_value n = if ltb (2 ^ 63 - 1) n.magnitude then 2 ^ 63 - 1 else n.magnitude

abbrev pub is_nil : Bytes → Bool
is_nil [] = true
is_nil (b ∷ bs) = false
