-- ===== src/Prelude/Words.antt =====
-- size_t and uint64_t arithmetic: both are 64 bits wide and wrap.
use Prim.Native.Nat.{ℕ, ◌+◌, ◌-◌, ◌%◌, ◌^◌}

abbrev pub add_size : ℕ → ℕ → ℕ
add_size a b = (a + b) % 2 ^ 64

abbrev pub sub_size : ℕ → ℕ → ℕ
sub_size a b = (a + 2 ^ 64 - b % 2 ^ 64) % 2 ^ 64
