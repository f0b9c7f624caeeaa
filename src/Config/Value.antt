-- ===== src/Config/Value.antt =====
-- src/config.c: the values of keys.
use beaver_mq.Prelude.{
  ℕ, ◌+◌, ◌-◌, ◌*◌, ◌%◌, ◌^◌, Bool, true, false, not, ◌&&◌, ◌||◌, Option, none, some, List, [], ◌∷◌,
  Bytes, codes, str_eq, take, ltb, leb, ◌==◌, if◌then◌else◌,
}
use beaver_mq.Config.Number.{
  is_space, case_eq, skip_space, read_number, strtoul_value, strtol_errno, is_below_zero,
  strtol_value, is_nil,
}

-- Without the white space at the end.
unfoldable pub trim_end : Bytes → Bytes
trim_end [] = []
trim_end (b ∷ bs) = let rest = trim_end bs in if is_space b && is_nil rest then [] else b ∷ rest

unfoldable pub trimmed : Bytes → Bytes
unfolding skip_space trim_end
trimmed s = trim_end (skip_space s)

pub data LogLevel : Type 0 where
  debug info warn error : LogLevel

unfoldable pub parse_log_level : Bytes → Option LogLevel
unfolding case_eq
parse_log_level v =
    if case_eq v (codes "debug")
    then some debug
    else if case_eq v (codes "info")
    then some info
    else if case_eq v (codes "warn") || case_eq v (codes "warning")
    then some warn
    else if case_eq v (codes "error")
    then some error
    else none

abbrev pub max_threads : ℕ
max_threads = 64

-- Text with no number counts as 0: the end of the number is not compared with the start.
unfoldable pub parse_threads : Bytes → Option ℕ
unfolding case_eq read_number
parse_threads v =
    let n = read_number v in
    let rest = if n.any then n.rest else v in
    let value = if n.any then strtol_value n else 0 in
    if case_eq v (codes "auto")
    then some 0
    else if (not (is_nil rest) || (n.any && is_below_zero n)) || ltb max_threads value
    then none
    else some value

-- `minv` is at least 0 in every call.
unfoldable pub parse_int : ℕ → ℕ → Bytes → Option ℕ
unfolding read_number
parse_int minv maxv v =
    let n = read_number v in
    if (((not n.any || not (is_nil n.rest)) || strtol_errno n) || is_below_zero n)
      || (ltb (strtol_value n) minv || ltb maxv (strtol_value n))
    then none
    else some (strtol_value n)

-- The factor of a suffix, and what follows it.
abbrev pub suffix : Bytes → ℕ × Bytes
suffix [] = (1, [])
suffix (b ∷ bs) =
    if (b == 107) || (b == 75)
    then (1024, bs)
    else if (b == 109) || (b == 77)
    then (1048576, bs)
    else (1, b ∷ bs)

unfoldable pub parse_size : Bytes → Option ℕ
parse_size v =
    let n = read_number v in
    let (factor, rest) = suffix n.rest in
    let value = strtoul_value n * factor % 2 ^ 64 in
    if not n.any || (not (is_nil rest) || ltb 4294967295 value) then none else some value

-- The value of strtoull, which must be in range.
unfoldable pub parse_length : Bytes → Option ℕ
unfolding read_number
parse_length v =
    let n = read_number v in
    if (not n.any || not (is_nil n.rest)) || ltb (2 ^ 64 - 1) n.magnitude
    then none
    else some (strtoul_value n)

unfoldable pub parse_bool : Bytes → Option Bool
unfolding case_eq str_eq
parse_bool v =
    if ((case_eq v (codes "on") || case_eq v (codes "true")) || case_eq v (codes "yes"))
      || str_eq v (codes "1")
    then some true
    else if ((case_eq v (codes "off") || case_eq v (codes "false")) || case_eq v (codes "no"))
        || str_eq v (codes "0")
    then some false
    else none

-- The pieces between commas; strtok_r gives the ones that are not empty.
unfoldable pub split_commas : Bytes → Bytes × List Bytes
split_commas [] = ([], [])
split_commas (b ∷ bs) =
    let (piece, more) = split_commas bs in if b == 44 then ([], piece ∷ more) else (b ∷ piece, more)

unfoldable pub skip_blanks : Bytes → Bytes
skip_blanks [] = []
skip_blanks (b ∷ bs) = let rest = skip_blanks bs in if (b == 32) || (b == 9) then rest else b ∷ bs

unfoldable pub has_byte : ℕ → Bytes → Bool
has_byte x [] = false
has_byte x (b ∷ bs) = if b == x then true else has_byte x bs

abbrev pub max_cluster_nodes : ℕ
max_cluster_nodes = 5

-- The loop over the tokens: `n` nodes are stored already. It ends at the first one too many.
unfoldable pub node_entries : ℕ → List Bytes → List Bytes
unfolding skip_blanks has_byte
node_entries n [] = []
node_entries n (t ∷ ts) =
    let tok = skip_blanks t in
    let skip = node_entries n ts in
    let more = node_entries (n + 1) ts in
    if is_nil tok
    then skip
    else if leb max_cluster_nodes n
    then []
    else if not (has_byte 58 tok)
    then skip
    else take 71 tok ∷ more

-- The nodes of a list; the copy that strtok_r cuts holds 359 bytes.
unfoldable pub cluster_entries : Bytes → List Bytes
unfolding split_commas node_entries
cluster_entries v = let (piece, more) = split_commas (take 359 v) in node_entries 0 (piece ∷ more)
