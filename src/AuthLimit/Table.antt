-- ===== src/AuthLimit/Table.antt =====
-- src/authlimit.c: the table of backoff entries, its operations and the cap on hashing. Every operation
-- on the table holds its lock from the first read to the last write, so it is one step; the counter of
-- hashes in flight is one atomic word.
use beaver_mq.Prelude.{
  ℕ, zero, suc, ◌+◌, ◌-◌, ◌*◌, ◌%◌, ◌^◌, Bool, true, false, ◌&&◌, Option, none, some, List, [], ◌∷◌,
  length, get_or, set, take, replicate, ltb, ◌==◌, if◌then◌else◌, Bytes, str_eq, sub_size, add_size,
}

abbrev pub table_size : ℕ
table_size = 1024

abbrev pub key_len : ℕ
key_len = 64

abbrev pub free_attempts : ℕ
free_attempts = 5

abbrev pub base_ms : ℕ
base_ms = 500

abbrev pub max_ms : ℕ
max_ms = 30000

abbrev pub idle_reset_ms : ℕ
idle_reset_ms = 900000

abbrev pub hash_concurrency : ℕ
hash_concurrency = 8

pub record Entry : Type 0 where
  pub key : Bytes
  pub failures : ℕ
  pub next_ms : ℕ
  pub last_ms : ℕ
  pub used : Bool

abbrev pub Table : Type 0
Table = List Entry

abbrev pub empty_entry : Entry
empty_entry = record { key = []; failures = 0; next_ms = 0; last_ms = 0; used = false }

abbrev pub entry_at : Table → ℕ → Entry
entry_at t i = get_or t i empty_entry

-- g_tab, statically zero
unfoldable pub reset_for_test : Table
reset_for_test = replicate table_size empty_entry

-- snprintf into AUTHLIMIT_KEYLEN bytes
unfoldable pub norm_key : Bytes → Bytes
norm_key key = take (key_len - 1) key

abbrev pub is_entry : Bytes → Entry → Bool
is_entry key e = e.used && str_eq e.key key

-- The index of the entry, from index `i` on.
unfoldable pub find_from : Bytes → ℕ → Table → Option ℕ
find_from key i [] = none
find_from key i (e ∷ es) =
    let rest = find_from key (i + 1) es in if is_entry key e then some i else rest

unfoldable pub find_locked : Bytes → Table → Option ℕ
unfolding find_from
find_locked key t = find_from key 0 t

-- The loop of find_or_create_locked: the first free slot, or else the oldest entry; `oldest` is the
-- index and the last_ms of the oldest entry so far.
unfoldable pub slot_from : ℕ → ℕ × ℕ → Table → ℕ
slot_from i oldest [] = oldest.0
slot_from i oldest (e ∷ es) =
    let rest = slot_from (i + 1) (if ltb e.last_ms oldest.1 then (i, e.last_ms) else oldest) es in
    if e.used then rest else i

abbrev pub find_or_create_at : Option ℕ → Bytes → ℕ → Table → Table × ℕ
find_or_create_at (some i) key now_ms t = (t, i)
find_or_create_at none key now_ms t =
    let slot = slot_from 0 (0, (entry_at t 0).last_ms) t in
    (
      set t slot record { key = key; failures = 0; next_ms = 0; last_ms = now_ms; used = true },
      slot,
    )

-- The table and the index of the entry for the key.
unfoldable pub find_or_create_locked : Bytes → ℕ → Table → Table × ℕ
unfolding find_locked slot_from
find_or_create_locked key now_ms t = find_or_create_at (find_locked key t) key now_ms t

abbrev pub is_stale : Entry → ℕ → Bool
is_stale e now_ms = ltb idle_reset_ms (sub_size now_ms e.last_ms)

abbrev pub retry_after_at : Option ℕ → ℕ → Table → Table × ℕ
retry_after_at none now_ms t = (t, 0)
retry_after_at (some i) now_ms t =
    let e = entry_at t i in
    if is_stale e now_ms
    then (set t i (record e { used = false }), 0)
    else if ltb now_ms e.next_ms
    then (t, e.next_ms - now_ms)
    else (t, 0)

-- A NULL key and an empty one are the same here.
abbrev pub is_empty : Bytes → Bool
is_empty key = length key == 0

-- The table and the wait.
unfoldable pub retry_after_ms : Bytes → ℕ → Table → Table × ℕ
unfolding find_locked norm_key
retry_after_ms key now_ms t =
    if is_empty key then (t, 0) else retry_after_at (find_locked (norm_key key) t) now_ms t

-- `for (i = 1; i < over && d < MAX_MS; i++) d <<= 1`, by `over - i` rounds at most
unfoldable pub doubled : ℕ → ℕ → ℕ
doubled zero d = d
doubled (suc rounds) d =
    let next = doubled rounds ((d * 2) % 2 ^ 64) in if ltb d max_ms then next else d

-- The delay after so many failures.
unfoldable pub delay_of : ℕ → ℕ
unfolding doubled
delay_of failures =
    let d = doubled (failures - free_attempts - 1) base_ms in
    if ltb free_attempts failures then (if ltb max_ms d then max_ms else d) else 0

-- The update of the entry in authlimit_record_failure.
unfoldable pub failed : ℕ → Entry → Entry
unfolding delay_of
failed now_ms e =
    let before = if is_stale e now_ms then 0 else e.failures in
    let failures = (before + 1) % 2 ^ 32 in
    record e {
      failures = failures;
      last_ms = now_ms;
      next_ms = add_size now_ms (delay_of failures);
    }

unfoldable pub record_failure : Bytes → ℕ → Table → Table
unfolding find_or_create_locked failed norm_key
record_failure key now_ms t =
    let (t', i) = find_or_create_locked (norm_key key) now_ms t in
    if is_empty key then t else set t' i (failed now_ms (entry_at t' i))

abbrev pub cleared : Option ℕ → Table → Table
cleared none t = t
cleared (some i) t = set t i (record (entry_at t i) { used = false })

unfoldable pub record_success : Bytes → Table → Table
unfolding find_locked norm_key
record_success key t = if is_empty key then t else cleared (find_locked (norm_key key) t) t

-- Whether it returns 0, and the count of hashes in flight. The compare-and-swap is one step: a loop
-- round that loses the race only reads the count again.
unfoldable pub hash_begin : ℕ → Bool × ℕ
hash_begin cur = if ltb cur hash_concurrency then (true, cur + 1) else (false, cur)

-- An int: a caller ends only what it began, so the count is positive here.
unfoldable pub hash_end : ℕ → ℕ
hash_end cur = cur - 1
