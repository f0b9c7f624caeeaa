-- ===== src/AuthLimit/Retry.antt =====
-- src/authlimit.c: what a recorded failure makes the next attempt wait.
use beaver_mq.Prelude.{
  ℕ, zero, suc, ◌+◌, ◌-◌, ◌%◌, ◌^◌, ◌≤◌, ◌<◌, ◌≡◌, refl, ap, ◌∙◌, inl, inr, Bool, true, false,
  Option, none, some, [], ◌∷◌, length, set, length-set, get_or-set_self, ltb, if◌then◌else◌,
  Bool-cases, Option-cases, Bytes, str_eq_refl, sub_size, add_size, arith,
}
use mathlib.Core.Path.{subst}
use beaver_mq.AuthLimit.Table.{
  Entry, Table, idle_reset_ms, max_ms, empty_entry, entry_at, norm_key, is_entry, find_from,
  find_locked, slot_from, find_or_create_locked, is_stale, is_empty, retry_after_at, retry_after_ms,
  delay_of, failed, record_failure,
}

-- No entry before index k is the key's.
unfoldable Clear : Bytes → ℕ → Table → Type 0
Clear key zero t = Unit
Clear key (suc k) [] = Unit
Clear key (suc k) (e ∷ es) = (is_entry key e ≡ false) × Clear key k es

find_from-some :
    (key : Bytes) (i j : ℕ) (t : Table)
    → find_from key i t ≡ some j
    → (k : ℕ) × (j ≡ i + k) × (k < length t) × Clear key k t × (is_entry key (entry_at t k) ≡ true)
unfolding find_from Clear
find_from-some key i j [] found = cc
find_from-some key i j (e ∷ es) found = elim (Bool-cases (is_entry key e)) [
  | inl y ↦
      let here : some i ≡ some j =
        subst (λ b. (if b then some i else find_from key (i + 1) es) ≡ some j) y found in
      (0, ground arith, omega arith, tt, y)
  | inr n ↦
      let later : find_from key (i + 1) es ≡ some j =
        subst (λ b. (if b then some i else find_from key (i + 1) es) ≡ some j) n found in
      let (k, at, inside, clear, own) = find_from-some key (i + 1) j es later in
      (suc k, omega arith, omega arith, (n, clear), own)
]

find_from-none : (key : Bytes) (i k : ℕ) (t : Table) → find_from key i t ≡ none → Clear key k t
unfolding find_from Clear
find_from-none key i zero t missing = tt
find_from-none key i (suc k) [] missing = tt
find_from-none key i (suc k) (e ∷ es) missing = elim (Bool-cases (is_entry key e)) [
  | inl y ↦
      let here : some i ≡ none =
        subst (λ b. (if b then some i else find_from key (i + 1) es) ≡ none) y missing in
      cc
  | inr n ↦ (
    n,
    find_from-none key (i + 1) k es
        (subst (λ b. (if b then some i else find_from key (i + 1) es) ≡ none) n missing),
  )
]

find_from-set :
    (key : Bytes) (i k : ℕ) (t : Table) (e : Entry)
    → k < length t
    → Clear key k t
    → is_entry key e ≡ true
    → find_from key i (set t k e) ≡ some (i + k)
unfolding find_from Clear
find_from-set key i k [] e h clear own = absurd (omega arith)
find_from-set key i zero (d ∷ es) e h clear own = rw own (ap some (omega arith))
find_from-set key i (suc k) (d ∷ es) e h clear own =
    rw clear.0 (find_from-set key (i + 1) k es e (omega arith) clear.1 own ∙ ap some (omega arith))

Clear-set : (key : Bytes) (k : ℕ) (t : Table) (e : Entry) → Clear key k t → Clear key k (set t k e)
unfolding Clear
Clear-set key zero t e clear = tt
Clear-set key (suc k) [] e clear = tt
Clear-set key (suc k) (d ∷ es) e clear = (clear.0, Clear-set key k es e clear.1)

slot_from-bound :
    (i : ℕ) (oldest : ℕ × ℕ) (t : Table)
    → oldest.0 < i + length t
    → slot_from i oldest t < i + length t
unfolding slot_from
slot_from-bound i oldest [] h = h
slot_from-bound i oldest (e ∷ es) h =
    let next = if ltb e.last_ms oldest.1 then (i, e.last_ms) else oldest in
    let inside : next.0 < i + 1 + length es = elim (Bool-cases (ltb e.last_ms oldest.1)) [
      | inl y ↦ rw y (omega arith)
      | inr n ↦ rw n (omega arith)
    ] in
    let rest = slot_from-bound (i + 1) next es inside in
    elim (Bool-cases e.used) [ inl y ↦ rw y (omega arith) | inr n ↦ rw n (omega arith) ]

-- How many failures count against the key: none if it has no entry, or one left idle too long.
unfoldable pub failures_at : Option ℕ → ℕ → Table → ℕ
failures_at none now_ms t = 0
failures_at (some i) now_ms t =
    if is_stale (entry_at t i) now_ms then 0 else (entry_at t i).failures

either : (b : Bool) (n : ℕ) → (if b then n else n) ≡ n
either true n = refl
either false n = refl

-- The entry that find_or_create_locked gives is the key's first one, and counts the same failures.
found_or_created :
    (key : Bytes) (now : ℕ) (t : Table)
    → 0 < length t
    → let (t', k) = find_or_create_locked key now t in
      (k < length t')
      × Clear key k t'
      × (is_entry key (entry_at t' k) ≡ true)
      × ((if is_stale (entry_at t' k) now then 0 else (entry_at t' k).failures)
          ≡ failures_at (find_locked key t) now t)
unfolding find_or_create_locked find_locked failures_at
found_or_created key now t h = elim (Option-cases (find_from key 0 t)) [
  | inl missing ↦
      let slot = slot_from 0 (0, (entry_at t 0).last_ms) t in
      let inside = slot_from-bound 0 (0, (entry_at t 0).last_ms) t (omega arith) in
      let made : Entry = record {
        key = key;
        failures = 0;
        next_ms = 0;
        last_ms = now;
        used = true;
      } in
      let there : entry_at (set t slot made) slot ≡ made =
        get_or-set_self t slot made empty_entry (omega arith) in
      rw (missing, there)
        (
          omega (arith, length-set t slot made, inside),
          Clear-set key slot t made (find_from-none key 0 slot t missing),
          str_eq_refl key,
          either (is_stale made now) 0,
        )
  | inr (j, found) ↦
      let (k, at, inside, clear, own) = find_from-some key 0 j t found in
      let same : j ≡ k = omega arith in rw (found, same) (inside, clear, own, refl)
]

delay_of-bound : (n : ℕ) → delay_of n ≤ max_ms
unfolding delay_of
delay_of-bound n = ground arith

-- The wait for an entry touched at `now` that is put off by `delay`.
retry_after_at-fresh :
    (t : Table) (k now now' delay : ℕ)
    → (entry_at t k).last_ms ≡ now
    → (entry_at t k).next_ms ≡ add_size now delay
    → delay ≤ max_ms
    → now ≤ now'
    → now' ≤ now + idle_reset_ms
    → now' + max_ms < 2 ^ 64
    → retry_after_at (some k) now' t ≡ (t, now + delay - now')
retry_after_at-fresh t k now now' delay last next h later soon small =
    let e = entry_at t k in
    let idle : sub_size now' e.last_ms ≡ now' - now = omega (arith, last) in
    let fresh : is_stale e now' ≡ false = rw idle (ground arith) in
    let until : e.next_ms ≡ now + delay = omega (arith, next) in
    elim (Bool-cases (ltb now' (now + delay))) [
      | inl y ↦ rw (fresh, until, y) refl
      | inr n ↦
          let none_left : now + delay - now' ≡ 0 = ground arith in
          rw (fresh, until, n, none_left) refl
    ]

-- After a failed attempt at `now`, the next one is put off until the delay for the failures that now
-- count has passed, and asking how long does not change the table. Here the key is not empty, the
-- question comes at most fifteen minutes later, and the clock does not wrap.
pub record_failure-retry :
    (key : Bytes) (now now' : ℕ) (t : Table)
    → is_empty key ≡ false
    → 0 < length t
    → now ≤ now'
    → now' ≤ now + idle_reset_ms
    → now' + max_ms < 2 ^ 64
    → let failures = (failures_at (find_locked (norm_key key) t) now t + 1) % 2 ^ 32 in
      retry_after_ms key now' (record_failure key now t)
      ≡ (record_failure key now t, now + delay_of failures - now')
unfolding record_failure retry_after_ms find_locked failed
record_failure-retry key now now' t nonempty h later soon small =
    let name = norm_key key in
    let (t', k) = find_or_create_locked name now t in
    let (inside, clear, own, counted) = found_or_created name now t h in
    let e = failed now (entry_at t' k) in
    let found = find_from-set name 0 k t' e inside clear own in
    let there : entry_at (set t' k e) k ≡ e = get_or-set_self t' k e empty_entry inside in
    let at : 0 + k ≡ k = omega arith in
    let t'' = set t' k e in
    let failures = (failures_at (find_locked name t) now t + 1) % 2 ^ 32 in
    let next : (entry_at t'' k).next_ms ≡ add_size now (delay_of failures) =
      ap (λ x. x.next_ms) there ∙ ap (λ n. add_size now (delay_of ((n + 1) % 2 ^ 32))) counted in
    rw (nonempty, found, at)
      (retry_after_at-fresh t'' k now now' (delay_of failures) (ap (λ x. x.last_ms) there) next
        (delay_of-bound failures) later soon small)
