-- ===== src/Cluster/Slice.antt =====
-- src/cluster.c: the operations that are handed on, as a slice of the log's entries.
use beaver_mq.Prelude.{
  ℕ, zero, suc, ◌+◌, ◌-◌, ◌≤◌, ◌<◌, ◌≡◌, refl, sym, ap, ◌∙◌, inl, inr, Bool-cases, ltb, leb, false,
  none, some, List, [], ◌∷◌, length, take, drop, get_elem?, arith,
}
use beaver_mq.Cluster.State.{LogEntry, Log, last_index}
use beaver_mq.Cluster.Log.{log_at, to_apply}

elem_at :
    (xs : List LogEntry) (i : ℕ)
    → i < length xs
    → (e : LogEntry) × (get_elem? xs i ≡ some e) × (drop i xs ≡ e ∷ drop (i + 1) xs)
elem_at [] i h = absurd (omega arith)
elem_at (x ∷ xs) zero h = (x, refl, refl)
elem_at (x ∷ xs) (suc i) h =
    let (e, p, q) = elem_at xs i (omega arith) in
    let k : suc i + 1 ≡ suc (i + 1) = omega arith in
    (e, p, q ∙ ap (λ j. e ∷ drop j (x ∷ xs)) (sym k))

log_at_elem :
    (log : Log) (i : ℕ)
    → i < length log.entries
    → log_at log (log.base_index + 1 + i) ≡ get_elem? log.entries i
unfolding log_at
log_at_elem log i h =
    let k : log.base_index + 1 + i - log.base_index - 1 ≡ i = omega arith in
    let e1 : leb (log.base_index + 1 + i) log.base_index ≡ false = ground arith in
    let e2 : ltb (last_index log) (log.base_index + 1 + i) ≡ false = ground arith in
    rw (k, e1, e2) refl

to_apply_cons :
    (log : Log) (idx k : ℕ) (e : LogEntry)
    → log_at log idx ≡ some e
    → to_apply log idx (suc k) ≡ e ∷ to_apply log (idx + 1) k
unfolding to_apply
to_apply_cons log idx k e h = rw (h, to_apply) refl

-- The `k` entries from the list's index `i` on.
pub to_apply-take :
    (log : Log) (k i : ℕ)
    → i + k ≤ length log.entries
    → to_apply log (log.base_index + 1 + i) k ≡ take k (drop i log.entries)
unfolding to_apply
to_apply-take log zero i h = refl
to_apply-take log (suc k) i h =
    let (e, p, q) = elem_at log.entries i (omega arith) in
    let ih = to_apply-take log k (i + 1) (omega arith) in
    let j : log.base_index + 1 + (i + 1) ≡ log.base_index + 1 + i + 1 = omega arith in
    to_apply_cons log (log.base_index + 1 + i) k e (log_at_elem log i (omega arith) ∙ p)
    ∙ (ap (λ (x : ℕ). e ∷ to_apply log x k) (sym j)
        ∙ (ap (λ t. e ∷ t) ih ∙ ap (take (suc k)) (sym q)))

drop_past : (xs : List LogEntry) (i : ℕ) → length xs ≤ i → drop i xs ≡ []
drop_past [] zero h = refl
drop_past [] (suc i) h = refl
drop_past (x ∷ xs) zero h = absurd (omega arith)
drop_past (x ∷ xs) (suc i) h = drop_past xs i (omega arith)

take_nothing : (k : ℕ) → take {A = LogEntry} k [] ≡ []
take_nothing zero = refl
take_nothing (suc k) = refl

to_apply-none :
    (log : Log) (idx k : ℕ)
    → log_at log idx ≡ none
    → to_apply log idx (suc k) ≡ to_apply log (idx + 1) k
unfolding to_apply
to_apply-none log idx k h = rw (h, to_apply) refl

log_at_past : (log : Log) (idx : ℕ) → last_index log < idx → log_at log idx ≡ none
unfolding log_at
log_at_past log idx h = ground arith

to_apply_past : (log : Log) (k idx : ℕ) → last_index log < idx → to_apply log idx k ≡ []
unfolding to_apply
to_apply_past log zero idx h = refl
to_apply_past log (suc k) idx h =
    to_apply-none log idx k (log_at_past log idx h) ∙ to_apply_past log k (idx + 1) (omega arith)

-- The `k` indices after `i`, of which those in the log hold the entries.
pub to_apply-slice :
    (log : Log) (k i : ℕ)
    → log.base_index ≤ i
    → to_apply log (i + 1) k ≡ take k (drop (i - log.base_index) log.entries)
unfolding to_apply
to_apply-slice log zero i h = refl
to_apply-slice log (suc k) i h =
    let at : log.base_index + 1 + (i - log.base_index) ≡ i + 1 = omega arith in
    let next : i + 1 - log.base_index ≡ i - log.base_index + 1 = omega arith in
    elim (Bool-cases (ltb (i - log.base_index) (length log.entries))) [
      | inl inside ↦
          let (e, p, q) = elem_at log.entries (i - log.base_index) (ground arith) in
          let here : log_at log (i + 1) ≡ some e =
            ap (log_at log) (sym at) ∙ log_at_elem log (i - log.base_index) (ground arith) ∙ p in
          let ih = to_apply-slice log k (i + 1) (omega arith) in
          to_apply_cons log (i + 1) k e here
          ∙ ap (λ t. e ∷ t) (ih ∙ ap (λ j. take k (drop j log.entries)) next)
          ∙ ap (take (suc k)) (sym q)
      | inr outside ↦
          to_apply_past log (suc k) (i + 1) (ground arith)
          ∙ sym (ap (take (suc k)) (drop_past log.entries (i - log.base_index) (ground arith)))
    ]
