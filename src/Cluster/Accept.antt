-- ===== src/Cluster/Accept.antt =====
-- src/cluster.c: what an accepted batch leaves in a follower's log.
use beaver_mq.Prelude.{
  ℕ, zero, suc, ◌+◌, ◌-◌, ◌≤◌, ◌≡◌, refl, sym, ap, ◌∙◌, Bool, true, false, List, [], ◌∷◌, ◌++◌,
  append-nil, append_assoc, length, take, ltb, leb, arith, Bool-cases, inl, inr,
}
use beaver_mq.Cluster.State.{
  LogEntry, Log, last_index, Node, Answers, Recorded, recorded, recorded_after_failure, refused,
  update_health, storage_write_failed, persist_meta,
}
use beaver_mq.Cluster.Log.{payload_of, appended, log_append, log_truncate_from}
use beaver_mq.Cluster.Message.{WireEntry}
use beaver_mq.Cluster.Replicate.{persist_write_flush}
use beaver_mq.Cluster.Election.{observe_term}
use beaver_mq.Cluster.Follower.{affirm, append_entries}

-- The log entry that a wire entry becomes.
abbrev pub received : WireEntry → LogEntry
received e = record {
  term = e.term;
  op_type = e.op_type;
  len = length e.bytes;
  payload = payload_of e.bytes;
}

abbrev pub with_entries : Log → List LogEntry → Log
with_entries log l = record log { entries = l }

abbrev pub all_received : List WireEntry → List LogEntry
all_received [] = []
all_received (e ∷ es) = received e ∷ all_received es

appended_log :
    (r : Recorded) (n : Node) (e : LogEntry)
    → (appended r n e).0 ≡ true
    → (appended r n e).1.log ≡ record n.log { entries = n.log.entries ++ e ∷ [] }
unfolding storage_write_failed update_health
appended_log recorded n e h = refl
appended_log recorded_after_failure n e h = ground arith
appended_log refused n e h = absurd (cc)

log_append_log :
    (a : Answers) (n : Node) (e : WireEntry)
    → (log_append a n e.term e.op_type e.bytes).0 ≡ true
    → (log_append a n e.term e.op_type e.bytes).1.log
      ≡ record n.log { entries = n.log.entries ++ received e ∷ [] }
unfolding log_append
log_append_log a n e h = elim (Bool-cases (a.memory (last_index n.log + 1))) [
  | inl t ↦ let g = appended_log (a.wal (last_index n.log + 1)) n (received e) in ground arith
  | inr t ↦ ground arith
]

pub append_entries_log :
    (a : Answers) (k : ℕ) (es : List WireEntry) (n : Node)
    → (append_entries a k es n).0 ≡ true
    → ((append_entries a k es n).1.log
        ≡ record n.log { entries = n.log.entries ++ all_received (take k es) })
      × (k ≤ length es)
unfolding append_entries
append_entries_log a zero es n h =
    (ap (with_entries n.log) (sym (append-nil n.log.entries)), omega arith)
append_entries_log a (suc k) [] n h = absurd (cc)
append_entries_log a (suc k) (e ∷ es) n h =
    elim (Bool-cases (log_append a n e.term e.op_type e.bytes).0) [
      | inl t ↦
          let m = (log_append a n e.term e.op_type e.bytes).1 in
          let g = log_append_log a n e t in
          let (q, l) = append_entries_log a k es m (ground arith) in
          rw t (
            q
                ∙ (ap (λ lg. with_entries lg (lg.entries ++ all_received (take k es))) g
                    ∙ ap (with_entries n.log) (append_assoc n.log.entries (received e ∷ []) _)),
            omega arith,
          )
      | inr t ↦ ground arith
    ]

pub take_all {ℓ} : {A : Type ℓ} (k : ℕ) (xs : List A) → length xs ≤ k → take k xs ≡ xs
take_all zero [] h = refl
take_all zero (x ∷ xs) h = absurd (omega arith)
take_all (suc k) [] h = refl
take_all (suc k) (x ∷ xs) h = ap (λ t. x ∷ t) (take_all k xs (omega arith))

pub truncated_log :
    (w : Bool) (n : Node) (prev : ℕ)
    → n.log.base_index ≤ prev
    → prev ≤ last_index n.log
    → (log_truncate_from w n (prev + 1)).log
      ≡ record n.log { entries = take (prev - n.log.base_index) n.log.entries }
unfolding log_truncate_from storage_write_failed update_health
truncated_log w n prev h k =
    let e1 : leb (prev + 1) n.log.base_index ≡ false = ground arith in
    rw e1 (elim (Bool-cases (ltb (last_index n.log) (prev + 1))) [
      | inl t ↦
          let e2 = take_all (prev - n.log.base_index) n.log.entries (ground arith) in
          rw t (ap (with_entries n.log) (sym e2))
      | inr t ↦
          let e3 : prev + 1 - n.log.base_index - 1 ≡ prev - n.log.base_index = omega arith in
          rw (t, e3) refl
    ])

pub affirm_log : (from now : ℕ) (c : Bool) (n : Node) → (affirm from now c n).log ≡ n.log
unfolding affirm update_health
affirm_log from now c n = refl

pub observe_term_log : (a : Answers) (t : ℕ) (n : Node) → (observe_term a t n).1.log ≡ n.log
unfolding observe_term persist_meta storage_write_failed update_health
observe_term_log a t n = ground arith

pub flush_log : (w : Bool) (n : Node) → (persist_write_flush w n).log ≡ n.log
unfolding persist_write_flush storage_write_failed update_health
flush_log true n = refl
flush_log false n = ground arith
