-- ===== src/Cluster/Matching.antt =====
-- src/cluster.c: the log of a follower that accepts a batch, against the leader's.
use beaver_mq.Prelude.{
  ℕ, zero, suc, ◌+◌, ◌-◌, ◌≤◌, ◌≡◌, refl, sym, ap, ◌∙◌, ◌⊎◌, Bool, true, false, not, ◌&&◌, ◌||◌,
  none, some, List, [], ◌∷◌, ◌++◌, length, take, ltb, ◌==◌, if◌then◌else◌, arith, Bool-cases, inl,
  inr,
}
use beaver_mq.Cluster.State.{LogEntry, Log, last_index, Node, Answers}
use beaver_mq.Cluster.Log.{
  log_term_at, free_payloads, log_truncate_from, compact_payloads, apply_committed,
}
use beaver_mq.Cluster.Message.{
  AppendBody, prevote, prevote_resp, vote_req, vote_resp, append, append_resp, Effect, send, apply,
  transfer,
}
use beaver_mq.Cluster.Replicate.{persist_write_flush}
use beaver_mq.Cluster.Election.{observe_term}
use beaver_mq.Cluster.Follower.{
  send_append_resp, affirm, append_entries, take_commit, take_entries, take_batch, take_append,
  on_append,
}
use beaver_mq.Cluster.Ballots.{observe_term-Votes}
use beaver_mq.Cluster.Accept.{
  with_entries, all_received, append_entries_log, truncated_log, affirm_log, observe_term_log,
  flush_log,
}

-- An effect that acknowledges a batch.
abbrev pub is_ack : Effect → Bool
is_ack (send to (append_resp t (some r))) = r.success
is_ack (send to (append_resp t none)) = false
is_ack (send to (append t c b)) = false
is_ack (send to (prevote t b)) = false
is_ack (send to (prevote_resp t g)) = false
is_ack (send to (vote_req t b)) = false
is_ack (send to (vote_resp t g)) = false
is_ack (apply op) = false
is_ack (transfer to) = false

abbrev pub acks : List Effect → Bool
acks [] = false
acks (e ∷ es) = is_ack e || acks es

-- An entry less its body, which compaction frees.
abbrev pub stamp : LogEntry → ℕ × ℕ × ℕ
stamp e = (e.term, e.op_type, e.len)

abbrev pub stamps : List LogEntry → List (ℕ × ℕ × ℕ)
stamps [] = []
stamps (e ∷ es) = stamp e ∷ stamps es

stamps-free_payloads : (s r : ℕ) (l : List LogEntry) → stamps (free_payloads s r l) ≡ stamps l
unfolding free_payloads
stamps-free_payloads s r [] = refl
stamps-free_payloads zero zero (e ∷ es) = refl
stamps-free_payloads zero (suc r) (e ∷ es) = ap (λ t. stamp e ∷ t) (stamps-free_payloads zero r es)
stamps-free_payloads (suc s) r (e ∷ es) = ap (λ t. stamp e ∷ t) (stamps-free_payloads s r es)

stamps-compact_payloads :
    (log : Log) (upto : ℕ) → stamps (compact_payloads log upto).entries ≡ stamps log.entries
unfolding compact_payloads
stamps-compact_payloads log upto =
    let to = if ltb log.commit_index upto then log.commit_index else upto in
    let from = if ltb log.compacted_to log.base_index then log.base_index else log.compacted_to in
    let e = stamps-free_payloads (from - log.base_index) (to - from) log.entries in ground arith

stamps-take_commit :
    (b : AppendBody) (n : Node) → stamps (take_commit b n).1.log.entries ≡ stamps n.log.entries
unfolding take_commit apply_committed
stamps-take_commit b n =
    let newc =
      if ltb b.leader_commit (last_index n.log) then b.leader_commit else last_index n.log in
    let d = (apply_committed (record n.log { commit_index = newc })).1 in
    let e1 = stamps-compact_payloads n.log b.compact_index in
    let e2 = stamps-compact_payloads d b.compact_index in ground arith

-- What an accepted batch says of the node before it and after it.
pub record Accepted (b : AppendBody) (n m : Node) : Type 0 where
  pub long_enough : b.prev_index ≤ last_index n.log
  pub prev_matches : (b.prev_index ≡ 0) ⊎ (log_term_at n.log b.prev_index ≡ b.prev_term)
  pub all_there : b.count ≤ length b.entries
  pub replaced :
      stamps m.log.entries
      ≡ stamps (
          take (b.prev_index - n.log.base_index) n.log.entries
          ++ all_received (take b.count b.entries))
  pub stored : m.storage_failed ≡ false

take_entries_accepted :
    (a : Answers) (from : ℕ) (b : AppendBody) (n : Node)
    → n.log.base_index ≤ b.prev_index
    → b.prev_index ≤ last_index n.log
    → acks (take_entries a from b n).0 ≡ true
    → (b.count ≤ length b.entries)
      × (stamps (take_entries a from b n).1.log.entries
          ≡ stamps (
              take (b.prev_index - n.log.base_index) n.log.entries
              ++ all_received (take b.count b.entries)))
      × ((take_entries a from b n).1.storage_failed ≡ false)
unfolding take_entries send_append_resp
take_entries_accepted a from b n h k s =
    let t = log_truncate_from a.truncate_write n (b.prev_index + 1) in
    let r = append_entries a b.count b.entries t in
    let w = persist_write_flush a.batch_write r.1 in
    elim (Bool-cases r.0) [
      | inl e ↦ elim (Bool-cases w.storage_failed) [
        | inl f ↦ ground arith
        | inr f ↦
            let (q, l) = append_entries_log a b.count b.entries t e in
            let e1 = truncated_log a.truncate_write n b.prev_index h k in
            let e2 = flush_log a.batch_write r.1 in
            let e3 = stamps-take_commit b w in
            rw (e, f)
              (
                l,
                e3
                    ∙ ap (λ (x : Log). stamps x.entries)
                        (e2
                          ∙ (q
                              ∙ ap
                                  (λ (x : Log).
                                    with_entries x
                                      (x.entries ++ all_received (take b.count b.entries)))
                                  e1)),
                refl,
              )
      ]
      | inr e ↦ ground arith
    ]

take_batch-Accepted :
    (a : Answers) (from : ℕ) (b : AppendBody) (n : Node)
    → n.log.base_index ≤ b.prev_index
    → acks (take_batch a from b n).0 ≡ true
    → Accepted b n (take_batch a from b n).1
unfolding take_batch send_append_resp
take_batch-Accepted a from b n h s = elim (Bool-cases (ltb (last_index n.log) b.prev_index)) [
  | inl e ↦ ground arith
  | inr e ↦
      elim (Bool-cases
        (ltb 0 b.prev_index && not (log_term_at n.log b.prev_index == b.prev_term))) [
          | inl f ↦ ground arith
          | inr f ↦
              let g : b.prev_index ≤ last_index n.log = ground arith in
              let v : acks (take_entries a from b n).0 ≡ true = ground arith in
              let (c, r, z) = take_entries_accepted a from b n h g v in
              rw (f, e)
                (record {
                  long_enough = g;
                  prev_matches = ground arith;
                  all_there = c;
                  replaced = r;
                  stored = z;
                })
        ]
]

-- A follower that acknowledges a batch held the entry before it with the sender's term, found all entries
-- that the batch announces, and has stored them: its log is what it was up to that entry and then the
-- batch, in terms, operations and lengths. The batch starts no lower than the log's base.
pub on_append-Accepted :
    (a : Answers) (from t : ℕ) (c : Bool) (b : AppendBody) (n : Node)
    → n.log.base_index ≤ b.prev_index
    → acks (on_append a from t c (some b) n).0 ≡ true
    → (n.current_term ≤ t) × Accepted b n (on_append a from t c (some b) n).1
unfolding on_append take_append send_append_resp
on_append-Accepted a from t c b n h s =
    let o = (observe_term a t n).1 in
    let m = affirm from a.now c o in
    let e1 : m.log ≡ n.log = affirm_log from a.now c o ∙ observe_term_log a t n in
    elim (Bool-cases (ltb t o.current_term)) [
      | inl e ↦ ground arith
      | inr e ↦
          let r = take_batch-Accepted a from b m (ground arith) (ground arith) in
          let v = observe_term-Votes a t n in
          let g = v.term_grows in
          rw e (
            ground arith,
            record {
              long_enough = rw (sym e1) r.long_enough;
              prev_matches = rw (sym e1) r.prev_matches;
              all_there = r.all_there;
              replaced =
                  r.replaced
                  ∙ ap
                      (λ (x : Log). stamps (
                        take (b.prev_index - x.base_index) x.entries
                        ++ all_received (take b.count b.entries)))
                      e1;
              stored = r.stored;
            },
          )
    ]
