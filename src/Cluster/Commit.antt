-- ===== src/Cluster/Commit.antt =====
-- src/cluster.c: the leader's commit index.
use beaver_mq.Prelude.{
  ℕ, zero, suc, ◌-◌, Bool, ◌&&◌, List, [], ◌∷◌, length, get_or, ltb, ◌==◌, if◌then◌else◌,
}
use beaver_mq.Cluster.State.{LogEntry, last_index, Peer, Node}
use beaver_mq.Cluster.Log.{log_term_at, compact_payloads, apply_committed}

-- The minimum of the node's own durable index and its peers'.
abbrev pub min_durable : ℕ → List Peer → ℕ
min_durable m [] = m
min_durable m (p ∷ ps) = min_durable (if ltb p.durable_index m then p.durable_index else m) ps

unfoldable pub all_durable_index : Node → ℕ
all_durable_index n = min_durable n.log.durable_index n.peers

abbrev pub durable_indices : List Peer → List ℕ
durable_indices [] = []
durable_indices (p ∷ ps) = p.durable_index ∷ durable_indices ps

abbrev pub match_indices : List Peer → List ℕ
match_indices [] = []
match_indices (p ∷ ps) = p.match_index ∷ match_indices ps

-- The values that the nodes report, this one's first.
unfoldable pub progress : Node → List ℕ
progress n =
    if n.durable_commit
    then (if n.storage_failed then 0 else n.log.durable_index) ∷ durable_indices n.peers
    else last_index n.log ∷ match_indices n.peers

-- The inner loop at `i`: the greatest value from there on comes to the front, by exchanges. Gives that
-- value and the others in the order that the exchanges leave.
unfoldable pub front : ℕ → List ℕ → ℕ × List ℕ
front x [] = (x, [])
front x (y ∷ ys) =
    let (m, rest) = front (if ltb x y then y else x) ys in (m, (if ltb x y then x else y) ∷ rest)

-- The two loops, by the number of values left.
unfoldable pub descending : ℕ → List ℕ → List ℕ
unfolding front
descending zero v = v
descending (suc n) [] = []
descending (suc n) (x ∷ xs) = let (m, rest) = front x xs in m ∷ descending n rest

-- What the majority has: v[quorum - 1] of the sorted values.
unfoldable pub majority_index : Node → ℕ
unfolding progress descending
majority_index n = get_or (descending (length (progress n)) (progress n)) (n.quorum - 1) 0

abbrev pub commits : Node → Bool
commits n =
    ltb n.log.commit_index (majority_index n)
    && (log_term_at n.log (majority_index n) == n.current_term)

-- The operations applied, and the node.
unfoldable pub advance_commit : Node → List LogEntry × Node
unfolding majority_index log_term_at apply_committed all_durable_index compact_payloads
advance_commit n =
    let (ops, log) = apply_committed (record n.log { commit_index = majority_index n }) in
    let upto = all_durable_index n in
    if commits n
    then (ops, record n { log = compact_payloads log upto })
    else ([], record n { log = compact_payloads n.log upto })
