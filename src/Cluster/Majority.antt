-- ===== src/Cluster/Majority.antt =====
-- src/cluster.c: the value that a majority of the nodes reports.
use beaver_mq.Prelude.{
  ℕ, zero, suc, ◌+◌, ◌-◌, ◌≤◌, ◌<◌, ◌≡◌, refl, ◌∙◌, true, List, [], ◌∷◌, length, get_or, ltb, leb,
  take, drop, if◌then◌else◌, arith, Bool-cases, ◌⊎◌, inl, inr,
}
use beaver_mq.Cluster.State.{Log, Node}
use beaver_mq.Cluster.Log.{log_term_at, compact_payloads, apply_committed}
use beaver_mq.Cluster.Slice.{to_apply-slice}
use beaver_mq.Cluster.Commit.{
  progress, front, descending, majority_index, commits, all_durable_index, advance_commit,
}

-- How many values are at least `t`.
abbrev pub count_ge : ℕ → List ℕ → ℕ
count_ge t [] = 0
count_ge t (x ∷ xs) = (if leb t x then 1 else 0) + count_ge t xs

-- No value is above one further to the front.
abbrev IsDescending : List ℕ → Type 0
IsDescending [] = Unit
IsDescending (x ∷ xs) = (count_ge (suc x) xs ≡ 0) × IsDescending xs

count_ge_antitone : (s t : ℕ) (xs : List ℕ) → s ≤ t → count_ge t xs ≤ count_ge s xs
count_ge_antitone s t [] h = omega arith
count_ge_antitone s t (x ∷ xs) h = let ih = count_ge_antitone s t xs h in ground arith

front_lem :
    (x : ℕ) (xs : List ℕ)
    → ((t : ℕ) → count_ge t (x ∷ xs) ≡ count_ge t ((front x xs).0 ∷ (front x xs).1))
      × (length (front x xs).1 ≡ length xs)
      × (x ≤ (front x xs).0)
      × (count_ge (suc (front x xs).0) (front x xs).1 ≡ 0)
unfolding front
front_lem x [] = (λ t. refl, refl, omega arith, refl)
front_lem x (y ∷ ys) =
    let z = if ltb x y then y else x in
    let (c, l, g, u) = front_lem z ys in
    (λ t. let d = c t in ground arith, ground arith, ground arith, ground arith)

descending_lem :
    (n : ℕ) (v : List ℕ)
    → n ≡ length v
    → ((t : ℕ) → count_ge t (descending n v) ≡ count_ge t v)
      × (length (descending n v) ≡ length v)
      × IsDescending (descending n v)
unfolding descending
descending_lem zero [] h = (λ t. refl, refl, tt)
descending_lem zero (x ∷ xs) h = absurd (omega arith)
descending_lem (suc n) [] h = absurd (omega arith)
descending_lem (suc n) (x ∷ xs) h =
    let (c, l, g, u) = front_lem x xs in
    let (d, m, s) = descending_lem n (front x xs).1 (omega (arith, l)) in
    (λ t. let e = c t in let f = d t in omega arith, omega arith, (d (suc (front x xs).0) ∙ u, s))

select_lem :
    (i : ℕ) (xs : List ℕ)
    → IsDescending xs
    → i < length xs
    → (suc i ≤ count_ge (get_or xs i 0) xs) × ((t : ℕ) → suc i ≤ count_ge t xs → t ≤ get_or xs i 0)
select_lem i [] d h = absurd (omega arith)
select_lem zero (x ∷ xs) d h =
    (ground arith, λ t e. let k = count_ge_antitone (suc x) t xs in ground (arith, d.0))
select_lem (suc i) (x ∷ xs) d h =
    let (a, b) = select_lem i xs d.1 (omega arith) in
    (
      (let k = count_ge_antitone (suc x) (get_or xs i 0) xs in ground (arith, d.0)),
      λ t e. let k = b t in ground arith,
    )

-- The majority's index is the greatest that `quorum` of the reported values reach: that many values are at
-- least as great, and any index that so many reach is no greater. The quorum is at least one node and no
-- more than there are.
pub majority_index_lem :
    (n : Node)
    → 1 ≤ n.quorum
    → n.quorum ≤ length (progress n)
    → (n.quorum ≤ count_ge (majority_index n) (progress n))
      × ((t : ℕ) → n.quorum ≤ count_ge t (progress n) → t ≤ majority_index n)
unfolding majority_index
majority_index_lem n h k =
    let v = progress n in
    let (c, l, s) = descending_lem (length v) v refl in
    let (a, b) = select_lem (n.quorum - 1) (descending (length v) v) s (omega (arith, l)) in
    ((let e = c (majority_index n) in omega arith), λ t q. let e = c t in b t (omega arith))

compact_payloads_indices :
    (log : Log) (upto : ℕ)
    → ((compact_payloads log upto).commit_index ≡ log.commit_index)
      × ((compact_payloads log upto).applied_index ≡ log.applied_index)
unfolding compact_payloads
compact_payloads_indices log upto = (ground arith, ground arith)

commits_lem :
    (n : Node)
    → commits n ≡ true
    → (n.log.commit_index < majority_index n)
      × (log_term_at n.log (majority_index n) ≡ n.current_term)
commits_lem n t = (ground arith, ground arith)

apply_committed_index :
    (log : Log)
    → log.applied_index < log.commit_index
    → (apply_committed log).1.applied_index ≡ log.commit_index
unfolding apply_committed
apply_committed_index log h = ground arith

-- The commit index moves only forward, and only to an entry of the current term that a quorum of the nodes
-- reports; then the log's entries after the last applied index, up to the new commit index, are handed
-- on in the order of the log, and that index counts as applied. Otherwise nothing is handed on and
-- both indices stay. The quorum is at least one node and no more than there are, and the applied index is
-- between the log's base and the commit index.
pub advance_commit_lem :
    (n : Node)
    → 1 ≤ n.quorum
    → n.quorum ≤ length (progress n)
    → n.log.base_index ≤ n.log.applied_index
    → n.log.applied_index ≤ n.log.commit_index
    → let (ops, m) = advance_commit n in
      let c = m.log.commit_index in
      let applied = n.log.applied_index in
      (c ≡ n.log.commit_index) × (m.log.applied_index ≡ applied) × (ops ≡ [])
      ⊎ (n.log.commit_index < c)
        × (log_term_at n.log c ≡ n.current_term)
        × (n.quorum ≤ count_ge c (progress n))
        × (ops ≡ take (c - applied) (drop (applied - n.log.base_index) n.log.entries))
        × (m.log.applied_index ≡ c)
unfolding advance_commit apply_committed
advance_commit_lem n h k based behind =
    let c = majority_index n in
    let (e, ea) = compact_payloads_indices n.log (all_durable_index n) in
    let log = (apply_committed (record n.log { commit_index = c })).1 in
    let (f, fa) = compact_payloads_indices log (all_durable_index n) in
    let q = majority_index_lem n h k in
    let slice =
      to_apply-slice (record n.log { commit_index = c }) (c - n.log.applied_index)
        n.log.applied_index based in
    elim (Bool-cases (commits n)) [
      | inl t ↦
          let (forward, term) = commits_lem n t in
          let done =
            apply_committed_index (record n.log { commit_index = c }) (omega (arith, forward)) in
          rw (t, f, fa) (inr (forward, term, q.0, slice, done))
      | inr t ↦ rw t (inl (e, ea, refl))
    ]
