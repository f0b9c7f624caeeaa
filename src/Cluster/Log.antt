-- ===== src/Cluster/Log.antt =====
-- src/cluster.c: the replicated log in memory, and what of it the files record.
use beaver_mq.Prelude.{
  ℕ, zero, suc, ◌+◌, ◌-◌, ◌*◌, ◌%◌, ◌^◌, Bool, true, false, ◌||◌, Option, none, some, List, [], ◌∷◌,
  ◌++◌, Bytes, length, get_elem?, take, ltb, leb, ◌==◌, if◌then◌else◌,
}
use beaver_mq.Cluster.State.{
  LogEntry, Log, last_index, Node, Answers, Recorded, recorded, recorded_after_failure, refused,
  storage_write_failed,
}

unfoldable pub log_at : Log → ℕ → Option LogEntry
log_at log idx =
    if leb idx log.base_index || ltb (last_index log) idx
    then none
    else get_elem? log.entries (idx - log.base_index - 1)

abbrev pub term_of : Option LogEntry → ℕ
term_of none = 0
term_of (some e) = e.term

unfoldable pub log_term_at : Log → ℕ → ℕ
unfolding log_at
log_term_at log idx = if idx == log.base_index then log.base_term else term_of (log_at log idx)

-- The loop of log_ensure_cap: `while (nc < need) nc *= 2`, on a uint32_t. From 1 on, 31 doublings reach
-- every need up to 2 ^ 31; above that the capacity wraps to 0, where the source's loop does not end.
unfoldable pub doubled_cap : ℕ → ℕ → ℕ → ℕ
doubled_cap zero nc need = nc
doubled_cap (suc rounds) nc need =
    let next = doubled_cap rounds (nc * 2 % 2 ^ 32) need in if ltb nc need then next else nc

-- The new capacity that log_ensure_cap asks for.
unfoldable pub log_ensure_cap : ℕ → ℕ → ℕ
unfolding doubled_cap
log_ensure_cap cap need =
    if leb need cap then cap else doubled_cap 32 (if cap == 0 then 16 else cap) need

-- persist_truncate writes the buffer out first, which may fail; the durable index stays.
abbrev pub persist_truncate : Bool → Node → Node
persist_truncate written n = if written then n else storage_write_failed n

unfoldable pub log_truncate_from : Bool → Node → ℕ → Node
unfolding storage_write_failed
log_truncate_from written n idx =
    let log = n.log in
    let from = if leb idx log.base_index then log.base_index + 1 else idx in
    if ltb (last_index log) from
    then n
    else let t = persist_truncate written n in
      record t { log = record log { entries = take (from - log.base_index - 1) log.entries } }

abbrev pub payload_of : Bytes → Option Bytes
payload_of [] = none
payload_of (b ∷ bs) = some (b ∷ bs)

abbrev pub appended : Recorded → Node → LogEntry → Bool × Node
appended recorded n e =
    (true, record n { log = record n.log { entries = n.log.entries ++ e ∷ [] } })
appended recorded_after_failure n e =
    let f = storage_write_failed n in
    (true, record f { log = record f.log { entries = f.log.entries ++ e ∷ [] } })
appended refused n e = (false, storage_write_failed n)

-- Whether it returns 0. Memory covers the array's growth and the copy of the payload.
unfoldable pub log_append : Answers → Node → ℕ → ℕ → Bytes → Bool × Node
unfolding storage_write_failed
log_append a n term op bytes =
    let at = last_index n.log + 1 in
    if a.memory at
    then appended (a.wal at) n
        record { term = term; op_type = op; len = length bytes; payload = payload_of bytes }
    else (false, n)

-- Free the bodies of the first entries of a list, all but the first `skip`, `rounds` of them.
unfoldable pub free_payloads : ℕ → ℕ → List LogEntry → List LogEntry
free_payloads skip rounds [] = []
free_payloads zero zero (e ∷ es) = e ∷ es
free_payloads zero (suc n) (e ∷ es) = record e { payload = none } ∷ free_payloads zero n es
free_payloads (suc k) rounds (e ∷ es) = e ∷ free_payloads k rounds es

-- compact_payloads: the bodies at indices in (compacted_to, upto], clamped to the commit index; those
-- not above the base are gone already.
unfoldable pub compact_payloads : Log → ℕ → Log
unfolding free_payloads
compact_payloads log upto =
    let to = if ltb log.commit_index upto then log.commit_index else upto in
    let from = if ltb log.compacted_to log.base_index then log.base_index else log.compacted_to in
    if ltb log.compacted_to to
    then record log {
      entries = free_payloads (from - log.base_index) (to - from) log.entries;
      compacted_to = to;
    }
    else log

-- The operations that apply_committed hands to apply_op, in order: `rounds` indices from `idx` on.
unfoldable pub to_apply : Log → ℕ → ℕ → List LogEntry
unfolding log_at
to_apply log idx zero = []
to_apply log idx (suc rounds) =
    let rest = to_apply log (idx + 1) rounds in
    elim (log_at log idx) [ none ↦ rest | some e ↦ e ∷ rest ]

abbrev pub committed_ops : Log → List LogEntry
committed_ops log = to_apply log (log.applied_index + 1) (log.commit_index - log.applied_index)

unfoldable pub apply_committed : Log → List LogEntry × Log
unfolding to_apply
apply_committed log = (
  committed_ops log,
  record log {
    applied_index =
        if ltb log.applied_index log.commit_index then log.commit_index else log.applied_index;
  },
)
