-- ===== src/Queue/Flow.antt =====
-- src/queue.c: the effective limits of a queue, the overflow test and the congestion flag.
-- `count` stays below 2 ^ 61 (see Queue/Ring.antt), so that `count + 1` does not wrap.
use beaver_mq.Prelude.{
  ℕ, ◌+◌, ◌-◌, ◌/◌, Bool, true, false, not, ◌&&◌, ◌||◌, add_size, sub_size, ltb, leb, ◌==◌,
  if◌then◌else◌,
}
use beaver_mq.Queue.State.{Globals, Queue}

-- `q->max_length ? q->max_length : g_queue_max_length`
abbrev pub effective : ℕ → ℕ → ℕ
effective own default = if own == 0 then default else own

abbrev pub max_len : Globals → Queue → ℕ
max_len g q = effective q.limits.max_length g.max_length

abbrev pub max_bytes : Globals → Queue → ℕ
max_bytes g q = effective q.limits.max_bytes g.max_bytes

unfoldable pub queue_would_overflow : Globals → Queue → ℕ → Bool
queue_would_overflow g q len =
    (not (max_len g q == 0) && ltb (max_len g q) (q.ring.count + 1))
    || (not (max_bytes g q == 0) && ltb (max_bytes g q) (add_size q.total_bytes len))

-- at or over 90% of an effective limit
abbrev pub over_high : Globals → Queue → Bool
over_high g q =
    (not (max_len g q == 0) && leb (max_len g q - max_len g q / 10) q.ring.count)
    || (not (max_bytes g q == 0) && leb (max_bytes g q - max_bytes g q / 10) q.total_bytes)

-- at or under 75% of every effective limit
abbrev pub under_low : Globals → Queue → Bool
under_low g q =
    (max_len g q == 0 || leb q.ring.count (max_len g q - max_len g q / 4))
    && (max_bytes g q == 0 || leb q.total_bytes (max_bytes g q - max_bytes g q / 4))

unfoldable pub queue_update_congestion : Globals → Queue → Globals × Queue
queue_update_congestion g q =
    if not q.congested && over_high g q
    then (
      record g { flow_alarm_count = add_size g.flow_alarm_count 1 },
      record q { congested = true },
    )
    else if q.congested && under_low g q
    then (
      record g { flow_alarm_count = sub_size g.flow_alarm_count 1 },
      record q { congested = false },
    )
    else (g, q)

-- queue_flow_alarm_active
unfoldable pub flow_alarm_active : Globals → Bool
flow_alarm_active g = ltb 0 g.flow_alarm_count
