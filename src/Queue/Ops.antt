-- ===== src/Queue/Ops.antt =====
-- src/queue.c: enqueue with its overflow policies, requeue, dequeue, purge and drain.
-- A queue owns one reference to each message that it holds. The lists `dead` and `released` name the
-- references that an operation gives up: `dead` those that go through the dead-letter callback
-- first, `released` those that it only drops.
use beaver_mq.Prelude.{
  ℕ, zero, suc, ◌+◌, ◌*◌, Bool, true, false, not, ◌&&◌, ◌||◌, Option, none, some, List, [], ◌∷◌,
  ◌++◌, length, add_size, sub_size, ltb, ◌==◌, if◌then◌else◌,
}
use beaver_mq.Message.{Message, body_len}
use beaver_mq.Queue.Ring.{Ring, ring_grow, ring_push, ring_pop}
use beaver_mq.Queue.State.{Globals, Overflow, reject_publish, drop_head, Queue}
use beaver_mq.Queue.Flow.{queue_would_overflow, queue_update_congestion}

-- 0, -1 and QUEUE_FULL
pub data Status : Type 0 where
  ok oom full : Status

pub record Outcome : Type 0 where
  pub status : Status
  pub globals : Globals
  pub queue : Queue
  pub dead : List Message
  pub released : List Message

-- ---- the drop-head loop: the queue, `dl[0..dl_n)`, `dl_cap`, `dl_oom`, and what was only dropped
pub record Evicting : Type 0 where
  pub queue : Queue
  pub dead : List Message
  pub dead_cap : ℕ
  pub dead_oom : Bool
  pub released : List Message

-- the queue after its head `old` has left, counted as dropped
abbrev pub without_head : Queue → Message → Ring Message → Queue
without_head q old r = record q {
  ring = r;
  total_bytes = sub_size q.total_bytes (body_len old);
  totals = record q.totals { dropped = add_size q.totals.dropped 1 };
}

module _ (dl_alloc : ℕ → Bool) where
  -- Room for one more in `dl`; a refusal is remembered.
  unfoldable pub grow_dead : Evicting → Evicting
  grow_dead e =
      if length e.dead == e.dead_cap
      then (if dl_alloc (e.dead_cap * 2)
          then record e { dead_cap = e.dead_cap * 2 }
          else record e { dead_oom = true })
      else e

  -- Keep `old` for the dead-letter callback, or drop it.
  unfoldable pub settle_evicted : Evicting → Message → Evicting
  unfolding grow_dead
  settle_evicted e old =
      let kept = grow_dead e in
      if e.queue.dead_letter.fn && not e.dead_oom
      then (if kept.dead_oom
          then record kept { released = kept.released ++ old ∷ [] }
          else record kept { dead = kept.dead ++ old ∷ [] })
      else record e { released = e.released ++ old ∷ [] }

  -- One round, on what `ring_pop` gives. A NULL head would be dereferenced; it does not occur.
  unfoldable pub evict_head : Evicting → Option Message × Ring Message → Evicting
  unfolding settle_evicted
  evict_head e (none, r) = e
  evict_head e (some old, r) = settle_evicted (record e { queue = without_head e.queue old r }) old

  -- `while (q->count > 0 && queue_would_overflow(q, len))`, by `count` rounds at most
  unfoldable pub evict : Globals → ℕ → ℕ → Evicting → Evicting
  unfolding evict_head
  evict g len zero e = e
  evict g len (suc n) e =
      let rest = evict g len n (evict_head e (ring_pop e.queue.ring)) in
      if queue_would_overflow g e.queue len then rest else e

-- the store at the tail, with its counters
unfoldable pub store_tail : Globals → Queue → Message → Globals × Queue
store_tail g q m = queue_update_congestion g (record q {
  ring = ring_push q.ring m;
  total_bytes = add_size q.total_bytes (body_len m);
  totals = record q.totals { enqueued = add_size q.totals.enqueued 1 };
})

abbrev pub stored : List Message → List Message → Globals × Queue → Outcome
stored dead released (g, q) = record {
  status = ok;
  globals = g;
  queue = q;
  dead = dead;
  released = released;
}

-- `if (count == cap && queue_grow(q) != 0) rc = -1;`, else the store; `granted` is malloc's answer
unfoldable pub append_message :
    Bool → Globals → Queue → Message → List Message → List Message → Outcome
unfolding store_tail
append_message granted g q m dead released =
    let (grown, r) = ring_grow granted q.ring in
    if q.ring.count == q.ring.cap
    then (if grown
        then stored dead released (store_tail g (record q { ring = r }) m)
        else record { status = oom; globals = g; queue = q; dead = dead; released = released })
    else stored dead released (store_tail g q m)

abbrev pub is_drop_head : Overflow → Bool
is_drop_head drop_head = true
is_drop_head reject_publish = false

-- the start of the loop: the stack buffer of 8
abbrev pub evicting : Queue → Evicting
evicting q = record { queue = q; dead = []; dead_cap = 8; dead_oom = false; released = [] }

unfoldable pub queue_enqueue : (ℕ → Bool) → Bool → Globals → Queue → Message → Outcome
unfolding evict append_message
queue_enqueue dl_alloc granted g q m =
    let e = evict dl_alloc g (body_len m) q.ring.count (evicting q) in
    if queue_would_overflow g q (body_len m)
    then (if is_drop_head q.limits.overflow
        then append_message granted g e.queue m e.dead e.released
        else record {
          status = full;
          globals = g;
          queue = record q { totals = record q.totals { rejected = add_size q.totals.rejected 1 } };
          dead = [];
          released = [];
        })
    else append_message granted g q m [] []

unfoldable pub queue_requeue_internal : Bool → Globals → Queue → Message → Outcome
unfolding append_message
queue_requeue_internal granted g q m = append_message granted g q m [] []

-- the queue after its head `m` has left, counted as dequeued
abbrev pub dequeued_head : Queue → Message → Ring Message → Queue
dequeued_head q m r = record q {
  ring = r;
  total_bytes = sub_size q.total_bytes (body_len m);
  totals = record q.totals { dequeued = add_size q.totals.dequeued 1 };
}

abbrev pub dequeued :
    Globals → Queue → Option Message × Ring Message → Option Message × Globals × Queue
dequeued g q (none, r) = (none, g, q)
dequeued g q (some m, r) =
    let (g', q') = queue_update_congestion g (dequeued_head q m r) in (some m, g', q')

unfoldable pub queue_dequeue : Globals → Queue → Option Message × Globals × Queue
queue_dequeue g q = if ltb 0 q.ring.count then dequeued g q (ring_pop q.ring) else (none, g, q)

-- the loop of queue_purge: total_dequeued is adjusted once, behind it
abbrev pub purge_head : Queue → Option Message × Ring Message → Queue
purge_head q (none, r) = q
purge_head q (some m, r) = record q { ring = r; total_bytes = sub_size q.total_bytes (body_len m) }

unfoldable pub purge_loop : ℕ → Queue → Queue
purge_loop zero q = q
purge_loop (suc n) q = purge_loop n (purge_head q (ring_pop q.ring))

-- Returns how many messages were purged.
unfoldable pub queue_purge : Globals → Queue → ℕ × Globals × Queue
unfolding purge_loop
queue_purge g q =
    let purged = q.ring.count in
    let p = purge_loop purged q in
    let (g', q') =
      queue_update_congestion g
        (record p { totals = record p.totals { dequeued = add_size p.totals.dequeued purged } }) in
    (purged, g', q')

-- ---- queue_drain_consumed: whether the loop takes the head, and the loop
abbrev pub drains : ℕ → Option Message → Bool
drains watermark none = false
drains watermark (some m) = not (m.cluster_id == 0 || ltb watermark m.cluster_id)

abbrev pub drain_head : Queue → Option Message × Ring Message → Queue
drain_head q (none, r) = q
drain_head q (some m, r) = dequeued_head q m r

unfoldable pub drain_loop : ℕ → ℕ → ℕ × Queue → ℕ × Queue
drain_loop watermark zero s = s
drain_loop watermark (suc n) (drained, q) =
    let rest = drain_loop watermark n (drained + 1, drain_head q (ring_pop q.ring)) in
    if drains watermark (ring_pop q.ring).0 then rest else (drained, q)

unfoldable pub queue_drain_consumed : Globals → Queue → ℕ → ℕ × Globals × Queue
unfolding drain_loop
queue_drain_consumed g q watermark =
    let (drained, d) = drain_loop watermark q.ring.count (0, q) in
    let (g', q') = queue_update_congestion g d in
    if drained == 0 then (0, g, d) else (drained, g', q')
