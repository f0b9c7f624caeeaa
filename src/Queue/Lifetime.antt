-- ===== src/Queue/Lifetime.antt =====
-- src/queue.c: a queue's references, its getters, its waiters, and the snapshot of its messages. The
-- callbacks are the callers' own; waking says which are called, in which order.
use beaver_mq.Prelude.{
  ℕ, ◌+◌, ◌-◌, ◌*◌, Bool, true, false, not, ◌&&◌, Option, none, some, List, [], ◌∷◌, ◌++◌, length,
  get_or, set, take, ltb, leb, ◌==◌, if◌then◌else◌, Bytes, sub_size,
}
use beaver_mq.Message.{Message, or_empty}
use beaver_mq.Queue.Ring.{linearize}
use beaver_mq.Queue.State.{Globals, Overflow, Queue}

-- The messages in the slots from the head on; a slot in use is never NULL.
unfoldable pub present : List (Option Message) → List Message
present [] = []
present (none ∷ ms) = present ms
present (some m ∷ ms) = m ∷ present ms

unfoldable pub buffered : Queue → List (Option Message)
unfolding linearize
buffered q = linearize q.ring.slots q.ring.cap q.ring.head 0 q.ring.count

unfoldable pub ref : Queue → Queue
ref q = record q { refcount = q.refcount + 1 }

-- The globals, the messages whose reference is dropped, and the queue unless it is freed.
unfoldable pub unref : Globals → Queue → Globals × List Message × Option Queue
unfolding present buffered
unref g q =
    if q.refcount == 1
    then (
      (if q.congested then record g { flow_alarm_count = sub_size g.flow_alarm_count 1 } else g),
      present (buffered q),
      none,
    )
    else (g, [], some (record q { refcount = q.refcount - 1 }))

-- A refused strdup leaves the vhost NULL.
unfoldable pub queue_set_vhost : Bool → Option Bytes → Queue → Queue
queue_set_vhost granted vhost q = record q {
  vhost = if granted then some (or_empty vhost) else none;
}

unfoldable pub queue_vhost : Queue → Bytes
queue_vhost q = or_empty q.vhost

-- The override, not the effective limit.
unfoldable pub queue_max_length : Queue → ℕ
queue_max_length q = q.limits.max_length

unfoldable pub queue_max_bytes : Queue → ℕ
queue_max_bytes q = q.limits.max_bytes

unfoldable pub queue_overflow : Queue → Overflow
queue_overflow q = q.limits.overflow

-- snprintf into buffers of the sizes given, which cuts what does not fit; a size of 0 writes nothing
unfoldable pub queue_dead_letter_info : Queue → ℕ → ℕ → Bytes × Bytes
queue_dead_letter_info q ex_cap rk_cap = (
  take (ex_cap - 1) (or_empty q.dead_letter.exchange),
  take (rk_cap - 1) (or_empty q.dead_letter.routing_key),
)

unfoldable pub queue_dl_exchange : Queue → Bytes
queue_dl_exchange q = or_empty q.dead_letter.exchange

unfoldable pub queue_dl_routing_key : Queue → Bytes
queue_dl_routing_key q = or_empty q.dead_letter.routing_key

-- The messages handed to the callback.
unfoldable pub queue_dead_letter : Queue → Message → List Message
queue_dead_letter q msg = if q.dead_letter.fn then msg ∷ [] else []

unfoldable pub set_exclusive_owner : Queue → ℕ → Queue
set_exclusive_owner q conn_id = record q { exclusive_owner = conn_id }

unfoldable pub queue_depth : Queue → ℕ
queue_depth q = q.ring.count

-- The loop over the buffered messages.
unfoldable pub snapshot_loop : ℕ → List (Option Message) → List Message
snapshot_loop max_cid [] = []
snapshot_loop max_cid (none ∷ ms) = snapshot_loop max_cid ms
snapshot_loop max_cid (some m ∷ ms) =
    let rest = snapshot_loop max_cid ms in
    if ltb 0 m.cluster_id && leb m.cluster_id max_cid then m ∷ rest else rest

-- The messages referenced and *out_oom; `granted` is malloc's answer.
unfoldable pub snapshot_refs : Bool → Queue → ℕ → List Message × Bool
unfolding snapshot_loop buffered
snapshot_refs granted q max_cid =
    if q.ring.count == 0
    then ([], false)
    else if granted
    then (snapshot_loop max_cid (buffered q), false)
    else ([], true)

abbrev pub is_waiter : ℕ → ℕ → ℕ × ℕ → Bool
is_waiter fn ctx w = (w.0 == fn) && (w.1 == ctx)

-- The index of a waiter, from index `i` on.
unfoldable pub find_waiter : ℕ → ℕ → ℕ → List (ℕ × ℕ) → Option ℕ
find_waiter fn ctx i [] = none
find_waiter fn ctx i (w ∷ ws) =
    let rest = find_waiter fn ctx (i + 1) ws in if is_waiter fn ctx w then some i else rest

abbrev pub waiter_room : Queue → ℕ
waiter_room q =
    if length q.waiters == q.cap_waiters
    then (if q.cap_waiters == 0 then 4 else q.cap_waiters * 2)
    else q.cap_waiters

abbrev pub added_waiter : Bool → Option ℕ → Queue → ℕ → ℕ → Queue
added_waiter granted (some i) q fn ctx = q
added_waiter granted none q fn ctx =
    if (length q.waiters == q.cap_waiters) && not granted
    then q
    else record q { waiters = q.waiters ++ (fn, ctx) ∷ []; cap_waiters = waiter_room q }

unfoldable pub queue_add_waiter : Bool → Queue → ℕ → ℕ → Queue
unfolding find_waiter
queue_add_waiter granted q fn ctx = added_waiter granted (find_waiter fn ctx 0 q.waiters) q fn ctx

-- The last waiter takes the place of the one that leaves.
abbrev pub removed_waiter : Option ℕ → Queue → Queue
removed_waiter none q = q
removed_waiter (some i) q =
    let n = length q.waiters - 1 in
    record q { waiters = take n (set q.waiters i (get_or q.waiters n (0, 0))) }

unfoldable pub queue_remove_waiter : Queue → ℕ → ℕ → Queue
unfolding find_waiter
queue_remove_waiter q fn ctx = removed_waiter (find_waiter fn ctx 0 q.waiters) q

-- The callbacks called, with their contexts.
unfoldable pub queue_wake_waiters : Queue → List (ℕ × ℕ)
queue_wake_waiters q = q.waiters

unfoldable pub consumers_inc : Queue → Queue
consumers_inc q = record q { consumers = q.consumers + 1 }

-- An int: a consumer leaves only after it came, so the count is positive here.
unfoldable pub consumers_dec : Queue → Queue
consumers_dec q = record q { consumers = q.consumers - 1 }
