-- ===== src/Dispatch/Registry.antt =====
-- src/dispatch.c: consumers come and go.
use beaver_mq.Prelude.{
  ℕ, ◌/◌, ◌%◌, Bool, true, false, not, ◌&&◌, ◌||◌, Option, none, some, List, [], ◌∷◌, ◌++◌, Bytes,
  length, ltb, ◌==◌, if◌then◌else◌, str_eq,
}
use beaver_mq.Queue.State.{Queue}
use beaver_mq.Queue.Track.{consume_on_deliver}
use beaver_mq.Queue.Lifetime.{queue_add_waiter, queue_remove_waiter, consumers_inc, consumers_dec}
use beaver_mq.Dispatch.State.{
  Unacked, Consumer, Group, delete_queue, Worker, Outside, put_queue, act, doubled_from,
  dispatcher_notify, replicate_watermark, find_group, put_group, remove_group,
}
use beaver_mq.Dispatch.Settle.{requeue_message, consumed, last_first}

-- Room for one more member; the array stays where memory is refused.
unfoldable pub group_add : Outside → ℕ → Group → Bool × Group
group_add o i g = if (length g.members == g.cap) && not o.member_memory then (false, g) else (
  true,
  record g {
    members = g.members ++ i ∷ [];
    cap = if length g.members == g.cap then doubled_from 4 g.cap else g.cap;
  },
)

-- The group of a queue, or a new one, and whether it is new.
abbrev pub group_of : ℕ → Option Group → Bool × Group
group_of k none = (true, record { queue = k; members = []; cap = 0; rr = 0 })
group_of k (some g) = (false, g)

-- The loop over the unsettled deliveries of a consumer that goes.
unfoldable pub release_unacked : Outside → Bool → ℕ → List Unacked → Worker → Worker
unfolding requeue_message consumed
release_unacked o requeue k [] w = w
release_unacked o requeue k (u ∷ us) w =
    release_unacked o requeue k us (if requeue then requeue_message o k u w else consumed k u w)

-- The members without the first that is `i`; the last takes its place.
unfoldable pub remove_member : ℕ → List ℕ → List ℕ
unfolding last_first
remove_member i [] = []
remove_member i (x ∷ xs) =
    let kept = remove_member i xs in if x == i then last_first xs else x ∷ kept

unfoldable pub remove_consumer : ℕ → List Consumer → List Consumer
remove_consumer i [] = []
remove_consumer i (c ∷ cs) = let rest = remove_consumer i cs in if c.id == i then cs else c ∷ rest

abbrev pub is_auto_delete : Queue → Bool
is_auto_delete q = (q.flags / 8) % 2 == 1

abbrev pub is_on : ℕ → ℕ → Consumer → Bool
is_on conn channel c = (c.conn == conn) && (c.channel == channel)

-- The waiter of a queue is the dispatcher's callback and the dispatcher.
module _ (callback self : ℕ) where
  -- What follows when the group has the consumer.
  unfoldable pub joined : Outside → Consumer → Bool → Worker → Worker
  unfolding dispatcher_notify queue_add_waiter
  joined o c is_new w =
      let q = consumers_inc (w.queues c.queue) in
      let woken = if is_new then queue_add_waiter o.waiter_memory q callback self else q in
      dispatcher_notify o c.queue
        (put_queue c.queue woken (record w { consumers = c ∷ w.consumers }))

  -- Whether it returns 0. The queue was found in the broker; `group_memory` covers a new group and its entry
  -- in the map.
  unfoldable pub dispatcher_add_consumer : Outside → Consumer → Worker → Bool × Worker
  unfolding group_add find_group put_group
  dispatcher_add_consumer o c w =
      let (is_new, g) = group_of c.queue (find_group c.queue w.groups) in
      let (added, h) = group_add o c.id g in
      if not o.consumer_memory || (is_new && not o.group_memory)
      then (false, w)
      else if not added
      then (false, record w { groups = put_group g w.groups })
      else (true, joined o c is_new (record w { groups = put_group h w.groups }))

  -- The group after a member has left it.
  abbrev pub leave_group : Outside → Bool → Consumer → Option Group → Worker → Worker
  leave_group o requeue c none w = w
  leave_group o requeue c (some g) w =
      let ms = remove_member c.id g.members in
      let h = record g { members = ms; rr = if ltb (length ms) g.rr then 0 else g.rr } in
      let kept = record w { groups = put_group h w.groups } in
      if length ms == 0
      then put_queue c.queue (queue_remove_waiter (w.queues c.queue) callback self)
          (record w { groups = remove_group c.queue w.groups })
      else if requeue
      then dispatcher_notify o c.queue kept
      else kept

  unfoldable pub consumer_destroy : Outside → Bool → Consumer → Worker → Worker
  unfolding release_unacked replicate_watermark find_group put_group remove_group remove_member
      remove_consumer dispatcher_notify queue_remove_waiter
  consumer_destroy o requeue c w =
      let k = c.queue in
      let left = put_queue k (consumers_dec (w.queues k)) w in
      let settled = replicate_watermark k (release_unacked o requeue k c.unacked left) in
      let v = leave_group o requeue c (find_group k settled.groups) settled in
      let gone =
        (not v.tearing_down && is_auto_delete (v.queues k)) && ((v.queues k).consumers == 0) in
      let u = if gone then act (delete_queue k) v else v in
      record u { consumers = remove_consumer c.id u.consumers }

  -- The consumers of the list that pass a test, destroyed in its order.
  unfoldable pub destroy_where : Outside → (Consumer → Bool) → List Consumer → Worker → Worker
  unfolding consumer_destroy
  destroy_where o p [] w = w
  destroy_where o p (c ∷ cs) w =
      destroy_where o p cs (if p c then consumer_destroy o true c w else w)

  unfoldable pub dispatcher_remove_connection : Outside → ℕ → Worker → Worker
  unfolding destroy_where
  dispatcher_remove_connection o conn w = destroy_where o (λ c. c.conn == conn) w.consumers w

  unfoldable pub dispatcher_remove_channel : Outside → ℕ → ℕ → Worker → Worker
  unfolding destroy_where
  dispatcher_remove_channel o conn channel w = destroy_where o (is_on conn channel) w.consumers w

  unfoldable pub cancel_first : Outside → ℕ → ℕ → Bytes → List Consumer → Worker → Worker
  unfolding consumer_destroy str_eq
  cancel_first o conn channel tag [] w = w
  cancel_first o conn channel tag (c ∷ cs) w =
      let rest = cancel_first o conn channel tag cs w in
      if is_on conn channel c && str_eq c.tag tag then consumer_destroy o true c w else rest

  unfoldable pub dispatcher_cancel : Outside → ℕ → ℕ → Bytes → Worker → Worker
  unfolding cancel_first
  dispatcher_cancel o conn channel tag w = cancel_first o conn channel tag w.consumers w

  -- The consumers that dispatcher_free drops, from the head of the list on.
  unfoldable pub drop_all : Outside → List Consumer → Worker → Worker
  unfolding consumer_destroy
  drop_all o [] w = w
  drop_all o (c ∷ cs) w = drop_all o cs (consumer_destroy o false c w)

  -- What it frees besides is not part of the state.
  unfoldable pub dispatcher_free : Outside → Worker → Worker
  unfolding drop_all
  dispatcher_free o w = drop_all o w.consumers (record w { tearing_down = true })

-- The loop of dispatcher_set_prefetch.
unfoldable pub set_prefetch_loop :
    Outside → ℕ → ℕ → ℕ → List Consumer → Worker → List Consumer × Worker
unfolding dispatcher_notify
set_prefetch_loop o conn channel prefetch [] w = ([], w)
set_prefetch_loop o conn channel prefetch (c ∷ cs) w =
    let ours = (c.conn == conn) && (c.channel == channel) in
    let (ds, v) =
      set_prefetch_loop o conn channel prefetch cs
        (if ours then dispatcher_notify o c.queue w else w) in
    ((if ours then record c { prefetch = prefetch } else c) ∷ ds, v)

unfoldable pub dispatcher_set_prefetch : Outside → ℕ → ℕ → ℕ → Worker → Worker
unfolding set_prefetch_loop
dispatcher_set_prefetch o conn channel prefetch w =
    let (cs, v) = set_prefetch_loop o conn channel prefetch w.consumers w in
    record v { consumers = cs }

unfoldable pub notify_conn : Outside → ℕ → List Consumer → Worker → Worker
unfolding dispatcher_notify
notify_conn o conn [] w = w
notify_conn o conn (c ∷ cs) w =
    notify_conn o conn cs (if c.conn == conn then dispatcher_notify o c.queue w else w)

unfoldable pub dispatcher_resume_conn : Outside → ℕ → Worker → Worker
unfolding notify_conn
dispatcher_resume_conn o conn w = notify_conn o conn w.consumers w

unfoldable pub any_on : ℕ → List Consumer → Bool
any_on conn [] = false
any_on conn (c ∷ cs) = if c.conn == conn then true else any_on conn cs

abbrev pub dispatcher_conn_has_consumers : ℕ → Worker → Bool
dispatcher_conn_has_consumers conn w = any_on conn w.consumers

unfoldable pub dispatcher_note_pull : Outside → ℕ → ℕ → Worker → Worker
unfolding replicate_watermark consume_on_deliver
dispatcher_note_pull o k cid w =
    let q = w.queues k in
    let t = consume_on_deliver (o.track_memory cid) q.track cid true in
    if not w.clustered || (cid == 0)
    then w
    else replicate_watermark k (put_queue k (record q { track = t }) w)
