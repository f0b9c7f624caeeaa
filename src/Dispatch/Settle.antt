-- ===== src/Dispatch/Settle.antt =====
-- src/dispatch.c: acknowledgements and rejections.
use beaver_mq.Prelude.{
  ℕ, zero, suc, ◌+◌, Bool, true, false, not, ◌&&◌, ◌||◌, List, [], ◌∷◌, ◌++◌, length, leb, ◌==◌,
  if◌then◌else◌,
}
use beaver_mq.Message.{Message}
use beaver_mq.Queue.Ops.{Status, ok, oom, full, queue_requeue_internal}
use beaver_mq.Queue.Track.{consume_on_ack}
use beaver_mq.Queue.Lifetime.{queue_dead_letter}
use beaver_mq.Dispatch.State.{
  Unacked, Consumer, Action, dead_lettered, lost, Worker, Outside, put_queue, act,
  dispatcher_notify,
}

-- The arguments of settle_unacked that say which deliveries are meant, and what becomes of them.
pub record How : Type 0 where
  pub delivery_tag : ℕ
  pub multiple : Bool
  pub requeue : Bool
  pub rejected : Bool

unfoldable pub matches : How → ℕ → Bool
matches how t =
    if how.multiple
    then (how.delivery_tag == 0) || leb t how.delivery_tag
    else t == how.delivery_tag

abbrev pub is_ok : Status → Bool
is_ok ok = true
is_ok oom = false
is_ok full = false

abbrev pub dead_all : List Message → List Action
dead_all [] = []
dead_all (m ∷ ms) = dead_lettered m ∷ dead_all ms

-- A message back on its queue; where the queue has no memory, it is lost.
unfoldable pub requeue_message : Outside → ℕ → Unacked → Worker → Worker
unfolding queue_requeue_internal
requeue_message o k u w =
    let r = queue_requeue_internal (o.requeue_memory u.tag) w.globals (w.queues k) u.msg in
    let back = put_queue k r.queue (record w { globals = r.globals }) in
    if is_ok r.status then back else act (lost u.msg) back

unfoldable pub consumed : ℕ → Unacked → Worker → Worker
unfolding consume_on_ack
consumed k u w =
    put_queue k (record (w.queues k) { track = consume_on_ack (w.queues k).track u.msg.cluster_id })
      w

-- What becomes of one matching delivery on the queue `k`.
unfoldable pub settle_one : Outside → How → ℕ → Unacked → Worker → Worker
unfolding requeue_message consumed queue_dead_letter
settle_one o how k u w =
    if how.requeue
    then requeue_message o k u w
    else consumed k u (
        if how.rejected
        then record w { actions = w.actions ++ dead_all (queue_dead_letter (w.queues k) u.msg) }
        else w)

-- The last element, and those before it.
unfoldable pub split_last {ℓ} : {A : Type ℓ} → A → List A → A × List A
split_last x [] = (x, [])
split_last x (y ∷ ys) = let (l, rest) = split_last y ys in (l, x ∷ rest)

-- What stands behind the removed place after `unacked[i] = unacked[n_unacked - 1]; n_unacked--`.
unfoldable pub last_first {ℓ} : {A : Type ℓ} → List A → List A
unfolding split_last
last_first [] = []
last_first (x ∷ xs) = let (l, rest) = split_last x xs in l ∷ rest

-- The inner loop: `kept` is what lies before `i`. Each round shortens the array or moves on, so its length
-- is fuel enough. Gives the array, how many were settled, and the rest of the state.
unfoldable pub settle_loop :
    Outside → How → ℕ → ℕ → List Unacked → List Unacked → ℕ → Worker → List Unacked × ℕ × Worker
unfolding matches settle_one last_first
settle_loop o how k zero kept rest here w = (kept ++ rest, here, w)
settle_loop o how k (suc fuel) kept [] here w = (kept, here, w)
settle_loop o how k (suc fuel) kept (u ∷ us) here w =
    let s = settle_one o how k u w in
    let skip = settle_loop o how k fuel (kept ++ u ∷ []) us here w in
    let go = settle_loop o how k fuel kept (last_first us) (here + 1) s in
    if matches how u.tag
    then (if how.multiple then go else (kept ++ last_first us, here + 1, s))
    else skip

-- The outer loop over the consumers. Gives how many were settled, the consumers and the rest.
unfoldable pub settle_consumers :
    Outside → ℕ → ℕ → How → List Consumer → Worker → ℕ × List Consumer × Worker
unfolding settle_loop dispatcher_notify
settle_consumers o conn channel how [] w = (0, [], w)
settle_consumers o conn channel how (c ∷ cs) w =
    let (left, here, v) = settle_loop o how c.queue (length c.unacked) [] c.unacked 0 w in
    let d = record c { unacked = left } in
    let noted = dispatcher_notify o c.queue v in
    let ours = (c.conn == conn) && (c.channel == channel) in
    let next = if not ours then w else if here == 0 then v else noted in
    let (n, ds, u) = settle_consumers o conn channel how cs next in
    if not ours
    then (n, c ∷ ds, u)
    else if (here == 0) || how.multiple
    then (here + n, d ∷ ds, u)
    else (here, d ∷ cs, noted)

unfoldable pub settle_unacked : Outside → ℕ → ℕ → How → Worker → ℕ × Worker
unfolding settle_consumers
settle_unacked o conn channel how w =
    let (n, cs, v) = settle_consumers o conn channel how w.consumers w in
    (n, record v { consumers = cs })

unfoldable pub dispatcher_ack : Outside → ℕ → ℕ → ℕ → Bool → Worker → Worker
unfolding settle_unacked
dispatcher_ack o conn channel delivery_tag multiple w =
    (settle_unacked o conn channel
      (record {
        delivery_tag = delivery_tag;
        multiple = multiple;
        requeue = false;
        rejected = false;
      })
      w).1

unfoldable pub dispatcher_nack : Outside → ℕ → ℕ → ℕ → Bool → Bool → Worker → Worker
unfolding settle_unacked
dispatcher_nack o conn channel delivery_tag multiple requeue w =
    (settle_unacked o conn channel
      (record {
        delivery_tag = delivery_tag;
        multiple = multiple;
        requeue = requeue;
        rejected = not requeue;
      })
      w).1
