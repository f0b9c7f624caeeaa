-- ===== src/Broker/Publish.antt =====
-- src/broker.c: routing a message to its queues, and the dead-letter callback. queue_enqueue hands the messages
-- that it evicts to the callback, which routes them again: each is the other's parameter here.
use beaver_mq.Prelude.{
  ℕ, ◌+◌, ◌%◌, ◌^◌, Bool, true, false, ◌&&◌, Option, none, some, List, [], ◌∷◌, Bytes, length, ltb,
  leb, ◌==◌, add_size, if◌then◌else◌,
}
use beaver_mq.Message.{Message, message_new, message_new_full}
use beaver_mq.Queue.State.{Queue}
use beaver_mq.Queue.Lifetime.{ref, queue_vhost, queue_dl_exchange, queue_dl_routing_key}
use beaver_mq.Queue.Ops.{Status, ok, oom, full, queue_enqueue}
use beaver_mq.Exchange.Bindings.{Exchange}
use beaver_mq.Exchange.Routing.{exchange_route}
use beaver_mq.HashMap.Chained.{hashmap_get}
use beaver_mq.Broker.Registry.{Broker, broker_vkey, with_queue, counts, with_counts, drop_queue}

-- The number of queues, or ROUTE_RESOURCE_ERROR.
pub data RouteResult : Type 0 where
  routed : ℕ → RouteResult
  resource_error : RouteResult

-- The answers of malloc: for the array of targets, for the matcher at each binding, and for the target at
-- each index those of queue_enqueue.
pub record Answers : Type 0 where
  pub room : Bool
  pub matcher : ℕ → Bool
  pub dead : ℕ → ℕ → Bool
  pub slots : ℕ → Bool

abbrev pub is_ok : Status → Bool
is_ok ok = true
is_ok oom = false
is_ok full = false

abbrev pub ref_at : Broker → ℕ → Option Queue → Broker
ref_at b a none = b
ref_at b a (some q) = record b { heap = with_queue b.heap a (some (ref q)) }

module _ (hash : Bytes → ℕ) (m : Answers) where
  abbrev pub only_queue : Broker → Option ℕ → List ℕ × Bool × Broker
  only_queue b none = ([], false, b)
  only_queue b (some a) = if m.room then (a ∷ [], false, ref_at b a (b.heap a)) else ([], true, b)

  abbrev pub bound_queues : Broker → Bytes → Option Exchange → List ℕ × Bool × Broker
  bound_queues b key none = ([], false, b)
  bound_queues b key (some ex) =
      let (targets, no_room, refs) =
        exchange_route m.room m.matcher ex (some key) (counts b.heap) in
      (targets, no_room, record b { heap = with_counts b.heap refs })

  -- Phase 1: the targets, `resource_error`, and the broker with a reference on each target.
  unfoldable pub collect_targets : Broker → Option Bytes → Message → List ℕ × Bool × Broker
  collect_targets b vhost msg =
      if length msg.exchange == 0
      then only_queue b (hashmap_get hash b.queues (broker_vkey vhost (some msg.routing_key)))
      else bound_queues b msg.routing_key
          (hashmap_get hash b.exchanges (broker_vkey vhost (some msg.exchange)))

  -- `dead_letter` is the callback on the queue at an address.
  module _ (dead_letter : Broker → ℕ → Message → Broker) where
    -- The messages that queue_enqueue evicted for the callback, which is set when there are any.
    unfoldable pub dead_letters : Broker → ℕ → List Message → Broker
    dead_letters b a [] = b
    dead_letters b a (d ∷ ds) = dead_letters (dead_letter b a d) a ds

    abbrev pub enqueue_at : ℕ → Broker → ℕ → Message → Option Queue → Bool × Broker
    enqueue_at i b a msg none = (false, b)
    enqueue_at i b a msg (some q) =
        let o = queue_enqueue (m.dead i) (m.slots i) b.globals q msg in
        let stored : Broker = record b {
          globals = o.globals;
          heap = with_queue b.heap a (some o.queue);
        } in
        (is_ok o.status, dead_letters stored a o.dead)

    -- One round of phase 2: whether the queue took the message, and the broker, the reference given back.
    unfoldable pub enqueue_target : ℕ → Broker → ℕ → Message → Bool × Broker
    unfolding dead_letters
    enqueue_target i b a msg =
        let (took, b') = enqueue_at i b a msg (b.heap a) in (took, drop_queue b' a)

    -- `routed`, `enqueue_failed` and the broker after the loop
    unfoldable pub deliver : ℕ → List ℕ → Message → ℕ × Bool × Broker → ℕ × Bool × Broker
    deliver i [] msg s = s
    deliver i (a ∷ rest) msg (n, failed, b) =
        let (took, b') = enqueue_target i b a msg in
        deliver (i + 1) rest msg (if took then (n + 1, failed, b') else (n, true, b'))

    -- What is left after the loop: the counter of published messages and the result.
    abbrev pub concluded : ℕ × Bool × Broker → RouteResult × Broker
    concluded (n, failed, b) =
        let counted : Broker = record b { messages_published = add_size b.messages_published 1 } in
        (
          (if (n == 0) && failed then resource_error else routed n),
          (if ltb 0 n then counted else b),
        )

    unfoldable pub broker_route : Broker → Option Bytes → Message → RouteResult × Broker
    unfolding collect_targets deliver
    broker_route b vhost msg =
        let sent : Message = record msg { id = b.next_msg_id } in
        let numbered : Broker = record b { next_msg_id = add_size b.next_msg_id 1 } in
        let (targets, error, b') = collect_targets numbered vhost sent in
        if error then (resource_error, b') else concluded (deliver 0 targets sent (0, false, b'))

    abbrev pub published : Broker → Option Bytes → Option (Message × ℕ) → RouteResult × Broker
    published b vhost none = (resource_error, b)
    published b vhost (some (msg, n)) = broker_route b vhost msg

    -- `header` is the size of a message's struct, `alloc` malloc's answer for a size.
    unfoldable pub broker_publish :
        ℕ
        → (ℕ → Bool)
        → Broker
        → Option Bytes
        → Option Bytes
        → Option Bytes
        → Bytes
        → RouteResult × Broker
    broker_publish header alloc b vhost exchange routing_key body =
        published b vhost (message_new header alloc exchange routing_key body)

abbrev pub broker_dl_max_hops : ℕ
broker_dl_max_hops = 8

-- `route` is broker_route.
module _ (header : ℕ) (alloc : ℕ → Bool)
    (route : Broker → Option Bytes → Message → RouteResult × Broker) where
  abbrev pub rerouted : Broker → Queue → ℕ → Option (Message × ℕ) → Broker
  rerouted b src hops none = b
  rerouted b src hops (some (dm, n)) =
      (route b (some (queue_vhost src)) (record dm { dl_hops = (hops + 1) % 2 ^ 8 })).1

  unfoldable pub broker_dead_letter_cb : Broker → Queue → Message → Broker
  broker_dead_letter_cb b src msg =
      let dlx = queue_dl_exchange src in
      let set_key = queue_dl_routing_key src in
      let rkey = if length set_key == 0 then msg.routing_key else set_key in
      if leb broker_dl_max_hops msg.dl_hops
      then b
      else if length dlx == 0
      then b
      else rerouted b src msg.dl_hops
          (message_new_full header alloc (some dlx) (some rkey) msg.body (some msg.props))
