-- ===== src/Broker/Routed.antt =====
-- src/broker.c: the result of routing, and the hops of a dead-lettered message.
use beaver_mq.Prelude.{
  ℕ, ◌+◌, ◌-◌, ◌%◌, ◌^◌, ◌≤◌, ◌<◌, ◌≡◌, ◌≢◌, refl, ap, ◌⊎◌, inl, inr, Bool, true, false, Option,
  none, some, [], ◌∷◌, Bytes, length, leb, ◌==◌, add_size, if◌then◌else◌, ==-self, Bool-cases,
  arith,
}
use beaver_mq.Message.{Message, message_new_full, or_empty}
use beaver_mq.Queue.State.{Queue}
use beaver_mq.Queue.Lifetime.{ref, unref, queue_vhost, queue_dl_exchange, queue_dl_routing_key}
use beaver_mq.Queue.Ops.{queue_enqueue}
use beaver_mq.Queue.Refcount.{queue_enqueue-refcount}
use beaver_mq.HashMap.Chained.{hashmap_get}
use beaver_mq.Broker.Registry.{Heap, Broker, broker_vkey, with_queue, drop_queue}
use beaver_mq.Broker.Enqueues.{Enqueues}
use beaver_mq.Broker.Publish.{
  RouteResult, routed, resource_error, Answers, is_ok, collect_targets, dead_letters,
  enqueue_target, deliver, broker_route, broker_dl_max_hops, broker_dead_letter_cb,
}

with_queue_self : (heap : Heap) (a : ℕ) (q : Option Queue) → with_queue heap a q a ≡ q
with_queue_self heap a q = rw (==-self a) refl

-- A reference given back that is not the last.
drop_queue-shared :
    (b : Broker) (a : ℕ) (q : Queue) (n : ℕ)
    → b.heap a ≡ some q
    → q.refcount ≡ n + 1
    → 0 < n
    → drop_queue b a ≡ record b { heap = with_queue b.heap a (some (record q { refcount = n })) }
unfolding drop_queue unref
drop_queue-shared b a q n here count live =
    let shared : (q.refcount == 1) ≡ false = ground arith in
    let less : q.refcount - 1 ≡ n = omega arith in rw (here, shared, less) refl

module _ (hash : Bytes → ℕ) (m : Answers) (dead_letter : Broker → ℕ → Message → Broker) where
  -- A message for which there is nothing, the exchange not being there or, with the default exchange, no queue of that name, is
  -- routed to 0 queues, and nothing changes but the next message's number.
  pub broker_route-nothing :
      (b : Broker) (vhost : Option Bytes) (msg : Message)
      → ((msg.exchange ≡ [])
          × (hashmap_get hash b.queues (broker_vkey vhost (some msg.routing_key)) ≡ none))
        ⊎ ((0 < length msg.exchange)
            × (hashmap_get hash b.exchanges (broker_vkey vhost (some msg.exchange)) ≡ none))
      → broker_route hash m dead_letter b vhost msg
        ≡ (routed 0, record b { next_msg_id = add_size b.next_msg_id 1 })
  unfolding broker_route collect_targets deliver
  broker_route-nothing b vhost msg (inl (e, n)) = rw (e, n) refl
  broker_route-nothing b vhost msg (inr (e, n)) =
      let named : (length msg.exchange == 0) ≡ false = ground arith in rw (named, n) refl

  enqueue_target-kept :
      (i : ℕ) (b : Broker) (a : ℕ) (msg : Message) (r : Queue) (n : ℕ)
      → b.heap a ≡ some r
      → 0 < n
      → let o = queue_enqueue (m.dead i) (m.slots i) b.globals r msg in
        o.dead ≡ []
        → o.queue.refcount ≡ n + 1
        → (s : Heap) × (enqueue_target hash m dead_letter i b a msg
            ≡ (is_ok o.status, record b { globals = o.globals; heap = s }))
          × (s a ≡ some (record o.queue { refcount = n }))
  unfolding enqueue_target dead_letters
  enqueue_target-kept i b a msg r n here live none_dead count =
      let o = queue_enqueue (m.dead i) (m.slots i) b.globals r msg in
      let stored : Broker = record b {
        globals = o.globals;
        heap = with_queue b.heap a (some o.queue);
      } in
      let last = some (record o.queue { refcount = n }) in
      (
        with_queue stored.heap a last,
        rw (here, none_dead)
            (ap (λ x. (is_ok o.status, x))
              (drop_queue-shared stored a o.queue n (with_queue_self b.heap a (some o.queue)) count
                live)),
        with_queue_self stored.heap a last,
      )

  collect_targets-default :
      (b : Broker) (vhost : Option Bytes) (msg : Message) (a : ℕ) (q : Queue)
      → msg.exchange ≡ []
      → hashmap_get hash b.queues (broker_vkey vhost (some msg.routing_key)) ≡ some a
      → b.heap a ≡ some q
      → m.room ≡ true
      → collect_targets hash m b vhost msg
        ≡ (a ∷ [], false, record b { heap = with_queue b.heap a (some (ref q)) })
  unfolding collect_targets
  collect_targets-default b vhost msg a q ex found here room = rw (ex, found, room, here) refl

  -- A message to the default exchange is offered to the one queue that the routing key names, as queue_enqueue
  -- takes it under the number it is given. When that evicts nothing for the dead-letter callback, the
  -- queue keeps its reference count, and the broker has counted the message just when the queue took it.
  pub broker_route-default :
      (b : Broker) (vhost : Option Bytes) (msg : Message) (a : ℕ) (q : Queue)
      → msg.exchange ≡ []
      → hashmap_get hash b.queues (broker_vkey vhost (some msg.routing_key)) ≡ some a
      → b.heap a ≡ some q
      → 0 < q.refcount
      → m.room ≡ true
      → let sent : Message = record msg { id = b.next_msg_id } in
        let o = queue_enqueue (m.dead 0) (m.slots 0) b.globals (ref q) sent in
        let (result, b') = broker_route hash m dead_letter b vhost msg in
        o.dead ≡ []
        → (result ≡ (if is_ok o.status then routed 1 else resource_error))
          × (b'.heap a ≡ some (record o.queue { refcount = q.refcount }))
          × (b'.globals ≡ o.globals)
          × (b'.messages_published
              ≡ (if is_ok o.status then add_size b.messages_published 1 else b.messages_published))
  unfolding broker_route deliver ref
  broker_route-default b vhost msg a q ex found here live room none_dead =
      let sent : Message = record msg { id = b.next_msg_id } in
      let numbered : Broker = record b { next_msg_id = add_size b.next_msg_id 1 } in
      let o = queue_enqueue (m.dead 0) (m.slots 0) b.globals (ref q) sent in
      let shared : Broker = record numbered { heap = with_queue b.heap a (some (ref q)) } in
      let (s, taken, kept) =
        enqueue_target-kept 0 shared a sent (ref q) q.refcount
          (with_queue_self b.heap a (some (ref q))) live none_dead
          (queue_enqueue-refcount (m.dead 0) (m.slots 0) b.globals (ref q) sent) in
      let collected = collect_targets-default numbered vhost sent a q ex found here room in
      elim (Bool-cases (is_ok o.status)) [
        | inl e ↦ rw (broker_route, collected, deliver, taken, e) (refl, kept, refl, refl)
        | inr e ↦ rw (broker_route, collected, deliver, taken, e) (refl, kept, refl, refl)
      ]

message-cases :
    (header : ℕ) (alloc : ℕ → Bool) (ex rk : Option Bytes) (body : Bytes) (props : Option Bytes)
    → (message_new_full header alloc ex rk body props ≡ none)
      ⊎ (message_new_full header alloc ex rk body props
          ≡ some (
            record {
              id = 0;
              cluster_id = 0;
              exchange = or_empty ex;
              routing_key = or_empty rk;
              body = body;
              props = or_empty props;
              dl_hops = 0;
            },
            1,
          ))
unfolding message_new_full
message-cases header alloc ex rk body props = ground arith

nonempty : (s : Bytes) → (length s == 0) ≡ false → s ≢ []
nonempty [] e z = cc
nonempty (c ∷ s) e z = cc

module _ (header : ℕ) (alloc : ℕ → Bool)
    (route : Broker → Option Bytes → Message → RouteResult × Broker) where
  -- The dead-letter callback either leaves the broker as it is, as it does after 8 hops and without a dead-letter exchange,
  -- or routes one message on the queue's virtual host: to the dead-letter exchange, under the key set for
  -- dead letters or else its own, with the same body, properties, and one hop more, at most 8.
  pub broker_dead_letter_cb_lem :
      (b : Broker) (src : Queue) (msg : Message)
      → (broker_dead_letter_cb header alloc route b src msg ≡ b)
        ⊎ ((dm : Message) × (broker_dead_letter_cb header alloc route b src msg
              ≡ (route b (some (queue_vhost src)) dm).1)
            × (dm.dl_hops ≡ msg.dl_hops + 1)
            × (dm.dl_hops ≤ broker_dl_max_hops)
            × (dm.exchange ≡ queue_dl_exchange src)
            × (dm.exchange ≢ [])
            × (dm.routing_key ≡ (
                if length (queue_dl_routing_key src) == 0
                then msg.routing_key
                else queue_dl_routing_key src))
            × (dm.body ≡ msg.body)
            × (dm.props ≡ msg.props))
  unfolding broker_dead_letter_cb message_new_full
  broker_dead_letter_cb_lem b src msg = elim (Bool-cases (leb broker_dl_max_hops msg.dl_hops)) [
    | inl over ↦ inl (rw over refl)
    | inr under ↦ elim (Bool-cases (length (queue_dl_exchange src) == 0)) [
      | inl unset ↦ inl (rw (under, unset) refl)
      | inr unset_not ↦
          let rkey =
            if length (queue_dl_routing_key src) == 0
            then msg.routing_key
            else queue_dl_routing_key src in
          let dm : Message = record {
            id = 0;
            cluster_id = 0;
            exchange = queue_dl_exchange src;
            routing_key = rkey;
            body = msg.body;
            props = msg.props;
            dl_hops = (msg.dl_hops + 1) % 2 ^ 8;
          } in
          elim (message-cases header alloc (some (queue_dl_exchange src)) (some rkey) msg.body
            (some msg.props)) [
              | inl refused ↦ inl (rw (under, unset_not, refused) refl)
              | inr granted ↦
                  let few : msg.dl_hops < broker_dl_max_hops = ground arith in
                  let small : dm.dl_hops ≡ msg.dl_hops + 1 = omega arith in
                  inr (
                    dm,
                    rw (under, unset_not, granted) refl,
                    small,
                    omega arith,
                    refl,
                    nonempty (queue_dl_exchange src) unset_not,
                    refl,
                    refl,
                    refl,
                  )
            ]
    ]
  ]
