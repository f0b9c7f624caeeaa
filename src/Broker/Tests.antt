-- ===== src/Broker/Tests.antt =====
-- Runs of the broker, and the theorems at concrete inputs. The hash of a key is its length, so that keys collide.
use beaver_mq.Prelude.{
  ℕ, ◌≤◌, ◌≡◌, ◌≢◌, ◌⊎◌, refl, true, false, Option, none, some, [], Bytes, codes, str_eq, length,
  ◌==◌, arith, if◌then◌else◌, replicate,
}
use beaver_mq.Message.{Message, message_new_full, message_new}
use beaver_mq.Queue.State.{Globals, Queue, queue_new}
use beaver_mq.Queue.Ring.{ring_new, ring_grow, ring_push}
use beaver_mq.Queue.Flow.{queue_would_overflow, queue_update_congestion}
use beaver_mq.Queue.Ops.{queue_enqueue, evict, append_message, store_tail}
use beaver_mq.Exchange.Routing.{exchange_route, route_loop, route_one, binding_matches, is_target}
use beaver_mq.Exchange.Bindings.{is_bound, queue_ref}
use beaver_mq.Queue.Ring.{linearize}
use beaver_mq.Queue.Lifetime.{
  ref, unref, queue_vhost, queue_dl_exchange, queue_dl_routing_key, queue_depth, queue_set_vhost,
}
use beaver_mq.Exchange.Bindings.{direct, exchange_new, exchange_set_vhost, exchange_bind}
use beaver_mq.HashMap.Chained.{
  hashmap_new, hashmap_get, hashmap_put, find_entry, find_in, set_value,
}
use beaver_mq.Broker.Registry.{
  Broker, broker_new, broker_vkey, mismatch, broker_declare_queue, broker_declare_exchange,
  broker_bind, drop_queue,
}
use beaver_mq.Broker.Deletion.{broker_delete_queue, deleted}
use beaver_mq.Broker.Publish.{
  RouteResult, routed, Answers, collect_targets, deliver, enqueue_target, dead_letters,
  broker_route, broker_publish, broker_dl_max_hops, broker_dead_letter_cb,
}
use beaver_mq.Broker.Unbound.{broker_delete_queue_lem}
use beaver_mq.Broker.Declared.{broker_declare_queue-again}
use beaver_mq.Broker.Routed.{broker_route-default, broker_dead_letter_cb_lem}

abbrev hash : Bytes → ℕ
hash key = length key

abbrev globals : Globals
globals = record {
  max_length = 0;
  max_bytes = 0;
  flow_alarm_count = 0;
  mem_alarm = false;
  mem_high_bytes = 0;
}

abbrev answers : Answers
answers = record { room = true; matcher = λ i. true; dead = λ i n. true; slots = λ i. true }

-- No dead-letter exchange is set, so that the callback is not called.
abbrev no_dead_letter : Broker → ℕ → Message → Broker
no_dead_letter b a msg = b

abbrev vhost : Option Bytes
vhost = some (codes "/")

abbrev empty_broker : Broker
empty_broker = record {
  queues = record { buckets = replicate 16 []; count = 0 };
  exchanges = record { buckets = replicate 16 []; count = 0 };
  next_msg_id = 1;
  messages_published = 0;
  heap = λ a. none;
  globals = globals;
}

started_broker : broker_new true true true globals ≡ some empty_broker
unfolding broker_new hashmap_new
started_broker = refl

abbrev with_q : Broker
with_q =
    (broker_declare_queue hash (some 7) true true true empty_broker vhost (some (codes "q"))
      1).broker

broker_declare_queue-again_example :
    (broker_declare_queue hash none true true true with_q vhost (some (codes "q")) 2)
    ≡ record { status = mismatch; created = false; depth = 0; broker = with_q }
unfolding broker_declare_queue hashmap_put hashmap_get find_entry find_in set_value broker_vkey
    str_eq
broker_declare_queue-again_example =
    (broker_declare_queue-again hash 7 true true true empty_broker vhost (some (codes "q")) 1 none
      true true true 2 (omega arith) refl refl).3

abbrev hello : Message
hello = record {
  id = 0;
  cluster_id = 0;
  exchange = [];
  routing_key = codes "q";
  body = codes "hello";
  props = [];
  dl_hops = 0;
}

abbrev new_q : Queue
new_q = queue_set_vhost true vhost (queue_new (some (codes "q")) 1)

broker_route-default_example :
    (broker_route hash answers no_dead_letter with_q vhost hello).0 ≡ routed 1
unfolding broker_declare_queue hashmap_put hashmap_get find_entry find_in set_value broker_vkey
    str_eq queue_enqueue append_message store_tail ring_grow ring_push queue_would_overflow
    queue_update_congestion ref queue_new queue_set_vhost ring_new evict
broker_route-default_example =
    (broker_route-default hash answers no_dead_letter with_q vhost hello 7 new_q refl refl refl
      (omega arith) refl refl).0

broker_delete_queue_lem_example :
    (broker_delete_queue hash with_q vhost (some (codes "q")) true true).0 ≡ deleted
unfolding broker_declare_queue hashmap_put hashmap_get find_entry find_in set_value broker_vkey
    str_eq queue_new queue_set_vhost ring_new queue_depth
broker_delete_queue_lem_example =
    (broker_delete_queue_lem hash with_q vhost (some (codes "q")) true true).0

abbrev source : Queue
source = record new_q {
  dead_letter = record { exchange = some (codes "dlx"); routing_key = none; fn = true };
}

abbrev again : Broker → Option Bytes → Message → RouteResult × Broker
again b v msg = broker_route hash answers no_dead_letter b v msg

broker_dead_letter_cb_lem_example :
    (broker_dead_letter_cb 64 (λ n. true) again with_q source (record hello { dl_hops = 2 })
      ≡ with_q)
    ⊎ ((dm : Message) × (broker_dead_letter_cb 64
            (λ n. true)
            again
            with_q
            source
            (record hello { dl_hops = 2 })
          ≡ (again with_q (some (queue_vhost source)) dm).1)
        × (dm.dl_hops ≡ 3)
        × (dm.dl_hops ≤ broker_dl_max_hops)
        × (dm.exchange ≡ queue_dl_exchange source)
        × (dm.exchange ≢ [])
        × (dm.routing_key ≡ (
            if length (queue_dl_routing_key source) == 0
            then codes "q"
            else queue_dl_routing_key source))
        × (dm.body ≡ codes "hello")
        × (dm.props ≡ []))
broker_dead_letter_cb_lem_example =
    broker_dead_letter_cb_lem 64 (λ n. true) again with_q source (record hello { dl_hops = 2 })

-- After a publish through the direct exchange to one bound queue, one message is ready.
abbrev wired : Broker
wired =
    (broker_bind hash true true
      (broker_declare_exchange hash true true true true with_q vhost (some (codes "e")) direct 0).2
      vhost (some (codes "q")) (some (codes "e")) (some (codes "k"))).1

published_to_bound :
    (broker_publish hash answers no_dead_letter 64
      (λ n. true)
      wired
      vhost
      (some (codes "e"))
      (some (codes "k"))
      (codes "hi")).0
    ≡ routed 1
unfolding broker_publish broker_route collect_targets deliver enqueue_target dead_letters drop_queue
    unref message_new message_new_full exchange_route route_loop route_one binding_matches is_target
    queue_ref broker_bind exchange_bind is_bound broker_declare_exchange exchange_new
    exchange_set_vhost broker_declare_queue hashmap_put hashmap_get find_entry find_in set_value
    broker_vkey str_eq queue_enqueue append_message store_tail ring_grow ring_push
    queue_would_overflow queue_update_congestion ref queue_new queue_set_vhost ring_new evict
    linearize
published_to_bound = refl
