-- ===== src/Broker/Registry.antt =====
-- src/broker.c: declaring, binding and deleting. A queue is named by its address; `heap` holds the queue at
-- each address, none where there is none. An exchange is owned by the table, so that the table holds
-- it: a call that changes an exchange in place puts it back under its key.
use beaver_mq.Prelude.{
  ℕ, ◌%◌, ◌^◌, Bool, true, false, ◌&&◌, Option, none, some, ◌∷◌, ◌++◌, Bytes, codes, take, ◌==◌,
  if◌then◌else◌,
}
use beaver_mq.Message.{or_empty}
use beaver_mq.Queue.State.{Globals, Queue, queue_new}
use beaver_mq.Queue.Lifetime.{unref, queue_set_vhost, queue_depth}
use beaver_mq.Exchange.Bindings.{
  ExchangeType, direct, fanout, topic, Exchange, Refs, exchange_new, exchange_set_vhost,
  exchange_bind,
}
use beaver_mq.HashMap.Chained.{HashMap, hashmap_new, hashmap_get, hashmap_put}

abbrev pub Heap : Type 0
Heap = ℕ → Option Queue

-- struct beaver_broker, with the memory of the queues and the globals of src/queue.c
pub record Broker : Type 0 where
  pub queues : HashMap ℕ
  pub exchanges : HashMap Exchange
  pub next_msg_id : ℕ
  pub messages_published : ℕ
  pub heap : Heap
  pub globals : Globals

abbrev pub started : Globals → Option (HashMap ℕ) → Option (HashMap Exchange) → Option Broker
started g (some queues) (some exchanges) = some record {
  queues = queues;
  exchanges = exchanges;
  next_msg_id = 1;
  messages_published = 0;
  heap = λ a. none;
  globals = g;
}
started g _ _ = none

-- The answers for the struct, the lock and the two tables come first.
unfoldable pub broker_new : Bool → Bool → Bool → Globals → Option Broker
unfolding hashmap_new
broker_new granted queues exchanges g =
    if granted then started g (hashmap_new queues) (hashmap_new exchanges) else none

-- snprintf into 512 bytes, which cuts what does not fit
unfoldable pub broker_vkey : Option Bytes → Option Bytes → Bytes
broker_vkey vhost name = take 511 (or_empty vhost ++ 1 ∷ or_empty name)

abbrev pub with_queue : Heap → ℕ → Option Queue → Heap
with_queue heap a q x = if x == a then q else heap x

-- The counts that src/exchange.c reads and changes are those of the queues.
abbrev pub count_of : Option Queue → ℕ
count_of none = 0
count_of (some q) = q.refcount

abbrev pub counts : Heap → Refs
counts heap a = count_of (heap a)

abbrev pub recount : ℕ → Option Queue → Option Queue
recount n none = none
recount n (some q) = some (record q { refcount = n })

abbrev pub with_counts : Heap → Refs → Heap
with_counts heap refs a = recount (refs a) (heap a)

abbrev pub unref_at : Broker → ℕ → Option Queue → Broker
unref_at b a none = b
unref_at b a (some q) =
    let (g, released, left) = unref b.globals q in
    record b { globals = g; heap = with_queue b.heap a left }

-- queue_unref on the queue at an address
unfoldable pub drop_queue : Broker → ℕ → Broker
drop_queue b a = unref_at b a (b.heap a)

abbrev pub depth_of : Option Queue → ℕ
depth_of none = 0
depth_of (some q) = queue_depth q

abbrev pub depth_at : Heap → ℕ → ℕ
depth_at heap a = depth_of (heap a)

-- 0, -1 and -2
pub data DeclareStatus : Type 0 where
  declared oom mismatch : DeclareStatus

-- `created` and `depth` are written when the status is 0.
pub record DeclaredQueue : Type 0 where
  pub status : DeclareStatus
  pub created : Bool
  pub depth : ℕ
  pub broker : Broker

abbrev pub flags_of : Option Queue → ℕ
flags_of none = 0
flags_of (some q) = q.flags

abbrev pub flags_at : Heap → ℕ → ℕ
flags_at heap a = flags_of (heap a)

abbrev pub same_type : ExchangeType → ExchangeType → Bool
same_type direct direct = true
same_type fanout fanout = true
same_type topic topic = true
same_type _ _ = false

abbrev pub placed : Bool → Option Bytes → Option Exchange → Option Exchange
placed copied vhost none = none
placed copied vhost (some ex) = some (exchange_set_vhost copied vhost ex)

module _ (hash : Bytes → ℕ) where
  -- A queue that is not there yet: `addr` is where queue_new finds memory, `copied` is strdup's answer,
  -- `grow` and `entry` those of hashmap_put.
  abbrev pub new_queue :
      Option ℕ
      → Bool
      → Bool
      → Bool
      → Broker
      → Bytes
      → Option Bytes
      → Option Bytes
      → ℕ
      → DeclaredQueue
  new_queue none copied grow entry b key vhost name flags = record {
    status = oom;
    created = false;
    depth = 0;
    broker = b;
  }
  new_queue (some addr) copied grow entry b key vhost name flags =
      let q = queue_set_vhost copied vhost (queue_new name flags) in
      let (put, old, queues) = hashmap_put hash grow entry b.queues key addr in
      if put
      then record {
        status = declared;
        created = true;
        depth = queue_depth q % 2 ^ 32;
        broker = record b { queues = queues; heap = with_queue b.heap addr (some q) };
      }
      else record {
        status = oom;
        created = false;
        depth = 0;
        broker = drop_queue (record b { heap = with_queue b.heap addr (some q) }) addr;
      }

  abbrev pub declared_queue :
      Option ℕ
      → Bool
      → Bool
      → Bool
      → Broker
      → Bytes
      → Option Bytes
      → Option Bytes
      → ℕ
      → Option ℕ
      → DeclaredQueue
  declared_queue addr copied grow entry b key vhost name flags none =
      new_queue addr copied grow entry b key vhost name flags
  declared_queue addr copied grow entry b key vhost name flags (some a) =
      if flags_at b.heap a == flags
      then record {
        status = declared;
        created = false;
        depth = depth_at b.heap a % 2 ^ 32;
        broker = b;
      }
      else record { status = mismatch; created = false; depth = 0; broker = b }

  unfoldable pub broker_declare_queue :
      Option ℕ → Bool → Bool → Bool → Broker → Option Bytes → Option Bytes → ℕ → DeclaredQueue
  broker_declare_queue addr copied grow entry b vhost name flags =
      let key = broker_vkey vhost name in
      declared_queue addr copied grow entry b key vhost name flags (hashmap_get hash b.queues key)

  abbrev pub new_exchange :
      Bool → Bool → Broker → Bytes → Option Exchange → DeclareStatus × Bool × Broker
  new_exchange grow entry b key none = (oom, false, b)
  new_exchange grow entry b key (some ex) =
      let (put, old, exchanges) = hashmap_put hash grow entry b.exchanges key ex in
      if put then (declared, true, record b { exchanges = exchanges }) else (oom, false, b)

  abbrev pub declared_exchange :
      Bool
      → Bool
      → Broker
      → Bytes
      → Option Exchange
      → ExchangeType
      → ℕ
      → Option Exchange
      → DeclareStatus × Bool × Broker
  declared_exchange grow entry b key new type flags none = new_exchange grow entry b key new
  declared_exchange grow entry b key new type flags (some ex) =
      if same_type ex.type type && (ex.flags == flags)
      then (declared, false, b)
      else (mismatch, false, b)

  -- The status, *out_created and the broker; `granted` is the answer for the exchange.
  unfoldable pub broker_declare_exchange :
      Bool
      → Bool
      → Bool
      → Bool
      → Broker
      → Option Bytes
      → Option Bytes
      → ExchangeType
      → ℕ
      → DeclareStatus × Bool × Broker
  broker_declare_exchange granted copied grow entry b vhost name type flags =
      let key = broker_vkey vhost name in
      declared_exchange grow entry b key
        (placed copied vhost (exchange_new granted name type flags)) type flags
        (hashmap_get hash b.exchanges key)

  -- Every request for memory is granted here.
  unfoldable pub declare_default_exchanges : Broker → Option Bytes → Broker
  unfolding broker_declare_exchange
  declare_default_exchanges b vhost =
      let b1 =
        (broker_declare_exchange true true true true b vhost (some (codes "amq.direct")) direct
          0).2 in
      let b2 =
        (broker_declare_exchange true true true true b1 vhost (some (codes "amq.fanout")) fanout
          0).2 in
      (broker_declare_exchange true true true true b2 vhost (some (codes "amq.topic")) topic 0).2

  abbrev pub bound :
      Bool → Bool → Broker → Bytes → Option Bytes → Option Exchange → Option ℕ → Bool × Broker
  bound grow copy b key routing_key (some ex) (some a) =
      let (done, ex', refs) = exchange_bind grow copy ex routing_key a (counts b.heap) in
      (
        done,
        record b {
          exchanges = (hashmap_put hash true true b.exchanges key ex').2;
          heap = with_counts b.heap refs;
        },
      )
  bound grow copy b key routing_key _ _ = (false, b)

  -- Whether it returned 0, and the broker.
  unfoldable pub broker_bind :
      Bool
      → Bool
      → Broker
      → Option Bytes
      → Option Bytes
      → Option Bytes
      → Option Bytes
      → Bool × Broker
  broker_bind grow copy b vhost queue exchange routing_key =
      let ekey = broker_vkey vhost exchange in
      bound grow copy b ekey routing_key (hashmap_get hash b.exchanges ekey)
        (hashmap_get hash b.queues (broker_vkey vhost queue))
