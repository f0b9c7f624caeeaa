-- ===== src/Broker/Stats.antt =====
-- src/broker.c: look-ups and totals.
use beaver_mq.Prelude.{
  ℕ, ◌-◌, ◌^◌, Bool, true, false, Option, none, some, List, [], ◌∷◌, ◌++◌, Bytes, ltb, add_size,
  if◌then◌else◌,
}
use beaver_mq.Queue.State.{Queue}
use beaver_mq.Queue.Lifetime.{ref, queue_depth}
use beaver_mq.Queue.Track.{oldest_live_cluster_id}
use beaver_mq.HashMap.Chained.{HashEntry, hashmap_get}
use beaver_mq.Broker.Registry.{Heap, Broker, broker_vkey, with_queue}

abbrev pub referenced : Broker → Option ℕ → Option ℕ × Broker
referenced b none = (none, b)
referenced b (some a) = (
  some a,
  record b { heap = with_queue b.heap a (elim (b.heap a) [ none ↦ none | some q ↦ some (ref q) ]) },
)

abbrev pub is_there {ℓ} : {A : Type ℓ} → Option A → Bool
is_there none = false
is_there (some x) = true

module _ (hash : Bytes → ℕ) where
  unfoldable pub broker_get_queue : Broker → Option Bytes → Option Bytes → Option ℕ × Broker
  broker_get_queue b vhost name = referenced b (hashmap_get hash b.queues (broker_vkey vhost name))

  unfoldable pub broker_exchange_exists : Broker → Option Bytes → Option Bytes → Bool
  broker_exchange_exists b vhost name =
      is_there (hashmap_get hash b.exchanges (broker_vkey vhost name))

-- The values in the order of hashmap_iter.
unfoldable pub chain_values {ℓ} : {V : Type ℓ} → List (HashEntry V) → List V
chain_values [] = []
chain_values (e ∷ es) = e.value ∷ chain_values es

unfoldable pub table_values {ℓ} : {V : Type ℓ} → List (List (HashEntry V)) → List V
unfolding chain_values
table_values [] = []
table_values (c ∷ cs) = chain_values c ++ table_values cs

-- broker_stats_t
pub record Stats : Type 0 where
  pub queue_count : ℕ
  pub exchange_count : ℕ
  pub messages_published : ℕ
  pub messages_ready : ℕ
  pub total_enqueued : ℕ
  pub total_dequeued : ℕ

abbrev pub summed : Option Queue → ℕ × ℕ × ℕ → ℕ × ℕ × ℕ
summed none acc = acc
summed (some q) (ready, enqueued, dequeued) = (
  add_size ready (queue_depth q),
  add_size enqueued q.totals.enqueued,
  add_size dequeued q.totals.dequeued,
)

-- The walk with sum_queue_cb.
unfoldable pub sum_queues : Heap → List ℕ → ℕ × ℕ × ℕ → ℕ × ℕ × ℕ
sum_queues heap [] acc = acc
sum_queues heap (a ∷ rest) acc = sum_queues heap rest (summed (heap a) acc)

unfoldable pub broker_stats : Broker → Stats
unfolding sum_queues table_values
broker_stats b =
    let (ready, enqueued, dequeued) = sum_queues b.heap (table_values b.queues.buckets) (0, 0, 0) in
    record {
      queue_count = b.queues.count;
      exchange_count = b.exchanges.count;
      messages_published = b.messages_published;
      messages_ready = ready;
      total_enqueued = enqueued;
      total_dequeued = dequeued;
    }

abbrev pub live_of : ℕ → Option Queue → ℕ
live_of m none = m
live_of m (some q) = oldest_live_cluster_id q

-- The walk with min_live_cb.
unfoldable pub min_live : Heap → List ℕ → ℕ → ℕ
min_live heap [] m = m
min_live heap (a ∷ rest) m =
    let v = live_of m (heap a) in min_live heap rest (if ltb v m then v else m)

unfoldable pub broker_min_live_cluster_id : Broker → ℕ
unfolding min_live table_values
broker_min_live_cluster_id b = min_live b.heap (table_values b.queues.buckets) (2 ^ 64 - 1)
