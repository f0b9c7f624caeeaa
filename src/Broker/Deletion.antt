-- ===== src/Broker/Deletion.antt =====
-- src/broker.c: the deletion of a queue.
use beaver_mq.Prelude.{
  ℕ, ◌%◌, ◌^◌, Bool, ◌&&◌, Option, none, some, List, [], ◌∷◌, Bytes, ltb, if◌then◌else◌,
}
use beaver_mq.Queue.State.{Queue}
use beaver_mq.Exchange.Bindings.{Exchange, Refs, exchange_unbind_queue}
use beaver_mq.HashMap.Chained.{HashEntry, hashmap_get, hashmap_remove}
use beaver_mq.Broker.Registry.{Heap, Broker, broker_vkey, counts, with_counts, drop_queue, depth_at}

-- The callback on each exchange, in the order of hashmap_iter
unfoldable pub unbind_chain :
    ℕ → List (HashEntry Exchange) → Refs → List (HashEntry Exchange) × Refs
unbind_chain q [] refs = ([], refs)
unbind_chain q (e ∷ es) refs =
    let (removed, ex, refs') = exchange_unbind_queue e.value q refs in
    let (es', refs'') = unbind_chain q es refs' in (record e { value = ex } ∷ es', refs'')

unfoldable pub unbind_buckets :
    ℕ → List (List (HashEntry Exchange)) → Refs → List (List (HashEntry Exchange)) × Refs
unfolding unbind_chain
unbind_buckets q [] refs = ([], refs)
unbind_buckets q (c ∷ cs) refs =
    let (c', refs') = unbind_chain q c refs in
    let (cs', refs'') = unbind_buckets q cs refs' in (c' ∷ cs', refs'')

-- 0, -1, -2 and -3
pub data DeleteStatus : Type 0 where
  deleted no_queue in_use not_empty : DeleteStatus

abbrev pub consumers_of : Option Queue → ℕ
consumers_of none = 0
consumers_of (some q) = q.consumers

abbrev pub consumers_at : Heap → ℕ → ℕ
consumers_at heap a = consumers_of (heap a)

module _ (hash : Bytes → ℕ) where
  abbrev pub removed_queue : Broker → Bytes → ℕ → Broker
  removed_queue b key a =
      let (buckets, refs) = unbind_buckets a b.exchanges.buckets (counts b.heap) in
      drop_queue
        (record b {
          exchanges = record b.exchanges { buckets = buckets };
          queues = (hashmap_remove hash b.queues key).1;
          heap = with_counts b.heap refs;
        })
        a

  abbrev pub delete_at : Broker → Bytes → Bool → Bool → Option ℕ → DeleteStatus × ℕ × Broker
  delete_at b key if_unused if_empty none = (no_queue, 0, b)
  delete_at b key if_unused if_empty (some a) =
      let depth = depth_at b.heap a % 2 ^ 32 in
      if if_unused && ltb 0 (consumers_at b.heap a)
      then (in_use, 0, b)
      else if if_empty && ltb 0 depth
      then (not_empty, 0, b)
      else (deleted, depth, removed_queue b key a)

  -- The status, *out_msgcount where it is written, and the broker.
  unfoldable pub broker_delete_queue :
      Broker → Option Bytes → Option Bytes → Bool → Bool → DeleteStatus × ℕ × Broker
  unfolding unbind_buckets
  broker_delete_queue b vhost name if_unused if_empty =
      let key = broker_vkey vhost name in
      delete_at b key if_unused if_empty (hashmap_get hash b.queues key)
