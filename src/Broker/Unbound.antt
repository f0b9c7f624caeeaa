-- ===== src/Broker/Unbound.antt =====
-- src/broker.c: the deletion of a queue, on every branch.
use beaver_mq.Prelude.{
  ℕ, ◌%◌, ◌^◌, ◌≡◌, ◌≢◌, refl, ◌⊎◌, inl, inr, Bool, ◌&&◌, Option, none, some, List, [], ◌∷◌, Bytes,
  All, ltb, if◌then◌else◌, Bool-cases, Option-cases,
}
use beaver_mq.Prelude.Swap.{count}
use beaver_mq.Exchange.Bindings.{Binding, Exchange, Refs, exchange_unbind_queue}
use beaver_mq.Exchange.Unbind.{is_of, is_other, exchange_unbind_queue_lem}
use beaver_mq.HashMap.Chained.{HashEntry, hashmap_get, hashmap_remove}
use beaver_mq.Broker.Registry.{Broker, broker_vkey, counts, with_counts, drop_queue, depth_at}
use beaver_mq.Broker.Deletion.{
  unbind_chain, unbind_buckets, DeleteStatus, deleted, no_queue, in_use, not_empty, consumers_at,
  broker_delete_queue,
}

-- No binding of the exchange leads to the queue.
abbrev pub IsUnbound : ℕ → HashEntry Exchange → Type 0
IsUnbound q e = count (is_of q) e.value.bindings ≡ 0

-- The entry keeps its key, and every binding to another queue, counted by any test.
pub record KeepsOthers (q : ℕ) (e e' : HashEntry Exchange) : Type 0 where
  pub key : e'.key ≡ e.key
  pub others :
      (p : Binding → Bool) → count p e'.value.bindings ≡ count (is_other p q) e.value.bindings

-- Lists of the same length, related element by element.
abbrev pub Pairwise {ℓ} : {A : Type ℓ} → (A → A → Type 0) → List A → List A → Type 0
Pairwise R [] [] = Unit
Pairwise R (x ∷ xs) (y ∷ ys) = R x y × Pairwise R xs ys
Pairwise R _ _ = ⊥

unbind_chain_lem :
    (q : ℕ) (es : List (HashEntry Exchange)) (refs : Refs)
    → All (IsUnbound q) (unbind_chain q es refs).0
      × Pairwise (KeepsOthers q) es (unbind_chain q es refs).0
unfolding unbind_chain
unbind_chain_lem q [] refs = (tt, tt)
unbind_chain_lem q (e ∷ es) refs =
    let (others, gone, removed, released) = exchange_unbind_queue_lem e.value q refs in
    let (all, pairs) = unbind_chain_lem q es (exchange_unbind_queue e.value q refs).2 in
    ((gone, all), (record { key = refl; others = others }, pairs))

unbind_buckets_lem :
    (q : ℕ) (cs : List (List (HashEntry Exchange))) (refs : Refs)
    → All (All (IsUnbound q)) (unbind_buckets q cs refs).0
      × Pairwise (Pairwise (KeepsOthers q)) cs (unbind_buckets q cs refs).0
unfolding unbind_buckets
unbind_buckets_lem q [] refs = (tt, tt)
unbind_buckets_lem q (c ∷ cs) refs =
    let (gone, kept) = unbind_chain_lem q c refs in
    let (all, pairs) = unbind_buckets_lem q cs (unbind_chain q c refs).1 in
    ((gone, all), (kept, pairs))

drop_queue_tables :
    (b : Broker) (a : ℕ)
    → ((drop_queue b a).exchanges ≡ b.exchanges) × ((drop_queue b a).queues ≡ b.queues)
unfolding drop_queue
drop_queue_tables b a = elim (Option-cases (b.heap a)) [
  | inl e ↦ rw e (refl, refl)
  | inr (q, e) ↦ rw e (refl, refl)
]

-- Why a deletion is refused: there is no such queue; it must be unused and has consumers; or it must be
-- empty and has messages.
abbrev pub refusal_at : Broker → Bool → Bool → Option ℕ → DeleteStatus
refusal_at b if_unused if_empty none = no_queue
refusal_at b if_unused if_empty (some a) =
    if if_unused && ltb 0 (consumers_at b.heap a)
    then in_use
    else if if_empty && ltb 0 (depth_at b.heap a % 2 ^ 32)
    then not_empty
    else deleted

-- A deletion that is refused changes nothing, and its status tells why. Otherwise it returns the number of messages, in 32 bits,
-- and afterwards no exchange has a binding to the queue, while each keeps its name in the table and
-- every binding to another queue; the name is removed from the table of queues.
pub broker_delete_queue_lem :
    (hash : Bytes → ℕ) (b : Broker) (vhost name : Option Bytes) (if_unused if_empty : Bool)
    → let (status, depth, b') = broker_delete_queue hash b vhost name if_unused if_empty in
      let key = broker_vkey vhost name in
      (status ≡ refusal_at b if_unused if_empty (hashmap_get hash b.queues key))
      × ((status ≢ deleted) × (depth ≡ 0) × (b' ≡ b)
          ⊎ ((a : ℕ) × (hashmap_get hash b.queues key ≡ some a)
              × (status ≡ deleted)
              × (depth ≡ depth_at b.heap a % 2 ^ 32)
              × All (All (IsUnbound a)) b'.exchanges.buckets
              × Pairwise (Pairwise (KeepsOthers a)) b.exchanges.buckets b'.exchanges.buckets
              × (b'.queues ≡ (hashmap_remove hash b.queues key).1)))
unfolding broker_delete_queue
broker_delete_queue_lem hash b vhost name if_unused if_empty =
    let key = broker_vkey vhost name in
    elim (Option-cases (hashmap_get hash b.queues key)) [
      | inl e ↦ rw e (refl, inl (λ r. cc, refl, refl))
      | inr (a, e) ↦ elim (Bool-cases (if_unused && ltb 0 (consumers_at b.heap a))) [
        | inl used ↦ rw (e, used) (refl, inl (λ r. cc, refl, refl))
        | inr free ↦ elim (Bool-cases (if_empty && ltb 0 (depth_at b.heap a % 2 ^ 32))) [
          | inl left ↦ rw (e, free, left) (refl, inl (λ r. cc, refl, refl))
          | inr clear ↦
              let (gone, kept) = unbind_buckets_lem a b.exchanges.buckets (counts b.heap) in
              let (buckets, refs) = unbind_buckets a b.exchanges.buckets (counts b.heap) in
              let dropped =
                drop_queue_tables
                  (record b {
                    exchanges = record b.exchanges { buckets = buckets };
                    queues = (hashmap_remove hash b.queues key).1;
                    heap = with_counts b.heap refs;
                  })
                  a in
              rw (e, free, clear)
                (refl, inr (a, refl, refl, refl, rw dropped.0 gone, rw dropped.0 kept, dropped.1))
        ]
      ]
    ]
