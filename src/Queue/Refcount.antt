-- ===== src/Queue/Refcount.antt =====
-- src/queue.c: an enqueue leaves the queue's references alone.
use beaver_mq.Prelude.{
  ℕ, zero, suc, ◌≡◌, refl, ◌∙◌, inl, inr, Bool, Option, none, some, List, [], Bool-cases, ◌==◌,
  arith,
}
use beaver_mq.Message.{Message, body_len}
use beaver_mq.Queue.Ring.{Ring, ring_grow, ring_pop}
use beaver_mq.Queue.State.{Globals, Queue}
use beaver_mq.Queue.Flow.{queue_would_overflow, queue_update_congestion}
use beaver_mq.Queue.Ops.{
  without_head, Evicting, grow_dead, settle_evicted, evict_head, evict, store_tail, append_message,
  queue_enqueue, evicting,
}

grow_dead-refcount :
    (alloc : ℕ → Bool) (e : Evicting) → (grow_dead alloc e).queue.refcount ≡ e.queue.refcount
unfolding grow_dead
grow_dead-refcount alloc e = ground arith

settle_evicted-refcount :
    (alloc : ℕ → Bool) (e : Evicting) (old : Message)
    → (settle_evicted alloc e old).queue.refcount ≡ e.queue.refcount
unfolding settle_evicted
settle_evicted-refcount alloc e old = ground (arith, grow_dead-refcount alloc e)

evict_head-refcount :
    (alloc : ℕ → Bool) (e : Evicting) (p : Option Message × Ring Message)
    → (evict_head alloc e p).queue.refcount ≡ e.queue.refcount
unfolding evict_head
evict_head-refcount alloc e (none, r) = refl
evict_head-refcount alloc e (some old, r) =
    settle_evicted-refcount alloc (record e { queue = without_head e.queue old r }) old

evict-refcount :
    (alloc : ℕ → Bool) (g : Globals) (len n : ℕ) (e : Evicting)
    → (evict alloc g len n e).queue.refcount ≡ e.queue.refcount
unfolding evict
evict-refcount alloc g len zero e = refl
evict-refcount alloc g len (suc n) e = elim (Bool-cases (queue_would_overflow g e.queue len)) [
  | inl over ↦ rw over (
      evict-refcount alloc g len n (evict_head alloc e (ring_pop e.queue.ring))
      ∙ evict_head-refcount alloc e (ring_pop e.queue.ring))
  | inr fits ↦ rw fits refl
]

congestion-refcount :
    (g : Globals) (q : Queue) → (queue_update_congestion g q).1.refcount ≡ q.refcount
unfolding queue_update_congestion
congestion-refcount g q = ground arith

append_message-refcount :
    (granted : Bool) (g : Globals) (q : Queue) (m : Message) (dead released : List Message)
    → (append_message granted g q m dead released).queue.refcount ≡ q.refcount
unfolding append_message store_tail
append_message-refcount granted g q m dead released =
    elim (Bool-cases (q.ring.count == q.ring.cap)) [
      | inr roomy ↦ rw roomy (congestion-refcount g _)
      | inl tight ↦ elim (Bool-cases (ring_grow granted q.ring).0) [
        | inl grown ↦ rw (tight, grown) (congestion-refcount g _)
        | inr refused ↦ rw (tight, refused) refl
      ]
    ]

pub queue_enqueue-refcount :
    (alloc : ℕ → Bool) (granted : Bool) (g : Globals) (q : Queue) (m : Message)
    → (queue_enqueue alloc granted g q m).queue.refcount ≡ q.refcount
unfolding queue_enqueue
queue_enqueue-refcount alloc granted g q m =
    let e = evict alloc g (body_len m) q.ring.count (evicting q) in
    let kept = evict-refcount alloc g (body_len m) q.ring.count (evicting q) in
    let evicted = append_message-refcount granted g e.queue m e.dead e.released in
    let plain = append_message-refcount granted g q m [] [] in ground arith
