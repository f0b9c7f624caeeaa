-- ===== src/Dispatch/Interest.antt =====
-- src/dispatch.c: a worker's interest in a queue, the waiter that wakes it.
use beaver_mq.Prelude.{ℕ, ◌≡◌, refl, true, false, none, some, List, [], ◌∷◌, arith, ==-self}
use mathlib.Core.Path.{subst}
use beaver_mq.Queue.Lifetime.{consumers_inc}
use beaver_mq.Dispatch.State.{
  Consumer, Group, Worker, Outside, dispatcher_notify, find_group, put_group,
}
use beaver_mq.Dispatch.Registry.{group_add, joined, dispatcher_add_consumer}

find_put_group : (g : Group) (gs : List Group) → find_group g.queue (put_group g gs) ≡ some g
unfolding find_group put_group
find_put_group g [] = let e = ==-self g.queue in rw e refl
find_put_group g (h ∷ hs) = let e = ==-self g.queue in let ih = find_put_group g hs in ground arith

notify_queues : (o : Outside) (k : ℕ) (w : Worker) → (dispatcher_notify o k w).queues ≡ w.queues
unfolding dispatcher_notify
notify_queues o k w = ground arith

abbrev pub empty_group : ℕ → Group
empty_group k = record { queue = k; members = []; cap = 0; rr = 0 }

-- The first consumer of a queue, refused for want of a member's slot.
refused_add :
    (callback self : ℕ) (o : Outside) (c : Consumer) (w : Worker)
    → find_group c.queue w.groups ≡ none
    → o.consumer_memory ≡ true
    → o.group_memory ≡ true
    → o.member_memory ≡ false
    → dispatcher_add_consumer callback self o c w
      ≡ (false, record w { groups = put_group (empty_group c.queue) w.groups })
unfolding dispatcher_add_consumer group_add
refused_add callback self o c w f m1 m2 m3 = rw (f, m1, m2, m3) refl

joined_waiters :
    (callback self : ℕ) (o : Outside) (c : Consumer) (w : Worker)
    → ((joined callback self o c false w).queues c.queue).waiters ≡ (w.queues c.queue).waiters
unfolding joined consumers_inc
joined_waiters callback self o c w =
    let e = ==-self c.queue in rw (notify_queues o c.queue _, e) refl

granted_add :
    (o : Outside) (i : ℕ) (g : Group) → o.member_memory ≡ true → (group_add o i g).0 ≡ true
unfolding group_add
granted_add o i g m = ground arith

joined_eq :
    (callback self : ℕ) (o : Outside) (c : Consumer) (g : Group) (w : Worker)
    → find_group c.queue w.groups ≡ some g
    → o.consumer_memory ≡ true
    → o.member_memory ≡ true
    → dispatcher_add_consumer callback self o c w ≡ (
      true,
      joined callback self o c false
          (record w { groups = put_group (group_add o c.id g).1 w.groups }),
    )
unfolding dispatcher_add_consumer
joined_eq callback self o c g w f m1 m2 =
    let a : (group_add o c.id g).0 ≡ true = granted_add o c.id g m2 in rw (f, m1, a) refl

joined_add :
    (callback self : ℕ) (o : Outside) (c : Consumer) (g : Group) (w : Worker)
    → find_group c.queue w.groups ≡ some g
    → o.consumer_memory ≡ true
    → o.member_memory ≡ true
    → ((dispatcher_add_consumer callback self o c w).0 ≡ true)
      × (((dispatcher_add_consumer callback self o c w).1.queues c.queue).waiters
          ≡ (w.queues c.queue).waiters)
joined_add callback self o c g w f m1 m2 =
    let e = joined_eq callback self o c g w f m1 m2 in
    let h = (group_add o c.id g).1 in
    let r = joined_waiters callback self o c (record w { groups = put_group h w.groups }) in
    rw e (refl, r)

-- A first consumer of a queue that is refused because its new group's array cannot grow leaves the empty
-- group behind: the next consumer of the queue, which gets its memory, is accepted, but the queue's waiters
-- stay what they were, so nothing wakes the worker for it.
pub refused-no_waiter :
    (callback self : ℕ) (o p : Outside) (c d : Consumer) (w : Worker)
    → find_group c.queue w.groups ≡ none
    → o.consumer_memory ≡ true
    → o.group_memory ≡ true
    → o.member_memory ≡ false
    → d.queue ≡ c.queue
    → p.consumer_memory ≡ true
    → p.member_memory ≡ true
    → let (ok1, w1) = dispatcher_add_consumer callback self o c w in
      let (ok2, w2) = dispatcher_add_consumer callback self p d w1 in
      (ok1 ≡ false) × (ok2 ≡ true) × ((w2.queues c.queue).waiters ≡ (w.queues c.queue).waiters)
refused-no_waiter callback self o p c d w f m1 m2 m3 q n1 n2 =
    let g = empty_group c.queue in
    let v = record w { groups = put_group g w.groups } in
    let e = refused_add callback self o c w f m1 m2 m3 in
    let j = joined_add callback self p d g v (rw q (find_put_group g w.groups)) n1 n2 in
    rw e (
      refl,
      j.0,
      subst
          (λ k.
            ((dispatcher_add_consumer callback self p d v).1.queues k).waiters
            ≡ (w.queues k).waiters)
          q j.1,
    )
