-- ===== src/Broker/Declared.antt =====
-- src/broker.c: declaring a queue, again and under other flags.
use beaver_mq.Prelude.{
  ℕ, ◌%◌, ◌^◌, ◌<◌, ◌≡◌, ◌≢◌, refl, inl, inr, Bool, true, false, Option, none, some, length, Bytes,
  ◌==◌, ==-self, if◌then◌else◌, Bool-cases,
}
use beaver_mq.Queue.State.{Queue, queue_new}
use beaver_mq.Queue.Lifetime.{queue_set_vhost, queue_depth}
use beaver_mq.Queue.Ring.{ring_new}
use beaver_mq.HashMap.Chained.{hashmap_get, hashmap_put}
use beaver_mq.HashMap.Lookup.{hashmap_get-hashmap_put}
use beaver_mq.Broker.Registry.{
  Broker, broker_vkey, with_queue, declared, oom, mismatch, DeclaredQueue, broker_declare_queue,
}

oom-ne-declared : oom ≢ declared
oom-ne-declared e = cc

module _ (hash : Bytes → ℕ) where
  -- What a declaration answers for a queue that is there.
  abbrev pub answer : Broker → Queue → ℕ → DeclaredQueue
  answer b q flags =
      if q.flags == flags
      then record { status = declared; created = false; depth = queue_depth q % 2 ^ 32; broker = b }
      else record { status = mismatch; created = false; depth = 0; broker = b }

  broker_declare_queue-there :
      (addr : Option ℕ) (copied grow entry : Bool) (b : Broker) (vhost name : Option Bytes)
      (flags a : ℕ) (q : Queue)
      → hashmap_get hash b.queues (broker_vkey vhost name) ≡ some a
      → b.heap a ≡ some q
      → broker_declare_queue hash addr copied grow entry b vhost name flags ≡ answer b q flags
  unfolding broker_declare_queue
  broker_declare_queue-there addr copied grow entry b vhost name flags a q found here =
      rw (found, here) refl

  -- A queue that is declared while there is none of its name is created empty. It is found from then on: declared again
  -- with the same flags it is not created anew, and nothing changes; with other flags the
  -- declaration is refused as a mismatch, and nothing changes either.
  pub broker_declare_queue-again :
      (addr : ℕ) (copied grow entry : Bool) (b : Broker) (vhost name : Option Bytes) (flags : ℕ)
      (addr' : Option ℕ) (copied' grow' entry' : Bool) (flags' : ℕ)
      → 0 < length b.queues.buckets
      → hashmap_get hash b.queues (broker_vkey vhost name) ≡ none
      → (broker_declare_queue hash (some addr) copied grow entry b vhost name flags).status
        ≡ declared
      → let first = broker_declare_queue hash (some addr) copied grow entry b vhost name flags in
        let again =
          broker_declare_queue hash addr' copied' grow' entry' first.broker vhost name flags' in
        (first.created ≡ true)
        × (first.depth ≡ 0)
        × (hashmap_get hash first.broker.queues (broker_vkey vhost name) ≡ some addr)
        × (again ≡ (
            if flags == flags'
            then record { status = declared; created = false; depth = 0; broker = first.broker }
            else record { status = mismatch; created = false; depth = 0; broker = first.broker }))
  unfolding broker_declare_queue queue_new queue_set_vhost queue_depth ring_new
  broker_declare_queue-again addr copied grow entry b vhost name flags addr' copied' grow' entry'
        flags' pos missing done =
      let key = broker_vkey vhost name in
      let q = queue_set_vhost copied vhost (queue_new name flags) in
      elim (Bool-cases (hashmap_put hash grow entry b.queues key addr).0) [
        | inr refused ↦
            let bad : oom ≡ declared = rw (missing, refused) at done in absurd (oom-ne-declared bad)
        | inl put ↦
            let queues = (hashmap_put hash grow entry b.queues key addr).2 in
            let found = hashmap_get-hashmap_put hash grow entry b.queues key addr pos put in
            let heap = with_queue b.heap addr (some q) in
            let here : heap addr ≡ some q = rw (==-self addr) refl in
            let again =
              broker_declare_queue-there addr' copied' grow' entry'
                (record b { queues = queues; heap = heap }) vhost name flags' addr q found here in
            rw (missing, put) (refl, refl, found, again)
      ]
