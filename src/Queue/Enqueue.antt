-- ===== src/Queue/Enqueue.antt =====
-- src/queue.c, queue_enqueue and queue_requeue_internal against the specification of Queue/Spec.antt.
use beaver_mq.Prelude.{
  ℕ, ◌+◌, ◌≤◌, ◌<◌, ◌^◌, ◌≡◌, refl, sym, ap, ap₂, ◌∙◌, ◌⊎◌, inl, inr, Bool, true, false, not, ◌&&◌,
  List, [], ◌∷◌, ◌++◌, append_assoc, append-nil, length, Bool-cases, arith,
}
use mathlib.Core.Path.{subst}
use beaver_mq.Message.{Message, body_len}
use beaver_mq.Queue.Ring.{ring_pop}
use beaver_mq.Queue.State.{Globals, Queue, Overflow, reject_publish, drop_head}
use beaver_mq.Queue.Flow.{max_len, max_bytes, queue_would_overflow}
use beaver_mq.Queue.Ops.{
  Outcome, Status, Evicting, settle_evicted, evict_head, evict, evicting, without_head,
  append_message, is_drop_head, queue_enqueue, queue_requeue_internal,
}
use beaver_mq.Queue.Spec.{IsQueue, sum_len, overflows, trim, dropped, store_spec, enqueue_spec}
use beaver_mq.Queue.Refine.{
  would_overflow-overflows, head-IsQueue, without_head-IsQueue, append_message-Leaves,
}

-- Once a reference is dropped without the callback, no later one goes to it.
abbrev Ordered : Evicting → Type 0
Ordered e = (e.released ≡ []) ⊎ ((e.queue.dead_letter.fn && not e.dead_oom) ≡ false)

abbrev given_up : Evicting → List Message
given_up e = e.dead ++ e.released

module _ (dl_alloc : ℕ → Bool) where
  queue-settle : (e : Evicting) (old : Message) → (settle_evicted dl_alloc e old).queue ≡ e.queue
  unfolding settle_evicted
  queue-settle e old = ground arith

  given_up-settle :
      (e : Evicting) (old : Message)
      → Ordered e
      → (given_up (settle_evicted dl_alloc e old) ≡ given_up e ++ old ∷ [])
        × Ordered (settle_evicted dl_alloc e old)
  unfolding settle_evicted
  given_up-settle e old o = ground (
    arith,
    append_assoc e.dead e.released (old ∷ []),
    append-nil e.dead,
    append-nil (e.dead ++ old ∷ []),
  )

  -- One round at a queue that holds `m` first.
  evict_head-lem :
      (e : Evicting) {m : Message} {ms : List Message}
      → IsQueue e.queue (m ∷ ms)
      → sum_len (m ∷ ms) < 2 ^ 64
      → evict_head dl_alloc e (ring_pop e.queue.ring)
        ≡ settle_evicted dl_alloc
            (record e { queue = without_head e.queue m (ring_pop e.queue.ring).1 })
            m
  unfolding evict_head
  evict_head-lem e v small = rw (head-IsQueue v small)

-- The loop left `r`, from `e` at the messages `ms`, under the limits `ml` and `mb`.
record Evicts (ml mb len : ℕ) (ms : List Message) (e r : Evicting) : Type 0 where
  contents : IsQueue r.queue (trim ml mb len ms)
  gone : given_up r ≡ given_up e ++ dropped ml mb len ms
  cap_same : r.queue.ring.cap ≡ e.queue.ring.cap

module _ (dl_alloc : ℕ → Bool) (g : Globals) (len : ℕ) where
  evict_step :
      (e : Evicting) {m : Message} {ms : List Message}
      → IsQueue e.queue (m ∷ ms)
      → sum_len (m ∷ ms) < 2 ^ 64
      → Ordered e
      → let n = evict_head dl_alloc e (ring_pop e.queue.ring) in
        (n.queue ≡ without_head e.queue m (ring_pop e.queue.ring).1)
        × (given_up n ≡ given_up e ++ m ∷ [])
        × Ordered n
  evict_step e {m} v small o =
      let e' : Evicting = record e { queue = without_head e.queue m (ring_pop e.queue.ring).1 } in
      let (gone, o') = given_up-settle dl_alloc e' m o in
      rw (evict_head-lem dl_alloc e v small) (queue-settle dl_alloc e' m, gone, o')

  evict-Evicts :
      (e : Evicting) (ml mb : ℕ) (ms : List Message)
      → ml ≡ max_len g e.queue
      → mb ≡ max_bytes g e.queue
      → IsQueue e.queue ms
      → sum_len ms + len < 2 ^ 64
      → Ordered e
      → Evicts ml mb len ms e (evict dl_alloc g len (length ms) e)
  unfolding evict ring_pop
  evict-Evicts e ml mb [] hl hb v small o = record {
    contents = v;
    gone = sym (append-nil (given_up e));
    cap_same = refl;
  }
  evict-Evicts e ml mb (m ∷ ms) hl hb v small o =
      let test : queue_would_overflow g e.queue len ≡ overflows ml mb len (m ∷ ms) =
        would_overflow-overflows g len v small
        ∙ ap₂ (λ a b. overflows a b len (m ∷ ms)) (sym hl) (sym hb) in
      let (queue, gone, o') = evict_step e v (omega arith) o in
      let next = evict_head dl_alloc e (ring_pop e.queue.ring) in
      let held : IsQueue next.queue ms = rw queue (without_head-IsQueue v (omega arith)) in
      let ih =
        evict-Evicts next ml mb ms (hl ∙ sym (ap (max_len g) queue))
          (hb ∙ sym (ap (max_bytes g) queue)) held (omega arith) o' in
      elim (Bool-cases (overflows ml mb len (m ∷ ms))) [
        | inl over ↦ rw (test ∙ over) (record {
          contents = rw over ih.contents;
          gone = rw over (
              ih.gone
              ∙ ap (λ t. t ++ dropped ml mb len ms) gone
              ∙ append_assoc (given_up e) (m ∷ []) (dropped ml mb len ms));
          cap_same = ih.cap_same ∙ ap (λ t. t.ring.cap) queue;
        })
        | inr fits ↦ rw (test ∙ fits) (record {
          contents = rw fits v;
          gone = rw fits (sym (append-nil (given_up e)));
          cap_same = refl;
        })
      ]

module _ (ml mb len : ℕ) where
  pub trim-fits :
      (ms : List Message)
      → overflows ml mb len ms ≡ false
      → (trim ml mb len ms ≡ ms) × (dropped ml mb len ms ≡ [])
  trim-fits [] h = (refl, refl)
  trim-fits (m ∷ ms) h = rw h (refl, refl)

  pub sum_len-trim-le : (ms : List Message) → sum_len (trim ml mb len ms) ≤ sum_len ms
  sum_len-trim-le [] = omega arith
  sum_len-trim-le (m ∷ ms) = ground (arith, sum_len-trim-le ms)

-- The outcome of an enqueue is the specification's.
abbrev pub Implements : Status × List Message × List Message → Outcome → Type 0
Implements (status, ms, gone) out =
    (out.status ≡ status) × IsQueue out.queue ms × (out.dead ++ out.released ≡ gone)

gone-store_spec :
    (cap : ℕ) (granted : Bool) (ms : List Message) (m : Message) (gone : List Message)
    → (store_spec cap granted ms m gone).2 ≡ gone
gone-store_spec cap granted ms m gone = ground arith

append-Implements :
    (granted : Bool) (g : Globals) {q : Queue} {ms : List Message} (m : Message)
    → IsQueue q ms
    → sum_len ms + body_len m < 2 ^ 64
    → (dead released : List Message)
    → Implements
        (store_spec q.ring.cap granted ms m (dead ++ released))
        (append_message granted g q m dead released)
append-Implements granted g {q} {ms} m v small dead released =
    let l = append_message-Leaves g m v small dead released (dead ++ released) granted in
    (
      l.status_is,
      l.contents,
      ap₂ ◌++◌ l.dead_is l.released_is
          ∙ sym (gone-store_spec q.ring.cap granted ms m (dead ++ released)),
    )

module _ (dl_alloc : ℕ → Bool) (granted : Bool) (g : Globals) {q : Queue} {ms : List Message}
    (m : Message) (v : IsQueue q ms) (small : sum_len ms + body_len m < 2 ^ 64) where
  abbrev Specified : Overflow → Type 0
  Specified ov =
      Implements (enqueue_spec (max_len g q) (max_bytes g q) ov q.ring.cap granted ms m)
        (queue_enqueue dl_alloc granted g q m)

  test :
      queue_would_overflow g q (body_len m)
      ≡ overflows (max_len g q) (max_bytes g q) (body_len m) ms
  test = would_overflow-overflows g (body_len m) v small

  kept : List Message
  kept = trim (max_len g q) (max_bytes g q) (body_len m) ms

  gone : List Message
  gone = dropped (max_len g q) (max_bytes g q) (body_len m) ms

  -- the loop, and the store behind it
  evicted_then_stored :
      let e = evict dl_alloc g (body_len m) q.ring.count (evicting q) in
      Implements
        (store_spec q.ring.cap granted kept m gone)
        (append_message granted g e.queue m e.dead e.released)
  unfolding kept gone
  evicted_then_stored =
      let loop = λ (n : ℕ). evict dl_alloc g (body_len m) n (evicting q) in
      let w =
        subst (λ n. Evicts (max_len g q) (max_bytes g q) (body_len m) ms (evicting q) (loop n))
          (sym v.ring.counted)
          (evict-Evicts dl_alloc g (body_len m) (evicting q) (max_len g q) (max_bytes g q) ms refl
            refl v small (inl refl)) in
      let e = loop q.ring.count in
      let less = sum_len-trim-le (max_len g q) (max_bytes g q) (body_len m) ms in
      let out = append_message granted g e.queue m e.dead e.released in
      subst (λ d. Implements (store_spec q.ring.cap granted kept m d) out) w.gone
        (subst (λ c. Implements (store_spec c granted kept m (e.dead ++ e.released)) out) w.cap_same
          (append-Implements granted g m w.contents (omega arith) e.dead e.released))

  enqueue_by : (ov : Overflow) → q.limits.overflow ≡ ov → Specified ov
  unfolding queue_enqueue kept gone
  enqueue_by ov eq = elim (Bool-cases (overflows (max_len g q) (max_bytes g q) (body_len m) ms)) [
    | inl over ↦ by_over ov eq over
    | inr fits ↦ by_fits ov fits
  ]
    where
      by_over :
          (ov : Overflow)
          → q.limits.overflow ≡ ov
          → overflows (max_len g q) (max_bytes g q) (body_len m) ms ≡ true
          → Specified ov
      by_over reject_publish eq over =
          rw (test, over, ap is_drop_head eq)
            (refl, record { ring = v.ring; bytes = v.bytes }, refl)
      by_over drop_head eq over = rw (test, over, ap is_drop_head eq) evicted_then_stored

      by_fits :
          (ov : Overflow)
          → overflows (max_len g q) (max_bytes g q) (body_len m) ms ≡ false
          → Specified ov
      by_fits reject_publish fits = rw (test, fits) (append-Implements granted g m v small [] [])
      by_fits drop_head fits =
          let (t, d) = trim-fits (max_len g q) (max_bytes g q) (body_len m) ms fits in
          rw (test, fits, t, d) (append-Implements granted g m v small [] [])

  -- queue_enqueue implements the specification: at a well-formed queue that holds `ms`, with a byte
  -- total below 2 ^ 64, its status, the messages held afterwards and those that it gives up, oldest
  -- first, are the specified ones. This covers the reject and the drop-head policy, every limit, and
  -- every answer of the allocator, for the array as for the dead-letter list.
  pub queue_enqueue_lem :
      Implements
        (enqueue_spec (max_len g q) (max_bytes g q) q.limits.overflow q.ring.cap granted ms m)
        (queue_enqueue dl_alloc granted g q m)
  queue_enqueue_lem = enqueue_by q.limits.overflow refl

  -- A message that comes back is never refused for a limit: it is stored behind the others, and no
  -- message leaves, unless the full array cannot grow.
  pub queue_requeue_internal_lem :
      Implements (store_spec q.ring.cap granted ms m []) (queue_requeue_internal granted g q m)
  unfolding queue_requeue_internal
  queue_requeue_internal_lem = append-Implements granted g m v small [] []
