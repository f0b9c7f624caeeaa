-- ===== src/Queue/Bounds.antt =====
-- src/queue.c: the limits hold after an enqueue, and the congestion flag follows the load.
use beaver_mq.Prelude.{
  ℕ, ◌+◌, ◌-◌, ◌/◌, ◌≤◌, ◌<◌, ◌^◌, ◌≡◌, refl, sym, ◌∙◌, ◌⊎◌, inl, inr, Bool, true, false, List, [],
  ◌∷◌, ◌++◌, length, length-append, Bool-cases, ◌==◌, ◌&&◌, ◌||◌, not, leb, if◌then◌else◌, arith,
}
use beaver_mq.Message.{Message, body_len}
use beaver_mq.Queue.State.{Globals, Queue, Overflow, reject_publish, drop_head, memory_alarm_update}
use beaver_mq.Queue.Flow.{max_len, max_bytes, over_high, under_low, queue_update_congestion}
use beaver_mq.Queue.Ops.{ok, queue_enqueue}
use beaver_mq.Queue.Spec.{IsQueue, sum_len, overflows, trim, dropped, enqueue_spec, store_spec}
use beaver_mq.Queue.Refine.{sum_len-append}
use beaver_mq.Queue.Enqueue.{queue_enqueue_lem}

-- The messages `ms` and one more of `len` bytes stay within the limits; one message alone may pass
-- the limit on bytes.
abbrev pub WithinLimits : ℕ → ℕ → List Message → Type 0
WithinLimits ml mb ms =
    ((ml ≡ 0) ⊎ (length ms ≤ ml)) × ((mb ≡ 0) ⊎ (sum_len ms ≤ mb) ⊎ (length ms ≡ 1))

trim-overflows :
    (ml mb len : ℕ) (ms : List Message)
    → (trim ml mb len ms ≡ []) ⊎ (overflows ml mb len (trim ml mb len ms) ≡ false)
trim-overflows ml mb len [] = inl refl
trim-overflows ml mb len (m ∷ ms) = elim (Bool-cases (overflows ml mb len (m ∷ ms))) [
  | inl over ↦ rw over (trim-overflows ml mb len ms)
  | inr fits ↦ rw (fits, fits) (inr refl)
]

fits-WithinLimits :
    (ml mb : ℕ) (ms : List Message) (m : Message)
    → overflows ml mb (body_len m) ms ≡ false
    → WithinLimits ml mb (ms ++ m ∷ [])
fits-WithinLimits ml mb ms m h =
    ground (arith, length-append ms (m ∷ []), sum_len-append ms (m ∷ []))

alone-WithinLimits : (ml mb : ℕ) (m : Message) → WithinLimits ml mb (m ∷ [])
alone-WithinLimits ml mb m = ground arith

store-WithinLimits :
    (ml mb cap : ℕ) (granted : Bool) (ms : List Message) (m : Message) (gone : List Message)
    → WithinLimits ml mb (ms ++ m ∷ [])
    → (store_spec cap granted ms m gone).0 ≡ ok
    → WithinLimits ml mb (store_spec cap granted ms m gone).1
store-WithinLimits ml mb cap granted ms m gone h e =
    elim (Bool-cases ((length ms == cap) && not granted)) [
      | inl refused ↦ cc (rw refused at e)
      | inr stored ↦ rw stored h
    ]

spec-WithinLimits :
    (ml mb : ℕ) (ov : Overflow) (cap : ℕ) (granted : Bool) (ms : List Message) (m : Message)
    → (enqueue_spec ml mb ov cap granted ms m).0 ≡ ok
    → WithinLimits ml mb (enqueue_spec ml mb ov cap granted ms m).1
spec-WithinLimits ml mb reject_publish cap granted ms m e =
    elim (Bool-cases (overflows ml mb (body_len m) ms)) [
      | inl over ↦ cc (rw over at e)
      | inr fits ↦ rw fits (
          store-WithinLimits ml mb cap granted ms m [] (fits-WithinLimits ml mb ms m fits)
            (rw fits at e))
    ]
spec-WithinLimits ml mb drop_head cap granted ms m e =
    store-WithinLimits ml mb cap granted (trim ml mb (body_len m) ms) m
      (dropped ml mb (body_len m) ms)
      (elim (trim-overflows ml mb (body_len m) ms) [
        | inl none_left ↦ rw none_left (alone-WithinLimits ml mb m)
        | inr fits ↦ fits-WithinLimits ml mb (trim ml mb (body_len m) ms) m fits
      ])
      e

-- An accepted message leaves the queue within its effective limits: as many messages as the length
-- limit allows, and as many bytes as the byte limit allows or this message alone. It does so under
-- both policies, however full the queue was before.
pub queue_enqueue-limits :
    (dl_alloc : ℕ → Bool) (granted : Bool) (g : Globals) {q : Queue} {ms : List Message}
    (m : Message)
    → IsQueue q ms
    → sum_len ms + body_len m < 2 ^ 64
    → (queue_enqueue dl_alloc granted g q m).status ≡ ok
    → let q' = (queue_enqueue dl_alloc granted g q m).queue in
      ((max_len g q ≡ 0) ⊎ (q'.ring.count ≤ max_len g q))
      × ((max_bytes g q ≡ 0) ⊎ (q'.total_bytes ≤ max_bytes g q) ⊎ (q'.ring.count ≡ 1))
queue_enqueue-limits dl_alloc granted g {q} {ms} m v small e =
    let (st, held, gone) = queue_enqueue_lem dl_alloc granted g m v small in
    let w =
      spec-WithinLimits (max_len g q) (max_bytes g q) q.limits.overflow q.ring.cap granted ms m
        (sym st ∙ e) in
    rw (held.ring.counted, held.bytes) w

-- ---- congestion
abbrev pub to_nat : Bool → ℕ
to_nat true = 1
to_nat false = 0

-- The broker-wide alarm count changes exactly by what the queue's own flag changes: it stays the
-- number of congested queues.
pub congestion-counted :
    (g : Globals) (q : Queue)
    → to_nat q.congested ≤ g.flow_alarm_count
    → g.flow_alarm_count + 1 < 2 ^ 64
    → let (g', q') = queue_update_congestion g q in
      g'.flow_alarm_count + to_nat q.congested ≡ g.flow_alarm_count + to_nat q'.congested
unfolding queue_update_congestion
congestion-counted g q h k = ground arith

-- The two marks leave a band between them, once a limit is not below 4.
marks_apart :
    (g : Globals) (q : Queue)
    → (max_len g q ≡ 0) ⊎ (4 ≤ max_len g q)
    → (max_bytes g q ≡ 0) ⊎ (4 ≤ max_bytes g q)
    → over_high g q ≡ true
    → under_low g q ≡ false
marks_apart g q hl hb h = go (max_len g q) (max_bytes g q) hl hb h
  where
    go :
        (ml mb : ℕ)
        → (ml ≡ 0) ⊎ (4 ≤ ml)
        → (mb ≡ 0) ⊎ (4 ≤ mb)
        → (not (ml == 0) && leb (ml - ml / 10) q.ring.count)
            || (not (mb == 0) && leb (mb - mb / 10) q.total_bytes)
          ≡ true
        → (ml == 0 || leb q.ring.count (ml - ml / 4))
            && (mb == 0 || leb q.total_bytes (mb - mb / 4))
          ≡ false
    go ml mb hl hb h = ground arith

-- Hysteresis, where each limit in force is at least 4: at 90% of a limit the queue is congested, at
-- 75% of every limit it is not, and in between its flag stays as it was.
pub congestion-band :
    (g : Globals) (q : Queue)
    → (max_len g q ≡ 0) ⊎ (4 ≤ max_len g q)
    → (max_bytes g q ≡ 0) ⊎ (4 ≤ max_bytes g q)
    → (queue_update_congestion g q).1.congested
      ≡ (if over_high g q then true else if under_low g q then false else q.congested)
unfolding queue_update_congestion
congestion-band g q hl hb = elim (Bool-cases (over_high g q)) [
  | inl high ↦ rw (high, marks_apart g q hl hb high) (ground arith)
  | inr low ↦ rw low (ground arith)
]

-- The memory alarm's hysteresis, for a watermark of at least 10 bytes: it is on from the watermark
-- upwards, off from 90% of it downwards, and in between as it was; the update returns its new state
-- and changes nothing else.
pub memory_alarm-band :
    (g : Globals) (used : ℕ)
    → 10 ≤ g.mem_high_bytes
    → let high = g.mem_high_bytes in
      let on =
        if leb high used
        then true
        else if leb used (high - high / 10)
        then false
        else g.mem_alarm in
      memory_alarm_update g used ≡ (on, record g { mem_alarm = on })
unfolding memory_alarm_update
memory_alarm-band g used h =
    let high = g.mem_high_bytes in
    let some_high : (high == 0) ≡ false = ground arith in
    elim (Bool-cases (leb high used)) [
      | inl above ↦
          let not_low : leb used (high - high / 10) ≡ false = ground arith in
          elim (Bool-cases g.mem_alarm) [
            | inl on ↦ rw (some_high, above, not_low, on) refl
            | inr off ↦ rw (some_high, above, off) refl
          ]
      | inr below ↦ elim (Bool-cases g.mem_alarm) [
        | inl on ↦ elim (Bool-cases (leb used (high - high / 10))) [
          | inl low ↦ rw (some_high, below, low, on) refl
          | inr between ↦ rw (some_high, below, between, on) refl
        ]
        | inr off ↦ rw (some_high, below, off) (ground arith)
      ]
    ]
