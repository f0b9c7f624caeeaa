-- ===== src/Queue/Spec.antt =====
-- What a queue promises: a sequence of messages under a limit on its length and one on its bytes.
use beaver_mq.Prelude.{
  ℕ, ◌+◌, ◌≡◌, Bool, not, ◌&&◌, ◌||◌, List, [], ◌∷◌, ◌++◌, length, ltb, ◌==◌, if◌then◌else◌,
}
use beaver_mq.Message.{Message, body_len}
use beaver_mq.Queue.State.{Overflow, reject_publish, drop_head, Queue}
use beaver_mq.Queue.Ops.{Status, ok, oom, full}
use beaver_mq.Queue.RingFifo.{Holds}

abbrev pub sum_len : List Message → ℕ
sum_len [] = 0
sum_len (m ∷ ms) = body_len m + sum_len ms

-- The queue is well formed and holds exactly `ms`, oldest first; its byte count is theirs.
pub record IsQueue (q : Queue) (ms : List Message) : Type 0 where
  pub ring : Holds q.ring ms
  pub bytes : q.total_bytes ≡ sum_len ms

module _ (max_len max_bytes len : ℕ) where
  -- One more message of `len` bytes would pass a limit; a limit of 0 is none.
  abbrev pub overflows : List Message → Bool
  overflows ms =
      (not (max_len == 0) && ltb max_len (length ms + 1))
      || (not (max_bytes == 0) && ltb max_bytes (sum_len ms + len))

  -- The oldest messages leave until the newcomer fits or none is left: what stays, and what leaves.
  abbrev pub trim : List Message → List Message
  trim [] = []
  trim (m ∷ ms) = if overflows (m ∷ ms) then trim ms else m ∷ ms

  abbrev pub dropped : List Message → List Message
  dropped [] = []
  dropped (m ∷ ms) = if overflows (m ∷ ms) then m ∷ dropped ms else []

-- The store in an array of `cap` slots that can grow if `granted`.
abbrev pub store_spec :
    ℕ → Bool → List Message → Message → List Message → Status × List Message × List Message
store_spec cap granted ms m gone =
    if (length ms == cap) && not granted then (oom, ms, gone) else (ok, ms ++ m ∷ [], gone)

-- An enqueue: its status, what the queue holds then, and which messages left it.
abbrev pub enqueue_spec :
    ℕ → ℕ → Overflow → ℕ → Bool → List Message → Message → Status × List Message × List Message
enqueue_spec max_len max_bytes reject_publish cap granted ms m =
    if overflows max_len max_bytes (body_len m) ms
    then (full, ms, [])
    else store_spec cap granted ms m []
enqueue_spec max_len max_bytes drop_head cap granted ms m =
    store_spec cap granted (trim max_len max_bytes (body_len m) ms) m
      (dropped max_len max_bytes (body_len m) ms)
