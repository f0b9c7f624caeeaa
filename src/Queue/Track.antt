-- ===== src/Queue/Track.antt =====
-- src/queue.c: the consume tracking of a replicated queue, on the `Track` part of its state.
-- Cluster ids are positive 64-bit numbers, and nothing is computed with them but `unacked[0] - 1`.
use beaver_mq.Prelude.{
  ℕ, zero, suc, ◌-◌, ◌*◌, ◌^◌, Bool, true, false, not, ◌&&◌, Option, none, some, List, [], ◌∷◌,
  ◌++◌, length, get_or, take, drop, ltb, ◌==◌, if◌then◌else◌,
}
use beaver_mq.Message.{Message}
use beaver_mq.Queue.Ring.{linearize}
use beaver_mq.Queue.State.{Track, Queue}

-- `while (i > 0 && unacked[i - 1] > cid) i--;`
unfoldable pub insert_at : List ℕ → ℕ → ℕ → ℕ
insert_at unacked cid zero = 0
insert_at unacked cid (suc i) =
    let rest = insert_at unacked cid i in if ltb cid (get_or unacked i 0) then rest else suc i

-- The array with room for one more, if `granted` is realloc's answer.
unfoldable pub reserve_unacked : Bool → Track → Track
reserve_unacked granted t =
    if (length t.unacked == t.cap_unacked) && granted
    then record t { cap_unacked = if t.cap_unacked == 0 then 16 else t.cap_unacked * 2 }
    else t

-- `if (cid > deliver_hi) deliver_hi = cid;`
abbrev pub raise_hi : Track → ℕ → Track
raise_hi t cid = record t { deliver_hi = if ltb t.deliver_hi cid then cid else t.deliver_hi }

-- the insertion by memmove, if there is room
unfoldable pub record_unacked : Bool → Track → ℕ → ℕ → Track
unfolding reserve_unacked
record_unacked granted t cid i =
    let r = reserve_unacked granted t in
    if ltb (length r.unacked) r.cap_unacked
    then raise_hi (record r { unacked = take i r.unacked ++ cid ∷ drop i r.unacked }) cid
    else r

unfoldable pub consume_on_deliver : Bool → Track → ℕ → Bool → Track
unfolding insert_at record_unacked
consume_on_deliver granted t cid no_ack =
    let i = insert_at t.unacked cid (length t.unacked) in
    if cid == 0
    then t
    else if no_ack
    then raise_hi t cid
    else if not (i == 0) && get_or t.unacked (i - 1) 0 == cid
    then raise_hi t cid
    else record_unacked granted t cid i

-- the loop that removes the first occurrence
unfoldable pub remove_first : ℕ → List ℕ → List ℕ
remove_first cid [] = []
remove_first cid (x ∷ xs) = if x == cid then xs else x ∷ remove_first cid xs

unfoldable pub consume_on_ack : Track → ℕ → Track
unfolding remove_first
consume_on_ack t cid = if cid == 0 then t else record t { unacked = remove_first cid t.unacked }

abbrev pub watermark_of : List ℕ → ℕ → ℕ
watermark_of [] hi = hi
watermark_of (x ∷ xs) hi = x - 1

unfoldable pub consume_watermark : Track → ℕ
consume_watermark t = watermark_of t.unacked t.deliver_hi

-- Whether the watermark advanced, and the state after.
unfoldable pub mark_replicated : Track → ℕ → Bool × Track
mark_replicated t watermark =
    if ltb t.consume_replicated watermark
    then (true, record t { consume_replicated = watermark })
    else (false, t)

-- the first ready message with an id, from the head on
abbrev pub first_id : List (Option Message) → ℕ
first_id [] = 2 ^ 64 - 1
first_id (none ∷ ms) = first_id ms
first_id (some m ∷ ms) = if m.cluster_id == 0 then first_id ms else m.cluster_id

abbrev pub oldest_of : List ℕ → ℕ → ℕ
oldest_of [] ready = ready
oldest_of (x ∷ xs) ready = x

unfoldable pub oldest_live_cluster_id : Queue → ℕ
unfolding linearize
oldest_live_cluster_id q =
    oldest_of q.track.unacked
      (first_id (linearize q.ring.slots q.ring.cap q.ring.head 0 q.ring.count))
