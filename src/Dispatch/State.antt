-- ===== src/Dispatch/State.antt =====
-- src/dispatch.c: the state of a dispatcher, the queues that it works on, and the pending list. Consumers
-- and queues are named by numbers; a queue's number stands for its address and for its key in the
-- map of groups, so a queue that is deleted and declared again is another one. References to queues are
-- not counted here.
use beaver_mq.Prelude.{
  ℕ, ◌*◌, Bool, true, false, not, ◌&&◌, Option, none, some, List, [], ◌∷◌, ◌++◌, Bytes, length, ltb,
  ◌==◌, if◌then◌else◌,
}
use beaver_mq.Message.{Message}
use beaver_mq.Queue.State.{Globals, Queue}
use beaver_mq.Queue.Track.{consume_watermark, mark_replicated}

-- unacked_t
pub record Unacked : Type 0 where
  pub tag : ℕ
  pub msg : Message

-- consumer_t; `unacked` is `unacked[0..n_unacked)`, and `queue` names its group too.
pub record Consumer : Type 0 where
  pub id : ℕ
  pub conn : ℕ
  pub channel : ℕ
  pub tag : Bytes
  pub queue : ℕ
  pub no_ack : Bool
  pub prefetch : ℕ
  pub unacked : List Unacked
  pub cap_unacked : ℕ

-- group_t; `members` is `arr[0..count)`.
pub record Group : Type 0 where
  pub queue : ℕ
  pub members : List ℕ
  pub cap : ℕ
  pub rr : ℕ

-- What leaves the dispatcher: a delivery with its tag, a message dead-lettered, a message lost when the
-- queue has no memory for it, a watermark to replicate, a wake-up of the loop, and a queue to delete.
pub data Action : Type 0 where
  delivered : (consumer tag : ℕ) (m : Message) → Action
  dead_lettered : (m : Message) → Action
  lost : (m : Message) → Action
  replicate : (queue watermark : ℕ) → Action
  wake : Action
  delete_queue : (queue : ℕ) → Action

-- beaver_dispatcher_t and the connections' send_paused; `actions` are the newest last.
pub record Worker : Type 0 where
  pub globals : Globals
  pub queues : ℕ → Queue
  pub consumers : List Consumer
  pub groups : List Group
  pub pending : List ℕ
  pub cap_pending : ℕ
  pub async_closing : Bool
  pub tearing_down : Bool
  pub next_delivery_tag : ℕ
  pub clustered : Bool
  pub paused : ℕ → Bool
  pub actions : List Action

-- The answers of the allocator and of the connections. Those of one delivery are by its tag, the state of
-- a connection's buffer by the last tag used, and those of a queue's list by a message's tag.
pub record Outside : Type 0 where
  pub closing : ℕ → Bool
  pub full : ℕ → ℕ → Bool
  pub slot_memory : ℕ → Bool
  pub sends : ℕ → Bool
  pub track_memory : ℕ → Bool
  pub requeue_memory : ℕ → Bool
  pub pending_memory : Bool
  pub consumer_memory : Bool
  pub group_memory : Bool
  pub member_memory : Bool
  pub waiter_memory : Bool

-- dispatcher_new, once what it asks for is granted: nothing is registered and nothing is pending.
abbrev pub dispatcher_new : Globals → (ℕ → Queue) → Worker
dispatcher_new globals queues = record {
  globals = globals;
  queues = queues;
  consumers = [];
  groups = [];
  pending = [];
  cap_pending = 0;
  async_closing = false;
  tearing_down = false;
  next_delivery_tag = 0;
  clustered = false;
  paused = λ i. false;
  actions = [];
}

-- The timer that it starts is an event of the outside.
abbrev pub dispatcher_set_cluster : Bool → Worker → Worker
dispatcher_set_cluster on w = record w { clustered = on }

abbrev pub put_queue : ℕ → Queue → Worker → Worker
put_queue k q w = record w { queues = λ j. if j == k then q else w.queues j }

abbrev pub act : Action → Worker → Worker
act x w = record w { actions = w.actions ++ x ∷ [] }

unfoldable pub is_pending : ℕ → List ℕ → Bool
is_pending q [] = false
is_pending q (p ∷ ps) = if p == q then true else is_pending q ps

-- An array that doubles from a first size.
abbrev pub doubled_from : ℕ → ℕ → ℕ
doubled_from first cap = if cap == 0 then first else cap * 2

unfoldable pub dispatcher_notify : Outside → ℕ → Worker → Worker
unfolding is_pending
dispatcher_notify o q w =
    if w.async_closing
    then w
    else if is_pending q w.pending
    then w
    else if (length w.pending == w.cap_pending) && not o.pending_memory
    then w
    else act wake (record w {
      pending = w.pending ++ q ∷ [];
      cap_pending =
          if length w.pending == w.cap_pending then doubled_from 8 w.cap_pending else w.cap_pending;
    })

-- The mutex orders it against dispatcher_notify; the handles that it closes are not part of the state.
abbrev pub dispatcher_request_close : Worker → Worker
dispatcher_request_close w = record w { async_closing = true }

unfoldable pub replicate_watermark : ℕ → Worker → Worker
unfolding consume_watermark mark_replicated
replicate_watermark k w =
    let q = w.queues k in
    let wm = consume_watermark q.track in
    let (advanced, t) = mark_replicated q.track wm in
    let marked = put_queue k (record q { track = t }) w in
    if w.clustered && ltb 0 wm
    then (if advanced then act (replicate k wm) marked else marked)
    else w

unfoldable pub consume_timer_loop : List Consumer → Worker → Worker
unfolding replicate_watermark
consume_timer_loop [] w = w
consume_timer_loop (c ∷ cs) w = consume_timer_loop cs (replicate_watermark c.queue w)

-- consume_timer_cb
unfoldable pub consume_timer_cb : Worker → Worker
unfolding consume_timer_loop
consume_timer_cb w = if w.clustered then consume_timer_loop w.consumers w else w

unfoldable pub find_consumer : ℕ → List Consumer → Option Consumer
find_consumer i [] = none
find_consumer i (c ∷ cs) = let rest = find_consumer i cs in if c.id == i then some c else rest

-- A write through the pointer to a consumer.
unfoldable pub put_consumer : Consumer → List Consumer → List Consumer
put_consumer d [] = []
put_consumer d (c ∷ cs) = let rest = put_consumer d cs in if c.id == d.id then d ∷ cs else c ∷ rest

unfoldable pub find_group : ℕ → List Group → Option Group
find_group k [] = none
find_group k (g ∷ gs) = let rest = find_group k gs in if g.queue == k then some g else rest

unfoldable pub put_group : Group → List Group → List Group
put_group h [] = h ∷ []
put_group h (g ∷ gs) = let rest = put_group h gs in if g.queue == h.queue then h ∷ gs else g ∷ rest

unfoldable pub remove_group : ℕ → List Group → List Group
remove_group k [] = []
remove_group k (g ∷ gs) = let rest = remove_group k gs in if g.queue == k then gs else g ∷ rest
