-- ===== src/Queue/State.antt =====
-- The state of src/queue.c: the file's globals, `struct beaver_queue`, and its plain setters.
-- Counters are 64-bit and wrap; strings that the source copies and only reads back are bytes.
use beaver_mq.Prelude.{
  ℕ, ◌-◌, Bool, true, false, Option, none, some, List, [], Bytes, ◌==◌, leb, ◌&&◌, not, ◌/◌,
  if◌then◌else◌,
}
use beaver_mq.Message.{Message, or_empty}
use beaver_mq.Queue.Ring.{Ring, ring_new}

-- g_queue_max_length, g_queue_max_bytes, g_flow_alarm_count, g_mem_alarm, g_mem_high_bytes
pub record Globals : Type 0 where
  pub max_length : ℕ
  pub max_bytes : ℕ
  pub flow_alarm_count : ℕ
  pub mem_alarm : Bool
  pub mem_high_bytes : ℕ

-- queue_overflow_t
pub data Overflow : Type 0 where
  reject_publish drop_head : Overflow

-- The per-queue overrides; 0 means the global default.
pub record Limits : Type 0 where
  pub max_length : ℕ
  pub max_bytes : ℕ
  pub overflow : Overflow

-- dl_exchange, dl_routing_key, and whether dl_fn is set
pub record DeadLetter : Type 0 where
  pub exchange : Option Bytes
  pub routing_key : Option Bytes
  pub fn : Bool

pub record Totals : Type 0 where
  pub enqueued : ℕ
  pub dequeued : ℕ
  pub dropped : ℕ
  pub rejected : ℕ

-- The consume tracking; `unacked` is `unacked[0..n_unacked)`.
pub record Track : Type 0 where
  pub deliver_hi : ℕ
  pub unacked : List ℕ
  pub cap_unacked : ℕ
  pub consume_replicated : ℕ

-- A waiter is its callback and its context, two addresses.
pub record Queue : Type 0 where
  pub name : Bytes
  pub vhost : Option Bytes
  pub flags : ℕ
  pub limits : Limits
  pub congested : Bool
  pub dead_letter : DeadLetter
  pub ring : Ring Message
  pub totals : Totals
  pub total_bytes : ℕ
  pub track : Track
  pub waiters : List (ℕ × ℕ)
  pub cap_waiters : ℕ
  pub consumers : ℕ
  pub refcount : ℕ
  pub exclusive_owner : ℕ

-- queue_new, once its allocations and the mutex are granted
unfoldable pub queue_new : Option Bytes → ℕ → Queue
unfolding ring_new
queue_new name flags = record {
  name = or_empty name;
  vhost = none;
  flags = flags;
  limits = record { max_length = 0; max_bytes = 0; overflow = reject_publish };
  congested = false;
  dead_letter = record { exchange = none; routing_key = none; fn = false };
  ring = ring_new;
  totals = record { enqueued = 0; dequeued = 0; dropped = 0; rejected = 0 };
  total_bytes = 0;
  track = record { deliver_hi = 0; unacked = []; cap_unacked = 0; consume_replicated = 0 };
  waiters = [];
  cap_waiters = 0;
  consumers = 0;
  refcount = 1;
  exclusive_owner = 0;
}

unfoldable pub queue_set_limits : Queue → ℕ → ℕ → Overflow → Queue
queue_set_limits q max_length max_bytes overflow = record q {
  limits = record { max_length = max_length; max_bytes = max_bytes; overflow = overflow };
}

unfoldable pub set_default_limits : Globals → ℕ → ℕ → Globals
set_default_limits g max_length max_bytes = record g {
  max_length = max_length;
  max_bytes = max_bytes;
}

-- `(s && s[0]) ? strdup(s) : NULL`, `granted` being whether strdup succeeds
abbrev pub dup_nonempty : Bool → Option Bytes → Option Bytes
dup_nonempty granted none = none
dup_nonempty granted (some []) = none
dup_nonempty granted (some s) = if granted then some s else none

abbrev pub is_set : Option Bytes → Bool
is_set none = false
is_set (some s) = true

-- `fn` says whether the callback passed is not NULL
unfoldable pub queue_set_dead_letter :
    Bool → Bool → Queue → Option Bytes → Option Bytes → Bool → Queue
queue_set_dead_letter granted_ex granted_rk q exchange routing_key fn =
    let ex = dup_nonempty granted_ex exchange in
    record q {
      dead_letter = record {
        exchange = ex;
        routing_key = dup_nonempty granted_rk routing_key;
        fn = if is_set ex then fn else false;
      };
    }

unfoldable pub queue_has_dead_letter : Queue → Bool
queue_has_dead_letter q = q.dead_letter.fn

-- ---- the broker-wide memory alarm
unfoldable pub set_memory_watermark : Globals → ℕ → Globals
set_memory_watermark g high = record g {
  mem_high_bytes = high;
  mem_alarm = if high == 0 then false else g.mem_alarm;
}

-- Returns the alarm's new state beside the globals.
unfoldable pub memory_alarm_update : Globals → ℕ → Bool × Globals
memory_alarm_update g used =
    let high = g.mem_high_bytes in
    let low = high - high / 10 in
    let on = g.mem_alarm in
    if high == 0
    then (false, g)
    else if not on && leb high used
    then (true, record g { mem_alarm = true })
    else if on && leb used low
    then (false, record g { mem_alarm = false })
    else (on, g)
