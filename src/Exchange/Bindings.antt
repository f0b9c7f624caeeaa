-- ===== src/Exchange/Bindings.antt =====
-- include/exchange.h and src/exchange.c: exchange types, exchanges and their bindings. A queue is
-- named by its address; `Refs` holds the reference count of the queue at each address
-- (queue_ref and queue_unref of src/queue.c).
use beaver_mq.Prelude.{
  ℕ, zero, suc, ◌+◌, ◌-◌, ◌*◌, Bool, true, false, ◌&&◌, ◌||◌, Option, none, some, List, [], ◌∷◌,
  ◌++◌, length, get_or, ltb, ◌==◌, if◌then◌else◌, Bytes, codes, str_eq,
}
use beaver_mq.Message.{or_empty}
use beaver_mq.Prelude.Swap.{swap_remove}

pub data ExchangeType : Type 0 where
  direct : ExchangeType
  fanout : ExchangeType
  topic : ExchangeType

-- The result and the value written to `out`.
unfoldable pub type_from_name : Option Bytes → Bool × ExchangeType
type_from_name none = (false, direct)
type_from_name (some name) =
    if str_eq name (codes "fanout")
    then (true, fanout)
    else if str_eq name (codes "topic")
    then (true, topic)
    else if str_eq name (codes "direct")
    then (true, direct)
    else (false, direct)

unfoldable pub type_name : ExchangeType → Bytes
type_name direct = codes "direct"
type_name fanout = codes "fanout"
type_name topic = codes "topic"

pub record Binding : Type 0 where
  pub routing_key : Bytes
  pub queue : ℕ

-- `n_bindings` is the length of `bindings`; `vhost` is none until it is set.
pub record Exchange : Type 0 where
  pub name : Bytes
  pub vhost : Option Bytes
  pub type : ExchangeType
  pub flags : ℕ
  pub bindings : List Binding
  pub cap_bindings : ℕ

unfoldable pub exchange_new : Bool → Option Bytes → ExchangeType → ℕ → Option Exchange
exchange_new granted name type flags =
    if granted
    then some record {
      name = or_empty name;
      vhost = none;
      type = type;
      flags = flags;
      bindings = [];
      cap_bindings = 0;
    }
    else none

-- A refused strdup leaves the vhost NULL.
unfoldable pub exchange_set_vhost : Bool → Option Bytes → Exchange → Exchange
exchange_set_vhost granted vhost ex = record ex {
  vhost = (if granted then some (or_empty vhost) else none);
}

unfoldable pub exchange_vhost : Exchange → Bytes
exchange_vhost ex = or_empty ex.vhost

unfoldable pub exchange_binding_count : Exchange → ℕ
exchange_binding_count ex = length ex.bindings

abbrev pub Refs : Type 0
Refs = ℕ → ℕ

unfoldable pub queue_ref : ℕ → Refs → Refs
queue_ref q refs x = if x == q then refs x + 1 else refs x

unfoldable pub queue_unref : ℕ → Refs → Refs
queue_unref q refs x = if x == q then refs x - 1 else refs x

abbrev pub is_same : Bytes → ℕ → Binding → Bool
is_same key q b = (b.queue == q) && str_eq b.routing_key key

-- The loop that looks for an identical binding.
unfoldable pub is_bound : Bytes → ℕ → List Binding → Bool
is_bound key q [] = false
is_bound key q (b ∷ bs) = is_same key q b || is_bound key q bs

abbrev pub grown_bindings : ℕ → ℕ
grown_bindings cap = if cap == 0 then 4 else cap * 2

-- The answers of realloc and strdup come first. Returns whether it returned 0.
unfoldable pub exchange_bind :
    Bool → Bool → Exchange → Option Bytes → ℕ → Refs → Bool × Exchange × Refs
unfolding is_bound queue_ref
exchange_bind grow copy ex routing_key q refs =
    let key = or_empty routing_key in
    let full = length ex.bindings == ex.cap_bindings in
    let roomy : Exchange = record ex {
      cap_bindings = (if full then grown_bindings ex.cap_bindings else ex.cap_bindings);
    } in
    let added : Binding = record { routing_key = key; queue = q } in
    if is_bound key q ex.bindings
    then (true, ex, refs)
    else if full && (if grow then false else true)
    then (false, ex, refs)
    else if copy
    then (true, record roomy { bindings = ex.bindings ++ added ∷ [] }, queue_ref q refs)
    else (false, roomy, refs)

-- The loop variables of exchange_unbind_queue.
pub record Unbinding : Type 0 where
  pub i : ℕ
  pub removed : ℕ
  pub left : List Binding
  pub refs : Refs

-- What an out-of-range read would give; the loop never makes one.
abbrev pub no_binding : Binding
no_binding = record { routing_key = []; queue = 0 }

unfoldable pub unbind_step : ℕ → Unbinding → Unbinding
unfolding swap_remove queue_unref
unbind_step q s =
    let b = get_or s.left s.i no_binding in
    if b.queue == q
    then record {
      i = s.i;
      removed = s.removed + 1;
      left = swap_remove s.left s.i no_binding;
      refs = queue_unref q s.refs;
    }
    else record s { i = s.i + 1 }

-- Each round shortens the array or moves on, so the number of bindings is fuel enough.
unfoldable pub unbind_loop : ℕ → ℕ → Unbinding → Unbinding
unfolding unbind_step
unbind_loop zero q s = s
unbind_loop (suc fuel) q s = elim (ltb s.i (length s.left)) [
  | true ↦ unbind_loop fuel q (unbind_step q s)
  | false ↦ s
]

-- Returns the number of bindings removed.
unfoldable pub exchange_unbind_queue : Exchange → ℕ → Refs → ℕ × Exchange × Refs
unfolding unbind_loop
exchange_unbind_queue ex q refs =
    let start : Unbinding = record { i = 0; removed = 0; left = ex.bindings; refs = refs } in
    let s = unbind_loop (length ex.bindings) q start in
    (s.removed, record ex { bindings = s.left }, s.refs)
