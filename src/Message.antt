-- ===== src/Message.antt =====
-- include/message.h and src/message.c: the message and its reference count.
use beaver_mq.Prelude.{
  ℕ, ◌+◌, ◌-◌, ◌%◌, ◌^◌, Bool, Option, none, some, Bytes, [], length, ◌==◌, if◌then◌else◌,
}

-- beaver_message_t without its reference count, which `Count` below keeps: a queue moves references,
-- and the functions on queues say which ones they take and drop. `body_len` and `props_len` are the
-- lengths of `body` and `props`.
pub record Message : Type 0 where
  pub id : ℕ
  pub cluster_id : ℕ
  pub exchange : Bytes
  pub routing_key : Bytes
  pub body : Bytes
  pub props : Bytes
  pub dl_hops : ℕ

abbrev pub body_len : Message → ℕ
body_len m = length m.body

-- A NULL string is as good as an empty one.
abbrev pub or_empty : Option Bytes → Bytes
or_empty none = []
or_empty (some s) = s

-- sizeof(beaver_message_t), the argument of the request and whether malloc grants it
module _ (header : ℕ) (alloc : ℕ → Bool) where
  -- Returns the message and its reference count.
  unfoldable pub message_new_full :
      Option Bytes → Option Bytes → Bytes → Option Bytes → Option (Message × ℕ)
  message_new_full exchange routing_key body props =
      let need =
        (header
          + length (or_empty exchange)
          + 1
          + length (or_empty routing_key)
          + 1
          + length body
          + 1
          + length (or_empty props))
        % 2 ^ 64 in
      if alloc need
      then some (
        record {
          id = 0;
          cluster_id = 0;
          exchange = or_empty exchange;
          routing_key = or_empty routing_key;
          body = body;
          props = or_empty props;
          dl_hops = 0;
        },
        1,
      )
      else none

  unfoldable pub message_new : Option Bytes → Option Bytes → Bytes → Option (Message × ℕ)
  unfolding message_new_full
  message_new exchange routing_key body = message_new_full exchange routing_key body none

-- The reference count of a live message, an int; `none` once the message is freed.
abbrev pub Count : Type 0
Count = Option ℕ

unfoldable pub message_ref : ℕ → ℕ
message_ref n = n + 1

-- fetch_sub returns the old count
unfoldable pub message_unref : ℕ → Count
message_unref n = if n == 1 then none else some (n - 1)
