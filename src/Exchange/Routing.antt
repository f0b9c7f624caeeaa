-- ===== src/Exchange/Routing.antt =====
-- src/exchange.c: which queues a message is routed to.
use beaver_mq.Prelude.{
  ℕ, ◌+◌, Bool, true, false, ◌||◌, Option, List, [], ◌∷◌, ◌++◌, length, ◌==◌, if◌then◌else◌, Bytes,
  str_eq,
}
use beaver_mq.Message.{or_empty}
use beaver_mq.Exchange.Topic.{topic_match}
use beaver_mq.Exchange.Bindings.{
  ExchangeType, direct, fanout, topic, Binding, Exchange, Refs, queue_ref,
}

-- Whether the topic matcher gets its memory comes first.
unfoldable pub binding_matches : Bool → ExchangeType → Binding → Bytes → Bool
unfolding topic_match
binding_matches granted fanout b key = true
binding_matches granted direct b key = str_eq b.routing_key key
binding_matches granted topic b key = topic_match granted b.routing_key key

unfoldable pub is_target : ℕ → List ℕ → Bool
is_target q [] = false
is_target q (t ∷ ts) = (t == q) || is_target q ts

-- One round of exchange_route over the targets found so far.
unfoldable pub route_one : Bool → ExchangeType → Bytes → Binding → List ℕ × Refs → List ℕ × Refs
unfolding binding_matches is_target queue_ref
route_one granted type key b (targets, refs) =
    if binding_matches granted type b key
    then if is_target b.queue targets
      then (targets, refs)
      else (targets ++ b.queue ∷ [], queue_ref b.queue refs)
    else (targets, refs)

-- `granted` answers the topic matcher's requests for the binding at each index.
unfoldable pub route_loop :
    (ℕ → Bool) → ExchangeType → Bytes → ℕ → List Binding → List ℕ × Refs → List ℕ × Refs
unfolding route_one
route_loop granted type key i [] acc = acc
route_loop granted type key i (b ∷ bs) acc =
    route_loop granted type key (i + 1) bs (route_one (granted i) type key b acc)

-- The targets, *out_oom and the reference counts; `room` is the answer to the request for the
-- array of targets.
unfoldable pub exchange_route :
    Bool → (ℕ → Bool) → Exchange → Option Bytes → Refs → List ℕ × Bool × Refs
unfolding route_loop
exchange_route room granted ex routing_key refs =
    let found = route_loop granted ex.type (or_empty routing_key) 0 ex.bindings ([], refs) in
    if length ex.bindings == 0
    then ([], false, refs)
    else if room
    then (found.0, false, found.1)
    else ([], true, refs)
