-- ===== src/Exchange/Tests.antt =====
-- Runs of the exchange on concrete bindings, and the theorems on it at concrete inputs.
use beaver_mq.Prelude.{
  ℕ, ◌-◌, ◌≡◌, refl, ◌⊎◌, ◌↔◌, Bool, true, false, none, some, List, [], ◌∷◌, codes, str_eq,
  if◌then◌else◌, ◌==◌,
}
use beaver_mq.Exchange.Topic.{split_words, topic_match}
use beaver_mq.Exchange.TopicSpec.{Matches}
use beaver_mq.Exchange.TopicMatch.{topic_match_iff}
use beaver_mq.Exchange.Bindings.{
  topic, Binding, Exchange, Refs, exchange_bind, exchange_unbind_queue,
}
use beaver_mq.Prelude.Swap.{count}
use beaver_mq.Exchange.Unbind.{is_of, is_other, exchange_unbind_queue_lem}
use beaver_mq.Exchange.Routing.{exchange_route}
use beaver_mq.Exchange.Route.{Leads, occurrences, exchange_route_lem}

abbrev bindings : List Binding
bindings =
    record { routing_key = codes "a.*"; queue = 1 }
    ∷ record { routing_key = codes "#"; queue = 2 }
    ∷ record { routing_key = codes "a.b"; queue = 1 }
    ∷ []

abbrev topics : Exchange
topics = record {
  name = codes "t";
  vhost = none;
  type = topic;
  flags = 0;
  bindings = bindings;
  cap_bindings = 4;
}

abbrev no_refs : Refs
no_refs q = 1

abbrev granted : ℕ → Bool
granted i = true

hash_star : topic_match true (codes "a.#.c.*") (codes "a.b.x.c.d") ≡ true
unfolding topic_match str_eq
hash_star = refl

hash_star_no : topic_match true (codes "a.#.c.*") (codes "a.b.c") ≡ false
unfolding topic_match str_eq
hash_star_no = refl

-- Queue 1 is bound twice under suiting keys and gets one copy.
routed : (exchange_route true granted topics (some (codes "a.b")) no_refs).0 ≡ 1 ∷ 2 ∷ []
unfolding exchange_route str_eq
routed = refl

unbound : (exchange_unbind_queue topics 1 no_refs).0 ≡ 2
unfolding exchange_unbind_queue
unbound = refl

topic_match-iff_example :
    (topic_match true (codes "a.#") (codes "a") ≡ true)
    ↔ Matches (split_words (codes "a.#")) (split_words (codes "a"))
topic_match-iff_example = topic_match_iff (codes "a.#") (codes "a")

exchange_route_lem_example :
    let key = codes "a.b" in
    let (targets, oom, refs') = exchange_route true granted topics (some key) no_refs in
    ((Leads topic key 1 bindings × (occurrences 1 targets ≡ 1) × (refs' 1 ≡ 2))
      ⊎ (¬ Leads topic key 1 bindings) × (occurrences 1 targets ≡ 0) × (refs' 1 ≡ 1))
    × (oom ≡ false)
exchange_route_lem_example =
    exchange_route_lem granted topics (some (codes "a.b")) no_refs 1 (λ k. refl)

bound_once : (exchange_bind true true topics (some (codes "z")) 3 no_refs).0 ≡ true
unfolding exchange_bind
bound_once = refl

exchange_unbind_queue_lem_example :
    let (removed, ex', refs') = exchange_unbind_queue topics 1 no_refs in
    ((p : Binding → Bool) → count p ex'.bindings ≡ count (is_other p 1) bindings)
    × (count (is_of 1) ex'.bindings ≡ 0)
    × (removed ≡ count (is_of 1) bindings)
    × ((x : ℕ) → refs' x ≡ no_refs x - (if x == 1 then removed else 0))
exchange_unbind_queue_lem_example = exchange_unbind_queue_lem topics 1 no_refs
