-- ===== src/Exchange/Route.antt =====
-- src/exchange.c: exchange_route against the queues whose bindings suit the routing key.
use beaver_mq.Prelude.{
  ℕ, ◌+◌, ◌≡◌, refl, sym, ap, ◌∙◌, ◌⊎◌, inl, inr, ◌↔◌, Bool, true, false, ◌&&◌, ◌||◌, Option, List,
  [], ◌∷◌, ◌++◌, length, ◌==◌, if◌then◌else◌, Bool-cases, Bytes, str_eq_iff, ==_iff, arith,
}
use beaver_mq.Message.{or_empty}
use beaver_mq.Exchange.Topic.{split_words}
use beaver_mq.Exchange.TopicSpec.{Matches}
use beaver_mq.Exchange.TopicMatch.{topic_match_iff}
use beaver_mq.Exchange.Bindings.{
  ExchangeType, direct, fanout, topic, Binding, Exchange, Refs, queue_ref,
}
use beaver_mq.Exchange.Routing.{binding_matches, is_target, route_one, route_loop, exchange_route}

abbrev one_if : Bool → ℕ
one_if b = if b then 1 else 0

-- Which bindings an exchange of each type takes for a routing key.
abbrev pub Suits : ExchangeType → Binding → Bytes → Type 0
Suits fanout b key = Unit
Suits direct b key = b.routing_key ≡ key
Suits topic b key = Matches (split_words b.routing_key) (split_words key)

-- Some binding to q suits the key.
pub data Leads (type : ExchangeType) (key : Bytes) (q : ℕ) : List Binding → Type 0 where
  here :
      (b : Binding) (bs : List Binding) → Suits type b key → b.queue ≡ q → Leads type key q (b ∷ bs)
  there : (b : Binding) (bs : List Binding) → Leads type key q bs → Leads type key q (b ∷ bs)

binding_matches_iff :
    (type : ExchangeType) (b : Binding) (key : Bytes)
    → (binding_matches true type b key ≡ true) ↔ Suits type b key
unfolding binding_matches
binding_matches_iff fanout b key = (λ e. tt, λ u. refl)
binding_matches_iff direct b key = str_eq_iff b.routing_key key
binding_matches_iff topic b key = topic_match_iff b.routing_key key

-- The same by a test.
unfoldable leads : ExchangeType → Bytes → ℕ → List Binding → Bool
leads type key q [] = false
leads type key q (b ∷ bs) =
    (binding_matches true type b key && (b.queue == q)) || leads type key q bs

leads_sound :
    (type : ExchangeType) (key : Bytes) (q : ℕ) (bs : List Binding)
    → leads type key q bs ≡ true
    → Leads type key q bs
unfolding leads
leads_sound type key q [] e = cc
leads_sound type key q (b ∷ bs) e =
    elim (Bool-cases (binding_matches true type b key && (b.queue == q))) [
      | inl m ↦
          let both : (binding_matches true type b key ≡ true) × (b.queue ≡ q) = ground arith in
          here b bs ((binding_matches_iff type b key).0 both.0) both.1
      | inr n ↦ there b bs (leads_sound type key q bs (ground arith))
    ]

leads_complete :
    (type : ExchangeType) (key : Bytes) (q : ℕ) (bs : List Binding)
    → Leads type key q bs
    → leads type key q bs ≡ true
unfolding leads
leads_complete type key q _ (here b bs s e) =
    let m = (binding_matches_iff type b key).1 s in rw m (ground arith)
leads_complete type key q _ (there b bs l) =
    let rest = leads_complete type key q bs l in ground arith

-- How often a queue is among the targets.
unfoldable pub occurrences : ℕ → List ℕ → ℕ
occurrences q [] = 0
occurrences q (t ∷ ts) = one_if (t == q) + occurrences q ts

is_target-append :
    (q t : ℕ) (ts : List ℕ) → is_target q (ts ++ t ∷ []) ≡ (is_target q ts || (t == q))
unfolding is_target
is_target-append q t [] = ground arith
is_target-append q t (u ∷ ts) = ground (arith, is_target-append q t ts)

occurrences-append :
    (q t : ℕ) (ts : List ℕ) → occurrences q (ts ++ t ∷ []) ≡ occurrences q ts + one_if (t == q)
unfolding occurrences
occurrences-append q t [] = omega arith
occurrences-append q t (u ∷ ts) = omega (arith, occurrences-append q t ts)

is_target-occurrences :
    (q : ℕ) (ts : List ℕ) → is_target q ts ≡ (if occurrences q ts == 0 then false else true)
unfolding is_target occurrences
is_target-occurrences q [] = refl
is_target-occurrences q (t ∷ ts) = ground (arith, is_target-occurrences q ts)

-- What the bindings still to come add for a queue.
abbrev more : ExchangeType → Bytes → ℕ → List ℕ → List Binding → ℕ
more type key q ts bs = if is_target q ts then 0 else one_if (leads type key q bs)

route_one-more :
    (type : ExchangeType) (key : Bytes) (b : Binding) (bs : List Binding) (ts : List ℕ)
    (refs : Refs) (q : ℕ)
    → let (ts', refs') = route_one true type key b (ts, refs) in
      (occurrences q ts' + more type key q ts' bs ≡ occurrences q ts + more type key q ts (b ∷ bs))
      × (refs' q + more type key q ts' bs ≡ refs q + more type key q ts (b ∷ bs))
unfolding route_one leads queue_ref
route_one-more type key b bs ts refs q =
    let appended = is_target-append q b.queue ts in
    let counted = occurrences-append q b.queue ts in
    elim (Bool-cases (binding_matches true type b key)) [
      | inr n ↦ rw n (refl, refl)
      | inl m ↦ elim (Bool-cases (b.queue == q)) [
        | inl e ↦
            let same : is_target b.queue ts ≡ is_target q ts =
              ap (λ x. is_target x ts) ((==_iff b.queue q).0 e) in
            elim (Bool-cases (is_target b.queue ts)) [
              | inl old ↦ rw (m, old, e, sym same ∙ old) (refl, refl)
              | inr new ↦ rw (m, new) (ground arith)
            ]
        | inr n ↦ elim (Bool-cases (is_target b.queue ts)) [
          | inl old ↦ rw (m, old, n) (refl, refl)
          | inr new ↦ rw (m, new) (ground arith)
        ]
      ]
    ]

route_loop-more :
    (granted : ℕ → Bool) (type : ExchangeType) (key : Bytes) (i : ℕ) (bs : List Binding)
    (acc : List ℕ × Refs) (q : ℕ)
    → ((k : ℕ) → granted k ≡ true)
    → let (ts, refs) = acc in
      let (ts', refs') = route_loop granted type key i bs acc in
      (occurrences q ts' ≡ occurrences q ts + more type key q ts bs)
      × (refs' q ≡ refs q + more type key q ts bs)
unfolding route_loop leads
route_loop-more granted type key i [] acc q all = (ground arith, ground arith)
route_loop-more granted type key i (b ∷ bs) acc q all =
    let one = route_one-more type key b bs acc.0 acc.1 q in
    let rest = route_loop-more granted type key (i + 1) bs (route_one true type key b acc) q all in
    rw (all i, route_loop) (rest.0 ∙ one.0, rest.1 ∙ one.1)

length-[] : {A : Type 0} (xs : List A) → length xs ≡ 0 → xs ≡ []
length-[] [] e = refl
length-[] (x ∷ xs) e = absurd (omega arith)

-- With memory for the targets the early return for no bindings is the loop's own answer.
exchange_route-loop :
    (granted : ℕ → Bool) (ex : Exchange) (routing_key : Option Bytes) (refs : Refs)
    → let found = route_loop granted ex.type (or_empty routing_key) 0 ex.bindings ([], refs) in
      exchange_route true granted ex routing_key refs ≡ (found.0, false, found.1)
unfolding exchange_route route_loop
exchange_route-loop granted ex routing_key refs = elim (Bool-cases (length ex.bindings == 0)) [
  | inl e ↦ rw (e, length-[] ex.bindings ((==_iff (length ex.bindings) 0).0 e), route_loop) refl
  | inr n ↦ rw n refl
]

-- Where its memory is granted, exchange_route returns each queue to which some binding suiting the
-- key leads once and no other queue, takes one reference to each queue it returns, and does not
-- report being out of memory.
pub exchange_route_lem :
    (granted : ℕ → Bool) (ex : Exchange) (routing_key : Option Bytes) (refs : Refs) (q : ℕ)
    → ((k : ℕ) → granted k ≡ true)
    → let key = or_empty routing_key in
      let (targets, oom, refs') = exchange_route true granted ex routing_key refs in
      ((Leads ex.type key q ex.bindings × (occurrences q targets ≡ 1) × (refs' q ≡ refs q + 1))
        ⊎ (¬ Leads ex.type key q ex.bindings) × (occurrences q targets ≡ 0) × (refs' q ≡ refs q))
      × (oom ≡ false)
unfolding exchange_route occurrences
exchange_route_lem granted ex routing_key refs q all =
    let key = or_empty routing_key in
    let found = route_loop-more granted ex.type key 0 ex.bindings ([], refs) q all in
    let start : occurrences q [] ≡ 0 = refl in
    rw (exchange_route-loop granted ex routing_key refs) (
      elim (Bool-cases (leads ex.type key q ex.bindings)) [
        | inl e ↦
            let one : more ex.type key q [] ex.bindings ≡ 1 = rw e refl in
            inl (
              leads_sound ex.type key q ex.bindings e,
              omega (arith, found.0, one, start),
              omega (arith, found.1, one),
            )
        | inr n ↦
            let none_more : more ex.type key q [] ex.bindings ≡ 0 = rw n refl in
            inr (
              λ l. let e = leads_complete ex.type key q ex.bindings l in cc,
              omega (arith, found.0, none_more, start),
              omega (arith, found.1, none_more),
            )
      ],
      refl,
    )
