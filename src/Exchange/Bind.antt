-- ===== src/Exchange/Bind.antt =====
-- src/exchange.c: what exchange_bind does on each branch.
use beaver_mq.Prelude.{
  ℕ, ◌≤◌, ◌≡◌, refl, ap, ◌∙◌, ◌⊎◌, inl, inr, Bool, true, false, ◌||◌, Option, List, [], ◌∷◌, ◌++◌,
  length, length-append, ◌==◌, Bool-cases, Bytes, str_eq_refl, ==-self, arith,
}
use beaver_mq.Message.{or_empty}
use beaver_mq.Exchange.Bindings.{
  Binding, Exchange, Refs, queue_ref, is_same, is_bound, exchange_bind,
}

is_bound-append :
    (key : Bytes) (q : ℕ) (bs : List Binding) (b : Binding)
    → is_bound key q (bs ++ b ∷ []) ≡ (is_bound key q bs || is_same key q b)
unfolding is_bound
is_bound-append key q [] b = ground arith
is_bound-append key q (c ∷ bs) b = ground (arith, is_bound-append key q bs b)

is_same_self : (key : Bytes) (q : ℕ) → is_same key q record { routing_key = key; queue = q } ≡ true
is_same_self key q = rw (==-self q, str_eq_refl key) refl

or_true : (a : Bool) → (a || true) ≡ true
or_true true = refl
or_true false = refl

abbrev pub Bound : Exchange → Bytes → ℕ → Refs → Bool × Exchange × Refs → Type 0
Bound ex key q refs (done, ex', refs') =
    (done ≡ true)
    × (ex'.bindings ≡ ex.bindings ++ record { routing_key = key; queue = q } ∷ [])
    × (is_bound key q ex.bindings ≡ false)
    × (is_bound key q ex'.bindings ≡ true)
    × (refs' ≡ queue_ref q refs)
    × (length ex'.bindings ≤ ex'.cap_bindings)

-- Binding has three outcomes. A pair already bound is left alone, with success. Otherwise either the
-- binding is added at the end, taking one reference, within the capacity; or, refused memory, the
-- call fails with the bindings and references as they were. Here the bindings fit the array.
pub exchange_bind_lem :
    (grow copy : Bool) (ex : Exchange) (routing_key : Option Bytes) (q : ℕ) (refs : Refs)
    → length ex.bindings ≤ ex.cap_bindings
    → let key = or_empty routing_key in
      let (done, ex', refs') = exchange_bind grow copy ex routing_key q refs in
      ((is_bound key q ex.bindings ≡ true) × (done ≡ true) × (ex' ≡ ex) × (refs' ≡ refs))
      ⊎ Bound ex key q refs (done, ex', refs')
      ⊎ (done ≡ false)
        × (ex'.bindings ≡ ex.bindings)
        × (refs' ≡ refs)
        × (length ex'.bindings ≤ ex'.cap_bindings)
unfolding exchange_bind
exchange_bind_lem grow copy ex routing_key q refs room =
    let key = or_empty routing_key in
    let added : Binding = record { routing_key = key; queue = q } in
    let sized = length-append ex.bindings (added ∷ []) in
    let found : is_bound key q (ex.bindings ++ added ∷ []) ≡ true =
      is_bound-append key q ex.bindings added
      ∙ rw (is_same_self key q) (or_true (is_bound key q ex.bindings)) in
    elim (Bool-cases (is_bound key q ex.bindings)) [
      | inl e ↦ rw e (inl (refl, refl, refl, refl))
      | inr n ↦ elim (Bool-cases (length ex.bindings == ex.cap_bindings)) [
        | inl full ↦ elim (Bool-cases grow) [
          | inl g ↦ elim (Bool-cases copy) [
            | inl c ↦ rw (n, full, g, c) (inr (inl (refl, refl, refl, found, refl, ground arith)))
            | inr c ↦ rw (n, full, g, c) (inr (inr (refl, refl, refl, ground arith)))
          ]
          | inr g ↦ rw (n, full, g) (inr (inr (refl, refl, refl, room)))
        ]
        | inr space ↦ elim (Bool-cases copy) [
          | inl c ↦ rw (n, space, c) (inr (inl (refl, refl, refl, found, refl, ground arith)))
          | inr c ↦ rw (n, space, c) (inr (inr (refl, refl, refl, room)))
        ]
      ]
    ]

exchange_bind-bound :
    (grow copy : Bool) (ex : Exchange) (routing_key : Option Bytes) (q : ℕ) (refs : Refs)
    → is_bound (or_empty routing_key) q ex.bindings ≡ true
    → exchange_bind grow copy ex routing_key q refs ≡ (true, ex, refs)
unfolding exchange_bind
exchange_bind-bound grow copy ex routing_key q refs e = rw e refl

-- Binding the same pair that was just bound succeeds and changes nothing, whatever
-- memory is left. Here the bindings fit the array.
pub exchange_bind_again :
    (grow copy grow' copy' : Bool) (ex : Exchange) (routing_key : Option Bytes) (q : ℕ)
    (refs : Refs)
    → length ex.bindings ≤ ex.cap_bindings
    → (exchange_bind grow copy ex routing_key q refs).0 ≡ true
    → let (_, ex', refs') = exchange_bind grow copy ex routing_key q refs in
      exchange_bind grow' copy' ex' routing_key q refs' ≡ (true, ex', refs')
exchange_bind_again grow copy grow' copy' ex routing_key q refs room done =
    let key = or_empty routing_key in
    let (_, ex', refs') = exchange_bind grow copy ex routing_key q refs in
    exchange_bind-bound grow' copy' ex' routing_key q refs'
      (elim (exchange_bind_lem grow copy ex routing_key q refs room) [
        | inl (e, _, same, _) ↦ ap (λ x. is_bound key q x.bindings) same ∙ e
        | inr (inl (_, _, _, e, _, _)) ↦ e
        | inr (inr (e, _, _, _)) ↦ cc
      ])
