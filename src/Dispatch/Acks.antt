-- ===== src/Dispatch/Acks.antt =====
-- src/dispatch.c: which deliveries an acknowledgement settles, by counting what stays.
use beaver_mq.Prelude.{
  ℕ, zero, suc, ◌+◌, ◌≤◌, ◌≡◌, refl, sym, ap, ◌∙◌, ◌⊎◌, inl, inr, Bool, true, false, not, ◌&&◌,
  ◌||◌, leb, List, [], ◌∷◌, ◌++◌, append-nil, append_assoc, length, ◌==◌, if◌then◌else◌, Bool-cases,
  arith,
}
use beaver_mq.Dispatch.State.{Unacked, Worker, Outside}
use beaver_mq.Dispatch.Settle.{How, matches, settle_one, split_last, last_first, settle_loop}
use beaver_mq.Dispatch.Settled.{Settled, settle_one-Settled, Settled-cons, Settled-nil}

abbrev pub how_many : (Unacked → Bool) → List Unacked → ℕ
how_many p [] = 0
how_many p (u ∷ us) = (if p u then 1 else 0) + how_many p us

how_many-append :
    (p : Unacked → Bool) (xs ys : List Unacked)
    → how_many p (xs ++ ys) ≡ how_many p xs + how_many p ys
how_many-append p [] ys = omega arith
how_many-append p (x ∷ xs) ys = omega (arith, how_many-append p xs ys)

split_last_lem :
    (p : Unacked → Bool) (x : Unacked) (xs : List Unacked)
    → let (l, rest) = split_last x xs in
      (how_many p (l ∷ rest) ≡ how_many p (x ∷ xs)) × (length rest ≡ length xs)
unfolding split_last
split_last_lem p x [] = (refl, refl)
split_last_lem p x (y ∷ ys) =
    let ih = split_last_lem p y ys in (omega (arith, ih.0), omega (arith, ih.1))

last_first_lem :
    (p : Unacked → Bool) (us : List Unacked)
    → (how_many p (last_first us) ≡ how_many p us) × (length (last_first us) ≡ length us)
unfolding last_first
last_first_lem p [] = (refl, refl)
last_first_lem p (x ∷ xs) = let s = split_last_lem p x xs in (s.0, ap suc s.1)

abbrev pub is_meant : How → Unacked → Bool
is_meant how u = matches how u.tag

abbrev pub also_kept : How → (Unacked → Bool) → Unacked → Bool
also_kept how p u = p u && not (is_meant how u)

settle_loop_all :
    (o : Outside) (how : How) (k fuel : ℕ) (kept rest : List Unacked) (here : ℕ) (w : Worker)
    → how.multiple ≡ true
    → length rest ≤ fuel
    → let (left, n, v) = settle_loop o how k fuel kept rest here w in
      ((p : Unacked → Bool) → how_many p left ≡ how_many p kept + how_many (also_kept how p) rest)
      × (n ≡ here + how_many (is_meant how) rest)
unfolding settle_loop
settle_loop_all o how k zero kept [] here w m h = (λ p. how_many-append p kept [], omega arith)
settle_loop_all o how k zero kept (u ∷ us) here w m h = absurd (omega arith)
settle_loop_all o how k (suc fuel) kept [] here w m h = (λ p. omega arith, omega arith)
settle_loop_all o how k (suc fuel) kept (u ∷ us) here w m h =
    elim (Bool-cases (matches how u.tag)) [
      | inl t ↦
          let s = settle_one o how k u w in
          let l = (last_first_lem (is_meant how) us) in
          let ih =
            settle_loop_all o how k fuel kept (last_first us) (here + 1) s m (omega (arith, l.1)) in
          rw (t, m)
            (
              λ p. (let e = ih.0 p in let f = last_first_lem (also_kept how p) us in ground arith),
              omega (arith, ih.1, l.0),
            )
      | inr t ↦
          let ih = settle_loop_all o how k fuel (kept ++ u ∷ []) us here w m (omega arith) in
          rw t (
            λ p. (let e = ih.0 p in let f = how_many-append p kept (u ∷ []) in ground arith),
            omega (arith, ih.1),
          )
    ]

abbrev also_meant : How → (Unacked → Bool) → Unacked → Bool
also_meant how p u = p u && is_meant how u

settle_loop-Settled :
    (o : Outside) (how : How) (k fuel : ℕ) (kept rest : List Unacked) (here : ℕ) (w : Worker)
    → how.multiple ≡ true
    → how.requeue ≡ false
    → length rest ≤ fuel
    → (done : List Unacked) × ((p : Unacked → Bool)
        → how_many p done ≡ how_many (also_meant how p) rest)
      × Settled how.rejected k done w (settle_loop o how k fuel kept rest here w).2
unfolding settle_loop
settle_loop-Settled o how k zero kept [] here w m r h =
    ([], λ p. refl, Settled-nil how.rejected k w)
settle_loop-Settled o how k zero kept (u ∷ us) here w m r h = absurd (omega arith)
settle_loop-Settled o how k (suc fuel) kept [] here w m r h =
    ([], λ p. refl, Settled-nil how.rejected k w)
settle_loop-Settled o how k (suc fuel) kept (u ∷ us) here w m r h =
    elim (Bool-cases (matches how u.tag)) [
      | inl t ↦
          let s = settle_one o how k u w in
          let l = last_first_lem (is_meant how) us in
          let (done, count, all) =
            settle_loop-Settled o how k fuel kept (last_first us) (here + 1) s m r
              (omega (arith, l.1)) in
          rw (t, m)
            (
              u ∷ done,
              λ p.
                  (let e = count p in let f = last_first_lem (also_meant how p) us in ground arith),
              Settled-cons how.rejected k u done w s _ (settle_one-Settled o how k u w r) all,
            )
      | inr t ↦
          let (done, count, all) =
            settle_loop-Settled o how k fuel (kept ++ u ∷ []) us here w m r (omega arith) in
          rw t (done, λ p. (let e = count p in ground arith), all)
    ]

-- The deliveries that an acknowledgement of several up to a tag means: 0 means all of them.
abbrev pub up_to : ℕ → Unacked → Bool
up_to tag u = (tag == 0) || leb u.tag tag

how_many_same :
    (p q : Unacked → Bool) (us : List Unacked)
    → ((u : Unacked) → p u ≡ q u)
    → how_many p us ≡ how_many q us
how_many_same p q [] h = refl
how_many_same p q (u ∷ us) h = let e = h u in let ih = how_many_same p q us h in rw (e, ih) refl

is_meant-up_to :
    (how : How) (u : Unacked) → how.multiple ≡ true → is_meant how u ≡ up_to how.delivery_tag u
unfolding matches
is_meant-up_to how u m = rw m refl

-- An acknowledgement or a rejection of several deliveries, without requeueing, settles of a consumer exactly
-- those with a tag up to the one given, or all of them if that is 0, every one of them once, and in some
-- order: of what stays, as many pass any test as passed it before and are not meant, and likewise of what
-- is settled. On the queue the ids of those settled are acknowledged, and of a rejection their messages are
-- dead-lettered, where the queue has a callback for it; nothing else of the queues and no consumer changes.
pub settle_multiple :
    (o : Outside) (how : How) (k : ℕ) (us : List Unacked) (w : Worker)
    → how.multiple ≡ true
    → how.requeue ≡ false
    → let (left, n, v) = settle_loop o how k (length us) [] us 0 w in
      let meant = up_to how.delivery_tag in
      ((p : Unacked → Bool) → how_many p left ≡ how_many (λ u. p u && not (meant u)) us)
      × (n ≡ how_many meant us)
      × (done : List Unacked) × ((p : Unacked → Bool)
          → how_many p done ≡ how_many (λ u. p u && meant u) us)
      × Settled how.rejected k done w v
settle_multiple o how k us w m r =
    let (stays, n) = settle_loop_all o how k (length us) [] us 0 w m (omega arith) in
    let (done, count, all) = settle_loop-Settled o how k (length us) [] us 0 w m r (omega arith) in
    let same = λ (u : Unacked). is_meant-up_to how u m in
    (
      λ p. omega (
        arith,
        stays p,
        how_many_same (also_kept how p) (λ u. p u && not (up_to how.delivery_tag u)) us
            (λ u. ap (λ (x : Bool). p u && not x) (same u)),
      ),
      omega (arith, n, how_many_same (is_meant how) (up_to how.delivery_tag) us same),
      done,
      λ p.
          count p
          ∙ how_many_same (also_meant how p) (λ u. p u && up_to how.delivery_tag u) us
              (λ u. ap (λ (x : Bool). p u && x) (same u)),
      all,
    )

settle_loop_first :
    (o : Outside) (how : How) (k fuel : ℕ) (kept rest : List Unacked) (w : Worker)
    → how.multiple ≡ false
    → length rest ≤ fuel
    → let (left, n, v) = settle_loop o how k fuel kept rest 0 w in
      (how_many (is_meant how) rest ≡ 0) × (left ≡ kept ++ rest) × (n ≡ 0) × (v ≡ w)
      ⊎ ((u : Unacked) × (is_meant how u ≡ true)
          × ((p : Unacked → Bool)
              → how_many p left + (if p u then 1 else 0) ≡ how_many p kept + how_many p rest)
          × (n ≡ 1)
          × (v ≡ settle_one o how k u w))
unfolding settle_loop matches
settle_loop_first o how k zero kept [] w m h = inl (refl, refl, refl, refl)
settle_loop_first o how k zero kept (u ∷ us) w m h = absurd (omega arith)
settle_loop_first o how k (suc fuel) kept [] w m h = inl (refl, sym (append-nil kept), refl, refl)
settle_loop_first o how k (suc fuel) kept (u ∷ us) w m h = elim (Bool-cases (matches how u.tag)) [
  | inl t ↦
      let t2 : (u.tag == how.delivery_tag) ≡ true = ground arith in
      rw (t, m)
        (inr (
          u,
          t2,
          λ p.
              (let e = how_many-append p kept (last_first us) in
                let f = last_first_lem p us in omega (arith, f.0)),
          refl,
          refl,
        ))
  | inr t ↦
      let ih = settle_loop_first o how k fuel (kept ++ u ∷ []) us w m (omega arith) in
      rw t (elim ih [
        | inl e ↦ inl (ground arith, e.1 ∙ append_assoc kept (u ∷ []) us, e.2, e.3)
        | inr e ↦ inr (
          e.0,
          e.1,
          λ p. (let f = e.2 p in let g = how_many-append p kept (u ∷ []) in omega arith),
          e.3,
          e.4,
        )
      ])
]

-- An acknowledgement of one delivery settles at most one of a consumer: where none has the tag, nothing
-- changes; otherwise one with the tag goes and all others stay, and the queue sees that one settled.
pub settle_single :
    (o : Outside) (how : How) (k : ℕ) (us : List Unacked) (w : Worker)
    → how.multiple ≡ false
    → let (left, n, v) = settle_loop o how k (length us) [] us 0 w in
      (how_many (is_meant how) us ≡ 0) × (left ≡ us) × (n ≡ 0) × (v ≡ w)
      ⊎ ((u : Unacked) × (is_meant how u ≡ true)
          × ((p : Unacked → Bool) → how_many p left + (if p u then 1 else 0) ≡ how_many p us)
          × (n ≡ 1)
          × (v ≡ settle_one o how k u w))
settle_single o how k us w m =
    elim (settle_loop_first o how k (length us) [] us w m (omega arith)) [
      | inl e ↦ inl e
      | inr e ↦ inr (e.0, e.1, λ p. (let f = e.2 p in omega arith), e.3, e.4)
    ]
