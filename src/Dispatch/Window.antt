-- ===== src/Dispatch/Window.antt =====
-- src/dispatch.c: the prefetch window of a consumer.
use beaver_mq.Prelude.{
  ℕ, zero, suc, ◌%◌, ◌≤◌, ◌<◌, ◌≡◌, sym, ◌∙◌, ◌⊎◌, inl, inr, Bool, true, false, Option, some, List,
  [], ◌∷◌, length, get_or, All, ◌==◌, add_size, Bool-cases, Option-cases, arith,
}
use mathlib.Core.Path.{subst}
use beaver_mq.Dispatch.State.{Consumer, Worker, Outside, find_consumer, put_consumer}
use beaver_mq.Dispatch.Service.{consumer_reserve_unacked, window_full, try_candidate, tried, pick}

-- A consumer that acknowledges has no more deliveries unsettled than its window, if it has one.
abbrev pub Fits : Consumer → Type 0
Fits c = (c.no_ack ≡ true) ⊎ (c.prefetch ≡ 0) ⊎ (length c.unacked ≤ c.prefetch)

abbrev pub HasRoom : Consumer → Type 0
HasRoom c = (c.no_ack ≡ true) ⊎ (c.prefetch ≡ 0) ⊎ (length c.unacked < c.prefetch)

pub find_id : (i : ℕ) (cs : List Consumer) (c : Consumer) → find_consumer i cs ≡ some c → c.id ≡ i
unfolding find_consumer
find_id i [] c h = absurd (cc)
find_id i (d ∷ ds) c h = let ih = find_id i ds c in ground arith

pub find_put :
    (i : ℕ) (cs : List Consumer) (c d : Consumer)
    → find_consumer i cs ≡ some c
    → d.id ≡ i
    → find_consumer i (put_consumer d cs) ≡ some d
unfolding find_consumer put_consumer
find_put i [] c d h e = absurd (cc)
find_put i (x ∷ xs) c d h e = let ih = find_put i xs c d in ground arith

pub put-Fits :
    (d : Consumer) (cs : List Consumer) → Fits d → All Fits cs → All Fits (put_consumer d cs)
unfolding put_consumer
put-Fits d [] f a = tt
put-Fits d (c ∷ cs) f a = elim (Bool-cases (c.id == d.id)) [
  | inl e ↦ rw e (f, a.1)
  | inr e ↦ rw e (a.0, put-Fits d cs f a.1)
]

pub room-Fits : (c : Consumer) → window_full c ≡ false → HasRoom c
room-Fits c h = ground arith

-- What a search step gives: the windows still fit, and a consumer that is taken has room.
pub record Ready (i : ℕ) (takes : Bool) (w : Worker) : Type 0 where
  pub fit : All Fits w.consumers
  pub room : takes ≡ true → (c : Consumer) → find_consumer i w.consumers ≡ some c → HasRoom c

pub reserve_lem :
    (o : Outside) (c : Consumer)
    → let d = (consumer_reserve_unacked o c).1 in
      (d.id ≡ c.id) × (d.no_ack ≡ c.no_ack) × (d.prefetch ≡ c.prefetch) × (d.unacked ≡ c.unacked)
unfolding consumer_reserve_unacked
reserve_lem o c = (ground arith, ground arith, ground arith, ground arith)

pub found_again :
    (i : ℕ) (cs : List Consumer) (c d : Consumer)
    → find_consumer i cs ≡ some c
    → HasRoom c
    → find_consumer i cs ≡ some d
    → HasRoom d
found_again i cs c d f r g = let e : c ≡ d = cc in subst HasRoom e r

pub all_Fits :
    (i : ℕ) (cs : List Consumer) (c : Consumer) → All Fits cs → find_consumer i cs ≡ some c → Fits c
unfolding find_consumer
all_Fits i [] c a f = absurd (cc)
all_Fits i (d ∷ ds) c a f = elim (Bool-cases (d.id == i)) [
  | inl e ↦ let g : d ≡ c = ground arith in subst Fits g a.0
  | inr e ↦ all_Fits i ds c a.1 (ground arith)
]

pub same-Fits :
    (c d : Consumer)
    → d.no_ack ≡ c.no_ack
    → d.prefetch ≡ c.prefetch
    → d.unacked ≡ c.unacked
    → (Fits c → Fits d) × (HasRoom c → HasRoom d)
same-Fits c d p q r = (λ h. rw (p, q, r) h, λ h. rw (p, q, r) h)

-- The three ways that the test of a candidate ends.
pub try_candidate_cases :
    (o : Outside) (c : Consumer) (w : Worker)
    → let (takes, v) = try_candidate o c w in
      (takes ≡ false) × (v.consumers ≡ w.consumers)
      ⊎ (c.no_ack ≡ true) × (v.consumers ≡ w.consumers)
      ⊎ (window_full c ≡ false)
        × (v.consumers ≡ put_consumer (consumer_reserve_unacked o c).1 w.consumers)
unfolding try_candidate
try_candidate_cases o c w = ground arith

pub try_candidate-Ready :
    (o : Outside) (i : ℕ) (c : Consumer) (w : Worker)
    → All Fits w.consumers
    → find_consumer i w.consumers ≡ some c
    → let (takes, v) = try_candidate o c w in Ready i takes v
try_candidate-Ready o i c w a f =
    let d = (consumer_reserve_unacked o c).1 in
    let (r0, r1, r2, r3) = reserve_lem o c in
    let s = same-Fits c d r1 r2 r3 in
    elim (try_candidate_cases o c w) [
      | inl e ↦ record { fit = rw e.1 a; room = λ t. absurd (cc) }
      | inr (inl e) ↦ record {
        fit = rw e.1 a;
        room = λ t x g. found_again i w.consumers c x f (inl e.0) (rw (sym e.1) g);
      }
      | inr (inr e) ↦ record {
        fit = rw e.1 (put-Fits d w.consumers (s.0 (all_Fits i w.consumers c a f)) a);
        room = λ t x g.
            found_again i (put_consumer d w.consumers) d x
              (find_put i w.consumers c d f (r0 ∙ find_id i w.consumers c f))
              (s.1 (room-Fits c e.0)) (rw (sym e.1) g);
      }
    ]

-- What the search gives: a consumer that is found has room.
pub record Found (found : Option ℕ) (w : Worker) : Type 0 where
  pub fit : All Fits w.consumers
  pub room :
      (i : ℕ) → found ≡ some i → (c : Consumer) → find_consumer i w.consumers ≡ some c → HasRoom c

pub tried-Ready :
    (o : Outside) (i : ℕ) (w : Worker)
    → All Fits w.consumers
    → let (takes, v) = tried o (find_consumer i w.consumers) w in Ready i takes v
tried-Ready o i w a = elim (Option-cases (find_consumer i w.consumers)) [
  | inl e ↦ rw e (record { fit = a; room = λ t. absurd (cc) })
  | inr (c, e) ↦ rw e (try_candidate-Ready o i c w a e)
]

pub pick-Found :
    (o : Outside) (members : List ℕ) (tries rr : ℕ) (w : Worker)
    → All Fits w.consumers
    → let (found, rr', v) = pick o members tries rr w in Found found v
unfolding pick
pick-Found o members zero rr w a = record { fit = a; room = λ i e. absurd (cc) }
pick-Found o members (suc tries) rr w a =
    let i = get_or members (rr % length members) 0 in
    let (takes, v) = tried o (find_consumer i w.consumers) w in
    let h = tried-Ready o i w a in
    let ih = pick-Found o members tries (add_size rr 1) v h.fit in
    elim (Bool-cases takes) [
      | inl t ↦ rw t (record {
        fit = h.fit;
        room = λ j e c f.
            (let k : i ≡ j = cc in
              h.room t c (subst (λ x. find_consumer x v.consumers ≡ some c) (sym k) f));
      })
      | inr t ↦ rw t ih
    ]
