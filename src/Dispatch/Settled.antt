-- ===== src/Dispatch/Settled.antt =====
-- src/dispatch.c: what acknowledging or rejecting deliveries leaves, beside the lists of deliveries.
use beaver_mq.Prelude.{
  ℕ, ◌≡◌, refl, sym, ap, ◌∙◌, Bool, true, false, ◌&&◌, List, [], ◌∷◌, ◌++◌, append-nil,
  append_assoc, ◌==◌, ==-self, if◌then◌else◌, arith,
}
use mathlib.Core.Path.{subst}
use beaver_mq.Queue.State.{Queue, Track}
use beaver_mq.Queue.Track.{consume_on_ack}
use beaver_mq.Queue.Lifetime.{queue_dead_letter}
use beaver_mq.Dispatch.State.{Unacked, Action, dead_lettered, Worker, Outside}
use beaver_mq.Dispatch.Settle.{How, dead_all, consumed, settle_one}

-- The ids of these deliveries are acknowledged, in this order.
abbrev pub all_acked : List Unacked → Track → Track
all_acked [] t = t
all_acked (u ∷ us) t = all_acked us (consume_on_ack t u.msg.cluster_id)

-- The messages of these deliveries are dead-lettered, in this order, if it is asked for.
abbrev pub letters : Bool → List Unacked → List Action
letters on [] = []
letters on (u ∷ us) = if on then dead_lettered u.msg ∷ letters on us else letters on us

-- What the settling of these deliveries of the queue `k` leaves: on the queue their ids acknowledged and
-- nothing else, the other queues as they were, and after the actions before the dead letters of a
-- rejection, if the queue has a dead-letter callback.
pub record Settled (rejected : Bool) (k : ℕ) (done : List Unacked) (w v : Worker) : Type 0 where
  pub own : v.queues k ≡ record (w.queues k) { track = all_acked done (w.queues k).track }
  pub others : (j : ℕ) → (j == k) ≡ false → v.queues j ≡ w.queues j
  pub actions : v.actions ≡ w.actions ++ letters (rejected && (w.queues k).dead_letter.fn) done
  pub consumers : v.consumers ≡ w.consumers
  pub globals : v.globals ≡ w.globals

consumed-Settled :
    (rejected : Bool) (k : ℕ) (u : Unacked) (w : Worker) (acts : List Action)
    → acts ≡ w.actions ++ letters (rejected && (w.queues k).dead_letter.fn) (u ∷ [])
    → Settled rejected k (u ∷ []) w (consumed k u (record w { actions = acts }))
unfolding consumed
consumed-Settled rejected k u w acts h = record {
  own = rw (==-self k) refl;
  others = λ j e. rw e refl;
  actions = h;
  consumers = refl;
  globals = refl;
}

dead_all-letters :
    (q : Queue) (u : Unacked)
    → dead_all (queue_dead_letter q u.msg) ≡ letters q.dead_letter.fn (u ∷ [])
unfolding queue_dead_letter
dead_all-letters q u = ground arith

pub settle_one-Settled :
    (o : Outside) (how : How) (k : ℕ) (u : Unacked) (w : Worker)
    → how.requeue ≡ false
    → Settled how.rejected k (u ∷ []) w (settle_one o how k u w)
unfolding settle_one
settle_one-Settled o how k u w r =
    subst (Settled how.rejected k (u ∷ []) w) (sym as_consumed) (by_kind how.rejected)
  where
    rejects : Bool → Worker
    rejects on =
        if on
        then record w { actions = w.actions ++ dead_all (queue_dead_letter (w.queues k) u.msg) }
        else w

    as_consumed : settle_one o how k u w ≡ consumed k u (rejects how.rejected)
    as_consumed = rw r refl

    by_kind : (on : Bool) → Settled on k (u ∷ []) w (consumed k u (rejects on))
    by_kind true =
        consumed-Settled true k u w _ (ap (λ x. w.actions ++ x) (dead_all-letters (w.queues k) u))
    by_kind false = consumed-Settled false k u w w.actions (sym (append-nil w.actions))

letters-cons :
    (on : Bool) (u : Unacked) (us : List Unacked)
    → letters on (u ∷ []) ++ letters on us ≡ letters on (u ∷ us)
letters-cons true u us = refl
letters-cons false u us = refl

pub Settled-cons :
    (rejected : Bool) (k : ℕ) (u : Unacked) (us : List Unacked) (w s v : Worker)
    → Settled rejected k (u ∷ []) w s
    → Settled rejected k us s v
    → Settled rejected k (u ∷ us) w v
Settled-cons rejected k u us w s v one more =
    let callback : (s.queues k).dead_letter.fn ≡ (w.queues k).dead_letter.fn =
      ap (λ (q : Queue). q.dead_letter.fn) one.own in
    let on = rejected && (w.queues k).dead_letter.fn in
    record {
      own = more.own ∙ ap (λ (q : Queue). record q { track = all_acked us q.track }) one.own;
      others = λ j e. more.others j e ∙ one.others j e;
      actions =
          more.actions
          ∙ ap (λ (f : Bool). s.actions ++ letters (rejected && f) us) callback
          ∙ ap (λ x. x ++ letters on us) one.actions
          ∙ append_assoc w.actions (letters on (u ∷ [])) (letters on us)
          ∙ ap (λ x. w.actions ++ x) (letters-cons on u us);
      consumers = more.consumers ∙ one.consumers;
      globals = more.globals ∙ one.globals;
    }

pub Settled-nil : (rejected : Bool) (k : ℕ) (w : Worker) → Settled rejected k [] w w
Settled-nil rejected k w = record {
  own = refl;
  others = λ j e. refl;
  actions = sym (append-nil w.actions);
  consumers = refl;
  globals = refl;
}
