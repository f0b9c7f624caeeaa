-- ===== src/Queue/Watermark.antt =====
-- src/queue.c: the watermark never passes a delivery that is tracked and not acknowledged.
use beaver_mq.Prelude.{
  ℕ, ◌≤◌, ◌<◌, ◌≡◌, ◌≢◌, ◌⊎◌, inl, inr, Bool, true, false, List, [], ◌∷◌, length, arith,
}
use beaver_mq.Queue.State.{Track}
use beaver_mq.Queue.Track.{consume_on_deliver, consume_on_ack, watermark_of, consume_watermark}
use beaver_mq.Queue.Insertion.{
  IsAscending, AtMost, In, insert, place-Inserts, insert-In, insert-In_old, insert-IsAscending,
  insert-AtMost, AtMost-le, In-above, remove_first-IsAscending, remove_first-AtMost,
  remove_first-In,
}

-- The tracked ids are positive, strictly ascending, and none is above the highest delivered.
pub record IsTracked (t : Track) : Type 0 where
  pub ascending : IsAscending 0 t.unacked
  pub below : AtMost t.deliver_hi t.unacked

-- What a delivery does: the ids stay, or its id is inserted; and `deliver_hi` never falls, and
-- covers what is inserted.
abbrev Delivers : Track → ℕ → Track → Type 0
Delivers t cid r =
    (r.unacked ≡ t.unacked) × (t.deliver_hi ≤ r.deliver_hi)
    ⊎ (r.unacked ≡ insert cid t.unacked)
      × (t.deliver_hi ≤ r.deliver_hi)
      × (cid ≤ r.deliver_hi)
      × (0 < cid)

consume_on_deliver-Delivers :
    (granted : Bool) (t : Track) (cid : ℕ) (no_ack : Bool)
    → IsAscending 0 t.unacked
    → Delivers t cid (consume_on_deliver granted t cid no_ack)
unfolding consume_on_deliver
consume_on_deliver-Delivers granted t cid no_ack h =
    let p = place-Inserts 0 cid t.unacked h in ground (arith, p.there, p.new)

-- With room, or memory for it, the id of a manual-ack delivery is recorded.
consume_on_deliver-records :
    (granted : Bool) (t : Track) (cid : ℕ)
    → IsAscending 0 t.unacked
    → 0 < cid
    → (length t.unacked < t.cap_unacked) ⊎ (granted ≡ true) × (length t.unacked ≡ t.cap_unacked)
    → (consume_on_deliver granted t cid false).unacked ≡ insert cid t.unacked
unfolding consume_on_deliver
consume_on_deliver-records granted t cid h pos room =
    let p = place-Inserts 0 cid t.unacked h in ground (arith, p.there, p.new)

-- A delivery keeps the tracking well formed, whatever the allocator answers.
pub consume_on_deliver-IsTracked :
    (granted : Bool) (t : Track) (cid : ℕ) (no_ack : Bool)
    → IsTracked t
    → IsTracked (consume_on_deliver granted t cid no_ack)
consume_on_deliver-IsTracked granted t cid no_ack v =
    let r = consume_on_deliver granted t cid no_ack in
    elim (consume_on_deliver-Delivers granted t cid no_ack v.ascending) [
      | inl (e, hi) ↦ record {
        ascending = rw e v.ascending;
        below = rw e (AtMost-le t.deliver_hi r.deliver_hi t.unacked hi v.below);
      }
      | inr (e, hi, c, pos) ↦ record {
        ascending = rw e (insert-IsAscending 0 cid t.unacked pos v.ascending);
        below = rw e (
            insert-AtMost r.deliver_hi cid t.unacked c
              (AtMost-le t.deliver_hi r.deliver_hi t.unacked hi v.below));
      }
    ]

-- An acknowledgement keeps the tracking well formed.
pub consume_on_ack-IsTracked :
    (t : Track) (cid : ℕ) → IsTracked t → IsTracked (consume_on_ack t cid)
unfolding consume_on_ack
consume_on_ack-IsTracked t cid v = ground (
  arith,
  remove_first-IsAscending 0 cid t.unacked v.ascending,
  remove_first-AtMost t.deliver_hi cid t.unacked v.below,
)

-- The watermark is below every tracked id.
watermark-lt : (t : Track) (cid : ℕ) → IsTracked t → In cid t.unacked → consume_watermark t < cid
unfolding consume_watermark
watermark-lt t cid v h = go t.unacked v.ascending h
  where
    go : (xs : List ℕ) → IsAscending 0 xs → In cid xs → watermark_of xs t.deliver_hi < cid
    go [] a m = absurd m
    go (x ∷ xs) a m = ground (arith, In-above x cid xs)

-- What happens to a queue's tracking: a delivery, with the allocator's answer, or an acknowledgement.
pub data Event : Type 0 where
  deliver : Bool → ℕ → Bool → Event
  ack : ℕ → Event

abbrev pub step : Track → Event → Track
step t (deliver granted cid no_ack) = consume_on_deliver granted t cid no_ack
step t (ack cid) = consume_on_ack t cid

pub run : Track → List Event → Track
run t [] = t
run t (e ∷ es) = run (step t e) es

-- none of the events acknowledges `cid`
abbrev pub Unacknowledged : ℕ → List Event → Type 0
Unacknowledged cid [] = Unit
Unacknowledged cid (deliver g c n ∷ es) = Unacknowledged cid es
Unacknowledged cid (ack c ∷ es) = (c ≢ cid) × Unacknowledged cid es

In-deliver :
    (granted : Bool) (t : Track) (c cid : ℕ) (no_ack : Bool)
    → IsTracked t
    → In cid t.unacked
    → In cid (consume_on_deliver granted t c no_ack).unacked
In-deliver granted t c cid no_ack v h =
    elim (consume_on_deliver-Delivers granted t c no_ack v.ascending) [
      | inl (e, _) ↦ rw e h
      | inr (e, _, _, _) ↦ rw e (insert-In_old c cid t.unacked h)
    ]

In-ack : (t : Track) (c cid : ℕ) → c ≢ cid → In cid t.unacked → In cid (consume_on_ack t c).unacked
unfolding consume_on_ack
In-ack t c cid ne h = ground (arith, remove_first-In c cid t.unacked ne h)

-- A tracked id stays tracked, and the watermark stays below it, through any deliveries and any
-- acknowledgements of other ids: also when the same message is delivered again without need of an
-- acknowledgement.
pub run-watermark :
    (cid : ℕ) (es : List Event) (t : Track)
    → IsTracked t
    → In cid t.unacked
    → Unacknowledged cid es
    → In cid (run t es).unacked × (consume_watermark (run t es) < cid)
unfolding run
run-watermark cid [] t v h u = (h, watermark-lt t cid v h)
run-watermark cid (deliver g c n ∷ es) t v h u =
    run-watermark cid es (consume_on_deliver g t c n) (consume_on_deliver-IsTracked g t c n v)
      (In-deliver g t c cid n v h) u
run-watermark cid (ack c ∷ es) t v h u =
    run-watermark cid es (consume_on_ack t c) (consume_on_ack-IsTracked t c v)
      (In-ack t c cid u.0 h) u.1

-- A manual-ack delivery for which there is room, or memory, holds the watermark below its id until
-- that id is acknowledged.
pub delivered-watermark :
    (granted : Bool) (cid : ℕ) (es : List Event) (t : Track)
    → IsTracked t
    → 0 < cid
    → (length t.unacked < t.cap_unacked) ⊎ (granted ≡ true) × (length t.unacked ≡ t.cap_unacked)
    → Unacknowledged cid es
    → consume_watermark (run t (deliver granted cid false ∷ es)) < cid
unfolding run
delivered-watermark granted cid es t v pos room u =
    let t' = consume_on_deliver granted t cid false in
    let rec = consume_on_deliver-records granted t cid v.ascending pos room in
    (run-watermark cid es t' (consume_on_deliver-IsTracked granted t cid false v)
      (rw rec (insert-In cid t.unacked)) u).1

-- Where the allocator refuses the room for a delivery, and grants it for a later one with a higher
-- id, the watermark passes the first, which is still outstanding.
pub refused-watermark :
    (t : Track) (cid later : ℕ)
    → t.unacked ≡ []
    → t.cap_unacked ≡ 0
    → 0 < cid
    → cid < later
    → cid ≤ consume_watermark (run t (deliver false cid false ∷ deliver true later false ∷ []))
unfolding run consume_watermark consume_on_deliver
refused-watermark t cid later none_yet empty pos lt = ground arith
