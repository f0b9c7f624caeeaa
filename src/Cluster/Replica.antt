-- ===== src/Cluster/Replica.antt =====
-- src/cluster.c: the leader's batch and the follower's answer together.
use beaver_mq.Prelude.{
  ℕ, zero, suc, ◌+◌, ◌-◌, ◌≤◌, ◌<◌, ◌≡◌, refl, sym, ap, ap₂, ◌∙◌, Bool, true, some, List, [], ◌∷◌,
  ◌++◌, length, take, drop, All, arith,
}
use beaver_mq.Cluster.State.{LogEntry, last_index, Peer, Node, Answers}
use beaver_mq.Cluster.Log.{to_apply}
use beaver_mq.Cluster.Slice.{to_apply-take}
use beaver_mq.Cluster.Replicate.{bytes_of, on_wire, first_to_send, to_send, append_body}
use beaver_mq.Cluster.Follower.{on_append}
use beaver_mq.Cluster.Accept.{all_received, take_all}
use beaver_mq.Cluster.Matching.{acks, stamp, stamps, on_append-Accepted}
use beaver_mq.Cluster.Batch.{to_send_bounds}

-- The entry's body is there, at its length.
abbrev pub IsWhole : LogEntry → Type 0
IsWhole e = length (bytes_of e.payload) ≡ e.len

stamps-append : (xs ys : List LogEntry) → stamps (xs ++ ys) ≡ stamps xs ++ stamps ys
stamps-append [] ys = refl
stamps-append (x ∷ xs) ys = ap (λ t. stamp x ∷ t) (stamps-append xs ys)

received_stamps :
    (es : List LogEntry) → All IsWhole es → stamps (all_received (on_wire es)) ≡ stamps es
received_stamps [] h = refl
received_stamps (e ∷ es) h = let ih = received_stamps es h.1 in let w = h.0 in rw (w, ih) refl

take_nil {ℓ} : {A : Type ℓ} (k : ℕ) → ◌≡◌ {A = List A} (take k []) []
take_nil zero = refl
take_nil (suc k) = refl

take-plus {ℓ} :
    {A : Type ℓ} (i k : ℕ) (xs : List A) → take i xs ++ take k (drop i xs) ≡ take (i + k) xs
take-plus zero k xs = let e : 0 + k ≡ k = omega arith in rw e refl
take-plus (suc i) k [] = take_nil k ∙ sym (take_nil (suc i + k))
take-plus (suc i) k (x ∷ xs) =
    let e : suc i + k ≡ suc (i + k) = omega arith in rw e (ap (λ t. x ∷ t) (take-plus i k xs))

on_wire-length : (es : List LogEntry) → length (on_wire es) ≡ length es
on_wire-length [] = refl
on_wire-length (e ∷ es) = ap suc (on_wire-length es)

length-take : (k : ℕ) (xs : List LogEntry) → length (take k xs) ≤ k
length-take zero xs = omega arith
length-take (suc k) [] = omega arith
length-take (suc k) (x ∷ xs) = let ih = length-take k xs in omega arith

-- A follower whose log agrees with the leader's up to the entry before the batch, and that acknowledges
-- the batch, agrees with it up to the batch's last entry, in terms, operations and lengths. The logs have
-- one base, the batch starts above it, and the leader still holds the bodies that it sends.
pub on_append-append_body :
    (a : Answers) (from t : ℕ) (c : Bool) (l n : Node) (p : Peer)
    → n.log.base_index ≡ l.log.base_index
    → l.log.base_index < first_to_send p
    → first_to_send p ≤ last_index l.log + 1
    → All IsWhole (to_apply l.log (first_to_send p) (to_send l p))
    → let prev = first_to_send p - 1 - l.log.base_index in
      stamps (take prev n.log.entries) ≡ stamps (take prev l.log.entries)
      → acks (on_append a from t c (some (append_body l p)) n).0 ≡ true
      → stamps (on_append a from t c (some (append_body l p)) n).1.log.entries
        ≡ stamps (take (prev + to_send l p) l.log.entries)
unfolding append_body
on_append-append_body a from t c l n p b f g w s k =
    let prev = first_to_send p - 1 - l.log.base_index in
    let body = append_body l p in
    let ac = on_append-Accepted a from t c body n (omega arith) k in
    let bd = to_send_bounds l p in
    let i : l.log.base_index + 1 + prev ≡ first_to_send p = omega arith in
    let r : to_apply l.log (first_to_send p) (to_send l p)
        ≡ take (to_send l p) (drop prev l.log.entries) =
      ap (λ (x : ℕ). to_apply l.log x (to_send l p)) (sym i)
      ∙ to_apply-take l.log (to_send l p) prev (ground arith) in
    let sent = to_apply l.log (first_to_send p) (to_send l p) in
    let len : length (on_wire sent) ≤ to_send l p = omega (
      arith,
      on_wire-length sent,
      ap length r,
      length-take (to_send l p) (drop prev l.log.entries),
    ) in
    ac.1.replaced
    ∙ (stamps-append _ (all_received (take (to_send l p) (on_wire sent)))
        ∙ (ap₂ (λ x y. x ++ y)
              (ap (λ (x : ℕ). stamps (take (first_to_send p - 1 - x) n.log.entries)) b ∙ s)
              (ap (λ x. stamps (all_received x)) (take_all (to_send l p) (on_wire sent) len)
                ∙ (received_stamps sent w ∙ ap stamps r))
            ∙ (sym (
                  stamps-append (take prev l.log.entries)
                    (take (to_send l p) (drop prev l.log.entries)))
                ∙ ap stamps (take-plus prev (to_send l p) l.log.entries))))
