-- ===== src/Queue/Snapshot.antt =====
-- src/queue.c: what a snapshot takes, what the last reference drops, and who is woken.
use beaver_mq.Prelude.{
  ℕ, ◌+◌, ◌-◌, ◌^◌, ◌≤◌, ◌<◌, ◌≡◌, refl, ap, ◌∙◌, ◌⊎◌, inl, inr, Bool, true, false, not, ◌&&◌, none,
  some, List, [], ◌∷◌, ◌++◌, length, map, ltb, leb, ◌==◌, if◌then◌else◌, Bool-cases, Option-cases,
  ==-self, arith,
}
use mathlib.Core.Path.{subst}
use beaver_mq.Message.{Message}
use beaver_mq.Queue.State.{Globals, Queue}
use beaver_mq.Queue.Spec.{IsQueue}
use beaver_mq.Queue.Lifetime.{
  present, buffered, unref, snapshot_loop, snapshot_refs, find_waiter, is_waiter, queue_add_waiter,
  queue_wake_waiters,
}

-- The messages with a cluster id up to a bound; id 0 is none.
abbrev pub numbered_to : ℕ → List Message → List Message
numbered_to max_cid [] = []
numbered_to max_cid (m ∷ ms) =
    if ltb 0 m.cluster_id && leb m.cluster_id max_cid
    then m ∷ numbered_to max_cid ms
    else numbered_to max_cid ms

snapshot_loop-some :
    (max_cid : ℕ) (ms : List Message) → snapshot_loop max_cid (map some ms) ≡ numbered_to max_cid ms
unfolding snapshot_loop
snapshot_loop-some max_cid [] = refl
snapshot_loop-some max_cid (m ∷ ms) = rw (snapshot_loop-some max_cid ms) refl

present-some : (ms : List Message) → present (map some ms) ≡ ms
unfolding present
present-some [] = refl
present-some (m ∷ ms) = ap (λ t. m ∷ t) (present-some ms)

buffered-some : {q : Queue} (ms : List Message) → IsQueue q ms → buffered q ≡ map some ms
unfolding buffered
buffered-some ms v = v.ring.live

-- A snapshot of a well-formed queue, where its memory is granted, takes the messages that carry a
-- cluster id up to the bound, in queue order, and no others, and reports no failure.
pub snapshot_refs_lem :
    {q : Queue} (max_cid : ℕ) (ms : List Message)
    → IsQueue q ms
    → snapshot_refs true q max_cid ≡ (numbered_to max_cid ms, false)
unfolding snapshot_refs
snapshot_refs_lem {q} max_cid ms v =
    let counted = v.ring.counted in
    elim (Bool-cases (q.ring.count == 0)) [
      | inl e ↦ rw e (empty ms (ground arith))
      | inr n ↦ rw (n, buffered-some ms v, snapshot_loop-some max_cid ms) refl
    ]
  where
    empty :
        (xs : List Message)
        → length xs ≡ 0
        → ◌≡◌ {A = List Message × Bool} ([], false) (numbered_to max_cid xs, false)
    empty [] e = refl
    empty (x ∷ xs) e = absurd (omega arith)

-- The last reference to a well-formed queue frees it: every message it held is dropped, once and in
-- order, and a congested queue is taken out of the broker-wide alarm count. Any other reference
-- changes only the reference count. Here the reference count is positive, and the alarm count covers
-- the queue's own flag.
pub unref_lem :
    (g : Globals) {q : Queue} (ms : List Message)
    → IsQueue q ms
    → 0 < q.refcount
    → (if q.congested then 1 else 0) ≤ g.flow_alarm_count
    → g.flow_alarm_count < 2 ^ 64
    → let (g', dropped, left) = unref g q in
      ((q.refcount ≡ 1)
        × (left ≡ none)
        × (dropped ≡ ms)
        × (g'.flow_alarm_count + (if q.congested then 1 else 0) ≡ g.flow_alarm_count))
      ⊎ (1 < q.refcount)
        × (left ≡ some (record q { refcount = q.refcount - 1 }))
        × (dropped ≡ [])
        × (g' ≡ g)
unfolding unref
unref_lem g {q} ms v h hg hb =
    let held : present (buffered q) ≡ ms = ap present (buffered-some ms v) ∙ present-some ms in
    elim (Bool-cases (q.refcount == 1)) [
      | inl e ↦ elim (Bool-cases q.congested) [
        | inl c ↦
            let some_alarm : 0 < g.flow_alarm_count = ground arith in
            rw (e, c) (inl (ground arith, refl, held, omega arith))
        | inr n ↦ rw (e, n) (inl (ground arith, refl, held, omega arith))
      ]
      | inr n ↦ rw n (inr (ground arith, refl, refl, refl))
    ]

-- How often a waiter is registered.
unfoldable pub registered : ℕ → ℕ → List (ℕ × ℕ) → ℕ
registered fn ctx [] = 0
registered fn ctx (w ∷ ws) = (if is_waiter fn ctx w then 1 else 0) + registered fn ctx ws

find_waiter-none :
    (fn ctx i : ℕ) (ws : List (ℕ × ℕ)) → find_waiter fn ctx i ws ≡ none → registered fn ctx ws ≡ 0
unfolding find_waiter registered
find_waiter-none fn ctx i [] e = refl
find_waiter-none fn ctx i (w ∷ ws) e = elim (Bool-cases (is_waiter fn ctx w)) [
  | inl y ↦
      let at : some i ≡ none =
        subst (λ b. (if b then some i else find_waiter fn ctx (i + 1) ws) ≡ none) y e in
      cc
  | inr n ↦
      let rest =
        find_waiter-none fn ctx (i + 1) ws
          (subst (λ b. (if b then some i else find_waiter fn ctx (i + 1) ws) ≡ none) n e) in
      rw n (omega (arith, rest))
]

find_waiter-some :
    (fn ctx i j : ℕ) (ws : List (ℕ × ℕ))
    → find_waiter fn ctx i ws ≡ some j
    → 0 < registered fn ctx ws
unfolding find_waiter registered
find_waiter-some fn ctx i j [] e = cc
find_waiter-some fn ctx i j (w ∷ ws) e = elim (Bool-cases (is_waiter fn ctx w)) [
  | inl y ↦ rw y (omega arith)
  | inr n ↦
      let rest =
        find_waiter-some fn ctx (i + 1) j ws
          (subst (λ b. (if b then some i else find_waiter fn ctx (i + 1) ws) ≡ some j) n e) in
      rw n (omega (arith, rest))
]

registered-append :
    (fn ctx f c : ℕ) (ws : List (ℕ × ℕ))
    → registered f c (ws ++ (fn, ctx) ∷ [])
      ≡ registered f c ws + (if is_waiter f c (fn, ctx) then 1 else 0)
unfolding registered
registered-append fn ctx f c [] = omega arith
registered-append fn ctx f c (w ∷ ws) = omega (arith, registered-append fn ctx f c ws)

-- A waiter registered at most once before is woken exactly once after it was added, if there is
-- memory; another one is woken as often as before.
pub queue_add_waiter_lem :
    (q : Queue) (fn ctx f c : ℕ)
    → registered fn ctx q.waiters ≤ 1
    → is_waiter f c (fn, ctx) ≡ false
    → let woken = queue_wake_waiters (queue_add_waiter true q fn ctx) in
      (registered fn ctx woken ≡ 1) × (registered f c woken ≡ registered f c q.waiters)
unfolding queue_add_waiter queue_wake_waiters
queue_add_waiter_lem q fn ctx f c once other =
    let self : is_waiter fn ctx (fn, ctx) ≡ true = rw (==-self fn, ==-self ctx) refl in
    let full = length q.waiters == q.cap_waiters in
    let unrefused : (full && not true) ≡ false = ground (arith, Bool-cases full) in
    elim (Option-cases (find_waiter fn ctx 0 q.waiters)) [
      | inl e ↦
          let absent = find_waiter-none fn ctx 0 q.waiters e in
          let mine = registered-append fn ctx fn ctx q.waiters in
          let theirs = registered-append fn ctx f c q.waiters in
          rw (e, unrefused) (mine ∙ rw (self, absent) refl, theirs ∙ rw other (omega arith))
      | inr (j, e) ↦ let there = find_waiter-some fn ctx 0 j q.waiters e in rw e (omega arith, refl)
    ]
