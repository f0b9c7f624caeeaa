-- ===== src/Broker/Enqueues.antt =====
-- src/broker.c: the second phase of routing, against the answers of queue_enqueue.
use beaver_mq.Prelude.{
  ℕ, ◌+◌, ◌≡◌, ◌≢◌, refl, ap, ◌∙◌, ◌⊎◌, inl, inr, Bool, true, false, none, some, List, [], ◌∷◌,
  Bytes, Option-cases, if◌then◌else◌, arith,
}
use beaver_mq.Message.{Message}
use beaver_mq.Queue.State.{Queue}
use beaver_mq.Queue.Ops.{Outcome, Status, ok, oom, full, queue_enqueue}
use beaver_mq.Broker.Registry.{Broker, with_queue, drop_queue}
use beaver_mq.Broker.Publish.{Answers, is_ok, dead_letters, enqueue_target, deliver}

status-cases : (s : Status) → (s ≡ ok) ⊎ ((is_ok s ≡ false) × (s ≢ ok))
status-cases ok = inl refl
status-cases oom = inr (refl, λ e. cc)
status-cases full = inr (refl, λ e. cc)

module _ (hash : Bytes → ℕ) (m : Answers) (dead_letter : Broker → ℕ → Message → Broker) where
  -- What queue_enqueue answers for the target at the index `i`.
  abbrev pub answer : Message → ℕ → Broker → Queue → Outcome
  answer msg i b q = queue_enqueue (m.dead i) (m.slots i) b.globals q msg

  -- The broker after that target: the queue as queue_enqueue leaves it, what it evicted dead-lettered, and
  -- the reference given back.
  abbrev pub left_by : Message → ℕ → Broker → ℕ → Queue → Broker
  left_by msg i b a q =
      let o = answer msg i b q in
      let stored : Broker = record b {
        globals = o.globals;
        heap = with_queue b.heap a (some o.queue);
      } in
      drop_queue (dead_letters hash m dead_letter stored a o.dead) a

  -- The targets from the index `i` on are tried one after the other, `n` of their queues store the
  -- message, and the broker `after` is left. A target that is not there is passed over.
  abbrev pub Enqueues : Message → ℕ → List ℕ → Broker → ℕ → Broker → Type 0
  Enqueues msg i [] b n after = (n ≡ 0) × (after ≡ b)
  Enqueues msg i (a ∷ rest) b n after =
      ((b.heap a ≡ none) × Enqueues msg (i + 1) rest b n after)
      ⊎ ((q : Queue) × (b.heap a ≡ some q)
          × ((answer msg i b q).status ≡ ok)
          × (k : ℕ) × (n ≡ k + 1)
          × Enqueues msg (i + 1) rest (left_by msg i b a q) k after)
      ⊎ ((q : Queue) × (b.heap a ≡ some q)
          × ((answer msg i b q).status ≢ ok)
          × Enqueues msg (i + 1) rest (left_by msg i b a q) n after)

  enqueue_target-none :
      (i : ℕ) (b : Broker) (a : ℕ) (msg : Message)
      → b.heap a ≡ none
      → enqueue_target hash m dead_letter i b a msg ≡ (false, b)
  unfolding enqueue_target drop_queue
  enqueue_target-none i b a msg e = rw (e, e) refl

  enqueue_target-some :
      (i : ℕ) (b : Broker) (a : ℕ) (msg : Message) (q : Queue)
      → b.heap a ≡ some q
      → enqueue_target hash m dead_letter i b a msg
        ≡ (is_ok (answer msg i b q).status, left_by msg i b a q)
  unfolding enqueue_target
  enqueue_target-some i b a msg q e = rw e refl

  deliver-step :
      (i a : ℕ) (rest : List ℕ) (msg : Message) (n : ℕ) (failed took : Bool) (b b' : Broker)
      → enqueue_target hash m dead_letter i b a msg ≡ (took, b')
      → deliver hash m dead_letter i (a ∷ rest) msg (n, failed, b)
        ≡ deliver hash m dead_letter
            (i + 1)
            rest
            msg
            (if took then (n + 1, failed, b') else (n, true, b'))
  unfolding deliver
  deliver-step i a rest msg n failed took b b' e = rw (e, deliver) refl

  pub deliver-Enqueues :
      (i : ℕ) (targets : List ℕ) (msg : Message) (n : ℕ) (failed : Bool) (b : Broker)
      → let s = deliver hash m dead_letter i targets msg (n, failed, b) in
        (k : ℕ) × (s.0 ≡ n + k) × Enqueues msg i targets b k s.2
  unfolding deliver
  deliver-Enqueues i [] msg n failed b = (0, omega arith, (refl, refl))
  deliver-Enqueues i (a ∷ rest) msg n failed b = elim (Option-cases (b.heap a)) [
    | inl e ↦
        let (k, sum, all) = deliver-Enqueues (i + 1) rest msg n true b in
        rw (deliver-step i a rest msg n failed false b b (enqueue_target-none i b a msg e))
          (k, sum, inl (e, all))
    | inr (q, e) ↦
        let b' = left_by msg i b a q in
        let tried = enqueue_target-some i b a msg q e in
        elim (status-cases (answer msg i b q).status) [
          | inl stored ↦
              let (k, sum, all) = deliver-Enqueues (i + 1) rest msg (n + 1) failed b' in
              rw
                (deliver-step i a rest msg n failed true b b'
                  (tried ∙ ap (λ t. (is_ok t, b')) stored))
                (k + 1, omega (arith, sum), inr (inl (q, e, stored, k, refl, all)))
          | inr (refused, other) ↦
              let (k, sum, all) = deliver-Enqueues (i + 1) rest msg n true b' in
              rw
                (deliver-step i a rest msg n failed false b b'
                  (tried ∙ ap (λ (t : Bool). (t, b')) refused))
                (k, sum, inr (inr (q, e, other, all)))
        ]
  ]
