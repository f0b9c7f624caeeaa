-- ===== src/Cluster/Backup.antt =====
-- src/cluster.c: how the leader finds the point where a follower's log agrees with its own.
use beaver_mq.Prelude.{
  ℕ, ◌+◌, ◌-◌, ◌≤◌, ◌<◌, ◌≡◌, ◌≢◌, refl, sym, ap, ap₂, ◌∙◌, ◌⊎◌, Bool, true, false, not, ◌&&◌, some,
  [], ◌∷◌, ltb, leb, ◌^◌, ◌==◌, if◌then◌else◌, arith, Bool-cases, Option-cases, inl, inr,
}
use mathlib.Core.Path.{subst}
use beaver_mq.Cluster.State.{
  Log, last_index, Peer, Node, Answers, is_leader, persist_meta, storage_write_failed,
  update_health,
}
use beaver_mq.Cluster.Log.{log_term_at}
use beaver_mq.Cluster.Message.{AppendBody, AppendReply, append_resp, send, header_term}
use beaver_mq.Cluster.Replicate.{rewound, find_peer, put_peer, with_peer, take_append_resp}
use beaver_mq.Cluster.Election.{observe_term, unless_stepped}
use beaver_mq.Cluster.Follower.{
  send_append_resp, affirm, take_batch, take_append, on_append, lead_append_resp, on_append_resp,
  cl_dispatch,
}
use beaver_mq.Cluster.Accept.{affirm_log, observe_term_log}

-- Why a follower refuses a batch: its log is too short, or holds another term before the batch.
abbrev pub Mismatch : AppendBody → Log → Type 0
Mismatch b log =
    (last_index log < b.prev_index)
    ⊎ (0 < b.prev_index) × (log_term_at log b.prev_index ≢ b.prev_term)

-- What a follower whose log does not match answers.
abbrev pub refusal : AppendBody → Log → AppendReply
refusal b log = record {
  success = false;
  hint = if ltb (last_index log) b.prev_index then last_index log else b.prev_index - 1;
  durable = some log.durable_index;
}

take_batch_refused :
    (a : Answers) (from : ℕ) (b : AppendBody) (n : Node)
    → Mismatch b n.log
    → take_batch a from b n
      ≡ (send from (append_resp (header_term n.current_term) (some (refusal b n.log))) ∷ [], n)
unfolding take_batch send_append_resp
take_batch_refused a from b n (inl h) =
    let e : ltb (last_index n.log) b.prev_index ≡ true = ground arith in rw e refl
take_batch_refused a from b n (inr (h, k)) =
    elim (Bool-cases (ltb (last_index n.log) b.prev_index)) [
      | inl e ↦ rw e refl
      | inr e ↦
          let f : (ltb 0 b.prev_index && not (log_term_at n.log b.prev_index == b.prev_term))
              ≡ true =
            ground arith in
          rw (f, e) refl
    ]

observe_term_newest :
    (a : Answers) (t : ℕ) (n : Node) → n.current_term ≤ t → (observe_term a t n).1.current_term ≡ t
unfolding observe_term persist_meta storage_write_failed update_health
observe_term_newest a t n h = ground arith

affirm_term :
    (from now : ℕ) (c : Bool) (n : Node) → (affirm from now c n).current_term ≡ n.current_term
unfolding affirm update_health
affirm_term from now c n = refl

refusal_hint : (b : AppendBody) (log : Log) → Mismatch b log → (refusal b log).hint < b.prev_index
refusal_hint b log (inl h) = ground arith
refusal_hint b log (inr (h, k)) = ground arith

rewound_lem :
    (r : AppendReply) (p : Peer)
    → r.hint + 1 < p.next_index
    → ((rewound r p).next_index ≡ r.hint + 1)
      × ((rewound r p).match_index ≤ r.hint)
      × ((rewound r p).inflight ≡ 0)
unfolding rewound
rewound_lem r p h = elim (Option-cases r.durable) [
  | inl e ↦ rw e (ground arith, ground arith, refl)
  | inr (d, e) ↦ rw e (ground arith, ground arith, refl)
]

-- A leader in the term of an answer does not step down.
on_append_resp-leads :
    (a : Answers) (i : ℕ) (r : AppendReply) (p : Peer) (lead : Node)
    → is_leader lead.role ≡ true
    → find_peer i lead.peers ≡ some p
    → on_append_resp a i lead.current_term (some r) lead ≡ take_append_resp a lead p r
unfolding on_append_resp observe_term unless_stepped lead_append_resp
on_append_resp-leads a i r p lead h f =
    let e : leb lead.current_term lead.current_term ≡ true = ground arith in rw (e, f, h) refl

refused-rewound :
    (a : Answers) (r : AppendReply) (p : Peer) (lead : Node)
    → r.success ≡ false
    → take_append_resp a lead p r
      ≡ with_peer a (record lead { peers = put_peer (rewound r p) lead.peers }) (rewound r p)
unfolding take_append_resp
refused-rewound a r p lead h = rw h refl

rewound_id : (r : AppendReply) (p : Peer) → (rewound r p).node_id ≡ p.node_id
unfolding rewound
rewound_id r p = elim (Option-cases r.durable) [ inl e ↦ rw e refl | inr (d, e) ↦ rw e refl ]

-- A batch from no older term that does not match the follower's log is refused and leaves the log alone.
-- The leader of that term, when it takes the refusal, stores an entry of the peer whose next index is at
-- most the entry before the batch, whose confirmed index is below the next one, and whose window is
-- clear, and pumps the peer from there. The term is below 2 ^ 32, and the entry before the batch is below
-- the peer's next index.
pub refusal_backs_up :
    (a a' : Answers) (from i t : ℕ) (c : Bool) (b : AppendBody) (n lead : Node) (p : Peer)
    → n.current_term ≤ t
    → t < 2 ^ 32
    → Mismatch b n.log
    → is_leader lead.role ≡ true
    → lead.current_term ≡ t
    → find_peer i lead.peers ≡ some p
    → b.prev_index < p.next_index
    → let r = refusal b n.log in
      ((on_append a from t c (some b) n).0 ≡ send from (append_resp (header_term t) (some r)) ∷ [])
      × ((on_append a from t c (some b) n).1.log ≡ n.log)
      × (q : Peer) × (cl_dispatch a' i (append_resp (header_term t) (some r)) lead
          ≡ with_peer a' (record lead { peers = put_peer q lead.peers }) q)
      × (q.node_id ≡ p.node_id)
      × (q.next_index ≤ b.prev_index)
      × (q.match_index < q.next_index)
      × (q.inflight ≡ 0)
unfolding on_append take_append cl_dispatch
refusal_backs_up a a' from i t c b n lead p g small h leads term found k =
    let o = (observe_term a t n).1 in
    let m = affirm from a.now c o in
    let e1 : m.log ≡ n.log = affirm_log from a.now c o ∙ observe_term_log a t n in
    let e2 : m.current_term ≡ t = affirm_term from a.now c o ∙ observe_term_newest a t n g in
    let e3 = take_batch_refused a from b m (subst (Mismatch b) (sym e1) h) in
    let e4 : ltb t o.current_term ≡ false = let e = observe_term_newest a t n g in ground arith in
    let hb = refusal_hint b n.log h in
    let r = refusal b n.log in
    let rl = rewound_lem r p (omega (arith, hb)) in
    let same : header_term t ≡ lead.current_term = omega arith in
    let taken = on_append_resp-leads a' i r p lead leads found ∙ refused-rewound a' r p lead refl in
    rw e4 (
      ap (λ x. x.0) e3
          ∙ ap₂
              (λ (x : ℕ) (y : Log).
                send from (append_resp (header_term x) (some (refusal b y))) ∷ [])
              e2 e1,
      ap (λ x. x.1.log) e3 ∙ e1,
      rewound r p,
      ap (λ x. on_append_resp a' i x (some r) lead) same ∙ taken,
      rewound_id r p,
      omega (arith, rl.0, hb),
      omega (arith, rl.0, rl.1),
      rl.2,
    )
