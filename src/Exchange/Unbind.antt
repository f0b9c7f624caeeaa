-- ===== src/Exchange/Unbind.antt =====
-- src/exchange.c: binding a queue, and removing every binding of a queue, against counts of bindings.
use beaver_mq.Prelude.{
  ℕ, zero, suc, ◌+◌, ◌-◌, ◌≤◌, ◌<◌, ◌≡◌, refl, ap, ◌∙◌, inl, inr, Bool, true, false, ◌&&◌, List, [],
  ◌∷◌, length, get_or, ltb, ◌==◌, if◌then◌else◌, Bool-cases, arith,
}
use mathlib.Core.Path.{subst}
use beaver_mq.Prelude.Swap.{
  one_if, count, count-swap_remove, length-swap_remove, get_or-swap_remove,
}
use beaver_mq.Exchange.Bindings.{
  Binding, Exchange, Refs, queue_unref, no_binding, Unbinding, unbind_step, unbind_loop,
  exchange_unbind_queue,
}

unfoldable pub is_of : ℕ → Binding → Bool
is_of q b = b.queue == q

abbrev pub is_other : (Binding → Bool) → ℕ → Binding → Bool
is_other p q b = p b && (if is_of q b then false else true)

-- No binding before `i` is one of q.
abbrev pub Clear : ℕ → ℕ → List Binding → Type 0
Clear q i bs = (j : ℕ) → j < i → is_of q (get_or bs j no_binding) ≡ false

&&-true : (a : Bool) → (a && true) ≡ a
&&-true true = refl
&&-true false = refl

&&-false : (a : Bool) → (a && false) ≡ false
&&-false true = refl
&&-false false = refl

count-Clear :
    (p : Binding → Bool) (q : ℕ) (bs : List Binding)
    → Clear q (length bs) bs
    → (count p bs ≡ count (is_other p q) bs) × (count (is_of q) bs ≡ 0)
unfolding count
count-Clear p q [] c = (refl, refl)
count-Clear p q (b ∷ bs) c =
    let rest = count-Clear p q bs (λ j h. c (suc j) (omega arith)) in
    let first : is_of q b ≡ false = c 0 (omega arith) in
    let kept : is_other p q b ≡ p b = rw first (&&-true (p b)) in
    (rw (kept, rest.0), rw (first, rest.1))

-- What the sweep has done so far.
record Swept (q : ℕ) (bs : List Binding) (refs : Refs) (s : Unbinding) : Type 0 where
  bound : s.i ≤ length s.left
  clear : Clear q s.i s.left
  others : (p : Binding → Bool) → count (is_other p q) s.left ≡ count (is_other p q) bs
  removed_ones : s.removed + count (is_of q) s.left ≡ count (is_of q) bs
  released : (x : ℕ) → s.refs x ≡ refs x - (if x == q then s.removed else 0)

is_other-is_of :
    (p : Binding → Bool) (q : ℕ) (b : Binding) → is_of q b ≡ true → is_other p q b ≡ false
is_other-is_of p q b e = rw e (&&-false (p b))

unbind_step-Swept :
    (q : ℕ) (bs : List Binding) (refs : Refs) (s : Unbinding)
    → s.i < length s.left
    → Swept q bs refs s
    → Swept q bs refs (unbind_step q s)
unfolding unbind_step is_of queue_unref
unbind_step-Swept q bs refs s h w =
    let b = get_or s.left s.i no_binding in
    elim (Bool-cases (b.queue == q)) [
      | inl e ↦ rw e record {
        bound = omega (arith, length-swap_remove s.left s.i no_binding h);
        clear =
            λ j hj. ap (is_of q) (get_or-swap_remove s.left s.i j no_binding hj h) ∙ w.clear j hj;
        others = λ p. omega (
          arith,
          count-swap_remove (is_other p q) s.left s.i no_binding h,
          ap one_if (is_other-is_of p q b e),
          w.others p,
        );
        removed_ones = omega (
          arith,
          count-swap_remove (is_of q) s.left s.i no_binding h,
          ap one_if e,
          w.removed_ones,
        );
        released = λ x. let r = w.released x in ground arith;
      }
      | inr n ↦ rw n record {
        bound = omega arith;
        clear = λ j hj. elim (Bool-cases (j == s.i)) [
          | inl same ↦ let e : j ≡ s.i = ground arith in rw e n
          | inr other ↦ w.clear j (ground arith)
        ];
        others = w.others;
        removed_ones = w.removed_ones;
        released = w.released;
      }
    ]

-- The loop's measure: bindings not yet looked at.
step-measure :
    (q : ℕ) (s : Unbinding)
    → s.i < length s.left
    → length (unbind_step q s).left - (unbind_step q s).i < length s.left - s.i
unfolding unbind_step
step-measure q s h =
    let sized = length-swap_remove s.left s.i no_binding h in
    let b = get_or s.left s.i no_binding in
    elim (Bool-cases (b.queue == q)) [ inl e ↦ rw e (omega arith) | inr n ↦ rw n (omega arith) ]

unbind_loop-Swept :
    (fuel q : ℕ) (bs : List Binding) (refs : Refs) (s : Unbinding)
    → length s.left - s.i ≤ fuel
    → Swept q bs refs s
    → Swept q bs refs (unbind_loop fuel q s)
      × ((unbind_loop fuel q s).i ≡ length (unbind_loop fuel q s).left)
unfolding unbind_loop
unbind_loop-Swept zero q bs refs s h w = let bound = w.bound in (w, omega arith)
unbind_loop-Swept (suc fuel) q bs refs s h w =
    let bound = w.bound in
    elim (Bool-cases (ltb s.i (length s.left))) [
      | inl e ↦
          let inside : s.i < length s.left = ground arith in
          let less = step-measure q s inside in
          rw (e, unbind_loop)
            (unbind_loop-Swept fuel q bs refs (unbind_step q s) (omega arith)
              (unbind_step-Swept q bs refs s inside w))
      | inr n ↦ rw (n, unbind_loop) (w, ground arith)
    ]

-- Unbinding a queue removes every one of its bindings and, for whatever test, keeps as many of the
-- bindings of other queues as there were; it returns how many it removed, and gives back one
-- reference to the queue for each.
pub exchange_unbind_queue_lem :
    (ex : Exchange) (q : ℕ) (refs : Refs)
    → let (removed, ex', refs') = exchange_unbind_queue ex q refs in
      ((p : Binding → Bool) → count p ex'.bindings ≡ count (is_other p q) ex.bindings)
      × (count (is_of q) ex'.bindings ≡ 0)
      × (removed ≡ count (is_of q) ex.bindings)
      × ((x : ℕ) → refs' x ≡ refs x - (if x == q then removed else 0))
unfolding exchange_unbind_queue
exchange_unbind_queue_lem ex q refs =
    let start : Unbinding = record { i = 0; removed = 0; left = ex.bindings; refs = refs } in
    let begun : Swept q ex.bindings refs start = record {
      bound = omega arith;
      clear = λ j h. absurd (omega arith);
      others = λ p. refl;
      removed_ones = omega arith;
      released = λ x. ground arith;
    } in
    let (w, ended) =
      unbind_loop-Swept (length ex.bindings) q ex.bindings refs start (omega arith) begun in
    let s = unbind_loop (length ex.bindings) q start in
    let all : Clear q (length s.left) s.left = subst (λ n. Clear q n s.left) ended w.clear in
    let none_left = (count-Clear (is_of q) q s.left all).1 in
    let counted = w.removed_ones in
    (λ p. (count-Clear p q s.left all).0 ∙ w.others p, none_left, omega arith, w.released)
