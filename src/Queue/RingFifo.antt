-- ===== src/Queue/RingFifo.antt =====
-- The ring buffer of src/queue.c holds a sequence: what each operation does to it.
use native.Mathlib.Nat.{mod-add-mod, mod-eq_of_lt, mod-eq-sub-mod}
use native.Mathlib.Numerals.{add-one}
use native.Mathlib.Decide.{dec_lt}
use beaver_mq.Prelude.{
  ℕ, zero, suc, ◌+◌, ◌-◌, ◌*◌, ◌%◌, ◌≤◌, ◌<◌, ◌≡◌, refl, sym, ap, ap₂, ◌∙◌, ◌≢◌, ◌⊎◌, inl, inr,
  append_assoc, true, Option, none, some, List, [], ◌∷◌, ◌++◌, map, length, length-append,
  length-replicate, length-set, get_or, set, drop, replicate, get_or-set_self, get_or-set_ne,
  get_or-append, arith,
}
use beaver_mq.Queue.Ring.{Ring, ring_new, linearize, ring_grow, ring_push, ring_pop}

-- An index that has gone round at most once.
mod_once : (a c : ℕ) → a < c + c → ((a < c) × (a % c ≡ a)) ⊎ ((c ≤ a) × (a % c ≡ a - c))
mod_once a c h = elim (dec_lt a c) [
  | yes p ↦ inl (p, mod-eq_of_lt p)
  | no p ↦ inr (
    omega arith,
    mod-eq-sub-mod {n = a} {m = c} (omega arith) ∙ mod-eq_of_lt {n = a - c} {m = c} (omega arith),
  )
]

-- Two live offsets lie in different slots.
slots_differ : (c h k m : ℕ) → h < c → k < m → m < c → (h + m) % c ≢ (h + k) % c
slots_differ c h k m hh km mc =
    let one = mod_once (h + k) c (omega arith) in
    let two = mod_once (h + m) c (omega arith) in λ e. omega arith

module _ {ℓ} {A : Type ℓ} where
  -- The ring is well formed and holds exactly the sequence `xs`, oldest first.
  pub record Holds (r : Ring A) (xs : List A) : Type ℓ where
    pub size : length r.slots ≡ r.cap
    pub head_in : r.head < r.cap
    pub counted : r.count ≡ length xs
    pub room : r.count ≤ r.cap
    pub tail_at : r.tail ≡ (r.head + r.count) % r.cap
    pub live : linearize r.slots r.cap r.head 0 r.count ≡ map some xs

  linearize-snoc :
      (s : List (Option A)) (c h i n : ℕ)
      → linearize s c h i (suc n) ≡ linearize s c h i n ++ get_or s ((h + (i + n)) % c) none ∷ []
  unfolding linearize
  linearize-snoc s c h i zero =
      let e : i ≡ i + 0 = omega arith in ap (λ k. get_or s ((h + k) % c) none ∷ []) e
  linearize-snoc s c h i (suc n) =
      let e : i + 1 + n ≡ i + suc n = omega arith in
      ap (λ t. get_or s ((h + i) % c) none ∷ t)
        (linearize-snoc s c h (i + 1) n
          ∙ ap (λ k. linearize s c h (i + 1) n ++ get_or s ((h + k) % c) none ∷ []) e)

  -- A write to a slot outside the window leaves the window.
  linearize-set :
      (s : List (Option A)) (c h i n j : ℕ) (v : Option A)
      → ((k : ℕ) → i ≤ k → k < i + n → j ≢ (h + k) % c)
      → linearize (set s j v) c h i n ≡ linearize s c h i n
  unfolding linearize
  linearize-set s c h i zero j v apart = refl
  linearize-set s c h i (suc n) j v apart =
      ap₂ ◌∷◌ (get_or-set_ne s j ((h + i) % c) v none (apart i (omega arith) (omega arith)))
        (linearize-set s c h (i + 1) n j v (λ k p q. apart k (omega arith) (omega arith)))

  -- The window behind the head is the window from the next slot on.
  linearize-shift :
      (s : List (Option A)) (c h i n : ℕ)
      → linearize s c ((h + 1) % c) i n ≡ linearize s c h (i + 1) n
  unfolding linearize
  linearize-shift s c h i zero = refl
  linearize-shift s c h i (suc n) =
      let e : h + 1 + i ≡ h + (i + 1) = omega arith in
      ap₂ ◌∷◌ (ap (λ k. get_or s k none) (mod-add-mod (h + 1) c i ∙ ap (λ k. k % c) e))
        (linearize-shift s c h (i + 1) n)

  length-linearize : (s : List (Option A)) (c h i n : ℕ) → length (linearize s c h i n) ≡ n
  unfolding linearize
  length-linearize s c h i zero = refl
  length-linearize s c h i (suc n) = ap suc (length-linearize s c h (i + 1) n)

  -- From index 0, without going round, the window is the array.
  linearize-straight :
      (pre xs junk : List (Option A)) (c : ℕ)
      → length pre + length xs ≤ c
      → linearize (pre ++ (xs ++ junk)) c 0 (length pre) (length xs) ≡ xs
  unfolding linearize
  linearize-straight pre [] junk c h = refl
  linearize-straight pre (x ∷ xs) junk c h =
      let here : (0 + length pre) % c ≡ length pre =
        omega (arith, mod-eq_of_lt {n = 0 + length pre} {m = c} (omega arith)) in
      let next : length pre + 1 ≡ length (pre ++ x ∷ []) = sym (length-append pre (x ∷ [])) in
      let shift : pre ++ x ∷ (xs ++ junk) ≡ (pre ++ x ∷ []) ++ (xs ++ junk) =
        sym (append_assoc pre (x ∷ []) (xs ++ junk)) in
      ap₂ ◌∷◌
        (ap (λ k. get_or (pre ++ x ∷ (xs ++ junk)) k none) here
          ∙ get_or-append pre (x ∷ (xs ++ junk)) none)
        (ap₂ (λ b k. linearize b c 0 k (length xs)) shift next
          ∙ linearize-straight (pre ++ x ∷ []) xs junk c
              (omega (arith, length-append pre (x ∷ []))))

  length-map : (xs : List A) → length (map {B = Option A} some xs) ≡ length xs
  length-map [] = refl
  length-map (x ∷ xs) = ap suc (length-map xs)

  map-snoc :
      (xs : List A) (m : A) → map {B = Option A} some xs ++ some m ∷ [] ≡ map some (xs ++ m ∷ [])
  map-snoc [] m = refl
  map-snoc (x ∷ xs) m = ap (λ t. some x ∷ t) (map-snoc xs m)

  -- A fresh ring is empty.
  pub ring_new-Holds : Holds ring_new []
  unfolding ring_new linearize
  ring_new-Holds = record {
    size = refl;
    head_in = omega arith;
    counted = refl;
    room = omega arith;
    tail_at = refl;
    live = refl;
  }

  module _ {r : Ring A} {xs : List A} (v : Holds r xs) where
    open v use {size, head_in, counted, room, tail_at, live}

    -- Growing keeps the contents and makes room; refused, it changes nothing.
    pub ring_grow-Holds : Holds (ring_grow true r).1 xs
    unfolding ring_grow
    ring_grow-Holds =
        let ys = linearize r.slots r.cap r.head 0 r.count in
        let len : length ys ≡ r.count = length-linearize r.slots r.cap r.head 0 r.count in
        record {
          size = omega (
            arith,
            len,
            length-append ys (replicate (r.cap * 2 - r.count) none),
            length-replicate {A = Option A} (r.cap * 2 - r.count) none,
          );
          head_in = omega arith;
          counted = counted;
          room = omega arith;
          tail_at = omega (arith, mod-eq_of_lt {n = 0 + r.count} {m = r.cap * 2} (omega arith));
          live =
              let buf = ys ++ replicate (r.cap * 2 - r.count) none in
              ap (λ k. linearize buf (r.cap * 2) 0 0 k) (sym len)
              ∙ linearize-straight [] ys (replicate (r.cap * 2 - r.count) none) (r.cap * 2)
                  (omega arith)
              ∙ live;
        }

    push_tail : (r.tail + 1) % r.cap ≡ (r.head + (r.count + 1)) % r.cap
    push_tail =
        let e : r.head + r.count + 1 ≡ r.head + (r.count + 1) = omega arith in
        rw (tail_at, mod-add-mod (r.head + r.count) r.cap 1, e)

    push_live :
        (m : A)
        → r.count < r.cap
        → linearize (set r.slots r.tail (some m)) r.cap r.head 0 (r.count + 1)
          ≡ map some (xs ++ m ∷ [])
    push_live m free =
        let s' = set r.slots r.tail (some m) in
        let z : 0 + r.count ≡ r.count = omega arith in
        let at : (r.head + (0 + r.count)) % r.cap ≡ r.tail =
          ap (λ k. (r.head + k) % r.cap) z ∙ sym tail_at in
        let in_range : r.tail < length r.slots = omega arith in
        let apart : (k : ℕ) → 0 ≤ k → k < 0 + r.count → r.tail ≢ (r.head + k) % r.cap = λ k p q e.
          slots_differ r.cap r.head k r.count head_in (omega arith) free (sym tail_at ∙ e) in
        let last : get_or s' ((r.head + (0 + r.count)) % r.cap) none ≡ some m =
          ap (λ k. get_or s' k none) at ∙ get_or-set_self r.slots r.tail (some m) none in_range in
        let kept = linearize-set r.slots r.cap r.head 0 r.count r.tail (some m) apart ∙ live in
        ap (linearize s' r.cap r.head 0) (add-one r.count)
        ∙ linearize-snoc s' r.cap r.head 0 r.count
        ∙ ap₂ (λ a b. a ++ b ∷ []) kept last
        ∙ map-snoc xs m

    -- A push with room left puts the message behind the others.
    pub ring_push-Holds : (m : A) → r.count < r.cap → Holds (ring_push r m) (xs ++ m ∷ [])
    unfolding ring_push
    ring_push-Holds m free = record {
      size = length-set r.slots r.tail (some m) ∙ size;
      head_in = head_in;
      counted = omega (arith, length-append xs (m ∷ []));
      room = omega arith;
      tail_at = push_tail;
      live = push_live m free;
    }

  -- A pop takes the oldest message, and leaves the others in order.
  pub ring_pop-Holds :
      {r : Ring A} {x : A} {xs : List A}
      → Holds r (x ∷ xs)
      → ((ring_pop r).0 ≡ some x) × Holds (ring_pop r).1 xs
  unfolding ring_pop linearize
  ring_pop-Holds {r} {x} {xs} v =
      let s = r.slots in
      let n = r.count - 1 in
      let one : r.count ≡ suc n = omega (arith, v.counted) in
      let whole = ap (linearize s r.cap r.head 0) (sym one) ∙ v.live in
      let home : (r.head + 0) % r.cap ≡ r.head =
        omega (arith, mod-eq_of_lt {n = r.head + 0} {m = r.cap} (omega (arith, v.head_in))) in
      let apart : (k : ℕ) → 1 ≤ k → k < 1 + n → r.head ≢ (r.head + k) % r.cap = λ k p q e.
        slots_differ r.cap r.head 0 k v.head_in (omega arith) (omega (arith, v.room))
          (sym e ∙ sym home) in
      let e : r.head + 1 + n ≡ r.head + r.count = omega arith in
      (
        ap (λ k. get_or s k none) (sym home) ∙ ap (λ l. get_or l 0 none) whole,
        record {
          size = length-set s r.head none ∙ v.size;
          head_in = omega (arith, v.head_in);
          counted = omega (arith, v.counted);
          room = omega (arith, v.room);
          tail_at = v.tail_at ∙ sym (mod-add-mod (r.head + 1) r.cap n ∙ ap (λ k. k % r.cap) e);
          live =
              linearize-shift (set s r.head none) r.cap r.head 0 n
              ∙ linearize-set s r.cap r.head 1 n r.head none apart
              ∙ ap (drop 1) whole;
        },
      )
