-- ===== src/Queue/Ring.antt =====
-- The ring buffer of src/queue.c: `slots[cap]` with `head`, `tail` and `count`. An empty slot is
-- `none`, the NULL of the source. A slot takes 8 bytes, so that `cap` stays below 2 ^ 61 and none of
-- the index sums wraps.
use beaver_mq.Prelude.{
  ℕ, zero, suc, ◌+◌, ◌-◌, ◌*◌, ◌%◌, Bool, Option, none, List, [], ◌∷◌, ◌++◌, get_or, set, replicate,
  if◌then◌else◌,
}
use mathlib.Core.Option.{some}

pub record Ring {ℓ} (A : Type ℓ) : Type ℓ where
  pub slots : List (Option A)
  pub cap : ℕ
  pub head : ℕ
  pub tail : ℕ
  pub count : ℕ

-- QUEUE_INITIAL_CAP
abbrev pub initial_cap : ℕ
initial_cap = 16

module _ {ℓ} {A : Type ℓ} where
  -- the ring of `queue_new`
  unfoldable pub ring_new : Ring A
  ring_new = record {
    slots = replicate initial_cap none;
    cap = initial_cap;
    head = 0;
    tail = 0;
    count = 0;
  }

  -- `for (i = 0; i < n; i++) ns[i] = slots[(head + i) % cap];`, from `i` on
  unfoldable pub linearize : List (Option A) → ℕ → ℕ → ℕ → ℕ → List (Option A)
  linearize slots cap head i zero = []
  linearize slots cap head i (suc n) =
      get_or slots ((head + i) % cap) none ∷ linearize slots cap head (i + 1) n

  -- queue_grow, `granted` being what malloc answers. The slots past `count` are not initialised by
  -- the source and never read; they are `none` here.
  unfoldable pub ring_grow : Bool → Ring A → Bool × Ring A
  unfolding linearize
  ring_grow granted r =
      if granted
      then (
        granted,
        record {
          slots = linearize r.slots r.cap r.head 0 r.count ++ replicate (r.cap * 2 - r.count) none;
          cap = r.cap * 2;
          head = 0;
          tail = r.count;
          count = r.count;
        },
      )
      else (granted, r)

  -- `slots[tail] = m; tail = (tail + 1) % cap; count++;`
  unfoldable pub ring_push : Ring A → A → Ring A
  ring_push r m = record r {
    slots = set r.slots r.tail (some m);
    tail = (r.tail + 1) % r.cap;
    count = r.count + 1;
  }

  -- `msg = slots[head]; slots[head] = NULL; head = (head + 1) % cap; count--;` at `count > 0`
  unfoldable pub ring_pop : Ring A → Option A × Ring A
  ring_pop r = (
    get_or r.slots r.head none,
    record r { slots = set r.slots r.head none; head = (r.head + 1) % r.cap; count = r.count - 1 },
  )
