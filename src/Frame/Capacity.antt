-- ===== src/Frame/Capacity.antt =====
-- src/frame.c, buf_reserve and its callers: growth, the sticky error, and what an append leaves.
use native.Mathlib.Nat.{pow-suc, mul_comm, mul_assoc}
use beaver_mq.Prelude.{
  add_size, ℕ, zero, suc, ◌+◌, ◌*◌, ◌/◌, ◌%◌, ◌^◌, ◌≤◌, ◌<◌, ◌≡◌, refl, sym, ap, ◌∙◌, Bool, true,
  false, ◌∷◌, [], ◌++◌, Bytes, length, length-append, append-nil, append_assoc, if◌then◌else◌, ◌==◌,
  arith,
}
use beaver_mq.Frame.Buffer.{
  Buf, grow_cap, new_cap, buf_reserve, append_reserved, put_u8, put_u16, put_u32, put_u64,
  put_bytes,
}

double_pow : (c f : ℕ) → c * 2 ^ suc f ≡ c * 2 * 2 ^ f
double_pow c f = rw (pow-suc, mul_comm (2 ^ f) 2, mul_assoc)

-- Enough doublings reach `need`.
grow_cap-ge : (fuel need newcap : ℕ) → need ≤ newcap * 2 ^ fuel → need ≤ grow_cap fuel need newcap
unfolding grow_cap
grow_cap-ge zero need newcap h = omega arith
grow_cap-ge (suc f) need newcap h =
    ground (arith, grow_cap-ge f need (newcap * 2), double_pow newcap f)

grow_cap-lt :
    (fuel need newcap : ℕ) → need < 2 ^ 64 → newcap < 2 ^ 64 → grow_cap fuel need newcap < 2 ^ 64
unfolding grow_cap
grow_cap-lt zero need newcap h k = k
grow_cap-lt (suc f) need newcap h k = ground (arith, grow_cap-lt f need (newcap * 2) h)

-- The new capacity holds `need` bytes and is a size_t: 64 rounds end the loop by its test.
pub new_cap_bounds :
    (cap need : ℕ)
    → cap < 2 ^ 64
    → need < 2 ^ 64
    → (need ≤ new_cap cap need) × (new_cap cap need < 2 ^ 64)
new_cap_bounds cap need hc hn = ground (
  arith,
  grow_cap-ge 64 need (if cap == 0 then 64 else cap),
  grow_cap-lt 64 need (if cap == 0 then 64 else cap),
)

-- What is stored fits what was allocated.
pub record IsValid (b : Buf) : Type 0 where
  pub fits : length b.bytes ≤ b.cap
  pub small : b.cap < 2 ^ 64

-- A write of `bs` to `b` that left `c`: no write out of bounds; without an error all of `bs` is
-- there; after an error nothing changes any more; and only the allocator makes an error.
pub record Appends (alloc : ℕ → Bool) (b : Buf) (bs : Bytes) (c : Buf) : Type 0 where
  pub valid : IsValid b → IsValid c
  pub written : c.error ≡ false → (b.error ≡ false) × (c.bytes ≡ b.bytes ++ bs)
  pub sticky : b.error ≡ true → c ≡ b
  pub succeeds :
      ((n : ℕ) → alloc n ≡ true)
      → b.error ≡ false
      → IsValid b
      → length b.bytes + length bs < 2 ^ 64
      → c.error ≡ false

pub Appends-refl : {alloc : ℕ → Bool} (b : Buf) → Appends alloc b [] b
Appends-refl b = record {
  valid = λ v. v;
  written = λ e. (e, sym (append-nil b.bytes));
  sticky = λ e. refl;
  succeeds = λ a e v h. e;
}

pub Appends-trans :
    {alloc : ℕ → Bool} {b c d : Buf} (xs ys : Bytes)
    → Appends alloc b xs c
    → Appends alloc c ys d
    → Appends alloc b (xs ++ ys) d
Appends-trans {alloc} {b} {c} {d} xs ys p q = record {
  valid = λ v. q.valid (p.valid v);
  written = λ e.
      let (ec, wd) = q.written e in
      let (eb, wc) = p.written ec in (eb, wd ∙ ap (λ t. t ++ ys) wc ∙ append_assoc b.bytes xs ys);
  sticky = λ e. let s = p.sticky e in q.sticky (ap Buf.error s ∙ e) ∙ s;
  succeeds = λ a e v h.
      let lens = length-append xs ys in
      let ec = p.succeeds a e v (omega arith) in
      let lc = ap length (p.written ec).1 ∙ length-append b.bytes xs in
      q.succeeds a ec (p.valid v) (omega arith);
}

suc_test : (n : ℕ) → suc n == 0 ≡ false
suc_test n = ground arith

module _ (alloc : ℕ → Bool) where
  append_reserved-Appends :
      (b : Buf) (bs : Bytes)
      → length bs < 2 ^ 64
      → Appends alloc b bs (append_reserved alloc (buf_reserve alloc b (length bs)) bs)
  unfolding buf_reserve
  append_reserved-Appends b bs h = record {
    valid = λ v. ground (
      arith,
      length-append b.bytes bs,
      new_cap_bounds b.cap (add_size (length b.bytes) (length bs)),
    );
    written = λ e. ground arith;
    sticky = λ e. ground arith;
    succeeds = λ a e v l. ground (arith, a (new_cap b.cap (add_size (length b.bytes) (length bs))));
  }

  pub put_u8-Appends : (b : Buf) (v : ℕ) → Appends alloc b (v ∷ []) (put_u8 alloc b v)
  unfolding put_u8
  put_u8-Appends b v = append_reserved-Appends b (v ∷ []) (omega arith)

  pub put_u16-Appends :
      (b : Buf) (v : ℕ) → Appends alloc b ((v / 2 ^ 8 % 256) ∷ (v % 256) ∷ []) (put_u16 alloc b v)
  unfolding put_u16
  put_u16-Appends b v = append_reserved-Appends b (_ ∷ _ ∷ []) (omega arith)

  pub put_u32-Appends :
      (b : Buf) (v : ℕ)
      → Appends alloc b
          ((v / 2 ^ 24 % 256) ∷ (v / 2 ^ 16 % 256) ∷ (v / 2 ^ 8 % 256) ∷ (v % 256) ∷ [])
          (put_u32 alloc b v)
  unfolding put_u32
  put_u32-Appends b v = append_reserved-Appends b (_ ∷ _ ∷ _ ∷ _ ∷ []) (omega arith)

  pub put_u64-Appends :
      (b : Buf) (v : ℕ)
      → Appends alloc b
          ((v / 2 ^ 56 % 256)
            ∷ (v / 2 ^ 48 % 256)
            ∷ (v / 2 ^ 40 % 256)
            ∷ (v / 2 ^ 32 % 256)
            ∷ (v / 2 ^ 24 % 256)
            ∷ (v / 2 ^ 16 % 256)
            ∷ (v / 2 ^ 8 % 256)
            ∷ (v % 256)
            ∷ [])
          (put_u64 alloc b v)
  unfolding put_u64
  put_u64-Appends b v = append_reserved-Appends b (_ ∷ _ ∷ _ ∷ _ ∷ _ ∷ _ ∷ _ ∷ _ ∷ []) (omega arith)

  pub put_bytes-Appends :
      (b : Buf) (bs : Bytes) → length bs < 2 ^ 64 → Appends alloc b bs (put_bytes alloc b bs)
  unfolding put_bytes
  put_bytes-Appends b [] h = Appends-refl b
  put_bytes-Appends b (x ∷ bs) h = rw (suc_test (length bs)) (append_reserved-Appends b (x ∷ bs) h)
