-- ===== src/HashMap/Chained.antt =====
-- src/hashmap.c: the table. A value is whatever the pointer stands for; the hash is an argument, and
-- `hash_str` under the process's secret is the source's.
use beaver_mq.Prelude.{
  ℕ, ◌+◌, ◌-◌, ◌*◌, ◌%◌, Bool, true, false, ◌&&◌, Option, none, some, List, [], ◌∷◌, Bytes, str_eq,
  length, get_or, set, replicate, ltb, ◌==◌, if◌then◌else◌,
}

pub record HashEntry {ℓ} (V : Type ℓ) : Type ℓ where
  pub key : Bytes
  pub value : V
  pub hash : ℕ

-- `nbuckets` is the length of `buckets`.
pub record HashMap {ℓ} (V : Type ℓ) : Type ℓ where
  pub buckets : List (List (HashEntry V))
  pub count : ℕ

abbrev pub initial_buckets : ℕ
initial_buckets = 16

module _ {ℓ} {V : Type ℓ} where
  unfoldable pub hashmap_new : Bool → Option (HashMap V)
  hashmap_new granted =
      if granted then some (record { buckets = replicate initial_buckets []; count = 0 }) else none

  abbrev pub is_key : Bytes → ℕ → HashEntry V → Bool
  is_key key h e = (e.hash == h) && str_eq e.key key

  abbrev pub bucket : HashMap V → ℕ → List (HashEntry V)
  bucket m h = get_or m.buckets (h % length m.buckets) []

  -- The walk along a chain.
  unfoldable pub find_in : Bytes → ℕ → List (HashEntry V) → Option V
  find_in key h [] = none
  find_in key h (e ∷ es) =
      let rest = find_in key h es in if is_key key h e then some e.value else rest

  unfoldable pub find_entry : HashMap V → Bytes → ℕ → Option V
  unfolding find_in
  find_entry m key h = find_in key h (bucket m h)

  -- `e->value = value` at the entry that the walk finds.
  unfoldable pub set_value : Bytes → ℕ → V → List (HashEntry V) → List (HashEntry V)
  set_value key h value [] = []
  set_value key h value (e ∷ es) =
      if is_key key h e then record e { value = value } ∷ es else e ∷ set_value key h value es

  -- One chain moved over: each entry goes to the front of its new chain.
  unfoldable pub move_chain :
      List (HashEntry V) → List (List (HashEntry V)) → List (List (HashEntry V))
  move_chain [] nb = nb
  move_chain (e ∷ es) nb =
      let idx = e.hash % length nb in move_chain es (set nb idx (e ∷ get_or nb idx []))

  unfoldable pub move_chains :
      List (List (HashEntry V)) → List (List (HashEntry V)) → List (List (HashEntry V))
  unfolding move_chain
  move_chains [] nb = nb
  move_chains (c ∷ cs) nb = move_chains cs (move_chain c nb)

  -- Whether it returns 0, and the table.
  unfoldable pub hashmap_resize : Bool → HashMap V → ℕ → Bool × HashMap V
  unfolding move_chains
  hashmap_resize granted m new_nbuckets =
      if granted
      then (true, record m { buckets = move_chains m.buckets (replicate new_nbuckets []) })
      else (false, m)

  -- `(double)(count + 1) > (double)nbuckets * 0.75`, exact in doubles below 2 ^ 53
  abbrev pub over_load : HashMap V → Bool
  over_load m = ltb (length m.buckets * 3) ((m.count + 1) * 4)

  -- The entry put in front of its chain, once it is allocated.
  abbrev pub added_entry : Bool → HashMap V → Bytes → V → ℕ → Bool × HashMap V
  added_entry granted m key value h =
      let idx = h % length m.buckets in
      let e : HashEntry V = record { key = key; value = value; hash = h } in
      if granted
      then (true, record { buckets = set m.buckets idx (e ∷ bucket m h); count = m.count + 1 })
      else (false, m)

  abbrev pub put_at :
      Bool → Bool → Option V → HashMap V → Bytes → V → ℕ → Bool × Option V × HashMap V
  put_at grow granted (some old) m key value h = (
    true,
    some old,
    record m {
      buckets = set m.buckets (h % length m.buckets) (set_value key h value (bucket m h));
    },
  )
  put_at grow granted none m key value h =
      let (resized, bigger) = hashmap_resize grow m (length m.buckets * 2) in
      let roomy = if over_load m then bigger else m in
      let (added, m') = added_entry granted roomy key value h in
      if over_load m && (if resized then false else true)
      then (false, none, m)
      else (added, none, m')

  abbrev pub unlinked : Bytes → ℕ → List (HashEntry V) → List (HashEntry V)
  unlinked key h [] = []
  unlinked key h (e ∷ es) = if is_key key h e then es else e ∷ unlinked key h es

  abbrev pub removed_at : Option V → HashMap V → Bytes → ℕ → Option V × HashMap V
  removed_at none m key h = (none, m)
  removed_at (some v) m key h = (
    some v,
    record {
      buckets = set m.buckets (h % length m.buckets) (unlinked key h (bucket m h));
      count = m.count - 1;
    },
  )

  module _ (hash : Bytes → ℕ) where
    unfoldable pub hashmap_get : HashMap V → Bytes → Option V
    unfolding find_entry
    hashmap_get m key = find_entry m key (hash key)

    -- The answers for the new array and for the entry come first. Returns whether it returned 0,
    -- *old, and the table.
    unfoldable pub hashmap_put : Bool → Bool → HashMap V → Bytes → V → Bool × Option V × HashMap V
    unfolding find_entry set_value hashmap_resize
    hashmap_put grow granted m key value =
        put_at grow granted (find_entry m key (hash key)) m key value (hash key)

    unfoldable pub hashmap_remove : HashMap V → Bytes → Option V × HashMap V
    unfolding find_entry
    hashmap_remove m key = removed_at (find_entry m key (hash key)) m key (hash key)
