-- ===== src/HashMap/Tests.antt =====
-- Runs of the hash map on a small table, and the theorems on it at concrete inputs.
use beaver_mq.Prelude.{ℕ, ◌≡◌, refl, true, some, [], ◌∷◌, Bytes, codes, str_eq, length, arith}
use beaver_mq.HashMap.Chained.{HashMap, find_in, move_chains, hashmap_get, hashmap_put}
use beaver_mq.HashMap.Lookup.{hashmap_get-hashmap_put}

-- Two keys of the same length collide.
abbrev by_length : Bytes → ℕ
by_length key = length key

abbrev table : HashMap ℕ
table = record {
  buckets =
      []
      ∷ (record { key = codes "b"; value = 20; hash = 1 }
          ∷ record { key = codes "a"; value = 10; hash = 1 }
          ∷ [])
      ∷ [];
  count = 2;
}

-- The third entry grows the table from two buckets to four.
grown : length (hashmap_put by_length true true table (codes "ccc") 30).2.buckets ≡ 4
unfolding hashmap_put find_in str_eq move_chains
grown = refl

put_done : (hashmap_put by_length true true table (codes "ccc") 30).0 ≡ true
unfolding hashmap_put find_in str_eq
put_done = refl

hashmap_get-hashmap_put_example :
    hashmap_get by_length (hashmap_put by_length true true table (codes "ccc") 30).2 (codes "ccc")
    ≡ some 30
hashmap_get-hashmap_put_example =
    hashmap_get-hashmap_put by_length true true table (codes "ccc") 30 (omega arith) put_done
