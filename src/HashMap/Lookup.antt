-- ===== src/HashMap/Lookup.antt =====
-- src/hashmap.c: what lookups find after a put and after a removal.
use beaver_mq.Prelude.{
  ℕ, ◌*◌, ◌%◌, ◌<◌, ◌≡◌, ◌≢◌, refl, sym, ap, ◌∙◌, inl, inr, Bool, true, false, ◌&&◌, Option, none,
  some, List, [], ◌∷◌, Bytes, str_eq, str_eq→eq, str_eq_refl, length, get_or, set, replicate,
  length-set, length-replicate, get_or-set_self, get_or-set_ne, ◌==◌, ==_iff, ==-self,
  if◌then◌else◌, Bool-cases, Option-cases, arith,
}
use mathlib.Core.Path.{subst}
use beaver_mq.HashMap.Chained.{
  HashEntry, HashMap, is_key, bucket, find_in, find_entry, set_value, move_chain, move_chains,
  hashmap_resize, over_load, added_entry, put_at, unlinked, hashmap_get, hashmap_put,
  hashmap_remove,
}

module _ {ℓ} {V : Type ℓ} where
  length-move_chain :
      (es : List (HashEntry V)) (nb : List (List (HashEntry V)))
      → length (move_chain es nb) ≡ length nb
  unfolding move_chain
  length-move_chain [] nb = refl
  length-move_chain (e ∷ es) nb = length-move_chain es _ ∙ length-set nb _ _

  length-move_chains : (cs nb : List (List (HashEntry V))) → length (move_chains cs nb) ≡ length nb
  unfolding move_chains
  length-move_chains [] nb = refl
  length-move_chains (c ∷ cs) nb = length-move_chains cs (move_chain c nb) ∙ length-move_chain c nb

  -- Where a chain is replaced, its own hash reads the new chain.
  bucket-set_self :
      (bs : List (List (HashEntry V))) (h : ℕ) (c : List (HashEntry V))
      → 0 < length bs
      → get_or (set bs (h % length bs) c) (h % length (set bs (h % length bs) c)) [] ≡ c
  bucket-set_self bs h c pos =
      let inside : h % length bs < length bs = omega arith in
      rw (length-set bs (h % length bs) c) (get_or-set_self bs (h % length bs) c [] inside)

  -- A replacement that reads the same for a key leaves its lookup as it was.
  bucket-set_other :
      (bs : List (List (HashEntry V))) (h h' : ℕ) (c : List (HashEntry V)) (key' : Bytes)
      → 0 < length bs
      → find_in key' h' c ≡ find_in key' h' (get_or bs (h % length bs) [])
      → find_in key' h'
          (get_or (set bs (h % length bs) c) (h' % length (set bs (h % length bs) c)) [])
        ≡ find_in key' h' (get_or bs (h' % length bs) [])
  bucket-set_other bs h h' c key' pos same =
      let n = length bs in
      let inside : h % n < n = omega arith in
      rw (length-set bs (h % n) c) (elim (Bool-cases (h % n == h' % n)) [
        | inl e ↦
            let at : h % n ≡ h' % n = (==_iff (h % n) (h' % n)).0 e in
            rw (sym at) (ap (find_in key' h') (get_or-set_self bs (h % n) c [] inside) ∙ same)
        | inr d ↦ ap (find_in key' h') (get_or-set_ne bs (h % n) (h' % n) c [] (λ at. ground arith))
      ])

  is_key_self :
      (key : Bytes) (value : V) (h : ℕ)
      → is_key key h record { key = key; value = value; hash = h } ≡ true
  is_key_self key value h = rw (==-self h, str_eq_refl key) refl

  -- An entry is at most one key's.
  is_key-other :
      (key key' : Bytes) (h h' : ℕ) (e : HashEntry V)
      → key' ≢ key
      → is_key key h e ≡ true
      → is_key key' h' e ≡ false
  is_key-other key key' h h' e diff own = elim (Bool-cases (is_key key' h' e)) [
    | inr n ↦ n
    | inl y ↦
        let a : str_eq e.key key ≡ true = ground arith in
        let b : str_eq e.key key' ≡ true = ground arith in
        absurd (diff (sym (str_eq→eq e.key key' b) ∙ str_eq→eq e.key key a))
  ]

  find_in-set_value :
      (key : Bytes) (h : ℕ) (value old : V) (es : List (HashEntry V))
      → find_in key h es ≡ some old
      → find_in key h (set_value key h value es) ≡ some value
  unfolding find_in set_value
  find_in-set_value key h value old [] found = cc
  find_in-set_value key h value old (e ∷ es) found = elim (Bool-cases (is_key key h e)) [
    | inl y ↦ rw y (rw y refl)
    | inr n ↦ rw n (
        rw n (
          find_in-set_value key h value old es
            (subst (λ b. (if b then some e.value else find_in key h es) ≡ some old) n found)))
  ]

  find_in-set_value_other :
      (key key' : Bytes) (h h' : ℕ) (value : V) (es : List (HashEntry V))
      → key' ≢ key
      → find_in key' h' (set_value key h value es) ≡ find_in key' h' es
  unfolding find_in set_value
  find_in-set_value_other key key' h h' value [] diff = refl
  find_in-set_value_other key key' h h' value (e ∷ es) diff = elim (Bool-cases (is_key key h e)) [
    | inl y ↦ let other = is_key-other key key' h h' e diff y in rw y (rw other refl)
    | inr n ↦ rw n (rw (find_in-set_value_other key key' h h' value es diff) refl)
  ]

  find_in-unlinked_other :
      (key key' : Bytes) (h h' : ℕ) (es : List (HashEntry V))
      → key' ≢ key
      → find_in key' h' (unlinked key h es) ≡ find_in key' h' es
  unfolding find_in
  find_in-unlinked_other key key' h h' [] diff = refl
  find_in-unlinked_other key key' h h' (e ∷ es) diff = elim (Bool-cases (is_key key h e)) [
    | inl y ↦ rw (y, is_key-other key key' h h' e diff y) refl
    | inr n ↦ rw n (rw (find_in-unlinked_other key key' h h' es diff) refl)
  ]

  -- An entry just added is found.
  added_entry-get :
      (granted : Bool) (m : HashMap V) (key : Bytes) (value : V) (h : ℕ)
      → 0 < length m.buckets
      → (added_entry granted m key value h).0 ≡ true
      → find_entry (added_entry granted m key value h).1 key h ≡ some value
  unfolding find_entry find_in
  added_entry-get false m key value h pos done = cc
  added_entry-get true m key value h pos done =
      let e : HashEntry V = record { key = key; value = value; hash = h } in
      ap (find_in key h) (bucket-set_self m.buckets h (e ∷ bucket m h) pos)
      ∙ rw (is_key_self key value h) refl

  resized-length :
      (grow : Bool) (m : HashMap V) (n : ℕ)
      → (hashmap_resize grow m n).0 ≡ true
      → length (hashmap_resize grow m n).1.buckets ≡ n
  unfolding hashmap_resize
  resized-length false m n done = cc
  resized-length true m n done =
      length-move_chains m.buckets (replicate n []) ∙ length-replicate n []

  resize_granted : (m : HashMap V) → (hashmap_resize true m (length m.buckets * 2)).0 ≡ true
  unfolding hashmap_resize
  resize_granted m = refl

  resize_refused : (m : HashMap V) → (hashmap_resize false m (length m.buckets * 2)).0 ≡ false
  unfolding hashmap_resize
  resize_refused m = refl

  put_at-get :
      (grow granted : Bool) (o : Option V) (m : HashMap V) (key : Bytes) (value : V) (h : ℕ)
      → 0 < length m.buckets
      → find_entry m key h ≡ o
      → (put_at grow granted o m key value h).0 ≡ true
      → find_entry (put_at grow granted o m key value h).2 key h ≡ some value
  unfolding find_entry
  put_at-get grow granted (some old) m key value h pos found done =
      ap (find_in key h) (bucket-set_self m.buckets h (set_value key h value (bucket m h)) pos)
      ∙ find_in-set_value key h value old (bucket m h) found
  put_at-get true true none m key value h pos found done =
      let bigger = (hashmap_resize true m (length m.buckets * 2)).1 in
      let sized = resized-length true m (length m.buckets * 2) (resize_granted m) in
      elim (Bool-cases (over_load m)) [
        | inl l ↦
            rw (l, resize_granted m) (added_entry-get true bigger key value h (omega arith) refl)
        | inr n ↦ rw n (added_entry-get true m key value h pos refl)
      ]
  put_at-get false true none m key value h pos found done = elim (Bool-cases (over_load m)) [
    | inl l ↦
        let failed : (put_at false true none m key value h).0 ≡ false =
          rw (l, resize_refused m) refl in
        cc
    | inr n ↦ rw n (added_entry-get true m key value h pos refl)
  ]
  put_at-get grow false none m key value h pos found done =
      let failed : (put_at grow false none m key value h).0 ≡ false =
        elim (Bool-cases (
          over_load m
          && (if (hashmap_resize grow m (length m.buckets * 2)).0 then false else true))) [
            | inl y ↦ rw y refl
            | inr n ↦ rw n refl
          ] in
      cc

  -- A put that returns 0 is seen by the next lookup of its key, whether it replaced a value, added
  -- an entry, or grew the table first. The table has at least one bucket.
  pub hashmap_get-hashmap_put :
      (hash : Bytes → ℕ) (grow granted : Bool) (m : HashMap V) (key : Bytes) (value : V)
      → 0 < length m.buckets
      → (hashmap_put hash grow granted m key value).0 ≡ true
      → hashmap_get hash (hashmap_put hash grow granted m key value).2 key ≡ some value
  unfolding hashmap_get hashmap_put
  hashmap_get-hashmap_put hash grow granted m key value pos done =
      put_at-get grow granted (find_entry m key (hash key)) m key value (hash key) pos refl done

  -- A put that neither fails nor grows the table leaves the lookup of every other key as it was. The
  -- table has at least one bucket.
  pub hashmap_get-hashmap_put_other :
      (hash : Bytes → ℕ) (grow granted : Bool) (m : HashMap V) (key key' : Bytes) (value : V)
      → 0 < length m.buckets
      → over_load m ≡ false
      → key' ≢ key
      → hashmap_get hash (hashmap_put hash grow granted m key value).2 key'
        ≡ hashmap_get hash m key'
  unfolding hashmap_get hashmap_put find_entry
  hashmap_get-hashmap_put_other hash grow granted m key key' value pos light diff =
      let h = hash key in
      let h' = hash key' in
      elim (Option-cases (find_in key h (bucket m h))) [
        | inr (old, found) ↦ rw found (
            bucket-set_other m.buckets h h' (set_value key h value (bucket m h)) key' pos
              (find_in-set_value_other key key' h h' value (bucket m h) diff))
        | inl missing ↦
            let e : HashEntry V = record { key = key; value = value; hash = h } in
            let other = is_key-other key key' h h' e diff (is_key_self key value h) in
            elim (Bool-cases granted) [
              | inl g ↦
                  rw (missing, light, g)
                    (bucket-set_other m.buckets h h' (e ∷ bucket m h) key' pos (rw other refl))
              | inr r ↦ rw (missing, light, r) refl
            ]
      ]

  -- A removal returns what a lookup of the key found, and leaves the lookup of every other key as
  -- it was. The table has at least one bucket.
  pub hashmap_remove_lem :
      (hash : Bytes → ℕ) (m : HashMap V) (key key' : Bytes)
      → 0 < length m.buckets
      → key' ≢ key
      → let (v, m') = hashmap_remove hash m key in
        (v ≡ hashmap_get hash m key) × (hashmap_get hash m' key' ≡ hashmap_get hash m key')
  unfolding hashmap_get hashmap_remove find_entry
  hashmap_remove_lem hash m key key' pos diff =
      let h = hash key in
      let h' = hash key' in
      elim (Option-cases (find_in key h (bucket m h))) [
        | inl missing ↦ rw missing (refl, refl)
        | inr (v, found) ↦ rw found (
          refl,
          bucket-set_other m.buckets h h' (unlinked key h (bucket m h)) key' pos
              (find_in-unlinked_other key key' h h' (bucket m h) diff),
        )
      ]
