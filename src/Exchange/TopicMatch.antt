-- ===== src/Exchange/TopicMatch.antt =====
-- src/exchange.c: the memoised matcher returns what the reference matcher returns.
use native.Mathlib.Nat.{add-mul-div_left, add-mul-mod_self_left, div-eq_of_lt, mod-eq_of_lt}
use native.Mathlib.Decide.{dec_lt}
use beaver_mq.Prelude.{
  ℕ, zero, suc, ◌+◌, ◌-◌, ◌*◌, ◌/◌, ◌%◌, ◌≤◌, ◌<◌, ◌≡◌, refl, sym, ap, ◌∙◌, inl, inr, ◌↔◌, Bool,
  true, false, ◌&&◌, ◌||◌, none, some, List, [], ◌∷◌, Bytes, str_eq, length, get_or, set, drop,
  replicate, drop-cons, drop_all, get_or-replicate, get_or-set_cases, Bool-cases, Option-cases,
  ◌==◌, if◌then◌else◌, arith,
}
use beaver_mq.Exchange.Topic.{
  Memo, word_at, cell, any_from, match_body, match_tokens, split_words, topic_match, hash_word,
  star_word,
}
use beaver_mq.Exchange.TopicSpec.{
  Matches, is_empty, any_suffix, on_cons, match_spec, match_spec_sound, match_spec_complete,
}

cell-div : (pi ki n : ℕ) → ki < n → ((pi * n + ki) / n ≡ pi) × ((pi * n + ki) % n ≡ ki)
cell-div pi ki n h =
    let e : pi * n + ki ≡ ki + n * pi = omega arith in
    (
      rw (e, add-mul-div_left ki pi {y = n} (omega arith), div-eq_of_lt h) (omega arith),
      rw (e, add-mul-mod_self_left ki n pi) (mod-eq_of_lt h),
    )

is_empty-drop :
    (key : List Bytes) (ki : ℕ) → ki ≤ length key → (ki == length key) ≡ is_empty (drop ki key)
is_empty-drop [] zero h = refl
is_empty-drop [] (suc ki) h = absurd (omega arith)
is_empty-drop (k ∷ ks) zero h = ground arith
is_empty-drop (k ∷ ks) (suc ki) h = ground (arith, is_empty-drop ks ki)

module _ (pat key : List Bytes) where
  -- what the reference matcher says of the suffixes at (pi, ki)
  abbrev answer : ℕ → ℕ → Bool
  answer pi ki = match_spec (drop pi pat) (drop ki key)

  -- Each computed cell holds the answer at its place.
  abbrev Sound : Memo → Type 0
  Sound memo =
      (c : ℕ) (r : Bool)
      → get_or memo c none ≡ some r
      → r ≡ answer (c / (length key + 1)) (c % (length key + 1))

  -- A call gave the answer, and left the memo sound.
  abbrev Answers : Bool → Bool × Memo → Type 0
  Answers b out = (out.0 ≡ b) × Sound out.1

  set-Sound :
      (memo : Memo) (pi ki : ℕ) (r : Bool)
      → ki ≤ length key
      → r ≡ answer pi ki
      → Sound memo
      → Sound (set memo (cell pat key pi ki) (some r))
  set-Sound memo pi ki r h e s c q found =
      elim (get_or-set_cases memo (cell pat key pi ki) c (some r) none) [
        | inl same ↦ s c q (sym same ∙ found)
        | inr (at, new) ↦
            let (d, m) = cell-div pi ki (length key + 1) (omega arith) in
            let value : r ≡ q = cc (sym new ∙ found) in sym value ∙ e ∙ rw (← at, d, m)
      ]

  at_end-Answers :
      (next : ℕ → Memo → Bool × Memo) (pi ki : ℕ) (memo : Memo)
      → pi ≡ length pat
      → ki ≤ length key
      → Sound memo
      → Answers (answer pi ki) (match_body pat key next pi ki memo)
  unfolding match_body match_spec
  at_end-Answers next pi ki memo e hk s =
      let test : (pi == length pat) ≡ true = ground arith in
      rw (test, drop_all pat pi e) (is_empty-drop key ki hk, s)

  module _ (next : ℕ → Memo → Bool × Memo) (pi : ℕ)
      (ih : (k : ℕ) (memo : Memo)
        → k ≤ length key
        → Sound memo
        → Answers (answer (pi + 1) k) (next k memo)) where
    any_from-Answers :
        (n k : ℕ) (memo : Memo)
        → k + n ≡ length key
        → Sound memo
        → Answers
            (any_suffix (match_spec (drop (pi + 1) pat)) (drop k key))
            (any_from pat key next (suc n) k memo)
    unfolding any_from
    any_from-Answers zero k memo e s =
        let f = match_spec (drop (pi + 1) pat) in
        let (r, s') = ih k memo (omega arith) s in
        let last : drop k key ≡ [] = drop_all key k (omega arith) in
        let only : any_suffix f (drop k key) ≡ f (drop k key) = rw last in
        elim (Bool-cases (next k memo).0) [
          | inl t ↦ rw t (sym t ∙ r ∙ sym only, s')
          | inr t ↦ rw t (sym t ∙ r ∙ sym only, s')
        ]
    any_from-Answers (suc n) k memo e s =
        let f = match_spec (drop (pi + 1) pat) in
        let (r, s') = ih k memo (omega arith) s in
        let split = drop-cons key k [] (omega arith) in
        let rest = any_suffix f (drop (k + 1) key) in
        let first : any_suffix f (drop k key) ≡ f (drop k key) || rest =
          ap (any_suffix f) split ∙ ap (λ u. f u || rest) (sym split) in
        let (r2, s2) = any_from-Answers n (k + 1) (next k memo).1 (omega arith) s' in
        elim (Bool-cases (next k memo).0) [
          | inl t ↦ rw t (sym (first ∙ ap (λ b. b || rest) (sym r ∙ t)), s')
          | inr t ↦ rw t (r2 ∙ sym (first ∙ ap (λ b. b || rest) (sym r ∙ t)), s2)
        ]

    -- A word that is not `#`, against the key's next word.
    one_word-Answers :
        (ki : ℕ) (memo : Memo)
        → ki ≤ length key
        → Sound memo
        → let p = word_at pat pi in
          Answers
            (on_cons
              (λ k r. (str_eq p star_word || str_eq p k) && match_spec (drop (pi + 1) pat) r)
              (drop ki key))
            (if ki == length key
              then (false, memo)
              else if str_eq p star_word || str_eq p (word_at key ki)
              then next (ki + 1) memo
              else (false, memo))
    one_word-Answers ki memo hk s = elim (dec_lt ki (length key)) [
      | no n ↦
          let test : (ki == length key) ≡ true = ground arith in
          rw (test, drop_all key ki (omega arith)) (refl, s)
      | yes y ↦
          let test : (ki == length key) ≡ false = ground arith in
          let p = word_at pat pi in
          rw (test, drop-cons key ki [] y)
            (elim (Bool-cases (str_eq p star_word || str_eq p (word_at key ki))) [
              | inl fits ↦ rw fits (ih (ki + 1) memo (omega arith) s)
              | inr no_fit ↦ rw no_fit (refl, s)
            ])
    ]

    inside-Answers :
        (ki : ℕ) (memo : Memo)
        → pi < length pat
        → ki ≤ length key
        → Sound memo
        → Answers (answer pi ki) (match_body pat key next pi ki memo)
    unfolding match_body match_spec
    inside-Answers ki memo p hk s =
        let test : (pi == length pat) ≡ false = ground arith in
        let rounds : length key + 1 - ki ≡ suc (length key - ki) = omega arith in
        rw (test, drop-cons pat pi [] p)
          (elim (Bool-cases (str_eq (word_at pat pi) hash_word)) [
            | inl h ↦ rw (h, rounds) (any_from-Answers (length key - ki) ki memo (omega arith) s)
            | inr n ↦ rw n (one_word-Answers ki memo hk s)
          ])

  match_tokens-Answers :
      (fuel pi ki : ℕ) (memo : Memo)
      → length pat < fuel + pi
      → pi ≤ length pat
      → ki ≤ length key
      → Sound memo
      → Answers (answer pi ki) (match_tokens pat key fuel pi ki memo)
  unfolding match_tokens
  match_tokens-Answers zero pi ki memo hf hp hk s = absurd (omega arith)
  match_tokens-Answers (suc fuel) pi ki memo hf hp hk s =
      let next = match_tokens pat key fuel (pi + 1) in
      let fresh : Answers (answer pi ki) (match_body pat key next pi ki memo) =
        elim (dec_lt pi (length pat)) [
          | no p ↦ at_end-Answers next pi ki memo (omega arith) hk s
          | yes p ↦
              inside-Answers next pi
                (λ k m h t. match_tokens-Answers fuel (pi + 1) k m (omega arith) (omega arith) h t)
                ki memo p hk s
        ] in
      elim (Option-cases (get_or memo (cell pat key pi ki) none)) [
        | inl new ↦
            rw new
              (fresh.0, set-Sound (match_body pat key next pi ki memo).1 pi ki _ hk fresh.0 fresh.1)
        | inr (r, known) ↦
            let (d, m) = cell-div pi ki (length key + 1) (omega arith) in
            rw known (s (cell pat key pi ki) r known ∙ rw (d, m), s)
      ]

-- The memoised matcher decides the meaning of topic patterns: where its memory is granted, it
-- accepts a key exactly when the key's words match the pattern's, `#` standing for any number of
-- words and `*` for one.
pub topic_match_iff :
    (pattern key : Bytes)
    → (topic_match true pattern key ≡ true) ↔ Matches (split_words pattern) (split_words key)
unfolding topic_match
topic_match_iff pattern key =
    let pat = split_words pattern in
    let ks = split_words key in
    let n = (length pat + 1) * (length ks + 1) in
    let e : (match_tokens pat ks (length pat + 1) 0 0 (replicate n none)).0 ≡ match_spec pat ks =
      (match_tokens-Answers pat ks (length pat + 1) 0 0 (replicate n none) (omega arith)
        (omega arith) (omega arith)
        (λ c r found. cc (sym (get_or-replicate n c none) ∙ found))).0 in
    (λ h. match_spec_sound pat ks (sym e ∙ h), λ m. e ∙ match_spec_complete m)
