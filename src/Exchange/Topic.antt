-- ===== src/Exchange/Topic.antt =====
-- src/exchange.c: splitting at dots, and the memoised matcher of topic patterns.
-- A word is its bytes; the pointers into the split buffer are the words that they lead to.
use beaver_mq.Prelude.{
  ℕ, zero, suc, ◌+◌, ◌-◌, ◌*◌, Bool, true, false, ◌||◌, Option, none, some, List, [], ◌∷◌, ◌++◌,
  Bytes, codes, str_eq, length, get_or, set, replicate, ◌==◌, if◌then◌else◌,
}

-- the loop of split_words: the word read so far, and the rest of the buffer
unfoldable pub split_from : Bytes → Bytes → List Bytes
split_from word [] = word ∷ []
split_from word (c ∷ s) =
    let rest = split_from [] s in
    let longer = split_from (word ++ c ∷ []) s in if c == b'.' then word ∷ rest else longer

unfoldable pub split_words : Bytes → List Bytes
unfolding split_from
split_words s = split_from [] s

abbrev pub hash_word : Bytes
hash_word = codes "#"

abbrev pub star_word : Bytes
star_word = codes "*"

-- A cell of `memo`: -1 is `none`.
abbrev pub Memo : Type 0
Memo = List (Option Bool)

-- pat[i], key[i]
abbrev pub word_at : List Bytes → ℕ → Bytes
word_at ws i = get_or ws i []

module _ (pat key : List Bytes) where
  -- &memo[pi * (nk + 1) + ki]
  abbrev pub cell : ℕ → ℕ → ℕ
  cell pi ki = pi * (length key + 1) + ki

  -- The loop `for (k = ki; k <= nk; k++) if (match(pi + 1, k)) { r = 1; break; }`, by the number of
  -- rounds left, over the recursive call `next`.
  unfoldable pub any_from : (ℕ → Memo → Bool × Memo) → ℕ → ℕ → Memo → Bool × Memo
  any_from next zero k memo = (false, memo)
  any_from next (suc n) k memo =
      let (r, memo') = next k memo in
      let rest = any_from next n (k + 1) memo' in if r then (true, memo') else rest

  -- `r` is stored and returned.
  abbrev pub remember : ℕ → Bool × Memo → Bool × Memo
  remember at (r, memo) = (r, set memo at (some r))

  -- What match_tokens does at a cell not yet computed, over the recursive call at `pi + 1`.
  unfoldable pub match_body : (ℕ → Memo → Bool × Memo) → ℕ → ℕ → Memo → Bool × Memo
  unfolding any_from
  match_body next pi ki memo =
      if pi == length pat
      then (ki == length key, memo)
      else if str_eq (word_at pat pi) hash_word
      then any_from next (length key + 1 - ki) ki memo
      else if ki == length key
      then (false, memo)
      else if str_eq (word_at pat pi) star_word || str_eq (word_at pat pi) (word_at key ki)
      then next (ki + 1) memo
      else (false, memo)

  abbrev pub cached : ℕ → Bool × Memo → Memo → Option Bool → Bool × Memo
  cached at fresh memo (some r) = (r, memo)
  cached at fresh memo none = remember at fresh

  -- match_tokens, by the number of pattern words left (`pi` only grows): fuel `np + 1 - pi`.
  unfoldable pub match_tokens : ℕ → ℕ → ℕ → Memo → Bool × Memo
  unfolding match_body
  match_tokens zero pi ki memo = (false, memo)
  match_tokens (suc fuel) pi ki memo =
      let fresh = match_body (match_tokens fuel (pi + 1)) pi ki memo in
      cached (cell pi ki) fresh memo (get_or memo (cell pi ki) none)

-- exchange_topic_match, `granted` being whether both splits and the memo are allocated
unfoldable pub topic_match : Bool → Bytes → Bytes → Bool
unfolding match_tokens split_words
topic_match granted pattern key =
    let pat = split_words pattern in
    let ks = split_words key in
    let memo = replicate ((length pat + 1) * (length ks + 1)) none in
    if granted then (match_tokens pat ks (length pat + 1) 0 0 memo).0 else false
