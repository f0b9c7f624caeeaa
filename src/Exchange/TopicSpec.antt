-- ===== src/Exchange/TopicSpec.antt =====
-- What a topic pattern means: the relation of the protocol, and a reference matcher that decides it.
use beaver_mq.Prelude.{
  ◌≡◌, refl, inl, inr, Bool, true, false, ◌&&◌, ◌||◌, List, [], ◌∷◌, Bytes, str_eq, str_eq_refl,
  str_eq→eq, Bool-cases, if◌then◌else◌, arith,
}
use beaver_mq.Exchange.Topic.{hash_word, star_word}

-- `#` stands for any number of words, `*` for one, any other word for itself.
pub data Matches : List Bytes → List Bytes → Type 0 where
  done : Matches [] []
  hash_none : {p : Bytes} {ps ks : List Bytes} → p ≡ hash_word → Matches ps ks → Matches (p ∷ ps) ks
  hash_more :
      {p k : Bytes} {ps ks : List Bytes}
      → p ≡ hash_word
      → Matches (p ∷ ps) ks
      → Matches (p ∷ ps) (k ∷ ks)
  star :
      {p k : Bytes} {ps ks : List Bytes} → p ≡ star_word → Matches ps ks → Matches (p ∷ ps) (k ∷ ks)
  word : {p k : Bytes} {ps ks : List Bytes} → p ≡ k → Matches ps ks → Matches (p ∷ ps) (k ∷ ks)

abbrev pub is_empty : List Bytes → Bool
is_empty [] = true
is_empty (k ∷ ks) = false

-- some suffix passes the test
abbrev pub any_suffix : (List Bytes → Bool) → List Bytes → Bool
any_suffix f [] = f []
any_suffix f (k ∷ ks) = f (k ∷ ks) || any_suffix f ks

abbrev pub on_cons : (Bytes → List Bytes → Bool) → List Bytes → Bool
on_cons f [] = false
on_cons f (k ∷ ks) = f k ks

-- The reference matcher, with no memo.
unfoldable pub match_spec : List Bytes → List Bytes → Bool
match_spec [] ks = is_empty ks
match_spec (p ∷ ps) ks =
    let rest = match_spec ps in
    if str_eq p hash_word
    then any_suffix rest ks
    else on_cons (λ k r. (str_eq p star_word || str_eq p k) && rest r) ks

any_suffix-Matches :
    (p : Bytes) (ps ks : List Bytes)
    → p ≡ hash_word
    → ((r : List Bytes) → match_spec ps r ≡ true → Matches ps r)
    → any_suffix (match_spec ps) ks ≡ true
    → Matches (p ∷ ps) ks
any_suffix-Matches p ps [] e ih h = hash_none e (ih [] h)
any_suffix-Matches p ps (k ∷ ks) e ih h = elim (Bool-cases (match_spec ps (k ∷ ks))) [
  | inl here ↦ hash_none e (ih (k ∷ ks) here)
  | inr later ↦ hash_more e (any_suffix-Matches p ps ks e ih (rw later at h))
]

one_word-Matches :
    (p k : Bytes) (ps ks : List Bytes)
    → (match_spec ps ks ≡ true → Matches ps ks)
    → (str_eq p star_word || str_eq p k) && match_spec ps ks ≡ true
    → Matches (p ∷ ps) (k ∷ ks)
one_word-Matches p k ps ks ih h =
    let rest : match_spec ps ks ≡ true = ground arith in
    elim (Bool-cases (str_eq p star_word)) [
      | inl s ↦ star (str_eq→eq p star_word s) (ih rest)
      | inr n ↦ word (str_eq→eq p k (ground arith)) (ih rest)
    ]

on_cons-Matches :
    (p : Bytes) (ps ks : List Bytes)
    → ((r : List Bytes) → match_spec ps r ≡ true → Matches ps r)
    → on_cons (λ k r. (str_eq p star_word || str_eq p k) && match_spec ps r) ks ≡ true
    → Matches (p ∷ ps) ks
on_cons-Matches p ps [] ih h = cc
on_cons-Matches p ps (k ∷ ks) ih h = one_word-Matches p k ps ks (ih ks) h

pub match_spec_sound : (ps ks : List Bytes) → match_spec ps ks ≡ true → Matches ps ks
unfolding match_spec
match_spec_sound [] [] h = done
match_spec_sound [] (k ∷ ks) h = cc
match_spec_sound (p ∷ ps) ks h = elim (Bool-cases (str_eq p hash_word)) [
  | inl e ↦ any_suffix-Matches p ps ks (str_eq→eq p hash_word e) (match_spec_sound ps) (rw e at h)
  | inr ne ↦ on_cons-Matches p ps ks (match_spec_sound ps) (rw ne at h)
]

any_suffix-here : (f : List Bytes → Bool) (ks : List Bytes) → f ks ≡ true → any_suffix f ks ≡ true
any_suffix-here f [] h = h
any_suffix-here f (k ∷ ks) h = rw h

any_suffix-later :
    (f : List Bytes → Bool) (k : Bytes) (ks : List Bytes)
    → any_suffix f ks ≡ true
    → any_suffix f (k ∷ ks) ≡ true
any_suffix-later f k ks h = ground arith

pub match_spec_complete : {ps ks : List Bytes} → Matches ps ks → match_spec ps ks ≡ true
unfolding match_spec
match_spec_complete done = refl
match_spec_complete (hash_none {p = p} {ps = ps} {ks = ks} e m) =
    let h : str_eq p hash_word ≡ true = rw e (str_eq_refl hash_word) in
    rw h (any_suffix-here (match_spec ps) ks (match_spec_complete m))
match_spec_complete (hash_more {p = p} {k = k} {ps = ps} {ks = ks} e m) =
    let h : str_eq p hash_word ≡ true = rw e (str_eq_refl hash_word) in
    let ih = match_spec_complete m in rw h (any_suffix-later (match_spec ps) k ks (rw h at ih))
match_spec_complete (star {p = p} {k = k} {ps = ps} {ks = ks} e m) =
    let n : str_eq p hash_word ≡ false = rw e (unfold str_eq in refl) in
    let same : str_eq p star_word ≡ true = rw e (str_eq_refl star_word) in
    rw (n, same, match_spec_complete m)
match_spec_complete (word {p = p} {k = k} {ps = ps} {ks = ks} e m) =
    let ih = match_spec_complete m in
    let same : str_eq p k ≡ true = rw e (str_eq_refl k) in
    elim (Bool-cases (str_eq p hash_word)) [
      | inl h ↦ rw h (any_suffix-later (match_spec ps) k ks (any_suffix-here (match_spec ps) ks ih))
      | inr n ↦ rw (n, same, ih) (ground arith)
    ]
