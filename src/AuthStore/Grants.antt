-- ===== src/AuthStore/Grants.antt =====
-- src/authstore.c: a permission row as authstore_set_perm builds it, and what authstore_check reads from it.
use beaver_mq.Prelude.{
  ℕ, ◌<◌, ◌≡◌, refl, ◌∙◌, ◌⊎◌, inl, inr, Bool, true, false, ◌&&◌, ◌||◌, ltb, none, List, [], ◌∷◌,
  Bytes, str_eq, str_eq→eq, length, get_or, ◌==◌, if◌then◌else◌, Bool-cases, arith,
}
use mathlib.Core.Path.{subst}
use beaver_mq.Prelude.Swap.{count}
use beaver_mq.AuthStore.State.{
  authstore_name_max, authstore_regex_max, Perm, AuthStore, too_long, grow, is_perm, find_perm,
  no_perm,
}
use beaver_mq.AuthStore.Store.{
  saved, compile_row, put_perm, authstore_set_perm, PermKind, auth_configure, auth_write, auth_read,
  pattern_of, row_allows,
}
use beaver_mq.AuthStore.Rows.{position-cases, All-set, All-append}
use beaver_mq.AuthStore.Invariant.{
  IsPerm, is_pair, IsStore, fitted_whole, Unique-set, Unique-append,
}
use beaver_mq.AuthStore.Keeps.{held-IsStore}

-- The row before its patterns are compiled.
abbrev pub plain_row : Bytes → Bytes → Bytes → Bytes → Bytes → Perm
plain_row user vhost conf wr rd = record {
  user = user;
  vhost = vhost;
  conf = conf;
  wr = wr;
  rd = rd;
  rc = none;
  rw = none;
  rr = none;
  compiled = false;
}

-- Arguments that fit, of all five.
abbrev pub AllFit : Bytes → Bytes → Bytes → Bytes → Bytes → Type 0
AllFit user vhost conf wr rd =
    (length user < authstore_name_max)
    × (length vhost < authstore_name_max)
    × (length conf < authstore_regex_max)
    × (length wr < authstore_regex_max)
    × (length rd < authstore_regex_max)

pub not_long : (s : Bytes) (n : ℕ) → length s < n → too_long s n ≡ false
unfolding too_long
not_long s n h = ground arith

module _ (compiles : Bytes → Bool) where
  -- Compiling reads the patterns and nothing else, so doing it again changes nothing.
  compile_row-compile_row :
      (p : Perm) → compile_row compiles (compile_row compiles p) ≡ compile_row compiles p
  unfolding compile_row
  compile_row-compile_row p = ground arith

  pub compile_row_keys :
      (p : Perm)
      → let q = compile_row compiles p in
        (q.user ≡ p.user) × (q.vhost ≡ p.vhost) × (q.conf ≡ p.conf) × (q.wr ≡ p.wr) × (q.rd ≡ p.rd)
  unfolding compile_row
  compile_row_keys p = ground arith

  pub compiled-IsPerm :
      (user vhost conf wr rd : Bytes)
      → AllFit user vhost conf wr rd
      → IsPerm compiles (compile_row compiles (plain_row user vhost conf wr rd))
  compiled-IsPerm user vhost conf wr rd (a, b, c, d, e) =
      let p = plain_row user vhost conf wr rd in
      let (ku, kv, kc, kw, kr) = compile_row_keys p in
      record {
        user = rw ku a;
        vhost = rw kv b;
        conf = rw kc c;
        wr = rw kw d;
        rd = rw kr e;
        built = compile_row-compile_row p;
      }

  fresh_pair :
      (row : Perm) (xs : List Perm) (k : Bytes × Bytes)
      → count (is_perm row.user row.vhost) xs ≡ 0
      → (is_pair k row ≡ false) ⊎ (count (is_pair k) xs ≡ 0)
  fresh_pair row xs (u, v) c = elim (Bool-cases (str_eq row.user u)) [
    | inr n ↦ inl (rw n refl)
    | inl e ↦ elim (Bool-cases (str_eq row.vhost v)) [
      | inr n ↦ inl (rw (e, n) refl)
      | inl f ↦
          let same_user = str_eq→eq row.user u e in
          let same_vhost = str_eq→eq row.vhost v f in
          inr (
            subst (λ y. count (is_perm u y) xs ≡ 0) same_vhost
              (subst (λ x. count (is_perm x row.vhost) xs ≡ 0) same_user c))
    ]
  ]

  pair-eq : (u v : Bytes) (row : Perm) → is_perm u v row ≡ true → (row.user ≡ u) × (row.vhost ≡ v)
  pair-eq u v row e = elim (Bool-cases (str_eq row.user u)) [
    | inr n ↦ ground arith
    | inl a ↦ (str_eq→eq row.user u a, str_eq→eq row.vhost v (ground arith))
  ]

  pub put_perm-IsStore :
      (granted io : Bool) (s : AuthStore) (row : Perm)
      → IsPerm compiles row
      → IsStore compiles s
      → IsStore compiles (put_perm compiles granted io s row (find_perm s row.user row.vhost)).store
  unfolding find_perm saved
  put_perm-IsStore granted io s row is w =
      elim (position-cases (is_perm row.user row.vhost) s.perms no_perm) [
        | inr (i, e, h, t) ↦
            let (old_user, old_vhost) = pair-eq row.user row.vhost (get_or s.perms i no_perm) t in
            rw e record {
              one_vhost = w.one_vhost;
              one_user = w.one_user;
              one_perm =
                  Unique-set is_pair s.perms i row no_perm h (λ k. rw (old_user, old_vhost) refl)
                    w.one_perm;
              vhosts = w.vhosts;
              users = w.users;
              perms = All-set (IsPerm compiles) s.perms i row is w.perms;
              completed = w.completed;
            }
        | inl (e, c) ↦ elim (Bool-cases (grow granted (length s.perms) s.cp).0) [
          | inr full ↦ rw (e, full) (held-IsStore compiles s w)
          | inl room ↦
              rw (e, room)
                record {
                  one_vhost = w.one_vhost;
                  one_user = w.one_user;
                  one_perm =
                      Unique-append is_pair s.perms row (λ k. fresh_pair row s.perms k c)
                        w.one_perm;
                  vhosts = w.vhosts;
                  users = w.users;
                  perms = All-append (IsPerm compiles) s.perms (row ∷ []) w.perms (is, tt);
                  completed = w.completed;
                }
        ]
      ]

  -- Either an argument is too long, and nothing happens, or the row is put as given.
  pub set_perm-cases :
      (granted io : Bool) (s : AuthStore) (user vhost conf wr rd : Bytes)
      → let row = compile_row compiles (plain_row user vhost conf wr rd) in
        let o = authstore_set_perm compiles granted io s user vhost conf wr rd in
        ((o.ok ≡ false) × (o.store ≡ s) × (o.written ≡ none))
        ⊎ (AllFit user vhost conf wr rd
            × (o ≡ put_perm compiles granted io s row (find_perm s user vhost)))
  unfolding authstore_set_perm
  set_perm-cases granted io s user vhost conf wr rd =
      elim (Bool-cases (too_long user authstore_name_max)) [
        | inl long ↦ inl (rw long (refl, refl, refl))
        | inr a ↦ elim (Bool-cases (too_long vhost authstore_name_max)) [
          | inl long ↦ inl (rw (a, long) (refl, refl, refl))
          | inr b ↦ elim (Bool-cases (too_long conf authstore_regex_max)) [
            | inl long ↦ inl (rw (a, b, long) (refl, refl, refl))
            | inr c ↦ elim (Bool-cases (too_long wr authstore_regex_max)) [
              | inl long ↦ inl (rw (a, b, c, long) (refl, refl, refl))
              | inr d ↦ elim (Bool-cases (too_long rd authstore_regex_max)) [
                | inl long ↦ inl (rw (a, b, c, d, long) (refl, refl, refl))
                | inr e ↦
                    let (wa, fa) = fitted_whole user authstore_name_max a in
                    let (wb, fb) = fitted_whole vhost authstore_name_max b in
                    let (wc, fc) = fitted_whole conf authstore_regex_max c in
                    let (wd, fd) = fitted_whole wr authstore_regex_max d in
                    let (we, fe) = fitted_whole rd authstore_regex_max e in
                    inr ((fa, fb, fc, fd, fe), rw (a, b, c, d, e, wa, wb, wc, wd, we) refl)
              ]
            ]
          ]
        ]
      ]

  -- Arguments that fit are put.
  pub set_perm-fits :
      (granted io : Bool) (s : AuthStore) (user vhost conf wr rd : Bytes)
      → AllFit user vhost conf wr rd
      → authstore_set_perm compiles granted io s user vhost conf wr rd
        ≡ put_perm compiles granted io s
            (compile_row compiles (plain_row user vhost conf wr rd))
            (find_perm s user vhost)
  unfolding authstore_set_perm
  set_perm-fits granted io s user vhost conf wr rd (a, b, c, d, e) =
      let la = not_long user authstore_name_max a in
      let lb = not_long vhost authstore_name_max b in
      let lc = not_long conf authstore_regex_max c in
      let ld = not_long wr authstore_regex_max d in
      let le = not_long rd authstore_regex_max e in
      rw
        (
          la,
          lb,
          lc,
          ld,
          le,
          (fitted_whole user authstore_name_max la).0,
          (fitted_whole vhost authstore_name_max lb).0,
          (fitted_whole conf authstore_regex_max lc).0,
          (fitted_whole wr authstore_regex_max ld).0,
          (fitted_whole rd authstore_regex_max le).0,
        )
        refl

  pub set_perm-IsStore :
      (granted io : Bool) (s : AuthStore) (user vhost conf wr rd : Bytes)
      → IsStore compiles s
      → IsStore compiles (authstore_set_perm compiles granted io s user vhost conf wr rd).store
  set_perm-IsStore granted io s user vhost conf wr rd w =
      elim (set_perm-cases granted io s user vhost conf wr rd) [
        | inl (_, same, _) ↦ rw same w
        | inr (fit, put) ↦
            let p = plain_row user vhost conf wr rd in
            let (ku, kv, kc, kw, kr) = compile_row_keys p in
            rw put (
              subst
                (λ x.
                  IsStore compiles
                    (put_perm compiles granted io s (compile_row compiles p)
                      (find_perm s x vhost)).store)
                ku
                (subst
                  (λ y.
                    IsStore compiles
                      (put_perm compiles granted io s (compile_row compiles p)
                        (find_perm s (compile_row compiles p).user y)).store)
                  kv
                  (put_perm-IsStore granted io s (compile_row compiles p)
                    (compiled-IsPerm user vhost conf wr rd fit) w)))
      ]

  -- What a row is checked for: its pattern of that kind, unless it is empty or the row is malformed.
  abbrev pub decides : (Bytes → Bytes → Bool) → PermKind → Bytes → Perm → Bool
  decides matches kind object row =
      row.compiled
      && (if length (pattern_of kind row) == 0 then false else matches (pattern_of kind row) object)

  row_allows-compile_row :
      (matches : Bytes → Bytes → Bool) (kind : PermKind) (object : Bytes) (p : Perm)
      → row_allows matches kind object (compile_row compiles p)
        ≡ decides matches kind object (compile_row compiles p)
  unfolding row_allows compile_row
  row_allows-compile_row matches auth_configure object p = ground arith
  row_allows-compile_row matches auth_write object p = ground arith
  row_allows-compile_row matches auth_read object p = ground arith

  -- In a row as the store keeps it, a pattern that is executed has its regex.
  pub row_allows_lem :
      (matches : Bytes → Bytes → Bool) (kind : PermKind) (object : Bytes) (row : Perm)
      → IsPerm compiles row
      → row_allows matches kind object row ≡ decides matches kind object row
  row_allows_lem matches kind object row is =
      subst (λ r. row_allows matches kind object r ≡ decides matches kind object r) is.built
        (row_allows-compile_row matches kind object row)

  -- A pattern that is empty or compiles; the three of a row together.
  abbrev acceptable : Bytes → Bool
  acceptable pat = (length pat == 0) || compiles pat

  abbrev pub well_formed : Bytes → Bytes → Bytes → Bool
  well_formed conf wr rd = (acceptable conf && acceptable wr) && acceptable rd

  -- What one of the three patterns permits.
  abbrev pub permits : (Bytes → Bytes → Bool) → Bytes → Bytes → Bytes → Bytes → Bytes → Bool
  permits matches conf wr rd pat object =
      well_formed conf wr rd && (ltb 0 (length pat) && matches pat object)

  pub compiled_lem :
      (user vhost conf wr rd : Bytes)
      → (compile_row compiles (plain_row user vhost conf wr rd)).compiled ≡ well_formed conf wr rd
  unfolding compile_row
  compiled_lem user vhost conf wr rd = ground arith

  decides-permits :
      (matches : Bytes → Bytes → Bool) (ok : Bool) (pat object : Bytes)
      → (ok && (if length pat == 0 then false else matches pat object))
        ≡ (ok && (ltb 0 (length pat) && matches pat object))
  decides-permits matches ok pat object = ground arith

  -- What the row permits, kind by kind.
  pub row_permits :
      (matches : Bytes → Bytes → Bool) (user vhost conf wr rd : Bytes)
      → AllFit user vhost conf wr rd
      → let row = compile_row compiles (plain_row user vhost conf wr rd) in
        let allows = permits matches conf wr rd in
        ((object : Bytes) → row_allows matches auth_configure object row ≡ allows conf object)
        × ((object : Bytes) → row_allows matches auth_write object row ≡ allows wr object)
        × ((object : Bytes) → row_allows matches auth_read object row ≡ allows rd object)
  row_permits matches user vhost conf wr rd fit =
      let row = compile_row compiles (plain_row user vhost conf wr rd) in
      let is = compiled-IsPerm user vhost conf wr rd fit in
      let (ku, kv, kc, kw, kr) = compile_row_keys (plain_row user vhost conf wr rd) in
      let ok = compiled_lem user vhost conf wr rd in
      let ends = decides-permits matches (well_formed conf wr rd) in
      (
        λ object.
            row_allows_lem matches auth_configure object row is ∙ rw (ok, kc) (ends conf object),
        λ object. row_allows_lem matches auth_write object row is ∙ rw (ok, kw) (ends wr object),
        λ object. row_allows_lem matches auth_read object row is ∙ rw (ok, kr) (ends rd object),
      )
