-- ===== src/AuthStore/Access.antt =====
-- src/authstore.c: what users may do after permissions and users change.
use beaver_mq.Prelude.{
  ◌≡◌, ◌≢◌, refl, sym, ◌∙◌, ◌⊎◌, inl, inr, Bool, true, false, none, some, [], Bytes, str_eq,
  str_eq→eq, str_eq_refl, length, get_or, Bool-cases, arith,
}
use beaver_mq.AuthStore.Password.{hash_matches}
use beaver_mq.AuthStore.State.{
  Perm, AuthStore, grow, is_vhost, is_user, is_perm, find_vhost, find_user, find_perm, no_user,
  no_perm, is_of_either, drop_perms_matching, drop_loop, position,
}
use beaver_mq.AuthStore.Store.{
  saved, compile_row, authstore_del_vhost, authstore_del_user, authstore_set_perm, is_found,
  can_access_vhost, authstore_verify, PermKind, auth_configure, auth_write, auth_read,
  authstore_check, row_allows,
}
use beaver_mq.AuthStore.Rows.{position-cases}
use beaver_mq.AuthStore.Invariant.{IsStore}
use beaver_mq.AuthStore.Grants.{
  plain_row, AllFit, compile_row_keys, set_perm-fits, well_formed, permits, compiled_lem,
  row_permits,
}
use beaver_mq.AuthStore.Reads.{
  reads-set, reads-append, reads-set_other, reads-append_other, reads-swap_remove, swap_remove-gone,
  reads-drop_loop, drop_loop-gone,
}

-- A different name's test fails on a row that passes.
other_name : (a b x : Bytes) → a ≢ b → str_eq x a ≡ true → str_eq x b ≡ false
other_name a b x ne e = elim (Bool-cases (str_eq x b)) [
  | inl f ↦ absurd (ne (sym (str_eq→eq x a e) ∙ str_eq→eq x b f))
  | inr n ↦ n
]

of_user :
    (user v : Bytes) (x : Perm) → is_perm user v x ≡ true → is_of_either (some user) none x ≡ true
of_user user v x e = ground arith

of_other :
    (user other v : Bytes) (x : Perm)
    → user ≢ other
    → is_of_either (some user) none x ≡ true
    → is_perm other v x ≡ false
of_other user other v x ne e =
    let not_other = other_name user other x.user ne (ground arith) in rw not_other refl

of_vhost :
    (vhost u : Bytes) (x : Perm)
    → is_perm u vhost x ≡ true
    → is_of_either none (some vhost) x ≡ true
of_vhost vhost u x e = ground arith

of_other_vhost :
    (vhost other u : Bytes) (x : Perm)
    → vhost ≢ other
    → is_of_either none (some vhost) x ≡ true
    → is_perm u other x ≡ false
of_other_vhost vhost other u x ne e =
    let not_other = other_name vhost other x.vhost ne e in ground arith

other_pair :
    (user vhost u v : Bytes) (x : Perm)
    → (u ≢ user) ⊎ (v ≢ vhost)
    → is_perm user vhost x ≡ true
    → is_perm u v x ≡ false
other_pair user vhost u v x (inl ne) e =
    let not_other = other_name user u x.user (λ s. ne (sym s)) (ground arith) in ground arith
other_pair user vhost u v x (inr ne) e =
    let not_other = other_name vhost v x.vhost (λ s. ne (sym s)) (ground arith) in ground arith

module _ (compiles : Bytes → Bool) where
  -- In a store that keeps its invariant, deleting a user that exists leaves no row of the user and no permission on any virtual host, so that every
  -- check and every password is refused. For every other user, the passwords accepted and the checks
  -- stay as they were.
  pub authstore_del_user_lem :
      (matches : Bytes → Bytes → Bool) (io granted : Bool) (s : AuthStore) (user : Bytes)
      → IsStore compiles s
      → is_found (find_user s user) ≡ true
      → let s' = (authstore_del_user io s user).store in
        (find_user s' user ≡ none)
        × ((password : Bytes) → authstore_verify granted s' user password ≡ false)
        × ((v : Bytes) → can_access_vhost s' user v ≡ false)
        × ((v object : Bytes) (kind : PermKind)
            → authstore_check matches s' user v kind object ≡ false)
        × ((other password : Bytes)
            → user ≢ other
            → authstore_verify granted s' other password
              ≡ authstore_verify granted s other password)
        × ((other v object : Bytes) (kind : PermKind)
            → user ≢ other
            → authstore_check matches s' other v kind object
              ≡ authstore_check matches s other v kind object)
  unfolding authstore_del_user saved drop_perms_matching find_user find_perm can_access_vhost
      authstore_check authstore_verify
  authstore_del_user_lem matches io granted s user w found =
      elim (position-cases (is_user user) s.users no_user) [
        | inl (e, c) ↦ absurd (ground arith)
        | inr (i, e, h, t) ↦
            let left =
              (drop_loop (length s.perms) (is_of_either (some user) none) no_perm (0, s.perms)).1 in
            let gone : (v : Bytes) → position (is_perm user v) left ≡ none = λ v.
              drop_loop-gone (is_of_either (some user) none) (is_perm user v) s.perms no_perm
                (λ x. of_user user v x) in
            let left_users =
              swap_remove-gone (is_user user) s.users i no_user h t (w.one_user user) in
            rw e (
              left_users,
              λ password. rw left_users refl,
              λ v. rw (gone v) refl,
              λ v object kind. rw (gone v) refl,
              λ other password ne.
                  reads-swap_remove (is_user other) (λ row. hash_matches granted row.hash password)
                    s.users i no_user h (other_name user other _ ne t) (w.one_user other),
              λ other v object kind ne.
                  reads-drop_loop (is_of_either (some user) none) (is_perm other v)
                    (row_allows matches kind object) s.perms no_perm
                    (λ x. of_other user other v x ne) (w.one_perm (other, v)),
            )
      ]

  -- Deleting a virtual host that exists leaves no row of it and no permission on it, and changes no check on another
  -- virtual host.
  pub authstore_del_vhost_lem :
      (matches : Bytes → Bytes → Bool) (io : Bool) (s : AuthStore) (vhost : Bytes)
      → IsStore compiles s
      → is_found (find_vhost s vhost) ≡ true
      → let s' = (authstore_del_vhost io s vhost).store in
        (find_vhost s' vhost ≡ none)
        × ((u : Bytes) → can_access_vhost s' u vhost ≡ false)
        × ((u object : Bytes) (kind : PermKind)
            → authstore_check matches s' u vhost kind object ≡ false)
        × ((u other object : Bytes) (kind : PermKind)
            → vhost ≢ other
            → authstore_check matches s' u other kind object
              ≡ authstore_check matches s u other kind object)
  unfolding authstore_del_vhost saved drop_perms_matching find_vhost find_perm can_access_vhost
      authstore_check
  authstore_del_vhost_lem matches io s vhost w found =
      elim (position-cases (is_vhost vhost) s.vhosts []) [
        | inl (e, c) ↦ absurd (ground arith)
        | inr (i, e, h, t) ↦
            let left =
              (drop_loop (length s.perms) (is_of_either none (some vhost)) no_perm
                (0, s.perms)).1 in
            let gone : (u : Bytes) → position (is_perm u vhost) left ≡ none = λ u.
              drop_loop-gone (is_of_either none (some vhost)) (is_perm u vhost) s.perms no_perm
                (λ x. of_vhost vhost u x) in
            rw e (
              swap_remove-gone (is_vhost vhost) s.vhosts i [] h t (w.one_vhost vhost),
              λ u. rw (gone u) refl,
              λ u object kind. rw (gone u) refl,
              λ u other object kind ne.
                  reads-drop_loop (is_of_either none (some vhost)) (is_perm u other)
                    (row_allows matches kind object) s.perms no_perm
                    (λ x. of_other_vhost vhost other u x ne) (w.one_perm (u, other)),
            )
      ]

  -- In a store that keeps its invariant, arguments that fit, for which there is room, put one row: from then on a check of that user on that virtual host
  -- accepts what the pattern of its kind matches, and refuses everything when this pattern is empty or any of the three is
  -- malformed, which the result tells. No other user's check, and none on another virtual host, changes.
  pub authstore_set_perm_lem :
      (matches : Bytes → Bytes → Bool) (granted io : Bool) (s : AuthStore)
      (user vhost conf wr rd : Bytes)
      → IsStore compiles s
      → AllFit user vhost conf wr rd
      → (grow granted (length s.perms) s.cp).0 ≡ true
      → let o = authstore_set_perm compiles granted io s user vhost conf wr rd in
        let allows = permits compiles matches conf wr rd in
        (o.ok ≡ well_formed compiles conf wr rd)
        × ((object : Bytes)
            → authstore_check matches o.store user vhost auth_configure object ≡ allows conf object)
        × ((object : Bytes)
            → authstore_check matches o.store user vhost auth_write object ≡ allows wr object)
        × ((object : Bytes)
            → authstore_check matches o.store user vhost auth_read object ≡ allows rd object)
        × ((u v object : Bytes) (kind : PermKind)
            → (u ≢ user) ⊎ (v ≢ vhost)
            → authstore_check matches o.store u v kind object
              ≡ authstore_check matches s u v kind object)
  unfolding find_perm saved authstore_check
  authstore_set_perm_lem matches granted io s user vhost conf wr rd w fit room =
      let row = compile_row compiles (plain_row user vhost conf wr rd) in
      let (ku, kv, kc, kw, kr) = compile_row_keys compiles (plain_row user vhost conf wr rd) in
      let own : is_perm user vhost row ≡ true =
        rw (ku, kv, str_eq_refl user, str_eq_refl vhost) refl in
      let put = set_perm-fits compiles granted io s user vhost conf wr rd fit in
      let ok = compiled_lem compiles user vhost conf wr rd in
      let (configures, writes, reads) = row_permits compiles matches user vhost conf wr rd fit in
      elim (position-cases (is_perm user vhost) s.perms no_perm) [
        | inr (i, e, h, t) ↦
            let set_reads = λ (kind : PermKind) (object : Bytes).
              reads-set (is_perm user vhost) (row_allows matches kind object) s.perms i row no_perm
                e h own in
            rw (put, e)
              (
                ok,
                λ object. set_reads auth_configure object ∙ configures object,
                λ object. set_reads auth_write object ∙ writes object,
                λ object. set_reads auth_read object ∙ reads object,
                λ u v object kind ne.
                    reads-set_other (is_perm u v) (row_allows matches kind object) s.perms i row
                      no_perm h (other_pair user vhost u v (get_or s.perms i no_perm) ne t)
                      (other_pair user vhost u v row ne own) (w.one_perm (u, v)),
              )
        | inl (e, c) ↦
            let added_reads = λ (kind : PermKind) (object : Bytes).
              reads-append (is_perm user vhost) (row_allows matches kind object) s.perms row no_perm
                e own in
            rw (put, e, room)
              (
                ok,
                λ object. added_reads auth_configure object ∙ configures object,
                λ object. added_reads auth_write object ∙ writes object,
                λ object. added_reads auth_read object ∙ reads object,
                λ u v object kind ne.
                    reads-append_other (is_perm u v) (row_allows matches kind object) s.perms row
                      no_perm (other_pair user vhost u v row ne own) (w.one_perm (u, v)),
              )
      ]
