-- ===== src/AuthStore/RoundTrip.antt =====
-- src/authstore.c: the loops of authstore_load on tables as authstore_save_locked writes them.
use beaver_mq.Prelude.{
  ℕ, suc, ◌<◌, ◌≤◌, ◌≡◌, refl, ap, sym, ◌∙◌, Bool, true, false, ◌||◌, List, [], ◌∷◌, ◌++◌,
  append-nil, append_assoc, Bytes, str_eq_refl, All, length, ltb, if◌then◌else◌, arith,
}
use mathlib.Core.Path.{subst}
use beaver_mq.Prelude.Swap.{one_if, count}
use beaver_mq.AuthStore.Password.{authstore_hash_max}
use beaver_mq.AuthStore.State.{
  authstore_name_max, User, Perm, AuthStore, grow, is_vhost, is_user, is_perm, find_vhost,
  find_user, find_perm,
}
use beaver_mq.AuthStore.File.{put_u32}
use beaver_mq.AuthStore.Store.{
  saved, compile_row, authstore_add_vhost, authstore_add_user, authstore_set_perm,
}
use beaver_mq.AuthStore.Load.{
  Progress, reading, waiting, on_free, load_vhosts, load_users, load_perms,
}
use beaver_mq.AuthStore.Rows.{count-append}
use beaver_mq.AuthStore.Reads.{position-none}
use beaver_mq.AuthStore.Invariant.{IsVhost, IsUser, IsPerm, Unique, is_pair, fitted_whole}
use beaver_mq.AuthStore.Grants.{AllFit, plain_row, not_long, set_perm-fits}
use beaver_mq.AuthStore.Codec.{
  str_bytes, get_str-str_bytes, vhosts_bytes, users_bytes, perms_bytes, user_fields_lem,
  perm_fields_lem,
}

-- A table read so far, and a row that is not in it yet.
fresh-count :
    {A : Type 0} (p : A → Bool) (done : List A) (row : A) (left : List A)
    → p row ≡ true
    → count p (done ++ row ∷ left) ≤ 1
    → count p done ≡ 0
unfolding count
fresh-count p done row left t one = omega (arith, count-append p done (row ∷ left), ap one_if t)

grow-true : (n cap : ℕ) → (grow true n cap).0 ≡ true
unfolding grow
grow-true n cap = ground arith

shifted :
    {A : Type 0} (xs ys : List A) (row : A) (rows : List A)
    → ys ≡ xs ++ row ∷ []
    → xs ++ row ∷ rows ≡ ys ++ rows
shifted xs ys row rows e = sym (rw e (append_assoc xs (row ∷ []) rows))

or_false : (b : Bool) → b ≡ (b || false)
or_false true = refl
or_false false = refl

or_true : (b : Bool) (n : ℕ) → (b || ltb 0 (suc n)) ≡ (true || ltb 0 n)
or_true true n = refl
or_true false n = ground arith

users_bytes_cons :
    (u : User) (us : List User) (rest : Bytes)
    → users_bytes (u ∷ us) ++ rest
      ≡ str_bytes u.name ++ (str_bytes u.hash ++ (put_u32 u.tags ++ (users_bytes us ++ rest)))
users_bytes_cons u us rest = simp append_assoc refl

perms_bytes_cons :
    (p : Perm) (ps : List Perm) (rest : Bytes)
    → perms_bytes (p ∷ ps) ++ rest
      ≡ str_bytes p.user
        ++ (str_bytes p.vhost
            ++ (str_bytes p.conf
                ++ (str_bytes p.wr ++ (str_bytes p.rd ++ (perms_bytes ps ++ rest)))))
perms_bytes_cons p ps rest = simp append_assoc refl

module _ (compiles : Bytes → Bool) (io : Bool) where
  add_vhost-fresh :
      (s : AuthStore) (v : Bytes)
      → length v < authstore_name_max
      → count (is_vhost v) s.vhosts ≡ 0
      → let s' = (authstore_add_vhost true io s v).store in
        (s'.vhosts ≡ s.vhosts ++ v ∷ [])
        × (s'.users ≡ s.users)
        × (s'.perms ≡ s.perms)
        × (s'.held ≡ s.held)
        × (s'.bootstrap_completed ≡ s.bootstrap_completed)
  unfolding authstore_add_vhost find_vhost saved
  add_vhost-fresh s v h c =
      let short = not_long v authstore_name_max h in
      rw
        (
          short,
          position-none (is_vhost v) s.vhosts c,
          grow-true (length s.vhosts) s.cv,
          (fitted_whole v authstore_name_max short).0,
        )
        (refl, refl, refl, refl, refl)

  add_user-fresh :
      (s : AuthStore) (u : User)
      → IsUser u
      → count (is_user u.name) s.users ≡ 0
      → let s' = (authstore_add_user true io s u.name u.hash u.tags).store in
        (s'.vhosts ≡ s.vhosts)
        × (s'.users ≡ s.users ++ u ∷ [])
        × (s'.perms ≡ s.perms)
        × (s'.held ≡ s.held)
        × (s'.bootstrap_completed ≡ true)
  unfolding authstore_add_user find_user saved
  add_user-fresh s u h c =
      let short = not_long u.name authstore_name_max h.name in
      let hshort = not_long u.hash authstore_hash_max h.hash in
      rw
        (
          short,
          hshort,
          position-none (is_user u.name) s.users c,
          grow-true (length s.users) s.cu,
          (fitted_whole u.name authstore_name_max short).0,
          (fitted_whole u.hash authstore_hash_max hshort).0,
        )
        (refl, refl, refl, refl, refl)

  compile_row-plain :
      (p : Perm)
      → compile_row compiles (plain_row p.user p.vhost p.conf p.wr p.rd) ≡ compile_row compiles p
  unfolding compile_row
  compile_row-plain p = ground arith

  set_perm-fresh :
      (s : AuthStore) (p : Perm)
      → IsPerm compiles p
      → count (is_perm p.user p.vhost) s.perms ≡ 0
      → let s' = (authstore_set_perm compiles true io s p.user p.vhost p.conf p.wr p.rd).store in
        (s'.vhosts ≡ s.vhosts)
        × (s'.users ≡ s.users)
        × (s'.perms ≡ s.perms ++ p ∷ [])
        × (s'.held ≡ s.held)
        × (s'.bootstrap_completed ≡ s.bootstrap_completed)
  unfolding find_perm saved
  set_perm-fresh s p h c =
      let fit : AllFit p.user p.vhost p.conf p.wr p.rd = (h.user, h.vhost, h.conf, h.wr, h.rd) in
      rw
        (
          set_perm-fits compiles true io s p.user p.vhost p.conf p.wr p.rd fit,
          position-none (is_perm p.user p.vhost) s.perms c,
          grow-true (length s.perms) s.cp,
          compile_row-plain p,
          h.built,
        )
        (refl, refl, refl, refl, refl)

  on_free_lem : (s : AuthStore) (p : Progress) → s.held ≡ false → on_free s p ≡ p
  on_free_lem s p free = ap (λ b. if b then waiting s else p) free

  module _ (grants : ℕ → Bool) (granted : (n : ℕ) → grants n ≡ true) where
    load_vhosts-cons :
        (n : ℕ) (s : AuthStore) (v rest : Bytes)
        → length v < authstore_name_max
        → s.held ≡ false
        → load_vhosts compiles grants io (suc n) s (str_bytes v ++ rest)
          ≡ load_vhosts compiles grants io n (authstore_add_vhost true io s v).store rest
    unfolding load_vhosts
    load_vhosts-cons n s v rest h free =
        rw (get_str-str_bytes v rest authstore_name_max h (omega arith), granted (length s.vhosts))
          (on_free_lem s _ free)

    load_users-cons :
        (n : ℕ) (s : AuthStore) (u : User) (rest : Bytes)
        → IsUser u
        → s.held ≡ false
        → load_users compiles grants io
            (suc n)
            s
            (str_bytes u.name ++ (str_bytes u.hash ++ (put_u32 u.tags ++ rest)))
          ≡ load_users compiles grants io n
              (authstore_add_user true io s u.name u.hash u.tags).store
              rest
    unfolding load_users
    load_users-cons n s u rest h free =
        rw (user_fields_lem u rest h, granted (length s.users)) (on_free_lem s _ free)

    load_perms-cons :
        (n : ℕ) (s : AuthStore) (p : Perm) (rest : Bytes)
        → IsPerm compiles p
        → s.held ≡ false
        → load_perms compiles grants io (suc n) s (
            str_bytes p.user
            ++ (str_bytes p.vhost
                ++ (str_bytes p.conf ++ (str_bytes p.wr ++ (str_bytes p.rd ++ rest)))))
          ≡ load_perms compiles grants io n
              (authstore_set_perm compiles true io s p.user p.vhost p.conf p.wr p.rd).store
              rest
    unfolding load_perms
    load_perms-cons n s p rest h free =
        rw (perm_fields_lem compiles p rest h, granted (length s.perms)) (on_free_lem s _ free)

    pub load_vhosts-rows :
        (vs : List Bytes) (s : AuthStore) (rest : Bytes)
        → All IsVhost vs
        → Unique is_vhost (s.vhosts ++ vs)
        → s.held ≡ false
        → (s' : AuthStore) × (load_vhosts compiles grants io (length vs) s (vhosts_bytes vs ++ rest)
            ≡ reading s' rest)
          × (s'.vhosts ≡ s.vhosts ++ vs)
          × (s'.users ≡ s.users)
          × (s'.perms ≡ s.perms)
          × (s'.held ≡ false)
          × (s'.bootstrap_completed ≡ s.bootstrap_completed)
    unfolding load_vhosts
    load_vhosts-rows [] s rest a u free =
        (s, refl, sym (append-nil s.vhosts), refl, refl, free, refl)
    load_vhosts-rows (v ∷ vs) s rest (h, a) u free =
        let none_yet = fresh-count (is_vhost v) s.vhosts v vs (str_eq_refl v) (u v) in
        let next = (authstore_add_vhost true io s v).store in
        let (sv, su, sp, sh, sb) = add_vhost-fresh s v h none_yet in
        let shift = shifted s.vhosts next.vhosts v vs sv in
        let (s', e, ev, eu, ep, eh, eb) =
          load_vhosts-rows vs next rest a (subst (Unique is_vhost) shift u) (sh ∙ free) in
        (
          s',
          ap (load_vhosts compiles grants io (suc (length vs)) s)
                (append_assoc (str_bytes v) (vhosts_bytes vs) rest)
              ∙ load_vhosts-cons (length vs) s v (vhosts_bytes vs ++ rest) h free
              ∙ e,
          ev ∙ sym shift,
          eu ∙ su,
          ep ∙ sp,
          eh,
          eb ∙ sb,
        )

    pub load_users-rows :
        (us : List User) (s : AuthStore) (rest : Bytes)
        → All IsUser us
        → Unique is_user (s.users ++ us)
        → s.held ≡ false
        → (s' : AuthStore) × (load_users compiles grants io (length us) s (users_bytes us ++ rest)
            ≡ reading s' rest)
          × (s'.vhosts ≡ s.vhosts)
          × (s'.users ≡ s.users ++ us)
          × (s'.perms ≡ s.perms)
          × (s'.held ≡ false)
          × (s'.bootstrap_completed ≡ (s.bootstrap_completed || ltb 0 (length us)))
    unfolding load_users
    load_users-rows [] s rest a u free =
        (s, refl, refl, sym (append-nil s.users), refl, free, or_false s.bootstrap_completed)
    load_users-rows (x ∷ us) s rest (h, a) u free =
        let none_yet = fresh-count (is_user x.name) s.users x us (str_eq_refl x.name) (u x.name) in
        let next = (authstore_add_user true io s x.name x.hash x.tags).store in
        let (sv, su, sp, sh, sb) = add_user-fresh s x h none_yet in
        let shift = shifted s.users next.users x us su in
        let (s', e, ev, eu, ep, eh, eb) =
          load_users-rows us next rest a (subst (Unique is_user) shift u) (sh ∙ free) in
        (
          s',
          ap (load_users compiles grants io (suc (length us)) s) (users_bytes_cons x us rest)
              ∙ load_users-cons (length us) s x (users_bytes us ++ rest) h free
              ∙ e,
          ev ∙ sv,
          eu ∙ sym shift,
          ep ∙ sp,
          eh,
          eb
              ∙ ap (λ b. b || ltb 0 (length us)) sb
              ∙ sym (or_true s.bootstrap_completed (length us)),
        )

    pub load_perms-rows :
        (ps : List Perm) (s : AuthStore) (rest : Bytes)
        → All (IsPerm compiles) ps
        → Unique is_pair (s.perms ++ ps)
        → s.held ≡ false
        → (s' : AuthStore) × (load_perms compiles grants io (length ps) s (perms_bytes ps ++ rest)
            ≡ reading s' rest)
          × (s'.vhosts ≡ s.vhosts)
          × (s'.users ≡ s.users)
          × (s'.perms ≡ s.perms ++ ps)
          × (s'.held ≡ false)
          × (s'.bootstrap_completed ≡ s.bootstrap_completed)
    unfolding load_perms
    load_perms-rows [] s rest a u free = (s, refl, refl, refl, sym (append-nil s.perms), free, refl)
    load_perms-rows (x ∷ ps) s rest (h, a) u free =
        let own : is_perm x.user x.vhost x ≡ true =
          rw (str_eq_refl x.user, str_eq_refl x.vhost) refl in
        let none_yet =
          fresh-count (is_perm x.user x.vhost) s.perms x ps own (u (x.user, x.vhost)) in
        let next = (authstore_set_perm compiles true io s x.user x.vhost x.conf x.wr x.rd).store in
        let (sv, su, sp, sh, sb) = set_perm-fresh s x h none_yet in
        let shift = shifted s.perms next.perms x ps sp in
        let (s', e, ev, eu, ep, eh, eb) =
          load_perms-rows ps next rest a (subst (Unique is_pair) shift u) (sh ∙ free) in
        (
          s',
          ap (load_perms compiles grants io (suc (length ps)) s) (perms_bytes_cons x ps rest)
              ∙ load_perms-cons (length ps) s x (perms_bytes ps ++ rest) h free
              ∙ e,
          ev ∙ sv,
          eu ∙ su,
          ep ∙ sym shift,
          eh,
          eb ∙ sb,
        )
