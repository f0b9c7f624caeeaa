-- ===== src/AuthStore/Keeps.antt =====
-- src/authstore.c: every operation keeps the store's invariant, and the bootstrap window stays shut.
use beaver_mq.Prelude.{
  ℕ, ◌^◌, ◌<◌, ◌≡◌, refl, ap, sym, ◌⊎◌, inl, inr, Bool, true, false, Option, none, some, List, [],
  ◌∷◌, Bytes, str_eq, str_eq→eq, length, get_or, if◌then◌else◌, Bool-cases, arith,
}
use beaver_mq.Prelude.Swap.{count}
use mathlib.Core.Path.{subst}
use beaver_mq.AuthStore.Password.{authstore_hash_max}
use beaver_mq.AuthStore.State.{
  authstore_name_max, User, AuthStore, too_long, grow, is_vhost, is_user, is_perm, find_vhost,
  find_user, find_perm, no_user, no_perm, is_of_either, drop_perms_matching,
}
use beaver_mq.AuthStore.Store.{
  saved, authstore_add_vhost, authstore_del_vhost, authstore_add_user, authstore_del_user,
  authstore_clear_perm,
}
use beaver_mq.AuthStore.Rows.{
  position-cases, All-set, All-append, All-swap_remove, count-apart, count-both, drop_loop_lem,
}
use beaver_mq.AuthStore.Invariant.{
  IsVhost, IsUser, IsPerm, Unique, is_pair, IsStore, fitted_whole, Unique-swap_remove, Unique-set,
  Unique-append,
}

-- Rows that are dropped take nothing else with them.
pub drop_perms_matching-Unique :
    (s : AuthStore) (u v : Option Bytes)
    → Unique is_pair s.perms
    → Unique is_pair (drop_perms_matching s u v).perms
unfolding drop_perms_matching
drop_perms_matching-Unique s u v one k =
    let (gone, others, all) = drop_loop_lem (is_of_either u v) no_perm s.perms in
    let before = one k in
    let kept = others (is_pair k) in
    let same = count-apart (is_pair k) (is_of_either u v) _ gone in
    let fewer = count-both (is_pair k) (λ x. if is_of_either u v x then false else true) s.perms in
    omega arith

drop_perms_matching-IsStore :
    (compiles : Bytes → Bool) (s : AuthStore) (u v : Option Bytes)
    → IsStore compiles s
    → IsStore compiles (drop_perms_matching s u v)
unfolding drop_perms_matching
drop_perms_matching-IsStore compiles s u v w = record {
  one_vhost = w.one_vhost;
  one_user = w.one_user;
  one_perm = drop_perms_matching-Unique s u v w.one_perm;
  vhosts = w.vhosts;
  users = w.users;
  perms = (drop_loop_lem (is_of_either u v) no_perm s.perms).2 (IsPerm compiles) w.perms;
  completed = w.completed;
}

module _ (compiles : Bytes → Bool) where
  pub del_vhost-IsStore :
      (io : Bool) (s : AuthStore) (vhost : Bytes)
      → IsStore compiles s
      → IsStore compiles (authstore_del_vhost io s vhost).store
  unfolding authstore_del_vhost find_vhost saved
  del_vhost-IsStore io s vhost w = elim (position-cases (is_vhost vhost) s.vhosts []) [
    | inl (e, c) ↦ rw e w
    | inr (i, e, h, t) ↦ rw e (
        drop_perms_matching-IsStore compiles _ none (some vhost) record {
          one_vhost = Unique-swap_remove is_vhost s.vhosts i [] h w.one_vhost;
          one_user = w.one_user;
          one_perm = w.one_perm;
          vhosts = All-swap_remove IsVhost s.vhosts i [] h w.vhosts;
          users = w.users;
          perms = w.perms;
          completed = w.completed;
        })
  ]

  pub del_user-IsStore :
      (io : Bool) (s : AuthStore) (user : Bytes)
      → IsStore compiles s
      → IsStore compiles (authstore_del_user io s user).store
  unfolding authstore_del_user find_user saved
  del_user-IsStore io s user w = elim (position-cases (is_user user) s.users no_user) [
    | inl (e, c) ↦ rw e w
    | inr (i, e, h, t) ↦ rw e (
        drop_perms_matching-IsStore compiles _ (some user) none record {
          one_vhost = w.one_vhost;
          one_user = Unique-swap_remove is_user s.users i no_user h w.one_user;
          one_perm = w.one_perm;
          vhosts = w.vhosts;
          users = All-swap_remove IsUser s.users i no_user h w.users;
          perms = w.perms;
          completed = λ left. w.completed (omega arith);
        })
  ]

  pub clear_perm-IsStore :
      (io : Bool) (s : AuthStore) (user vhost : Bytes)
      → IsStore compiles s
      → IsStore compiles (authstore_clear_perm io s user vhost).store
  unfolding authstore_clear_perm find_perm saved
  clear_perm-IsStore io s user vhost w =
      elim (position-cases (is_perm user vhost) s.perms no_perm) [
        | inl (e, c) ↦ rw e w
        | inr (i, e, h, t) ↦ rw e record {
          one_vhost = w.one_vhost;
          one_user = w.one_user;
          one_perm = Unique-swap_remove is_pair s.perms i no_perm h w.one_perm;
          vhosts = w.vhosts;
          users = w.users;
          perms = All-swap_remove (IsPerm compiles) s.perms i no_perm h w.perms;
          completed = w.completed;
        }
      ]

  pub held-IsStore :
      (s : AuthStore) → IsStore compiles s → IsStore compiles (record s { held = true })
  held-IsStore s w = record {
    one_vhost = w.one_vhost;
    one_user = w.one_user;
    one_perm = w.one_perm;
    vhosts = w.vhosts;
    users = w.users;
    perms = w.perms;
    completed = w.completed;
  }

  -- A new name's look-ups find no row of before.
  fresh_name :
      (vhost : Bytes) (xs : List Bytes) (k : Bytes)
      → count (is_vhost vhost) xs ≡ 0
      → (is_vhost k vhost ≡ false) ⊎ (count (is_vhost k) xs ≡ 0)
  fresh_name vhost xs k c = elim (Bool-cases (str_eq vhost k)) [
    | inl e ↦ inr (subst (λ x. count (is_vhost x) xs ≡ 0) (str_eq→eq vhost k e) c)
    | inr n ↦ inl n
  ]

  pub add_vhost-IsStore :
      (granted io : Bool) (s : AuthStore) (vhost : Bytes)
      → IsStore compiles s
      → IsStore compiles (authstore_add_vhost granted io s vhost).store
  unfolding authstore_add_vhost find_vhost saved
  add_vhost-IsStore granted io s vhost w = elim (Bool-cases (too_long vhost authstore_name_max)) [
    | inl long ↦ rw long w
    | inr short ↦
        let (whole, fit) = fitted_whole vhost authstore_name_max short in
        elim (position-cases (is_vhost vhost) s.vhosts []) [
          | inr (i, e, h, t) ↦ rw (short, e) w
          | inl (e, c) ↦ elim (Bool-cases (grow granted (length s.vhosts) s.cv).0) [
            | inr full ↦ rw (short, e, full) (held-IsStore s w)
            | inl room ↦
                rw (short, e, room, whole)
                  record {
                    one_vhost =
                        Unique-append is_vhost s.vhosts vhost (λ k. fresh_name vhost s.vhosts k c)
                          w.one_vhost;
                    one_user = w.one_user;
                    one_perm = w.one_perm;
                    vhosts = All-append IsVhost s.vhosts (vhost ∷ []) w.vhosts (fit, tt);
                    users = w.users;
                    perms = w.perms;
                    completed = w.completed;
                  }
          ]
        ]
  ]

  fresh_user :
      (row : User) (xs : List User) (k : Bytes)
      → count (is_user row.name) xs ≡ 0
      → (is_user k row ≡ false) ⊎ (count (is_user k) xs ≡ 0)
  fresh_user row xs k c = elim (Bool-cases (str_eq row.name k)) [
    | inl e ↦ inr (subst (λ x. count (is_user x) xs ≡ 0) (str_eq→eq row.name k e) c)
    | inr n ↦ inl n
  ]

  pub add_user-IsStore :
      (granted io : Bool) (s : AuthStore) (user hash : Bytes) (tags : ℕ)
      → tags < 2 ^ 32
      → IsStore compiles s
      → IsStore compiles (authstore_add_user granted io s user hash tags).store
  unfolding authstore_add_user find_user saved
  add_user-IsStore granted io s user hash tags small w =
      elim (Bool-cases (too_long user authstore_name_max)) [
        | inl long ↦ rw long w
        | inr short ↦ elim (Bool-cases (too_long hash authstore_hash_max)) [
          | inl long ↦ rw (short, long) w
          | inr hshort ↦
              let (whole, fit) = fitted_whole user authstore_name_max short in
              let (hwhole, hfit) = fitted_whole hash authstore_hash_max hshort in
              let row : User = record { name = user; hash = hash; tags = tags } in
              let is : IsUser row = record { name = fit; hash = hfit; tags = small } in
              elim (position-cases (is_user user) s.users no_user) [
                | inr (i, e, h, t) ↦
                    let old = str_eq→eq (get_or s.users i no_user).name user t in
                    rw (short, hshort, e, whole, hwhole)
                      record {
                        one_vhost = w.one_vhost;
                        one_user =
                            Unique-set is_user s.users i row no_user h
                              (λ k. ap (λ x. str_eq x k) (sym old)) w.one_user;
                        one_perm = w.one_perm;
                        vhosts = w.vhosts;
                        users = All-set IsUser s.users i row is w.users;
                        perms = w.perms;
                        completed = λ _. refl;
                      }
                | inl (e, c) ↦ elim (Bool-cases (grow granted (length s.users) s.cu).0) [
                  | inr full ↦ rw (short, hshort, e, full) (held-IsStore s w)
                  | inl room ↦
                      rw (short, hshort, e, room, whole, hwhole)
                        record {
                          one_vhost = w.one_vhost;
                          one_user =
                              Unique-append is_user s.users row (λ k. fresh_user row s.users k c)
                                w.one_user;
                          one_perm = w.one_perm;
                          vhosts = w.vhosts;
                          users = All-append IsUser s.users (row ∷ []) w.users (is, tt);
                          perms = w.perms;
                          completed = λ _. refl;
                        }
                ]
              ]
        ]
      ]
