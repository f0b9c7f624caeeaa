-- ===== src/AuthStore/Restart.antt =====
-- src/authstore.c: a store written to its file and read back by a new process.
use beaver_mq.Prelude.{
  ℕ, ◌%◌, ◌^◌, ◌<◌, ◌≡◌, refl, ap, sym, ◌∙◌, inl, inr, Bool, true, false, ◌||◌, some, [], ◌++◌,
  append-nil, Bytes, length, ltb, ◌==◌, if◌then◌else◌, Bool-cases, arith,
}
use beaver_mq.AuthStore.State.{AuthStore, fresh_store, fitted}
use beaver_mq.AuthStore.File.{
  put_u32, flag, file_bytes, authstore_db_magic, authstore_db_version, get_u32,
}
use beaver_mq.AuthStore.Load.{counted, with_row, finished, load_file, blocked}
use beaver_mq.AuthStore.Load.{
  Progress, reading, loaded, blocked, load_vhosts, load_users, load_perms, load_header, load_rows,
  authstore_load,
}
use beaver_mq.AuthStore.Invariant.{IsStore}
use beaver_mq.AuthStore.Codec.{
  get_u32-put_u32, vhosts_bytes, users_bytes, perms_bytes, tables, file_bytes_lem,
}
use beaver_mq.AuthStore.RoundTrip.{load_vhosts-rows, load_users-rows, load_perms-rows}

-- The counts fit their four bytes.
pub record IsSmall (s : AuthStore) : Type 0 where
  pub vhosts : length s.vhosts < 2 ^ 32
  pub users : length s.users < 2 ^ 32
  pub perms : length s.perms < 2 ^ 32

get_count :
    (n : ℕ) (rest : Bytes) → n < 2 ^ 32 → get_u32 (put_u32 (n % 2 ^ 32) ++ rest) ≡ some (n, rest)
get_count n rest h = let small : n % 2 ^ 32 ≡ n = omega arith in rw small (get_u32-put_u32 n rest h)

load_header_lem :
    (compiles : Bytes → Bool) (grants : ℕ → Bool) (io : Bool) (n : ℕ) (rest : Bytes)
    → n < 2 ^ 32
    → load_header compiles grants io
        (put_u32 authstore_db_magic ++ (put_u32 authstore_db_version ++ (put_u32 n ++ rest)))
      ≡ some (n, rest)
unfolding load_header
load_header_lem compiles grants io n rest h =
    rw
      (
        get_u32-put_u32 authstore_db_magic (put_u32 authstore_db_version ++ (put_u32 n ++ rest))
            (omega arith),
        get_u32-put_u32 authstore_db_version (put_u32 n ++ rest) (omega arith),
        get_u32-put_u32 n rest h,
      )
      refl

module _ (compiles : Bytes → Bool) (grants : ℕ → Bool) (io : Bool)
    (granted : (n : ℕ) → grants n ≡ true) where
  counted_lem :
      (loop : ℕ → AuthStore → Bytes → Progress) (n : ℕ) (s : AuthStore) (rest : Bytes)
      → n < 2 ^ 32
      → counted compiles grants io loop (reading s (put_u32 (n % 2 ^ 32) ++ rest)) ≡ loop n s rest
  counted_lem loop n s rest h =
      ap (λ o. with_row s o (λ n rest. loop n s rest)) (get_count n rest h)

  load_rows_lem :
      (s : AuthStore)
      → IsStore compiles s
      → IsSmall s
      → (s' : AuthStore) × (load_rows compiles grants io fresh_store (tables s) ≡ reading s' [])
        × (s'.vhosts ≡ s.vhosts)
        × (s'.users ≡ s.users)
        × (s'.perms ≡ s.perms)
        × (s'.held ≡ false)
        × (s'.bootstrap_completed ≡ ltb 0 (length s.users))
  load_rows_lem s w small =
      let vhosts = load_vhosts compiles grants io in
      let users = load_users compiles grants io in
      let perms = load_perms compiles grants io in
      let rest_p = put_u32 (length s.perms % 2 ^ 32) ++ perms_bytes s.perms in
      let rest_u = put_u32 (length s.users % 2 ^ 32) ++ (users_bytes s.users ++ rest_p) in
      let (s1, e1, v1, u1, p1, h1, b1) =
        load_vhosts-rows compiles io grants granted s.vhosts fresh_store rest_u w.vhosts w.one_vhost
          refl in
      let (s2, e2, v2, u2, p2, h2, b2) =
        load_users-rows compiles io grants granted s.users s1 rest_p w.users (rw u1 w.one_user)
          h1 in
      let (s3, e3, v3, u3, p3, h3, b3) =
        load_perms-rows compiles io grants granted s.perms s2 [] w.perms (rw (p2, p1) w.one_perm)
          h2 in
      (
        s3,
        ap (λ x. counted compiles grants io perms (counted compiles grants io users x))
              (counted_lem vhosts (length s.vhosts) fresh_store (vhosts_bytes s.vhosts ++ rest_u)
                  small.vhosts
                ∙ e1)
            ∙ ap (counted compiles grants io perms) (
                counted_lem users (length s.users) s1 (users_bytes s.users ++ rest_p) small.users
                ∙ e2)
            ∙ counted_lem perms (length s.perms) s2 (perms_bytes s.perms) small.perms
            ∙ ap (perms (length s.perms) s2) (sym (append-nil (perms_bytes s.perms)))
            ∙ e3,
        v3 ∙ v2 ∙ v1,
        u3 ∙ u2 ∙ ap (λ x. x ++ s.users) u1,
        p3 ∙ ap (λ x. x ++ s.perms) (p2 ∙ p1),
        h3,
        b3 ∙ b2 ∙ ap (λ b. b || ltb 0 (length s.users)) b1,
      )

  boot_kept : (b : Bool) (n : ℕ) → (0 < n → b ≡ true) → (if flag b == 0 then ltb 0 n else true) ≡ b
  boot_kept true n h = refl
  boot_kept false n h = elim (Bool-cases (ltb 0 n)) [
    | inl some_left ↦ let shut = h (ground arith) in ground arith
    | inr n_left ↦ n_left
  ]

  -- A store whose rows are counted in 32 bits is written, and a new process that is given memory reads the file back: it has the same virtual
  -- hosts, users and permissions in the same order, each with its regexes, the same bootstrap flag, and
  -- the lock free; it goes on saving to the path.
  pub authstore_load-file_bytes :
      (s : AuthStore) (path : Bytes)
      → IsStore compiles s
      → IsSmall s
      → (file : Bytes) × (s' : AuthStore) × (file_bytes s ≡ some file)
        × (authstore_load compiles grants io fresh_store path (some file) ≡ loaded s')
        × (s'.vhosts ≡ s.vhosts)
        × (s'.users ≡ s.users)
        × (s'.perms ≡ s.perms)
        × (s'.bootstrap_completed ≡ s.bootstrap_completed)
        × (s'.held ≡ false)
        × (s'.persist_path ≡ fitted 512 path)
  unfolding authstore_load put_u32
  authstore_load-file_bytes s path w small =
      let (r, e, ev, eu, ep, eh, eb) = load_rows_lem s w small in
      let boot = flag s.bootstrap_completed in
      let header = load_header_lem compiles grants io boot (tables s) (ground arith) in
      (
        put_u32 authstore_db_magic ++ (put_u32 authstore_db_version ++ (put_u32 boot ++ tables s)),
        record r {
          bootstrap_completed = (if boot == 0 then r.bootstrap_completed else true);
          persist_path = fitted 512 path;
        },
        file_bytes_lem compiles s w.vhosts w.users w.perms,
        ap (load_file compiles grants io fresh_store path) header
            ∙ ap (finished compiles grants io path boot) e
            ∙ ap
                (λ b.
                  if b
                  then blocked r
                  else loaded (record r {
                    bootstrap_completed = (if boot == 0 then r.bootstrap_completed else true);
                    persist_path = fitted 512 path;
                  }))
                eh,
        ev,
        eu,
        ep,
        ap (λ b. if boot == 0 then b else true) eb
            ∙ boot_kept s.bootstrap_completed (length s.users) w.completed,
        eh,
        refl,
      )
