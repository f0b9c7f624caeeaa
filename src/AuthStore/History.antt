-- ===== src/AuthStore/History.antt =====
-- src/authstore.c: any sequence of operations keeps the invariant, and the bootstrap window stays shut.
use beaver_mq.Prelude.{
  map, ◌∙◌, ℕ, ◌^◌, ◌<◌, ◌≡◌, ◌∙◌, Bool, true, false, List, [], ◌∷◌, Bytes, All, arith,
}
use beaver_mq.AuthStore.State.{AuthStore, grow, grow, drop_perms_matching}
use beaver_mq.AuthStore.Store.{
  Outcome, saved, authstore_add_vhost, authstore_del_vhost, authstore_add_user, authstore_del_user,
  authstore_set_perm, authstore_clear_perm, authstore_is_open,
}
use beaver_mq.AuthStore.Invariant.{IsStore}
use beaver_mq.AuthStore.Keeps.{
  add_vhost-IsStore, del_vhost-IsStore, add_user-IsStore, del_user-IsStore, clear_perm-IsStore,
}
use beaver_mq.AuthStore.Grants.{set_perm-IsStore}

-- The operations that change a store, with their arguments.
pub data Op : Type 0 where
  add_vhost del_vhost del_user : Bytes → Op
  add_user : Bytes → Bytes → ℕ → Op
  set_perm : Bytes → Bytes → Bytes → Bytes → Bytes → Op
  clear_perm : Bytes → Bytes → Op

-- The tags are a uint32_t.
abbrev pub IsOp : Op → Type 0
IsOp (add_user user hash tags) = tags < 2 ^ 32
IsOp op = Unit

module _ (compiles : Bytes → Bool) where
  -- One operation, with the answers of realloc and of the file system.
  unfoldable pub applied : AuthStore → Bool × Bool × Op → Outcome
  applied s (granted, io, add_vhost v) = authstore_add_vhost granted io s v
  applied s (granted, io, del_vhost v) = authstore_del_vhost io s v
  applied s (granted, io, del_user u) = authstore_del_user io s u
  applied s (granted, io, add_user u h t) = authstore_add_user granted io s u h t
  applied s (granted, io, set_perm u v c w r) = authstore_set_perm compiles granted io s u v c w r
  applied s (granted, io, clear_perm u v) = authstore_clear_perm io s u v

  unfoldable pub history : AuthStore → List (Bool × Bool × Op) → AuthStore
  history s [] = s
  history s (op ∷ ops) = history (applied s op).store ops

  applied-IsStore :
      (s : AuthStore) (granted io : Bool) (op : Op)
      → IsOp op
      → IsStore compiles s
      → IsStore compiles (applied s (granted, io, op)).store
  unfolding applied
  applied-IsStore s granted io (add_vhost v) h w = add_vhost-IsStore compiles granted io s v w
  applied-IsStore s granted io (del_vhost v) h w = del_vhost-IsStore compiles io s v w
  applied-IsStore s granted io (del_user u) h w = del_user-IsStore compiles io s u w
  applied-IsStore s granted io (add_user u p t) h w =
      add_user-IsStore compiles granted io s u p t h w
  applied-IsStore s granted io (set_perm u v c p r) h w =
      set_perm-IsStore compiles granted io s u v c p r w
  applied-IsStore s granted io (clear_perm u v) h w = clear_perm-IsStore compiles io s u v w

  -- Whatever operations follow, whether they succeed or not, a store keeps its invariant: each virtual host, user and
  -- pair of a user and a virtual host has one row at most, every string fits its array, the regexes of
  -- a row are those of its patterns, and a store with a user has its bootstrap completed.
  pub history-IsStore :
      (s : AuthStore) (ops : List (Bool × Bool × Op))
      → All (λ op. IsOp op.2) ops
      → IsStore compiles s
      → IsStore compiles (history s ops)
  unfolding history
  history-IsStore s [] h w = w
  history-IsStore s ((granted, io, op) ∷ ops) h w =
      history-IsStore (applied s (granted, io, op)).store ops h.1
        (applied-IsStore s granted io op h.0 w)

  applied-completed :
      (s : AuthStore) (op : Bool × Bool × Op)
      → s.bootstrap_completed ≡ true
      → (applied s op).store.bootstrap_completed ≡ true
  unfolding applied authstore_add_vhost authstore_del_vhost authstore_add_user authstore_del_user
      authstore_set_perm authstore_clear_perm saved drop_perms_matching
  applied-completed s (granted, io, add_vhost v) h = ground arith
  applied-completed s (granted, io, del_vhost v) h = ground arith
  applied-completed s (granted, io, del_user u) h = ground arith
  applied-completed s (granted, io, add_user u p t) h = ground arith
  applied-completed s (granted, io, set_perm u v c p r) h = ground arith
  applied-completed s (granted, io, clear_perm u v) h = ground arith

  history-completed :
      (s : AuthStore) (ops : List (Bool × Bool × Op))
      → s.bootstrap_completed ≡ true
      → (history s ops).bootstrap_completed ≡ true
  unfolding history
  history-completed s [] h = h
  history-completed s (op ∷ ops) h =
      history-completed (applied s op).store ops (applied-completed s op h)

  add_user-completed :
      (granted io : Bool) (s : AuthStore) (user hash : Bytes) (tags : ℕ)
      → (authstore_add_user granted io s user hash tags).ok ≡ true
      → (authstore_add_user granted io s user hash tags).store.bootstrap_completed ≡ true
  unfolding authstore_add_user saved
  add_user-completed granted io s user hash tags h = ground arith

  -- Once a user has been added, no sequence of operations opens the bootstrap window again, not even one that deletes
  -- every user.
  pub add_user-shut :
      (granted io : Bool) (s : AuthStore) (user hash : Bytes) (tags : ℕ)
      (ops : List (Bool × Bool × Op))
      → (authstore_add_user granted io s user hash tags).ok ≡ true
      → authstore_is_open (history (authstore_add_user granted io s user hash tags).store ops)
        ≡ false
  unfolding authstore_is_open
  add_user-shut granted io s user hash tags ops h =
      let o = authstore_add_user granted io s user hash tags in
      let shut = history-completed o.store ops (add_user-completed granted io s user hash tags h) in
      rw shut (ground arith)

  applied-held :
      (s : AuthStore) (io : Bool) (op : Op) → (applied s (true, io, op)).store.held ≡ s.held
  unfolding applied authstore_add_vhost authstore_del_vhost authstore_add_user authstore_del_user
      authstore_set_perm authstore_clear_perm saved drop_perms_matching grow
  applied-held s io (add_vhost v) = ground arith
  applied-held s io (del_vhost v) = ground arith
  applied-held s io (del_user u) = ground arith
  applied-held s io (add_user u p t) = ground arith
  applied-held s io (set_perm u v c p r) = ground arith
  applied-held s io (clear_perm u v) = ground arith

  -- While memory is granted, no sequence of operations, with whatever arguments and whether the file can be written or not,
  -- leaves the write lock held.
  pub history-held :
      (s : AuthStore) (ops : List (Bool × Op))
      → s.held ≡ false
      → (history s (map (λ op. (true, op.0, op.1)) ops)).held ≡ false
  unfolding history
  history-held s [] h = h
  history-held s (op ∷ ops) h =
      history-held (applied s (true, op.0, op.1)).store ops (applied-held s op.0 op.1 ∙ h)
