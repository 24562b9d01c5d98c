-- ===== src/Btree/CopyOnWrite.antt =====
-- `cursor_redirect` (user/kernel/btree.c): the blocks it writes.
use tux.Base.{
  ℕ, ◌≡◌, ◌≢◌, refl, ◌∙◌, arith, Bool-cases, inl, inr, true, false, Bool, Option-cases, List, [],
  ◌∷◌,
}
use tux.Errno.{Result-cases, Result, ok, err, Errno, enomem}
use tux.Btree.Cursor.{PathLevel, Cursor}
use tux.Btree.Redirect.{
  Redirected, clone_block, clone_leaf, clone_bnode, push_block, clone_target, redirect_levels,
  redirect_path, cursor_redirect,
}

module _ {ℓ} {S : Type ℓ} (balloc : S → Result (ℕ × S)) (vol_getblk : ℕ → Bool) where
  pub data Cloned (st : Redirected S) (result : Result ℕ × Redirected S) : Type ℓ where
    refused : (e : Errno) (s : S) → result ≡ (err e, record st { alloc = s }) → Cloned st result
    found :
        (b : ℕ) (s : S)
        → balloc st.alloc ≡ ok (b, s)
        → result ≡ (ok b, record st { alloc = s })
        → Cloned st result

  pub clone_target-Cloned : (st : Redirected S) → Cloned st (clone_target balloc vol_getblk st)
  unfolding clone_target
  clone_target-Cloned st = elim (Result-cases (balloc st.alloc)) [
    | inl (e, is) ↦ refused e st.alloc (rw (clone_target, is) refl)
    | inr (pair, is) ↦ elim (Bool-cases (vol_getblk pair.0)) [
      | inl got ↦ found pair.0 pair.1 is (rw (clone_target, is, got) refl)
      | inr lost ↦ refused enomem pair.1 (rw (clone_target, is, lost) refl)
    ]
  ]

  -- One level of the loop, by what it finds.
  module _ (level : PathLevel) (path : List PathLevel) (st : Redirected S) (child : ℕ) where
    pub redirect_levels-dirty :
        st.dirty level.block ≡ true
        → redirect_levels balloc vol_getblk (level ∷ path) st child ≡ (ok (level ∷ path), st)
    unfolding redirect_levels
    redirect_levels-dirty is = rw (redirect_levels, is) refl

    pub redirect_levels-refused :
        (e : Errno) (next : Redirected S)
        → st.dirty level.block ≡ false
        → clone_target balloc vol_getblk st ≡ (err e, next)
        → redirect_levels balloc vol_getblk (level ∷ path) st child ≡ (err e, next)
    unfolding redirect_levels
    redirect_levels-refused e next clean is = rw (redirect_levels, clean, is) (rw is refl)

    pub redirect_levels-cloned :
        (new : ℕ) (next : Redirected S)
        → st.dirty level.block ≡ false
        → clone_target balloc vol_getblk st ≡ (ok new, next)
        → redirect_levels balloc vol_getblk (level ∷ path) st child
          ≡ push_block
              (record level { block = new })
              (redirect_levels balloc vol_getblk path (clone_bnode next level new child) new)
    unfolding redirect_levels
    redirect_levels-cloned new next clean is = rw (redirect_levels, clean, is) (rw is refl)

  pub clone_bnode-vol :
      (st : Redirected S) (level : PathLevel) (new child x : ℕ)
      → new ≢ x
      → (clone_bnode st level new child).vol x ≡ st.vol x
  unfolding clone_bnode clone_block
  clone_bnode-vol st level new child x h = ground arith

  clone_leaf-vol :
      (st : Redirected S) (old new x : ℕ) → new ≢ x → (clone_leaf st old new).vol x ≡ st.vol x
  unfolding clone_leaf clone_block
  clone_leaf-vol st old new x h = ground arith

  module _ (x : ℕ) (used : (s s2 : S) (b : ℕ) → balloc s ≡ ok (b, s2) → b ≢ x) where
    redirect_levels-vol :
        (path : List PathLevel) (st : Redirected S) (child : ℕ)
        → (redirect_levels balloc vol_getblk path st child).1.vol x ≡ st.vol x
    unfolding push_block
    redirect_levels-vol [] st child = unfold redirect_levels in refl
    redirect_levels-vol (level ∷ path) st child = elim (Bool-cases (st.dirty level.block)) [
      | inl is ↦ rw (redirect_levels-dirty level path st child is) refl
      | inr clean ↦ elim (clone_target-Cloned st) [
        | refused e s is ↦ rw (redirect_levels-refused level path st child e _ clean is) refl
        | found b s alloc is ↦
            rw (redirect_levels-cloned level path st child b _ clean is)
              (redirect_levels-vol path _ b ∙ clone_bnode-vol _ level b child x (used _ _ b alloc))
      ]
    ]

    redirect_path-vol :
        (st : Redirected S) (cursor : Cursor)
        → (redirect_path balloc vol_getblk st cursor).1.vol x ≡ st.vol x
    unfolding redirect_path
    redirect_path-vol st cursor = elim (Option-cases cursor.leaf) [
      | inl empty ↦ rw (redirect_path, empty) refl
      | inr (leaf, at) ↦ elim (Bool-cases (st.dirty leaf)) [
        | inl is ↦ rw (redirect_path, at, is) refl
        | inr clean ↦ elim (clone_target-Cloned st) [
          | refused e s is ↦ rw (redirect_path, at, clean, is) (rw is refl)
          | found b s alloc is ↦
              rw (redirect_path, at, clean, is)
                (rw is (
                  redirect_levels-vol cursor.path _ b
                  ∙ clone_leaf-vol _ leaf b x (used _ _ b alloc)))
        ]
      ]
    ]

    -- Copying the blocks of a cursor writes only to blocks that the allocator has just given out: the
    -- content of any block that it does not hand out stays, also when an allocation fails half way, and
    -- whether or not the code is compiled with ATOMIC.
    pub cursor_redirect-vol :
        (atomic : Bool) (st : Redirected S) (cursor : Cursor)
        → (cursor_redirect balloc vol_getblk atomic st cursor).1.vol x ≡ st.vol x
    unfolding cursor_redirect
    cursor_redirect-vol atomic st cursor = elim (Bool-cases atomic) [
      | inl on ↦ rw (cursor_redirect, on) (redirect_path-vol st cursor)
      | inr off ↦ rw (cursor_redirect, off) refl
    ]
