-- ===== src/Btree/CopiedLeaf.antt =====
-- The leaf that `cursor_redirect` (user/kernel/btree.c) leaves in the cursor.
use tux.Base.{ℕ, ◌≡◌, ◌≢◌, ◌∙◌, refl, arith, Bool-cases, inl, inr, true, Bool, some, List, [], ◌∷◌}
use tux.Errno.{Result-cases, Result, ok, err}
use tux.Btree.Cursor.{PathLevel, Cursor}
use tux.Btree.Redirect.{
  Redirected, clone_block, clone_leaf, clone_bnode, push_block, redirect_levels, redirect_path,
  cursor_redirect,
}
use tux.Btree.CopyOnWrite.{
  refused, found, clone_target-Cloned, redirect_levels-dirty, redirect_levels-refused,
  redirect_levels-cloned, clone_bnode-vol,
}

-- The leaf of the cursor is dirty and has the content of the old one.
abbrev LeafOutcome {ℓ} : {S : Type ℓ} → Redirected S → ℕ → Result Cursor × Redirected S → Type 0
LeafOutcome st leaf (err e, done) = Unit
LeafOutcome st leaf (ok cursor, done) =
    (new : ℕ) × (cursor.leaf ≡ some new) × (done.dirty new ≡ true) × (done.vol new ≡ st.vol leaf)

-- `Gone` are the blocks that an allocator does not hand out any more.
module _ {ℓ κ} {S : Type ℓ} (balloc : S → Result (ℕ × S)) (vol_getblk : ℕ → Bool)
    (Gone : S → ℕ → Type κ) (taken : (s s2 : S) (b : ℕ) → balloc s ≡ ok (b, s2) → Gone s2 b)
    (apart : (s s2 : S) (b x : ℕ) → Gone s x → balloc s ≡ ok (b, s2) → Gone s2 x × (b ≢ x)) where
  levels_keep :
      (path : List PathLevel) (st : Redirected S) (child x : ℕ)
      → Gone st.alloc x
      → st.dirty x ≡ true
      → let done = (redirect_levels balloc vol_getblk path st child).1 in
        (done.dirty x ≡ true) × (done.vol x ≡ st.vol x)
  unfolding push_block
  levels_keep [] st child x gone dirty = unfold redirect_levels in (dirty, refl)
  levels_keep (level ∷ path) st child x gone dirty = elim (Bool-cases (st.dirty level.block)) [
    | inl is ↦ rw (redirect_levels-dirty balloc vol_getblk level path st child is) (dirty, refl)
    | inr clean ↦ elim (clone_target-Cloned balloc vol_getblk st) [
      | refused e s is ↦
          rw (redirect_levels-refused balloc vol_getblk level path st child e _ clean is)
            (dirty, refl)
      | found b s alloc is ↦
          let (later, ne) = apart st.alloc s b x gone alloc in
          let next : Redirected S = record st { alloc = s } in
          let marked : (clone_bnode next level b child).dirty x ≡ true =
            unfold clone_bnode clone_block in ground arith in
          let kept =
            levels_keep path (clone_bnode next level b child) b x
              (unfold clone_bnode clone_block in later) marked in
          rw (redirect_levels-cloned balloc vol_getblk level path st child b next clean is)
            (kept.0, kept.1 ∙ clone_bnode-vol balloc vol_getblk next level b child x ne)
    ]
  ]

  redirect_path-LeafOutcome :
      (st : Redirected S) (cursor : Cursor) (leaf : ℕ)
      → cursor.leaf ≡ some leaf
      → LeafOutcome st leaf (redirect_path balloc vol_getblk st cursor)
  unfolding redirect_path
  redirect_path-LeafOutcome st cursor leaf at = elim (Bool-cases (st.dirty leaf)) [
    | inl is ↦ rw (redirect_path, at, is) (leaf, at, is, refl)
    | inr clean ↦ elim (clone_target-Cloned balloc vol_getblk st) [
      | refused e s is ↦ rw (redirect_path, at, clean, is) tt
      | found b s alloc is ↦
          let next : Redirected S = record st { alloc = s } in
          let cloned = clone_leaf next leaf b in
          let marked : cloned.dirty b ≡ true = unfold clone_leaf clone_block in ground arith in
          let copied : cloned.vol b ≡ st.vol leaf = unfold clone_leaf clone_block in ground arith in
          let (dirty, same) =
            levels_keep cursor.path cloned b b
              (unfold clone_leaf clone_block in taken st.alloc s b alloc) marked in
          elim (Result-cases (redirect_levels balloc vol_getblk cursor.path cloned b).0) [
            | inl (e, bad) ↦ rw (redirect_path, at, clean, is) (rw is (rw bad tt))
            | inr (path, good) ↦
                rw (redirect_path, at, clean, is) (rw is (rw good (b, refl, dirty, same ∙ copied)))
          ]
    ]
  ]

  -- With ATOMIC, where the allocator hands out no block a second time, a cursor that `cursor_redirect`
  -- returns for one with a leaf has a dirty leaf with the content of the old one, which may then be
  -- changed in place.
  pub cursor_redirect-leaf :
      (st done : Redirected S) (cursor after : Cursor) (leaf : ℕ)
      → cursor.leaf ≡ some leaf
      → cursor_redirect balloc vol_getblk true st cursor ≡ (ok after, done)
      → (new : ℕ) × (after.leaf ≡ some new) × (done.dirty new ≡ true) × (done.vol new ≡ st.vol leaf)
  unfolding cursor_redirect
  cursor_redirect-leaf st done cursor after leaf at is =
      rw is at (redirect_path-LeafOutcome st cursor leaf at)
