-- ===== src/Btree/Filled.antt =====
-- `insert_leaf` (user/kernel/btree.c): the room in the nodes, and the depth.
use tux.Base.{
  ℕ, suc, ◌+◌, ◌≡◌, sym, ap, arith, ltb, Bool-cases, inl, inr, Bool, List, [], ◌∷◌, length, Option,
}
use tux.Errno.{Result, ok, err}
use tux.Btree.Cursor.{PathLevel, Cursor, cursor_node}
use tux.Btree.Edit.{
  Tree, new_node, add_root, add_at, split_at, insert_levels, insert_leaf, push_level, set_path,
}
use tux.Btree.Insert.{
  IsFilled, failed, taken, new_node-Taken, new_node-IsFilled, add_root-IsFilled, add_at-IsFilled,
  split_at-IsFilled, insert_levels-room, insert_levels-full_err, insert_levels-split,
}

-- The levels of a result are as many as `len`, and more by what the depth has grown.
abbrev FollowsDepth {ℓ} : {S : Type ℓ} → ℕ → ℕ → Result (List PathLevel) × Tree S → Type 0
FollowsDepth depth len (err e, tree) = Unit
FollowsDepth depth len (ok levels, tree) = length levels + depth ≡ len + tree.root.depth

push_level-FollowsDepth {ℓ} :
    {S : Type ℓ} (depth len : ℕ) (level : PathLevel) (result : Result (List PathLevel) × Tree S)
    → FollowsDepth depth len result
    → FollowsDepth depth (suc len) (push_level level result)
unfolding push_level
push_level-FollowsDepth depth len level (err e, tree) h = tt
push_level-FollowsDepth depth len level (ok levels, tree) h = omega arith

path_of : Result Cursor → List PathLevel
path_of (ok cursor) = cursor.path
path_of (err e) = []

set_path-FollowsDepth {ℓ} :
    {S : Type ℓ} (depth len : ℕ) (leaf : Option ℕ) (moved : Cursor)
    (result : Result (List PathLevel) × Tree S)
    → FollowsDepth depth len result
    → len ≡ depth
    → (set_path leaf result).0 ≡ ok moved
    → length moved.path ≡ (set_path leaf result).1.root.depth
unfolding set_path path_of
set_path-FollowsDepth depth len leaf moved (err e, tree) h same done = ground arith
set_path-FollowsDepth depth len leaf moved (ok levels, tree) h same done =
    let e : levels ≡ moved.path = ap path_of done in rw⁻¹ e (omega arith)

module _ {ℓ} {S : Type ℓ} (balloc : S → Result (ℕ × S)) (vol_getblk : ℕ → Bool) where
  IsFilled-after :
      (tree : Tree S) (b : ℕ) (s : S) {next_tree : Tree S}
      → new_node balloc vol_getblk tree ≡ (ok b, next_tree)
      → IsFilled (new_node balloc vol_getblk tree).1
      → IsFilled next_tree
  IsFilled-after tree b s is h = rw (ap (λ x. x.1) (sym is)) h

  insert_levels-IsFilled :
      (path : List PathLevel) (tree : Tree S) (top : ℕ) (keep : Bool) (childkey childblock : ℕ)
      → IsFilled tree
      → IsFilled (insert_levels balloc vol_getblk tree path top keep childkey childblock).1
  unfolding push_level
  insert_levels-IsFilled [] tree top keep childkey childblock h =
      unfold insert_levels in add_root-IsFilled balloc vol_getblk tree top childkey childblock h
  insert_levels-IsFilled (level ∷ path) tree top keep childkey childblock h =
      elim (Bool-cases (ltb (length (cursor_node tree.vol level)) tree.entries_per_node)) [
        | inl fits ↦
            rw
              (insert_levels-room balloc vol_getblk tree level path top keep childkey childblock
                fits)
              (add_at-IsFilled tree level keep childkey childblock h (ground arith))
        | inr full ↦
            let h2 = new_node-IsFilled balloc vol_getblk tree h in
            elim (new_node-Taken balloc vol_getblk tree) [
              | failed e s is ↦
                  rw
                    (insert_levels-full_err balloc vol_getblk tree level path top keep childkey
                      childblock e _ full is)
                    (record { room = h.room; filled = h.filled })
              | taken b s alloc is ↦
                  rw
                    (insert_levels-split balloc vol_getblk tree level path top keep childkey
                      childblock b _ full is)
                    (insert_levels-IsFilled path _ _ _ _ b (
                      split_at-IsFilled _ level keep b childkey childblock
                        (IsFilled-after tree b s is h2)))
            ]
      ]

  -- Inserting a leaf keeps every index node of the volume to the entries that fit in it, when it fails
  -- too.
  pub insert_leaf-IsFilled :
      (tree : Tree S) (cursor : Cursor) (childkey leafblock : ℕ) (keep : Bool)
      → IsFilled tree
      → IsFilled (insert_leaf balloc vol_getblk tree cursor childkey leafblock keep).1
  unfolding insert_leaf set_path
  insert_leaf-IsFilled tree cursor childkey leafblock keep h =
      insert_levels-IsFilled cursor.path tree tree.root.block keep childkey leafblock h

  add_root-FollowsDepth :
      (tree : Tree S) (top childkey childblock : ℕ)
      → FollowsDepth tree.root.depth 0 (add_root balloc vol_getblk tree top childkey childblock)
  unfolding add_root
  add_root-FollowsDepth tree top childkey childblock =
      elim (new_node-Taken balloc vol_getblk tree) [
        | failed e s is ↦ rw (add_root, is) tt
        | taken b s alloc is ↦ rw (add_root, is) (rw is (omega arith))
      ]

  insert_levels-FollowsDepth :
      (path : List PathLevel) (tree : Tree S) (top : ℕ) (keep : Bool) (childkey childblock : ℕ)
      → FollowsDepth tree.root.depth
          (length path)
          (insert_levels balloc vol_getblk tree path top keep childkey childblock)
  unfolding add_at split_at
  insert_levels-FollowsDepth [] tree top keep childkey childblock =
      unfold insert_levels in add_root-FollowsDepth tree top childkey childblock
  insert_levels-FollowsDepth (level ∷ path) tree top keep childkey childblock =
      elim (Bool-cases (ltb (length (cursor_node tree.vol level)) tree.entries_per_node)) [
        | inl fits ↦
            rw
              (insert_levels-room balloc vol_getblk tree level path top keep childkey childblock
                fits)
              (omega arith)
        | inr full ↦ elim (new_node-Taken balloc vol_getblk tree) [
          | failed e s is ↦
              rw
                (insert_levels-full_err balloc vol_getblk tree level path top keep childkey
                  childblock e _ full is)
                tt
          | taken b s alloc is ↦
              rw
                (insert_levels-split balloc vol_getblk tree level path top keep childkey childblock
                  b _ full is)
                (push_level-FollowsDepth tree.root.depth (length path) _ _
                  (insert_levels-FollowsDepth path _ _ _ _ b))
        ]
      ]

  -- After an insertion without an error the cursor has one index node for each level of the tree, also
  -- when the tree has grown a new root.
  pub insert_leaf_depth :
      (tree : Tree S) (cursor moved : Cursor) (childkey leafblock : ℕ) (keep : Bool)
      → length cursor.path ≡ tree.root.depth
      → (insert_leaf balloc vol_getblk tree cursor childkey leafblock keep).0 ≡ ok moved
      → length moved.path
        ≡ (insert_leaf balloc vol_getblk tree cursor childkey leafblock keep).1.root.depth
  unfolding insert_leaf
  insert_leaf_depth tree cursor moved childkey leafblock keep h done =
      set_path-FollowsDepth tree.root.depth (length cursor.path) _ moved
        (insert_levels balloc vol_getblk tree cursor.path tree.root.block keep childkey leafblock)
        (insert_levels-FollowsDepth cursor.path tree tree.root.block keep childkey leafblock) h done
