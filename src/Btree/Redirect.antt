-- ===== src/Btree/Redirect.antt =====
-- `cursor_redirect` of btree.c: clean blocks of the cursor are copied before they are changed.
use tux.Base.{
  ℕ, zero, suc, ◌-◌, ◌==◌, if◌then◌else◌, Bool, not, true, Option, none, some, List, [], ◌∷◌, ◌++◌,
}
use tux.Errno.{Result, ok, err, enomem}
use tux.Btree.{Bnode, Block, bnode, Volume, Root, node_of, entry_at}
use tux.Btree.Cursor.{PathLevel, Cursor}

pub data RedirectLog : Type 0 where
  leaf_redirected : ℕ → ℕ → RedirectLog
  bnode_redirected : ℕ → ℕ → RedirectLog
  bnode_updated : ℕ → ℕ → ℕ → RedirectLog

-- The tree with the dirty marks of its buffers, and the blocks to free later: with the delta, and with
-- the rollup.
pub record Redirected {ℓ} (S : Type ℓ) : Type ℓ where
  pub vol : Volume
  pub root : Root
  pub alloc : S
  pub dirty : ℕ → Bool
  pub defree : List ℕ
  pub derollup : List ℕ
  pub log : List RedirectLog

unfoldable pub set_block : Bnode → ℕ → ℕ → Bnode
set_block [] at block = []
set_block (entry ∷ entries) zero block = record entry { block = block } ∷ entries
set_block (entry ∷ entries) (suc at) block = entry ∷ set_block entries at block

-- The copy of a block, which takes its place in the cursor and is dirty.
unfoldable pub clone_block {ℓ} : {S : Type ℓ} → Redirected S → ℕ → ℕ → Option Block → Redirected S
clone_block st old new content = record st {
  vol = λ b. if b == new then content else st.vol b;
  dirty = λ b. if b == new then true else st.dirty b;
}

-- A leaf's copy; then an index node's, with the new block of its child.
unfoldable pub clone_leaf {ℓ} : {S : Type ℓ} → Redirected S → ℕ → ℕ → Redirected S
unfolding clone_block
clone_leaf st old new =
    let cloned = clone_block st old new (st.vol old) in
    record cloned {
      defree = cloned.defree ++ old ∷ [];
      log = cloned.log ++ leaf_redirected old new ∷ [];
    }

unfoldable pub clone_bnode {ℓ} : {S : Type ℓ} → Redirected S → PathLevel → ℕ → ℕ → Redirected S
unfolding clone_block
clone_bnode st level new child =
    let node = node_of (st.vol level.block) in
    let at = level.next - 1 in
    let cloned = clone_block st level.block new (some (bnode (set_block node at child))) in
    record cloned {
      derollup = cloned.derollup ++ level.block ∷ [];
      log =
          cloned.log
          ++ bnode_redirected level.block new ∷ bnode_updated new child (entry_at node at).key ∷ [];
    }

unfoldable pub push_block {ℓ} :
    {S : Type ℓ}
    → PathLevel
    → Result (List PathLevel) × Redirected S
    → Result (List PathLevel) × Redirected S
push_block level (result, st) = (elim result [ err e ↦ err e | ok path ↦ ok (level ∷ path) ], st)

module _ {ℓ} {S : Type ℓ} (balloc : S → Result (ℕ × S)) (vol_getblk : ℕ → Bool) where
  unfoldable pub clone_target : Redirected S → Result ℕ × Redirected S
  clone_target st = elim (balloc st.alloc) [
    | err e ↦ (err e, st)
    | ok found ↦
        let (block, alloc) = found in
        (if vol_getblk block then ok block else err enomem, record st { alloc = alloc })
  ]

  -- The levels above a copied block, whose copy is `child`. At the root the tree takes the new block.
  unfoldable pub redirect_levels :
      List PathLevel → Redirected S → ℕ → Result (List PathLevel) × Redirected S
  redirect_levels [] st child =
      (ok [], record st { root = record { block = child; depth = st.root.depth } })
  redirect_levels (level ∷ path) st child =
      let (result, next) = clone_target st in
      if st.dirty level.block then (ok (level ∷ path), st) else elim result [
        | err e ↦ (err e, next)
        | ok new ↦
            push_block (record level { block = new })
              (redirect_levels path (clone_bnode next level new child) new)
      ]

  -- The loop of `cursor_redirect`, from the leaf. A cursor without a leaf is never redirected.
  unfoldable pub redirect_path : Redirected S → Cursor → Result Cursor × Redirected S
  redirect_path st cursor = elim cursor.leaf [
    | none ↦ (ok cursor, st)
    | some leaf ↦
        let (result, next) = clone_target st in
        if st.dirty leaf then (ok cursor, st) else elim result [
          | err e ↦ (err e, next)
          | ok new ↦
              let (result, done) = redirect_levels cursor.path (clone_leaf next leaf new) new in
              (
                elim result [
                  | err e ↦ err e
                  | ok path ↦ ok (record { path = path; leaf = some new })
                ],
                done,
              )
        ]
  ]

  -- `atomic` says whether the code is compiled with ATOMIC. Without it nothing is done.
  unfoldable pub cursor_redirect : Bool → Redirected S → Cursor → Result Cursor × Redirected S
  unfolding redirect_path
  cursor_redirect atomic st cursor = if not atomic then (ok cursor, st) else redirect_path st cursor
