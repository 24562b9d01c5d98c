-- ===== src/Btree/Edit.antt =====
-- The changes of index nodes in btree.c: `add_child`, `insert_leaf`, `remove_index`, `merge_nodes`, the
-- empty tree. The allocator's state is a parameter; dirty marks and buffer counts are left out here.
use tux.Base.{
  ℕ, zero, suc, ◌+◌, ◌-◌, ◌/◌, ◌==◌, ltb, leb, if◌then◌else◌, Bool, true, false, not, Option, none,
  some, List, [], ◌∷◌, ◌++◌, length, take, drop,
}
use tux.Errno.{Result, ok, err, eio, enomem}
use tux.Btree.{Bnode, Block, bnode, vleaf, Volume, Root, node_of, entry_at}
use tux.Btree.Cursor.{PathLevel, Cursor, cursor_node, level_finished, has_root}

-- What the btree functions write to the log, in order.
pub data BtreeLog : Type 0 where
  balloc_logged : ℕ → BtreeLog
  root_logged : ℕ → ℕ → ℕ → ℕ → ℕ → BtreeLog
  split_logged : ℕ → ℕ → ℕ → BtreeLog
  add_logged : ℕ → ℕ → ℕ → BtreeLog

-- A tree with its volume; `alloc` is the state of the block allocator.
pub record Tree {ℓ} (S : Type ℓ) : Type ℓ where
  pub vol : Volume
  pub root : Root
  pub alloc : S
  pub log : List BtreeLog
  pub entries_per_node : ℕ

unfoldable pub store : Volume → ℕ → Block → Volume
store vol block content = λ b. if b == block then some content else vol b

unfoldable pub add_child : Bnode → ℕ → ℕ → ℕ → Bnode
add_child node at child childkey =
    take at node ++ record { key = childkey; block = child } ∷ drop at node

unfoldable pub merge_nodes : Bnode → Bnode → Bnode
merge_nodes node node2 = node ++ node2

-- A full node split in two, with the child added before entry `at`: the halves, and whether the child
-- is in the left one.
unfoldable pub split_node : Bnode → ℕ → ℕ → ℕ → Bnode × Bnode × Bool
unfolding add_child
split_node node at child childkey =
    let half = length node / 2 in
    if leb at half
    then (add_child (take half node) at child childkey, drop half node, true)
    else (take half node, add_child (drop half node) (at - half) child childkey, false)

-- An entry taken out of a node, and the separator of a node changed.
unfoldable pub remove_entry : Bnode → ℕ → Bnode
remove_entry node at = take at node ++ drop (at + 1) node

unfoldable pub set_key : Bnode → ℕ → ℕ → Bnode
set_key [] at key = []
set_key (entry ∷ entries) zero key = record entry { key = key } ∷ entries
set_key (entry ∷ entries) (suc at) key = entry ∷ set_key entries at key

-- The climb of `remove_index` to the first level that is not at its first entry; at the root it ends.
unfoldable pub set_separator : Volume → List PathLevel → ℕ → Volume
set_separator vol [] sep = vol
set_separator vol (level ∷ path) sep =
    let above = set_separator vol path sep in
    if level.next - 1 == 0
    then above
    else store vol level.block (bnode (set_key (cursor_node vol level) (level.next - 1) sep))

-- `remove_index` at the first level of these, whose entry before `next` goes.
unfoldable pub remove_index : Volume → List PathLevel → Volume × List PathLevel
remove_index vol [] = (vol, [])
remove_index vol (level ∷ path) =
    let node = remove_entry (cursor_node vol level) (level.next - 1) in
    let removed = store vol level.block (bnode node) in
    let passed : PathLevel = record level { next = level.next - 1 } in
    if level_finished removed passed
    then (removed, passed ∷ path)
    else if level.next - 1 == 0
    then (set_separator removed path (entry_at node 0).key, passed ∷ path)
    else (removed, passed ∷ path)

-- The child added to the node of a level that has room.
unfoldable pub add_at {ℓ} : {S : Type ℓ} → Tree S → PathLevel → Bool → ℕ → ℕ → PathLevel × Tree S
add_at tree level keep childkey childblock =
    let node = add_child (cursor_node tree.vol level) level.next childblock childkey in
    (
      if keep then level else record level { next = level.next + 1 },
      record tree {
        vol = store tree.vol level.block (bnode node);
        log = tree.log ++ add_logged level.block childblock childkey ∷ [];
      },
    )

-- A full node split into `newblock`, and the child added: the level that the cursor is at, the
-- separator, and whether the child is in the left node.
unfoldable pub split_at {ℓ} :
    {S : Type ℓ} → Tree S → PathLevel → Bool → ℕ → ℕ → ℕ → PathLevel × ℕ × Bool × Tree S
split_at tree level keep newblock childkey childblock =
    let node = cursor_node tree.vol level in
    let half = length node / 2 in
    let newkey = (entry_at node half).key in
    let (left, right, child_is_left) = split_node node level.next childblock childkey in
    let stay : ℕ = if keep then 0 else 1 in
    let parent = if child_is_left then level.block else newblock in
    let next = if child_is_left then level.next else level.next - half in
    (
      record { block = parent; next = next + stay },
      newkey,
      child_is_left,
      record tree {
        vol = store (store tree.vol level.block (bnode left)) newblock (bnode right);
        log =
            tree.log
            ++ split_logged level.block half newblock ∷ add_logged parent childblock childkey ∷ [];
      },
    )

-- The level under those of a further result.
unfoldable pub push_level {ℓ} :
    {S : Type ℓ} → PathLevel → Result (List PathLevel) × Tree S → Result (List PathLevel) × Tree S
push_level level (result, tree) =
    (elim result [ err e ↦ err e | ok path ↦ ok (level ∷ path) ], tree)

-- The cursor with the levels of a result.
unfoldable pub set_path {ℓ} :
    {S : Type ℓ} → Option ℕ → Result (List PathLevel) × Tree S → Result Cursor × Tree S
set_path leaf (result, tree) =
    (elim result [ err e ↦ err e | ok path ↦ ok (record { path = path; leaf = leaf }) ], tree)

module _ {ℓ} {S : Type ℓ} (balloc : S → Result (ℕ × S)) (vol_getblk : ℕ → Bool) where
  -- A block that has no buffer stays allocated.
  unfoldable pub new_block : Tree S → Result ℕ × Tree S
  new_block tree = elim (balloc tree.alloc) [
    | err e ↦ (err e, tree)
    | ok taken ↦
        let (block, alloc) = taken in
        (if vol_getblk block then ok block else err enomem, record tree { alloc = alloc })
  ]

  unfoldable pub new_node : Tree S → Result ℕ × Tree S
  unfolding new_block
  new_node tree =
      let (result, taken) = new_block tree in
      elim result [
        | err e ↦ (err e, taken)
        | ok block ↦ (ok block, record taken { vol = store taken.vol block (bnode []) })
      ]

  -- The new root above `oldroot`; `top` is the block at the top of the cursor.
  unfoldable pub add_root : Tree S → ℕ → ℕ → ℕ → Result (List PathLevel) × Tree S
  unfolding new_node
  add_root tree top childkey childblock =
      let (result, taken) = new_node tree in
      elim result [
        | err e ↦ (err e, taken)
        | ok newroot ↦
            let oldroot = taken.root.block in
            let entries =
              record { key = 0; block = oldroot }
              ∷ record { key = childkey; block = childblock }
              ∷ [] in
            let next = if top == childblock then 2 else 1 in
            (
              ok (record { block = newroot; next = next } ∷ []),
              record taken {
                vol = store taken.vol newroot (bnode entries);
                root = record { block = newroot; depth = taken.root.depth + 1 };
                log = taken.log ++ root_logged newroot 2 oldroot childblock childkey ∷ [];
              },
            )
      ]

  -- The loop of `insert_leaf` up the levels; after an error the nodes changed so far stay changed.
  unfoldable pub insert_levels :
      Tree S → List PathLevel → ℕ → Bool → ℕ → ℕ → Result (List PathLevel) × Tree S
  insert_levels tree [] top keep childkey childblock = add_root tree top childkey childblock
  insert_levels tree (level ∷ path) top keep childkey childblock =
      let (at, added) = add_at tree level keep childkey childblock in
      let (result, taken) = new_node tree in
      if ltb (length (cursor_node tree.vol level)) tree.entries_per_node
      then (ok (at ∷ path), added)
      else elim result [
        | err e ↦ (err e, taken)
        | ok newblock ↦
            let (at, newkey, child_is_left, split) =
              split_at taken level keep newblock childkey childblock in
            push_level at (
              insert_levels split path at.block (if child_is_left then true else keep) newkey
                newblock)
      ]

  -- The whole `insert_leaf`: with `keep` the cursor stays at its leaf.
  unfoldable pub insert_leaf : Tree S → Cursor → ℕ → ℕ → Bool → Result Cursor × Tree S
  insert_leaf tree cursor childkey leafblock keep =
      set_path (if keep then cursor.leaf else some leafblock)
        (insert_levels tree cursor.path tree.root.block keep childkey leafblock)

  -- `leaf_init` is what the leaf operation makes of a zeroed block.
  unfoldable pub alloc_empty_btree : (S → ℕ → S) → List ℕ → Tree S → Result (Unit {0}) × Tree S
  alloc_empty_btree bfree leaf_init tree =
      let (result, rooted) = new_node tree in
      elim result [
        | err e ↦ (err e, rooted)
        | ok rootblock ↦
            let (result, leafed) = new_block rooted in
            elim result [
              | err e ↦ (err e, record leafed { alloc = bfree leafed.alloc rootblock })
              | ok leafblock ↦
                  let node = record { key = 0; block = leafblock } ∷ [] in
                  (
                    ok tt,
                    record leafed {
                      vol =
                          store (store leafed.vol leafblock (vleaf leaf_init)) rootblock
                            (bnode node);
                      root = record { block = rootblock; depth = 1 };
                      log =
                          leafed.log
                          ++ root_logged rootblock 1 leafblock 0 0 ∷ balloc_logged leafblock ∷ [];
                    },
                  )
            ]
      ]

-- The blocks that `free_empty_btree` frees, the leaf's first.
unfoldable pub free_empty_btree : Volume → Root → Result (List ℕ)
free_empty_btree vol root = if not (has_root root) then ok [] else elim (vol root.block) [
  | none ↦ err eio
  | some content ↦ ok ((entry_at (node_of (some content)) 0).block ∷ root.block ∷ [])
]
