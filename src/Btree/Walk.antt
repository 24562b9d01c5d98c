-- ===== src/Btree/Walk.antt =====
-- `advance` and `show_tree_range` (user/kernel/btree.c) on a valid tree.
use tux.Base.{
  ℕ, zero, suc, ◌+◌, ◌-◌, ◌^◌, ◌%◌, ◌≤◌, ◌<◌, ◌≡◌, refl, sym, ◌∙◌, arith, ltb, ◌==◌, Bool-cases,
  ◌⊎◌, inl, inr, true, ap, List, [], ◌∷◌, ◌++◌, some, none, append_assoc, append-nil, length, take,
}
use tux.Errno.{ok}
use tux.Btree.{IndexEntry, Bnode, bnode, Volume, Root, node_of, probe_next, search_entries}
use tux.Btree.Cursor.{
  PathLevel, Cursor, cursor_node, level_finished, pop_finished, advance, probe, show_leaves,
  show_tree_range, has_root,
}
use tux.Btree.Tree.{IsTree, AreEntries, bound, concat_leaves, leaves}
use tux.Btree.Search.{floor}
use tux.Btree.Probe.{IsTree-some, floor_entry, find_leaf, find_path, probe_levels-IsTree}
use tux.Btree.Advance.{rest_leaves, ArePath, descend-MovesTo, drop-length}

-- What the first loop leaves: nothing when no leaf is left, or a level with a next entry.
data Popped (vol : Volume) (height : ℕ) (path rest : List PathLevel) : Type 0 where
  done : rest ≡ [] → rest_leaves vol height path ≡ [] → Popped vol height path rest
  more :
      (at : ℕ) (level : PathLevel) (above : List PathLevel) (hi : ℕ)
      → rest ≡ level ∷ above
      → at + suc (length above) ≡ height + length path
      → level.next < length (cursor_node vol level)
      → AreEntries (IsTree vol at) (cursor_node vol level) hi
      → ArePath vol (suc at) above
      → rest_leaves vol height path ≡ rest_leaves vol at (level ∷ above)
      → Popped vol height path rest

rest_leaves-finished :
    (vol : Volume) (height : ℕ) (level : PathLevel) (path : List PathLevel)
    → level.next ≡ length (cursor_node vol level)
    → rest_leaves vol height (level ∷ path) ≡ rest_leaves vol (suc height) path
unfolding rest_leaves concat_leaves cursor_node
rest_leaves-finished vol height level path e = rw (e, drop-length (cursor_node vol level)) refl

pop_finished-Popped :
    (vol : Volume) (height : ℕ) (path : List PathLevel)
    → ArePath vol height path
    → Popped vol height path (pop_finished vol path)
unfolding pop_finished level_finished
pop_finished-Popped vol height [] h = done refl (unfold rest_leaves in refl)
pop_finished-Popped vol height (level ∷ path) (room, hi, tree, above) =
    elim (Bool-cases (level.next == length (cursor_node vol level))) [
      | inl e ↦
          let same = rest_leaves-finished vol height level path (ground arith) in
          rw e (elim (pop_finished-Popped vol (suc height) path above) [
            | done none_ rest ↦ done none_ (same ∙ rest)
            | more at l up end is len next tree_ up_ rest ↦
                more at l up end is (omega arith) next tree_ up_ (same ∙ rest)
          ])
      | inr e ↦ rw e (more height level path hi refl (omega arith) (ground arith) tree above refl)
    ]

-- On the path of a cursor at a leaf, `advance` ends at the next leaf that is left, with one less to
-- take; when none is left it ends the walk.
pub advance-rest_leaves :
    (vol : Volume) (root : Root) (cursor : Cursor)
    → ArePath vol 0 cursor.path
    → length cursor.path ≡ root.depth
    → ((rest_leaves vol 0 cursor.path ≡ []) × (advance vol root cursor ≡ ok none))
      ⊎ ((path : List PathLevel) × (leaf : ℕ) × (rest_leaves vol 0 cursor.path
            ≡ leaf ∷ rest_leaves vol 0 path)
          × (advance vol root cursor ≡ ok (some (record { path = path; leaf = some leaf })))
          × ArePath vol 0 path
          × (length path ≡ root.depth))
unfolding advance
advance-rest_leaves vol root cursor h len = elim (pop_finished-Popped vol 0 cursor.path h) [
  | done is rest ↦ inl (rest, rw (advance, is) refl)
  | more at level above hi is depth next tree up rest ↦
      let (path, leaf, moves, left, valid, long) =
        descend-MovesTo vol at level above hi next tree up in
      let e : root.depth - suc (length above) ≡ at = omega arith in
      inr (path, leaf, rest ∙ left, rw (advance, is, e, moves) refl, valid, omega arith)
]

-- The loop from a cursor at a leaf.
pub show_leaves-rest :
    (vol : Volume) (root : Root) (rounds leaf : ℕ) (path : List PathLevel)
    → ArePath vol 0 path
    → length path ≡ root.depth
    → show_leaves vol root rounds (record { path = path; leaf = some leaf })
      ≡ ok (take (suc rounds) (leaf ∷ rest_leaves vol 0 path))
unfolding show_leaves
show_leaves-rest vol root zero leaf path h len = refl
show_leaves-rest vol root (suc rounds) leaf path h len =
    let cursor : Cursor = record { path = path; leaf = some leaf } in
    elim (advance-rest_leaves vol root cursor h len) [
      | inl (left, moves) ↦ rw (show_leaves, moves, left) refl
      | inr (deeper, next, left, moves, valid, long) ↦
          rw (show_leaves, moves, left)
            (rw (show_leaves-rest vol root rounds next deeper valid long) refl)
    ]

-- The search of a key that the tree does not go below takes the first entry of every node.
floor_entry-first :
    (P : ℕ → ℕ → ℕ → Type 0) (first : IndexEntry) (entries : Bnode) (hi key : ℕ)
    → key ≤ first.key
    → AreEntries P (first ∷ entries) hi
    → (floor_entry (first ∷ entries) key ≡ first) × (probe_next (first ∷ entries) key ≡ 1)
unfolding floor_entry floor probe_next search_entries
floor_entry-first P first [] hi key h tree = (refl, refl)
floor_entry-first P first (g ∷ gs) hi key h tree =
    let e : ltb key g.key ≡ true = ground (arith, tree.0) in (rw e refl, rw e refl)

leaves-first :
    (vol : Volume) (depth block : ℕ) (path : List PathLevel) (first : IndexEntry) (entries : Bnode)
    → vol block ≡ some (bnode (first ∷ entries))
    → leaves vol (suc depth) block ++ rest_leaves vol (suc depth) path
      ≡ leaves vol depth first.block
        ++ rest_leaves vol depth (record { block = block; next = 1 } ∷ path)
unfolding leaves rest_leaves concat_leaves cursor_node node_of
leaves-first vol depth block path first entries e =
    rw e (append_assoc (leaves vol depth first.block) _ _)

pub find_path-first :
    (vol : Volume) (depth block lo hi key : ℕ) (path : List PathLevel)
    → key ≤ lo
    → IsTree vol depth block lo hi
    → ArePath vol depth path
    → (leaves vol depth block ++ rest_leaves vol depth path
        ≡ find_leaf vol depth block key ∷ rest_leaves vol 0 (find_path vol depth block key path))
      × ArePath vol 0 (find_path vol depth block key path)
      × (length (find_path vol depth block key path) ≡ depth + length path)
unfolding find_leaf find_path node_of
find_path-first vol zero block lo hi key path h tree above =
    (unfold leaves in refl, above, omega arith)
find_path-first vol (suc depth) block lo hi key path h (first, entries, e, low, tree) above =
    let (at, index) =
      floor_entry-first (IsTree vol depth) first entries hi key (omega arith) tree in
    let level : PathLevel = record { block = block; next = 1 } in
    let deeper : ArePath vol depth (level ∷ path) =
      unfold cursor_node in rw e (omega arith, hi, tree, above) in
    let n : suc depth + length path ≡ depth + length (level ∷ path) = omega arith in
    rw (leaves-first vol depth block path first entries e, e, n, at, index)
      (find_path-first vol depth first.block first.key (bound entries hi) key (level ∷ path)
        (omega arith) tree.1 deeper)

-- `show_tree_range` from a key that the tree does not go below dumps the first leaves of a valid tree
-- in order, `count` of them or all when there are fewer, each once and without an error; a count of 0
-- wraps around to 2^32.
pub show_tree_range-leaves :
    (vol : Volume) (root : Root) (lo hi start count : ℕ)
    → has_root root ≡ true
    → IsTree vol root.depth root.block lo hi
    → start ≤ lo
    → show_tree_range vol root start count
      ≡ ok (take (suc ((count + 2 ^ 32 - 1) % 2 ^ 32)) (leaves vol root.depth root.block))
unfolding show_tree_range probe
show_tree_range-leaves vol root lo hi start count rooted tree h =
    let (content, readable) = IsTree-some vol root.depth root.block lo hi tree in
    let (left, valid, long) = find_path-first vol root.depth root.block lo hi start [] h tree tt in
    let whole : leaves vol root.depth root.block ++ rest_leaves vol root.depth []
        ≡ leaves vol root.depth root.block =
      unfold rest_leaves in append-nil (leaves vol root.depth root.block) in
    rw
      (
        show_tree_range,
        rooted,
        readable,
        probe_levels-IsTree vol root.depth root.block lo hi start [] tree,
      )
      (show_leaves-rest vol root ((count + 2 ^ 32 - 1) % 2 ^ 32)
          (find_leaf vol root.depth root.block start) (find_path vol root.depth root.block start [])
          valid (omega arith)
        ∙ ap (λ l. ok (take (suc ((count + 2 ^ 32 - 1) % 2 ^ 32)) l)) (sym left ∙ whole))
