-- ===== src/Btree/Examples.antt =====
-- A small tree of two levels of index nodes, a node that is full, a cursor with a dirty parent.
use tux.Base.{
  ◌<◌, ◌≤◌, ◌⊎◌, ◌≢◌, ℕ, ◌+◌, ◌≡◌, ◌≢◌, refl, arith, ◌==◌, if◌then◌else◌, Bool, true, false, none,
  some, [], ◌∷◌, ◌++◌, take, suc, ◌%◌, ◌-◌, ◌^◌,
}
use tux.Errno.{Result, ok}
use tux.Btree.{
  probe_next, search_entries, entry_at, IndexEntry, Bnode, bnode, vleaf, Volume, Root, node_of,
}
use tux.Btree.Cursor.{
  probe_levels, next_key, level_finished, Cursor, cursor_node, has_root, probe, show_tree_range,
}
use tux.Btree.Edit.{
  Tree, split_node, add_child, insert_leaf, set_path, insert_levels, new_node, push_level, add_root,
  split_at, store,
}
use tux.Btree.Tree.{IsTree, AreEntries, leaves, flatten}
use tux.Btree.Search.{floor}
use tux.Btree.Probe.{floor_entry, find_path}
use tux.Btree.Refine.{probe-flatten}
use tux.Btree.Walk.{show_tree_range-leaves}
use tux.Btree.Separator.{probe-next_key}
use tux.Btree.Split.{split_node-add_child}
use tux.Btree.Insert.{IsFilled}
use tux.Btree.Filled.{insert_leaf-IsFilled}
use tux.Btree.Redirect.{
  Redirected, cursor_redirect, redirect_path, redirect_levels, clone_target, clone_leaf,
  clone_bnode, clone_block, push_block,
}
use tux.Btree.CopiedLeaf.{cursor_redirect-leaf}
use tux.Btree.CopyOnWrite.{cursor_redirect-vol}

abbrev entry : ℕ → ℕ → IndexEntry
entry key block = record { key = key; block = block }

abbrev two_levels : Volume
two_levels = λ b.
    if b == 1
    then some (bnode (entry 0 2 ∷ entry 50 3 ∷ []))
    else if b == 2
    then some (bnode (entry 0 10 ∷ entry 20 11 ∷ []))
    else if b == 3
    then some (bnode (entry 50 12 ∷ []))
    else if b == 10
    then some (vleaf [])
    else if b == 11
    then some (vleaf [])
    else if b == 12
    then some (vleaf [])
    else none

abbrev top : Root
top = record { block = 1; depth = 2 }

left_entries : AreEntries (IsTree two_levels 0) (entry 0 10 ∷ entry 20 11 ∷ []) 50
left_entries = (omega arith, (omega arith, [], refl), (omega arith, (omega arith, [], refl), tt))

right_entries : AreEntries (IsTree two_levels 0) (entry 50 12 ∷ []) 100
right_entries = (omega arith, (omega arith, [], refl), tt)

top_entries : AreEntries (IsTree two_levels 1) (entry 0 2 ∷ entry 50 3 ∷ []) 100
top_entries = (
  omega arith,
  (entry 0 10, entry 20 11 ∷ [], refl, omega arith, left_entries),
  (omega arith, (entry 50 12, [], refl, omega arith, right_entries), tt),
)

two_levels-IsTree : IsTree two_levels 2 1 0 100
two_levels-IsTree = (entry 0 2, entry 50 3 ∷ [], refl, omega arith, top_entries)

probe-flatten_example :
    probe two_levels top 30
    ≡ ok (record {
      path = find_path two_levels 2 1 30 [];
      leaf = some (floor_entry (flatten two_levels 2 1 0) 30).block;
    })
probe-flatten_example = probe-flatten two_levels top 0 100 30 two_levels-IsTree

-- The flattened tree finds leaf 11.
flatten-test : (floor_entry (flatten two_levels 2 1 0) 30).block ≡ 11
unfolding floor_entry flatten node_of floor
flatten-test = refl

show_tree_range-leaves_example :
    show_tree_range two_levels top 0 5
    ≡ ok (take (suc ((5 + 2 ^ 32 - 1) % 2 ^ 32)) (leaves two_levels 2 1))
unfolding has_root
show_tree_range-leaves_example =
    show_tree_range-leaves two_levels top 0 100 0 5 refl two_levels-IsTree (omega arith)

abbrev second_leaf : Cursor
second_leaf = record {
  path = record { block = 2; next = 2 } ∷ record { block = 1; next = 1 } ∷ [];
  leaf = some 11;
}

-- The leaf of key 30 ends at key 50.
probe-next_key_example :
    (30 < next_key two_levels second_leaf.path)
    × ((next_key two_levels second_leaf.path ≤ 49)
        ⊎ (probe two_levels top 49 ≡ probe two_levels top 30))
    × ((next_key two_levels second_leaf.path ≡ 2 ^ 64 - 1)
        ⊎ (probe two_levels top (next_key two_levels second_leaf.path) ≢ probe two_levels top 30))
unfolding probe probe_levels probe_next search_entries entry_at node_of next_key level_finished
    cursor_node
probe-next_key_example =
    probe-next_key two_levels top 0 100 30 49 second_leaf two_levels-IsTree (omega arith)
      (omega arith) (omega arith) refl

-- A cursor at the first leaf.
abbrev first_leaf : Cursor
first_leaf = record {
  path = record { block = 2; next = 1 } ∷ record { block = 1; next = 1 } ∷ [];
  leaf = some 10;
}

abbrev pair : Bnode
pair = entry 0 10 ∷ entry 20 11 ∷ []

split_node-add_child_example :
    (split_node pair 2 12 40).0 ++ (split_node pair 2 12 40).1 ≡ add_child pair 2 12 40
split_node-add_child_example = split_node-add_child pair 2 12 40 (omega arith)

-- Every node is full, and the allocator counts up.
abbrev full_tree : Tree ℕ
full_tree = record {
  vol = λ b. some (bnode pair);
  root = record { block = 1; depth = 1 };
  alloc = 0;
  log = [];
  entries_per_node = 2;
}

abbrev count_up : ℕ → Result (ℕ × ℕ)
count_up s = ok (s + 100, s + 1)

abbrev always : ℕ → Bool
always block = true

abbrev last_leaf : Cursor
last_leaf = record { path = record { block = 1; next = 2 } ∷ []; leaf = some 11 }

full_tree-IsFilled : IsFilled full_tree
unfolding node_of
full_tree-IsFilled = record { room = omega arith; filled = λ b. omega arith }

insert_leaf-IsFilled_example :
    IsFilled (insert_leaf count_up always full_tree last_leaf 40 12 false).1
insert_leaf-IsFilled_example =
    insert_leaf-IsFilled count_up always full_tree last_leaf 40 12 false full_tree-IsFilled

-- The split and the new root leave the cursor at the new leaf.
abbrev inserted : Cursor
inserted = record {
  path = record { block = 100; next = 2 } ∷ record { block = 101; next = 2 } ∷ [];
  leaf = some 12;
}

insert_leaf-test : (insert_leaf count_up always full_tree last_leaf 40 12 false).0 ≡ ok inserted
unfolding insert_leaf set_path insert_levels cursor_node node_of new_node push_level add_root
    split_at split_node store
insert_leaf-test = refl

-- Block 2 is dirty, leaf 10 is not.
abbrev half_dirty : Redirected ℕ
half_dirty = record {
  vol = two_levels;
  root = top;
  alloc = 0;
  dirty = λ b. b == 2;
  defree = [];
  derollup = [];
  log = [];
}

count_up_high : (s s2 b : ℕ) → count_up s ≡ ok (b, s2) → b ≢ 10
count_up_high s s2 b e = ground arith

cursor_redirect-vol_example :
    (cursor_redirect count_up always true half_dirty first_leaf).1.vol 10 ≡ some (vleaf [])
cursor_redirect-vol_example =
    cursor_redirect-vol count_up always 10 (λ s s2 b e. count_up_high s s2 b e) true half_dirty
      first_leaf

-- No block is dirty: both index nodes are copied behind the leaf.
abbrev all_clean : Redirected ℕ
all_clean = record half_dirty { dirty = λ b. false }

abbrev copied_path : Cursor
copied_path = record {
  path = record { block = 101; next = 1 } ∷ record { block = 102; next = 1 } ∷ [];
  leaf = some 100;
}

cursor_redirect-leaf_example :
    (new : ℕ) × (some 100 ≡ some new)
    × ((cursor_redirect count_up always true all_clean first_leaf).1.dirty new ≡ true)
    × ((cursor_redirect count_up always true all_clean first_leaf).1.vol new ≡ two_levels 10)
unfolding cursor_redirect redirect_path redirect_levels clone_target clone_leaf clone_bnode
    clone_block push_block
cursor_redirect-leaf_example =
    cursor_redirect-leaf count_up always (λ s x. x < s + 100) (λ s s2 b e. ground arith)
      (λ s s2 b x h e. (ground arith, ground arith)) all_clean
      (cursor_redirect count_up always true all_clean first_leaf).1 first_leaf copied_path 10 refl
      refl
