-- ===== src/Btree/Cursor.antt =====
-- The cursor of btree.c and its walks: `probe`, `advance`, `next_key`.
use tux.Base.{
  ℕ, zero, suc, ◌+◌, ◌-◌, ◌^◌, ◌%◌, ◌==◌, ◌||◌, not, if◌then◌else◌, Bool, Option, none, some, List,
  [], ◌∷◌, length,
}
use tux.Errno.{Result, ok, err, eio}
use tux.Btree.{Bnode, Volume, Root, no_root, node_of, entry_at, probe_next}

-- An index node of the path: its block, and the index of the next entry to load.
pub record PathLevel : Type 0 where
  pub block : ℕ
  pub next : ℕ

-- The index nodes from the deepest up to the root, and the leaf, which has no next entry. `level_push`
-- is a level in front and `level_pop` the levels behind.
pub record Cursor : Type 0 where
  pub path : List PathLevel
  pub leaf : Option ℕ

unfoldable pub cursor_node : Volume → PathLevel → Bnode
cursor_node vol level = node_of (vol level.block)

unfoldable pub level_finished : Volume → PathLevel → Bool
level_finished vol level = level.next == length (cursor_node vol level)

-- The loop of `probe` from a block that has been read, by the levels below it.
unfoldable pub probe_levels : Volume → ℕ → ℕ → ℕ → List PathLevel → Result Cursor
probe_levels vol zero block key path = ok (record { path = path; leaf = some block })
probe_levels vol (suc depth) block key path =
    let node = node_of (vol block) in
    let next = probe_next node key in
    let child = (entry_at node (next - 1)).block in
    let rest = probe_levels vol depth child key (record { block = block; next = next } ∷ path) in
    elim (vol child) [ none ↦ err eio | some _ ↦ rest ]

unfoldable pub probe : Volume → Root → ℕ → Result Cursor
probe vol root key = elim (vol root.block) [
  | none ↦ err eio
  | some _ ↦ probe_levels vol root.depth root.block key []
]

-- The first loop of `advance`, once the leaf is popped.
unfoldable pub pop_finished : Volume → List PathLevel → List PathLevel
pop_finished vol [] = []
pop_finished vol (level ∷ path) =
    let rest = pop_finished vol path in if level_finished vol level then rest else level ∷ path

-- Its second loop, by the levels of index nodes below this one.
unfoldable pub descend : Volume → ℕ → PathLevel → List PathLevel → Result Cursor
descend vol zero level path =
    let child = (entry_at (cursor_node vol level) level.next).block in
    let passed = record level { next = level.next + 1 } ∷ path in
    elim (vol child) [ none ↦ err eio | some _ ↦ ok (record { path = passed; leaf = some child }) ]
descend vol (suc below) level path =
    let child = (entry_at (cursor_node vol level) level.next).block in
    let passed = record level { next = level.next + 1 } ∷ path in
    let rest = descend vol below (record { block = child; next = 0 }) passed in
    elim (vol child) [ none ↦ err eio | some _ ↦ rest ]

-- `ok none` is the 0 of a cursor that has passed the last leaf.
unfoldable pub advance : Volume → Root → Cursor → Result (Option Cursor)
advance vol root cursor = elim (pop_finished vol cursor.path) [
  | [] ↦ ok none
  | level ∷ path ↦ elim (descend vol (root.depth - suc (length path)) level path) [
    | err e ↦ err e
    | ok moved ↦ ok (some moved)
  ]
]

-- `next_key` at the deepest level; 2^64 - 1 when every level is finished.
unfoldable pub next_key : Volume → List PathLevel → ℕ
next_key vol [] = 2 ^ 64 - 1
next_key vol (level ∷ path) =
    let above = next_key vol path in
    if level_finished vol level then above else (entry_at (cursor_node vol level) level.next).key

-- The loop of `show_tree_range`: the leaves it dumps, with this many further rounds. After a failed
-- `advance` the assertion of `cursor_leafbuf` stops it.
unfoldable pub show_leaves : Volume → Root → ℕ → Cursor → Result (List ℕ)
show_leaves vol root zero cursor = elim cursor.leaf [ none ↦ err eio | some leaf ↦ ok (leaf ∷ []) ]
show_leaves vol root (suc rounds) cursor = elim cursor.leaf [
  | none ↦ err eio
  | some leaf ↦ elim (advance vol root cursor) [
    | err e ↦ err e
    | ok moved ↦ elim moved [
      | none ↦ ok (leaf ∷ [])
      | some further ↦ elim (show_leaves vol root rounds further) [
        | err e ↦ err e
        | ok others ↦ ok (leaf ∷ others)
      ]
    ]
  ]
]

unfoldable pub has_root : Root → Bool
has_root root = not (root.block == no_root.block) || not (root.depth == no_root.depth)

-- `count` is unsigned: 0 wraps around.
unfoldable pub show_tree_range : Volume → Root → ℕ → ℕ → Result (List ℕ)
show_tree_range vol root start count =
    if not (has_root root) then ok [] else elim (probe vol root start) [
      | err e ↦ err e
      | ok cursor ↦ show_leaves vol root ((count + 2 ^ 32 - 1) % 2 ^ 32) cursor
    ]

unfoldable pub show_tree : Volume → Root → Result (List ℕ)
show_tree vol root = show_tree_range vol root 0 (2 ^ 32 - 1)
