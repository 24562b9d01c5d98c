-- ===== src/Btree/Advance.antt =====
-- `advance` (user/kernel/btree.c): the leaves left to a cursor, and the loop down to a leaf.
use tux.Base.{
  ℕ, zero, suc, ◌+◌, ◌≤◌, ◌<◌, ◌≡◌, refl, sym, arith, List, [], ◌∷◌, ◌++◌, some, append_assoc,
  length, drop,
}
use tux.Errno.{Result, ok}
use tux.Btree.{Bnode, Block, Volume, node_of, entry_at}
use tux.Btree.Cursor.{PathLevel, Cursor, cursor_node, descend}
use tux.Btree.Tree.{IsTree, AreEntries, bound, concat_leaves, leaves}
use tux.Btree.Probe.{IsTree-some}

-- The leaves that the cursor has not passed yet, by the height of the levels' children.
unfoldable pub rest_leaves : Volume → ℕ → List PathLevel → List ℕ
unfolding concat_leaves
rest_leaves vol height [] = []
rest_leaves vol height (level ∷ path) =
    concat_leaves (leaves vol height) (drop level.next (cursor_node vol level))
    ++ rest_leaves vol (suc height) path

-- Levels whose nodes hold valid trees, with no next entry behind a node's end.
abbrev pub ArePath : Volume → ℕ → List PathLevel → Type 0
ArePath vol height [] = Unit
ArePath vol height (level ∷ path) =
    (level.next ≤ length (cursor_node vol level))
    × (hi : ℕ) × AreEntries (IsTree vol height) (cursor_node vol level) hi
    × ArePath vol (suc height) path

pub drop-length : (node : Bnode) → drop (length node) node ≡ []
drop-length [] = refl
drop-length (x ∷ xs) = drop-length xs

drop-entry_at :
    (node : Bnode) (next : ℕ)
    → next < length node
    → drop next node ≡ entry_at node next ∷ drop (next + 1) node
unfolding entry_at
drop-entry_at [] next h = elim h [ ]
drop-entry_at (x ∷ xs) zero h = refl
drop-entry_at (x ∷ xs) (suc next) h =
    let e : suc next + 1 ≡ suc (next + 1) = omega arith in
    rw e (drop-entry_at xs next (omega arith))

-- The entry at an index inside a node holds a tree.
entry_at-AreEntries :
    (P : ℕ → ℕ → ℕ → Type 0) (node : Bnode) (hi next : ℕ)
    → next < length node
    → AreEntries P node hi
    → (lo : ℕ) × (end : ℕ) × P (entry_at node next).block lo end
unfolding entry_at
entry_at-AreEntries P [] hi next h tree = elim h [ ]
entry_at-AreEntries P (x ∷ xs) hi zero h tree = (x.key, bound xs hi, tree.1)
entry_at-AreEntries P (x ∷ xs) hi (suc next) h tree =
    entry_at-AreEntries P xs hi next (omega arith) tree.2

-- What `descend` does: it ends at the first leaf that was left.
abbrev pub MovesTo : Volume → ℕ → Result Cursor → List ℕ → Type 0
MovesTo vol depth result rest =
    (path : List PathLevel) × (leaf : ℕ) × (result ≡ ok (record { path = path; leaf = some leaf }))
    × (rest ≡ leaf ∷ rest_leaves vol 0 path)
    × ArePath vol 0 path
    × (length path ≡ depth)

-- The cursor's next entry, and the level behind it.
unfoldable pub next_child : Volume → PathLevel → ℕ
next_child vol level = (entry_at (node_of (vol level.block)) level.next).block

unfoldable pub pass : PathLevel → PathLevel
pass level = record level { next = level.next + 1 }

pub rest_leaves-pass :
    (vol : Volume) (height : ℕ) (level : PathLevel) (path : List PathLevel)
    → level.next < length (cursor_node vol level)
    → rest_leaves vol height (level ∷ path)
      ≡ leaves vol height (next_child vol level) ++ rest_leaves vol height (pass level ∷ path)
unfolding rest_leaves next_child pass cursor_node concat_leaves
rest_leaves-pass vol height level path h =
    rw (drop-entry_at (node_of (vol level.block)) level.next h)
      (append_assoc (leaves vol height (entry_at (node_of (vol level.block)) level.next).block) _ _)

next_child-IsTree :
    (vol : Volume) (height : ℕ) (level : PathLevel) (hi : ℕ)
    → level.next < length (cursor_node vol level)
    → AreEntries (IsTree vol height) (cursor_node vol level) hi
    → (lo : ℕ) × (end : ℕ) × IsTree vol height (next_child vol level) lo end
unfolding next_child cursor_node
next_child-IsTree vol height level hi h tree =
    entry_at-AreEntries (IsTree vol height) (node_of (vol level.block)) hi level.next h tree

ArePath-pass :
    (vol : Volume) (height : ℕ) (level : PathLevel) (path : List PathLevel) (hi : ℕ)
    → level.next < length (cursor_node vol level)
    → AreEntries (IsTree vol height) (cursor_node vol level) hi
    → ArePath vol (suc height) path
    → ArePath vol height (pass level ∷ path)
unfolding pass cursor_node
ArePath-pass vol height level path hi h tree above = (omega arith, hi, tree, above)

descend-zero :
    (vol : Volume) (level : PathLevel) (path : List PathLevel) (content : Block)
    → vol (next_child vol level) ≡ some content
    → descend vol zero level path
      ≡ ok (record { path = pass level ∷ path; leaf = some (next_child vol level) })
unfolding descend next_child cursor_node pass
descend-zero vol level path content readable = rw (descend, readable) refl

descend-suc :
    (vol : Volume) (below : ℕ) (level : PathLevel) (path : List PathLevel) (content : Block)
    → vol (next_child vol level) ≡ some content
    → descend vol (suc below) level path
      ≡ descend vol below (record { block = next_child vol level; next = 0 }) (pass level ∷ path)
unfolding descend next_child cursor_node pass
descend-suc vol below level path content readable = rw (descend, readable) refl

-- At a level just pushed every leaf of its block is left.
pub rest_leaves-first :
    (vol : Volume) (height block : ℕ) (path : List PathLevel)
    → rest_leaves vol height (record { block = block; next = 0 } ∷ path)
      ≡ leaves vol (suc height) block ++ rest_leaves vol (suc height) path
unfolding rest_leaves leaves cursor_node
rest_leaves-first vol height block path = refl

pub first_level :
    (vol : Volume) (height block lo hi : ℕ)
    → IsTree vol (suc height) block lo hi
    → (0 < length (cursor_node vol (record { block = block; next = 0 })))
      × (end : ℕ) × AreEntries
          (IsTree vol height)
          (cursor_node vol (record { block = block; next = 0 }))
          end
unfolding cursor_node node_of
first_level vol height block lo hi (first, entries, e, low, h) = rw e (omega arith, hi, h)

pub descend-MovesTo :
    (vol : Volume) (below : ℕ) (level : PathLevel) (path : List PathLevel) (hi : ℕ)
    → level.next < length (cursor_node vol level)
    → AreEntries (IsTree vol below) (cursor_node vol level) hi
    → ArePath vol (suc below) path
    → MovesTo vol
        (below + suc (length path))
        (descend vol below level path)
        (rest_leaves vol below (level ∷ path))
descend-MovesTo vol zero level path hi h tree above =
    let (lo, end, child) = next_child-IsTree vol zero level hi h tree in
    let (content, readable) = IsTree-some vol zero (next_child vol level) lo end child in
    (
      pass level ∷ path,
      next_child vol level,
      descend-zero vol level path content readable,
      rw (rest_leaves-pass vol zero level path h) (unfold leaves in refl),
      ArePath-pass vol zero level path hi h tree above,
      omega arith,
    )
descend-MovesTo vol (suc below) level path hi h tree above =
    let (lo, end, child) = next_child-IsTree vol (suc below) level hi h tree in
    let (content, readable) = IsTree-some vol (suc below) (next_child vol level) lo end child in
    let deeper : PathLevel = record { block = next_child vol level; next = 0 } in
    let (room, hi2, entries) = first_level vol below (next_child vol level) lo end child in
    let moved =
      descend-MovesTo vol below deeper (pass level ∷ path) hi2 room entries
        (ArePath-pass vol (suc below) level path hi h tree above) in
    let e : below + suc (length (pass level ∷ path)) ≡ suc below + suc (length path) =
      omega arith in
    rw
      (
        descend-suc vol below level path content readable,
        rest_leaves-pass vol (suc below) level path h,
      )
      (rw (sym (rest_leaves-first vol below (next_child vol level) (pass level ∷ path)), sym e)
        moved)
