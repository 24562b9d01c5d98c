-- ===== src/Btree/Probe.antt =====
-- `probe` (user/kernel/btree.c) on a valid tree: its path and its leaf.
use tux.Base.{ℕ, zero, suc, ◌-◌, ◌≡◌, refl, ltb, Bool-cases, inl, inr, List, [], ◌∷◌, some}
use tux.Errno.{ok}
use tux.Btree.{IndexEntry, Bnode, Block, Volume, node_of, entry_at, probe_next}
use tux.Btree.Cursor.{PathLevel, probe_levels}
use tux.Btree.Tree.{IsTree, AreEntries}
use tux.Btree.Search.{floor, search_entries-floor}

-- The entry of a node that the search takes, and the leaf that it ends at.
unfoldable pub floor_entry : Bnode → ℕ → IndexEntry
floor_entry [] key = record { key = 0; block = 0 }
floor_entry (entry ∷ entries) key = floor entries key entry

pub entry_at-probe_next :
    (node : Bnode) (key : ℕ) → entry_at node (probe_next node key - 1) ≡ floor_entry node key
unfolding entry_at probe_next floor_entry
entry_at-probe_next [] key = refl
entry_at-probe_next (entry ∷ entries) key = search_entries-floor entry entries key

unfoldable pub find_leaf : Volume → ℕ → ℕ → ℕ → ℕ
find_leaf vol zero block key = block
find_leaf vol (suc depth) block key =
    find_leaf vol depth (floor_entry (node_of (vol block)) key).block key

unfoldable pub find_path : Volume → ℕ → ℕ → ℕ → List PathLevel → List PathLevel
find_path vol zero block key path = path
find_path vol (suc depth) block key path =
    let node = node_of (vol block) in
    find_path vol depth (floor_entry node key).block key
      (record { block = block; next = probe_next node key } ∷ path)

-- The entry that the search takes holds a subtree.
pub floor-AreEntries :
    (P : ℕ → ℕ → ℕ → Type 0) (first : IndexEntry) (entries : Bnode) (hi key : ℕ)
    → AreEntries P (first ∷ entries) hi
    → (lo : ℕ) × (end : ℕ) × P (floor entries key first).block lo end
unfolding floor
floor-AreEntries P first [] hi key h = (first.key, hi, h.1)
floor-AreEntries P first (entry ∷ entries) hi key h = elim (Bool-cases (ltb key entry.key)) [
  | inl e ↦ rw e (first.key, entry.key, h.1)
  | inr e ↦ rw e (floor-AreEntries P entry entries hi key h.2)
]

pub floor_entry-AreEntries :
    (P : ℕ → ℕ → ℕ → Type 0) (first : IndexEntry) (entries : Bnode) (hi key : ℕ)
    → AreEntries P (first ∷ entries) hi
    → (lo : ℕ) × (end : ℕ) × P (floor_entry (first ∷ entries) key).block lo end
unfolding floor_entry
floor_entry-AreEntries P first entries hi key h = floor-AreEntries P first entries hi key h

pub IsTree-some :
    (vol : Volume) (depth block lo hi : ℕ)
    → IsTree vol depth block lo hi
    → (content : Block) × (vol block ≡ some content)
IsTree-some vol zero block lo hi (order, bytes, e) = (_, e)
IsTree-some vol (suc depth) block lo hi (first, entries, e, low, rest) = (_, e)

probe_levels-step :
    (vol : Volume) (depth block key : ℕ) (path : List PathLevel) (node : Bnode) (content : Block)
    → node_of (vol block) ≡ node
    → vol (floor_entry node key).block ≡ some content
    → probe_levels vol (suc depth) block key path
      ≡ probe_levels vol depth
          (floor_entry node key).block
          key
          (record { block = block; next = probe_next node key } ∷ path)
unfolding probe_levels
probe_levels-step vol depth block key path node content e readable =
    rw (e, probe_levels, entry_at-probe_next node key, readable)
      (rw (e, entry_at-probe_next node key) refl)

pub probe_levels-IsTree :
    (vol : Volume) (depth block lo hi key : ℕ) (path : List PathLevel)
    → IsTree vol depth block lo hi
    → probe_levels vol depth block key path
      ≡ ok (record {
        path = find_path vol depth block key path;
        leaf = some (find_leaf vol depth block key);
      })
unfolding find_path find_leaf node_of
probe_levels-IsTree vol zero block lo hi key path h = unfold probe_levels in refl
probe_levels-IsTree vol (suc depth) block lo hi key path (first, entries, e, low, h) =
    let child = floor_entry (first ∷ entries) key in
    let (from, end, tree) = floor_entry-AreEntries (IsTree vol depth) first entries hi key h in
    let (content, readable) = IsTree-some vol depth child.block from end tree in
    let step =
      probe_levels-step vol depth block key path (first ∷ entries) content (rw e refl) readable in
    rw (step, e)
      (probe_levels-IsTree vol depth child.block from end key
        (record { block = block; next = probe_next (first ∷ entries) key } ∷ path) tree)
