-- ===== src/Btree/Tree.antt =====
-- Valid trees on a volume (user/kernel/btree.c), their leaves, and their separators as one node.
use tux.Base.{ℕ, zero, suc, ◌≤◌, ◌<◌, ◌≡◌, List, [], ◌∷◌, ◌++◌, some}
use tux.Btree.{IndexEntry, Bnode, bnode, vleaf, Volume, node_of}

-- The key that ends the range of an entry: the next entry's, or the node's own end.
abbrev pub bound : Bnode → ℕ → ℕ
bound [] hi = hi
bound (entry ∷ entries) hi = entry.key

-- Ascending keys below `hi`, each entry with its block over its range.
abbrev pub AreEntries : (ℕ → ℕ → ℕ → Type 0) → Bnode → ℕ → Type 0
AreEntries P [] hi = Unit
AreEntries P (entry ∷ entries) hi =
    (entry.key < bound entries hi)
    × P entry.block entry.key (bound entries hi)
    × AreEntries P entries hi

-- A tree of this depth at a block, with keys from `lo` up to `hi`. No index node is empty.
abbrev pub IsTree : Volume → ℕ → ℕ → ℕ → ℕ → Type 0
IsTree vol zero block lo hi = (lo < hi) × (bytes : List ℕ) × (vol block ≡ some (vleaf bytes))
IsTree vol (suc depth) block lo hi =
    (first : IndexEntry) × (entries : List IndexEntry) × (vol block
      ≡ some (bnode (first ∷ entries)))
    × (lo ≤ first.key)
    × AreEntries (IsTree vol depth) (first ∷ entries) hi

unfoldable pub concat_leaves : (ℕ → List ℕ) → Bnode → List ℕ
concat_leaves below [] = []
concat_leaves below (entry ∷ entries) = below entry.block ++ concat_leaves below entries

-- The blocks of the leaves, in order.
unfoldable pub leaves : Volume → ℕ → ℕ → List ℕ
unfolding concat_leaves
leaves vol zero block = block ∷ []
leaves vol (suc depth) block = concat_leaves (leaves vol depth) (node_of (vol block))

unfoldable pub flatten_entries : (ℕ → ℕ → Bnode) → Bnode → Bnode
flatten_entries below [] = []
flatten_entries below (entry ∷ entries) =
    below entry.block entry.key ++ flatten_entries below entries

unfoldable pub flatten_first : (ℕ → ℕ → Bnode) → ℕ → Bnode → Bnode
unfolding flatten_entries
flatten_first below lo [] = []
flatten_first below lo (entry ∷ entries) = below entry.block lo ++ flatten_entries below entries

-- The tree as a single index node over all its leaves. The first key of a node is never read, so the
-- separator above stands for it.
unfoldable pub flatten : Volume → ℕ → ℕ → ℕ → Bnode
unfolding flatten_first
flatten vol zero block lo = record { key = lo; block = block } ∷ []
flatten vol (suc depth) block lo = flatten_first (flatten vol depth) lo (node_of (vol block))
