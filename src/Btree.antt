-- ===== src/Btree.antt =====
-- Btrees (user/kernel/btree.c): the index nodes, the volume that holds them, and the search of a node.
-- The cursor's walks are in Cursor, the changes of nodes in Edit, the copies before a change in
-- Redirect.
pub mod Cursor
pub mod Edit
pub mod Redirect
mod Tree
mod Search
mod Probe
mod Refine
mod Advance
mod Walk
mod NextKey
mod Separator
mod Split
mod Insert
mod Filled
mod CopyOnWrite
mod CopiedLeaf
mod Examples
use tux.Base.{
  ℕ, zero, suc, ◌+◌, ◌-◌, ◌/◌, ◌==◌, ltb, if◌then◌else◌, Bool, Option, none, some, List, [], ◌∷◌,
  get_or, length,
}

-- struct index_entry
pub record IndexEntry : Type 0 where
  pub key : ℕ
  pub block : ℕ

-- The entries of a struct bnode, which are as many as its count.
abbrev pub Bnode : Type 0
Bnode = List IndexEntry

-- What a block of a tree holds. The bytes of a leaf are the leaf operations' alone.
pub data Block : Type 0 where
  bnode : Bnode → Block
  vleaf : List ℕ → Block

-- The blocks of the volume; one that `vol_bread` cannot read is `none`.
abbrev pub Volume : Type 0
Volume = ℕ → Option Block

pub record Root : Type 0 where
  pub block : ℕ
  pub depth : ℕ

abbrev pub no_root : Root
no_root = record { block = 0; depth = 0 }

-- The sizes of struct bnode and struct index_entry are 8 and 16.
unfoldable pub calc_entries_per_node : ℕ → ℕ
calc_entries_per_node blocksize = (blocksize - 8) / 16

-- A block read as an index node.
unfoldable pub node_of : Option Block → Bnode
node_of none = []
node_of (some (bnode node)) = node
node_of (some (vleaf bytes)) = []

-- The entry at an index; past the count stand the zeros of a new node.
unfoldable pub entry_at : Bnode → ℕ → IndexEntry
entry_at node i = get_or node i (record { key = 0; block = 0 })

-- The loop of `probe` over the entries after the first: the index of the first one above the key.
unfoldable pub search_entries : List IndexEntry → ℕ → ℕ → ℕ
search_entries [] key next = next
search_entries (entry ∷ entries) key next =
    let rest = search_entries entries key (next + 1) in if ltb key entry.key then next else rest

unfoldable pub probe_next : Bnode → ℕ → ℕ
probe_next [] key = 1
probe_next (entry ∷ entries) key = search_entries entries key 1
