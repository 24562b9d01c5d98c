-- ===== src/Btree/NextKey.antt =====
-- `next_key` (user/kernel/btree.c) after a probe.
use tux.Base.{
  ℕ, zero, suc, ◌+◌, ◌≤◌, ◌<◌, ◌≡◌, refl, arith, ltb, ◌==◌, if◌then◌else◌, Bool-cases, inl, inr,
  true, false, List, [], ◌∷◌, some, length,
}
use native.Mathlib.Nat.{le_refl, le_trans}
use tux.Errno.{Result, ok, err}
use tux.Btree.{IndexEntry, Bnode, Volume, Root, node_of, entry_at, probe_next, search_entries}
use tux.Btree.Cursor.{PathLevel, Cursor, cursor_node, level_finished, next_key, probe}
use tux.Btree.Tree.{IsTree, AreEntries, bound}
use tux.Btree.Search.{floor, search_entries_shift}
use tux.Btree.Probe.{floor_entry, find_leaf, find_path, IsTree-some, probe_levels-IsTree}

-- The key of the first entry above `key`; `end` when there is none.
unfoldable pub above : Bnode → ℕ → ℕ → ℕ
above [] key end = end
above (entry ∷ entries) key end =
    let rest = above entries key end in if ltb key entry.key then entry.key else rest

above-next :
    (first : IndexEntry) (entries : Bnode) (key end : ℕ)
    → (if search_entries entries key 1 == length (first ∷ entries)
        then end
        else (entry_at (first ∷ entries) (search_entries entries key 1)).key)
      ≡ above entries key end
unfolding search_entries entry_at above
above-next first [] key end = refl
above-next first (entry ∷ entries) key end = elim (Bool-cases (ltb key entry.key)) [
  | inl e ↦ rw e (ground arith)
  | inr e ↦
      let n = search_entries entries key 1 in
      let e1 : search_entries entries key 2 ≡ suc n =
        omega (arith, search_entries_shift entries key 1) in
      let e2 : (suc n == suc (suc (length entries))) ≡ (n == suc (length entries)) = ground arith in
      rw (e, e1, e2) (above-next entry entries key end)
]

-- The subtree that the search takes ends at that key.
pub floor-above :
    (P : ℕ → ℕ → ℕ → Type 0) (first : IndexEntry) (entries : Bnode) (hi key : ℕ)
    → AreEntries P (first ∷ entries) hi
    → (lo : ℕ) × P (floor entries key first).block lo (above entries key hi)
unfolding floor above
floor-above P first [] hi key h = (first.key, h.1)
floor-above P first (entry ∷ entries) hi key h = elim (Bool-cases (ltb key entry.key)) [
  | inl e ↦ rw e (first.key, h.1)
  | inr e ↦ rw e (floor-above P entry entries hi key h.2)
]

pub above_mono :
    (entries : Bnode) (key end end2 : ℕ)
    → end ≤ end2
    → above entries key end ≤ above entries key end2
unfolding above
above_mono [] key end end2 h = h
above_mono (entry ∷ entries) key end end2 h = elim (Bool-cases (ltb key entry.key)) [
  | inl e ↦ rw e (le_refl entry.key)
  | inr e ↦ rw e (above_mono entries key end end2 h)
]

pub above-end :
    (P : ℕ → ℕ → ℕ → Type 0) (entries : Bnode) (key hi end : ℕ)
    → AreEntries P entries hi
    → hi ≤ end
    → (bound entries hi ≤ end) × (above entries key end ≤ end)
unfolding above
above-end P [] key hi end h low = (low, le_refl end)
above-end P (entry ∷ entries) key hi end h low =
    let (next, rest) = above-end P entries key hi end h.2 low in
    let lower = h.0 in
    let first : entry.key ≤ end = omega arith in
    elim (Bool-cases (ltb key entry.key)) [
      | inl e ↦ rw e (first, first)
      | inr e ↦ rw e (first, rest)
    ]

-- The keys up to there are searched alike.
pub search-above :
    (entries : Bnode) (key key2 end next : ℕ) (best : IndexEntry)
    → key ≤ key2
    → key2 < above entries key end
    → (search_entries entries key2 next ≡ search_entries entries key next)
      × (floor entries key2 best ≡ floor entries key best)
unfolding search_entries floor above
search-above [] key key2 end next best h lt = (refl, refl)
search-above (entry ∷ entries) key key2 end next best h lt = elim (Bool-cases (ltb key entry.key)) [
  | inl e ↦
      let low : key2 < entry.key = rw e at lt in
      let e2 : ltb key2 entry.key ≡ true = ground arith in rw (e, e2) (refl, refl)
  | inr e ↦
      let e2 : ltb key2 entry.key ≡ false = ground arith in
      let rest : key2 < above entries key end = rw e at lt in
      rw (e, e2) (search-above entries key key2 end (next + 1) entry h rest)
]

-- At a level that a search has just pushed.
pub next_key-above :
    (vol : Volume) (block key : ℕ) (path : List PathLevel) (first : IndexEntry) (entries : Bnode)
    → node_of (vol block) ≡ first ∷ entries
    → next_key vol (record { block = block; next = probe_next (first ∷ entries) key } ∷ path)
      ≡ above entries key (next_key vol path)
unfolding next_key level_finished cursor_node probe_next
next_key-above vol block key path first entries e =
    rw e (above-next first entries key (next_key vol path))

abbrev pub path_of : Result Cursor → List PathLevel
path_of (err e) = []
path_of (ok cursor) = cursor.path

pub probe-IsTree :
    (vol : Volume) (root : Root) (lo hi key : ℕ)
    → IsTree vol root.depth root.block lo hi
    → probe vol root key
      ≡ ok (record {
        path = find_path vol root.depth root.block key [];
        leaf = some (find_leaf vol root.depth root.block key);
      })
unfolding probe
probe-IsTree vol root lo hi key tree =
    let (content, readable) = IsTree-some vol root.depth root.block lo hi tree in
    rw (probe, readable) (probe_levels-IsTree vol root.depth root.block lo hi key [] tree)

-- Below the next key of a path the search goes on alike, and the key is at most that of the levels above.
pub find_path-next_key :
    (vol : Volume) (depth block lo hi key : ℕ) (path : List PathLevel)
    → IsTree vol depth block lo hi
    → hi ≤ next_key vol path
    → (next_key vol (find_path vol depth block key path) ≤ next_key vol path)
      × ((key2 : ℕ)
          → key ≤ key2
          → key2 < next_key vol (find_path vol depth block key path)
          → (find_path vol depth block key2 path ≡ find_path vol depth block key path)
            × (find_leaf vol depth block key2 ≡ find_leaf vol depth block key))
unfolding find_path find_leaf floor_entry probe_next
find_path-next_key vol zero block lo hi key path tree low = (le_refl _, λ key2 h lt. (refl, refl))
find_path-next_key vol (suc depth) block lo hi key path (first, entries, e, lower, tree) low =
    let node : node_of (vol block) ≡ first ∷ entries = unfold node_of in rw e refl in
    let level : PathLevel = record { block = block; next = probe_next (first ∷ entries) key } in
    let here = next_key-above vol block key path first entries node in
    let (from, child) = floor-above (IsTree vol depth) first entries hi key tree in
    let bounded : above entries key hi ≤ next_key vol (level ∷ path) =
      rw here (above_mono entries key hi (next_key vol path) low) in
    let (_, within) = above-end (IsTree vol depth) entries key hi (next_key vol path) tree.2 low in
    let (less, same) =
      find_path-next_key vol depth (floor entries key first).block from (above entries key hi) key
        (level ∷ path) child bounded in
    rw node (
      le_trans less (rw here within),
      λ key2 h lt.
          let inside : key2 < next_key vol (level ∷ path) = omega arith in
          let inside2 : key2 < above entries key (next_key vol path) = rw here at inside in
          let (index, entry) =
            search-above entries key key2 (next_key vol path) 1 first h inside2 in
          rw (index, entry) (same key2 h lt),
    )
