-- ===== src/Btree/Separator.antt =====
-- The key of `next_key` (user/kernel/btree.c) as a bound of what is probed alike.
use tux.Base.{
  ℕ, zero, suc, ◌+◌, ◌-◌, ◌^◌, ◌≤◌, ◌<◌, ◌≡◌, ◌≢◌, ◌⊎◌, refl, sym, ap, ◌∙◌, arith, ltb, Bool-cases,
  inl, inr, false, List, [], ◌∷◌, drop,
}
use tux.Errno.{ok}
use tux.Btree.{IndexEntry, Bnode, Volume, Root, node_of, probe_next, search_entries}
use tux.Btree.Cursor.{PathLevel, Cursor, next_key, probe}
use tux.Btree.Tree.{IsTree}
use tux.Btree.Search.{floor}
use tux.Btree.Probe.{floor_entry, find_path}
use tux.Btree.NextKey.{
  above, above_mono, floor-above, search-above, next_key-above, path_of, probe-IsTree,
  find_path-next_key,
}

above-lt : (entries : Bnode) (key end : ℕ) → key < end → key < above entries key end
unfolding above
above-lt [] key end h = h
above-lt (entry ∷ entries) key end h = elim (Bool-cases (ltb key entry.key)) [
  | inl e ↦ rw e (ground arith)
  | inr e ↦ rw e (above-lt entries key end h)
]

search_entries_least : (entries : Bnode) (key next : ℕ) → next ≤ search_entries entries key next
unfolding search_entries
search_entries_least [] key next = omega arith
search_entries_least (entry ∷ entries) key next = elim (Bool-cases (ltb key entry.key)) [
  | inl e ↦ rw e (omega arith)
  | inr e ↦ rw e (omega (arith, search_entries_least entries key (next + 1)))
]

-- The next entry's key is searched further on.
search_further :
    (entries : Bnode) (key end next : ℕ)
    → key < end
    → above entries key end < end
    → search_entries entries key next < search_entries entries (above entries key end) next
unfolding search_entries above
search_further [] key end next h lt = ground arith
search_further (entry ∷ entries) key end next h lt = elim (Bool-cases (ltb key entry.key)) [
  | inl e ↦
      let over : ltb entry.key entry.key ≡ false = ground arith in
      let least = search_entries_least entries entry.key (next + 1) in rw e (rw over (omega arith))
  | inr e ↦
      let rest : above entries key end < end = rw e at lt in
      let beyond = above-lt entries key end h in
      let over : ltb (above entries key end) entry.key ≡ false = ground arith in
      rw (e, over) (search_further entries key end (next + 1) h rest)
]

drop_more {ℓ} :
    {A : Type ℓ} (n : ℕ) (xs : List A) (x : A) (rest : List A)
    → drop n xs ≡ x ∷ rest
    → drop (suc n) xs ≡ rest
drop_more zero [] x rest h = ground arith
drop_more zero (y ∷ xs) x rest h = ground arith
drop_more (suc n) [] x rest h = ground arith
drop_more (suc n) (y ∷ xs) x rest h = drop_more n xs x rest h

abbrev next_of : List PathLevel → ℕ
next_of [] = 0
next_of (level ∷ path) = level.next

abbrev level_of : ℕ → Bnode → ℕ → PathLevel
level_of block entries key = record { block = block; next = search_entries entries key 1 }

-- The levels that a search pushes stand in front of those above.
drop-find_path :
    (vol : Volume) (depth block key : ℕ) (path : List PathLevel)
    → drop depth (find_path vol depth block key path) ≡ path
unfolding find_path
drop-find_path vol zero block key path = refl
drop-find_path vol (suc depth) block key path =
    let node = node_of (vol block) in
    let level : PathLevel = record { block = block; next = probe_next node key } in
    drop_more depth (find_path vol depth (floor_entry node key).block key (level ∷ path)) level path
      (drop-find_path vol depth (floor_entry node key).block key (level ∷ path))

find_path_step :
    (vol : Volume) (depth block key : ℕ) (path : List PathLevel) (first : IndexEntry)
    (entries : Bnode)
    → node_of (vol block) ≡ first ∷ entries
    → find_path vol (suc depth) block key path
      ≡ find_path vol depth (floor entries key first).block key (level_of block entries key ∷ path)
unfolding find_path floor_entry probe_next
find_path_step vol depth block key path first entries node = rw node refl

find_path-lt :
    (vol : Volume) (depth block lo hi key : ℕ) (path : List PathLevel)
    → IsTree vol depth block lo hi
    → key < next_key vol path
    → key < next_key vol (find_path vol depth block key path)
find_path-lt vol zero block lo hi key path tree h = unfold find_path in h
find_path-lt vol (suc depth) block lo hi key path (first, entries, e, lower, tree) h =
    let node : node_of (vol block) ≡ first ∷ entries = unfold node_of in rw e refl in
    let level = level_of block entries key in
    let here : next_key vol (level ∷ path) ≡ above entries key (next_key vol path) =
      unfold probe_next in next_key-above vol block key path first entries node in
    let (from, child) = floor-above (IsTree vol depth) first entries hi key tree in
    let up : key < next_key vol (level ∷ path) =
      rw here (above-lt entries key (next_key vol path) h) in
    rw (find_path_step vol depth block key path first entries node) (
      find_path-lt vol depth (floor entries key first).block from (above entries key hi) key
        (level ∷ path) child up)

-- Where the next key is one of the tree, the search for it takes another path.
find_path_differs :
    (vol : Volume) (depth block lo hi key next : ℕ) (path : List PathLevel)
    → IsTree vol depth block lo hi
    → hi ≤ next_key vol path
    → key < next_key vol path
    → next_key vol (find_path vol depth block key path) ≡ next
    → next < next_key vol path
    → find_path vol depth block next path ≢ find_path vol depth block key path
find_path_differs vol zero block lo hi key next path tree low h is lt =
    unfold find_path in absurd (omega arith)
find_path_differs vol (suc depth) block lo hi key next path (first, entries, e, lower, tree) low h
      is lt =
    let node : node_of (vol block) ≡ first ∷ entries = unfold node_of in rw e refl in
    let level = level_of block entries key in
    let step = find_path_step vol depth block key path first entries node in
    let step2 = find_path_step vol depth block next path first entries node in
    let here : next_key vol (level ∷ path) ≡ above entries key (next_key vol path) =
      unfold probe_next in next_key-above vol block key path first entries node in
    let child_block = (floor entries key first).block in
    let (from, child) = floor-above (IsTree vol depth) first entries hi key tree in
    let bounded : above entries key hi ≤ next_key vol (level ∷ path) =
      rw here (above_mono entries key hi (next_key vol path) low) in
    let up : key < next_key vol (level ∷ path) =
      rw here (above-lt entries key (next_key vol path) h) in
    let is' : next_key vol (find_path vol depth child_block key (level ∷ path)) ≡ next =
      rw step at is in
    let beyond : key < next = rw is' at (
      find_path-lt vol depth child_block from (above entries key hi) key (level ∷ path) child up) in
    let (less, _) =
      find_path-next_key vol depth child_block from (above entries key hi) key (level ∷ path) child
        bounded in
    rw (step, step2)
      (elim (Bool-cases (ltb next (next_key vol (level ∷ path)))) [
        | inl inside ↦
            let inside2 : next < above entries key (next_key vol path) = ground arith in
            let (index, entry) =
              search-above entries key next (next_key vol path) 1 first (omega arith) inside2 in
            rw (index, entry)
              (find_path_differs vol depth child_block from (above entries key hi) key next
                (level ∷ path) child bounded up is' (ground arith))
        | inr outside ↦ λ same.
            let at_end : above entries key (next_key vol path) ≡ next = ground arith in
            let further = search_further entries key (next_key vol path) 1 h (omega arith) in
            let further2 : search_entries entries key 1 < search_entries entries next 1 =
              rw at_end at further in
            let left =
              drop-find_path vol depth (floor entries next first).block next
                (level_of block entries next ∷ path) in
            let right = drop-find_path vol depth child_block key (level ∷ path) in
            let alike : search_entries entries next 1 ≡ search_entries entries key 1 =
              ap next_of (sym left ∙ ap (drop depth) same ∙ right) in
            absurd (omega arith)
      ])

-- After a probe of a valid tree with keys up to 2^64 - 1 and of a smaller key, the `next_key` of the cursor
-- is above the key. Of the keys from the one probed on, any below the next key is probed to the same
-- cursor; the next key itself is probed to another one, unless it is 2^64 - 1.
pub probe-next_key :
    (vol : Volume) (root : Root) (lo hi key key2 : ℕ) (cursor : Cursor)
    → IsTree vol root.depth root.block lo hi
    → hi ≤ 2 ^ 64 - 1
    → key < 2 ^ 64 - 1
    → key ≤ key2
    → probe vol root key ≡ ok cursor
    → (key < next_key vol cursor.path)
      × ((next_key vol cursor.path ≤ key2) ⊎ (probe vol root key2 ≡ probe vol root key))
      × ((next_key vol cursor.path ≡ 2 ^ 64 - 1)
          ⊎ (probe vol root (next_key vol cursor.path) ≢ probe vol root key))
unfolding next_key
probe-next_key vol root lo hi key key2 cursor tree low small above_ is =
    let (less, same) = find_path-next_key vol root.depth root.block lo hi key [] tree low in
    let at_key = probe-IsTree vol root lo hi key tree in
    let path : find_path vol root.depth root.block key [] ≡ cursor.path =
      ap path_of (sym at_key ∙ is) in
    let beyond = find_path-lt vol root.depth root.block lo hi key [] tree small in
    let next = next_key vol cursor.path in
    let at_most : next ≤ 2 ^ 64 - 1 = rw path at less in
    (
      rw path at beyond,
      elim (Bool-cases (ltb key2 next)) [
        | inl lt ↦
            let below : key2 < next = ground arith in
            let (paths, leaves) = same key2 above_ (rw path below) in
            inr (rw (probe-IsTree vol root lo hi key2 tree, at_key, paths, leaves) refl)
        | inr ge ↦ inl (ground arith)
      ],
      elim (Bool-cases (ltb next (2 ^ 64 - 1))) [
        | inl lt ↦
            let below : next < 2 ^ 64 - 1 = ground arith in
            inr (λ alike.
              find_path_differs vol root.depth root.block lo hi key next [] tree low small
                (ap (next_key vol) path) below
                (ap path_of (sym (probe-IsTree vol root lo hi next tree) ∙ alike ∙ at_key)))
        | inr ge ↦ inl (ground arith)
      ],
    )
