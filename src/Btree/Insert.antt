-- ===== src/Btree/Insert.antt =====
-- The steps of `insert_leaf` (user/kernel/btree.c), and the room in the nodes at each.
use tux.Base.{
  ℕ, ◌≤◌, ◌<◌, ◌≡◌, refl, arith, ltb, Bool-cases, inl, inr, true, false, Bool, if◌then◌else◌, ◌==◌,
  List, [], ◌∷◌, length,
}
use tux.Errno.{Result-cases, Result, ok, err, Errno, enomem}
use tux.Btree.{Bnode, bnode, Volume, node_of}
use tux.Btree.Cursor.{PathLevel, cursor_node}
use tux.Btree.Edit.{
  Tree, add_child, split_node, store, new_block, new_node, add_root, add_at, split_at,
  insert_levels, push_level,
}
use tux.Btree.Split.{length-add_child, split_node_fits}

-- No index node has more entries than fit.
pub record IsFilled {ℓ} {S : Type ℓ} (tree : Tree S) : Type ℓ where
  pub room : 2 ≤ tree.entries_per_node
  pub filled : (b : ℕ) → length (node_of (tree.vol b)) ≤ tree.entries_per_node

store-filled :
    (vol : Volume) (block : ℕ) (node : Bnode) (n : ℕ)
    → ((b : ℕ) → length (node_of (vol b)) ≤ n)
    → length node ≤ n
    → (b : ℕ) → length (node_of (store vol block (bnode node) b)) ≤ n
unfolding store node_of
store-filled vol block node n h fits b = elim (Bool-cases (b == block)) [
  | inl e ↦ rw e fits
  | inr e ↦ rw e (h b)
]

module _ {ℓ} {S : Type ℓ} (balloc : S → Result (ℕ × S)) (vol_getblk : ℕ → Bool) where
  -- What taking a node does: nothing but the allocator's state and an empty node.
  pub data Taken (tree : Tree S) (result : Result ℕ × Tree S) : Type ℓ where
    failed : (e : Errno) (s : S) → result ≡ (err e, record tree { alloc = s }) → Taken tree result
    taken :
        (b : ℕ) (s : S)
        → balloc tree.alloc ≡ ok (b, s)
        → result ≡ (ok b, record tree { vol = store tree.vol b (bnode []); alloc = s })
        → Taken tree result

  new_block-err :
      (tree : Tree S) (e : Errno)
      → balloc tree.alloc ≡ err e
      → new_block balloc vol_getblk tree ≡ (err e, tree)
  unfolding new_block
  new_block-err tree e is = rw (new_block, is) refl

  new_block-ok :
      (tree : Tree S) (b : ℕ) (s : S)
      → balloc tree.alloc ≡ ok (b, s)
      → new_block balloc vol_getblk tree
        ≡ (if vol_getblk b then ok b else err enomem, record tree { alloc = s })
  unfolding new_block
  new_block-ok tree b s is = rw (new_block, is) refl

  pub new_node-Taken : (tree : Tree S) → Taken tree (new_node balloc vol_getblk tree)
  unfolding new_node
  new_node-Taken tree = elim (Result-cases (balloc tree.alloc)) [
    | inl (e, is) ↦
        let block = new_block-err tree e is in
        failed e tree.alloc (rw (new_node, block) (rw block refl))
    | inr (pair, is) ↦
        let (b, s) = pair in
        let block = new_block-ok tree b s is in
        elim (Bool-cases (vol_getblk b)) [
          | inl got ↦ taken b s is (rw (new_node, block, got) (rw block refl))
          | inr lost ↦ failed enomem s (rw (new_node, block, lost) (rw block refl))
        ]
  ]

  pub new_node-IsFilled :
      (tree : Tree S) → IsFilled tree → IsFilled (new_node balloc vol_getblk tree).1
  new_node-IsFilled tree h = elim (new_node-Taken tree) [
    | failed e s is ↦ rw is (record { room = h.room; filled = h.filled })
    | taken b s alloc is ↦ rw is (record {
      room = h.room;
      filled = store-filled tree.vol b [] tree.entries_per_node h.filled (omega arith);
    })
  ]

  pub add_root-IsFilled :
      (tree : Tree S) (top childkey childblock : ℕ)
      → IsFilled tree
      → IsFilled (add_root balloc vol_getblk tree top childkey childblock).1
  unfolding add_root
  add_root-IsFilled tree top childkey childblock h = elim (new_node-Taken tree) [
    | failed e s is ↦ rw (add_root, is) (rw is (record { room = h.room; filled = h.filled }))
    | taken b s alloc is ↦
        rw (add_root, is)
          (rw is (record {
            room = h.room;
            filled =
                store-filled (store tree.vol b (bnode [])) b _ tree.entries_per_node
                  (store-filled tree.vol b [] tree.entries_per_node h.filled (omega arith))
                  (omega (arith, h.room));
          }))
  ]

-- One level of the loop, on a node with room and on a full one.
pub add_at-IsFilled {ℓ} :
    {S : Type ℓ} (tree : Tree S) (level : PathLevel) (keep : Bool) (childkey childblock : ℕ)
    → IsFilled tree
    → length (cursor_node tree.vol level) < tree.entries_per_node
    → IsFilled (add_at tree level keep childkey childblock).1
unfolding add_at
add_at-IsFilled tree level keep childkey childblock h fits =
    let node = cursor_node tree.vol level in
    let e = length-add_child node level.next childblock childkey in
    record {
      room = h.room;
      filled =
          store-filled tree.vol level.block (add_child node level.next childblock childkey)
            tree.entries_per_node h.filled (omega arith);
    }

pub split_at-IsFilled {ℓ} :
    {S : Type ℓ} (tree : Tree S) (level : PathLevel) (keep : Bool)
    (newblock childkey childblock : ℕ)
    → IsFilled tree
    → IsFilled (split_at tree level keep newblock childkey childblock).3
unfolding split_at cursor_node
split_at-IsFilled tree level keep newblock childkey childblock h =
    let node = node_of (tree.vol level.block) in
    let room = tree.entries_per_node in
    let split = split_node node level.next childblock childkey in
    let (left, right) =
      split_node_fits node level.next childblock childkey room h.room (h.filled level.block) in
    record {
      room = h.room;
      filled =
          store-filled (store tree.vol level.block (bnode split.0)) newblock split.1 room
            (store-filled tree.vol level.block split.0 room h.filled left) right;
    }

module _ {ℓ} {S : Type ℓ} (balloc : S → Result (ℕ × S)) (vol_getblk : ℕ → Bool) where
  -- One level of the loop, by what it does.
  module _ (tree : Tree S) (level : PathLevel) (path : List PathLevel) (top : ℕ) (keep : Bool)
      (childkey childblock : ℕ) where
    pub insert_levels-room :
        ltb (length (cursor_node tree.vol level)) tree.entries_per_node ≡ true
        → insert_levels balloc vol_getblk tree (level ∷ path) top keep childkey childblock ≡ (
          ok ((add_at tree level keep childkey childblock).0 ∷ path),
          (add_at tree level keep childkey childblock).1,
        )
    unfolding insert_levels
    insert_levels-room fits = rw (insert_levels, fits) refl

    pub insert_levels-full_err :
        (e : Errno) (after_ : Tree S)
        → ltb (length (cursor_node tree.vol level)) tree.entries_per_node ≡ false
        → new_node balloc vol_getblk tree ≡ (err e, after_)
        → insert_levels balloc vol_getblk tree (level ∷ path) top keep childkey childblock
          ≡ (err e, after_)
    unfolding insert_levels
    insert_levels-full_err e after_ full is = rw (insert_levels, full, is) (rw is refl)

    pub insert_levels-split :
        (b : ℕ) (after_ : Tree S)
        → ltb (length (cursor_node tree.vol level)) tree.entries_per_node ≡ false
        → new_node balloc vol_getblk tree ≡ (ok b, after_)
        → insert_levels balloc vol_getblk tree (level ∷ path) top keep childkey childblock ≡ (
            let (at, newkey, child_is_left, split) =
              split_at after_ level keep b childkey childblock in
            push_level at (
              insert_levels balloc vol_getblk split path at.block
                (if child_is_left then true else keep)
                newkey
                b))
    unfolding insert_levels
    insert_levels-split b after_ full is = rw (insert_levels, full, is) (rw is refl)
