-- ===== src/Ileaf/Dict.antt =====
-- The loops over the offsets of a leaf, entry by entry, and what a valid leaf is.
use tux.Base.{
  ℕ, zero, suc, ◌+◌, ◌-◌, ◌*◌, ◌%◌, ◌^◌, ◌≤◌, ◌<◌, ◌≡◌, arith, ◌==◌, leb, ltb, ◌&&◌, if◌then◌else◌,
}
use native.Mathlib.Nat.{le_refl, le_trans}
use tux.Ileaf.{
  Btree, Ileaf, blocksize, tux3_magic_ileaf, sizeof_ileaf, atdict, add_idicts, add_idict,
  extend_dict, ileaf_need, ileaf_free,
}

pub add_idicts-at :
    (rounds from n : ℕ) (dict : ℕ → ℕ) (j : ℕ)
    → add_idicts rounds from n dict j
      ≡ (if leb from j && ltb j (from + rounds) then (dict j + n) % 2 ^ 16 else dict j)
unfolding add_idicts
add_idicts-at zero from n dict j = ground arith
add_idicts-at (suc rounds) from n dict j =
    ground (arith, add_idicts-at rounds (from + 1) n (add_idict dict from n) j)

pub extend_dict-at :
    (rounds count limit : ℕ) (dict : ℕ → ℕ) (j : ℕ)
    → extend_dict rounds count limit dict j
      ≡ (if ltb count j && leb j (count + rounds) then limit else dict j)
unfolding extend_dict
extend_dict-at zero count limit dict j = ground arith
extend_dict-at (suc rounds) count limit dict j = ground (
  arith,
  extend_dict-at rounds (count + 1) limit (λ i. if i == count + 1 then limit else dict i) j,
)

-- The offsets ascend, and the attributes and the offsets together leave the block room for its header.
pub record IsValid (btree : Btree) (leaf : Ileaf) : Type 0 where
  pub small : blocksize btree ≤ 2 ^ 12
  pub kind : leaf.magic ≡ tux3_magic_ileaf
  pub entries : leaf.count ≤ btree.entries_per_leaf
  pub order : (i : ℕ) → i < leaf.count → atdict leaf.dict i ≤ atdict leaf.dict (i + 1)
  pub room : atdict leaf.dict leaf.count + leaf.count * 2 + sizeof_ileaf ≤ blocksize btree

-- Where the attributes of entry `at` begin and how many bytes they take.
unfoldable pub inode_start : Ileaf → ℕ → ℕ
inode_start leaf at = atdict leaf.dict at

unfoldable pub inode_size : Ileaf → ℕ → ℕ
inode_size leaf at =
    if ltb at leaf.count then atdict leaf.dict (at + 1) - atdict leaf.dict at else 0

-- Byte `k` of the attributes of entry `at`.
unfoldable pub inode_byte : Ileaf → ℕ → ℕ → ℕ
unfolding inode_start
inode_byte leaf at k = leaf.table (inode_start leaf at + k)

-- Offsets ascend over any distance.
pub atdict_mono :
    (dict : ℕ → ℕ) (count i d : ℕ)
    → ((i : ℕ) → i < count → atdict dict i ≤ atdict dict (i + 1))
    → i + d ≤ count
    → atdict dict i ≤ atdict dict (i + d)
atdict_mono dict count i zero order h =
    let e : i + 0 ≡ i = omega arith in rw e (le_refl (atdict dict i))
atdict_mono dict count i (suc d) order h =
    let e : i + suc d ≡ i + d + 1 = omega arith in
    rw e (le_trans (atdict_mono dict count i d order (omega arith)) (order (i + d) (omega arith)))

pub atdict_le :
    (dict : ℕ → ℕ) (count i j : ℕ)
    → ((i : ℕ) → i < count → atdict dict i ≤ atdict dict (i + 1))
    → i ≤ j
    → j ≤ count
    → atdict dict i ≤ atdict dict j
atdict_le dict count i j order h k =
    let e : i + (j - i) ≡ j = omega arith in
    rw e at (atdict_mono dict count i (j - i) order (omega arith))

pub ileaf_free-value :
    (btree : Btree) (leaf : Ileaf)
    → IsValid btree leaf
    → ileaf_free btree leaf + atdict leaf.dict leaf.count + leaf.count * 2 + sizeof_ileaf
      ≡ blocksize btree
unfolding ileaf_free ileaf_need
ileaf_free-value btree leaf v = omega (arith, v.room, v.small)
