-- ===== src/Ileaf/Resize.antt =====
-- `ileaf_resize` gives one inode a new size and touches no other.
use tux.Base.{
  ℕ, ◌+◌, ◌-◌, ◌*◌, ◌≤◌, ◌<◌, ◌≡◌, ◌≢◌, refl, arith, leb, ltb, ◌&&◌, min, if◌then◌else◌, true,
  false, Bool-cases, inl, inr,
}
use tux.Ileaf.{
  Btree, Ileaf, blocksize, sizeof_ileaf, atdict, extend_dict, extend_empty, resize_offset,
  resize_size, resize_leaf, ileaf_free, sub32,
}
use tux.Ileaf.Dict.{IsValid, inode_size, add_idicts-at, extend_dict-at, atdict_le, ileaf_free-value}

module _ (btree : Btree) (leaf : Ileaf) (at newsize : ℕ) (v : IsValid btree leaf) where
  -- The offsets ascend up to the count.
  abbrev pub end_of : ℕ
  end_of = atdict leaf.dict leaf.count

  pub upto_end : (i : ℕ) → i ≤ leaf.count → atdict leaf.dict i ≤ end_of
  upto_end i h = atdict_le leaf.dict leaf.count i leaf.count v.order h (omega arith)

  pub resize_offset-value : resize_offset leaf at ≡ atdict leaf.dict (min at leaf.count)
  unfolding resize_offset atdict
  resize_offset-value = ground arith

  pub resize_size-value : resize_size leaf at ≡ inode_size leaf at
  unfolding resize_size inode_size
  resize_size-value = elim (Bool-cases (ltb at leaf.count)) [
    | inl h ↦
        let m : min at leaf.count ≡ at = ground arith in
        rw (h, resize_offset-value, m)
          (omega (
            arith,
            v.order at (ground arith),
            upto_end (at + 1) (ground arith),
            v.room,
            v.small,
            first,
          ))
    | inr h ↦ rw h
  ]
    where
      first : atdict leaf.dict (at + 1) ≡ leaf.dict (at + 1)
      first = unfold atdict in ground arith

  -- The offset of entry `i` once the missing entries before `at` are there.
  abbrev pub old_end : ℕ → ℕ
  old_end i = atdict leaf.dict (min i leaf.count)

  pub old_end-le : (i : ℕ) → old_end i ≤ end_of
  old_end-le i = upto_end (min i leaf.count) (omega arith)

  pub old_end_mono : (i j : ℕ) → i ≤ j → old_end i ≤ old_end j
  old_end_mono i j h =
      atdict_le leaf.dict leaf.count (min i leaf.count) (min j leaf.count) v.order (omega arith)
        (omega arith)

  unfoldable pub new_count : ℕ
  unfolding extend_empty
  new_count = leaf.count + extend_empty leaf at

  pub at-lt-new_count : at < new_count
  unfolding new_count extend_empty
  at-lt-new_count = ground arith

  -- Every size is a difference of such offsets.
  pub size_of : (i : ℕ) → inode_size leaf i + old_end i ≡ old_end (i + 1)
  unfolding inode_size
  size_of i = elim (Bool-cases (ltb i leaf.count)) [
    | inl h ↦
        let m : min i leaf.count ≡ i = ground arith in
        let n : min (i + 1) leaf.count ≡ i + 1 = ground arith in
        rw (h, m, n) (omega (arith, v.order i (ground arith)))
    | inr h ↦
        let m : min i leaf.count ≡ min (i + 1) leaf.count = ground arith in rw (h, m) (omega arith)
  ]

  abbrev pub grown : Ileaf
  grown = resize_leaf leaf at newsize

  module _
      (more_room : inode_size leaf at < newsize
        → 2 * extend_empty leaf at + (newsize - inode_size leaf at) ≤ ileaf_free btree leaf) where
    pub grown_fits :
        inode_size leaf at < newsize
        → end_of + (newsize - inode_size leaf at) + new_count * 2 + sizeof_ileaf ≤ blocksize btree
    unfolding new_count
    grown_fits h = omega (arith, more_room h, ileaf_free-value btree leaf v)

    pub atdict-grown_below : (j : ℕ) → j ≤ at → j ≤ new_count → atdict grown.dict j ≡ old_end j
    unfolding atdict resize_leaf new_count
    atdict-grown_below j h k = ground (
      arith,
      add_idicts-at (leaf.count + extend_empty leaf at - at) (at + 1)
          (sub32 newsize (resize_size leaf at))
          (extend_dict (extend_empty leaf at) leaf.count end_of leaf.dict) j,
      extend_dict-at (extend_empty leaf at) leaf.count end_of leaf.dict j,
    )

    pub atdict-grown_above :
        (j : ℕ)
        → at < j
        → j ≤ new_count
        → atdict grown.dict j + inode_size leaf at ≡ old_end j + newsize
    unfolding atdict resize_leaf new_count
    atdict-grown_above j h k = ground (
      arith,
      add_idicts-at (leaf.count + extend_empty leaf at - at) (at + 1)
          (sub32 newsize (resize_size leaf at))
          (extend_dict (extend_empty leaf at) leaf.count end_of leaf.dict) j,
      extend_dict-at (extend_empty leaf at) leaf.count end_of leaf.dict j,
      resize_size-value,
      grown_fits,
      old_end-le j,
      old_end_mono (at + 1) j,
      size_of at,
      v.small,
      v.room,
    )

    pub grown_size_at : inode_size grown at ≡ newsize
    unfolding inode_size
    grown_size_at =
        let inside : ltb at grown.count ≡ true = grown_inside in
        rw inside (
          omega (
            arith,
            atdict-grown_below at (omega arith) (omega (arith, at-lt-new_count)),
            atdict-grown_above (at + 1) (omega arith) (omega (arith, at-lt-new_count)),
            size_of at,
          ))
      where
        grown_inside : ltb at grown.count ≡ true
        grown_inside = unfold resize_leaf new_count in ground (arith, at-lt-new_count)

    pub count-grown : grown.count ≡ new_count
    unfolding resize_leaf new_count
    count-grown = refl

    pub grown_size_ne : (i : ℕ) → i ≢ at → inode_size grown i ≡ inode_size leaf i
    grown_size_ne i ne = elim (Bool-cases (ltb i new_count)) [
      | inl h ↦
          let inside : ltb i grown.count ≡ true = rw count-grown h in
          let e : inode_size grown i ≡ atdict grown.dict (i + 1) - atdict grown.dict i =
            unfold inode_size in rw inside in
          ground (
            arith,
            e,
            size_of i,
            size_of at,
            atdict-grown_below i,
            atdict-grown_below (i + 1),
            atdict-grown_above i,
            atdict-grown_above (i + 1),
          )
      | inr h ↦
          let outside : ltb i grown.count ≡ false = rw count-grown h in
          let past : leaf.count ≤ i = unfold new_count in ground arith in
          unfold inode_size in rw outside (ground arith)
    ]

    itop-value :
        extend_dict
          (extend_empty leaf at)
          leaf.count
          end_of
          leaf.dict
          (leaf.count + extend_empty leaf at)
        ≡ end_of
    unfolding atdict extend_empty
    itop-value = ground (
      arith,
      extend_dict-at (extend_empty leaf at) leaf.count end_of leaf.dict
          (leaf.count + extend_empty leaf at),
    )

    -- What stands at a place of the grown table.
    pub table-grown :
        (p : ℕ)
        → grown.table p ≡ (
            if leb (old_end at + newsize) p && ltb p (end_of + newsize - inode_size leaf at)
            then leaf.table (p + inode_size leaf at - newsize)
            else leaf.table p)
    unfolding resize_leaf new_count
    table-grown p =
        rw (itop-value, resize_size-value, resize_offset-value)
          (ground (arith, size_of at, old_end-le (at + 1)))
