-- ===== src/Ileaf/Resized.antt =====
-- What `ileaf_resize` returns, and what `ileaf_lookup` finds before and after.
use tux.Base.{
  ℕ, ◌+◌, ◌-◌, ◌*◌, ◌^◌, ◌≤◌, ◌<◌, ◌≡◌, ◌≢◌, ◌⊎◌, refl, arith, leb, ltb, ◌&&◌, min, Option, some,
  none, Bool-cases, inl, inr,
}
use tux.Ileaf.{
  Btree, Ileaf, blocksize, sizeof_ileaf, atdict, extend_empty, resize_leaf, resize_offset,
  ileaf_resize, ileaf_free, is_positive, sub32,
}
use tux.Ileaf.Dict.{IsValid, inode_start, inode_size, inode_byte}
use tux.Ileaf.Resize.{
  old_end, old_end-le, old_end_mono, size_of, new_count, count-grown, at-lt-new_count,
  atdict-grown_below, atdict-grown_above, grown_size_at, grown_size_ne, table-grown, grown_fits,
  resize_size-value, resize_offset-value,
}

-- Entry `at` has `newsize` bytes from `start` on, as many of its old bytes as fit are kept, and every
-- other entry keeps its size and its bytes.
pub record Resized (btree : Btree) (leaf leaf' : Ileaf) (at newsize start : ℕ) : Type 0 where
  pub base : leaf'.ibase ≡ leaf.ibase
  pub place : inode_start leaf' at ≡ start
  pub size : inode_size leaf' at ≡ newsize
  pub kept :
      (k : ℕ) → k < inode_size leaf at → k < newsize → inode_byte leaf' at k ≡ inode_byte leaf at k
  pub sizes : (i : ℕ) → i ≢ at → inode_size leaf' i ≡ inode_size leaf i
  pub bytes :
      (i k : ℕ) → i ≢ at → k < inode_size leaf i → inode_byte leaf' i k ≡ inode_byte leaf i k
  pub valid : IsValid btree leaf'

module _ (btree : Btree) (leaf : Ileaf) (at newsize : ℕ) (v : IsValid btree leaf)
    (more_room : inode_size leaf at < newsize
      → 2 * extend_empty leaf at + (newsize - inode_size leaf at) ≤ ileaf_free btree leaf) where
  abbrev old : ℕ → ℕ
  old = old_end btree leaf at newsize v

  inside : (i k : ℕ) → k < inode_size leaf i → i < leaf.count
  inside i k h = unfold inode_size in ground arith

  start_in : (i : ℕ) → i < leaf.count → atdict leaf.dict i ≡ old i
  start_in i h = let e : min i leaf.count ≡ i = omega arith in rw e

  counted : leaf.count ≤ new_count btree leaf at newsize v
  unfolding new_count
  counted = omega arith

  grown_byte_ne :
      (i k : ℕ)
      → i ≢ at
      → k < inode_size leaf i
      → inode_byte (resize_leaf leaf at newsize) i k ≡ inode_byte leaf i k
  unfolding inode_byte inode_start
  grown_byte_ne i k ne h = ground (
    arith,
    inside i k h,
    start_in i (inside i k h),
    counted,
    atdict-grown_below btree leaf at newsize v more_room i,
    atdict-grown_above btree leaf at newsize v more_room i,
    size_of btree leaf at newsize v i,
    size_of btree leaf at newsize v at,
    old_end-le btree leaf at newsize v (i + 1),
    old_end_mono btree leaf at newsize v (i + 1) at,
    old_end_mono btree leaf at newsize v (at + 1) i,
    table-grown btree leaf at newsize v more_room (atdict (resize_leaf leaf at newsize).dict i + k),
  )

  grown_start : inode_start (resize_leaf leaf at newsize) at ≡ resize_offset leaf at
  unfolding inode_start
  grown_start = rw (resize_offset-value btree leaf at newsize v) (
      atdict-grown_below btree leaf at newsize v more_room at (omega arith)
        (omega (arith, at-lt-new_count btree leaf at newsize v)))

  grown_byte_at :
      (k : ℕ)
      → k < inode_size leaf at
      → k < newsize
      → inode_byte (resize_leaf leaf at newsize) at k ≡ inode_byte leaf at k
  unfolding inode_byte inode_start
  grown_byte_at k h small = ground (
    arith,
    start_in at (inside at k h),
    at-lt-new_count btree leaf at newsize v,
    atdict-grown_below btree leaf at newsize v more_room at,
    table-grown btree leaf at newsize v more_room (old at + k),
  )

  grown_order :
      (i : ℕ)
      → i < new_count btree leaf at newsize v
      → atdict (resize_leaf leaf at newsize).dict i
        ≤ atdict (resize_leaf leaf at newsize).dict (i + 1)
  grown_order i h = ground (
    arith,
    old_end_mono btree leaf at newsize v i (i + 1),
    size_of btree leaf at newsize v at,
    atdict-grown_below btree leaf at newsize v more_room i,
    atdict-grown_below btree leaf at newsize v more_room (i + 1),
    atdict-grown_above btree leaf at newsize v more_room i,
    atdict-grown_above btree leaf at newsize v more_room (i + 1),
  )

  fewer :
      newsize ≤ inode_size leaf at → 0 < newsize → new_count btree leaf at newsize v ≡ leaf.count
  unfolding new_count extend_empty inode_size
  fewer h some_bytes = ground arith

  end_grown :
      0 < newsize
      → at < btree.entries_per_leaf
      → atdict (resize_leaf leaf at newsize).dict (new_count btree leaf at newsize v)
          + new_count btree leaf at newsize v * 2
          + sizeof_ileaf
        ≤ blocksize btree
  end_grown some_bytes room = ground (
    arith,
    v.room,
    fewer,
    at-lt-new_count btree leaf at newsize v,
    old_end-le btree leaf at newsize v (new_count btree leaf at newsize v),
    old_end_mono btree leaf at newsize v (at + 1) (new_count btree leaf at newsize v),
    size_of btree leaf at newsize v at,
    grown_fits btree leaf at newsize v more_room,
    atdict-grown_above btree leaf at newsize v more_room (new_count btree leaf at newsize v),
  )

  grown-IsValid :
      0 < newsize → at < btree.entries_per_leaf → IsValid btree (resize_leaf leaf at newsize)
  grown-IsValid some_bytes room = record {
    small = v.small;
    kind = unfold resize_leaf in v.kind;
    entries =
        rw (count-grown btree leaf at newsize v more_room)
          (unfold new_count extend_empty in ground (arith, v.entries));
    order = rw (count-grown btree leaf at newsize v more_room) grown_order;
    room = rw (count-grown btree leaf at newsize v more_room) (end_grown some_bytes room);
  }

  pub grown-Resized :
      0 < newsize
      → at < btree.entries_per_leaf
      → Resized btree leaf (resize_leaf leaf at newsize) at newsize (resize_offset leaf at)
  grown-Resized some_bytes room = record {
    base = unfold resize_leaf in refl;
    place = grown_start;
    size = grown_size_at btree leaf at newsize v more_room;
    kept = grown_byte_at;
    sizes = grown_size_ne btree leaf at newsize v more_room;
    bytes = grown_byte_ne;
    valid = grown-IsValid some_bytes room;
  }

-- The new leaf when there is one, and else why there is none.
pub ResizeOutcome : Btree → Ileaf → ℕ → ℕ → Option (ℕ × Ileaf) → Type 0
ResizeOutcome btree leaf at newsize none =
    btree.entries_per_leaf ≤ at
    ⊎ ((inode_size leaf at < newsize)
        × (ileaf_free btree leaf < 2 * extend_empty leaf at + (newsize - inode_size leaf at)))
ResizeOutcome btree leaf at newsize (some (start, leaf')) =
    Resized btree leaf leaf' at newsize start × (at < btree.entries_per_leaf)

-- In a valid leaf of an inode `inum` not below its base, for a size above 0 and below 2^31, `ileaf_resize`
-- either gives the inode that size, keeping the bytes of it that fit, the sizes and bytes of all others and the
-- validity of the leaf, or returns NULL, and this only when the inode is past the leaf's range or
-- its growth and the missing entries do not fit in the free space.
pub ileaf_resize-ResizeOutcome :
    (btree : Btree) (inum : ℕ) (leaf : Ileaf) (newsize : ℕ)
    → IsValid btree leaf
    → leaf.ibase ≤ inum
    → 0 < newsize
    → newsize < 2 ^ 31
    → ResizeOutcome btree leaf (inum - leaf.ibase) newsize (ileaf_resize btree inum leaf newsize)
unfolding ileaf_resize ResizeOutcome
ileaf_resize-ResizeOutcome btree inum leaf newsize v above some_bytes small =
    let at = inum - leaf.ibase in
    let more = sub32 newsize (inode_size leaf at) in
    let full =
      ltb (inode_size leaf at) newsize
      && ltb (ileaf_free btree leaf) (2 * extend_empty leaf at + more) in
    let more_of : inode_size leaf at < newsize → more ≡ newsize - inode_size leaf at =
      λ h. omega arith in
    let few : inode_size leaf at ≤ 2 ^ 12 = omega (
      arith,
      size_of btree leaf at newsize v at,
      old_end-le btree leaf at newsize v (at + 1),
      v.room,
      v.small,
    ) in
    let grows : is_positive more ≡ ltb (inode_size leaf at) newsize = ground arith in
    elim (Bool-cases (leb btree.entries_per_leaf at)) [
      | inl past ↦ rw past (inl (ground arith))
      | inr inside ↦
          rw (inside, resize_size-value btree leaf at newsize v, grows)
            (elim (Bool-cases full) [
              | inl no_room ↦ rw no_room (inr (ground arith, ground (arith, more_of)))
              | inr room ↦ rw room (
                grown-Resized btree leaf at newsize v (λ h. ground (arith, more_of h)) some_bytes
                    (ground arith),
                ground arith,
              )
            ])
    ]
