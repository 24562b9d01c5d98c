-- ===== src/Balloc/Free.antt =====
-- What `bfree` and `update_bitmap` do, on every branch.
use tux.Base.{
  ℕ, ◌+◌, ◌*◌, ◌/◌, ◌%◌, ◌^◌, ◌≤◌, ◌<◌, ◌≡◌, refl, arith, Bool-cases, inl, inr, none, some, true,
  if◌then◌else◌, Option-cases,
}
use tux.Base.Memory.{Mem}
use tux.Errno.{Result, ok, err, eio}
use tux.Bitmap.{bit_at, in_range, clear_bits, all_set, all_clear}
use tux.Bitmap.Ranges.{IsBytes, clear_bits-IsBytes}
use tux.Bitmap.Tests.{all_set_iff, all_clear_iff}
use tux.Balloc.{Sb, mapbits, u32, add64, write_block, bfree}
use tux.Balloc.Volume.{
  IsValid, used, mapbits-pos, mapbits-le, row, column, used-clear_block, used_of_block,
  write_block-IsBytes,
}
use native.Mathlib.Nat.{div-add-mod', div-le_self}

-- The blocks from `start` on, all allocated before, are freed.
pub record Freed (sb sb' : Sb) (start blocks : ℕ) : Type 0 where
  pub allocated : (i : ℕ) → in_range start blocks i ≡ true → used sb i ≡ 1
  pub bits : (i : ℕ) → used sb' i ≡ (if in_range start blocks i then 0 else used sb i)
  pub left : sb'.freeblocks ≡ add64 sb.freeblocks blocks
  pub volume : sb'.volblocks ≡ sb.volblocks
  pub goal : sb'.nextalloc ≡ sb.nextalloc
  pub valid : IsValid sb'

abbrev pub BfreeOutcome : Sb → ℕ → ℕ → Result (Unit {0}) × Sb → Type 0
BfreeOutcome sb start blocks (ok _, sb') = Freed sb sb' start blocks
BfreeOutcome sb start blocks (err e, sb') =
    (e ≡ eio)
    × (sb' ≡ sb)
    × (((i : ℕ) → in_range start blocks i ≡ true → used sb i ≡ 1)
        → sb.bitmap (start / mapbits sb) ≡ none)

module _ (sb : Sb) (start blocks : ℕ) (valid : IsValid sb) (inside : start + blocks ≤ sb.volblocks)
    (one_row : start % mapbits sb + blocks ≤ mapbits sb) where
  abbrev pub block : ℕ
  block = start / mapbits sb

  abbrev pub from : ℕ
  from = start % mapbits sb

  pub place : block * mapbits sb + from ≡ start
  place = omega (arith, div-add-mod' start (mapbits sb))

  -- A range of the volume, seen in its block of the bitmap.
  used→block :
      (data_ : Mem) (v : ℕ)
      → sb.bitmap block ≡ some data_
      → ((i : ℕ) → in_range start blocks i ≡ true → used sb i ≡ v)
      → (r : ℕ) → in_range from blocks r ≡ true
      → bit_at data_ r ≡ v
  used→block data_ v read all r p =
      let at : (block * mapbits sb + r) / mapbits sb ≡ block =
        row (mapbits sb) (mapbits-pos sb) block r (ground arith) in
      let col : (block * mapbits sb + r) % mapbits sb ≡ r =
        column (mapbits sb) (mapbits-pos sb) block r (ground arith) in
      rw (at, col, read) at (all (block * mapbits sb + r) (ground (arith, place)))

  module _ (data_ : Mem) (read : sb.bitmap block ≡ some data_) where
    fits32 : from + blocks < 2 ^ 32
    fits32 = omega (arith, mapbits-le sb valid.small)

    -- A range that the test of one block accepts.
    pub used_of_all_set :
        all_set data_ from blocks ≡ true → (i : ℕ) → in_range start blocks i ≡ true → used sb i ≡ 1
    used_of_all_set t i p =
        used_of_block sb block data_ from blocks 1 i read one_row
          ((all_set_iff data_ from blocks fits32 (valid.bytes block data_ read)).0 t) (rw place p)

    pub free_of_all_clear :
        all_clear data_ from blocks ≡ true
        → (i : ℕ) → in_range start blocks i ≡ true
        → used sb i ≡ 0
    free_of_all_clear t i p =
        used_of_block sb block data_ from blocks 0 i read one_row
          ((all_clear_iff data_ from blocks fits32 (valid.bytes block data_ read)).0 t) (rw place p)

    pub all_set_of_used :
        ((i : ℕ) → in_range start blocks i ≡ true → used sb i ≡ 1)
        → all_set data_ from blocks ≡ true
    all_set_of_used all =
        (all_set_iff data_ from blocks fits32 (valid.bytes block data_ read)).1
          (used→block data_ 1 read all)

    pub all_clear_of_free :
        ((i : ℕ) → in_range start blocks i ≡ true → used sb i ≡ 0)
        → all_clear data_ from blocks ≡ true
    all_clear_of_free all =
        (all_clear_iff data_ from blocks fits32 (valid.bytes block data_ read)).1
          (used→block data_ 0 read all)

    -- A state whose bitmap differs from a valid one's in one written block.
    pub written-IsValid :
        (free goal : ℕ) (written : Mem)
        → goal ≤ sb.volblocks
        → IsBytes written
        → IsValid (record sb {
          bitmap = write_block sb.bitmap block written;
          freeblocks = free;
          nextalloc = goal;
        })
    written-IsValid free goal written h bytes = record {
      small = valid.small;
      volume = valid.volume;
      goal = h;
      bytes = write_block-IsBytes sb.bitmap block written valid.bytes bytes;
    }

    bfree_read : bfree sb start blocks ≡ (
        if all_set data_ from blocks
        then (
          ok tt,
          record sb {
            bitmap = write_block sb.bitmap block (clear_bits data_ from blocks);
            freeblocks = add64 sb.freeblocks blocks;
          },
        )
        else (err eio, sb))
    unfolding bfree
    bfree_read =
        let low : u32 block ≡ block = omega (arith, div-le_self start (mapbits sb), valid.volume) in
        rw (low, read, bfree) (rw low)

    -- The state that `bfree` leaves.
    bfree-Freed :
        all_set data_ from blocks ≡ true
        → Freed sb
            (record sb {
              bitmap = write_block sb.bitmap block (clear_bits data_ from blocks);
              freeblocks = add64 sb.freeblocks blocks;
            })
            start
            blocks
    bfree-Freed t = record {
      allocated = used_of_all_set t;
      bits = λ i. rw place at (used-clear_block sb block data_ from blocks i valid read one_row);
      left = refl;
      volume = refl;
      goal = refl;
      valid =
          written-IsValid _ sb.nextalloc (clear_bits data_ from blocks) valid.goal
            (clear_bits-IsBytes data_ from blocks (valid.bytes block data_ read));
    }

  -- On a valid volume, for a range of the volume in one bitmap block, `bfree` either finds all its
  -- blocks allocated, clears exactly their bits and adds their number to `freeblocks`, or returns EIO
  -- and changes nothing; it returns EIO for allocated blocks only if the bitmap block is unreadable.
  pub bfree-BfreeOutcome : BfreeOutcome sb start blocks (bfree sb start blocks)
  bfree-BfreeOutcome = elim (Option-cases (sb.bitmap block)) [
    | inl unread ↦
        let low : u32 block ≡ block = omega (arith, div-le_self start (mapbits sb), valid.volume) in
        let result : bfree sb start blocks ≡ (err eio, sb) =
          unfold bfree in rw (low, unread, bfree) in
        rw result (refl, refl, λ all. unread)
    | inr (data_, read) ↦ elim (Bool-cases (all_set data_ from blocks)) [
      | inl t ↦ rw (bfree_read data_ read, t) (bfree-Freed data_ read t)
      | inr f ↦
          rw (bfree_read data_ read, f) (refl, refl, λ all. cc (all_set_of_used data_ read all))
    ]
  ]
