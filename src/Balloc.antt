-- ===== src/Balloc.antt =====
-- Block allocation (user/kernel/balloc.c): `balloc_from_range`, `balloc`, `bfree`, `update_bitmap`.
-- The bitmap file is a function from its blocks to their bytes; `none` is a block that `blockread`
-- fails to read. Locks, dirty marks and buffer counts are left out. `blockdirty` gives a buffer with
-- the same bytes (its error is not checked by the source either).
pub mod Scan
pub mod Volume
pub mod Alloc
pub mod Free
pub mod RoundTrip
pub mod Count
pub mod Update
pub mod Examples
use tux.Base.{
  ℕ, zero, suc, ◌+◌, ◌-◌, ◌*◌, ◌/◌, ◌%◌, ◌^◌, min, bit_and, ◌==◌, leb, ltb, if◌then◌else◌, Bool,
  true, false, Option, none, some,
}
use tux.Base.Memory.{Mem}
use tux.Errno.{Result, ok, err, eio, enomem, einval, enospc}
use tux.Bitmap.{set_bits, clear_bits, all_set, all_clear}

pub record Sb : Type 0 where
  pub blockbits : ℕ
  pub volblocks : ℕ
  pub freeblocks : ℕ
  pub nextalloc : ℕ
  pub bitmap : ℕ → Option Mem

-- Bits of one block of the bitmap: `1 << mapshift`, where `mapshift` is `blockbits + 3`.
abbrev pub mapbits : Sb → ℕ
mapbits sb = 2 ^ (sb.blockbits + 3)

abbrev pub u32 : ℕ → ℕ
u32 n = n % 2 ^ 32

-- `a - b` of two `block_t`, and its bit pattern when it is negative.
abbrev pub sub64 : ℕ → ℕ → ℕ
sub64 a b = (a + 2 ^ 64 - b) % 2 ^ 64

abbrev pub add64 : ℕ → ℕ → ℕ
add64 a b = (a + b) % 2 ^ 64

-- Outcome of the scan of one byte: the free bits in a row at its end, or the bit at which the run
-- is complete.
pub data BitScan : Type 0 where
  run_on : ℕ → BitScan
  hit : ℕ → BitScan

-- `for (i = startbit, mask = 1 << startbit; i < 8; i++, mask <<= 1)`, by the rounds left.
unfoldable pub scan_bits : ℕ → ℕ → ℕ → ℕ → ℕ → BitScan
scan_bits zero i run c blocks = run_on run
scan_bits (suc rounds) i run c blocks =
    let reset = scan_bits rounds (i + 1) 0 c blocks in
    let longer = scan_bits rounds (i + 1) (run + 1) c blocks in
    if bit_and c (2 ^ i) == 0 then if ltb (run + 1) blocks then longer else hit i else reset

-- `for (; p < top; p++, startbit = 0)`: the bit of the block at which the run is complete.
unfoldable pub scan_bytes : ℕ → ℕ → ℕ → ℕ → Mem → ℕ → Option ℕ
scan_bytes zero p startbit run data_ blocks = none
scan_bytes (suc rounds) p startbit run data_ blocks =
    let full = scan_bytes rounds (p + 1) 0 0 data_ blocks in
    let rest : Option ℕ = elim (scan_bits (8 - startbit) startbit run (data_ p) blocks) [
      | run_on run' ↦ scan_bytes rounds (p + 1) 0 run' data_ blocks
      | hit i ↦ some (i + p * 8)
    ] in
    if data_ p == 0xff then full else rest

-- `bitmap[block] = data`
abbrev pub write_block : (ℕ → Option Mem) → ℕ → Mem → ℕ → Option Mem
write_block bitmap block data_ b = if b == block then some data_ else bitmap b

-- The code from `found -= run - 1` on, where `run == blocks`.
unfoldable pub take_run : Sb → ℕ → Mem → ℕ → ℕ → ℕ × Sb
take_run sb mapblock data_ last blocks =
    let found = last - (blocks - 1) in
    (
      found,
      record sb {
        bitmap = write_block sb.bitmap mapblock (set_bits data_ (found % mapbits sb) blocks);
        nextalloc = found + blocks;
        freeblocks = sub64 sb.freeblocks blocks;
      },
    )

-- The loop over the blocks of the bitmap, by the rounds left. `none` is the result -1. `1 << blockbits`
-- is the block size; `mapblock << mapshift` is an `unsigned` shift. A run that ends at or past `limit`
-- ends the search: the source asserts that this is the last block.
unfoldable pub scan_blocks : ℕ → Sb → ℕ → ℕ → ℕ → ℕ → ℕ → ℕ → Option ℕ × Sb
scan_blocks zero sb mapblock offset startbit tail limit blocks = (none, sb)
scan_blocks (suc rounds) sb mapblock offset startbit tail limit blocks =
    let bytes = min (2 ^ sb.blockbits - offset) tail in
    let next =
      scan_blocks rounds sb (mapblock + 1) 0 (if bytes == 0 then startbit else 0) (tail - bytes)
        limit blocks in
    elim (sb.bitmap mapblock) [
      | none ↦ (none, sb)
      | some data_ ↦ elim (scan_bytes bytes offset startbit 0 data_ blocks) [
        | none ↦ next
        | some bit_ ↦
            let found = bit_ + u32 (mapblock * mapbits sb) in
            let (start, sb') = take_run sb mapblock data_ found blocks in
            if leb limit found then (none, sb) else (some start, sb')
      ]
    ]

unfoldable pub balloc_from_range : Sb → ℕ → ℕ → ℕ → Option ℕ × Sb
unfolding scan_blocks scan_bytes scan_bits take_run
balloc_from_range sb start count blocks =
    let limit = start + count in
    let mapmask = mapbits sb - 1 in
    let mapblocks = u32 ((limit + mapmask) / mapbits sb) in
    let mapblock = u32 (start / mapbits sb) in
    let offset = start % mapbits sb / 8 in
    let startbit = start % 8 in
    let tail = (count + startbit + 7) / 8 in
    scan_blocks (mapblocks - mapblock) sb mapblock offset startbit tail limit blocks

-- The end of `balloc`, after the search below the goal.
or_full : Option ℕ × Sb → Result ℕ × Sb
or_full (some block, sb) = (ok block, sb)
or_full (none, sb) = (err enospc, sb)

-- `balloc` after the search from the goal on.
or_lower : ℕ → ℕ → Option ℕ × Sb → Result ℕ × Sb
or_lower goal blocks (some block, sb) = (ok block, sb)
or_lower goal blocks (none, sb) = or_full (balloc_from_range sb 0 (u32 goal) blocks)

-- The count of blocks in each call is an `unsigned`.
unfoldable pub balloc : Sb → ℕ → Result ℕ × Sb
unfolding or_lower or_full
balloc sb blocks =
    let goal = sb.nextalloc in
    or_lower goal blocks (balloc_from_range sb goal (u32 (sub64 sb.volblocks goal)) blocks)

unfoldable pub bfree : Sb → ℕ → ℕ → Result (Unit {0}) × Sb
bfree sb start blocks =
    let mapblock = u32 (start / mapbits sb) in
    let bit_ = start % mapbits sb in
    elim (sb.bitmap mapblock) [
      | none ↦ (err eio, sb)
      | some data_ ↦
          if all_set data_ bit_ blocks
          then (
            ok tt,
            record sb {
              bitmap = write_block sb.bitmap mapblock (clear_bits data_ bit_ blocks);
              freeblocks = add64 sb.freeblocks blocks;
            },
          )
          else (err eio, sb)
    ]

-- `count` is an `unsigned`, so `-count` is its complement in 32 bits.
unfoldable pub update_bitmap : Sb → ℕ → ℕ → Bool → Result (Unit {0}) × Sb
update_bitmap sb start count set =
    let bit_ = start % mapbits sb in
    let block = start / mapbits sb in
    elim (sb.bitmap block) [
      | none ↦ (err enomem, sb)
      | some data_ ↦
          if (if set then all_clear data_ bit_ count else all_set data_ bit_ count)
          then (
            ok tt,
            record sb {
              bitmap =
                  write_block sb.bitmap block
                    (if set then set_bits data_ bit_ count else clear_bits data_ bit_ count);
              freeblocks = add64 sb.freeblocks (if set then count else u32 (2 ^ 32 - count));
            },
          )
          else (err einval, sb)
    ]
