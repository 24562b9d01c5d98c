-- ===== src/Balloc/Volume.antt =====
-- The bits of the whole bitmap file, and what a change to one block of it does to them.
use tux.Base.{
  ℕ, ◌+◌, ◌*◌, ◌/◌, ◌%◌, ◌^◌, ◌≤◌, ◌<◌, ◌≡◌, arith, ◌==◌, ◌&&◌, Bool-cases, ==_iff, inl, inr,
  Option, none, some, true, if◌then◌else◌,
}
use tux.Base.Bits.{pow-pos}
use tux.Base.Memory.{Mem}
use tux.Bitmap.{bit_at, in_range, set_bits, clear_bits}
use tux.Bitmap.Ranges.{IsBytes, bit-set_bits, bit-clear_bits}
use tux.Balloc.{Sb, mapbits, write_block}
use native.Mathlib.Nat.{
  div-add-mod', mod-lt, mul-add-div_right, mul-add-mod_self_right, mul-le-mul_right,
  pow-le-pow_right, div-eq_of_lt, mod-eq_of_lt,
}

-- A bit of a block of the bitmap; a block that cannot be read shows 0.
abbrev pub block_bit : Option Mem → ℕ → ℕ
block_bit none i = 0
block_bit (some data_) i = bit_at data_ i

-- Bit `i` of the bitmap: 1 where block `i` of the volume is allocated.
abbrev pub used : Sb → ℕ → ℕ
used sb i = block_bit (sb.bitmap (i / mapbits sb)) (i % mapbits sb)

-- A block is at most 4096 bytes (`SB_LEN`), the volume has at most 2^31 blocks, so that block numbers
-- fit the `unsigned` values of the source, the allocation goal lies in it, and the readable blocks of
-- the bitmap hold bytes.
pub record IsValid (sb : Sb) : Type 0 where
  pub small : sb.blockbits ≤ 12
  pub volume : sb.volblocks ≤ 2 ^ 31
  pub goal : sb.nextalloc ≤ sb.volblocks
  pub bytes : (b : ℕ) (data_ : Mem) → sb.bitmap b ≡ some data_ → IsBytes data_

pub mapbits-pos : (sb : Sb) → 0 < mapbits sb
mapbits-pos sb = pow-pos (sb.blockbits + 3)

pub mapbits-le : (sb : Sb) → sb.blockbits ≤ 12 → mapbits sb ≤ 2 ^ 15
mapbits-le sb h = pow-le-pow_right {n = 2} (omega arith) {j = 15} (omega arith)

-- Rows of `m` cells.
module _ (m : ℕ) (pos : 0 < m) where
  pub row : (q r : ℕ) → r < m → (q * m + r) / m ≡ q
  row q r h = omega (arith, mul-add-div_right pos q r, div-eq_of_lt h)

  pub column : (q r : ℕ) → r < m → (q * m + r) % m ≡ r
  column q r h = omega (arith, mul-add-mod_self_right q m r, mod-eq_of_lt h)

  -- A range inside row `q`.
  pub in_range-row :
      (q from count i : ℕ)
      → from + count ≤ m
      → in_range (q * m + from) count i ≡ (i / m == q && in_range from count (i % m))
  in_range-row q from count i h =
      ground (arith, div-add-mod' i m, mod-lt i pos, apart (i / m) q, apart q (i / m))
    where
      apart : (a b : ℕ) → a < b → a * m + m ≤ b * m
      apart a b l = omega (arith, mul-le-mul_right m l)

-- Block `block` of the bitmap is written with a range of bits changed to `v`.
module _ (sb : Sb) (block : ℕ) (data_ written : Mem) (from count v : ℕ)
    (read : sb.bitmap block ≡ some data_)
    (law : (r : ℕ) → bit_at written r ≡ (if in_range from count r then v else bit_at data_ r)) where
  block_bit-write_block :
      (q r : ℕ)
      → block_bit (write_block sb.bitmap block written q) r
        ≡ (if q == block && in_range from count r then v else block_bit (sb.bitmap q) r)
  block_bit-write_block q r = elim (Bool-cases (q == block)) [
    | inl e ↦ let f : q ≡ block = (==_iff q block).0 e in rw e (rw (f, read) (law r))
    | inr e ↦ rw e
  ]

  used-write_block :
      (i : ℕ)
      → from + count ≤ mapbits sb
      → block_bit (write_block sb.bitmap block written (i / mapbits sb)) (i % mapbits sb)
        ≡ (if in_range (block * mapbits sb + from) count i then v else used sb i)
  used-write_block i fits =
      rw (in_range-row (mapbits sb) (mapbits-pos sb) block from count i fits)
        (block_bit-write_block (i / mapbits sb) (i % mapbits sb))

module _ (sb : Sb) (block : ℕ) (data_ : Mem) (from count i : ℕ) (valid : IsValid sb)
    (read : sb.bitmap block ≡ some data_) (fits : from + count ≤ mapbits sb) where
  -- The bits of the volume after `set_bits` or `clear_bits` on one block.
  pub used-set_block :
      block_bit
        (write_block sb.bitmap block (set_bits data_ from count) (i / mapbits sb))
        (i % mapbits sb)
      ≡ (if in_range (block * mapbits sb + from) count i then 1 else used sb i)
  used-set_block =
      used-write_block sb block data_ (set_bits data_ from count) from count 1 read
        (λ r. bit-set_bits data_ from count r (omega (arith, mapbits-le sb valid.small))) i fits

  pub used-clear_block :
      block_bit
        (write_block sb.bitmap block (clear_bits data_ from count) (i / mapbits sb))
        (i % mapbits sb)
      ≡ (if in_range (block * mapbits sb + from) count i then 0 else used sb i)
  used-clear_block =
      used-write_block sb block data_ (clear_bits data_ from count) from count 0 read
        (λ r. bit-clear_bits data_ from count r (omega (arith, mapbits-le sb valid.small))) i fits

-- A range that is `v` in its block is `v` in the volume.
pub used_of_block :
    (sb : Sb) (block : ℕ) (data_ : Mem) (from count v i : ℕ)
    → sb.bitmap block ≡ some data_
    → from + count ≤ mapbits sb
    → ((r : ℕ) → in_range from count r ≡ true → bit_at data_ r ≡ v)
    → in_range (block * mapbits sb + from) count i ≡ true
    → used sb i ≡ v
used_of_block sb block data_ from count v i read fits all p =
    go (i / mapbits sb) (i % mapbits sb)
      (rw (in_range-row (mapbits sb) (mapbits-pos sb) block from count i fits) at p)
  where
    go : (q r : ℕ) → (q == block && in_range from count r) ≡ true → block_bit (sb.bitmap q) r ≡ v
    go q r h = let f : q ≡ block = ground arith in rw (f, read) (all r (ground arith))

pub write_block-IsBytes :
    (bitmap : ℕ → Option Mem) (block : ℕ) (written : Mem)
    → ((b : ℕ) (data_ : Mem) → bitmap b ≡ some data_ → IsBytes data_)
    → IsBytes written
    → (b : ℕ) (data_ : Mem) → write_block bitmap block written b ≡ some data_
    → IsBytes data_
write_block-IsBytes bitmap block written all bytes b data_ e j = elim (Bool-cases (b == block)) [
  | inl here ↦ ground (arith, bytes j)
  | inr there ↦ all b data_ (ground arith) j
]
