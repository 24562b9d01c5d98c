-- ===== src/Bitmap/Ranges.antt =====
-- What `set_bits` and `clear_bits` change, and what `all_set` and `all_clear` decide.
use tux.Base.{
  ℕ, ◌+◌, ◌/◌, ◌%◌, ◌^◌, ◌<◌, ◌≤◌, ◌≡◌, arith, Bool, if◌then◌else◌, leb, ltb, ◌==◌, ◌&&◌, bit_and,
  bit_or,
}
use tux.Base.Bits.{bit, bit-bit_and, bit-bit_or, bit-le-one, bit_and-le, bit_or-lt}
use tux.Base.Memory.{Mem}
use tux.Bitmap.{
  lmask, rmask, not32, set_bits, clear_bits, set_span, clear_span, set_between, clear_between,
  bit_at, in_range, limit_of,
}
use tux.Bitmap.Masks.{
  bit-lmask, bit-rmask, bit-not_lmask, bit-not_rmask, rmask_empty, bit-full, bit-empty, lmask-lt,
  rmask-lt,
}

-- Orders between bit positions, byte first and then the bit in it.
pub leb_digits :
    (a b : ℕ) → leb a b ≡ (if a / 8 == b / 8 then leb (a % 8) (b % 8) else ltb (a / 8) (b / 8))
leb_digits a b = ground arith

pub ltb_digits :
    (a b : ℕ) → ltb a b ≡ (if a / 8 == b / 8 then ltb (a % 8) (b % 8) else ltb (a / 8) (b / 8))
ltb_digits a b = ground arith

-- Whether bit `k` of byte `j` lies from bit `s` of byte `a` up to bit `r` of byte `c`.
abbrev pub within : ℕ → ℕ → ℕ → ℕ → ℕ → ℕ → Bool
within a s c r j k = (if a == j then leb s k else ltb a j) && (if j == c then ltb k r else ltb j c)

abbrev pub IsBytes : Mem → Type 0
IsBytes bitmap = (j : ℕ) → bitmap j < 256

-- The first byte `a` and the last byte `c` of a range with their masks, and the bit `k` of byte `j`.
module _ (bitmap : Mem) (a s left c r right j k : ℕ) (ordered : a ≤ c)
    (some_right : (right == 0) ≡ (r == 0)) where
  bit-set_span :
      bit left k ≡ (if leb s k then 1 else 0)
      → bit right k ≡ (if ltb k r then 1 else 0)
      → bit 0xff k ≡ 1
      → bit (set_span bitmap a left c right j) k
        ≡ (if within a s c r j k then 1 else bit (bitmap j) k)
  unfolding set_span
  bit-set_span l g full = ground (
    arith,
    bit-bit_or (bitmap j) left k,
    bit-bit_or (bitmap j) right k,
    bit-bit_or (bitmap j) (bit_and left right) k,
    bit-bit_and left right k,
    bit-le-one (bitmap j) k,
  )

  bit-clear_span :
      bit (not32 left) k ≡ (if leb s k then 0 else 1)
      → bit (not32 right) k ≡ (if ltb k r then 0 else 1)
      → bit 0 k ≡ 0
      → bit (clear_span bitmap a left c right j) k
        ≡ (if within a s c r j k then 0 else bit (bitmap j) k)
  unfolding clear_span
  bit-clear_span l g none = ground (
    arith,
    bit-bit_and (bitmap j) (not32 left) k,
    bit-bit_and (bitmap j) (not32 right) k,
    bit-bit_and (bitmap j) (bit_or (not32 left) (not32 right)) k,
    bit-bit_or (not32 left) (not32 right) k,
    bit-le-one (bitmap j) k,
  )

pub below : (start count i : ℕ) → start + count < 2 ^ 32 → limit_of start count ≡ start + count
below start count i h = omega arith

-- `set_bits` sets the bits of its range to 1 and leaves every other bit of the bitmap as it was,
-- where the range ends below 2^32.
pub bit-set_bits :
    (bitmap : Mem) (start count i : ℕ)
    → start + count < 2 ^ 32
    → bit_at (set_bits bitmap start count) i
      ≡ (if in_range start count i then 1 else bit_at bitmap i)
unfolding set_bits
bit-set_bits bitmap start count i h =
    rw (below start count i h, leb_digits start i, ltb_digits i (start + count))
      (bit-set_span bitmap (start / 8) (start % 8) (lmask start) ((start + count) / 8)
        ((start + count) % 8) (rmask (start + count)) (i / 8) (i % 8) (omega arith)
        (rmask_empty (start + count)) (bit-lmask start (i % 8) (omega arith))
        (bit-rmask (start + count) (i % 8) (omega arith)) (bit-full (i % 8) (omega arith)))

-- `clear_bits` sets the bits of its range to 0 and leaves every other bit of the bitmap as it was,
-- where the range ends below 2^32.
pub bit-clear_bits :
    (bitmap : Mem) (start count i : ℕ)
    → start + count < 2 ^ 32
    → bit_at (clear_bits bitmap start count) i
      ≡ (if in_range start count i then 0 else bit_at bitmap i)
unfolding clear_bits
bit-clear_bits bitmap start count i h =
    rw (below start count i h, leb_digits start i, ltb_digits i (start + count))
      (bit-clear_span bitmap (start / 8) (start % 8) (lmask start) ((start + count) / 8)
        ((start + count) % 8) (rmask (start + count)) (i / 8) (i % 8) (omega arith)
        (rmask_empty (start + count)) (bit-not_lmask start (i % 8) (omega arith))
        (bit-not_rmask (start + count) (i % 8) (omega arith)) (bit-empty (i % 8) (omega arith)))

pub set_bits-IsBytes :
    (bitmap : Mem) (start count : ℕ) → IsBytes bitmap → IsBytes (set_bits bitmap start count)
unfolding set_bits set_between set_span
set_bits-IsBytes bitmap start count bytes j =
    let limit = limit_of start count in
    ground (
      arith,
      bytes j,
      bit_or-lt 8 (bitmap j) (lmask start) (bytes j) (lmask-lt start),
      bit_or-lt 8 (bitmap j) (rmask limit) (bytes j) (rmask-lt limit),
      bit_or-lt 8 (bitmap j) (bit_and (lmask start) (rmask limit)) (bytes j),
      bit_and-le (lmask start) (rmask limit),
      lmask-lt start,
    )

pub clear_bits-IsBytes :
    (bitmap : Mem) (start count : ℕ) → IsBytes bitmap → IsBytes (clear_bits bitmap start count)
unfolding clear_bits clear_between clear_span
clear_bits-IsBytes bitmap start count bytes j =
    let limit = limit_of start count in
    ground (
      arith,
      bytes j,
      bit_and-le (bitmap j) (not32 (lmask start)),
      bit_and-le (bitmap j) (not32 (rmask limit)),
      bit_and-le (bitmap j) (bit_or (not32 (lmask start)) (not32 (rmask limit))),
    )
